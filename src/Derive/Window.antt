-- ===== src/Derive/Window.antt =====
-- internal/derive/derive.go: the trailing baselines, `New` and the sizes.
pub mod Trail
use mikroscope.Common.{
  ℕ, ◌+◌, ◌-◌, ◌*◌, ◌/◌, ◌%◌, min, max, List, [], ◌∷◌, ◌++◌, Option, none, some, Bool, true, false,
  ℤ, pos, pos_part, lebℤ, length, get_or, set, ltb, ◌==◌, if◌then◌else◌, codes,
}
use mikroscope.Sample.Floats.{Floats}
use mikroscope.Derive.Types.{Window, Stage, Options, no_text}

-- `baselineSamples`: a rate below 1 is the default of 10 a second.
unfoldable pub baseline_samples : ℤ → ℕ
baseline_samples rate_hz =
    let hz = if lebℤ (pos 1) rate_hz then pos_part rate_hz else 10 in min (max (hz * 10) 10) 2000

abbrev default_refractory : ℤ
default_refractory = pos 10000000000

unfoldable pub new_stage : {F : Type 0} → Options → Stage F
new_stage opts = record {
  opts = record {
    refractory_ns =
        if lebℤ opts.refractory_ns (pos 0) then default_refractory else opts.refractory_ns;
    rate_hz = if lebℤ (pos 1) opts.rate_hz then opts.rate_hz else pos 10;
  };
  prev_seq = 0;
  prev_kmsg_us = 0;
  link_events = [];
  softnet = [];
  squeezes = [];
  burst_at = [];
  prev_ct = 0;
  ct_limit = 0;
  ct_history = [];
  thermal = [];
  ipc = [];
  prev_ctrs = [];
  last_fire = [];
  suppressed = 0;
  recent = [];
  frozen = none;
  frozen_at = pos 0;
  boot_id = [];
  boot_same = false;
  boot_from = [];
  boot_log = no_text;
  boot_log_wait = false;
  boot_held_at = pos 0;
}

module _ {F : Type 0} where
  abbrev pub new_window : ℕ → Window F
  new_window cap = record { vals = []; cap = cap; next = 0; full = false }

  abbrev pub sized : Window F → Window F
  sized w = if w.cap == 0 then record w { cap = baseline_samples (pos 10) } else w

  abbrev pub replaced : F → Window F → Window F
  replaced v w = record w { vals = set w.vals w.next v; next = (w.next + 1) % w.cap; full = true }

  abbrev pub push_sized : F → Window F → Window F
  push_sized v w =
      if ltb (length w.vals) w.cap then record w { vals = w.vals ++ v ∷ [] } else replaced v w

  -- `window.push`.
  unfoldable pub push_value : F → Window F → Window F
  unfolding baseline_samples
  push_value v w = push_sized v (sized w)

  module _ (fl : Floats F) where
    -- `sort.Float64s`, of numbers that are no NaN.
    unfoldable pub place_float : F → List F → List F
    place_float v [] = v ∷ []
    place_float v (u ∷ us) =
        let rest = place_float v us in if fl.lt u v then u ∷ rest else v ∷ (u ∷ us)

    unfoldable pub sort_floats : List F → List F
    unfolding place_float
    sort_floats [] = []
    sort_floats (v ∷ vs) = place_float v (sort_floats vs)

    -- `median` of a list that is not empty.
    unfoldable pub median : List F → F
    unfolding sort_floats
    median vals =
        let c = sort_floats vals in
        let n = length c in
        let zero_value = fl.of_ℕ 0 in
        if n % 2 == 1
        then get_or c (n / 2) zero_value
        else fl.div (fl.add (get_or c (n / 2 - 1) zero_value) (get_or c (n / 2) zero_value))
            (fl.of_ℕ 2)

    -- `window.median` and `window.p90`.
    unfoldable pub window_median : Window F → Option F
    unfolding median
    window_median w = if ltb (length w.vals) 10 then none else some (median w.vals)

    unfoldable pub window_p90 : Window F → Option F
    unfolding sort_floats
    window_p90 w =
        let c = sort_floats w.vals in
        if ltb (length w.vals) 10 then none else some (get_or c (length c * 9 / 10) (fl.of_ℕ 0))
