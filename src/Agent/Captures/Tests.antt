-- ===== src/Agent/Captures/Tests.antt =====
-- An evaluator with one condition, a window of one sample on either side and a budget of 20 bytes.
use mikroscope.Common.{
  ℕ, ◌+◌, ◌≤◌, ◌<◌, [], ◌∷◌, ◌++◌, some, none, Bytes, codes, pos, ◌≡◌, refl, arith, drop, bump,
  bytes_eq, ◌⊎◌, map, lookup,
}
use mikroscope.Sample.Floats.{micro}
use mikroscope.Sample.Delta.{delta}
use mikroscope.Sample.Types.{Sample}
use mikroscope.Sample.Fixtures.{quiet_at}
use mikroscope.Agent.Ring.{Entry, Ring, new_ring, store, tail}
use mikroscope.Agent.Ring.History.{store_all}
use mikroscope.Agent.Captures.Types.{
  Condition, Capture, CaptureConfig, Captures, busy, policy_last, policy_first, new_captures,
}
use mikroscope.Agent.Captures.Fire.{fire, armed, observe, refractory_key, fire_manual}
use mikroscope.Agent.Captures.Collect.{window, collect, filled, size_of, after_push}
use mikroscope.Agent.Captures.Budget.{WithinBudget}
use mikroscope.Agent.Captures.Room.{MinimalRoom, collect_last, collect_first}
use mikroscope.Agent.Captures.Quiet.{
  Near, CountedOnce, fire_accounted, fire_refractory, Other, Others,
}
use mikroscope.Agent.Captures.Reachable.{Reachable, reachable-WithinBudget}

abbrev entry : ℕ → Entry ℕ
entry n = record { seq = n; mono_ns = pos 0; dt_ns = pos 0; busy = []; line = n ∷ 10 ∷ [] }

abbrev ring : Ring ℕ
ring = store_all (map entry (1 ∷ 2 ∷ 3 ∷ 4 ∷ [])) (new_ring 3)

abbrev cpu_busy : Condition ℕ
cpu_busy = record { name = codes "cpu_busy"; threshold = 500000; kind = busy }

abbrev config : Bytes → CaptureConfig ℕ
config policy = record {
  conditions = cpu_busy ∷ [];
  rate_hz = 1;
  pre_s = 1;
  post_s = 1;
  budget = 20;
  policy = policy;
  refractory = 5;
}

-- The evaluator at its start.
abbrev started : Bytes → Captures ℕ
started policy = record {
  cfg = config policy;
  pre = 1;
  post = 1;
  refr = 5;
  last_fire = [];
  fired = [];
  suppressed = [];
  refused = [];
  pending = none;
  held = [];
  bytes = 0;
  next_id = 0;
  served = 0;
  markers = [];
  prev_mem_avail = 0;
  prev_bad = [];
}

is_made : new_captures (config policy_last) ≡ some (started policy_last)
unfolding new_captures bytes_eq
is_made = refl

-- The capture of a fire at the third sample.
abbrev third : Captures ℕ → Capture ℕ
third c = armed 0 (codes "cpu_busy") (some cpu_busy) [] 900000 3 (pos 3) (pos 3) c

abbrev fired_third : Captures ℕ → Captures ℕ
fired_third c = fire 0 (codes "cpu_busy") (some cpu_busy) [] 900000 3 (pos 3) (pos 3) c

three_found : window (third (started policy_last)) 3 ring ≡ entry 2 ∷ entry 3 ∷ entry 4 ∷ []
unfolding window armed tail store new_ring
three_found = refl

three_found_first : window (third (started policy_first)) 3 ring ≡ entry 2 ∷ entry 3 ∷ entry 4 ∷ []
unfolding window armed tail store new_ring
three_found_first = refl

started-WithinBudget : WithinBudget (started policy_last)
started-WithinBudget = record {
  exact = refl;
  capped = omega arith;
  few_markers = omega arith;
  honest = tt;
}

collect_last_example :
    (k : ℕ) × ((collect (third (started policy_last)) ring (started policy_last)).held
      ≡ drop k [] ++ filled (third (started policy_last)) (entry 2) (entry 3 ∷ entry 4 ∷ []) 3 ∷ [])
    × MinimalRoom {F = ℕ} 20 (size_of (entry 2 ∷ entry 3 ∷ entry 4 ∷ [])) [] k
collect_last_example =
    collect_last (third (started policy_last)) ring (started policy_last) (entry 2)
      (entry 3 ∷ entry 4 ∷ []) started-WithinBudget refl three_found (omega arith)

collect_first_example :
    let c = started policy_first in
    let c' = collect (third c) ring c in
    ((0 + size_of (entry 2 ∷ entry 3 ∷ entry 4 ∷ []) ≤ 20)
      × (c'.held ≡ [] ++ filled (third c) (entry 2) (entry 3 ∷ entry 4 ∷ []) 3 ∷ [])
      × (c'.bytes ≡ 0 + size_of (entry 2 ∷ entry 3 ∷ entry 4 ∷ [])))
    ⊎ ((20 < 0 + size_of (entry 2 ∷ entry 3 ∷ entry 4 ∷ [])) × (c'.held ≡ []) × (c'.bytes ≡ 0))
collect_first_example =
    collect_first (third (started policy_first)) ring (started policy_first) (entry 2)
      (entry 3 ∷ entry 4 ∷ []) refl three_found_first

fire_accounted_example :
    let c = started policy_last in
    let c' = fired_third c in
    (Near (codes "cpu_busy") 3 c
      × (c'.fired ≡ c.fired)
      × CountedOnce (codes "cpu_busy" ++ 0 ∷ codes "refractory") c.suppressed c'.suppressed)
    ⊎ ((Near (codes "cpu_busy") 3 c → ⊥)
        × ((p : Capture ℕ) × (c.pending ≡ some p))
        × (c'.fired ≡ c.fired)
        × CountedOnce (codes "cpu_busy" ++ 0 ∷ codes "pending") c.suppressed c'.suppressed)
    ⊎ ((Near (codes "cpu_busy") 3 c → ⊥)
        × (c.pending ≡ none)
        × CountedOnce (codes "cpu_busy") c.fired c'.fired
        × (c'.suppressed ≡ c.suppressed))
unfolding lookup
fire_accounted_example =
    fire_accounted 0 (codes "cpu_busy") (some cpu_busy) [] 900000 3 (pos 3) (pos 3)
      (started policy_last) (omega arith) (omega arith) (omega arith)

-- After the fire, its window is collected.
abbrev collected : Captures ℕ
collected = after_push ring 4 (fired_third (started policy_last))

fire_refractory_example :
    fire 0 (codes "cpu_busy") (some cpu_busy) [] 950000 7 (pos 7) (pos 7) collected
    ≡ record collected {
      suppressed = bump (refractory_key (codes "cpu_busy")) collected.suppressed;
    }
unfolding lookup
fire_refractory_example =
    fire_refractory (codes "cpu_busy") (started policy_last) collected 0 (some cpu_busy)
      (some cpu_busy) [] [] 900000 950000 3 7 (pos 3) (pos 3) (pos 7) (pos 7) refl refl
      (Others.next Others.here (Other.pushed ring 4 (fired_third (started policy_last))))
      (omega arith) (omega arith) (omega arith)

abbrev quiet : Sample ℕ
quiet = (delta (quiet_at 0) (quiet_at 1) 1 4 0).0

abbrev lived : Captures ℕ
lived =
    after_push ring 4
      (fire_manual 0 (codes "by hand") 3 (pos 3) (pos 3)
        (observe micro quiet (started policy_last))).0

reached : Reachable micro (config policy_last) lived
reached = Reachable.pushed ring 4 (
    Reachable.fired 0 (codes "by hand") 3 (pos 3) (pos 3)
      (Reachable.observed quiet (Reachable.made _ is_made)))

reachable-WithinBudget_example : WithinBudget lived
reachable-WithinBudget_example =
    reachable-WithinBudget micro {cfg = config policy_last} {c = lived} reached
