-- ===== src/Derive/Rules.antt =====
-- internal/derive/derive.go: the rules of `Kernel`, each over what it has of the stage.
use mikroscope.Common.{
  ℕ, zero, suc, List, [], ◌∷◌, ◌++◌, none, some, Bool, true, false, ◌&&◌, ◌||◌, not, Bytes, codes,
  bytes_eq, itoa, ℤ, pos, sub_int64, lebℤ, lookup, insert, length, get_or, set, ltb, leb, ◌==◌,
  if◌then◌else◌, or_else, of_some,
}
use mikroscope.Procfs.Types.{KmsgRecord}
use mikroscope.Procfs.Ports.{kmsg_kind}
use mikroscope.Sample.Floats.{Floats}
use mikroscope.Sample.Types.{Sample, SoftnetDelta}
use mikroscope.Derive.Types.{
  Rule, microburst, reboot, link_flap, conntrack_cliff, conntrack_high, Point, Window, Detection,
  Stage,
}
use mikroscope.Derive.Window.{baseline_samples, new_window, push_value, window_median, window_p90}
use mikroscope.Derive.LeadUp.{cut_older, lead_up_for_reboot}
use mikroscope.Derive.Fire.{Firing, emit_if}

abbrev minute : ℤ
minute = pos 60000000000

-- `a - b >= d`.
abbrev pub is_past : ℤ → ℤ → ℤ → Bool
is_past a b d = lebℤ d (sub_int64 a b)

-- The loop that makes the windows of a core that was not met before.
unfoldable pub padded : {A : Type 0} → ℕ → A → List A → List A
padded zero a xs = xs
padded (suc n) a [] = a ∷ padded n a []
padded (suc n) a (x ∷ xs) = x ∷ padded n a xs

module _ {F : Type 0} (fl : Floats F) where
  abbrev pub detection : Sample F → Rule → Bytes → F → F → Detection F
  detection s rule key value threshold = record {
    rule = rule;
    key = key;
    seq = s.seq;
    wall_ns = s.wall_ns;
    value = value;
    threshold = threshold;
    before = none;
  }

  -- `isBurst`, with the two windows of the core.
  unfoldable pub is_burst : Window F → Window F → SoftnetDelta → Bool
  unfolding window_median window_p90
  is_burst w sw n =
      let squeezed =
        of_some false (λ p90. leb 3 n.time_squeeze && fl.lt p90 (fl.of_ℕ n.time_squeeze))
          (window_p90 fl sw) in
      of_some false
        (λ med.
          if fl.lt med (fl.of_ℕ n.processed)
          then false
          else if ltb 0 n.dropped
          then true
          else squeezed)
        (window_median fl w)

  abbrev fresh_window : Stage F → Window F
  fresh_window st = new_window (baseline_samples st.opts.rate_hz)

  abbrev with_core : ℕ → Stage F → Stage F
  with_core i st = record st {
    softnet = padded (suc i) (fresh_window st) st.softnet;
    squeezes = padded (suc i) (fresh_window st) st.squeezes;
    burst_at = padded (suc i) [] st.burst_at;
  }

  abbrev episode : Sample F → ℕ → Stage F → List ℤ
  episode s i st = cut_older (λ t. t) minute s.wall_ns (get_or st.burst_at i [] ++ s.wall_ns ∷ [])

  abbrev burst_hit : Sample F → ℕ → Firing F → Firing F
  burst_hit s i r =
      let at = episode s i r.stage in
      emit_if (leb 3 (length at))
        (detection s microburst (codes "cpu" ++ itoa i) (fl.of_ℕ (length at)) (fl.of_ℕ 3))
        (record r { stage = record r.stage { burst_at = set r.stage.burst_at i at } })

  abbrev window_at : ℕ → List (Window F) → Window F
  window_at i ws = get_or ws i (new_window 0)

  abbrev pushed : ℕ → SoftnetDelta → Stage F → Stage F
  pushed i n st = record st {
    softnet = set st.softnet i (push_value (fl.of_ℕ n.processed) (window_at i st.softnet));
    squeezes = set st.squeezes i (push_value (fl.of_ℕ n.time_squeeze) (window_at i st.squeezes));
  }

  abbrev core_burst : ℕ → SoftnetDelta → Stage F → Bool
  core_burst i n st = is_burst (window_at i st.softnet) (window_at i st.squeezes) n

  abbrev burst_core : Sample F → ℕ → SoftnetDelta → Firing F → Firing F
  burst_core s i n r =
      let hit = burst_hit s i r in
      let r' = if core_burst i n r.stage then hit else r in
      record r' { stage = pushed i n r'.stage }

  -- The loop of `burst`.
  unfoldable pub burst_cores : Sample F → ℕ → List SoftnetDelta → Bool → Firing F → Firing F × Bool
  unfolding is_burst padded
  burst_cores s i [] hit r = (r, hit)
  burst_cores s i (n ∷ ns) hit r =
      let ready = record r { stage = with_core i r.stage } in
      burst_cores s (suc i) ns (core_burst i n ready.stage || hit) (burst_core s i n ready)

  abbrev clock_back : Sample F → KmsgRecord → Firing F → Firing F
  clock_back s ev r =
      let (st, lu) = lead_up_for_reboot fl s.wall_ns r.stage in
      let d =
        detection s reboot [] (fl.div (fl.of_ℕ ev.time_usec) (fl.of_ℕ 1000000))
          (fl.div (fl.of_ℕ r.stage.prev_kmsg_us) (fl.of_ℕ 1000000)) in
      emit_if true (record d { before = some lu }) (record r { stage = st })

  abbrev reboot_rule : Sample F → KmsgRecord → Firing F → Firing F
  reboot_rule s ev r =
      let back = clock_back s ev r in
      let r' =
        if ltb 0 r.stage.prev_kmsg_us && ltb ev.time_usec r.stage.prev_kmsg_us then back else r in
      record r' { stage = record r'.stage { prev_kmsg_us = ev.time_usec } }

  abbrev is_link : Bytes → Bool
  is_link kind = bytes_eq kind (codes "link-up") || bytes_eq kind (codes "link-down")

  abbrev link_port : KmsgRecord → Bytes
  link_port ev = if length ev.ros_iface == 0 then ev.iface else ev.ros_iface

  abbrev link_rule : Sample F → KmsgRecord → Firing F → Firing F
  link_rule s ev r =
      let port = link_port ev in
      let hist =
        cut_older (λ t. t) minute s.wall_ns
          (or_else [] (lookup port r.stage.link_events) ++ s.wall_ns ∷ []) in
      emit_if (leb 2 (length hist)) (detection s link_flap port (fl.of_ℕ (length hist)) (fl.of_ℕ 2))
        (record r { stage = record r.stage { link_events = insert port hist r.stage.link_events } })

  unfoldable pub kmsg_rule : Sample F → KmsgRecord → Firing F → Firing F
  kmsg_rule s ev r =
      let r' = reboot_rule s ev r in
      let linked = link_rule s ev r' in
      if length ev.iface == 0 || not (is_link (kmsg_kind ev.message)) then r' else linked

  -- `kmsgRules`.
  unfoldable pub kmsg_rules : Sample F → List KmsgRecord → Firing F → Firing F
  unfolding kmsg_rule
  kmsg_rules s [] r = r
  kmsg_rules s (ev ∷ evs) r = kmsg_rules s evs (kmsg_rule s ev r)

  abbrev half : F
  half = fl.div (fl.of_ℕ 1) (fl.of_ℕ 2)

  abbrev pub cliff_rule : Sample F → ℕ → Firing F → Firing F
  cliff_rule s ct r =
      emit_if (ltb 0 r.stage.prev_ct && fl.lt (fl.of_ℕ ct) (fl.mul half (fl.of_ℕ r.stage.prev_ct)))
        (detection s conntrack_cliff [] (fl.of_ℕ ct) (fl.of_ℕ r.stage.prev_ct)) r

  abbrev pub note_ct : Sample F → ℕ → ℕ → Stage F → Stage F
  note_ct s ct limit st = record st {
    prev_ct = ct;
    ct_history =
        cut_older (λ p. p.wall_ns) minute s.wall_ns
          (st.ct_history ++ record { wall_ns = s.wall_ns; v = fl.of_ℕ ct } ∷ []);
    ct_limit = (if ltb 0 limit then limit else st.ct_limit);
  }

  -- The oldest population that is kept; there is one, that of this sample.
  abbrev first_ct : List (Point F) → F
  first_ct [] = fl.of_ℕ 0
  first_ct (p ∷ ps) = p.v

  abbrev pub high_rule : Sample F → ℕ → ℕ → Firing F → Firing F
  high_rule s ct limit r =
      let occ = fl.div (fl.of_ℕ ct) (fl.of_ℕ limit) in
      let most = fl.div (fl.of_ℕ 8) (fl.of_ℕ 10) in
      emit_if
        (not (limit == 0 || ltb (length r.stage.ct_history) 2)
          && (fl.lt most occ && fl.lt (first_ct r.stage.ct_history) (fl.of_ℕ ct)))
        (detection s conntrack_high [] occ most) r

  abbrev pub conntrack_of : Sample F → ℕ → Firing F → Firing F
  conntrack_of s ct r =
      let limit = or_else 0 (lookup (codes "nf_conntrack") s.slab_limit) in
      let r' = cliff_rule s ct r in
      high_rule s ct limit (record r' { stage = note_ct s ct limit r'.stage })

  -- `conntrackRules`.
  unfoldable pub conntrack_rules : Sample F → Firing F → Firing F
  conntrack_rules s r = of_some r (λ ct. conntrack_of s ct r) (lookup (codes "nf_conntrack") s.slab)
