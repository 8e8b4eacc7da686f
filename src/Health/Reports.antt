-- ===== src/Health/Reports.antt =====
-- What a report of internal/health says, by the records and the drops of its window.
use mikroscope.Common.{
  place_string, sort_strings, ℕ, ◌+◌, List, [], ◌∷◌, ◌++◌, Bool, false, ◌&&◌, ◌||◌, not, Bytes,
  bytes_eq, bytes_eq_iff, bytes_eq_refl, lookup, map, leb, ltb, ◌==◌, ◌≡◌, refl, sym, ap, ◌∙◌,
  arith, Bool-cases, inl, inr, u64, u64_mod, ◌<◌, sum_by,
}
use native.Mathlib.Nat.{zero-add}
use mikroscope.Procfs.Types.{KmsgRecord}
use mikroscope.Sample.Floats.{Floats}
use mikroscope.Sample.Types.{Sample, SoftnetDelta}
use mikroscope.Health.{
  PortEvents, no_events, Check, layer2_loop, stp_churn, link_flap, softnet_drops, Finding, Tally,
  events_at, tally_record, tally_records, tally_softnet, annotate_as, loop_or_churn, port_findings,
  all_port_findings, drop_findings, findings_of, tally_sample, tally_from, tally, analyze,
}
use mikroscope.Health.Counting.{per_kind, seen, tally_records_start}

abbrev number : Check → ℕ
number layer2_loop = 0
number stp_churn = 1
number link_flap = 2
number softnet_drops = 3

abbrev pub is_for : Check → Bytes → Finding → Bool
is_for c port f = (number f.check == number c) && bytes_eq f.port port

-- A finding of this kind about this port is in the list.
abbrev pub reported : Check → Bytes → List Finding → Bool
reported c port [] = false
reported c port (f ∷ fs) = is_for c port f || reported c port fs

reported-append :
    (c : Check) (port : Bytes) (xs ys : List Finding)
    → reported c port (xs ++ ys) ≡ (reported c port xs || reported c port ys)
reported-append c port [] ys = refl
reported-append c port (x ∷ xs) ys = ground (arith, reported-append c port xs ys)

-- The three checks of a port, from its counts.
abbrev pub shows : Check → PortEvents → Bool
shows layer2_loop e = leb 3 e.own_address
shows stp_churn e = not (leb 3 e.own_address) && leb (e.forwarding + 3) e.learning
shows link_flap e = leb 2 e.link_down
shows softnet_drops e = false

port_findings_lem :
    (c : Check) (port p : Bytes) (e : PortEvents)
    → reported c port (port_findings p e) ≡ (bytes_eq p port && shows c e)
unfolding port_findings loop_or_churn
port_findings_lem layer2_loop port p e = ground arith
port_findings_lem stp_churn port p e = ground arith
port_findings_lem link_flap port p e = ground arith
port_findings_lem softnet_drops port p e = ground arith

abbrev member : Bytes → List Bytes → Bool
member s [] = false
member s (t ∷ ts) = bytes_eq t s || member s ts

member-place_string :
    (s t : Bytes) (ts : List Bytes) → member s (place_string t ts) ≡ (bytes_eq t s || member s ts)
unfolding place_string
member-place_string s t [] = refl
member-place_string s t (u ∷ ts) = ground (arith, member-place_string s t ts)

member-sort_strings : (s : Bytes) (ts : List Bytes) → member s (sort_strings ts) ≡ member s ts
unfolding sort_strings
member-sort_strings s [] = refl
member-sort_strings s (t ∷ ts) =
    member-place_string s t (sort_strings ts)
    ∙ ap (λ b. bytes_eq t s || b) (member-sort_strings s ts)

all_port_findings_lem :
    (c : Check) (port : Bytes) (m : List (Bytes × PortEvents)) (ps : List Bytes)
    → reported c port (all_port_findings m ps) ≡ (member port ps && shows c (events_at port m))
unfolding all_port_findings
all_port_findings_lem c port m [] = refl
all_port_findings_lem c port m (p ∷ ps) =
    reported-append c port (port_findings p (events_at p m)) (all_port_findings m ps)
    ∙ ap (λ b. b || reported c port (all_port_findings m ps))
        (port_findings_lem c port p (events_at p m))
    ∙ ap (λ b. (bytes_eq p port && shows c (events_at p m)) || b)
        (all_port_findings_lem c port m ps)
    ∙ elim (Bool-cases (bytes_eq p port)) [
      | inl e ↦ rw ((bytes_eq_iff p port).0 e, bytes_eq_refl port) (ground arith)
      | inr e ↦ rw e refl
    ]

shows_none : (c : Check) → shows c no_events ≡ false
shows_none layer2_loop = refl
shows_none stp_churn = refl
shows_none link_flap = refl
shows_none softnet_drops = refl

keys_lem :
    (c : Check) (port : Bytes) (m : List (Bytes × PortEvents))
    → (member port (map (λ e. e.0) m) && shows c (events_at port m)) ≡ shows c (events_at port m)
unfolding lookup
keys_lem c port [] = sym (shows_none c)
keys_lem c port ((p, e) ∷ m) = elim (Bool-cases (bytes_eq p port)) [
  | inl here ↦ rw here refl
  | inr other ↦ rw other (keys_lem c port m)
]

tally_records-append :
    (board : Bytes) (xs ys : List KmsgRecord) (m : List (Bytes × PortEvents))
    → tally_records board (xs ++ ys) m ≡ tally_records board ys (tally_records board xs m)
unfolding tally_records
tally_records-append board [] ys m = refl
tally_records-append board (x ∷ xs) ys m = tally_records-append board xs ys (tally_record board x m)

softnet_ports :
    (cpu : ℕ) (sns : List SoftnetDelta) (t : Tally) → (tally_softnet cpu sns t).ports ≡ t.ports
unfolding tally_softnet
softnet_ports cpu [] t = refl
softnet_ports cpu (sn ∷ sns) t = softnet_ports (cpu + 1) sns _ ∙ ground arith

softnet_dropped :
    (cpu : ℕ) (sns : List SoftnetDelta) (t : Tally)
    → t.dropped < u64_mod
    → (tally_softnet cpu sns t).dropped ≡ u64 (t.dropped + sum_by (λ sn. sn.dropped) sns)
unfolding tally_softnet
softnet_dropped cpu [] t h = omega arith
softnet_dropped cpu (sn ∷ sns) t h = softnet_dropped (cpu + 1) sns _ (ground arith) ∙ ground arith

drop_findings_lem :
    (c : Check) (port : Bytes) (t : Tally)
    → reported c port (drop_findings t) ≡ ((number c == 3) && (bytes_eq [] port && ltb 0 t.dropped))
unfolding drop_findings
drop_findings_lem layer2_loop port t = ground arith
drop_findings_lem stp_churn port t = ground arith
drop_findings_lem link_flap port t = ground arith
drop_findings_lem softnet_drops port t = ground arith

findings_of_lem :
    (c : Check) (port : Bytes) (t : Tally)
    → reported c port (findings_of t) ≡ (
        shows c (events_at port t.ports)
        || ((number c == 3) && (bytes_eq [] port && ltb 0 t.dropped)))
unfolding findings_of
findings_of_lem c port t =
    let names = map (λ e. e.0) t.ports in
    let ports : reported c port (all_port_findings t.ports (sort_strings names))
        ≡ shows c (events_at port t.ports) =
      all_port_findings_lem c port t.ports (sort_strings names)
      ∙ ap (λ b. b && shows c (events_at port t.ports)) (member-sort_strings port names)
      ∙ keys_lem c port t.ports in
    reported-append c port (all_port_findings t.ports (sort_strings names)) (drop_findings t)
    ∙ ap (λ b. b || reported c port (drop_findings t)) ports
    ∙ ap (λ b. shows c (events_at port t.ports) || b) (drop_findings_lem c port t)

-- The records of a window, in the order of its samples, and the packets dropped in it.
module _ {F : Type 0} where
  abbrev pub all_events : List (Sample F) → List KmsgRecord
  all_events [] = []
  all_events (s ∷ ss) = s.events ++ all_events ss

  abbrev pub all_drops : List (Sample F) → ℕ
  all_drops ss = sum_by (λ s. sum_by (λ sn. sn.dropped) s.softnet) ss

  tally_ports :
      (board : Bytes) (ss : List (Sample F)) (t : Tally)
      → (tally_from board ss t).ports ≡ tally_records (annotate_as board) (all_events ss) t.ports
  unfolding tally_from tally_sample tally_records
  tally_ports board [] t = refl
  tally_ports board (s ∷ ss) t =
      tally_ports board ss (tally_sample board s t)
      ∙ ap (tally_records (annotate_as board) (all_events ss)) (softnet_ports 0 s.softnet _)
      ∙ sym (tally_records-append (annotate_as board) s.events (all_events ss) t.ports)

  tally_dropped :
      (board : Bytes) (ss : List (Sample F)) (t : Tally)
      → t.dropped < u64_mod
      → (tally_from board ss t).dropped ≡ u64 (t.dropped + all_drops ss)
  unfolding tally_from tally_sample
  tally_dropped board [] t h = omega arith
  tally_dropped board (s ∷ ss) t h =
      let start = record t { ports = tally_records (annotate_as board) s.events t.ports } in
      let now = softnet_dropped 0 s.softnet start h in
      tally_dropped board ss (tally_sample board s t) (omega (arith, now)) ∙ omega (arith, now)

  -- For each of the three checks of a port, the report has a finding for a port exactly when the
  -- records of the window that are about that port say so by their numbers, whatever their order:
  -- three or more of its own address make a loop; otherwise a churn is made by moves to learning that
  -- are at least three more than its moves to forwarding; and two or more lost links make a flap. It
  -- has the finding on drops exactly when the packets dropped, added up modulo 2 ^ 64, are not 0.
  pub analyze_lem :
      (fl : Floats F) (board : Bytes) (ss : List (Sample F)) (c : Check) (port : Bytes)
      → reported c port (analyze fl board ss).findings ≡ (
          shows c (per_kind (seen (annotate_as board) port (all_events ss)))
          || ((number c == 3) && (bytes_eq [] port && ltb 0 (u64 (all_drops ss)))))
  unfolding analyze tally
  analyze_lem fl board ss c port =
      let start : Tally = record { ports = []; dropped = 0; drop_cores = [] } in
      let name = annotate_as board in
      let ports =
        ap (events_at port) (tally_ports board ss start)
        ∙ tally_records_start name port (all_events ss) in
      findings_of_lem c port (tally board ss)
      ∙ ap
          (λ e.
            shows c e || ((number c == 3) && (bytes_eq [] port && ltb 0 (tally board ss).dropped)))
          ports
      ∙ ap
          (λ d.
            shows c (per_kind (seen name port (all_events ss)))
            || ((number c == 3) && (bytes_eq [] port && ltb 0 d)))
          (tally_dropped board ss start (omega arith) ∙ ap u64 (zero-add (all_drops ss)))
