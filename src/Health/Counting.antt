-- ===== src/Health/Counting.antt =====
-- The tally of internal/health as counts over the records of the window.
use mikroscope.Common.{
  ℕ, ◌+◌, ◌<◌, List, [], ◌∷◌, Bool, true, false, ◌&&◌, Bytes, codes, bytes_eq, bytes_eq_iff, lookup,
  insert, lookup-insert, length, select, ◌==◌, ==_iff, if◌then◌else◌, ◌≡◌, refl, sym, ap, ◌∙◌,
  arith, Bool-cases, inl, inr,
}
use mikroscope.Procfs.Types.{KmsgRecord}
use mikroscope.Procfs.Ports.{annotate_kmsg}
use mikroscope.Health.{
  PortEvents, no_events, count, events_at, port_of, count_port, tally_record, tally_records,
}

abbrev add : PortEvents → PortEvents → PortEvents
add a b = record {
  own_address = a.own_address + b.own_address;
  blocking = a.blocking + b.blocking;
  learning = a.learning + b.learning;
  forwarding = a.forwarding + b.forwarding;
  link_down = a.link_down + b.link_down;
}

-- One count for each kind, from how often a kind was met.
abbrev pub per_kind : (Bytes → ℕ) → PortEvents
per_kind n = record {
  own_address = n (codes "own-address");
  blocking = n (codes "stp-blocking");
  learning = n (codes "stp-learning");
  forwarding = n (codes "stp-forwarding");
  link_down = n (codes "link-down");
}

abbrev once : Bool → ℕ
once true = 1
once false = 0

-- The records that are, once annotated, about a port and of a kind.
abbrev pub is_about : Bytes → Bytes → Bytes → KmsgRecord → Bool
is_about board port kind raw =
    let r = annotate_kmsg board raw in bytes_eq (port_of r) port && bytes_eq r.kind kind

abbrev pub seen : Bytes → Bytes → List KmsgRecord → Bytes → ℕ
seen board port rs kind = length (select (is_about board port kind) rs)

same_events :
    {a b : PortEvents}
    → a.own_address ≡ b.own_address
    → a.blocking ≡ b.blocking
    → a.learning ≡ b.learning
    → a.forwarding ≡ b.forwarding
    → a.link_down ≡ b.link_down
    → a ≡ b
same_events e1 e2 e3 e4 e5 = λ i. record {
  own_address = e1 i;
  blocking = e2 i;
  learning = e3 i;
  forwarding = e4 i;
  link_down = e5 i;
}

count-add :
    (k : Bytes) (pe : PortEvents) → count k pe ≡ add pe (per_kind (λ j. once (bytes_eq k j)))
unfolding count bytes_eq
count-add k pe = elim (Bool-cases (bytes_eq k (codes "own-address"))) [
  | inl e ↦
      rw ((bytes_eq_iff k (codes "own-address")).0 e)
        (same_events (omega arith) (omega arith) (omega arith) (omega arith) (omega arith))
  | inr e0 ↦ elim (Bool-cases (bytes_eq k (codes "stp-blocking"))) [
    | inl e ↦
        rw ((bytes_eq_iff k (codes "stp-blocking")).0 e)
          (same_events (omega arith) (omega arith) (omega arith) (omega arith) (omega arith))
    | inr e1 ↦ elim (Bool-cases (bytes_eq k (codes "stp-learning"))) [
      | inl e ↦
          rw ((bytes_eq_iff k (codes "stp-learning")).0 e)
            (same_events (omega arith) (omega arith) (omega arith) (omega arith) (omega arith))
      | inr e2 ↦ elim (Bool-cases (bytes_eq k (codes "stp-forwarding"))) [
        | inl e ↦
            rw ((bytes_eq_iff k (codes "stp-forwarding")).0 e)
              (same_events (omega arith) (omega arith) (omega arith) (omega arith) (omega arith))
        | inr e3 ↦ elim (Bool-cases (bytes_eq k (codes "link-down"))) [
          | inl e ↦
              rw ((bytes_eq_iff k (codes "link-down")).0 e)
                (same_events (omega arith) (omega arith) (omega arith) (omega arith) (omega arith))
          | inr e4 ↦
              rw (e0, e1, e2, e3, e4)
                (same_events (omega arith) (omega arith) (omega arith) (omega arith) (omega arith))
        ]
      ]
    ]
  ]
]

add_assoc : (a b c : PortEvents) → add (add a b) c ≡ add a (add b c)
add_assoc a b c = same_events (omega arith) (omega arith) (omega arith) (omega arith) (omega arith)

add_none : (a : PortEvents) → add a no_events ≡ a
add_none a = same_events (omega arith) (omega arith) (omega arith) (omega arith) (omega arith)

-- What one record adds to a port.
abbrev step_of : Bytes → Bytes → KmsgRecord → PortEvents
step_of board port raw = per_kind (λ j. once (is_about board port j raw))

no_kind : (a : Bool) (k j : Bytes) → length k ≡ 0 → 0 < length j → once (a && bytes_eq k j) ≡ 0
unfolding bytes_eq
no_kind a [] [] h n = absurd (omega arith)
no_kind true [] (b ∷ j) h n = refl
no_kind false [] (b ∷ j) h n = refl
no_kind a (c ∷ k) j h n = absurd (omega arith)

no_kinds :
    (a : Bool) (k : Bytes) → length k ≡ 0 → per_kind (λ j. once (a && bytes_eq k j)) ≡ no_events
no_kinds a k h =
    let n = no_kind a k in
    same_events (n (codes "own-address") h (omega arith)) (n (codes "stp-blocking") h (omega arith))
      (n (codes "stp-learning") h (omega arith)) (n (codes "stp-forwarding") h (omega arith))
      (n (codes "link-down") h (omega arith))

events_at-insert :
    (p port : Bytes) (pe : PortEvents) (m : List (Bytes × PortEvents))
    → events_at port (insert p pe m) ≡ (if bytes_eq p port then pe else events_at port m)
events_at-insert p port pe m = elim (Bool-cases (bytes_eq p port)) [
  | inl e ↦ rw (lookup-insert p port pe m, e) refl
  | inr e ↦ rw (lookup-insert p port pe m, e) refl
]

count_port-add :
    (r : KmsgRecord) (port : Bytes) (m : List (Bytes × PortEvents))
    → events_at port (count_port r m)
      ≡ add
          (events_at port m)
          (per_kind (λ j. once (bytes_eq (port_of r) port && bytes_eq r.kind j)))
count_port-add r port m =
    events_at-insert (port_of r) port (count r.kind (events_at (port_of r) m)) m
    ∙ elim (Bool-cases (bytes_eq (port_of r) port)) [
      | inl here ↦ rw here (
          count-add r.kind (events_at (port_of r) m)
          ∙ ap (λ p. add (events_at p m) (per_kind (λ j. once (bytes_eq r.kind j))))
              ((bytes_eq_iff (port_of r) port).0 here))
      | inr other ↦ rw other (sym (add_none (events_at port m)))
    ]

tally_record-add :
    (board port : Bytes) (raw : KmsgRecord) (m : List (Bytes × PortEvents))
    → events_at port (tally_record board raw m) ≡ add (events_at port m) (step_of board port raw)
unfolding tally_record
tally_record-add board port raw m =
    let r = annotate_kmsg board raw in
    elim (Bool-cases (length r.kind == 0)) [
      | inl e ↦ rw e (
          sym (
            ap (add (events_at port m))
              (no_kinds (bytes_eq (port_of r) port) r.kind ((==_iff _ _).0 e))
            ∙ add_none (events_at port m)))
      | inr e ↦ rw e (count_port-add r port m)
    ]

seen_step :
    (board port : Bytes) (raw : KmsgRecord) (rs : List KmsgRecord)
    → per_kind (seen board port (raw ∷ rs))
      ≡ add (step_of board port raw) (per_kind (seen board port rs))
seen_step board port raw rs =
    same_events (one (codes "own-address")) (one (codes "stp-blocking"))
      (one (codes "stp-learning")) (one (codes "stp-forwarding")) (one (codes "link-down"))
  where
    one :
        (j : Bytes)
        → seen board port (raw ∷ rs) j ≡ once (is_about board port j raw) + seen board port rs j
    one j = elim (Bool-cases (is_about board port j raw)) [
      | inl e ↦ rw e (omega arith)
      | inr e ↦ rw e (omega arith)
    ]

-- Whatever was counted before, the records add to each port and kind as many as are about that port
-- and of that kind; their order plays no part.
pub tally_records-add :
    (board port : Bytes) (rs : List KmsgRecord) (m : List (Bytes × PortEvents))
    → events_at port (tally_records board rs m)
      ≡ add (events_at port m) (per_kind (seen board port rs))
unfolding tally_records
tally_records-add board port [] m = sym (add_none (events_at port m))
tally_records-add board port (r ∷ rs) m =
    tally_records-add board port rs (tally_record board r m)
    ∙ ap (λ e. add e (per_kind (seen board port rs))) (tally_record-add board port r m)
    ∙ add_assoc (events_at port m) (step_of board port r) (per_kind (seen board port rs))
    ∙ ap (add (events_at port m)) (sym (seen_step board port r rs))

none_add : (a : PortEvents) → add no_events a ≡ a
none_add a = same_events (omega arith) (omega arith) (omega arith) (omega arith) (omega arith)

pub tally_records_start :
    (board port : Bytes) (rs : List KmsgRecord)
    → events_at port (tally_records board rs []) ≡ per_kind (seen board port rs)
unfolding lookup
tally_records_start board port rs =
    tally_records-add board port rs [] ∙ none_add (per_kind (seen board port rs))
