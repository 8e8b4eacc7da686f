-- ===== src/Agent/Ring/Read.antt =====
-- What the readers `Since`, `Tail` and `Oldest` return, in terms of the ring's contents.
use native.Mathlib.Nat.{zero-add}
use mathlib.Core.Path.{ap₂}
use mikroscope.Common.{
  ℕ, ◌+◌, ◌-◌, ◌%◌, ◌≤◌, ◌<◌, min, max, List, [], ◌∷◌, ◌≡◌, ◌≢◌, refl, sym, ◌∙◌, ap, arith, length,
  take, drop, take_last, select, ltb, ◌==◌, not, ◌&&◌, if◌then◌else◌, ◌⊎◌, inl, inr, Bool,
  Bool-cases, false, u64, u64_mod, sub64, ltb→lt, ltb→le, ==_iff,
}
use mikroscope.Agent.Ring.{Entry, Ring, read_run, since, tail, oldest}
use mikroscope.Agent.Ring.View.{WellFormed, front, contents, length-read_run}
use mikroscope.Agent.Ring.Store.{length-contents}
use mikroscope.Agent.Ring.Runs.{
  take-nil, nil-length, if_pair, drop_all, drop-read_run, run_shift, limit-run,
}
use mikroscope.Agent.Ring.Numbered.{Numbered, Consecutive, select-newer}

module _ {F : Type 0} where
  pub oldest_empty : (r : Ring F) → r.count ≡ 0 → oldest r ≡ 0
  unfolding oldest
  oldest_empty r z = ground arith

  pub oldest_held : (r : Ring F) → Consecutive r → 0 < r.count → oldest r ≡ r.last + 1 - r.count
  unfolding oldest
  oldest_held r c h = ground arith

  -- The newest `m` entries are a run that ends at the write position.
  newest_run :
      (r : Ring F) (m : ℕ)
      → WellFormed r
      → m ≤ r.count
      → read_run r.buf ((r.head + length r.buf - m) % length r.buf) 0 m
        ≡ read_run r.buf (front r) (r.count - m) m
  newest_run r m w le =
      let e : r.head + length r.buf - m ≡ r.head + length r.buf + (r.count - m) - r.count =
        omega arith in
      rw e (run_shift r.buf r.head r.count (r.count - m) m w.placed w.sized)

  take_last-contents :
      (n : ℕ) (r : Ring F)
      → take_last n (contents r)
        ≡ read_run r.buf (front r) (r.count - min n r.count) (min n r.count)
  unfolding contents
  take_last-contents n r =
      let e1 : r.count - n ≡ r.count - min n r.count = omega arith in
      let e2 : r.count - (r.count - n) ≡ min n r.count = omega arith in
      rw length-read_run (
        drop-read_run r.buf (front r) 0 r.count (r.count - n) (omega arith)
        ∙ ap₂ (λ i k. read_run r.buf (front r) i k) (zero-add (r.count - n) ∙ e1) e2)

  -- Over a well-formed ring, `Tail` returns the newest `n` entries the ring holds, or all of them, oldest first.
  pub tail-contents : (n : ℕ) (r : Ring F) → WellFormed r → tail n r ≡ take_last n (contents r)
  unfolding tail
  tail-contents n r w = elim (Bool-cases (min n r.count == 0)) [
    | inl empty ↦ rw (take_last-contents, empty, (==_iff _ _).0 empty) refl
    | inr some ↦ rw (take_last-contents, some) (newest_run r (min n r.count) w (omega arith))
  ]

  -- The entries that `Since` is asked for: those after a number, the first `limit` of them if
  -- there is a limit.
  abbrev pub newer_than : ℕ → ℕ → List (Entry F) → List (Entry F)
  newer_than after limit es =
      let newer = select (λ e. ltb after e.seq) es in
      if ltb 0 limit then take limit newer else newer

  -- A hole stands between `after` and the oldest entry held.
  abbrev pub is_gap : ℕ → Ring F → Bool
  is_gap after r =
      not (r.count == 0) && (not (after == 0) && ltb (after + 1) (r.last + 1 - r.count))

  pub newer-contents :
      (after : ℕ) (r : Ring F)
      → Consecutive r
      → select (λ e. ltb after e.seq) (contents r)
        ≡ drop (after + 1 - (r.last + 1 - r.count)) (contents r)
  newer-contents after r c = select-newer (r.last + 1 - r.count) after (contents r) c.numbered

  newer-run :
      (after limit : ℕ) (r : Ring F)
      → Consecutive r
      → after < r.last
      → let m = after + 1 - (r.last + 1 - r.count) in
        newer_than after limit (contents r)
        ≡ read_run r.buf
            (front r)
            m
            (if ltb 0 limit && ltb limit (r.count - m) then limit else r.count - m)
  newer-run after limit r c lt =
      let m = after + 1 - (r.last + 1 - r.count) in
      let e : drop m (contents r) ≡ read_run r.buf (front r) m (r.count - m) =
        unfold contents in
        (rw zero-add at (drop-read_run r.buf (front r) 0 r.count m (omega arith))) in
      rw (newer-contents after r c, e) (limit-run r.buf (front r) m (r.count - m) limit)

  newer-nil :
      (after limit : ℕ) (r : Ring F)
      → Consecutive r
      → r.last ≤ after
      → newer_than after limit (contents r) ≡ []
  newer-nil after limit r c le =
      let short : length (contents r) ≤ after + 1 - (r.last + 1 - r.count) =
        rw length-contents (omega arith) in
      rw (newer-contents after r c, drop_all _ (contents r) short) (take-nil limit)

  newer-empty :
      (after limit : ℕ) (r : Ring F) → r.count ≡ 0 → newer_than after limit (contents r) ≡ []
  newer-empty after limit r z =
      let e : contents r ≡ [] = nil-length (contents r) (rw length-contents z) in
      rw e (take-nil limit)

  since_step :
      (after limit : ℕ) (r : Ring F)
      → WellFormed r
      → Consecutive r
      → (r.count == 0) ≡ false
      → let old = r.last + 1 - r.count in
        let start = max old (after + 1) in
        let n = u64 (sub64 r.last start + 1) in
        let n' = if ltb 0 limit && ltb limit n then limit else n in
        let first = (r.head + length r.buf + (start - old) - r.count) % length r.buf in
        (if ltb r.last start then [] else read_run r.buf first 0 n')
        ≡ newer_than after limit (contents r)
  since_step after limit r w c some =
      elim (Bool-cases (ltb r.last (max (r.last + 1 - r.count) (after + 1)))) [
        | inl past ↦
            let lt : r.last < max (r.last + 1 - r.count) (after + 1) = ltb→lt _ _ past in
            let positive : r.count ≢ 0 = λ z. ground arith in
            rw past (sym (newer-nil after limit r c (omega arith)))
        | inr held ↦
            let le : max (r.last + 1 - r.count) (after + 1) ≤ r.last = ltb→le _ _ held in
            let m = after + 1 - (r.last + 1 - r.count) in
            let e1 : max (r.last + 1 - r.count) (after + 1) - (r.last + 1 - r.count) ≡ m =
              omega arith in
            let e2 : u64 (sub64 r.last (max (r.last + 1 - r.count) (after + 1)) + 1) ≡ r.count - m =
              omega arith in
            rw (held, e1, e2)
              (run_shift r.buf r.head r.count m _ w.placed w.sized
                ∙ sym (newer-run after limit r c (omega arith)))
      ]

  -- Over a well-formed ring of consecutive numbers, and below 2 ^ 64 - 1, `Since` returns exactly
  -- the entries numbered above `after` that the ring holds, oldest first, the first `limit` of
  -- them if a limit is given, and reports a gap exactly if `after` is not 0 and the entry that
  -- follows it is older than every entry held.
  pub since-contents :
      (after limit : ℕ) (r : Ring F)
      → WellFormed r
      → Consecutive r
      → after + 1 < u64_mod
      → since after limit r ≡ (newer_than after limit (contents r), is_gap after r)
  unfolding since
  since-contents after limit r w c bound = elim (Bool-cases (r.count == 0)) [
    | inl empty ↦
        let none_held : r.count ≡ 0 = (==_iff _ _).0 empty in
        rw empty (ap (λ es. (es, false)) (sym (newer-empty after limit r none_held)))
    | inr some ↦
        let e1 : u64 (sub64 r.last r.count + 1) ≡ r.last + 1 - r.count = omega arith in
        let e2 : u64 (after + 1) ≡ after + 1 = omega arith in
        rw (some, e1, e2)
          (if_pair (ltb r.last (max (r.last + 1 - r.count) (after + 1))) _ _ _
            ∙ ap (λ es. (es, not (after == 0) && ltb (after + 1) (r.last + 1 - r.count)))
                (since_step after limit r w c some))
  ]

  -- Over a ring of consecutive numbers, `Oldest` is the number of the oldest entry held, and 0 when
  -- nothing is.
  pub oldest-contents :
      (r : Ring F)
      → Consecutive r
      → ((contents r ≡ []) × (oldest r ≡ 0))
        ⊎ ((e : Entry F) × (es : List (Entry F)) × (contents r ≡ e ∷ es) × (oldest r ≡ e.seq))
  oldest-contents r c = go (contents r) refl
    where
      go :
          (held : List (Entry F))
          → contents r ≡ held
          → ((contents r ≡ []) × (oldest r ≡ 0))
            ⊎ ((e : Entry F) × (es : List (Entry F)) × (contents r ≡ e ∷ es) × (oldest r ≡ e.seq))
      go [] q = inl (q, oldest_empty r (omega (arith, length-contents r, ap length q)))
      go (e ∷ es) q =
          let n : Numbered (r.last + 1 - r.count) (e ∷ es) = rw q at c.numbered in
          inr (e, es, q, oldest_held r c (omega (arith, length-contents r, ap length q)) ∙ sym n.0)
