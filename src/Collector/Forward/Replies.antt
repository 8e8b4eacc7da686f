-- ===== src/Collector/Forward/Replies.antt =====
-- What the agent answers a pull: its lines, and the batch of samples in it.
use mikroscope.Common.{
  ℕ, zero, suc, ◌+◌, ◌-◌, ◌≤◌, ◌<◌, List, [], ◌∷◌, ◌++◌, Option, none, some, true, false, ◌≡◌, ◌≢◌,
  refl, arith, All, All-drop, take, length, length-append, length-drop, length-take, min, ltb, leb,
  Bool-cases, inl, inr,
}
use mikroscope.Agent.Ring.{Entry, Ring}
use mikroscope.Agent.Ring.View.{contents}
use mikroscope.Agent.Ring.Store.{length-contents}
use mikroscope.Agent.Ring.Numbered.{Numbered, Numbered-drop, Consecutive}
use mikroscope.Agent.Ring.Read.{newer_than, is_gap, newer-contents}
use mikroscope.Agent.Captures.Types.{Marker, Captures}
use mikroscope.Agent.Server.{Line, gap_line, sample_line, due, with_markers, snapshot_since}
use mikroscope.Collector.Transport.{Gap, split_body}

-- The number of the oldest entry held.
abbrev pub first_held : {F : Type 0} → Ring F → ℕ
first_held r = r.last + 1 - r.count

module _ {F : Type 0} where
  pub split-due :
      (seq : ℕ) (ms : List (Marker F)) (ls : List (Line F))
      → split_body ls ≡ (ls, none)
      → split_body ((due seq ms).0 ++ ls) ≡ ((due seq ms).0 ++ ls, none)
  unfolding due split_body
  split-due seq [] ls h = h
  split-due seq (m ∷ ms) ls h = elim (Bool-cases (leb m.seq seq)) [
    | inl early ↦ rw (early, split-due seq ms ls h) refl
    | inr late ↦ rw late h
  ]

  -- The samples and markers of a reply have no gap line among them.
  pub split-with_markers :
      (es : List (Entry F)) (ms : List (Marker F))
      → split_body (with_markers es ms) ≡ (with_markers es ms, none)
  unfolding with_markers split_body
  split-with_markers [] ms = refl
  split-with_markers (e ∷ es) ms =
      split-due e.seq ms (sample_line e ∷ with_markers es (due e.seq ms).1)
        (unfold split_body in (rw (split-with_markers es (due e.seq ms).1) refl))

  pub split_gap :
      (from to : ℕ) (ls : List (Line F))
      → split_body ls ≡ (ls, none)
      → split_body (gap_line from to ∷ ls) ≡ (ls, some (record { from = from; to = to }))
  unfolding split_body
  split_gap from to ls h = rw h refl

  pub Numbered-take : (s n : ℕ) (es : List (Entry F)) → Numbered s es → Numbered s (take n es)
  Numbered-take s zero es h = tt
  Numbered-take s (suc n) [] h = tt
  Numbered-take s (suc n) (e ∷ es) h = (h.0, Numbered-take (s + 1) n es h.1)

  pub All-take : (P : Entry F → Type 0) (n : ℕ) (es : List (Entry F)) → All P es → All P (take n es)
  All-take P zero es h = tt
  All-take P (suc n) [] h = tt
  All-take P (suc n) (e ∷ es) h = (h.0, All-take P n es h.1)

  pub newer-Numbered :
      (after limit : ℕ) (r : Ring F)
      → Consecutive r
      → Numbered (first_held r + (after + 1 - first_held r)) (newer_than after limit (contents r))
  newer-Numbered after limit r c =
      let k = after + 1 - first_held r in
      let n = Numbered-drop (first_held r) k (contents r) c.numbered in
      rw (newer-contents after r c) (elim (Bool-cases (ltb 0 limit)) [
        | inl some_limit ↦ rw some_limit (Numbered-take (first_held r + k) limit _ n)
        | inr no_limit ↦ rw no_limit n
      ])

  pub newer-All :
      (P : Entry F → Type 0) (after limit : ℕ) (r : Ring F)
      → Consecutive r
      → All P (contents r)
      → All P (newer_than after limit (contents r))
  newer-All P after limit r c h =
      let d = All-drop P (after + 1 - first_held r) (contents r) h in
      rw (newer-contents after r c) (elim (Bool-cases (ltb 0 limit)) [
        | inl some_limit ↦ rw some_limit (All-take P limit _ d)
        | inr no_limit ↦ rw no_limit d
      ])

  pub length-newer :
      (after limit : ℕ) (r : Ring F)
      → Consecutive r
      → 0 < limit
      → length (newer_than after limit (contents r))
        ≡ min limit (r.count - (after + 1 - first_held r))
  length-newer after limit r c positive =
      let some_limit : ltb 0 limit ≡ true = ground arith in
      rw (newer-contents after r c, some_limit, length-take, length-drop, length-contents) refl

  pub length-with_markers :
      (es : List (Entry F)) (ms : List (Marker F)) → length es ≤ length (with_markers es ms)
  unfolding with_markers
  length-with_markers [] ms = omega arith
  length-with_markers (e ∷ es) ms = omega (
    arith,
    length-with_markers es (due e.seq ms).1,
    length-append (due e.seq ms).0 (sample_line e ∷ with_markers es (due e.seq ms).1),
  )

  -- Where a pull of `taken` samples leaves the cursor, and the lines it counts.
  pub record Reaches (after : ℕ) (r : Ring F) (taken cursor lines : ℕ) : Type 0 where
    pub moved : 0 < taken → cursor + 1 ≡ first_held r + (after + 1 - first_held r) + taken
    pub stayed : taken ≡ 0 → cursor ≡ after
    pub counted : taken ≤ lines

  pub gap_true :
      (after : ℕ) (r : Ring F) → is_gap after r ≡ true → (after + 1 < first_held r) × (0 < r.count)
  gap_true after r h = ground arith

  pub gap_false :
      (after : ℕ) (r : Ring F)
      → is_gap after r ≡ false
      → after ≢ 0
      → 0 < r.count
      → first_held r ≤ after + 1
  gap_false after r h ne some_held = ground arith

  -- What the agent answers a pull, as the transport hands it on.
  abbrev pub reply : ℕ → ℕ → Ring F → Option (Captures F) → Option (List (Line F) × Option Gap)
  reply after limit r captures = some (split_body (snapshot_since after limit r r captures))
