-- ===== src/Agent/Server/Order.antt =====
-- A reply has every sample asked for, in order, and every marker of their range, each in front of a
-- sample that is not older than it.
use mikroscope.Common.{
  ℕ, ◌≤◌, List, [], ◌∷◌, ◌++◌, Option, none, some, ◌≡◌, refl, sym, ◌∙◌, ap, arith, All, select, ltb,
  leb, leb→le, le→leb, Bool-cases, inl, inr, ◌&&◌,
}
use mikroscope.Agent.Ring.{Entry}
use mikroscope.Agent.Captures.Types.{Marker, Captures}
use mikroscope.Agent.Captures.Collect.{markers_between, last_seq_of}
use mikroscope.Agent.Server.{
  Line, gap_line, trigger_line, sample_line, comment_line, due, with_markers, write_entries,
  markers_of,
}

module _ {F : Type 0} where
  abbrev pub samples : List (Line F) → List (Entry F)
  samples [] = []
  samples (sample_line e ∷ ls) = e ∷ samples ls
  samples (gap_line from to ∷ ls) = samples ls
  samples (trigger_line m ∷ ls) = samples ls
  samples (comment_line ∷ ls) = samples ls

  abbrev pub markers : List (Line F) → List (Marker F)
  markers [] = []
  markers (trigger_line m ∷ ls) = m ∷ markers ls
  markers (gap_line from to ∷ ls) = markers ls
  markers (sample_line e ∷ ls) = markers ls
  markers (comment_line ∷ ls) = markers ls

  -- A sample follows, and its number is at least the given one.
  abbrev pub FollowedBy : ℕ → List (Entry F) → Type 0
  FollowedBy seq [] = 1 ≤ 0
  FollowedBy seq (e ∷ es) = seq ≤ e.seq

  -- Each marker stands in front of a sample that is not older than it.
  abbrev pub InFront : List (Line F) → Type 0
  InFront [] = Unit
  InFront (trigger_line m ∷ ls) = FollowedBy m.seq (samples ls) × InFront ls
  InFront (gap_line from to ∷ ls) = InFront ls
  InFront (sample_line e ∷ ls) = InFront ls
  InFront (comment_line ∷ ls) = InFront ls

  -- What the loop writes for a sample, in front of the lines that follow.
  due-lines :
      (e : Entry F) (ms : List (Marker F)) (ls : List (Line F))
      → InFront ls
      → let written = (due e.seq ms).0 ++ sample_line e ∷ ls in
        (samples written ≡ e ∷ samples ls) × InFront written
  unfolding due
  due-lines e [] ls h = (refl, h)
  due-lines e (m ∷ ms) ls h = elim (Bool-cases (leb m.seq e.seq)) [
    | inl early ↦
        let rest = due-lines e ms ls h in rw early (rest.0, (rw rest.0 (leb→le _ _ early), rest.1))
    | inr late ↦ rw late (refl, h)
  ]

  due-markers :
      (e : Entry F) (ms : List (Marker F)) (ls : List (Line F))
      → (due e.seq ms).1 ≡ markers ls
      → markers ((due e.seq ms).0 ++ sample_line e ∷ ls) ≡ ms
  unfolding due
  due-markers e [] ls h = sym h
  due-markers e (m ∷ ms) ls h = elim (Bool-cases (leb m.seq e.seq)) [
    | inl early ↦ rw early (ap (λ ns. m ∷ ns) (due-markers e ms ls (rw early at h)))
    | inr late ↦ rw late (sym (rw late at h))
  ]

  -- Nothing is left of markers that are not newer than the sample.
  due-all :
      (e : Entry F) (ms : List (Marker F)) → All (λ m. m.seq ≤ e.seq) ms → (due e.seq ms).1 ≡ []
  unfolding due
  due-all e [] h = refl
  due-all e (m ∷ ms) h = rw (le→leb m.seq e.seq h.0) (due-all e ms h.1)

  due-All :
      (P : Marker F → Type 0) (e : Entry F) (ms : List (Marker F))
      → All P ms
      → All P (due e.seq ms).1
  unfolding due
  due-All P e [] h = tt
  due-All P e (m ∷ ms) h = elim (Bool-cases (leb m.seq e.seq)) [
    | inl early ↦ rw early (due-All P e ms h.1)
    | inr late ↦ rw late h
  ]

  with_markers-samples :
      (es : List (Entry F)) (ms : List (Marker F))
      → (samples (with_markers es ms) ≡ es) × InFront (with_markers es ms)
  unfolding with_markers
  with_markers-samples [] ms = (refl, tt)
  with_markers-samples (e ∷ es) ms =
      let rest = with_markers-samples es (due e.seq ms).1 in
      let d = due-lines e ms (with_markers es (due e.seq ms).1) rest.1 in
      (d.0 ∙ ap (λ xs. e ∷ xs) rest.0, d.1)

  with_markers-markers :
      (e : Entry F) (es : List (Entry F)) (ms : List (Marker F))
      → All (λ m. m.seq ≤ last_seq_of e es) ms
      → markers (with_markers (e ∷ es) ms) ≡ ms
  unfolding with_markers
  with_markers-markers e [] ms h = due-markers e ms [] (due-all e ms h)
  with_markers-markers e (f ∷ es) ms h = due-markers e ms (with_markers (f ∷ es) (due e.seq ms).1) (
      sym (
        with_markers-markers f es (due e.seq ms).1
          (due-All (λ m. m.seq ≤ last_seq_of f es) e ms h)))

  select-upto :
      (after up_to : ℕ) (ms : List (Marker F))
      → All (λ m. m.seq ≤ up_to) (select (λ m. ltb after m.seq && leb m.seq up_to) ms)
  select-upto after up_to [] = tt
  select-upto after up_to (m ∷ ms) = ground (arith, select-upto after up_to ms)

  markers_of-upto :
      (captures : Option (Captures F)) (after up_to : ℕ)
      → All (λ m. m.seq ≤ up_to) (markers_of captures after up_to)
  unfolding markers_between
  markers_of-upto none after up_to = tt
  markers_of-upto (some c) after up_to = select-upto after up_to c.markers

  -- What is written for a batch has exactly its samples, in order, and exactly the markers that
  -- `MarkersBetween` gives for its range, in their order, each of them in front of a sample that is
  -- not older than the one it fired on.
  pub write_entries-InFront :
      (e : Entry F) (es : List (Entry F)) (after : ℕ) (captures : Option (Captures F))
      → let written = write_entries (e ∷ es) after captures in
        (samples written ≡ e ∷ es)
        × (markers written ≡ markers_of captures after (last_seq_of e es))
        × InFront written
  unfolding write_entries
  write_entries-InFront e es after captures =
      let ms = markers_of captures after (last_seq_of e es) in
      let kept = with_markers-samples (e ∷ es) ms in
      (
        kept.0,
        with_markers-markers e es ms (markers_of-upto captures after (last_seq_of e es)),
        kept.1,
      )
