-- ===== src/Collector/Forward/Delivery.antt =====
-- The collector's pull against the agent's ring: every sample number is delivered once, in order, or
-- declared lost in a gap.
use mikroscope.Common.{
  ℕ, zero, suc, ◌+◌, ◌-◌, ◌≤◌, ◌<◌, List, [], ◌∷◌, ◌++◌, Option, some, Bool, true, false, ◌≡◌, ◌≢◌,
  refl, sym, arith, All, length, min, max, ltb, Bool-cases, inl, inr, u64, u64_mod, sub64,
}
use mathlib.Core.Path.{subst}
use mikroscope.Agent.Ring.{Entry, Ring, oldest}
use mikroscope.Agent.Ring.View.{WellFormed, contents}
use mikroscope.Agent.Ring.Numbered.{Numbered, Consecutive}
use mikroscope.Agent.Ring.Read.{since-contents, newer_than, is_gap, oldest_held}
use mikroscope.Agent.Captures.Types.{Captures}
use mikroscope.Agent.Captures.Collect.{last_seq_of}
use mikroscope.Agent.Server.{with_markers, write_entries, gap_lines, snapshot_since, markers_of}
use mikroscope.Collector.Transport.{Gap, split_body}
use mikroscope.Collector.Forward.{
  Stages, Event, gap_event, kernel_event, trigger_event, detection_event, Forwarder, drain,
  take_lines, note_gap, pull_once,
}
use mikroscope.Collector.Forward.Account.{
  Accounts, Delivers, Delivers-trans, Delivers-none, Decodes, lines-Delivers,
}
use mikroscope.Collector.Forward.Replies.{
  first_held, split-with_markers, split_gap, newer-Numbered, newer-All, length-newer,
  length-with_markers, Reaches, gap_true, gap_false, reply,
}

module _ {F D X Y : Type 0} (st : Stages F D X Y) where
  batch-Delivers :
      (batch : List (Entry F)) (gap : Bool) (after limit : ℕ) (r : Ring F)
      (captures : Option (Captures F)) (f : Forwarder F D X Y)
      → Consecutive r
      → f.since ≡ after
      → after ≢ 0
      → after + 1 < u64_mod
      → 0 < limit
      → gap ≡ is_gap after r
      → Numbered (first_held r + (after + 1 - first_held r)) batch
      → All (Decodes st) batch
      → length batch ≡ min limit (r.count - (after + 1 - first_held r))
      → let lines = gap_lines gap after (oldest r) ++ write_entries batch after captures in
        let p = pull_once st (some (split_body lines)) f in
        Delivers after f p.0 p.0.since
        × (p.0.since ≤ max after r.last)
        × Reaches after r (length batch) p.0.since p.1
  unfolding pull_once gap_lines write_entries
  batch-Delivers [] true after limit r captures f c at ne small positive g n d size =
      let (late, held) = gap_true after r (sym g) in absurd (omega (arith, c.counted, c.filled))
  batch-Delivers [] false after limit r captures f c at ne small positive g n d size =
      unfold split_body take_lines note_gap in
      (
        subst (λ b. Delivers after f f b) (sym at) (Delivers-none after f),
        omega arith,
        record { moved = λ h. absurd (omega arith); stayed = λ h. at; counted = omega arith },
      )
  batch-Delivers (e ∷ es) false after limit r captures f c at ne small positive g n d size =
      let ms = markers_of captures after (last_seq_of e es) in
      let inside : first_held r ≤ after + 1 = gap_false after r (sym g) ne (omega arith) in
      let start : first_held r + (after + 1 - first_held r) ≡ after + 1 = omega arith in
      let done = lines-Delivers st after e es ms f (rw start at n) d in
      rw (split-with_markers (e ∷ es) ms) (
        unfold note_gap in
        (
          subst (λ b. Delivers after f (take_lines st (with_markers (e ∷ es) ms) f) b) (sym done.1)
              done.0,
          omega (arith, done.1, size, c.counted),
          record {
            moved = λ h. omega (arith, done.1);
            stayed = λ h. absurd (omega arith);
            counted = length-with_markers (e ∷ es) ms;
          },
        ))
  batch-Delivers (e ∷ es) true after limit r captures f c at ne small positive g n d size =
      let ms = markers_of captures after (last_seq_of e es) in
      let (late, held) = gap_true after r (sym g) in
      let first = first_held r in
      let start : first + (after + 1 - first) ≡ first - 1 + 1 = omega arith in
      let lost : Gap = record { from = after + 1; to = first - 1 } in
      let told = note_gap (some lost) f in
      let done = lines-Delivers st (first - 1) e es ms told (rw start at n) d in
      let end = first - 1 + length (e ∷ es) in
      let from_u : u64 (after + 1) ≡ after + 1 = omega arith in
      let to_u : sub64 (oldest r) 1 ≡ first - 1 = omega (arith, oldest_held r c held, c.bounded) in
      let told_gap : Delivers after f told (first - 1) =
        unfold note_gap in (gap_event lost ∷ [], refl, (refl, omega arith, refl)) in
      let whole =
        Delivers-trans after (first - 1) end f told (take_lines st (with_markers (e ∷ es) ms) told)
          told_gap done.0 in
      let split =
        split_gap (after + 1) (first - 1) (with_markers (e ∷ es) ms)
          (split-with_markers (e ∷ es) ms) in
      rw (from_u, to_u, split)
        (
          subst (λ b. Delivers after f (take_lines st (with_markers (e ∷ es) ms) told) b)
              (sym done.1) whole,
          omega (arith, done.1, size, c.counted),
          record {
            moved = λ h. omega (arith, done.1);
            stayed = λ h. absurd (omega arith);
            counted = length-with_markers (e ∷ es) ms;
          },
        )

  -- One pull of an agent whose ring holds consecutive numbers, each decoding to its sample: what is
  -- emitted accounts for every number from the cursor to the new cursor.
  pub pull_once-Delivers :
      (limit : ℕ) (r : Ring F) (captures : Option (Captures F)) (f : Forwarder F D X Y)
      → WellFormed r
      → Consecutive r
      → All (Decodes st) (contents r)
      → f.since ≢ 0
      → f.since + 1 < u64_mod
      → 0 < limit
      → let p = pull_once st (reply f.since limit r captures) f in
        Delivers f.since f p.0 p.0.since
        × (p.0.since ≤ max f.since r.last)
        × Reaches f.since r (min limit (r.count - (f.since + 1 - first_held r))) p.0.since p.1
  unfolding snapshot_since
  pull_once-Delivers limit r captures f w c d ne small positive =
      let size = length-newer f.since limit r c positive in
      rw (since-contents f.since limit r w c small, ← size)
        (batch-Delivers (newer_than f.since limit (contents r)) (is_gap f.since r) f.since limit r
          captures f c refl ne small positive refl (newer-Numbered f.since limit r c)
          (newer-All (Decodes st) f.since limit r c d) size)

pub Accounts-le : {F X Y : Type 0} (a b : ℕ) (es : List (Event F X Y)) → Accounts a es b → a ≤ b
Accounts-le a b [] h = omega (arith, h)
Accounts-le a b (kernel_event s x ∷ es) h = omega (arith, Accounts-le (a + 1) b es h.1)
Accounts-le a b (gap_event g ∷ es) h = omega (arith, Accounts-le g.to b es h.2, h.0, h.1)
Accounts-le a b (trigger_event m ∷ es) h = Accounts-le a b es h
Accounts-le a b (detection_event y ∷ es) h = Accounts-le a b es h

module _ {F D X Y : Type 0} (st : Stages F D X Y) where
  -- The agent's state at each round of a pull: its ring is valid, holds consecutive numbers, and its
  -- lines decode to the samples they were made of.
  pub record Serves (r : Ring F) : Type 0 where
    pub formed : WellFormed r
    pub held : Consecutive r
    pub decodes : All (Decodes st) (contents r)

  -- A pull of any number of rounds with a positive limit, from a cursor that is not 0 and below
  -- 2 ^ 64 - 1, of an agent that may go on sampling, fire triggers or restart between two rounds,
  -- each round answered from one state of it: if the ring is valid in each of them, holds consecutive
  -- numbers and lines that decode to the samples they were made of, the events emitted take the
  -- cursor from where it was to where it is without a number left out, twice or out of order. Each
  -- kernel sample is the next number, and each gap names exactly the numbers that are lost.
  pub drain-Delivers :
      (n batch limit : ℕ) (rings : ℕ → Ring F) (captures : ℕ → Option (Captures F))
      (f : Forwarder F D X Y)
      → ((i : ℕ) → Serves (rings i))
      → f.since ≢ 0
      → f.since + 1 < u64_mod
      → 0 < limit
      → let f' = drain st n batch (λ i cursor. reply cursor limit (rings i) (captures i)) f in
        Delivers f.since f f' f'.since
  unfolding drain
  drain-Delivers zero batch limit rings captures f serves ne small positive =
      Delivers-none f.since f
  drain-Delivers (suc n) batch limit rings captures f serves ne small positive =
      let v = serves n in
      let r = pull_once st (reply f.since limit (rings n) (captures n)) f in
      let (told, bound, reached) =
        pull_once-Delivers st limit (rings n) (captures n) f v.formed v.held v.decodes ne small
          positive in
      let grown = Accounts-le f.since r.0.since told.0 told.2 in
      let rest =
        drain-Delivers n batch limit rings captures r.0 serves (λ z. ne (omega arith))
          (omega (arith, v.held.bounded)) positive in
      let f' = drain st n batch (λ i cursor. reply cursor limit (rings i) (captures i)) r.0 in
      elim (Bool-cases (ltb r.1 batch)) [
        | inl edge ↦ rw edge told
        | inr full ↦ rw full (Delivers-trans f.since r.0.since f'.since f r.0 f' told rest)
      ]
