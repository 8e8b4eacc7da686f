-- ===== src/Collector/Forward/CatchUp.antt =====
-- A pull reaches the newest sample of the ring.
use mikroscope.Common.{
  ℕ, zero, suc, ◌+◌, ◌-◌, ◌*◌, ◌≤◌, ◌<◌, Option, ◌≡◌, ◌≢◌, arith, min, ltb, ◌==◌, Bool-cases,
  ==_iff, le→ltb, ◌⊎◌, inl, inr, u64_mod,
}
use mikroscope.Agent.Ring.{Ring}
use mikroscope.Agent.Ring.View.{WellFormed}
use mikroscope.Agent.Ring.Numbered.{Consecutive}
use mikroscope.Agent.Captures.Types.{Captures}
use mikroscope.Collector.Forward.{Stages, Forwarder, drain, pull_once}
use mikroscope.Collector.Forward.Replies.{first_held, Reaches, reply}
use mikroscope.Collector.Forward.Delivery.{pull_once-Delivers, Accounts-le, Serves}

-- A pull ends at the newest sample, or moves on by a whole batch.
Reaches-cases :
    {F : Type 0} (after limit : ℕ) (r : Ring F) (cursor lines : ℕ)
    → WellFormed r
    → Consecutive r
    → after ≢ 0
    → 0 < limit
    → after ≤ r.last
    → Reaches after r (min limit (r.count - (after + 1 - first_held r))) cursor lines
    → (cursor ≡ r.last) ⊎ ((after + limit ≤ cursor) × (limit ≤ lines))
Reaches-cases after limit r cursor lines w c ne positive le v =
    let taken = min limit (r.count - (after + 1 - first_held r)) in
    let start : 1 ≤ after = omega (arith, ne) in
    elim (Bool-cases (taken == 0)) [
      | inl none_taken ↦
          let same = v.stayed ((==_iff _ _).0 none_taken) in
          inl (omega (arith, same, (==_iff _ _).0 none_taken, c.filled, w.placed))
      | inr some_taken ↦
          let moved = v.moved (ground arith) in
          elim (Bool-cases (taken == limit)) [
            | inl full ↦ inr (
              omega (arith, moved, (==_iff _ _).0 full),
              omega (arith, v.counted, (==_iff _ _).0 full),
            )
            | inr short ↦ inl (ground (arith, moved))
          ]
    ]

module _ {F D X Y : Type 0} (st : Stages F D X Y) where
  -- A pull in batches of a positive size, of an agent that takes no sample in between and whose ring
  -- is valid, holds consecutive numbers and lines that decode, from a cursor that is not 0, not ahead
  -- of the newest sample and at most `n` batches behind it: after at most `n` rounds the cursor
  -- stands at the newest sample, so that nothing waits for the next pull.
  pub drain-catches_up :
      (n limit : ℕ) (r : Ring F) (captures : ℕ → Option (Captures F)) (f : Forwarder F D X Y)
      → Serves st r
      → f.since ≢ 0
      → f.since + 1 < u64_mod
      → 0 < limit
      → f.since ≤ r.last
      → r.last ≤ f.since + n * limit
      → (drain st n limit (λ i cursor. reply cursor limit r (captures i)) f).since ≡ r.last
  unfolding drain
  drain-catches_up zero limit r captures f v ne small positive behind near = omega arith
  drain-catches_up (suc n) limit r captures f v ne small positive behind near =
      let p = pull_once st (reply f.since limit r (captures n)) f in
      let (told, bound, reached) =
        pull_once-Delivers st limit r (captures n) f v.formed v.held v.decodes ne small positive in
      let grown = Accounts-le f.since p.0.since told.0 told.2 in
      elim (Reaches-cases f.since limit r p.0.since p.1 v.formed v.held ne positive behind
        reached) [
          | inl there ↦
              let rest =
                drain-catches_up n limit r captures p.0 v (λ z. ne (omega arith))
                  (omega (arith, v.held.bounded)) positive (omega (arith, there))
                  (omega (arith, there)) in
              elim (Bool-cases (ltb p.1 limit)) [
                | inl edge ↦ rw edge there
                | inr full ↦ rw full rest
              ]
          | inr (moved, lines) ↦ rw (le→ltb p.1 limit lines) (
              drain-catches_up n limit r captures p.0 v (λ z. ne (omega arith))
                (omega (arith, v.held.bounded)) positive (omega arith) (grind arith))
        ]
