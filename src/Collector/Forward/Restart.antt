-- ===== src/Collector/Forward/Restart.antt =====
-- `resync`: the agent restarted and numbers its samples from 1 again.
use mikroscope.Common.{
  ◌+◌, ◌-◌, ◌≤◌, ◌<◌, drop, ◌≡◌, refl, arith, Bool-cases, ==_iff, ◌==◌, inl, inr, lt→leb, le→leb,
  lt→ltb, ap, ◌∙◌,
}
use mikroscope.Agent.Ring.{Ring, oldest}
use mikroscope.Agent.Ring.View.{WellFormed, contents}
use mikroscope.Agent.Ring.Numbered.{Consecutive}
use mikroscope.Agent.Ring.Read.{newer_than, newer-contents, oldest_held, oldest_empty}
use mikroscope.Collector.Forward.{Forwarder, resync}

module _ {F D X Y : Type 0} where
  resync-since :
      (r : Ring F) (f : Forwarder F D X Y)
      → WellFormed r
      → Consecutive r
      → r.last < f.since
      → (resync r.last (oldest r) f).since + 1 ≡ r.last + 1 - r.count
  unfolding resync
  resync-since r f w c ahead = elim (Bool-cases (r.count == 0)) [
    | inl empty ↦
        let none_held = (==_iff _ _).0 empty in
        rw (lt→leb f.since r.last ahead, oldest_empty r none_held)
          (omega (arith, c.filled, w.placed, none_held))
    | inr some_held ↦
        let held : 0 < r.count = ground arith in
        let first : 0 < oldest r = omega (arith, oldest_held r c held, c.counted) in
        rw (lt→leb f.since r.last ahead, lt→ltb 0 (oldest r) first)
          (omega (arith, oldest_held r c held, c.counted))
  ]

  -- When the cursor is ahead of the newest sample of the agent's ring, the ring being valid with
  -- consecutive numbers, it is moved back so that what the next pull asks for is everything the new
  -- ring holds; a cursor that is not ahead is left alone.
  pub resync-contents :
      (r : Ring F) (f : Forwarder F D X Y)
      → WellFormed r
      → Consecutive r
      → (r.last < f.since
          → newer_than (resync r.last (oldest r) f).since 0 (contents r) ≡ contents r)
        × (f.since ≤ r.last → resync r.last (oldest r) f ≡ f)
  resync-contents r f w c = (
    λ ahead.
        let k = (resync r.last (oldest r) f).since in
        let whole : k + 1 - (r.last + 1 - r.count) ≡ 0 =
          omega (arith, resync-since r f w c ahead) in
        newer-contents k r c ∙ ap (λ n. drop n (contents r)) whole,
    λ level. unfold resync in (rw (le→leb f.since r.last level) refl),
  )
