-- ===== src/Agent/Captures/Reachable.antt =====
-- The evaluator over its whole life: the states that its methods reach, in any order and number.
use mikroscope.Common.{ℕ, some, Bytes, ℤ, ◌≡◌}
use mikroscope.Sample.Floats.{Floats}
use mikroscope.Sample.Types.{Sample}
use mikroscope.Agent.Ring.{Ring}
use mikroscope.Agent.Captures.Types.{CaptureConfig, Captures, new_captures}
use mikroscope.Agent.Captures.Fire.{observe, fire_manual}
use mikroscope.Agent.Captures.Collect.{after_push, finalize, delete, serve}
use mikroscope.Agent.Captures.Budget.{
  WithinBudget, new_captures-WithinBudget, fire-WithinBudget, after_push-WithinBudget,
  finalize-WithinBudget, delete-WithinBudget,
}
use mikroscope.Agent.Captures.Observe.{observe-WithinBudget}

module _ {F : Type 0} (fl : Floats F) where
  -- What the sampler and the HTTP server may call, one method after the other.
  pub data Reachable (cfg : CaptureConfig F) : Captures F → Type 0 where
    made : (c : Captures F) → new_captures cfg ≡ some c → Reachable cfg c
    observed : {c : Captures F} (s : Sample F) → Reachable cfg c → Reachable cfg (observe fl s c)
    fired :
        {c : Captures F} (zero : F) (reason : Bytes) (last : ℕ) (mono wall : ℤ)
        → Reachable cfg c
        → Reachable cfg (fire_manual zero reason last mono wall c).0
    pushed :
        {c : Captures F} (ring : Ring F) (seq : ℕ)
        → Reachable cfg c
        → Reachable cfg (after_push ring seq c)
    stopped : {c : Captures F} (ring : Ring F) → Reachable cfg c → Reachable cfg (finalize ring c)
    deleted : {c : Captures F} (id : ℕ) → Reachable cfg c → Reachable cfg (delete id c).0
    downloaded : {c : Captures F} (n : ℕ) → Reachable cfg c → Reachable cfg (serve n c)

  -- In every state that the methods reach, from any configuration that turns the feature on, the
  -- byte count is that of the captures held, it is within the budget, at most 64 markers are kept,
  -- and each held capture has at least one sample and states the number and the bytes it pins.
  pub reachable-WithinBudget :
      {cfg : CaptureConfig F} {c : Captures F} → Reachable cfg c → WithinBudget c
  unfolding fire_manual serve
  reachable-WithinBudget {cfg} (made c h) = new_captures-WithinBudget cfg h
  reachable-WithinBudget (observed {c} s r) = observe-WithinBudget fl s c (reachable-WithinBudget r)
  reachable-WithinBudget (fired {c} zero reason last mono wall r) =
      fire-WithinBudget zero _ _ reason zero last mono wall c (reachable-WithinBudget r)
  reachable-WithinBudget (pushed {c} ring seq r) =
      after_push-WithinBudget ring seq c (reachable-WithinBudget r)
  reachable-WithinBudget (stopped {c} ring r) =
      finalize-WithinBudget ring c (reachable-WithinBudget r)
  reachable-WithinBudget (deleted {c} id r) = delete-WithinBudget id c (reachable-WithinBudget r)
  reachable-WithinBudget (downloaded {c} n r) =
      let w = reachable-WithinBudget r in
      record { exact = w.exact; capped = w.capped; few_markers = w.few_markers; honest = w.honest }
