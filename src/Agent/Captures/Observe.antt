-- ===== src/Agent/Captures/Observe.antt =====
-- The budget invariant over the evaluation of a sample.
use mikroscope.Common.{List, [], ◌∷◌, Option, none, some, Bytes}
use mikroscope.Sample.Floats.{Floats}
use mikroscope.Sample.Types.{Sample}
use mikroscope.Agent.Captures.Types.{Condition, Captures}
use mikroscope.Agent.Captures.Evaluate.{evaluate}
use mikroscope.Agent.Captures.Fire.{observe, observe_all, observe_one, react, remember}
use mikroscope.Agent.Captures.Budget.{WithinBudget, fire-WithinBudget}

module _ {F : Type 0} (fl : Floats F) where
  react-WithinBudget :
      (hit : Option (Bytes × F)) (cond : Condition F) (s : Sample F) (c : Captures F)
      → WithinBudget c
      → WithinBudget (react fl hit cond s c)
  unfolding react
  react-WithinBudget none cond s c w = w
  react-WithinBudget (some (field, value)) cond s c w =
      fire-WithinBudget (fl.of_ℕ 0) cond.name (some cond) field value s.seq s.mono_ns s.wall_ns c w

  observe_all-WithinBudget :
      (conds : List (Condition F)) (s : Sample F) (period : F) (c : Captures F)
      → WithinBudget c
      → WithinBudget (observe_all fl conds s period c)
  unfolding observe_all observe_one
  observe_all-WithinBudget [] s period c w = w
  observe_all-WithinBudget (cond ∷ conds) s period c w =
      observe_all-WithinBudget conds s period (observe_one fl cond s period c)
        (react-WithinBudget (evaluate fl cond c s period) cond s c w)

  -- Evaluating every condition against a sample keeps the budget invariant.
  pub observe-WithinBudget :
      (s : Sample F) (c : Captures F) → WithinBudget c → WithinBudget (observe fl s c)
  unfolding observe remember
  observe-WithinBudget s c w =
      let period = fl.div (fl.of_ℕ 1000000000) (fl.of_ℕ c.cfg.rate_hz) in
      let w' = observe_all-WithinBudget c.cfg.conditions s period c w in
      record {
        exact = w'.exact;
        capped = w'.capped;
        few_markers = w'.few_markers;
        honest = w'.honest;
      }
