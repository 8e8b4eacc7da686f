-- ===== src/Agent/Captures/Untouched.antt =====
-- Evaluating the conditions against a sample does not touch what is retained.
use mikroscope.Common.{List, [], ◌∷◌, Option, none, some, Bytes, ℤ, ℕ, ◌≡◌, refl, ◌∙◌, arith}
use mikroscope.Sample.Floats.{Floats}
use mikroscope.Sample.Types.{Sample}
use mikroscope.Agent.Captures.Types.{Condition, Captures}
use mikroscope.Agent.Captures.Evaluate.{evaluate}
use mikroscope.Agent.Captures.Fire.{
  fire, fire_pending, arm, observe, observe_all, observe_one, react, remember,
}

module _ {F : Type 0} where
  pub record SameStore (c d : Captures F) : Type 0 where
    pub same_held : d.held ≡ c.held
    pub same_bytes : d.bytes ≡ c.bytes
    pub same_cfg : d.cfg ≡ c.cfg
    pub same_refused : d.refused ≡ c.refused
    pub same_pre : d.pre ≡ c.pre
    pub same_post : d.post ≡ c.post

  pub itself : {c : Captures F} → SameStore c c
  itself = record {
    same_held = refl;
    same_bytes = refl;
    same_cfg = refl;
    same_refused = refl;
    same_pre = refl;
    same_post = refl;
  }

  both_same : {c d e : Captures F} → SameStore c d → SameStore d e → SameStore c e
  both_same s t = record {
    same_held = t.same_held ∙ s.same_held;
    same_bytes = t.same_bytes ∙ s.same_bytes;
    same_cfg = t.same_cfg ∙ s.same_cfg;
    same_refused = t.same_refused ∙ s.same_refused;
    same_pre = t.same_pre ∙ s.same_pre;
    same_post = t.same_post ∙ s.same_post;
  }

  fire-SameStore :
      (zero : F) (cause : Bytes) (cond : Option (Condition F)) (field : Bytes) (value : F) (seq : ℕ)
      (mono wall : ℤ) (c : Captures F)
      → SameStore c (fire zero cause cond field value seq mono wall c)
  unfolding fire fire_pending arm
  fire-SameStore zero cause cond field value seq mono wall c = record {
    same_held = ground arith;
    same_bytes = ground arith;
    same_cfg = ground arith;
    same_refused = ground arith;
    same_pre = ground arith;
    same_post = ground arith;
  }

module _ {F : Type 0} (fl : Floats F) where
  react-SameStore :
      (hit : Option (Bytes × F)) (cond : Condition F) (s : Sample F) (c : Captures F)
      → SameStore c (react fl hit cond s c)
  unfolding react
  react-SameStore none cond s c = itself
  react-SameStore (some (field, value)) cond s c =
      fire-SameStore (fl.of_ℕ 0) cond.name (some cond) field value s.seq s.mono_ns s.wall_ns c

  observe_all-SameStore :
      (conds : List (Condition F)) (s : Sample F) (period : F) (c : Captures F)
      → SameStore c (observe_all fl conds s period c)
  unfolding observe_all observe_one
  observe_all-SameStore [] s period c = itself
  observe_all-SameStore (cond ∷ conds) s period c =
      both_same (react-SameStore (evaluate fl cond c s period) cond s c)
        (observe_all-SameStore conds s period (observe_one fl cond s period c))

  pub observe-SameStore : (s : Sample F) (c : Captures F) → SameStore c (observe fl s c)
  unfolding observe remember
  observe-SameStore s c =
      let period = fl.div (fl.of_ℕ 1000000000) (fl.of_ℕ c.cfg.rate_hz) in
      let kept = observe_all-SameStore c.cfg.conditions s period c in
      record {
        same_held = kept.same_held;
        same_bytes = kept.same_bytes;
        same_cfg = kept.same_cfg;
        same_refused = kept.same_refused;
        same_pre = kept.same_pre;
        same_post = kept.same_post;
      }
