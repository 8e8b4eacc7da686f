-- ===== src/Derive/Fire.antt =====
-- internal/derive/derive.go: `fire`, and the closure of `Kernel` that collects what it gives.
use mikroscope.Common.{
  ◌+◌, List, [], ◌∷◌, ◌++◌, Option, none, some, Bool, true, false, not, Bytes, ℤ, sub_int64, lebℤ,
  lookup, insert, if◌then◌else◌, of_some, u64,
}
use mikroscope.Derive.Types.{Rule, rule_name, Detection, Stage}

-- `rule + "\x00" + key`.
unfoldable pub fire_key : Rule → Bytes → Bytes
unfolding rule_name
fire_key rule key = rule_name rule ++ 0 ∷ key

-- The stage and the detections so far of one call of `Kernel`.
pub record Firing (F : Type 0) : Type 0 where
  pub stage : Stage F
  pub out : List (Detection F)

module _ {F : Type 0} where
  -- The last detection under the key is too near.
  unfoldable pub is_refractory : Bytes → ℤ → Stage F → Bool
  is_refractory k now st =
      of_some false (λ last. not (lebℤ st.opts.refractory_ns (sub_int64 now last)))
        (lookup k st.last_fire)

  unfoldable pub fire : Detection F → Stage F → Stage F × Option (Detection F)
  unfolding is_refractory fire_key
  fire d st =
      let k = fire_key d.rule d.key in
      if is_refractory k d.wall_ns st
      then (record st { suppressed = u64 (st.suppressed + 1) }, none)
      else (record st { last_fire = insert k d.wall_ns st.last_fire }, some d)

  abbrev collected : List (Detection F) → Option (Detection F) → List (Detection F)
  collected out none = out
  collected out (some d) = out ++ d ∷ []

  unfoldable pub emit : Detection F → Firing F → Firing F
  unfolding fire
  emit d r = let (st, o) = fire d r.stage in record { stage = st; out = collected r.out o }

  -- A detection where a condition holds.
  abbrev pub emit_if : Bool → Detection F → Firing F → Firing F
  emit_if true d r = emit d r
  emit_if false d r = r
