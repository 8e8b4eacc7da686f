-- ===== src/Agent/Captures/Parse.antt =====
-- internal/agent/capture.go, `ParseTriggers`: the conditions that the setting TRIGGERS names.
-- `strconv.ParseFloat` is a parameter; the white space trimmed is that of ASCII.
pub mod Grammar
mod Tests
use mikroscope.Common.{
  ℕ, List, [], ◌∷◌, ◌++◌, Option, none, some, Bool, true, false, ◌&&◌, ◌||◌, Bytes, codes, bytes_eq,
  after_prefix, add_front, trim_space, length, leb, ◌==◌, if◌then◌else◌,
}
use mikroscope.Sample.Floats.{Floats}
use mikroscope.Agent.Captures.Types.{
  CondKind, busy, drop, squeeze, oom, kmsg, reset, slip, mem_fall, irq_err, flash_bad, Condition,
}

pub record TriggerSpec (F : Type 0) : Type 0 where
  pub name : Bytes
  pub op : Bytes
  pub min : F
  pub max : F
  pub kind : CondKind

pub data ParseError : Type 0 where
  unknown_condition takes_no_threshold wrong_comparison bad_number : ParseError

pub data Result (A : Type 0) : Type 0 where
  ok : A → Result A
  error : ParseError → Result A

-- `strings.Cut` at the first `<` or `>`, which stays with the second part.
unfoldable pub split_op : Bytes → Bytes × Bytes
split_op [] = ([], [])
split_op (b ∷ bs) =
    let rest = split_op bs in if b == 60 || b == 62 then ([], b ∷ bs) else (b ∷ rest.0, rest.1)

-- `strings.SplitSeq` at commas.
unfoldable pub split_commas : Bytes → List Bytes
unfolding add_front
split_commas [] = [] ∷ []
split_commas (b ∷ bs) =
    let rest = split_commas bs in if b == 44 then [] ∷ rest else add_front b rest

module _ {F : Type 0} (fl : Floats F) (parse_float : Bytes → Option F) where
  open fl use {of_ℕ, div, lt}

  abbrev level : Bytes → Bytes → F → F → CondKind → TriggerSpec F
  level name op min max kind = record { name = name; op = op; min = min; max = max; kind = kind }

  abbrev event : Bytes → CondKind → TriggerSpec F
  event name kind = record { name = name; op = []; min = of_ℕ 0; max = of_ℕ 0; kind = kind }

  -- `TriggerGrammar`.
  unfoldable pub trigger_grammar : List (TriggerSpec F)
  trigger_grammar =
      level (codes "busy") (codes ">=") (div (of_ℕ 5) (of_ℕ 100)) (of_ℕ 1) busy
      ∷ level (codes "slip") (codes ">=") (div (of_ℕ 11) (of_ℕ 10)) (of_ℕ 100) slip
      ∷ level (codes "memfall") (codes ">=") (of_ℕ 1) (of_ℕ 100000) mem_fall
      ∷ level (codes "kmsg") (codes "<=") (of_ℕ 0) (of_ℕ 7) kmsg
      ∷ event (codes "softnet-drop") drop
      ∷ event (codes "squeeze") squeeze
      ∷ event (codes "oom") oom
      ∷ event (codes "reset") reset
      ∷ event (codes "irq-err") irq_err
      ∷ event (codes "flash-bad") flash_bad
      ∷ []

  unfoldable pub find_spec : Bytes → List (TriggerSpec F) → Option (TriggerSpec F)
  find_spec name [] = none
  find_spec name (spec ∷ specs) =
      let rest = find_spec name specs in if bytes_eq spec.name name then some spec else rest

  abbrev condition_of : Bytes → F → CondKind → Condition F
  condition_of raw threshold kind = record { name = raw; threshold = threshold; kind = kind }

  -- The number is outside the range; a NaN is not.
  unfoldable pub in_range : TriggerSpec F → Bytes → Option F → Result (Condition F)
  in_range spec raw none = error bad_number
  in_range spec raw (some v) =
      if lt v spec.min || lt spec.max v then error bad_number else ok (condition_of raw v spec.kind)

  unfoldable pub with_number : TriggerSpec F → Bytes → Option Bytes → Result (Condition F)
  unfolding in_range
  with_number spec raw none = error wrong_comparison
  with_number spec raw (some number) = in_range spec raw (parse_float number)

  unfoldable pub by_spec : Option (TriggerSpec F) → Bytes → Bytes → Result (Condition F)
  unfolding with_number after_prefix
  by_spec none raw arg = error unknown_condition
  by_spec (some spec) raw arg =
      let number = with_number spec raw (after_prefix spec.op arg) in
      if length spec.op == 0
      then (if length arg == 0
          then ok (condition_of raw (of_ℕ 0) spec.kind)
          else error takes_no_threshold)
      else number

  unfoldable pub parse_condition : Bytes → Result (Condition F)
  unfolding by_spec
  parse_condition raw =
      let (name, arg) = split_op raw in by_spec (find_spec name trigger_grammar) raw arg

  -- The first error ends the loop.
  unfoldable pub add_condition :
      Result (Condition F) → Result (List (Condition F)) → Result (List (Condition F))
  add_condition (error e) rest = error e
  add_condition (ok c) (error e) = error e
  add_condition (ok c) (ok cs) = ok (c ∷ cs)

  -- The loop of `ParseTriggers` over the parts.
  unfoldable pub parse_parts : List Bytes → Result (List (Condition F))
  unfolding add_condition
  parse_parts [] = ok []
  parse_parts (part ∷ parts) =
      let raw = trim_space part in
      let rest = parse_parts parts in
      let added = add_condition (parse_condition raw) rest in
      if length raw == 0 then rest else added

  unfoldable pub parse_triggers : Bytes → Result (List (Condition F))
  unfolding parse_parts
  parse_triggers spec = parse_parts (split_commas spec)
