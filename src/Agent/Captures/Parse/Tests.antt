-- ===== src/Agent/Captures/Parse/Tests.antt =====
-- The setting TRIGGERS, with numbers in millionths.
use mikroscope.Common.{
  after_prefix, ℕ, ◌*◌, ◌∷◌, ◌++◌, Option, some, none, Bytes, codes, bytes_eq, ◌≡◌, refl,
}
use mikroscope.Procfs.Numbers.{parse_uint, uint_from}
use mikroscope.Sample.Floats.{micro}
use mikroscope.Agent.Captures.Types.{Condition, kmsg}
use mikroscope.Agent.Captures.Parse.{
  TriggerSpec, ok, error, bad_number, split_op, trigger_grammar, find_spec, in_range, with_number,
  by_spec, parse_condition, parse_triggers,
}
use mikroscope.Agent.Captures.Parse.Grammar.{both, Fits, parse_triggers-comma, parse_condition-Fits}

abbrev scaled : Option ℕ → Option ℕ
scaled none = none
scaled (some n) = some (n * 1000000)

abbrev whole : Bytes → Option ℕ
whole s = scaled (parse_uint s)

abbrev kmsg_3 : Condition ℕ
kmsg_3 = record { name = codes "kmsg<=3"; threshold = 3000000; kind = kmsg }

accepted : parse_condition micro whole (codes "kmsg<=3") ≡ ok kmsg_3
unfolding parse_condition by_spec with_number in_range find_spec trigger_grammar split_op
    after_prefix bytes_eq parse_uint uint_from
accepted = refl

too_high : parse_condition micro whole (codes "kmsg<=8") ≡ error bad_number
unfolding parse_condition by_spec with_number in_range find_spec trigger_grammar split_op
    after_prefix bytes_eq parse_uint uint_from
too_high = refl

parse_triggers-comma_example :
    parse_triggers micro whole (codes "oom " ++ 44 ∷ codes " kmsg<=3")
    ≡ both
        (parse_triggers micro whole (codes "oom "))
        (parse_triggers micro whole (codes " kmsg<=3"))
parse_triggers-comma_example = parse_triggers-comma micro whole (codes "oom ") (codes " kmsg<=3")

parse_condition-Fits_example :
    (spec : TriggerSpec ℕ) × (find_spec micro whole
        (split_op (codes "kmsg<=3")).0
        (trigger_grammar micro whole)
      ≡ some spec)
    × (kmsg_3.name ≡ codes "kmsg<=3")
    × (kmsg_3.kind ≡ spec.kind)
    × Fits micro whole spec (split_op (codes "kmsg<=3")).1 kmsg_3.threshold
parse_condition-Fits_example = parse_condition-Fits micro whole (codes "kmsg<=3") kmsg_3 accepted
