-- ===== src/Procfs/Fuel.antt =====
-- The loops over the fields of a line that have no count to stop at: the fuel of the model is enough.
mod Tests
use mikroscope.Common.{
  ℕ, zero, suc, ◌+◌, ◌≤◌, ◌<◌, List, [], ◌∷◌, Option, none, some, true, false, Bytes, codes,
  after_prefix, ◌≡◌, refl, sym, ap, ◌∙◌, arith, length, ◌==◌, if◌then◌else◌, Bool-cases, inl, inr,
  Option-cases, of_some, ◌>>=◌,
}
use mikroscope.Procfs.Numbers.{next_field, parse_uint}
use mikroscope.Procfs.Lines.{count_loop}
use mikroscope.Procfs.Lines.Counting.{
  fields, fields-next_field, next_field_shorter, count_loop-fields,
}
use mikroscope.Procfs.Devices.{buddy_loop}
use mikroscope.Procfs.Single.{total_loop}

-- Every field is a number.
abbrev pub all_numbers : List Bytes → Option (List ℕ)
all_numbers [] = some []
all_numbers (f ∷ fs) = do let v = (← parse_uint f); let vs = (← all_numbers fs); some (v ∷ vs)

-- The number of the first field that starts with `total=`.
abbrev pub first_total : List Bytes → Option ℕ
first_total [] = none
first_total (f ∷ fs) = of_some (first_total fs) parse_uint (after_prefix (codes "total=") f)

buddy_loop-fields :
    (fuel : ℕ) (rest : Bytes)
    → length rest < fuel
    → buddy_loop fuel rest ≡ all_numbers (fields rest)
unfolding buddy_loop
buddy_loop-fields zero rest h = absurd (omega arith)
buddy_loop-fields (suc fuel) rest h =
    let (f, after) = next_field rest in
    let shorter : length f + length after ≤ length rest = next_field_shorter rest in
    elim (Bool-cases (length f == 0)) [
      | inl e ↦ rw (fields-next_field rest, e) refl
      | inr e ↦ rw (fields-next_field rest, e, buddy_loop-fields fuel after (ground arith)) refl
    ]

total_loop-fields :
    (fuel : ℕ) (rest : Bytes)
    → length rest < fuel
    → total_loop fuel rest ≡ first_total (fields rest)
unfolding total_loop
total_loop-fields zero rest h = absurd (omega arith)
total_loop-fields (suc fuel) rest h =
    let (f, after) = next_field rest in
    let shorter : length f + length after ≤ length rest = next_field_shorter rest in
    elim (Bool-cases (length f == 0)) [
      | inl e ↦ rw (fields-next_field rest, e) refl
      | inr e ↦ elim (Option-cases (after_prefix (codes "total=") f)) [
        | inl o ↦
            rw (fields-next_field rest, e, o, total_loop-fields fuel after (ground arith)) refl
        | inr (v, o) ↦ rw (fields-next_field rest, e, o) refl
      ]
    ]

-- With more fuel than the line has bytes, `countFields` gives the number of the line's fields; the
-- loop of `parseBuddyLine` all of them as numbers, or an error when one is not a number; and
-- `totalOf` the number of the first field that starts with `total=`, or an error when there is none.
pub loops-fields :
    (fuel : ℕ) (line : Bytes)
    → length line < fuel
    → (count_loop fuel line ≡ length (fields line))
      × (buddy_loop fuel line ≡ all_numbers (fields line))
      × (total_loop fuel line ≡ first_total (fields line))
loops-fields fuel line h =
    (count_loop-fields fuel line h, buddy_loop-fields fuel line h, total_loop-fields fuel line h)
