-- ===== src/Procfs/Lines/Counting.antt =====
-- The loops over the fields of a line against the list of its fields, and their fuel.
use mikroscope.Common.{
  ℕ, zero, suc, ◌+◌, ◌≤◌, ◌<◌, List, [], ◌∷◌, Bool, true, false, Bytes, add_front, ◌≡◌, refl, ap,
  ◌∙◌, arith, length, ◌==◌, Bool-cases, inl, inr, if◌then◌else◌,
}
use mikroscope.Procfs.Numbers.{is_blank, skip_blanks, word, next_field}
use mikroscope.Procfs.Lines.{count_loop}

-- The fields of a line: its longest runs without a blank, found byte by byte from the end.
abbrev pub at_blank : Bytes → Bool
at_blank [] = true
at_blank (b ∷ bs) = is_blank b

unfoldable pub fields : Bytes → List Bytes
fields [] = []
fields (b ∷ bs) =
    let rest = fields bs in
    if is_blank b then rest else if at_blank bs then (b ∷ []) ∷ rest else add_front b rest

skip_blanks-le : (bs : Bytes) → length (skip_blanks bs) ≤ length bs
unfolding skip_blanks
skip_blanks-le [] = omega arith
skip_blanks-le (b ∷ bs) = ground (arith, skip_blanks-le bs)

last_case :
    (p q : Bool) (x y z : List Bytes)
    → p ≡ false
    → q ≡ false
    → (if p then x else if q then y else z) ≡ z
last_case p q x y z h e = ground arith

-- A line that starts with a byte that is no blank.
fields-word :
    (b : ℕ) (bs : Bytes)
    → is_blank b ≡ false
    → fields (b ∷ bs) ≡ (b ∷ (word bs).0) ∷ fields (word bs).1
unfolding fields word add_front
fields-word b [] h = rw h refl
fields-word b (c ∷ bs) h = elim (Bool-cases (is_blank c)) [
  | inl e ↦ rw (h, e) (rw e refl)
  | inr e ↦
      last_case (is_blank b) (is_blank c) (fields (c ∷ bs)) ((b ∷ []) ∷ fields (c ∷ bs))
        (add_front b (fields (c ∷ bs))) h e
      ∙ ap (add_front b) (fields-word c bs e)
      ∙ rw e refl
]

word-le : (bs : Bytes) → length (word bs).0 + length (word bs).1 ≡ length bs
unfolding word
word-le [] = omega arith
word-le (b ∷ bs) = ground (arith, word-le bs)

unequal : (n : ℕ) (xs ys : List Bytes) → ys ≡ (if suc n == 0 then xs else ys)
unequal n xs ys = ground arith

-- A call of `nextField` takes the first field off the line, or finds none.
pub fields-next_field :
    (bs : Bytes)
    → let (f, rest) = next_field bs in fields bs ≡ (if length f == 0 then [] else f ∷ fields rest)
unfolding next_field skip_blanks word fields
fields-next_field [] = refl
fields-next_field (b ∷ bs) = elim (Bool-cases (is_blank b)) [
  | inl e ↦ rw e (fields-next_field bs)
  | inr e ↦ fields-word b bs e ∙ rw e (rw e (unequal (length (word bs).0) [] _))
]

-- A field that is not empty leaves a shorter line.
pub next_field_shorter :
    (bs : Bytes) → let (f, rest) = next_field bs in length f + length rest ≤ length bs
unfolding next_field
next_field_shorter bs = omega (arith, skip_blanks-le bs, word-le (skip_blanks bs))

-- `countFields` counts the fields of the line, and any fuel above the line's length is enough.
pub count_loop-fields :
    (fuel : ℕ) (line : Bytes) → length line < fuel → count_loop fuel line ≡ length (fields line)
unfolding count_loop
count_loop-fields zero line h = absurd (omega arith)
count_loop-fields (suc fuel) line h =
    let (f, rest) = next_field line in
    let shorter : length f + length rest ≤ length line = next_field_shorter line in
    elim (Bool-cases (length f == 0)) [
      | inl e ↦ rw (fields-next_field line, e) refl
      | inr e ↦ rw (fields-next_field line, e) (ap suc (count_loop-fields fuel rest (ground arith)))
    ]
