-- ===== src/Procfs/Numbers/RoundTrip.antt =====
-- Numbers that are printed and read back, and the fields that they make.
use native.Mathlib.Nat.{pow-succ'}
use mikroscope.Common.{
  ℕ, zero, suc, ◌+◌, ◌-◌, ◌*◌, ◌/◌, ◌%◌, ◌^◌, ◌≤◌, ◌<◌, [], ◌∷◌, ◌++◌, Option, none, some, true,
  false, Bytes, digits, itoa, ◌≡◌, refl, ap, ◌∙◌, arith, u64, u64_mod, length, All, ltb, ◌==◌, ◌||◌,
  if◌then◌else◌, Bool-cases, inl, inr, ltb→lt, ltb→le, ==_iff,
}
use mikroscope.Procfs.Numbers.{
  is_blank, is_digit, skip_blanks, word, next_field, uint_from, parse_uint,
}
use mikroscope.Procfs.Numbers.Fields.{AtBlank}

word_lem :
    (w rest : Bytes) → All (λ b. is_blank b ≡ false) w → AtBlank rest → word (w ++ rest) ≡ (w, rest)
unfolding word
word_lem [] [] h e = refl
word_lem [] (b ∷ rest) h e = rw e refl
word_lem (b ∷ w) rest h e = rw (h.0, word_lem w rest h.1 e) refl

-- A word in front of a blank, or at the end, is the next field.
pub next_field_word :
    (b : ℕ) (w rest : Bytes)
    → All (λ c. is_blank c ≡ false) (b ∷ w)
    → AtBlank rest
    → next_field (b ∷ w ++ rest) ≡ (b ∷ w, rest)
unfolding next_field skip_blanks
next_field_word b w rest h e = rw h.0 (word_lem (b ∷ w) rest h e)

-- A blank in front is skipped.
pub next_field_blank :
    (b : ℕ) (rest : Bytes) → is_blank b ≡ true → next_field (b ∷ rest) ≡ next_field rest
unfolding next_field skip_blanks
next_field_blank b rest h = rw h refl

digit : (n : ℕ) → is_digit (48 + n % 10) ≡ true
digit n = ground arith

-- One digit read, after a number that is small enough.
uint_from-digit :
    (m n k : ℕ) (out : Bytes)
    → m * 10 + n % 10 ≡ k
    → k < u64_mod
    → uint_from m ((48 + n % 10) ∷ out) ≡ uint_from k out
unfolding uint_from
uint_from-digit m n k out e h =
    let same : u64 (m * 10 + (48 + n % 10 - 48)) ≡ k = omega arith in rw (digit n, same) refl

-- What stands before the digits does not matter once their number is known.
uint_from-digits :
    (fuel n : ℕ) (out : Bytes)
    → n < fuel
    → n < u64_mod
    → uint_from 0 (digits fuel n out) ≡ uint_from n out
unfolding digits
uint_from-digits zero n out h k = absurd (omega arith)
uint_from-digits (suc fuel) n out h k = elim (Bool-cases (ltb n 10)) [
  | inl e ↦ rw e (uint_from-digit 0 n n out (omega (arith, ltb→lt n 10 e)) k)
  | inr e ↦ rw e (
      uint_from-digits fuel (n / 10) ((48 + n % 10) ∷ out) (omega (arith, ltb→le n 10 e))
        (omega arith)
      ∙ uint_from-digit (n / 10) n n out (omega arith) k)
]

length-digits :
    (k fuel n : ℕ) (out : Bytes)
    → n < 10 ^ k
    → n < fuel
    → 0 < k
    → length (digits fuel n out) ≤ k + length out
unfolding digits
length-digits zero fuel n out h f p = absurd (omega arith)
length-digits (suc k) zero n out h f p = absurd (omega arith)
length-digits (suc k) (suc fuel) n out h f p = elim (Bool-cases (ltb n 10)) [
  | inl e ↦ rw e (omega arith)
  | inr e ↦ elim (Bool-cases (k == 0)) [
    | inl z ↦
        let one : k ≡ 0 = (==_iff k 0).0 z in
        absurd (omega (arith, pow-succ' 10 k, ltb→le n 10 e, ap (λ j. 10 ^ j) one))
    | inr nz ↦ rw e (
        omega (
          arith,
          length-digits k fuel (n / 10) ((48 + n % 10) ∷ out) (omega (arith, pow-succ' 10 k))
              (omega (arith, ltb→le n 10 e)) (ground arith),
        ))
  ]
]

digits-filled : (fuel n : ℕ) (out : Bytes) → n < fuel → length out < length (digits fuel n out)
unfolding digits
digits-filled zero n out h = absurd (omega arith)
digits-filled (suc fuel) n out h = elim (Bool-cases (ltb n 10)) [
  | inl e ↦ rw e (omega arith)
  | inr e ↦ rw e (
      omega
        (arith, digits-filled fuel (n / 10) ((48 + n % 10) ∷ out) (omega (arith, ltb→le n 10 e))))
]

digits-All :
    (fuel n : ℕ) (out : Bytes)
    → All (λ c. is_digit c ≡ true) out
    → All (λ c. is_digit c ≡ true) (digits fuel n out)
unfolding digits
digits-All zero n out h = h
digits-All (suc fuel) n out h = elim (Bool-cases (ltb n 10)) [
  | inl e ↦ rw e (digit n, h)
  | inr e ↦ rw e (digits-All fuel (n / 10) ((48 + n % 10) ∷ out) (digit n, h))
]

-- A printed number is one digit or more.
pub itoa-All : (n : ℕ) → All (λ c. is_digit c ≡ true) (itoa n)
unfolding itoa
itoa-All n = digits-All (suc n) n [] tt

pub itoa-filled : (n : ℕ) → 0 < length (itoa n)
unfolding itoa
itoa-filled n = digits-filled (suc n) n [] (omega arith)

uint_from_end : (n : ℕ) → uint_from n [] ≡ some n
unfolding uint_from
uint_from_end n = refl

short_enough :
    (m : ℕ) (v : Option ℕ) → 0 < m → m ≤ 20 → (if m == 0 || ltb 20 m then none else v) ≡ v
short_enough m v p h = ground arith

-- A number below 2 ^ 64, printed in decimal, is read back by `parseUint`.
pub parse_uint-itoa : (n : ℕ) → n < u64_mod → parse_uint (itoa n) ≡ some n
unfolding parse_uint itoa
parse_uint-itoa n h =
    let fits : n < 10 ^ 20 = omega arith in
    short_enough (length (itoa n)) _ (itoa-filled n)
      (omega (arith, length-digits 20 (suc n) n [] fits (omega arith) (omega arith)))
    ∙ uint_from-digits (suc n) n [] (omega arith) h
    ∙ uint_from_end n
