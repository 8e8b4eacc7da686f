-- ===== src/Common/Int.antt =====
-- Signed integers (Go's int64 where a sign matters), over the native numbers.
use Prim.Native.Nat.{ℕ, suc, ◌+◌, ◌-◌, ◌%◌, ◌≤◌, ◌<◌}
use mathlib.Core.Path.{◌≡◌, ap, ◌∙◌}
use native.Mathlib.Omega.{arith}
use mathlib.Core.Bool.{Bool}
use mathlib.Core.Logic.{inl, inr}
use mikroscope.Common.Tests.{
  leb, ltb, u64, u64_mod, sub64, Bool-cases, leb→le, leb→lt, lt→ltb, le→ltb, if◌then◌else◌,
}

-- `negsuc n` is -(n + 1).
pub data ℤ : Type 0 where
  pos : ℕ → ℤ
  negsuc : ℕ → ℤ

abbrev pub pos_part : ℤ → ℕ
pos_part (pos n) = n
pos_part (negsuc n) = 0

abbrev pub neg_part : ℤ → ℕ
neg_part (pos n) = 0
neg_part (negsuc n) = suc n

-- a - b, as an integer.
abbrev pub sub_ℕ : ℕ → ℕ → ℤ
sub_ℕ a b = if leb b a then pos (a - b) else negsuc (b - a - 1)

infixl 65 ◌+ℤ◌ ◌-ℤ◌
unfoldable pub ◌+ℤ◌ : ℤ → ℤ → ℤ
a +ℤ b = sub_ℕ (pos_part a + pos_part b) (neg_part a + neg_part b)

unfoldable pub ◌-ℤ◌ : ℤ → ℤ → ℤ
a -ℤ b = sub_ℕ (pos_part a + neg_part b) (neg_part a + pos_part b)

infix 50 ◌≤ℤ◌
abbrev pub ◌≤ℤ◌ : ℤ → ℤ → Type 0
a ≤ℤ b = pos_part a + neg_part b ≤ pos_part b + neg_part a

-- `a <= b` as a test.
abbrev pub lebℤ : ℤ → ℤ → Bool
lebℤ a b = leb (pos_part a + neg_part b) (pos_part b + neg_part a)

-- The 64 bits of an int64, and the int64 that they are.
abbrev pub bits64 : ℤ → ℕ
bits64 (pos n) = n % u64_mod
bits64 (negsuc n) = u64_mod - 1 - n % u64_mod

abbrev pub signed64 : ℕ → ℤ
signed64 v = if ltb v 9223372036854775808 then pos v else negsuc (u64_mod - v - 1)

-- `+` and `-` of int64 values, which wrap.
unfoldable pub add_int64 : ℤ → ℤ → ℤ
add_int64 a b = signed64 (u64 (bits64 a + bits64 b))

unfoldable pub sub_int64 : ℤ → ℤ → ℤ
sub_int64 a b = signed64 (sub64 (bits64 a) (bits64 b))

differ :
    (m n : ℕ)
    → m < 9223372036854775808
    → n < 9223372036854775808
    → sub_int64 (pos m) (pos n) ≡ pos m -ℤ pos n
unfolding sub_int64 ◌-ℤ◌
differ m n h k = elim (Bool-cases (leb (0 + n) (m + 0))) [
  | inl le ↦
      let v : sub64 (m % u64_mod) (n % u64_mod) ≡ m - n = omega (arith, leb→le _ _ le) in
      ap signed64 v
      ∙ rw (lt→ltb (m - n) 9223372036854775808 (omega arith), le) (ap pos (omega arith))
  | inr gt ↦
      let less = leb→lt _ _ gt in
      let v : sub64 (m % u64_mod) (n % u64_mod) ≡ m + u64_mod - n = omega (arith, less) in
      ap signed64 v
      ∙ rw (le→ltb (m + u64_mod - n) 9223372036854775808 (omega (arith, less)), gt)
          (ap negsuc (omega (arith, less)))
]

-- An int64 that is not negative; the difference of two such does not wrap.
abbrev pub NotNegative : ℤ → Type 0
NotNegative t = (n : ℕ) × (t ≡ pos n) × (n < 9223372036854775808)

pub sub_int64-NotNegative : (a b : ℤ) → NotNegative a → NotNegative b → sub_int64 a b ≡ a -ℤ b
unfolding sub_int64 ◌-ℤ◌
sub_int64-NotNegative a b (m, e, h) (n, f, k) = rw (e, f) (differ m n h k)
