-- ===== src/Procfs/Numbers/Decimal.antt =====
-- The decimal numbers that `parseUint` reads.
use native.Mathlib.Nat.{pow-succ', mod-add-div, add-mul-mod_self_left}
use mikroscope.Common.{
  ℕ, suc, ◌+◌, ◌-◌, ◌*◌, ◌^◌, ◌%◌, ◌/◌, ◌<◌, [], ◌∷◌, none, some, Bool, true, Bytes, ◌≡◌, refl, sym,
  ◌∙◌, ap, arith, u64, u64_mod, length, Bool-cases, inl, inr, if◌then◌else◌, ◌||◌, ltb, leb, ◌==◌,
  ◌&&◌, not,
}
use mikroscope.Procfs.Numbers.{is_digit, uint_from, parse_uint}

-- The number that decimal digits stand for, by the places of its digits, without a bound.
abbrev pub value : Bytes → ℕ
value [] = 0
value (c ∷ cs) = (c - 48) * 10 ^ length cs + value cs

abbrev pub all_digits : Bytes → Bool
all_digits [] = true
all_digits (c ∷ cs) = is_digit c && all_digits cs

spread : (r m q p v : ℕ) → (r + m * q) * p + v ≡ r * p + v + m * (q * p)
spread r m q p v = grind arith

mod_mul : (a p v m : ℕ) → (a % m * p + v) % m ≡ (a * p + v) % m
mod_mul a p v m =
    let whole : a * p + v ≡ a % m * p + v + m * (a / m * p) =
      ap (λ t. t * p + v) (sym (mod-add-div a m)) ∙ spread (a % m) m (a / m) p v in
    sym (ap (λ t. t % m) whole ∙ add-mul-mod_self_left (a % m * p + v) m (a / m * p))

step_value : (n d p v : ℕ) → n * (10 * p) + (d * p + v) ≡ (n * 10 + d) * p + v
step_value n d p v = grind arith

uint_from-value :
    (n : ℕ) (cs : Bytes)
    → n < u64_mod
    → uint_from n cs ≡ (if all_digits cs then some (u64 (n * 10 ^ length cs + value cs)) else none)
unfolding uint_from
uint_from-value n [] h = ap some (omega arith)
uint_from-value n (c ∷ cs) h = elim (Bool-cases (is_digit c)) [
  | inl digit ↦
      let d = c - 48 in
      let p = 10 ^ length cs in
      let a = n * 10 + d in
      let same : u64 (u64 a * p + value cs) ≡ u64 (n * 10 ^ suc (length cs) + (d * p + value cs)) =
        mod_mul a p (value cs) u64_mod
        ∙ ap u64 (
            sym (step_value n d p (value cs))
            ∙ ap (λ t. n * t + (d * p + value cs)) (sym (pow-succ' 10 (length cs)))) in
      let small : u64 a < u64_mod = omega arith in
      rw (digit, uint_from-value (u64 a) cs small, same) refl
  | inr other ↦ rw other refl
]

by_length :
    (n : ℕ) (digits : Bool) (v : ℕ)
    → (if n == 0 || ltb 20 n then none else (if digits then some v else none))
      ≡ (if not (n == 0) && (leb n 20 && digits) then some v else none)
by_length n digits v = ground arith

-- `parseUint` reads exactly the strings of 1 to 20 decimal digits, and gives the number that they
-- stand for, modulo 2 ^ 64.
pub parse_uint-value :
    (bs : Bytes)
    → parse_uint bs ≡ (
        if not (length bs == 0) && (leb (length bs) 20 && all_digits bs)
        then some (u64 (value bs))
        else none)
unfolding parse_uint
parse_uint-value bs =
    let from_zero : 0 * 10 ^ length bs + value bs ≡ value bs = omega arith in
    let loop : uint_from 0 bs ≡ (if all_digits bs then some (u64 (value bs)) else none) =
      uint_from-value 0 bs (omega arith)
      ∙ ap (λ v. if all_digits bs then some (u64 v) else none) from_zero in
    rw loop (by_length (length bs) (all_digits bs) (u64 (value bs)))
