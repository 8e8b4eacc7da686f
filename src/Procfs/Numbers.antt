-- ===== src/Procfs/Numbers.antt =====
-- internal/procfs/procfs.go: fields and numbers, which every parser of a kernel file is made of.
pub mod Fields
pub mod Decimal
pub mod RoundTrip
mod Tests
use mikroscope.Common.{
  ℕ, ◌+◌, ◌-◌, ◌*◌, List, [], ◌∷◌, Option, none, some, Bool, ◌&&◌, ◌||◌, not, Bytes, u64, length,
  ltb, leb, ◌==◌, if◌then◌else◌,
}

abbrev pub is_blank : ℕ → Bool
is_blank b = b == 32 || b == 9

-- The first loop of `nextField`.
unfoldable pub skip_blanks : Bytes → Bytes
skip_blanks [] = []
skip_blanks (b ∷ bs) = let rest = skip_blanks bs in if is_blank b then rest else b ∷ bs

-- Its second loop: the word and what comes after it.
unfoldable pub word : Bytes → Bytes × Bytes
word [] = ([], [])
word (b ∷ bs) = let rest = word bs in if is_blank b then ([], b ∷ bs) else (b ∷ rest.0, rest.1)

unfoldable pub next_field : Bytes → Bytes × Bytes
unfolding skip_blanks word
next_field bs = word (skip_blanks bs)

abbrev pub is_digit : ℕ → Bool
is_digit c = leb 48 c && leb c 57

-- The loop of `parseUint`, with the number so far.
unfoldable pub uint_from : ℕ → Bytes → Option ℕ
uint_from n [] = some n
uint_from n (c ∷ cs) =
    let rest = uint_from (u64 (n * 10 + (c - 48))) cs in if is_digit c then rest else none

unfoldable pub parse_uint : Bytes → Option ℕ
unfolding uint_from
parse_uint bs = if length bs == 0 || ltb 20 (length bs) then none else uint_from 0 bs

-- The value of a hexadecimal digit.
unfoldable pub hex_digit : ℕ → Option ℕ
hex_digit c =
    if leb 48 c && leb c 57
    then some (c - 48)
    else if leb 97 c && leb c 102
    then some (c - 97 + 10)
    else if leb 65 c && leb c 70
    then some (c - 65 + 10)
    else none

abbrev hex_next : Option ℕ → ℕ → Option ℕ
hex_next none n = none
hex_next (some d) n = some (u64 (n * 16) + d)

unfoldable pub hex_from : Option ℕ → Bytes → Option ℕ
hex_from n [] = n
hex_from none (c ∷ cs) = none
hex_from (some n) (c ∷ cs) = hex_from (hex_next (hex_digit c) n) cs

-- `n<<4 | d`: the shift leaves the low four bits free, so that the or is a sum.
unfoldable pub parse_hex : Bytes → Option ℕ
unfolding hex_from hex_digit
parse_hex bs = if length bs == 0 || ltb 16 (length bs) then none else hex_from (some 0) bs
