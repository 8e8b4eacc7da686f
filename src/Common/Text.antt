-- ===== src/Common/Text.antt =====
-- Text as its bytes: a Go string is a list of byte values.
use Prim.Native.Char.{code}
use Prim.Native.Nat.{ℕ, zero, suc, ◌+◌, ◌/◌, ◌%◌}
use Prim.Native.String.{String}
use mathlib.Core.Path.{◌≡◌, refl}
use mathlib.Core.Logic.{◌↔◌}
use mathlib.Core.Bool.{Bool, true, false, ◌&&◌, ◌||◌}
use mathlib.Core.List.{List, [], ◌∷◌}
use mathlib.Core.Option.{Option, none, some}
use mikroscope.Common.Lists.{length}
use native.Mathlib.Omega.{arith}
use mikroscope.Common.Tests.{◌==◌, ltb, leb, if◌then◌else◌}

abbrev pub Bytes : Type 0
Bytes = List ℕ

-- The bytes of an ASCII literal.
abbrev pub codes : String → Bytes
codes String.[] = []
codes (String.◌∷◌ c s) = code c ∷ codes s

unfoldable pub bytes_eq : Bytes → Bytes → Bool
bytes_eq [] [] = true
bytes_eq [] (b ∷ t) = false
bytes_eq (a ∷ s) [] = false
bytes_eq (a ∷ s) (b ∷ t) = a == b && bytes_eq s t

pub bytes_eq→eq : (s t : Bytes) → bytes_eq s t ≡ true → s ≡ t
unfolding bytes_eq
bytes_eq→eq [] [] h = refl
bytes_eq→eq [] (b ∷ t) h = cc
bytes_eq→eq (a ∷ s) [] h = cc
bytes_eq→eq (a ∷ s) (b ∷ t) h = ground (arith, bytes_eq→eq s t)

pub bytes_eq_refl : (s : Bytes) → bytes_eq s s ≡ true
unfolding bytes_eq
bytes_eq_refl [] = refl
bytes_eq_refl (a ∷ s) = ground (arith, bytes_eq_refl s)

pub bytes_eq_iff : (s t : Bytes) → (bytes_eq s t ≡ true) ↔ (s ≡ t)
bytes_eq_iff s t = (bytes_eq→eq s t, λ e. rw e (bytes_eq_refl t))

-- Go's `<` on strings: byte by byte, a proper prefix first.
unfoldable pub bytes_lt : Bytes → Bytes → Bool
bytes_lt [] [] = false
bytes_lt [] (b ∷ t) = true
bytes_lt (a ∷ s) [] = false
bytes_lt (a ∷ s) (b ∷ t) = let rest = bytes_lt s t in if a == b then rest else ltb a b

-- `sort.Strings`: strings that compare equal are equal, so that stability does not show.
unfoldable pub place_string : Bytes → List Bytes → List Bytes
place_string s [] = s ∷ []
place_string s (t ∷ ts) =
    let rest = place_string s ts in if bytes_lt t s then t ∷ rest else s ∷ (t ∷ ts)

unfoldable pub sort_strings : List Bytes → List Bytes
unfolding place_string
sort_strings [] = []
sort_strings (s ∷ ss) = place_string s (sort_strings ss)

-- `strings.HasPrefix` and `strings.TrimPrefix` in one.
unfoldable pub after_prefix : Bytes → Bytes → Option Bytes
after_prefix [] s = some s
after_prefix (p ∷ ps) [] = none
after_prefix (p ∷ ps) (b ∷ bs) = let rest = after_prefix ps bs in if p == b then rest else none

-- A byte in front of the first part.
unfoldable pub add_front : ℕ → List Bytes → List Bytes
add_front b [] = (b ∷ []) ∷ []
add_front b (w ∷ ws) = (b ∷ w) ∷ ws

-- The white space of ASCII.
abbrev pub is_space : ℕ → Bool
is_space b = b == 32 || (leb 9 b && leb b 13)

unfoldable pub trim_left : Bytes → Bytes
trim_left [] = []
trim_left (b ∷ bs) = let rest = trim_left bs in if is_space b then rest else b ∷ bs

unfoldable pub trim_right : Bytes → Bytes
trim_right [] = []
trim_right (b ∷ bs) =
    let rest = trim_right bs in if length rest == 0 && is_space b then [] else b ∷ rest

unfoldable pub trim_space : Bytes → Bytes
unfolding trim_left trim_right
trim_space bs = trim_right (trim_left bs)

-- `strconv.Itoa` of a number that is not negative: a number has fewer digits than its value plus one.
unfoldable pub digits : ℕ → ℕ → Bytes → Bytes
digits zero n out = out
digits (suc f) n out =
    let out' = (48 + n % 10) ∷ out in
    let rest = digits f (n / 10) out' in if ltb n 10 then out' else rest

unfoldable pub itoa : ℕ → Bytes
unfolding digits
itoa n = digits (suc n) n []

itoa_test : itoa 1024 ≡ codes "1024"
unfolding itoa
itoa_test = refl
