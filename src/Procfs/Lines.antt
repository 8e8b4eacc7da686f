-- ===== src/Procfs/Lines.antt =====
-- internal/procfs: the loops over a file's lines and over a line's fields. An error of a parser
-- (always one that wraps ErrFormat) is `none`.
pub mod Split
pub mod Counting
use mikroscope.Common.{
  ℕ, zero, suc, List, [], ◌∷◌, Option, none, some, Bool, Bytes, add_front, trim_space, length, ◌==◌,
  if◌then◌else◌, ◌>>=◌, or_else,
}
use mikroscope.Procfs.Numbers.{next_field, parse_uint, parse_hex}

-- The lines that `lines` gives its callback, one after the other: the bytes up to each newline, and
-- what stands after the last one unless it is empty.
unfoldable pub split_lines : Bytes → List Bytes
split_lines [] = []
split_lines (b ∷ bs) = let rest = split_lines bs in if b == 10 then [] ∷ rest else add_front b rest

-- A loop whose callback stops it by an error.
unfoldable pub each_line : {S : Type 0} → (S → Bytes → Option S) → Option S → List Bytes → Option S
each_line step none ls = none
each_line step (some s) [] = some s
each_line step (some s) (l ∷ ls) = each_line step (step s l) ls

-- A loop whose callback stops it with the state it has.
unfoldable pub each_until : {S : Type 0} → (S → Bytes → S × Bool) → S → List Bytes → S
each_until step s [] = s
each_until step s (l ∷ ls) =
    let (s', more) = step s l in let rest = each_until step s' ls in if more then rest else s'

-- A loop whose callback never stops it.
unfoldable pub each_all : {S : Type 0} → (S → Bytes → S) → S → List Bytes → S
each_all step s [] = s
each_all step s (l ∷ ls) = each_all step (step s l) ls

-- `ParseUint`.
unfoldable pub parse_single : Bytes → Option ℕ
parse_single b = parse_uint (next_field (trim_space b)).0

-- `f, _ := nextField(rest); x, _ = parseUint(f)`: 0 where there is no number.
unfoldable pub number_or_zero : Bytes → ℕ
number_or_zero rest = or_else 0 (parse_uint (next_field rest).0)

-- The loop of `countFields`; a line has at most as many fields as bytes.
unfoldable pub count_loop : ℕ → Bytes → ℕ
count_loop zero line = 0
count_loop (suc fuel) line =
    let (f, rest) = next_field line in
    let more = count_loop fuel rest in if length f == 0 then 0 else suc more

unfoldable pub count_fields : Bytes → ℕ
unfolding count_loop
count_fields line = count_loop (suc (length line)) line

-- A fixed number of columns, each of which has to be a number, and what comes after them.
unfoldable pub columns : ℕ → Bytes → Option (List ℕ × Bytes)
columns zero rest = some ([], rest)
columns (suc n) rest = do
  let (f, after) = next_field rest
  let v = (← parse_uint f)
  let (vs, end) = (← columns n after)
  some (v ∷ vs, end)
