-- ===== src/Procfs/Keys/Printed.antt =====
-- A file of keys and numbers as the kernel prints it, read back.
use mikroscope.Common.{
  ℕ, ◌<◌, List, [], ◌∷◌, ◌++◌, some, true, false, not, Bytes, itoa, ◌≡◌, refl, sym, ap, ◌∙◌, arith,
  append-nil, length, ◌==◌, All, All-append, u64_mod, ◌>>◌, require, some,
}
use mikroscope.Procfs.Numbers.{is_blank, is_digit, next_field}
use mikroscope.Procfs.Numbers.RoundTrip.{
  next_field_word, next_field_blank, itoa-All, itoa-filled, parse_uint-itoa,
}
use mikroscope.Procfs.Lines.{split_lines, each_all}
use mikroscope.Procfs.Lines.Split.{split_lines-newline}
use mikroscope.Procfs.Keys.{key_value, vmstat_line, parse_vmstat}
use mikroscope.Procfs.Keys.Rows.{
  row_of, rows, store_rows, each_all-rows, Distinct, store_rows-Distinct,
}

-- One row to a line: the key, a space and the number.
abbrev pub print : List (Bytes × ℕ) → Bytes
print [] = []
print ((k, n) ∷ rs) = (k ++ 32 ∷ itoa n) ++ 10 ∷ print rs

-- A key has a byte at least, and neither blanks nor newlines; a number is a uint64.
abbrev pub IsRow : Bytes × ℕ → Type 0
IsRow ([], n) = ⊥
IsRow (b ∷ k, n) =
    All (λ c. is_blank c ≡ false) (b ∷ k) × All (λ c. (c == 10) ≡ false) (b ∷ k) × (n < u64_mod)

digits_fit :
    (s : Bytes)
    → All (λ c. is_digit c ≡ true) s
    → All (λ c. is_blank c ≡ false) s × All (λ c. (c == 10) ≡ false) s
digits_fit [] h = (tt, tt)
digits_fit (c ∷ s) h =
    let (blanks, newlines) = digits_fit s h.1 in
    let d = h.0 in ((ground arith, blanks), (ground arith, newlines))

number_field : (s : Bytes) → 0 < length s → All (λ c. is_digit c ≡ true) s → next_field s ≡ (s, [])
number_field [] p h = absurd (omega arith)
number_field (c ∷ s) p h =
    ap next_field (sym (append-nil (c ∷ s))) ∙ next_field_word c s [] (digits_fit (c ∷ s) h).0 tt

key_value_printed : (r : Bytes × ℕ) → IsRow r → key_value (r.0 ++ 32 ∷ itoa r.1) ≡ (r.0, itoa r.1)
unfolding key_value
key_value_printed ([], n) h = absurd h
key_value_printed (b ∷ k, n) (blanks, newlines, small) =
    rw
      (
        next_field_word b k (32 ∷ itoa n) blanks refl,
        next_field_blank 32 (itoa n) refl,
        number_field (itoa n) (itoa-filled n) (itoa-All n),
      )
      refl

row_of_printed : (r : Bytes × ℕ) → IsRow r → row_of (r.0 ++ 32 ∷ itoa r.1) ≡ some r
unfolding row_of
row_of_printed ([], n) h = absurd h
row_of_printed (b ∷ k, n) h =
    let (blanks, newlines, small) = h in
    rw (key_value_printed (b ∷ k, n) h, parse_uint-itoa n small) (ground arith)

no_newline : (r : Bytes × ℕ) → IsRow r → All (λ c. (c == 10) ≡ false) (r.0 ++ 32 ∷ itoa r.1)
no_newline ([], n) h = absurd h
no_newline (b ∷ k, n) (blanks, newlines, small) =
    All-append (λ c. (c == 10) ≡ false) (b ∷ k) (32 ∷ itoa n) newlines
      (refl, (digits_fit (itoa n) (itoa-All n)).1)

rows-print : (rs : List (Bytes × ℕ)) → All IsRow rs → rows (split_lines (print rs)) ≡ rs
unfolding rows split_lines
rows-print [] h = refl
rows-print (r ∷ rs) h =
    ap rows (split_lines-newline (r.0 ++ 32 ∷ itoa r.1) (print rs) (no_newline r h.0))
    ∙ rw (row_of_printed r h.0) (ap (λ s. r ∷ s) (rows-print rs h.1))

kept_rows :
    (r : Bytes × ℕ) (rs : List (Bytes × ℕ))
    → (require (not (length (r ∷ rs) == 0)) >> some (r ∷ rs)) ≡ some (r ∷ rs)
kept_rows r rs = ground arith

-- `ParseVmstat` reads back a file of one row or more that has a line for each key, where the keys
-- are distinct, each has a byte at least and neither blanks nor newlines, and the numbers are
-- uint64 values.
pub parse_vmstat-print :
    (r : Bytes × ℕ) (rs : List (Bytes × ℕ))
    → All IsRow (r ∷ rs)
    → Distinct (r ∷ rs)
    → parse_vmstat (print (r ∷ rs)) ≡ some (r ∷ rs)
unfolding parse_vmstat
parse_vmstat-print r rs h d =
    let read : each_all vmstat_line [] (split_lines (print (r ∷ rs))) ≡ r ∷ rs =
      each_all-rows (split_lines (print (r ∷ rs))) []
      ∙ ap (store_rows []) (rows-print (r ∷ rs) h)
      ∙ store_rows-Distinct (r ∷ rs) d in
    ap (λ out. require (not (length out == 0)) >> some out) read ∙ kept_rows r rs
