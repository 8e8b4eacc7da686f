-- ===== src/Procfs/Numbers/Tests.antt =====
-- Numbers and fields of a kernel file.
use mikroscope.Common.{
  ◌++◌, some, none, itoa, digits, arith, true, false, not, ◌&&◌, Bytes, codes, All, [], ◌≡◌, ◌≢◌,
  ◌⊎◌, refl, u64, length, leb, ◌==◌, if◌then◌else◌,
}
use mikroscope.Procfs.Numbers.{
  is_blank, skip_blanks, word, next_field, uint_from, parse_uint, parse_hex, hex_from, hex_digit,
}
use mikroscope.Procfs.Numbers.Fields.{AtBlank, next_field_lem}
use mikroscope.Procfs.Numbers.RoundTrip.{parse_uint-itoa}
use mikroscope.Procfs.Numbers.Decimal.{value, all_digits, parse_uint-value}

largest : parse_uint (codes "18446744073709551615") ≡ some 18446744073709551615
unfolding parse_uint uint_from
largest = refl

-- One more has 20 digits too, and wraps.
wraps : parse_uint (codes "18446744073709551616") ≡ some 0
unfolding parse_uint uint_from
wraps = refl

a_hex : parse_hex (codes "00fF") ≡ some 255
unfolding parse_hex hex_from hex_digit
a_hex = refl

a_field : next_field (codes "  cpu0 12") ≡ (codes "cpu0", codes " 12")
unfolding next_field skip_blanks word
a_field = refl

parse_uint-value_example :
    let bs = codes "18446744073709551616" in
    parse_uint bs ≡ (
      if not (length bs == 0) && (leb (length bs) 20 && all_digits bs)
      then some (u64 (value bs))
      else none)
parse_uint-value_example = parse_uint-value (codes "18446744073709551616")

next_field_lem_example :
    let bs = codes "  cpu0 12" in
    let (field, rest) = next_field bs in
    (blanks : Bytes) × (bs ≡ blanks ++ (field ++ rest))
    × All (λ b. is_blank b ≡ true) blanks
    × All (λ b. is_blank b ≡ false) field
    × ((field ≢ []) ⊎ (rest ≡ []))
    × AtBlank rest
next_field_lem_example = next_field_lem (codes "  cpu0 12")

parse_uint-itoa_example : parse_uint (codes "18446744073709551615") ≡ some 18446744073709551615
unfolding itoa digits
parse_uint-itoa_example = parse_uint-itoa 18446744073709551615 (omega arith)
