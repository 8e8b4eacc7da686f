-- ===== src/Procfs/Keys/Tests.antt =====
-- A file of keys, read whole and for the keys that a caller wants.
use mikroscope.Common.{
  ℕ, List, [], ◌∷◌, none, some, Bytes, codes, add_front, itoa, digits, lookup, insert, bytes_eq,
  ◌≡◌, refl, arith,
}
use mikroscope.Procfs.Numbers.{next_field, skip_blanks, word, parse_uint, uint_from}
use mikroscope.Procfs.Lines.{split_lines, each_all, each_until, columns}
use mikroscope.Procfs.Keys.{
  key_value, vmstat_line, parse_vmstat, parse_vmstat_into, store_wanted, parse_slabinfo_into,
  slabinfo_line,
}
use mikroscope.Procfs.Keys.Rows.{rows, row_of, Distinct}
use mikroscope.Procfs.Keys.Printed.{parse_vmstat-print}
use mikroscope.Procfs.Keys.Refresh.{parse_vmstat_into-refresh}

abbrev file : Bytes
file = codes "pgfault 12\nodd x\npgmajfault 3\noom_kill 0\n"

abbrev file_read : List (Bytes × ℕ)
file_read = (codes "pgfault", 12) ∷ (codes "pgmajfault", 3) ∷ (codes "oom_kill", 0) ∷ []

abbrev wanted_keys : List (Bytes × ℕ)
wanted_keys = (codes "pgmajfault", 1) ∷ (codes "absent", 7) ∷ []

whole : parse_vmstat file ≡ some file_read
unfolding parse_vmstat vmstat_line key_value next_field skip_blanks word parse_uint uint_from
    split_lines add_front each_all insert bytes_eq
whole = refl

empty : parse_vmstat (codes "\n\n") ≡ none
unfolding parse_vmstat vmstat_line key_value next_field skip_blanks word parse_uint uint_from
    split_lines add_front each_all insert bytes_eq
empty = refl

slabs :
    parse_slabinfo_into
      (codes "slabinfo - version: 2.1\n# name\nTCP 12 13 14 1 2\n")
      ((codes "TCP", record { name = []; active_objs = 0; num_objs = 0; obj_size = 0 }) ∷ [])
    ≡ some (
        (codes "TCP", record { name = codes "TCP"; active_objs = 12; num_objs = 13; obj_size = 14 })
        ∷ [])
unfolding parse_slabinfo_into slabinfo_line store_wanted next_field skip_blanks word parse_uint
    uint_from split_lines add_front each_until insert bytes_eq lookup columns
slabs = refl

parse_vmstat-print_example :
    parse_vmstat (codes "pgfault 12\npgmajfault 3\noom_kill 0\n") ≡ some file_read
unfolding itoa digits lookup bytes_eq
parse_vmstat-print_example =
    parse_vmstat-print (codes "pgfault", 12) ((codes "pgmajfault", 3) ∷ (codes "oom_kill", 0) ∷ [])
      (ground arith) (refl, (refl, (refl, tt)))

read_rows : rows (split_lines file) ≡ file_read
unfolding rows row_of key_value next_field skip_blanks word parse_uint uint_from split_lines
    add_front
read_rows = refl

distinct : Distinct (rows (split_lines file))
unfolding lookup bytes_eq
distinct = rw read_rows (refl, (refl, (refl, tt)))

parse_vmstat_into-refresh_example :
    parse_vmstat_into file wanted_keys ≡ some ((codes "pgmajfault", 3) ∷ (codes "absent", 7) ∷ [])
unfolding lookup bytes_eq
parse_vmstat_into-refresh_example =
    parse_vmstat_into-refresh file wanted_keys file_read distinct (refl, (refl, tt)) whole
