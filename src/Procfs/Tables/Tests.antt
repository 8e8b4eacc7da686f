-- ===== src/Procfs/Tables/Tests.antt =====
-- Tables read.
use mikroscope.Common.{
  ℕ, List, [], ◌∷◌, Option, none, some, Bytes, codes, after_prefix, trim_left, trim_right,
  trim_space, ◌≡◌, refl, add_front, map, insert, bytes_eq,
}
use mikroscope.Procfs.Types.{Stat, Yaffs}
use mikroscope.Procfs.Numbers.{
  next_field, skip_blanks, word, parse_uint, uint_from, parse_hex, hex_from, hex_digit,
}
use mikroscope.Procfs.Lines.{
  split_lines, each_line, each_all, columns, count_fields, count_loop, number_or_zero,
}
use mikroscope.Procfs.Cpus.{
  hex_columns, parse_softnet, parse_stat, stat_line, parse_cpu_times, cpu_columns, times_of,
  put_cpu, stat_count,
}
use mikroscope.Procfs.Columns.{
  parse_schedstat, trim_suffix, leading_counts, interrupt_line, parse_interrupts, softirq_line,
  parse_softirqs,
}
use mikroscope.Procfs.Devices.{
  parse_buddyinfo, parse_buddy_line, row_fields, parse_diskstats, yaffs_field, write_last,
  yaffs_write, yaffs_line, parse_yaffs,
}
use mikroscope.Procfs.Trim.{index_byte, up_to, trim_quotes, trim_front, trim_back}
use mikroscope.Procfs.Tables.{tables_lem}

abbrev users : Option Stat → List ℕ
users none = []
users (some s) = map (λ c. c.user) s.cpus

abbrev erased : Option (List Yaffs) → List ℕ
erased none = []
erased (some ys) = map (λ y. y.erasures) ys

two_cores : users (parse_stat (codes "cpu 5 0 0 9\ncpu1 4 0 0 5\nctxt 7\n")) ≡ 0 ∷ 4 ∷ []
unfolding parse_stat stat_line parse_cpu_times cpu_columns times_of put_cpu stat_count next_field
    skip_blanks word parse_uint uint_from split_lines add_front each_line after_prefix bytes_eq
    number_or_zero
two_cores = refl

irqs :
    parse_interrupts (codes " CPU0 CPU1\n 10: 1 2 GIC timer\nErr: 3\n")
    ≡ some (
        record { id = codes "10"; per_cpu = 1 ∷ 2 ∷ []; description = codes "GIC timer" }
        ∷ record { id = codes "Err"; per_cpu = 3 ∷ []; description = [] }
        ∷ [])
unfolding parse_interrupts interrupt_line leading_counts count_fields count_loop next_field
    skip_blanks word parse_uint uint_from split_lines add_front each_line trim_space trim_left
    trim_right
irqs = refl

softirqs :
    parse_softirqs (codes " CPU0 CPU1\nHI: 1 2\n\nNET_RX: 3 4\n")
    ≡ some (record {
      cpus = 2;
      names = codes "HI" ∷ codes "NET_RX" ∷ [];
      counts = (codes "HI", 1 ∷ 2 ∷ []) ∷ (codes "NET_RX", 3 ∷ 4 ∷ []) ∷ [];
    })
unfolding parse_softirqs softirq_line columns trim_suffix count_fields count_loop next_field
    skip_blanks word parse_uint uint_from split_lines add_front each_line trim_space trim_left
    trim_right insert bytes_eq
softirqs = refl

erasures :
    erased (parse_yaffs (codes "n_erasures 1\nDevice 0 \"a\"\nn_erasures.. 4\nDevice 1\n"))
    ≡ 4 ∷ 0 ∷ []
unfolding parse_yaffs yaffs_line yaffs_field yaffs_write write_last each_all up_to index_byte
    trim_quotes trim_front trim_back next_field skip_blanks word parse_uint uint_from split_lines
    add_front bytes_eq
erasures = refl

abbrev text : Bytes
text = codes "cpu0 0 0 0 0 0 0 1 2 3\n"

tables_lem_example :
    (parse_softnet text ≡ none)
    × (parse_schedstat text ≡ some (record { run_ns = 1; wait_ns = 2; timeslices = 3 } ∷ []))
    × (parse_buddyinfo text ≡ none)
    × (parse_diskstats text ≡ none)
unfolding hex_columns parse_hex hex_from hex_digit columns row_fields parse_buddy_line next_field
    skip_blanks word parse_uint uint_from split_lines add_front trim_space trim_left trim_right
    after_prefix bytes_eq
tables_lem_example = tables_lem text
