-- ===== src/Procfs/Single/Tests.antt =====
-- Files that hold one record.
use mikroscope.Common.{
  [], none, some, Bytes, codes, itoa, digits, after_prefix, trim_left, trim_right, trim_space, ◌≡◌,
  refl, arith, add_front, bytes_eq, true, length,
}
use mikroscope.Procfs.Numbers.{next_field, skip_blanks, word, parse_uint, uint_from}
use mikroscope.Procfs.Lines.{split_lines, each_line, number_or_zero}
use mikroscope.Procfs.Trim.{index_byte}
use mikroscope.Procfs.Single.{
  parse_loadavg, total_of, total_loop, pressure_line, pressure_row, parse_pressure, parse_version,
  last_index_byte, exact_fields, parse_self_stat, parse_kmsg_record, kmsg_level_name,
}
use mikroscope.Procfs.Single.Kmsg.{Trimmed, parse_kmsg_record-print}

a_load :
    parse_loadavg (λ s. some (length s)) (codes "0.5 0.25 1.125 2/123 456\n")
    ≡ some (record { load1 = 3; load5 = 4; load15 = 5; running = 2; total = 123; last_pid = 456 })
unfolding parse_loadavg next_field skip_blanks word parse_uint uint_from index_byte number_or_zero
    trim_space trim_left trim_right
a_load = refl

a_pressure :
    parse_pressure (codes "some avg10=0.00 total=12\nfull avg10=0.00 total=5\n")
    ≡ some (record { some_total = 12; full_total = 5; has_full = true })
unfolding parse_pressure pressure_line pressure_row total_of total_loop next_field skip_blanks word
    parse_uint uint_from split_lines add_front each_line after_prefix bytes_eq
a_pressure = refl

refuses_pressure : parse_pressure (codes "full avg10=0.00 total=5\n") ≡ none
unfolding parse_pressure pressure_line pressure_row total_of total_loop next_field skip_blanks word
    parse_uint uint_from split_lines add_front each_line after_prefix bytes_eq
refuses_pressure = refl

a_version : parse_version (codes "Linux version 5.6.3-64 (build)\n") ≡ codes "5.6.3-64"
unfolding parse_version next_field skip_blanks word after_prefix trim_space trim_left trim_right
a_version = refl

-- A command with a blank and parentheses in its name.
a_process :
    parse_self_stat
      (codes "7 (a (b) c) S 1 2 3 4 5 6 7 8 9 10 100 101 102 103 20 0 4 0 555 888 99 1")
    ≡ some (record {
      pid = 7;
      comm = codes "a (b) c";
      utime = 100;
      stime = 101;
      cutime = 102;
      cstime = 103;
      num_threads = 4;
      start_time = 555;
      rss_pages = 99;
    })
unfolding parse_self_stat index_byte last_index_byte exact_fields next_field skip_blanks word
    parse_uint uint_from
a_process = refl

a_level : kmsg_level_name 4 ≡ codes "warn"
unfolding kmsg_level_name
a_level = refl

parse_kmsg_record-print_example :
    (core : Bytes) × Trimmed (codes " eth1: link down\r") core
    × (parse_kmsg_record (codes "30,12,345,-; eth1: link down\r\n SUBSYSTEM=net\n")
        ≡ some (record {
          priority = 30;
          level = 6;
          facility = 3;
          seq = 12;
          time_usec = 345;
          message = core;
          iface = [];
          ros_iface = [];
          kind = [];
          label = [];
          role = [];
        }))
unfolding itoa digits
parse_kmsg_record-print_example =
    parse_kmsg_record-print 30 12 345 (codes "-") (codes " eth1: link down\r")
      (codes " SUBSYSTEM=net\n") (omega arith) (omega arith) (omega arith) (ground arith)
      (ground arith)
