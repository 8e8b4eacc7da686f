-- ===== src/Procfs/Fuel/Tests.antt =====
-- A line of buddyinfo, and one of a pressure file.
use mikroscope.Common.{none, some, codes, ◌≡◌, refl, arith, after_prefix, add_front}
use mikroscope.Procfs.Numbers.{next_field, skip_blanks, word, parse_uint, uint_from}
use mikroscope.Procfs.Lines.{count_loop, count_fields}
use mikroscope.Procfs.Lines.Counting.{fields}
use mikroscope.Procfs.Devices.{buddy_loop}
use mikroscope.Procfs.Single.{total_loop, total_of}
use mikroscope.Procfs.Fuel.{loops-fields}

four : count_fields (codes " CPU0  CPU1 CPU2\tCPU3 ") ≡ 4
unfolding count_fields next_field skip_blanks word
four = refl

a_total : total_of (codes " avg10=0.00 avg60=0.00 total=77") ≡ some 77
unfolding total_of next_field skip_blanks word parse_uint uint_from after_prefix
a_total = refl

loops-fields_example :
    (count_loop 9 (codes " 1 12 x") ≡ 3)
    × (buddy_loop 9 (codes " 1 12 x") ≡ none)
    × (total_loop 9 (codes " 1 12 x") ≡ none)
unfolding fields parse_uint uint_from after_prefix add_front
loops-fields_example = loops-fields 9 (codes " 1 12 x") (omega arith)
