-- ===== src/Procfs/Columns.antt =====
-- internal/procfs/softirqs.go, interrupts.go and `ParseSchedstat`: tables whose header or format
-- says how many columns a row has.
use mikroscope.Common.{
  ℕ, zero, suc, ◌-◌, List, [], ◌∷◌, ◌++◌, Option, none, some, ◌&&◌, ◌||◌, not, Bytes, codes,
  after_prefix, trim_space, insert, length, get_or, take, ltb, ◌==◌, if◌then◌else◌, ◌>>=◌, ◌>>◌,
  require, is_some,
}
use mikroscope.Procfs.Types.{Softirqs, Irq, Schedstat}
use mikroscope.Procfs.Numbers.{next_field, parse_uint}
use mikroscope.Procfs.Lines.{split_lines, each_line, count_fields, columns}

-- `id[len(id)-1]` of a string that is not empty.
abbrev pub last_byte : Bytes → ℕ
last_byte s = get_or s (length s - 1) 0

-- `bytes.TrimSuffix` of one byte.
unfoldable pub trim_suffix : ℕ → Bytes → Bytes
trim_suffix b s = if not (length s == 0) && last_byte s == b then take (length s - 1) s else s

-- What `ParseSoftirqs` keeps: `none` before the header.
abbrev softirq_header : Bytes → Option (Option Softirqs)
softirq_header line = do
  let n = count_fields line
  require (not (n == 0))
  some (some (record { cpus = n; names = []; counts = [] }))

abbrev softirq_row : Softirqs → Bytes → Option (Option Softirqs)
softirq_row s line = do
  let (field, rest) = next_field line
  let name = trim_suffix 58 field
  let (counts, after) = (← columns s.cpus rest)
  some (some (record s { names = s.names ++ name ∷ []; counts = insert name counts s.counts }))

unfoldable pub softirq_line : Option Softirqs → Bytes → Option (Option Softirqs)
unfolding trim_suffix
softirq_line none line = softirq_header line
softirq_line (some s) line =
    let row = softirq_row s line in if length (trim_space line) == 0 then some (some s) else row

-- Without a header there are no rows.
unfoldable pub parse_softirqs : Bytes → Option Softirqs
unfolding softirq_line
parse_softirqs b = do
  let s = (← (← each_line softirq_line (some none) (split_lines b)))
  require (not (length s.names == 0))
  some s

-- The loop over the counts of a row of interrupts: it stops where the description starts.
unfoldable pub leading_counts : ℕ → Bytes → List ℕ × Bytes
leading_counts zero rest = ([], rest)
leading_counts (suc n) rest =
    let (f, after) = next_field rest in
    let more = leading_counts n after in
    elim (parse_uint f) [ none ↦ ([], rest) | some v ↦ (v ∷ more.0, more.1) ]

-- The number of cores once the header is read, and the rows.
pub record IrqRead : Type 0 where
  pub cores : Option ℕ
  pub rows : List Irq

abbrev irq_header : IrqRead → Bytes → Option IrqRead
irq_header r line = do
  let n = count_fields line
  require (not (n == 0))
  some (record r { cores = some n })

abbrev irq_counts : ℕ → IrqRead → Bytes → Option IrqRead
irq_counts n r line = do
  let (id, rest) = next_field line
  require (not (ltb (length id) 2 || not (last_byte id == 58)))
  let (counts, after) = leading_counts n rest
  require (not (length counts == 0))
  let irq : Irq = record {
    id = take (length id - 1) id;
    per_cpu = counts;
    description = trim_space after;
  }
  some (record r { rows = r.rows ++ irq ∷ [] })

abbrev irq_line : Option ℕ → IrqRead → Bytes → Option IrqRead
irq_line none r line = irq_header r line
irq_line (some n) r line =
    let row = irq_counts n r line in if length (trim_space line) == 0 then some r else row

unfoldable pub interrupt_line : IrqRead → Bytes → Option IrqRead
unfolding leading_counts
interrupt_line r line = irq_line r.cores r line

unfoldable pub parse_interrupts : Bytes → Option (List Irq)
unfolding interrupt_line
parse_interrupts b = do
  let r = (← each_line interrupt_line (some (record { cores = none; rows = [] })) (split_lines b))
  require (not (length r.rows == 0))
  some r.rows

abbrev sched_row : List Schedstat → Bytes → Option (List Schedstat)
sched_row out rest = do
  let (cols, after) = (← columns 9 rest)
  some (
      out
      ++ record {
        run_ns = get_or cols 6 0;
        wait_ns = get_or cols 7 0;
        timeslices = get_or cols 8 0;
      }
        ∷ [])

unfoldable pub schedstat_line : List Schedstat → Bytes → Option (List Schedstat)
schedstat_line out line =
    let (key, rest) = next_field line in
    let row = sched_row out rest in
    if is_some (after_prefix (codes "cpu") key) then row else some out

unfoldable pub parse_schedstat : Bytes → Option (List Schedstat)
unfolding schedstat_line
parse_schedstat b = do
  let out = (← each_line schedstat_line (some []) (split_lines b))
  require (not (length out == 0))
  some out
