-- ===== src/Procfs/Cpus.antt =====
-- internal/procfs/stat.go, softnet.go, softirqs.go, interrupts.go and `ParseSchedstat`: the files
-- that have a row or a column for each core.
use mikroscope.Common.{
  ℕ, zero, suc, ◌+◌, ◌-◌, List, [], ◌∷◌, ◌++◌, Option, none, some, Bool, true, false, ◌&&◌, not,
  Bytes, codes, bytes_eq, after_prefix, length, get_or, set, drop, replicate, ltb, ◌==◌,
  if◌then◌else◌, ◌>>=◌, ◌>>◌, require, is_some, u64,
}
use mikroscope.Procfs.Types.{CpuTimes, Stat, Softnet}
use mikroscope.Procfs.Numbers.{next_field, parse_uint, parse_hex}
use mikroscope.Procfs.Lines.{split_lines, each_line, number_or_zero}

-- `CPUTimes.Busy` and `CPUTimes.Total`.
unfoldable pub busy_ticks : CpuTimes → ℕ
busy_ticks c = u64 (c.user + c.nice + c.system + c.irq + c.softirq + c.steal)

unfoldable pub total_ticks : CpuTimes → ℕ
unfolding busy_ticks
total_ticks c = u64 (busy_ticks c + c.idle + c.iowait)

abbrev pub no_times : CpuTimes
no_times = record {
  user = 0;
  nice = 0;
  system = 0;
  idle = 0;
  iowait = 0;
  irq = 0;
  softirq = 0;
  steal = 0;
  guest = 0;
  guest_nice = 0;
}

-- The loop of `parseCPUTimes`: four columns have to be there, and each that is has to be a number.
unfoldable pub cpu_columns : ℕ → ℕ → Bytes → Option (List ℕ)
cpu_columns zero i rest = some []
cpu_columns (suc n) i rest =
    let (f, after) = next_field rest in
    let more = (do
      let v = (← parse_uint f)
      let vs = (← cpu_columns n (i + 1) after)
      some (v ∷ vs)) in
    if length f == 0 then (if ltb i 4 then none else some []) else more

unfoldable pub times_of : List ℕ → CpuTimes
times_of vs = record {
  user = get_or vs 0 0;
  nice = get_or vs 1 0;
  system = get_or vs 2 0;
  idle = get_or vs 3 0;
  iowait = get_or vs 4 0;
  irq = get_or vs 5 0;
  softirq = get_or vs 6 0;
  steal = get_or vs 7 0;
  guest = get_or vs 8 0;
  guest_nice = get_or vs 9 0;
}

unfoldable pub parse_cpu_times : Bytes → Option CpuTimes
unfolding cpu_columns times_of
parse_cpu_times rest = do let vs = (← cpu_columns 10 0 rest); some (times_of vs)

pub record StatRead : Type 0 where
  pub stat : Stat
  pub saw_total : Bool

-- `for uint64(len(s.CPUs)) <= idx { append }`, then the write.
unfoldable pub put_cpu : ℕ → CpuTimes → List CpuTimes → List CpuTimes
put_cpu idx t cpus = set (cpus ++ replicate (idx + 1 - length cpus) no_times) idx t

abbrev total_row : StatRead → Bytes → Option StatRead
total_row r rest = do
  let t = (← parse_cpu_times rest)
  some (record { stat = record r.stat { total = t }; saw_total = true })

abbrev core_row : StatRead → Bytes → Bytes → Option StatRead
core_row r key rest = do
  let idx = (← parse_uint (drop 3 key))
  let t = (← parse_cpu_times rest)
  some (record r { stat = record r.stat { cpus = put_cpu idx t r.stat.cpus } })

-- The rows of `ParseStat` with one number.
unfoldable pub stat_count : Bytes → ℕ → Stat → Stat
stat_count key n s =
    if bytes_eq key (codes "intr")
    then record s { intr = n }
    else if bytes_eq key (codes "ctxt")
    then record s { ctxt = n }
    else if bytes_eq key (codes "btime")
    then record s { btime = n }
    else if bytes_eq key (codes "processes")
    then record s { processes = n }
    else if bytes_eq key (codes "procs_running")
    then record s { procs_running = n }
    else if bytes_eq key (codes "procs_blocked")
    then record s { procs_blocked = n }
    else s

-- The callback of `ParseStat`.
unfoldable pub stat_line : StatRead → Bytes → Option StatRead
unfolding parse_cpu_times put_cpu stat_count
stat_line r line =
    let (key, rest) = next_field line in
    let core = core_row r key rest in
    if bytes_eq key (codes "cpu")
    then total_row r rest
    else if ltb 3 (length key) && is_some (after_prefix (codes "cpu") key)
    then core
    else some (record r { stat = stat_count key (number_or_zero rest) r.stat })

abbrev pub no_stat : StatRead
no_stat = record {
  stat = record {
    total = no_times;
    cpus = [];
    intr = 0;
    ctxt = 0;
    btime = 0;
    processes = 0;
    procs_running = 0;
    procs_blocked = 0;
  };
  saw_total = false;
}

unfoldable pub parse_stat : Bytes → Option Stat
unfolding stat_line
parse_stat b = do
  let r = (← each_line stat_line (some no_stat) (split_lines b))
  require (r.saw_total && not (length r.stat.cpus == 0))
  some r.stat

-- The columns of a row of softnet_stat: eleven at most, up to the end of the line.
unfoldable pub hex_columns : ℕ → Bytes → Option (List ℕ)
hex_columns zero rest = some []
hex_columns (suc n) rest =
    let (f, after) = next_field rest in
    let more = (do let v = (← parse_hex f); let vs = (← hex_columns n after); some (v ∷ vs)) in
    if length f == 0 then some [] else more

unfoldable pub softnet_of : List ℕ → Softnet
softnet_of cols = record {
  processed = get_or cols 0 0;
  dropped = get_or cols 1 0;
  time_squeeze = get_or cols 2 0;
  cpu_collision = get_or cols 8 0;
  received_rps = get_or cols 9 0;
  flow_limit_count = get_or cols 10 0;
}

abbrev softnet_row : List Softnet → Bytes → Option (List Softnet)
softnet_row rows line = do
  let cols = (← hex_columns 11 line)
  require (not (ltb (length cols) 3))
  some (rows ++ softnet_of cols ∷ [])

unfoldable pub softnet_line : List Softnet → Bytes → Option (List Softnet)
unfolding hex_columns softnet_of
softnet_line rows line =
    let row = softnet_row rows line in if length line == 0 then some rows else row

unfoldable pub parse_softnet : Bytes → Option (List Softnet)
unfolding softnet_line
parse_softnet b = do
  let rows = (← each_line softnet_line (some []) (split_lines b))
  require (not (length rows == 0))
  some rows
