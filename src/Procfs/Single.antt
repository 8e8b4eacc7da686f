-- ===== src/Procfs/Single.antt =====
-- internal/procfs/loadavg.go, pressure.go, self.go and `ParseKmsgRecord` of kmsg.go: files that hold
-- one record. `strconv.ParseFloat` is a parameter.
pub mod Kmsg
mod Tests
use mikroscope.Common.{
  ℕ, zero, suc, ◌+◌, ◌-◌, ◌/◌, ◌%◌, List, [], ◌∷◌, Option, none, some, Bool, true, false, ◌||◌, not,
  Bytes, codes, bytes_eq, after_prefix, trim_space, length, get_or, take, drop, ltb, ◌==◌,
  if◌then◌else◌, ◌>>=◌, ◌>>◌, require, or_else,
}
use mikroscope.Procfs.Types.{Loadavg, Uptime, Pressure, SelfStat, KmsgRecord}
use mikroscope.Procfs.Numbers.{next_field, parse_uint}
use mikroscope.Procfs.Lines.{split_lines, each_line, number_or_zero}
use mikroscope.Procfs.Trim.{index_byte, up_to, trim_quotes, next_csv}

module _ {F : Type 0} (parse_float : Bytes → Option F) where
  unfoldable pub parse_loadavg : Bytes → Option (Loadavg F)
  parse_loadavg b = do
    let (f1, r1) = next_field (trim_space b)
    let load1 = (← parse_float f1)
    let (f2, r2) = next_field r1
    let load5 = (← parse_float f2)
    let (f3, r3) = next_field r2
    let load15 = (← parse_float f3)
    let (f4, r4) = next_field r3
    let slash = (← index_byte 47 f4)
    let running = (← parse_uint (take slash f4))
    let total = (← parse_uint (drop (suc slash) f4))
    some (record {
      load1 = load1;
      load5 = load5;
      load15 = load15;
      running = running;
      total = total;
      last_pid = number_or_zero r4;
    })

  unfoldable pub parse_uptime : Bytes → Option (Uptime F)
  parse_uptime b = do
    let (f1, rest) = next_field (trim_space b)
    let (f2, after) = next_field rest
    let up = (← parse_float f1)
    let idle = (← parse_float f2)
    some (record { up = up; idle = idle })

-- The loop of `totalOf`.
unfoldable pub total_loop : ℕ → Bytes → Option ℕ
total_loop zero rest = none
total_loop (suc fuel) rest =
    let (f, after) = next_field rest in
    let more = total_loop fuel after in
    if length f == 0
    then none
    else elim (after_prefix (codes "total=") f) [ none ↦ more | some v ↦ parse_uint v ]

unfoldable pub total_of : Bytes → Option ℕ
unfolding total_loop
total_of rest = total_loop (suc (length rest)) rest

pub record PressureRead : Type 0 where
  pub pressure : Pressure
  pub seen_some : Bool

unfoldable pub pressure_row : Bytes → ℕ → PressureRead → PressureRead
pressure_row kind total r =
    if bytes_eq kind (codes "some")
    then record { pressure = record r.pressure { some_total = total }; seen_some = true }
    else if bytes_eq kind (codes "full")
    then record r { pressure = record r.pressure { full_total = total; has_full = true } }
    else r

unfoldable pub pressure_line : PressureRead → Bytes → Option PressureRead
unfolding total_of pressure_row
pressure_line r line =
    let (kind, rest) = next_field line in
    let row = (do let total = (← total_of rest); some (pressure_row kind total r)) in
    if length kind == 0 then some r else row

abbrev no_pressure : PressureRead
no_pressure = record {
  pressure = record { some_total = 0; full_total = 0; has_full = false };
  seen_some = false;
}

unfoldable pub parse_pressure : Bytes → Option Pressure
unfolding pressure_line
parse_pressure b = do
  let r = (← each_line pressure_line (some no_pressure) (split_lines b))
  require r.seen_some
  some r.pressure

unfoldable pub parse_version : Bytes → Bytes
parse_version b = elim (after_prefix (codes "Linux version ") (trim_space b)) [
  | none ↦ []
  | some rest ↦ (next_field rest).0
]

-- `bytes.LastIndexByte`: `none` is -1.
unfoldable pub last_index_byte : ℕ → Bytes → Option ℕ
last_index_byte c [] = none
last_index_byte c (b ∷ bs) = elim (last_index_byte c bs) [
  | some i ↦ some (suc i)
  | none ↦ (if b == c then some 0 else none)
]

-- The loop of `ParseSelfStat`: so many fields, none of them empty.
unfoldable pub exact_fields : ℕ → Bytes → Option (List Bytes)
exact_fields zero rest = some []
exact_fields (suc n) rest = do
  let (f, after) = next_field rest
  require (not (length f == 0))
  let fs = (← exact_fields n after)
  some (f ∷ fs)

unfoldable pub parse_self_stat : Bytes → Option SelfStat
unfolding last_index_byte exact_fields
parse_self_stat b = do
  let open_at = (← index_byte 40 b)
  let close_at = (← last_index_byte 41 b)
  require (not (ltb close_at open_at))
  let pid = (← parse_uint (next_field (take open_at b)).0)
  let fields = (← exact_fields 22 (drop (suc close_at) b))
  let number : ℕ → Option ℕ = λ n. parse_uint (get_or fields (n - 3) [])
  let utime = (← number 14)
  let stime = (← number 15)
  let cutime = (← number 16)
  let cstime = (← number 17)
  let num_threads = (← number 20)
  let start_time = (← number 22)
  let rss_pages = (← number 24)
  some (record {
    pid = pid;
    comm = take (close_at - suc open_at) (drop (suc open_at) b);
    utime = utime;
    stime = stime;
    cutime = cutime;
    cstime = cstime;
    num_threads = num_threads;
    start_time = start_time;
    rss_pages = rss_pages;
  })

-- The message ends at the first newline; the fields that `AnnotateKmsg` sets are empty.
unfoldable pub parse_kmsg_record : Bytes → Option KmsgRecord
parse_kmsg_record b = do
  let sep = (← index_byte 59 b)
  let (f1, r1) = next_csv (take sep b)
  let priority = (← parse_uint f1)
  let (f2, r2) = next_csv r1
  let seq = (← parse_uint f2)
  let (f3, r3) = next_csv r2
  let time_usec = (← parse_uint f3)
  some (record {
    priority = priority;
    level = priority % 8;
    facility = priority / 8 % 32;
    seq = seq;
    time_usec = time_usec;
    message = trim_quotes (up_to 10 (drop (suc sep) b));
    iface = [];
    ros_iface = [];
    kind = [];
    label = [];
    role = [];
  })

unfoldable pub kmsg_level_name : ℕ → Bytes
kmsg_level_name level =
    get_or
      (codes "emerg"
        ∷ codes "alert"
        ∷ codes "crit"
        ∷ codes "err"
        ∷ codes "warn"
        ∷ codes "notice"
        ∷ codes "info"
        ∷ codes "debug"
        ∷ [])
      level (codes "unknown")
