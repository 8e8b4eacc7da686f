-- ===== src/Agent/Source/Tests.antt =====
-- Reads of a source with two cores' frequencies and a zone.
use mikroscope.Common.{
  ℕ, List, [], ◌∷◌, Option, none, some, false, Bytes, codes, pos, map, add_front, bytes_eq,
  after_prefix, ◌≡◌, refl, ◌≢◌, All, length, ◌+◌, ◌<◌, arith,
}
use mikroscope.Sample.Floats.{micro}
use mikroscope.Procfs.Numbers.{next_field, parse_uint}
use mikroscope.Procfs.Lines.{each_line, split_lines}
use mikroscope.Procfs.Cpus.{parse_stat}
use mikroscope.Procfs.Trim.{parse_cpu_freq_khz}
use mikroscope.Sample.Types.{Raw}
use mikroscope.Sample.Fixtures.{quiet_at}
use mikroscope.Agent.Source.Types.{ProcFile, Files, Source}
use mikroscope.Agent.Source.Filter.{read_freq}
use mikroscope.Agent.Source.{re_arm, set_floor_override, read}
use mikroscope.Agent.Source.Heartbeat.{age, Young, raws-heartbeat}
use mikroscope.Agent.Source.Held.{held, free_lists, raws, readings, raws-held}

abbrev no_float : Bytes → Option ℕ
no_float b = none

abbrev line : Bytes → ProcFile
line b = some (some b)

-- The frequencies of a tick, and whether /proc/stat can be read.
abbrev found : ProcFile → List ProcFile → Files
found stat freq = record {
  mono_ns = pos 1;
  wall_ns = pos 1;
  stat = stat;
  meminfo = none;
  loadavg = none;
  softnet = none;
  softirqs = none;
  interrupts = none;
  vmstat = none;
  self_stat = none;
  cgroup_cpu = none;
  cg_mem = some none;
  cg_events = none;
  buddyinfo = line (codes "Node 0, zone DMA 4 7\n");
  psi_cpu = none;
  psi_mem = none;
  psi_io = none;
  schedstat = none;
  yaffs = none;
  diskstats = none;
  slabinfo = none;
  thermal = [];
  freq = freq;
  kmsg = none;
  perf = none;
  mtd = [];
}

abbrev good : ProcFile
good = line (codes "cpu 1 2 3 4 5 6 7 8 9 10\ncpu0 1 2 3 4 5 6 7 8 9 10\n")

abbrev source : Source
source = record {
  cgroup_memory_max_bytes = 1024;
  thermal_polling_ms = (codes "cpu-thermal", pos 1000) ∷ [];
  thermal_critical_milli_c = [];
  cpu_freq_max_khz = (0, 1400) ∷ [];
  conntrack_max = 0;
  board = [];
  has_mtd = false;
  page_size = 4096;
  slabs = none;
  tick = 0;
  thermal_every = 1;
  slab_every = 2;
  mtd_every = 100;
  heartbeat = 600;
  emit_all = false;
  last_freq_emit = 7 ∷ [];
  last_freq_tick = 0;
  last_slab_emit = [];
  last_slab_tick = 0;
  last_buddy = [];
  last_buddy_tick = 0;
  last_mtd = [];
  last_mtd_tick = 0;
}

abbrev at_freq : List ProcFile → Raw ℕ × Files
at_freq freq = (quiet_at 0, found good freq)

-- The frequency of the first core moves once, the read of one tick fails, and another has no file.
abbrev ticks : List (Raw ℕ × Files)
ticks =
    at_freq (line (codes "700\n") ∷ line (codes "350\n") ∷ [])
    ∷ at_freq (line (codes "700\n") ∷ line (codes "350\n") ∷ [])
    ∷ (quiet_at 0, found (some none) [])
    ∷ at_freq (line (codes "1400\n") ∷ line (codes "350\n") ∷ [])
    ∷ at_freq (some none ∷ [])
    ∷ []

sent_frequencies :
    map (λ r. r.freq_khz) (raws micro no_float (re_arm source) ticks)
    ≡ (700 ∷ 350 ∷ []) ∷ [] ∷ (1400 ∷ 350 ∷ []) ∷ [] ∷ []
unfolding read parse_stat each_line split_lines add_front bytes_eq next_field parse_uint
    after_prefix re_arm read_freq parse_cpu_freq_khz
sent_frequencies = refl

every_reading :
    map (λ r. r.freq_khz) (raws micro no_float (set_floor_override 10 10 source) ticks)
    ≡ (700 ∷ 350 ∷ []) ∷ (700 ∷ 350 ∷ []) ∷ (1400 ∷ 350 ∷ []) ∷ [] ∷ []
unfolding read parse_stat each_line split_lines add_front bytes_eq next_field parse_uint
    after_prefix set_floor_override read_freq parse_cpu_freq_khz
every_reading = refl

ceiling : map (λ r. r.cgroup_mem_max) (raws micro no_float source ticks) ≡ 1024 ∷ 0 ∷ 0 ∷ 0 ∷ []
unfolding read parse_stat each_line split_lines add_front bytes_eq next_field parse_uint
    after_prefix
ceiling = refl

raws-held_example :
    (held [] (map (λ r. r.freq_khz) (raws micro no_float (re_arm source) ticks))
      ≡ held [] (readings micro no_float (λ f. read_freq f.freq) ticks))
    × (held [] (map (λ r. r.buddy) (raws micro no_float (re_arm source) ticks))
        ≡ held [] (readings micro no_float free_lists ticks))
raws-held_example = raws-held micro no_float source ticks

-- A source that sent the frequencies at its last tick, and two ticks in which they are the same.
abbrev steady : Source
steady = record source { tick = 5; last_freq_tick = 5; last_freq_emit = 700 ∷ 350 ∷ [] }

abbrev steady_ticks : List (Raw ℕ × Files)
steady_ticks =
    at_freq (line (codes "700\n") ∷ line (codes "350\n") ∷ [])
    ∷ at_freq (line (codes "700\n") ∷ line (codes "350\n") ∷ [])
    ∷ []

steady-Young : Young steady
steady-Young = (omega arith, omega arith, omega arith, omega arith)

steady_readings : All (λ m. m ≢ []) (readings micro no_float (λ f. read_freq f.freq) steady_ticks)
unfolding read parse_stat each_line split_lines add_front bytes_eq next_field parse_uint
    after_prefix read_freq parse_cpu_freq_khz
steady_readings = (λ h. cc, (λ h. cc, tt))

steady_silent : All (λ r. r.freq_khz ≡ []) (raws micro no_float steady steady_ticks)
unfolding read parse_stat each_line split_lines add_front bytes_eq next_field parse_uint
    after_prefix read_freq parse_cpu_freq_khz
steady_silent = (refl, (refl, tt))

raws-heartbeat_example :
    length (raws micro no_float steady steady_ticks) + age steady < steady.heartbeat
raws-heartbeat_example =
    raws-heartbeat micro no_float steady_ticks steady steady-Young steady_readings steady_silent
