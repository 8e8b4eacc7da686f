-- ===== src/Agent/Source/Types.antt =====
-- internal/agent/source.go: the state of `ProcSource`, and the files that it reads.
use mikroscope.Common.{ℕ, List, Option, none, some, Bool, Bytes, ℤ, sub64, leb, ◌||◌, not}
use mikroscope.Procfs.Types.{Slab, BuddyZone, MtdHealth, KmsgRecord, PerfReading}

-- A `*procFile` at a tick: `none` is one that is not open, `some none` one whose read fails.
abbrev pub ProcFile : Type 0
ProcFile = Option (Option Bytes)

-- The file's bytes, or `none` where the source has nil.
unfoldable pub content : ProcFile → Option Bytes
content none = none
content (some b) = b

-- What a tick finds: the two clocks, each file, and what the readers outside /proc give: the kernel
-- log drained since the last tick with its count of lost records, the hardware counters, and the
-- flash partitions under the system's root.
pub record Files : Type 0 where
  pub mono_ns : ℤ
  pub wall_ns : ℤ
  pub stat : ProcFile
  pub meminfo : ProcFile
  pub loadavg : ProcFile
  pub softnet : ProcFile
  pub softirqs : ProcFile
  pub interrupts : ProcFile
  pub vmstat : ProcFile
  pub self_stat : ProcFile
  pub cgroup_cpu : ProcFile
  pub cg_mem : ProcFile
  pub cg_events : ProcFile
  pub buddyinfo : ProcFile
  pub psi_cpu : ProcFile
  pub psi_mem : ProcFile
  pub psi_io : ProcFile
  pub schedstat : ProcFile
  pub yaffs : ProcFile
  pub diskstats : ProcFile
  pub slabinfo : ProcFile
  pub thermal : List (Bytes × ProcFile)
  pub freq : List ProcFile
  pub kmsg : Option (List KmsgRecord × ℕ)
  pub perf : Option (List PerfReading)
  pub mtd : List MtdHealth

-- `ProcSource` without its files. `has_mtd` says that `mtdRoot` is not empty; `slabs` is `none` where
-- the map is nil. Of `limits`, the fields that a read uses.
pub record Source : Type 0 where
  pub cgroup_memory_max_bytes : ℕ
  pub thermal_polling_ms : List (Bytes × ℤ)
  pub thermal_critical_milli_c : List (Bytes × ℤ)
  pub cpu_freq_max_khz : List (ℕ × ℕ)
  pub conntrack_max : ℕ
  pub board : Bytes
  pub has_mtd : Bool
  pub page_size : ℕ
  pub slabs : Option (List (Bytes × Slab))
  pub tick : ℕ
  pub thermal_every : ℕ
  pub slab_every : ℕ
  pub mtd_every : ℕ
  pub heartbeat : ℕ
  pub emit_all : Bool
  pub last_freq_emit : List ℕ
  pub last_freq_tick : ℕ
  pub last_slab_emit : List (Bytes × ℕ)
  pub last_slab_tick : ℕ
  pub last_buddy : List BuddyZone
  pub last_buddy_tick : ℕ
  pub last_mtd : List MtdHealth
  pub last_mtd_tick : ℕ

-- The filter of an emit-on-change source: whether the reading is like the last one sent, and the
-- tick when that was.
unfoldable pub emits : Source → Bool → ℕ → Bool
emits s same last_tick = s.emit_all || not same || leb s.heartbeat (sub64 s.tick last_tick)
