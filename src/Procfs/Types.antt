-- ===== src/Procfs/Types.antt =====
-- The structs of internal/procfs: what one read of a kernel file holds. Counters are uint64
-- values, a Go map is an association list, and `F` stands for float64.
use mikroscope.Common.{ℕ, List, Bool, Bytes, ℤ, u64, sum_by}

pub record CpuTimes : Type 0 where
  pub user : ℕ
  pub nice : ℕ
  pub system : ℕ
  pub idle : ℕ
  pub iowait : ℕ
  pub irq : ℕ
  pub softirq : ℕ
  pub steal : ℕ
  pub guest : ℕ
  pub guest_nice : ℕ

pub record Stat : Type 0 where
  pub total : CpuTimes
  pub cpus : List CpuTimes
  pub intr : ℕ
  pub ctxt : ℕ
  pub btime : ℕ
  pub processes : ℕ
  pub procs_running : ℕ
  pub procs_blocked : ℕ

pub record Meminfo : Type 0 where
  pub mem_total : ℕ
  pub mem_free : ℕ
  pub mem_available : ℕ
  pub buffers : ℕ
  pub cached : ℕ
  pub dirty : ℕ
  pub shmem : ℕ
  pub slab : ℕ
  pub s_reclaimable : ℕ
  pub committed_as : ℕ
  pub writeback : ℕ
  pub s_unreclaim : ℕ
  pub anon_pages : ℕ
  pub mapped : ℕ
  pub kernel_stack : ℕ
  pub page_tables : ℕ
  pub commit_limit : ℕ
  pub active : ℕ
  pub inactive : ℕ

pub record Loadavg (F : Type 0) : Type 0 where
  pub load1 : F
  pub load5 : F
  pub load15 : F
  pub running : ℕ
  pub total : ℕ
  pub last_pid : ℕ

pub record Softnet : Type 0 where
  pub processed : ℕ
  pub dropped : ℕ
  pub time_squeeze : ℕ
  pub cpu_collision : ℕ
  pub received_rps : ℕ
  pub flow_limit_count : ℕ

pub record Softirqs : Type 0 where
  pub cpus : ℕ
  pub names : List Bytes
  pub counts : List (Bytes × List ℕ)

pub record Irq : Type 0 where
  pub id : Bytes
  pub per_cpu : List ℕ
  pub description : Bytes

-- `IRQ.Total` adds the columns in uint64.
pub irq_total : Irq → ℕ
irq_total i = u64 (sum_by (λ v. v) i.per_cpu)

pub record Pressure : Type 0 where
  pub some_total : ℕ
  pub full_total : ℕ
  pub has_full : Bool

pub record Schedstat : Type 0 where
  pub run_ns : ℕ
  pub wait_ns : ℕ
  pub timeslices : ℕ

pub record Thermal (F : Type 0) : Type 0 where
  pub kind : Bytes
  pub milli_c : ℤ
  pub celsius : F

pub record Yaffs : Type 0 where
  pub device : Bytes
  pub page_writes : ℕ
  pub page_reads : ℕ
  pub erasures : ℕ
  pub gc_copies : ℕ
  pub gcs : ℕ
  pub passive_gcs : ℕ
  pub bad_blocks : ℕ
  pub free_chunks : ℕ
  pub erased_blocks : ℕ

pub record Diskstat : Type 0 where
  pub major : ℕ
  pub minor : ℕ
  pub name : Bytes
  pub reads_completed : ℕ
  pub read_sectors : ℕ
  pub writes_completed : ℕ
  pub write_sectors : ℕ
  pub io_in_progress : ℕ
  pub io_ticks : ℕ

pub record Slab : Type 0 where
  pub name : Bytes
  pub active_objs : ℕ
  pub num_objs : ℕ
  pub obj_size : ℕ

pub record KmsgRecord : Type 0 where
  pub priority : ℕ
  pub level : ℕ
  pub facility : ℕ
  pub seq : ℕ
  pub time_usec : ℕ
  pub message : Bytes
  pub iface : Bytes
  pub ros_iface : Bytes
  pub kind : Bytes
  pub label : Bytes
  pub role : Bytes

pub record PerfReading : Type 0 where
  pub name : Bytes
  pub per_cpu : List ℕ
  pub enabled_ns : List ℕ
  pub running_ns : List ℕ

pub record BuddyZone : Type 0 where
  pub node : ℤ
  pub zone : Bytes
  pub free : List ℕ

pub record MtdHealth : Type 0 where
  pub dev : Bytes
  pub name : Bytes
  pub corrected_bits : ℕ
  pub ecc_failures : ℕ
  pub bad_blocks : ℕ
  pub bbt_blocks : ℕ
  pub bitflip_threshold : ℕ
  pub ecc_strength : ℕ

pub record CgroupCpuStat : Type 0 where
  pub usage_usec : ℕ
  pub user_usec : ℕ
  pub system_usec : ℕ
  pub nr_periods : ℕ
  pub nr_throttled : ℕ
  pub throttled_usec : ℕ

-- `Max` is `max_hits`.
pub record CgroupMemoryEvents : Type 0 where
  pub low : ℕ
  pub high : ℕ
  pub max_hits : ℕ
  pub oom : ℕ
  pub oom_kill : ℕ

pub record Uptime (F : Type 0) : Type 0 where
  pub up : F
  pub idle : F

pub record SelfStat : Type 0 where
  pub pid : ℕ
  pub comm : Bytes
  pub utime : ℕ
  pub stime : ℕ
  pub cutime : ℕ
  pub cstime : ℕ
  pub num_threads : ℕ
  pub start_time : ℕ
  pub rss_pages : ℕ
