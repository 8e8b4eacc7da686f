-- ===== src/Sample/Types.antt =====
-- internal/sample/sample.go: the structs `Raw`, one read of every source, and `Sample`, one tick.
-- A nil pointer or an absent map is `none`; an absent slice is the empty list.
use mikroscope.Common.{ℕ, ◌+◌, List, Option, Bool, if◌then◌else◌, Bytes, ℤ, pos, lebℤ, u64}
use mikroscope.Procfs.Types.{
  Stat, Meminfo, Loadavg, Softnet, Softirqs, Irq, Pressure, Schedstat, Thermal, Yaffs, Diskstat,
  Slab, KmsgRecord, PerfReading, BuddyZone, MtdHealth,
}
use mikroscope.Sample.Floats.{Floats}

pub record PsiRaw : Type 0 where
  pub cpu : Pressure
  pub memory : Pressure
  pub io : Pressure

pub record SelfRaw : Type 0 where
  pub has_cgroup : Bool
  pub cgroup_usec : ℕ
  pub self_ticks : ℕ
  pub rss_bytes : ℕ
  pub cgroup_mem : ℕ
  pub cgroup_throttled : ℕ
  pub cgroup_throttled_usec : ℕ
  pub cgroup_oom_kill : ℕ

pub record Raw (F : Type 0) : Type 0 where
  pub mono_ns : ℤ
  pub wall_ns : ℤ
  pub stat : Stat
  pub mem : Meminfo
  pub load : Loadavg F
  pub softnet : List Softnet
  pub softirqs : Option Softirqs
  pub irqs : List Irq
  pub vmstat : Option (List (Bytes × ℕ))
  pub psi : Option PsiRaw
  pub sched : List Schedstat
  pub self : SelfRaw
  pub thermal : List (Thermal F)
  pub freq_khz : List ℕ
  pub thermal_critical : List (Bytes × ℤ)
  pub freq_max_khz : List (ℕ × ℕ)
  pub cgroup_mem_max : ℕ
  pub yaffs : List Yaffs
  pub disk : List Diskstat
  pub slabs : List (Bytes × Slab)
  pub conntrack_max : ℕ
  pub kmsg : List KmsgRecord
  pub kmsg_dropped : ℕ
  pub perf : List PerfReading
  pub buddy : List BuddyZone
  pub mtd : List MtdHealth

pub record CpuDelta : Type 0 where
  pub user : ℕ
  pub nice : ℕ
  pub system : ℕ
  pub idle : ℕ
  pub iowait : ℕ
  pub irq : ℕ
  pub softirq : ℕ
  pub steal : ℕ

-- `CPUDelta.Busy`.
unfoldable pub busy : CpuDelta → ℕ
busy c = u64 (c.user + c.nice + c.system + c.irq + c.softirq + c.steal)

-- `CPUDelta.BusyRatio`: USER_HZ is 100.
unfoldable pub busy_ratio : {F : Type 0} → Floats F → CpuDelta → ℤ → F
busy_ratio fl c dt_ns =
    if lebℤ dt_ns (pos 0)
    then fl.of_ℕ 0
    else fl.min (fl.of_ℕ 1) (
        fl.div (fl.of_ℕ (busy c))
          (fl.mul (fl.div (fl.of_ℤ dt_ns) (fl.of_ℕ 1000000000)) (fl.of_ℕ 100)))

pub record PsiDelta : Type 0 where
  pub cpu_some : ℕ
  pub mem_some : ℕ
  pub mem_full : ℕ
  pub io_some : ℕ
  pub io_full : ℕ
  pub has_mem_full : Bool

pub record SchedDelta : Type 0 where
  pub run_ns : ℕ
  pub wait_ns : ℕ

pub record SoftnetDelta : Type 0 where
  pub processed : ℕ
  pub dropped : ℕ
  pub time_squeeze : ℕ

pub record IrqDelta : Type 0 where
  pub id : Bytes
  pub name : Bytes
  pub per_cpu : List ℕ

pub record VmDelta : Type 0 where
  pub pg_fault : ℕ
  pub pg_maj_fault : ℕ
  pub pg_scan_kswapd : ℕ
  pub pg_scan_direct : ℕ
  pub pg_steal_kswapd : ℕ
  pub pg_steal_direct : ℕ
  pub pg_alloc : ℕ
  pub pg_free : ℕ
  pub alloc_stall : ℕ
  pub compact_stall : ℕ
  pub oom_kill : ℕ
  pub p_swp_in : ℕ
  pub p_swp_out : ℕ

pub record VmGauge : Type 0 where
  pub nr_free_pages : ℕ
  pub nr_dirty : ℕ
  pub nr_writeback : ℕ
  pub nr_slab_reclaimable : ℕ
  pub nr_slab_unreclaimable : ℕ

pub record PerfDelta : Type 0 where
  pub name : Bytes
  pub per_cpu : List ℕ
  pub enabled_ns : List ℕ
  pub running_ns : List ℕ

pub record FlashDelta : Type 0 where
  pub device : Bytes
  pub page_writes : ℕ
  pub page_reads : ℕ
  pub erasures : ℕ
  pub gc_copies : ℕ
  pub gcs : ℕ
  pub bad_blocks : ℕ
  pub free_chunks : ℕ

pub record DiskDelta : Type 0 where
  pub name : Bytes
  pub reads_completed : ℕ
  pub read_sectors : ℕ
  pub writes_completed : ℕ
  pub write_sectors : ℕ
  pub io_ticks : ℕ
  pub io_in_progress : ℕ

pub record SelfDelta : Type 0 where
  pub cpu_usec : ℕ
  pub rss_bytes : ℕ
  pub cgroup_mem : ℕ
  pub has_cgroup : Bool
  pub throttled : ℕ
  pub throttled_usec : ℕ
  pub oom_kill : ℕ
  pub wake_ns : ℤ
  pub read_ns : ℤ

pub record Sample (F : Type 0) : Type 0 where
  pub seq : ℕ
  pub mono_ns : ℤ
  pub wall_ns : ℤ
  pub dt_ns : ℤ
  pub cpu : List CpuDelta
  pub cpu_total : CpuDelta
  pub ctxt : ℕ
  pub intr : ℕ
  pub forks : ℕ
  pub procs_blocked : ℕ
  pub psi : Option PsiDelta
  pub sched : List SchedDelta
  pub softnet : List SoftnetDelta
  pub softirq : Option (List (Bytes × List ℕ))
  pub irq : List IrqDelta
  pub irq_total : ℕ
  pub irq_err : ℕ
  pub mem : Meminfo
  pub load : Loadavg F
  pub vm : VmDelta
  pub vmg : VmGauge
  pub self : SelfDelta
  pub thermal : List (Thermal F)
  pub freq_khz : List ℕ
  pub thermal_critical : List (Bytes × ℤ)
  pub freq_max_khz : List (ℕ × ℕ)
  pub cgroup_mem_max : ℕ
  pub flash : List FlashDelta
  pub disk : List DiskDelta
  pub slab : List (Bytes × ℕ)
  pub slab_limit : List (Bytes × ℕ)
  pub perf : List PerfDelta
  pub buddy : List BuddyZone
  pub mtd : List MtdHealth
  pub events : List KmsgRecord
  pub events_dropped : ℕ
  pub resets : ℕ
