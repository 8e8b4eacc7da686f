-- ===== src/Sample/Fixtures.antt =====
-- Reads of a router that does nothing, for the examples.
use mikroscope.Common.{ℕ, ◌*◌, [], ◌∷◌, none, false, pos, Bytes}
use mikroscope.Procfs.Types.{CpuTimes, Meminfo}
use mikroscope.Sample.Types.{Sample, SelfRaw, Raw}
use mikroscope.Sample.Irqs.{Scored}

abbrev pub no_times : CpuTimes
no_times = record {
  user = 0;
  nice = 0;
  system = 0;
  idle = 0;
  iowait = 0;
  irq = 0;
  softirq = 0;
  steal = 0;
  guest = 0;
  guest_nice = 0;
}

abbrev pub no_mem : Meminfo
no_mem = record {
  mem_total = 0;
  mem_free = 0;
  mem_available = 0;
  buffers = 0;
  cached = 0;
  dirty = 0;
  shmem = 0;
  slab = 0;
  s_reclaimable = 0;
  committed_as = 0;
  writeback = 0;
  s_unreclaim = 0;
  anon_pages = 0;
  mapped = 0;
  kernel_stack = 0;
  page_tables = 0;
  commit_limit = 0;
  active = 0;
  inactive = 0;
}

abbrev pub no_self : SelfRaw
no_self = record {
  has_cgroup = false;
  cgroup_usec = 0;
  self_ticks = 0;
  rss_bytes = 0;
  cgroup_mem = 0;
  cgroup_throttled = 0;
  cgroup_throttled_usec = 0;
  cgroup_oom_kill = 0;
}

-- A read at a number of seconds.
abbrev pub quiet_at : ℕ → Raw ℕ
quiet_at t = record {
  mono_ns = pos (t * 1000000000);
  wall_ns = pos (t * 1000000000);
  stat = record {
    total = no_times;
    cpus = no_times ∷ [];
    intr = 0;
    ctxt = 0;
    btime = 0;
    processes = 0;
    procs_running = 0;
    procs_blocked = 0;
  };
  mem = no_mem;
  load = record { load1 = 0; load5 = 0; load15 = 0; running = 0; total = 0; last_pid = 0 };
  softnet = [];
  softirqs = none;
  irqs = [];
  vmstat = none;
  psi = none;
  sched = [];
  self = no_self;
  thermal = [];
  freq_khz = [];
  thermal_critical = [];
  freq_max_khz = [];
  cgroup_mem_max = 0;
  yaffs = [];
  disk = [];
  slabs = [];
  conntrack_max = 0;
  kmsg = [];
  kmsg_dropped = 0;
  perf = [];
  buddy = [];
  mtd = [];
}

-- An interrupt source with its total.
abbrev pub scored : ℕ → Bytes → Scored
scored n id = record { delta = record { id = id; name = []; per_cpu = n ∷ [] }; total = n }

-- A sample in which nothing happened.
abbrev pub quiet_sample : Sample ℕ
quiet_sample = record {
  seq = 0;
  mono_ns = pos 0;
  wall_ns = pos 0;
  dt_ns = pos 0;
  cpu = [];
  cpu_total = record {
    user = 0;
    nice = 0;
    system = 0;
    idle = 0;
    iowait = 0;
    irq = 0;
    softirq = 0;
    steal = 0;
  };
  ctxt = 0;
  intr = 0;
  forks = 0;
  procs_blocked = 0;
  psi = none;
  sched = [];
  softnet = [];
  softirq = none;
  irq = [];
  irq_total = 0;
  irq_err = 0;
  mem = no_mem;
  load = record { load1 = 0; load5 = 0; load15 = 0; running = 0; total = 0; last_pid = 0 };
  vm = record {
    pg_fault = 0;
    pg_maj_fault = 0;
    pg_scan_kswapd = 0;
    pg_scan_direct = 0;
    pg_steal_kswapd = 0;
    pg_steal_direct = 0;
    pg_alloc = 0;
    pg_free = 0;
    alloc_stall = 0;
    compact_stall = 0;
    oom_kill = 0;
    p_swp_in = 0;
    p_swp_out = 0;
  };
  vmg = record {
    nr_free_pages = 0;
    nr_dirty = 0;
    nr_writeback = 0;
    nr_slab_reclaimable = 0;
    nr_slab_unreclaimable = 0;
  };
  self = record {
    cpu_usec = 0;
    rss_bytes = 0;
    cgroup_mem = 0;
    has_cgroup = false;
    throttled = 0;
    throttled_usec = 0;
    oom_kill = 0;
    wake_ns = pos 0;
    read_ns = pos 0;
  };
  thermal = [];
  freq_khz = [];
  thermal_critical = [];
  freq_max_khz = [];
  cgroup_mem_max = 0;
  flash = [];
  disk = [];
  slab = [];
  slab_limit = [];
  perf = [];
  buddy = [];
  mtd = [];
  events = [];
  events_dropped = 0;
  resets = 0;
}
