-- ===== src/Agent/Source/System.antt =====
-- internal/agent/source.go: `readSystem`, `readKernel`, `readOptional` and `readSelf`, the files that
-- are read at each tick. A file that is not there or does not parse leaves its part of the read empty.
use mikroscope.Common.{
  ℕ, ◌+◌, ◌*◌, List, [], ◌∷◌, Option, none, some, true, false, Bytes, codes, map, u64, of_some,
  or_else, ◌>>=◌,
}
use mikroscope.Sample.Floats.{Floats}
use mikroscope.Procfs.Types.{Loadavg, Pressure, CgroupCpuStat, SelfStat}
use mikroscope.Procfs.Lines.{parse_single}
use mikroscope.Procfs.Named.{
  no_meminfo, parse_meminfo, parse_cgroup_cpu_stat, parse_cgroup_memory_events,
}
use mikroscope.Procfs.Keys.{parse_vmstat_into}
use mikroscope.Procfs.Single.{parse_loadavg, parse_pressure, parse_self_stat}
use mikroscope.Procfs.Cpus.{parse_softnet}
use mikroscope.Procfs.Columns.{parse_softirqs, parse_interrupts, parse_schedstat}
use mikroscope.Sample.Types.{Raw, PsiRaw, SelfRaw}
use mikroscope.Agent.Source.Types.{ProcFile, content, Files, Source}

-- `newVmstatKeys`.
unfoldable pub new_vmstat_keys : List (Bytes × ℕ)
new_vmstat_keys =
    map (λ k. (k, 0))
      (codes "pgfault"
        ∷ codes "pgmajfault"
        ∷ codes "pgscan_kswapd"
        ∷ codes "pgscan_direct"
        ∷ codes "pgsteal_kswapd"
        ∷ codes "pgsteal_direct"
        ∷ codes "pgalloc_dma"
        ∷ codes "pgalloc_dma32"
        ∷ codes "pgalloc_normal"
        ∷ codes "pgalloc_movable"
        ∷ codes "pgalloc_high"
        ∷ codes "pgfree"
        ∷ codes "allocstall_dma"
        ∷ codes "allocstall_dma32"
        ∷ codes "allocstall_normal"
        ∷ codes "allocstall_movable"
        ∷ codes "allocstall_high"
        ∷ codes "compact_stall"
        ∷ codes "oom_kill"
        ∷ codes "pswpin"
        ∷ codes "pswpout"
        ∷ codes "nr_free_pages"
        ∷ codes "nr_dirty"
        ∷ codes "nr_writeback"
        ∷ codes "nr_slab_reclaimable"
        ∷ codes "nr_slab_unreclaimable"
        ∷ [])

abbrev no_load : {F : Type 0} → Floats F → Loadavg F
no_load fl = record {
  load1 = fl.of_ℕ 0;
  load5 = fl.of_ℕ 0;
  load15 = fl.of_ℕ 0;
  running = 0;
  total = 0;
  last_pid = 0;
}

module _ {F : Type 0} (fl : Floats F) (parse_float : Bytes → Option F) where
  unfoldable pub read_system : Raw F → Files → Raw F
  unfolding content new_vmstat_keys
  read_system dst f = record dst {
    mem = of_some dst.mem (λ b. or_else no_meminfo (parse_meminfo b)) (content f.meminfo);
    load =
        of_some dst.load (λ b. or_else (no_load fl) (parse_loadavg parse_float b))
          (content f.loadavg);
    vmstat = content f.vmstat >>= λ b. parse_vmstat_into b new_vmstat_keys;
  }

module _ {F : Type 0} where
  unfoldable pub read_kernel : Raw F → Files → Raw F
  unfolding content
  read_kernel dst f = record dst {
    softnet = or_else [] (content f.softnet >>= parse_softnet);
    softirqs = content f.softirqs >>= parse_softirqs;
    irqs = or_else [] (content f.interrupts >>= parse_interrupts);
  }

abbrev no_pressure : Pressure
no_pressure = record { some_total = 0; full_total = 0; has_full = false }

-- A pass of the loop: a file that is not open is passed over, one that fails ends the reading.
unfoldable pub psi_file : ProcFile → Option Pressure
unfolding content
psi_file none = some no_pressure
psi_file (some b) = b >>= parse_pressure

unfoldable pub read_psi : Files → Option PsiRaw
unfolding psi_file
read_psi f = do
  let opened = (← f.psi_cpu)
  let cpu = (← psi_file f.psi_cpu)
  let memory = (← psi_file f.psi_mem)
  let io = (← psi_file f.psi_io)
  some (record { cpu = cpu; memory = memory; io = io })

module _ {F : Type 0} where
  unfoldable pub read_optional : Raw F → Files → Raw F
  unfolding content read_psi
  read_optional dst f = record dst {
    psi = read_psi f;
    sched = or_else [] (content f.schedstat >>= parse_schedstat);
  }

abbrev no_self : SelfRaw
no_self = record {
  has_cgroup = false;
  cgroup_usec = 0;
  self_ticks = 0;
  rss_bytes = 0;
  cgroup_mem = 0;
  cgroup_throttled = 0;
  cgroup_throttled_usec = 0;
  cgroup_oom_kill = 0;
}

abbrev with_cgroup : SelfRaw → CgroupCpuStat → SelfRaw
with_cgroup self c = record self {
  has_cgroup = true;
  cgroup_usec = c.usage_usec;
  cgroup_throttled = c.nr_throttled;
  cgroup_throttled_usec = c.throttled_usec;
}

abbrev with_stat : ℕ → SelfRaw → SelfStat → SelfRaw
with_stat page_size self st = record self {
  self_ticks = u64 (st.utime + st.stime + st.cutime + st.cstime);
  rss_bytes = u64 (st.rss_pages * page_size);
}

-- The agent's own cost, from an empty `SelfRaw`.
unfoldable pub own_cost : Source → Files → SelfRaw
unfolding content
own_cost s f =
    let cpu =
      of_some no_self (with_cgroup no_self) (content f.cgroup_cpu >>= parse_cgroup_cpu_stat) in
    let events =
      of_some cpu (λ ev. record cpu { cgroup_oom_kill = ev.oom_kill })
        (content f.cg_events >>= parse_cgroup_memory_events) in
    let mem = record events { cgroup_mem = or_else 0 (content f.cg_mem >>= parse_single) } in
    of_some mem (with_stat s.page_size mem) (content f.self_stat >>= parse_self_stat)

module _ {F : Type 0} where
  unfoldable pub read_self : Source → Raw F → Files → Raw F
  unfolding own_cost
  read_self s dst f = record dst { self = own_cost s f }
