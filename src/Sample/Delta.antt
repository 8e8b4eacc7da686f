-- ===== src/Sample/Delta.antt =====
-- internal/sample/sample.go, `Delta`: the sample between two reads.
use mikroscope.Common.{ℕ, ◌*◌, [], Bool, true, false, codes, pos, sub_int64, u64}
use mikroscope.Sample.Types.{SelfRaw, SelfDelta, Raw, Sample}
use mikroscope.Sample.Counter.{Counted, ◌>>=◌, pure, sub}
use mikroscope.Sample.Rows.{
  cpu_delta, cpu_deltas, psi_delta, sched_deltas, softnet_deltas, softirq_delta,
}
use mikroscope.Sample.Irqs.{irq_row, top_irqs}
use mikroscope.Sample.Vm.{vm_delta}
use mikroscope.Sample.Discovered.{flash_delta, disk_delta, perf_delta, slab_levels, slab_limits}

-- The agent's own cost: from the cgroup, or from the process's ticks of 10 ms.
self_by : Bool → SelfRaw → SelfRaw → Counted SelfDelta
self_by true cur prev = do
  cpu_usec ← sub cur.cgroup_usec prev.cgroup_usec
  throttled ← sub cur.cgroup_throttled prev.cgroup_throttled
  throttled_usec ← sub cur.cgroup_throttled_usec prev.cgroup_throttled_usec
  oom_kill ← sub cur.cgroup_oom_kill prev.cgroup_oom_kill
  pure (record {
    cpu_usec = cpu_usec;
    rss_bytes = cur.rss_bytes;
    cgroup_mem = cur.cgroup_mem;
    has_cgroup = true;
    throttled = throttled;
    throttled_usec = throttled_usec;
    oom_kill = oom_kill;
    wake_ns = pos 0;
    read_ns = pos 0;
  })
self_by false cur prev = do
  ticks ← sub cur.self_ticks prev.self_ticks
  pure (record {
    cpu_usec = u64 (ticks * 10000);
    rss_bytes = cur.rss_bytes;
    cgroup_mem = cur.cgroup_mem;
    has_cgroup = false;
    throttled = 0;
    throttled_usec = 0;
    oom_kill = 0;
    wake_ns = pos 0;
    read_ns = pos 0;
  })

unfoldable pub self_delta : SelfRaw → SelfRaw → Counted SelfDelta
unfolding self_by
self_delta cur prev = self_by cur.has_cgroup cur prev

module _ {F : Type 0} where
  -- Every difference of `Delta`, with `Resets` still 0. `seq` is the sample's number.
  unfoldable pub differences : Raw F → Raw F → ℕ → ℕ → Counted (Sample F)
  differences prev cur seq k = do
    cpu_total ← cpu_delta cur.stat.total prev.stat.total
    ctxt ← sub cur.stat.ctxt prev.stat.ctxt
    intr ← sub cur.stat.intr prev.stat.intr
    forks ← sub cur.stat.processes prev.stat.processes
    cpu ← cpu_deltas cur.stat.cpus prev.stat.cpus
    psi ← psi_delta cur.psi prev.psi
    sched ← sched_deltas cur.sched prev.sched
    softnet ← softnet_deltas cur.softnet prev.softnet
    softirq ← softirq_delta cur.softirqs prev.softirqs
    irqs ← top_irqs cur.irqs prev.irqs k
    irq_err ← irq_row cur.irqs prev.irqs (codes "Err")
    vms ← vm_delta cur.vmstat prev.vmstat
    events_dropped ← sub cur.kmsg_dropped prev.kmsg_dropped
    flash ← flash_delta prev.yaffs cur.yaffs
    disk ← disk_delta prev.disk cur.disk
    perf ← perf_delta prev.perf cur.perf
    self ← self_delta cur.self prev.self
    pure (record {
      seq = seq;
      mono_ns = cur.mono_ns;
      wall_ns = cur.wall_ns;
      dt_ns = sub_int64 cur.mono_ns prev.mono_ns;
      cpu = cpu;
      cpu_total = cpu_total;
      ctxt = ctxt;
      intr = intr;
      forks = forks;
      procs_blocked = cur.stat.procs_blocked;
      psi = psi;
      sched = sched;
      softnet = softnet;
      softirq = softirq;
      irq = irqs.0;
      irq_total = irqs.1;
      irq_err = irq_err;
      mem = cur.mem;
      load = cur.load;
      vm = vms.0;
      vmg = vms.1;
      self = self;
      thermal = cur.thermal;
      freq_khz = cur.freq_khz;
      thermal_critical = cur.thermal_critical;
      freq_max_khz = cur.freq_max_khz;
      cgroup_mem_max = cur.cgroup_mem_max;
      flash = flash;
      disk = disk;
      slab = slab_levels cur.slabs [];
      slab_limit = slab_limits cur.conntrack_max (slab_levels cur.slabs []);
      perf = perf;
      buddy = cur.buddy;
      mtd = cur.mtd;
      events = cur.kmsg;
      events_dropped = events_dropped;
      resets = 0;
    })

  -- `resetsSeen.Swap(0)`: the count goes into the sample and starts again at 0.
  unfoldable pub delta : Raw F → Raw F → ℕ → ℕ → Counted (Sample F)
  delta prev cur seq k seen =
      let (s, resets) = differences prev cur seq k seen in (record s { resets = resets }, 0)
