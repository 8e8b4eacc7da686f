-- ===== src/Sample/Rows.antt =====
-- internal/sample/sample.go: the differences of the sources that are matched by position.
use mikroscope.Common.{ℕ, List, [], ◌∷◌, Option, none, some, false, Bytes, lookup, insert}
use mikroscope.Procfs.Types.{CpuTimes, Softnet, Softirqs, Schedstat}
use mikroscope.Sample.Types.{CpuDelta, PsiRaw, PsiDelta, SchedDelta, SoftnetDelta}
use mikroscope.Sample.Counter.{Counted, ◌>>=◌, pure, sub}

-- `sub` at each position that both lists have.
unfoldable pub sub_all : List ℕ → List ℕ → Counted (List ℕ)
sub_all [] ps = pure []
sub_all (c ∷ cs) [] = pure []
sub_all (c ∷ cs) (p ∷ ps) = do d ← sub c p; ds ← sub_all cs ps; pure (d ∷ ds)

unfoldable pub cpu_delta : CpuTimes → CpuTimes → Counted CpuDelta
cpu_delta cur prev = do
  user ← sub cur.user prev.user
  nice ← sub cur.nice prev.nice
  system ← sub cur.system prev.system
  idle ← sub cur.idle prev.idle
  iowait ← sub cur.iowait prev.iowait
  irq ← sub cur.irq prev.irq
  softirq ← sub cur.softirq prev.softirq
  steal ← sub cur.steal prev.steal
  pure (record {
    user = user;
    nice = nice;
    system = system;
    idle = idle;
    iowait = iowait;
    irq = irq;
    softirq = softirq;
    steal = steal;
  })

unfoldable pub cpu_deltas : List CpuTimes → List CpuTimes → Counted (List CpuDelta)
cpu_deltas [] ps = pure []
cpu_deltas (c ∷ cs) [] = pure []
cpu_deltas (c ∷ cs) (p ∷ ps) = do d ← cpu_delta c p; ds ← cpu_deltas cs ps; pure (d ∷ ds)

-- `HasMemFull` is left false, as in the source.
unfoldable pub psi_delta : Option PsiRaw → Option PsiRaw → Counted (Option PsiDelta)
psi_delta none prev = pure none
psi_delta (some cur) none = pure none
psi_delta (some cur) (some prev) = do
  cpu_some ← sub cur.cpu.some_total prev.cpu.some_total
  mem_some ← sub cur.memory.some_total prev.memory.some_total
  mem_full ← sub cur.memory.full_total prev.memory.full_total
  io_some ← sub cur.io.some_total prev.io.some_total
  io_full ← sub cur.io.full_total prev.io.full_total
  pure (
      some (record {
        cpu_some = cpu_some;
        mem_some = mem_some;
        mem_full = mem_full;
        io_some = io_some;
        io_full = io_full;
        has_mem_full = false;
      }))

unfoldable pub sched_deltas : List Schedstat → List Schedstat → Counted (List SchedDelta)
sched_deltas [] ps = pure []
sched_deltas (c ∷ cs) [] = pure []
sched_deltas (c ∷ cs) (p ∷ ps) = do
  run_ns ← sub c.run_ns p.run_ns
  wait_ns ← sub c.wait_ns p.wait_ns
  ds ← sched_deltas cs ps
  pure (record { run_ns = run_ns; wait_ns = wait_ns } ∷ ds)

unfoldable pub softnet_deltas : List Softnet → List Softnet → Counted (List SoftnetDelta)
softnet_deltas [] ps = pure []
softnet_deltas (c ∷ cs) [] = pure []
softnet_deltas (c ∷ cs) (p ∷ ps) = do
  processed ← sub c.processed p.processed
  dropped ← sub c.dropped p.dropped
  time_squeeze ← sub c.time_squeeze p.time_squeeze
  ds ← softnet_deltas cs ps
  pure (record { processed = processed; dropped = dropped; time_squeeze = time_squeeze } ∷ ds)

-- `Counts[name]`: the empty list where the name is missing.
abbrev pub row_at : Bytes → List (Bytes × List ℕ) → List ℕ
row_at name m = elim (lookup name m) [ none ↦ [] | some r ↦ r ]

-- A softirq in both reads is entered under its name.
softirq_row :
    Bytes → List ℕ → Option (List ℕ) → List (Bytes × List ℕ) → Counted (List (Bytes × List ℕ))
softirq_row name c none out = pure out
softirq_row name c (some p) out = do d ← sub_all c p; pure (insert name d out)

softirq_rows :
    List Bytes → Softirqs → Softirqs → List (Bytes × List ℕ) → Counted (List (Bytes × List ℕ))
softirq_rows [] cur prev out = pure out
softirq_rows (name ∷ names) cur prev out = do
  out' ← softirq_row name (row_at name cur.counts) (lookup name prev.counts) out
  softirq_rows names cur prev out'

unfoldable pub softirq_delta :
    Option Softirqs → Option Softirqs → Counted (Option (List (Bytes × List ℕ)))
unfolding softirq_rows softirq_row
softirq_delta none prev = pure none
softirq_delta (some cur) none = pure none
softirq_delta (some cur) (some prev) = do
  rows ← softirq_rows cur.names cur prev []
  pure (some rows)
