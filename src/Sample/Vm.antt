-- ===== src/Sample/Vm.antt =====
-- internal/sample/sample.go, `vmDelta`: the counters and the levels of /proc/vmstat.
use mikroscope.Common.{ℕ, ◌+◌, List, [], ◌∷◌, ◌++◌, Option, none, some, Bytes, codes, count_at, u64}
use mikroscope.Sample.Types.{VmDelta, VmGauge}
use mikroscope.Sample.Counter.{Counted, ◌>>=◌, pure, sub}

abbrev pub Counters : Type 0
Counters = List (Bytes × ℕ)

abbrev pub zones : List Bytes
zones = codes "dma" ∷ codes "dma32" ∷ codes "normal" ∷ codes "movable" ∷ codes "high" ∷ []

abbrev no_counts : VmDelta
no_counts = record {
  pg_fault = 0;
  pg_maj_fault = 0;
  pg_scan_kswapd = 0;
  pg_scan_direct = 0;
  pg_steal_kswapd = 0;
  pg_steal_direct = 0;
  pg_alloc = 0;
  pg_free = 0;
  alloc_stall = 0;
  compact_stall = 0;
  oom_kill = 0;
  p_swp_in = 0;
  p_swp_out = 0;
}

abbrev no_levels : VmGauge
no_levels = record {
  nr_free_pages = 0;
  nr_dirty = 0;
  nr_writeback = 0;
  nr_slab_reclaimable = 0;
  nr_slab_unreclaimable = 0;
}

-- `d(key)`.
unfoldable pub key_delta : Counters → Counters → Bytes → Counted ℕ
key_delta cur prev key = sub (count_at key cur) (count_at key prev)

-- `sumZones(prefix)` over the given zones.
unfoldable pub sum_zones : Counters → Counters → Bytes → List Bytes → ℕ → Counted ℕ
sum_zones cur prev prefix [] t = pure t
sum_zones cur prev prefix (z ∷ zs) t = do
  d ← key_delta cur prev (prefix ++ z)
  sum_zones cur prev prefix zs (u64 (t + d))

unfoldable pub vm_counters : Counters → Counters → Counted VmDelta
vm_counters cur prev = do
  pg_fault ← key_delta cur prev (codes "pgfault")
  pg_maj_fault ← key_delta cur prev (codes "pgmajfault")
  pg_scan_kswapd ← key_delta cur prev (codes "pgscan_kswapd")
  pg_scan_direct ← key_delta cur prev (codes "pgscan_direct")
  pg_steal_kswapd ← key_delta cur prev (codes "pgsteal_kswapd")
  pg_steal_direct ← key_delta cur prev (codes "pgsteal_direct")
  pg_alloc ← sum_zones cur prev (codes "pgalloc_") zones 0
  pg_free ← key_delta cur prev (codes "pgfree")
  alloc_stall ← sum_zones cur prev (codes "allocstall_") zones 0
  compact_stall ← key_delta cur prev (codes "compact_stall")
  oom_kill ← key_delta cur prev (codes "oom_kill")
  p_swp_in ← key_delta cur prev (codes "pswpin")
  p_swp_out ← key_delta cur prev (codes "pswpout")
  pure (record {
    pg_fault = pg_fault;
    pg_maj_fault = pg_maj_fault;
    pg_scan_kswapd = pg_scan_kswapd;
    pg_scan_direct = pg_scan_direct;
    pg_steal_kswapd = pg_steal_kswapd;
    pg_steal_direct = pg_steal_direct;
    pg_alloc = pg_alloc;
    pg_free = pg_free;
    alloc_stall = alloc_stall;
    compact_stall = compact_stall;
    oom_kill = oom_kill;
    p_swp_in = p_swp_in;
    p_swp_out = p_swp_out;
  })

unfoldable pub vm_levels : Counters → VmGauge
vm_levels cur = record {
  nr_free_pages = count_at (codes "nr_free_pages") cur;
  nr_dirty = count_at (codes "nr_dirty") cur;
  nr_writeback = count_at (codes "nr_writeback") cur;
  nr_slab_reclaimable = count_at (codes "nr_slab_reclaimable") cur;
  nr_slab_unreclaimable = count_at (codes "nr_slab_unreclaimable") cur;
}

-- Both are zero where either read has no vmstat.
unfoldable pub vm_delta : Option Counters → Option Counters → Counted (VmDelta × VmGauge)
vm_delta none prev = pure (no_counts, no_levels)
vm_delta (some cur) none = pure (no_counts, no_levels)
vm_delta (some cur) (some prev) = do counters ← vm_counters cur prev; pure (counters, vm_levels cur)
