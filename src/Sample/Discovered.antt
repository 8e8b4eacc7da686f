-- ===== src/Sample/Discovered.antt =====
-- internal/sample/sample.go: the sources matched by name (`flashDelta`, `diskDelta`, `perfDelta`)
-- and the slab levels of `deltaDiscovered`.
use mikroscope.Common.{
  ℕ, List, [], ◌∷◌, ◌++◌, Option, none, some, Bool, ◌&&◌, Bytes, codes, lookup, insert, ltb, ◌==◌,
  if◌then◌else◌, length,
}
use mikroscope.Procfs.Types.{Yaffs, Diskstat, PerfReading, Slab}
use mikroscope.Sample.Types.{FlashDelta, DiskDelta, PerfDelta}
use mikroscope.Sample.Counter.{Counted, ◌>>=◌, pure, sub}
use mikroscope.Sample.Rows.{sub_all, row_at}

unfoldable pub yaffs_by_device : List Yaffs → List (Bytes × Yaffs) → List (Bytes × Yaffs)
yaffs_by_device [] m = m
yaffs_by_device (y ∷ ys) m = yaffs_by_device ys (insert y.device y m)

unfoldable pub flash_row : Yaffs → Yaffs → Counted FlashDelta
flash_row y p = do
  page_writes ← sub y.page_writes p.page_writes
  page_reads ← sub y.page_reads p.page_reads
  erasures ← sub y.erasures p.erasures
  gc_copies ← sub y.gc_copies p.gc_copies
  gcs ← sub y.gcs p.gcs
  pure (record {
    device = y.device;
    page_writes = page_writes;
    page_reads = page_reads;
    erasures = erasures;
    gc_copies = gc_copies;
    gcs = gcs;
    bad_blocks = y.bad_blocks;
    free_chunks = y.free_chunks;
  })

-- Nothing was counted and the free level is the one before: the row is dropped.
unfoldable pub flash_idle : FlashDelta → ℕ → Bool
flash_idle row free_before =
    row.page_writes == 0
    && (row.page_reads == 0
        && (row.erasures == 0
            && (row.gc_copies == 0 && (row.gcs == 0 && row.free_chunks == free_before))))

flash_step : Yaffs → Option Yaffs → List FlashDelta → Counted (List FlashDelta)
flash_step y none rest = pure rest
flash_step y (some p) rest = do
  row ← flash_row y p
  pure (if flash_idle row p.free_chunks then rest else row ∷ rest)

flash_rows : List Yaffs → List (Bytes × Yaffs) → Counted (List FlashDelta)
flash_rows [] prev = pure []
flash_rows (y ∷ ys) prev = do rest ← flash_rows ys prev; flash_step y (lookup y.device prev) rest

unfoldable pub flash_delta : List Yaffs → List Yaffs → Counted (List FlashDelta)
unfolding flash_rows flash_step
flash_delta [] cur = pure []
flash_delta (p ∷ ps) [] = pure []
flash_delta (p ∷ ps) (y ∷ ys) = flash_rows (y ∷ ys) (yaffs_by_device (p ∷ ps) [])

unfoldable pub disk_by_name : List Diskstat → List (Bytes × Diskstat) → List (Bytes × Diskstat)
disk_by_name [] m = m
disk_by_name (d ∷ ds) m = disk_by_name ds (insert d.name d m)

unfoldable pub disk_row : Diskstat → Diskstat → Counted DiskDelta
disk_row d p = do
  reads_completed ← sub d.reads_completed p.reads_completed
  read_sectors ← sub d.read_sectors p.read_sectors
  writes_completed ← sub d.writes_completed p.writes_completed
  write_sectors ← sub d.write_sectors p.write_sectors
  io_ticks ← sub d.io_ticks p.io_ticks
  pure (record {
    name = d.name;
    reads_completed = reads_completed;
    read_sectors = read_sectors;
    writes_completed = writes_completed;
    write_sectors = write_sectors;
    io_ticks = io_ticks;
    io_in_progress = d.io_in_progress;
  })

unfoldable pub disk_idle : DiskDelta → Bool
disk_idle row = row.reads_completed == 0 && (row.writes_completed == 0 && row.io_in_progress == 0)

disk_step : Diskstat → Option Diskstat → List DiskDelta → Counted (List DiskDelta)
disk_step d none rest = pure rest
disk_step d (some p) rest = do row ← disk_row d p; pure (if disk_idle row then rest else row ∷ rest)

disk_rows : List Diskstat → List (Bytes × Diskstat) → Counted (List DiskDelta)
disk_rows [] prev = pure []
disk_rows (d ∷ ds) prev = do rest ← disk_rows ds prev; disk_step d (lookup d.name prev) rest

unfoldable pub disk_delta : List Diskstat → List Diskstat → Counted (List DiskDelta)
unfolding disk_rows disk_step
disk_delta [] cur = pure []
disk_delta (p ∷ ps) [] = pure []
disk_delta (p ∷ ps) (d ∷ ds) = disk_rows (d ∷ ds) (disk_by_name (p ∷ ps) [])

abbrev enabled_key : Bytes → Bytes
enabled_key name = name ++ (0 ∷ codes "en")

abbrev running_key : Bytes → Bytes
running_key name = name ++ (0 ∷ codes "run")

-- The map `before`: the counts under the counter's name, its times under the two keys.
unfoldable pub perf_before : List PerfReading → List (Bytes × List ℕ) → List (Bytes × List ℕ)
perf_before [] m = m
perf_before (r ∷ rs) m = perf_before rs (
    insert (running_key r.name) r.running_ns
      (insert (enabled_key r.name) r.enabled_ns (insert r.name r.per_cpu m)))

perf_both : PerfReading → List ℕ → List ℕ → Counted (List ℕ × List ℕ)
perf_both r pe pr = do en ← sub_all r.enabled_ns pe; run ← sub_all r.running_ns pr; pure (en, run)

-- The times of a counter. The reader makes as many running as enabled times; Go's index panic
-- where there are fewer, and the zeros where there are more, are not modelled.
perf_times : PerfReading → List ℕ → List ℕ → Counted (List ℕ × List ℕ)
unfolding perf_both
perf_times r pe pr =
    if length pe == length r.enabled_ns
      && (length pr == length r.running_ns && ltb 0 (length r.enabled_ns))
    then perf_both r pe pr
    else pure ([], [])

perf_row : PerfReading → List (Bytes × List ℕ) → List ℕ → Counted PerfDelta
unfolding perf_times
perf_row r prev p = do
  d ← sub_all r.per_cpu p
  times ← perf_times r (row_at (enabled_key r.name) prev) (row_at (running_key r.name) prev)
  pure (record { name = r.name; per_cpu = d; enabled_ns = times.0; running_ns = times.1 })

-- A counter that is new, or that has another number of CPUs, is left out.
perf_step :
    PerfReading
    → List (Bytes × List ℕ)
    → Option (List ℕ)
    → List PerfDelta
    → Counted (List PerfDelta)
unfolding perf_row
perf_step r prev none rest = pure rest
perf_step r prev (some p) rest =
    if length p == length r.per_cpu
    then (do row ← perf_row r prev p; pure (row ∷ rest))
    else pure rest

perf_rows : List PerfReading → List (Bytes × List ℕ) → Counted (List PerfDelta)
perf_rows [] prev = pure []
perf_rows (r ∷ rs) prev = do rest ← perf_rows rs prev; perf_step r prev (lookup r.name prev) rest

unfoldable pub perf_delta : List PerfReading → List PerfReading → Counted (List PerfDelta)
unfolding perf_rows perf_step
perf_delta [] cur = pure []
perf_delta (p ∷ ps) [] = pure []
perf_delta (p ∷ ps) (r ∷ rs) = perf_rows (r ∷ rs) (perf_before (p ∷ ps) [])

-- The active objects of each cache that was read.
unfoldable pub slab_levels : List (Bytes × Slab) → List (Bytes × ℕ) → List (Bytes × ℕ)
slab_levels [] m = m
slab_levels ((name, sl) ∷ rest) m = slab_levels rest (insert name sl.active_objs m)

abbrev pub conntrack : Bytes
conntrack = codes "nf_conntrack"

-- The ceiling rides with the population it bounds.
unfoldable pub slab_limits : ℕ → List (Bytes × ℕ) → List (Bytes × ℕ)
slab_limits ceiling levels = elim (lookup conntrack levels) [
  | none ↦ []
  | some n ↦ if ltb 0 ceiling then (conntrack, ceiling) ∷ [] else []
]
