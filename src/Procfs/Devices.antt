-- ===== src/Procfs/Devices.antt =====
-- `ParseDiskstats` of internal/procfs/vmstat.go, yaffs.go and buddyinfo.go: the files about devices
-- and memory zones.
use mikroscope.Common.{
  ℕ, zero, suc, ◌+◌, ◌*◌, ◌^◌, List, [], ◌∷◌, ◌++◌, Option, none, some, not, Bytes, codes, bytes_eq,
  trim_space, length, get_or, ltb, ◌==◌, if◌then◌else◌, ◌>>=◌, ◌>>◌, require, u64,
}
use mikroscope.Procfs.Types.{Diskstat, Yaffs, BuddyZone}
use mikroscope.Procfs.Numbers.{next_field, parse_uint}
use mikroscope.Procfs.Lines.{split_lines, each_line, each_all}
use mikroscope.Procfs.Columns.{trim_suffix}
use mikroscope.Procfs.Trim.{up_to, trim_quotes, to_int64}

-- The fields of a row, `n` at most.
unfoldable pub row_fields : ℕ → Bytes → List Bytes
row_fields zero rest = []
row_fields (suc n) rest =
    let (f, after) = next_field rest in
    let more = row_fields n after in if length f == 0 then [] else f ∷ more

-- The columns that the struct has, each of which has to be a number.
abbrev pub disk_of : List Bytes → Option Diskstat
disk_of cols = do
  let number : ℕ → Option ℕ = λ i. parse_uint (get_or cols i [])
  let major = (← number 0)
  let minor = (← number 1)
  let reads = (← number 3)
  let read_sectors = (← number 5)
  let writes = (← number 7)
  let write_sectors = (← number 9)
  let in_progress = (← number 11)
  let ticks = (← number 12)
  some (record {
    major = major;
    minor = minor;
    name = get_or cols 2 [];
    reads_completed = reads;
    read_sectors = read_sectors;
    writes_completed = writes;
    write_sectors = write_sectors;
    io_in_progress = in_progress;
    io_ticks = ticks;
  })

abbrev disk_append : List Diskstat → List Bytes → Option (List Diskstat)
disk_append out cols = do let d = (← disk_of cols); some (out ++ d ∷ [])

-- The callback of `ParseDiskstats`.
unfoldable pub diskstats_line : List Diskstat → Bytes → Option (List Diskstat)
unfolding row_fields
diskstats_line out line =
    let cols = row_fields 14 line in
    let row = disk_append out cols in
    if length cols == 0 then some out else if ltb (length cols) 14 then none else row

-- A file without rows is not an error.
unfoldable pub parse_diskstats : Bytes → Option (List Diskstat)
unfolding diskstats_line
parse_diskstats b = each_line diskstats_line (some []) (split_lines b)

abbrev new_yaffs : Bytes → Yaffs
new_yaffs device = record {
  device = device;
  page_writes = 0;
  page_reads = 0;
  erasures = 0;
  gc_copies = 0;
  gcs = 0;
  passive_gcs = 0;
  bad_blocks = 0;
  free_chunks = 0;
  erased_blocks = 0;
}

-- The map `yaffsKeys`.
unfoldable pub yaffs_field : Bytes → Option (ℕ → Yaffs → Yaffs)
yaffs_field name =
    if bytes_eq name (codes "n_page_writes")
    then some (λ n y. record y { page_writes = n })
    else if bytes_eq name (codes "n_page_reads")
    then some (λ n y. record y { page_reads = n })
    else if bytes_eq name (codes "n_erasures")
    then some (λ n y. record y { erasures = n })
    else if bytes_eq name (codes "n_gc_copies")
    then some (λ n y. record y { gc_copies = n })
    else if bytes_eq name (codes "all_gcs")
    then some (λ n y. record y { gcs = n })
    else if bytes_eq name (codes "passive_gc_count")
    then some (λ n y. record y { passive_gcs = n })
    else if bytes_eq name (codes "n_bad_blocks")
    then some (λ n y. record y { bad_blocks = n })
    else if bytes_eq name (codes "n_free_chunks")
    then some (λ n y. record y { free_chunks = n })
    else if bytes_eq name (codes "n_erased_blocks")
    then some (λ n y. record y { erased_blocks = n })
    else none

-- A write through `cur`, which points to the last device, or to none while there is none.
unfoldable pub write_last : (Yaffs → Yaffs) → List Yaffs → List Yaffs
write_last put [] = []
write_last put (y ∷ []) = put y ∷ []
write_last put (y ∷ z ∷ ys) = y ∷ write_last put (z ∷ ys)

unfoldable pub yaffs_write : Option (ℕ → Yaffs → Yaffs) → Option ℕ → List Yaffs → List Yaffs
unfolding write_last
yaffs_write none n out = out
yaffs_write (some put) none out = out
yaffs_write (some put) (some n) out = write_last (put n) out

-- The callback of `ParseYaffs`.
unfoldable pub yaffs_line : List Yaffs → Bytes → List Yaffs
unfolding yaffs_field yaffs_write
yaffs_line out line =
    let (key, rest) = next_field line in
    if length key == 0
    then out
    else if bytes_eq key (codes "Device")
    then out ++ new_yaffs (trim_quotes rest) ∷ []
    else yaffs_write (yaffs_field (up_to 46 key)) (parse_uint (next_field rest).0) out

unfoldable pub parse_yaffs : Bytes → Option (List Yaffs)
unfolding yaffs_line
parse_yaffs b = do
  let out = each_all yaffs_line [] (split_lines b)
  require (not (length out == 0))
  some out

-- The loop of `BuddyZone.FreePages`: a shift by 64 or more leaves 0, as here.
unfoldable pub pages_from : ℕ → List ℕ → ℕ
pages_from o [] = 0
pages_from o (blocks ∷ free) = u64 (u64 (blocks * 2 ^ o) + pages_from (suc o) free)

unfoldable pub free_pages : BuddyZone → ℕ
unfolding pages_from
free_pages z = pages_from 0 z.free

-- The last loop of `parseBuddyLine`: every field that is left has to be a number.
unfoldable pub buddy_loop : ℕ → Bytes → Option (List ℕ)
buddy_loop zero rest = none
buddy_loop (suc fuel) rest =
    let (word, after) = next_field rest in
    let more = (do
      let v = (← parse_uint word)
      let vs = (← buddy_loop fuel after)
      some (v ∷ vs)) in
    if length word == 0 then some [] else more

unfoldable pub buddy_counts : Bytes → Option (List ℕ)
unfolding buddy_loop
buddy_counts rest = buddy_loop (suc (length rest)) rest

unfoldable pub parse_buddy_line : Bytes → Option BuddyZone
unfolding buddy_counts
parse_buddy_line line = do
  let (head, r1) = next_field line
  require (bytes_eq head (codes "Node"))
  let (number, r2) = next_field r1
  let node = (← parse_uint (trim_suffix 44 number))
  let (label, r3) = next_field r2
  require (bytes_eq label (codes "zone"))
  let (zone, r4) = next_field r3
  let free = (← buddy_counts r4)
  require (not (length free == 0))
  some (record { node = to_int64 node; zone = zone; free = free })

abbrev buddy_row : List BuddyZone → Bytes → Option (List BuddyZone)
buddy_row out line = do let z = (← parse_buddy_line line); some (out ++ z ∷ [])

unfoldable pub buddyinfo_line : List BuddyZone → Bytes → Option (List BuddyZone)
buddyinfo_line out line =
    let row = buddy_row out line in if length (trim_space line) == 0 then some out else row

unfoldable pub parse_buddyinfo : Bytes → Option (List BuddyZone)
unfolding buddyinfo_line
parse_buddyinfo b = do
  let out = (← each_line buddyinfo_line (some []) (split_lines b))
  require (not (length out == 0))
  some out
