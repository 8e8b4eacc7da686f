-- ===== src/Procfs/Named.antt =====
-- internal/procfs/meminfo.go and the cgroup files of self.go: each key has its field in a struct.
use mikroscope.Common.{
  ℕ, Option, none, some, Bool, false, ◌||◌, Bytes, codes, bytes_eq, if◌then◌else◌, ◌>>◌, require,
}
use mikroscope.Procfs.Types.{Meminfo, CgroupCpuStat, CgroupMemoryEvents}
use mikroscope.Procfs.Numbers.{parse_uint}
use mikroscope.Procfs.Lines.{split_lines, each_all}
use mikroscope.Procfs.Keys.{key_value}

-- The map `fields` of `ParseMeminfo`: the write of a number under a key, or `none` for another key.
unfoldable pub meminfo_field : Bytes → Option (ℕ → Meminfo → Meminfo)
meminfo_field key =
    if bytes_eq key (codes "MemTotal:")
    then some (λ n s. record s { mem_total = n })
    else if bytes_eq key (codes "MemFree:")
    then some (λ n s. record s { mem_free = n })
    else if bytes_eq key (codes "MemAvailable:")
    then some (λ n s. record s { mem_available = n })
    else if bytes_eq key (codes "Buffers:")
    then some (λ n s. record s { buffers = n })
    else if bytes_eq key (codes "Cached:")
    then some (λ n s. record s { cached = n })
    else if bytes_eq key (codes "Dirty:")
    then some (λ n s. record s { dirty = n })
    else if bytes_eq key (codes "Shmem:")
    then some (λ n s. record s { shmem = n })
    else if bytes_eq key (codes "Slab:")
    then some (λ n s. record s { slab = n })
    else if bytes_eq key (codes "SReclaimable:")
    then some (λ n s. record s { s_reclaimable = n })
    else if bytes_eq key (codes "Committed_AS:")
    then some (λ n s. record s { committed_as = n })
    else if bytes_eq key (codes "Writeback:")
    then some (λ n s. record s { writeback = n })
    else if bytes_eq key (codes "SUnreclaim:")
    then some (λ n s. record s { s_unreclaim = n })
    else if bytes_eq key (codes "AnonPages:")
    then some (λ n s. record s { anon_pages = n })
    else if bytes_eq key (codes "Mapped:")
    then some (λ n s. record s { mapped = n })
    else if bytes_eq key (codes "KernelStack:")
    then some (λ n s. record s { kernel_stack = n })
    else if bytes_eq key (codes "PageTables:")
    then some (λ n s. record s { page_tables = n })
    else if bytes_eq key (codes "CommitLimit:")
    then some (λ n s. record s { commit_limit = n })
    else if bytes_eq key (codes "Active:")
    then some (λ n s. record s { active = n })
    else if bytes_eq key (codes "Inactive:")
    then some (λ n s. record s { inactive = n })
    else none

unfoldable pub cgroup_cpu_field : Bytes → Option (ℕ → CgroupCpuStat → CgroupCpuStat)
cgroup_cpu_field key =
    if bytes_eq key (codes "usage_usec")
    then some (λ n s. record s { usage_usec = n })
    else if bytes_eq key (codes "user_usec")
    then some (λ n s. record s { user_usec = n })
    else if bytes_eq key (codes "system_usec")
    then some (λ n s. record s { system_usec = n })
    else if bytes_eq key (codes "nr_periods")
    then some (λ n s. record s { nr_periods = n })
    else if bytes_eq key (codes "nr_throttled")
    then some (λ n s. record s { nr_throttled = n })
    else if bytes_eq key (codes "throttled_usec")
    then some (λ n s. record s { throttled_usec = n })
    else none

unfoldable pub memory_event_field : Bytes → Option (ℕ → CgroupMemoryEvents → CgroupMemoryEvents)
memory_event_field key =
    if bytes_eq key (codes "low")
    then some (λ n s. record s { low = n })
    else if bytes_eq key (codes "high")
    then some (λ n s. record s { high = n })
    else if bytes_eq key (codes "max")
    then some (λ n s. record s { max_hits = n })
    else if bytes_eq key (codes "oom")
    then some (λ n s. record s { oom = n })
    else if bytes_eq key (codes "oom_kill")
    then some (λ n s. record s { oom_kill = n })
    else none

abbrev pub no_meminfo : Meminfo
no_meminfo = record {
  mem_total = 0;
  mem_free = 0;
  mem_available = 0;
  buffers = 0;
  cached = 0;
  dirty = 0;
  shmem = 0;
  slab = 0;
  s_reclaimable = 0;
  committed_as = 0;
  writeback = 0;
  s_unreclaim = 0;
  anon_pages = 0;
  mapped = 0;
  kernel_stack = 0;
  page_tables = 0;
  commit_limit = 0;
  active = 0;
  inactive = 0;
}

abbrev pub no_cgroup_cpu : CgroupCpuStat
no_cgroup_cpu = record {
  usage_usec = 0;
  user_usec = 0;
  system_usec = 0;
  nr_periods = 0;
  nr_throttled = 0;
  throttled_usec = 0;
}

abbrev pub no_memory_events : CgroupMemoryEvents
no_memory_events = record { low = 0; high = 0; max_hits = 0; oom = 0; oom_kill = 0 }

-- The struct so far and whether the key that has to be there was read.
pub record Fields (S : Type 0) : Type 0 where
  pub value : S
  pub seen : Bool

module _ {S : Type 0} (field : Bytes → Option (ℕ → S → S)) (required : Bytes) where
  abbrev pub write_field : Bytes → Option ℕ → Option (ℕ → S → S) → Fields S → Fields S
  write_field key n none r = r
  write_field key none (some put) r = r
  write_field key (some n) (some put) r = record {
    value = put n r.value;
    seen = r.seen || bytes_eq key required;
  }

  -- The callback that the three parsers have: a number under a known key is written.
  unfoldable pub field_line : Fields S → Bytes → Fields S
  field_line r line = let (key, v) = key_value line in write_field key (parse_uint v) (field key) r

  unfoldable pub parse_fields : S → Bytes → Option S
  unfolding field_line
  parse_fields empty b = do
    let r = each_all field_line (record { value = empty; seen = false }) (split_lines b)
    require r.seen
    some r.value

unfoldable pub parse_meminfo : Bytes → Option Meminfo
unfolding parse_fields meminfo_field
parse_meminfo b = parse_fields meminfo_field (codes "MemTotal:") no_meminfo b

unfoldable pub parse_cgroup_cpu_stat : Bytes → Option CgroupCpuStat
unfolding parse_fields cgroup_cpu_field
parse_cgroup_cpu_stat b = parse_fields cgroup_cpu_field (codes "usage_usec") no_cgroup_cpu b

unfoldable pub parse_cgroup_memory_events : Bytes → Option CgroupMemoryEvents
unfolding parse_fields memory_event_field
parse_cgroup_memory_events b = parse_fields memory_event_field (codes "oom") no_memory_events b
