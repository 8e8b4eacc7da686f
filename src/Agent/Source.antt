-- ===== src/Agent/Source.antt =====
-- internal/agent/source.go and discovered.go: one read of every source.
pub mod Types
pub mod Filter
pub mod System
pub mod Held
pub mod Heartbeat
mod Tests
use mikroscope.Common.{
  ℕ, ◌+◌, ◌-◌, ◌*◌, ◌/◌, ◌%◌, List, [], ◌∷◌, ℤ, pos, lebℤ, Option, none, some, Bool, true, false,
  ◌&&◌, ◌||◌, not, Bytes, map, length, max, ltb, u64, ◌==◌, if◌then◌else◌, of_some, or_else, ◌>>=◌,
}
use mikroscope.Sample.Floats.{Floats}
use mikroscope.Procfs.Cpus.{parse_stat}
use mikroscope.Procfs.Types.{BuddyZone}
use mikroscope.Procfs.Devices.{parse_yaffs, parse_diskstats, parse_buddyinfo}
use mikroscope.Procfs.Ports.{annotate_kmsg}
use mikroscope.Sample.Types.{Raw}
use mikroscope.Agent.Source.Types.{content, Files, Source, emits}
use mikroscope.Agent.Source.Filter.{
  equal_uints, equal_buddy, equal_mtd, equal_slab, slab_values, due, read_freq, read_thermal,
  read_slabs,
}
use mikroscope.Agent.Source.System.{read_system, read_kernel, read_optional, read_self}

-- `ReArm`.
unfoldable pub re_arm : Source → Source
re_arm s = record s {
  last_freq_emit = [];
  last_slab_emit = [];
  last_buddy = [];
  last_mtd = [];
  last_freq_tick = 0;
  last_slab_tick = 0;
  last_buddy_tick = 0;
  last_mtd_tick = 0;
}

-- The floors of a source by the sampler's rate. A rate below 1 is 0 here; `truncate` is the conversion
-- of a float64 to int, where it is not negative.
module _ {F : Type 0} (fl : Floats F) (truncate : F → ℕ) where
  unfoldable pub faster : F → ℤ → F
  faster fastest ms =
      let hz = fl.div (fl.of_ℕ 1000) (fl.of_ℤ ms) in
      if not (lebℤ ms (pos 0)) && fl.lt fastest hz then hz else fastest

  unfoldable pub fastest_of : F → List (Bytes × ℤ) → F
  unfolding faster
  fastest_of fastest [] = fastest
  fastest_of fastest ((zone, ms) ∷ zones) = fastest_of (faster fastest ms) zones

  unfoldable pub declared_thermal_hz : Source → F
  unfolding fastest_of
  declared_thermal_hz s = fastest_of (fl.of_ℕ 0) s.thermal_polling_ms

  -- The closure `every`.
  unfoldable pub floor_every : ℕ → F → ℕ
  floor_every rate_hz floor_hz =
      max (truncate (fl.add (fl.div (fl.of_ℕ rate_hz) floor_hz) (fl.div (fl.of_ℕ 1) (fl.of_ℕ 2)))) 1

  unfoldable pub set_floors : ℕ → Source → Source
  unfolding declared_thermal_hz floor_every
  set_floors rate_hz s =
      let rate = max rate_hz 1 in
      let hz = declared_thermal_hz s in
      record s {
        emit_all = false;
        thermal_every = if fl.lt (fl.of_ℕ 0) hz then floor_every rate hz else 1;
        slab_every = floor_every rate (fl.of_ℕ 6);
        mtd_every = rate * 10;
        heartbeat = max (u64 (rate * 60)) 1;
      }

-- `SetFloorOverride` on what a read uses; an int below 1 is 0 here.
unfoldable pub set_floor_override : ℕ → ℕ → Source → Source
set_floor_override floor_hz rate_hz s =
    let every = max ((max rate_hz 1 + floor_hz / 2) / floor_hz) 1 in
    if floor_hz == 0 then s else record s {
      emit_all = true;
      thermal_every = every;
      slab_every = every;
      mtd_every = every;
      heartbeat = 1;
    }

-- The free lists of a tick, or `none` where they cannot be read.
unfoldable pub read_zones : Files → Option (List BuddyZone)
unfolding content
read_zones f = content f.buddyinfo >>= parse_buddyinfo

-- A source in the middle of a read: its state, and the read so far.
pub record Reading (F : Type 0) : Type 0 where
  pub source : Source
  pub raw : Raw F

module _ {F : Type 0} where
  unfoldable pub cleared : Raw F → Raw F
  cleared dst = record dst {
    thermal = [];
    freq_khz = [];
    yaffs = [];
    disk = [];
    slabs = [];
    kmsg = [];
    thermal_critical = [];
    freq_max_khz = [];
    cgroup_mem_max = 0;
    buddy = [];
    mtd = [];
  }

  -- `readDiscovered` up to the tick: the memory ceiling, and the kernel's log.
  unfoldable pub begin_tick : Source → Raw F → Files → Reading F
  unfolding cleared
  begin_tick s dst f =
      let raw = cleared dst in
      let told =
        ltb 0 s.cgroup_memory_max_bytes
        && (s.tick == 0 || s.heartbeat == 0 || s.tick % s.heartbeat == 0) in
      record {
        source = record s { tick = u64 (s.tick + 1) };
        raw = record raw {
          cgroup_mem_max = if told then s.cgroup_memory_max_bytes else 0;
          kmsg = of_some [] (λ d. map (annotate_kmsg s.board) d.0) f.kmsg;
          kmsg_dropped = of_some raw.kmsg_dropped (λ d. d.1) f.kmsg;
        };
      }

  -- The flash and disk counters, read at each tick.
  unfoldable pub read_counters : Files → Reading F → Reading F
  unfolding content
  read_counters f r = record r {
    raw = record (r.raw) {
      yaffs = or_else [] (content f.yaffs >>= parse_yaffs);
      disk = or_else [] (content f.diskstats >>= parse_diskstats);
    };
  }

  unfoldable pub emit_thermal : Floats F → Files → Reading F → Reading F
  unfolding due read_thermal
  emit_thermal fl f r =
      let now = due r.source (r.source).thermal_every in
      record r {
        raw = record (r.raw) {
          thermal = if now then read_thermal fl f.thermal else (r.raw).thermal;
          thermal_critical =
              if now then (r.source).thermal_critical_milli_c else (r.raw).thermal_critical;
        };
      }

  unfoldable pub emit_freq : Files → Reading F → Reading F
  unfolding emits equal_uints
  emit_freq f r =
      let s = r.source in
      let freq = read_freq f.freq in
      let sent = emits s (equal_uints freq s.last_freq_emit) s.last_freq_tick in
      record {
        source = record s {
          last_freq_emit = if sent then freq else s.last_freq_emit;
          last_freq_tick = if sent then s.tick else s.last_freq_tick;
        };
        raw = record (r.raw) {
          freq_khz = if sent then freq else (r.raw).freq_khz;
          freq_max_khz = if sent then s.cpu_freq_max_khz else (r.raw).freq_max_khz;
        };
      }

  unfoldable pub emit_slabs : Files → Reading F → Reading F
  unfolding due emits equal_slab slab_values read_slabs
  emit_slabs f r =
      let s = r.source in
      let now = due s s.slab_every in
      let (sl, slabs) = read_slabs f.slabinfo s.slabs in
      let v = slab_values sl in
      let sent = now && emits s (equal_slab v s.last_slab_emit) s.last_slab_tick in
      record {
        source = record s {
          slabs = if now then slabs else s.slabs;
          last_slab_emit = if sent then v else s.last_slab_emit;
          last_slab_tick = if sent then s.tick else s.last_slab_tick;
        };
        raw = record (r.raw) {
          slabs = if sent then sl else (r.raw).slabs;
          conntrack_max = if sent then s.conntrack_max else (r.raw).conntrack_max;
        };
      }

  unfoldable pub read_buddy : Files → Reading F → Reading F
  unfolding read_zones emits equal_buddy
  read_buddy f r =
      let s = r.source in
      let zones = or_else [] (read_zones f) in
      let sent =
        of_some false (λ z. emits s (equal_buddy z s.last_buddy) s.last_buddy_tick)
          (read_zones f) in
      record {
        source = record s {
          last_buddy = if sent then zones else s.last_buddy;
          last_buddy_tick = if sent then s.tick else s.last_buddy_tick;
        };
        raw = record (r.raw) { buddy = if sent then zones else (r.raw).buddy };
      }

  unfoldable pub read_mtd : Files → Reading F → Reading F
  unfolding due emits equal_mtd
  read_mtd f r =
      let s = r.source in
      let skipped = not s.has_mtd || not (length s.last_mtd == 0) && not (due s s.mtd_every) in
      let sent =
        not skipped
        && not (length f.mtd == 0)
        && emits s (equal_mtd f.mtd s.last_mtd) s.last_mtd_tick in
      record {
        source = record s {
          last_mtd = if sent then f.mtd else s.last_mtd;
          last_mtd_tick = if sent then s.tick else s.last_mtd_tick;
        };
        raw = record (r.raw) { mtd = if sent then f.mtd else (r.raw).mtd };
      }

module _ {F : Type 0} (fl : Floats F) (parse_float : Bytes → Option F) where
  unfoldable pub read_discovered : Source → Raw F → Files → Reading F
  unfolding begin_tick read_counters emit_thermal emit_freq emit_slabs read_buddy read_mtd
  read_discovered s dst f = read_mtd f (
      read_buddy f
        (emit_slabs f (emit_freq f (emit_thermal fl f (read_counters f (begin_tick s dst f))))))

  -- `Read`: `none` is the error, which only /proc/stat gives.
  unfoldable pub read : Source → Raw F → Files → Option (Reading F)
  unfolding content read_discovered read_system read_kernel read_optional read_self
  read s dst f = do
    let b = (← content f.stat)
    let st = (← parse_stat b)
    let begun = record dst { mono_ns = f.mono_ns; wall_ns = f.wall_ns; stat = st }
    let own = read_optional (read_kernel (read_system fl parse_float begun f) f) f
    let r = read_discovered s (record own { perf = or_else [] f.perf }) f
    some (record r { raw = read_self r.source r.raw f })
