-- ===== src/Agent/Captures/Evaluate.antt =====
-- internal/agent/capture.go: one condition against one sample. A hit is the field and the value
-- that were compared.
use mikroscope.Common.{
  ℕ, ◌+◌, ◌-◌, List, [], ◌∷◌, ◌++◌, Option, none, some, Bool, ◌&&◌, Bytes, codes, itoa, lookup, ltb,
  if◌then◌else◌,
}
use mikroscope.Procfs.Types.{KmsgRecord}
use mikroscope.Sample.Floats.{Floats}
use mikroscope.Sample.Types.{Sample, CpuDelta, SoftnetDelta, FlashDelta, busy_ratio}
use mikroscope.Agent.Captures.Types.{
  CondKind, busy, drop, squeeze, oom, kmsg, reset, slip, mem_fall, irq_err, flash_bad, manual,
  Condition, Captures,
}

module _ {F : Type 0} (fl : Floats F) where
  open fl use {of_ℕ, of_ℤ, div, le}

  -- The loop of `evalBusy` from core `i` on.
  busy_from : ℕ → F → Sample F → List CpuDelta → Option (Bytes × F)
  busy_from i threshold s [] = none
  busy_from i threshold s (c ∷ cs) =
      let rest = busy_from (i + 1) threshold s cs in
      let r = busy_ratio fl c s.dt_ns in
      if le threshold r then some (codes "cpu[" ++ (itoa i ++ codes "].busy_ratio"), r) else rest

  unfoldable pub eval_busy : F → Sample F → Option (Bytes × F)
  unfolding busy_from
  eval_busy threshold s = busy_from 0 threshold s s.cpu

  abbrev is_drop : CondKind → Bool
  is_drop drop = Bool.true
  is_drop _ = Bool.false

  abbrev is_squeeze : CondKind → Bool
  is_squeeze squeeze = Bool.true
  is_squeeze _ = Bool.false

  softnet_from : ℕ → CondKind → List SoftnetDelta → Option (Bytes × F)
  softnet_from i kind [] = none
  softnet_from i kind (n ∷ ns) =
      let rest = softnet_from (i + 1) kind ns in
      if is_drop kind && ltb 0 n.dropped
      then some (codes "softnet[" ++ (itoa i ++ codes "].dropped"), of_ℕ n.dropped)
      else if is_squeeze kind && ltb 0 n.time_squeeze
      then some (codes "softnet[" ++ (itoa i ++ codes "].time_squeeze"), of_ℕ n.time_squeeze)
      else rest

  unfoldable pub eval_softnet : CondKind → Sample F → Option (Bytes × F)
  unfolding softnet_from
  eval_softnet kind s = softnet_from 0 kind s.softnet

  kmsg_from : F → List KmsgRecord → Option (Bytes × F)
  kmsg_from threshold [] = none
  kmsg_from threshold (ev ∷ evs) =
      let rest = kmsg_from threshold evs in
      if le (of_ℕ ev.level) threshold then some (codes "events.level", of_ℕ ev.level) else rest

  unfoldable pub eval_kmsg : F → Sample F → Option (Bytes × F)
  unfolding kmsg_from
  eval_kmsg threshold s = kmsg_from threshold s.events

  -- `evalNonZero`: the counters whose being non-zero at all is the event.
  unfoldable pub eval_non_zero : CondKind → Sample F → Option (Bytes × F)
  eval_non_zero oom s =
      if ltb 0 s.vm.oom_kill then some (codes "vm.oom_kill", of_ℕ s.vm.oom_kill) else none
  eval_non_zero reset s = if ltb 0 s.resets then some (codes "resets", of_ℕ s.resets) else none
  eval_non_zero irq_err s = if ltb 0 s.irq_err then some (codes "irq_err", of_ℕ s.irq_err) else none
  eval_non_zero _ s = none

  abbrev worse : Option ℕ → ℕ → Bool
  worse none now = Bool.false
  worse (some prev) now = ltb prev now

  flash_from : List (Bytes × ℕ) → List FlashDelta → Option (Bytes × F)
  flash_from prev_bad [] = none
  flash_from prev_bad (f ∷ fs) =
      let rest = flash_from prev_bad fs in
      if worse (lookup f.device prev_bad) f.bad_blocks
      then some (codes "flash[" ++ (f.device ++ codes "].bad_blocks"), of_ℕ f.bad_blocks)
      else rest

  unfoldable pub eval_flash : Captures F → Sample F → Option (Bytes × F)
  unfolding flash_from
  eval_flash c s = flash_from c.prev_bad s.flash

  unfoldable pub eval_slip : F → F → Sample F → Option (Bytes × F)
  eval_slip threshold period s =
      let r = div (of_ℤ s.dt_ns) period in
      if le threshold r then some (codes "dt_ns/period", r) else none

  unfoldable pub eval_mem_fall : F → Captures F → Sample F → Option (Bytes × F)
  eval_mem_fall threshold c s =
      let fell = div (of_ℕ (c.prev_mem_avail - s.mem.mem_available)) (of_ℕ 1024) in
      if ltb 0 c.prev_mem_avail && ltb s.mem.mem_available c.prev_mem_avail
      then (if le threshold fell then some (codes "mem.MemAvailable fall (MB)", fell) else none)
      else none

  by_kind : CondKind → F → Captures F → Sample F → F → Option (Bytes × F)
  by_kind busy threshold c s period = eval_busy threshold s
  by_kind drop threshold c s period = eval_softnet drop s
  by_kind squeeze threshold c s period = eval_softnet squeeze s
  by_kind kmsg threshold c s period = eval_kmsg threshold s
  by_kind slip threshold c s period = eval_slip threshold period s
  by_kind mem_fall threshold c s period = eval_mem_fall threshold c s
  by_kind flash_bad threshold c s period = eval_flash c s
  by_kind oom threshold c s period = eval_non_zero oom s
  by_kind reset threshold c s period = eval_non_zero reset s
  by_kind irq_err threshold c s period = eval_non_zero irq_err s
  by_kind manual threshold c s period = none

  unfoldable pub evaluate : Condition F → Captures F → Sample F → F → Option (Bytes × F)
  unfolding by_kind
  evaluate cond c s period = by_kind cond.kind cond.threshold c s period
