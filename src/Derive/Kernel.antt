-- ===== src/Derive/Kernel.antt =====
-- internal/derive/derive.go: `Kernel`, the step of the stage on one sample.
use mikroscope.Common.{
  ℕ, ◌+◌, List, [], ◌∷◌, Option, none, some, Bool, true, false, ◌&&◌, ◌||◌, Bytes, codes, bytes_eq,
  after_prefix, pos, length, ltb, ◌==◌, if◌then◌else◌, u64, sub64, of_some, is_some, sum_by,
}
use mikroscope.Procfs.Text.{contains}
use mikroscope.Sample.Floats.{Floats}
use mikroscope.Sample.Types.{Sample, PerfDelta, IrqDelta, VmDelta}
use mikroscope.Derive.Types.{
  counter_reset, agent_restart, agent_oom, reboot, no_text, Derived, Stage,
}
use mikroscope.Derive.LeadUp.{lead_up, lead_up_for_reboot, remember}
use mikroscope.Derive.Boot.{held_for_boot_log}
use mikroscope.Derive.Fire.{Firing, emit_if}
use mikroscope.Derive.Rules.{detection, burst_cores, kmsg_rules, conntrack_rules}
use mikroscope.Derive.Bins.{thermal_rules, ipc_rules}

-- `memPressure`.
unfoldable pub mem_pressure : VmDelta → ℕ
mem_pressure v =
    if ltb 0 v.oom_kill
    then 4
    else if ltb 0 v.alloc_stall || ltb 0 v.p_swp_out
    then 3
    else if ltb 0 v.pg_scan_direct
    then 2
    else if ltb 0 v.pg_scan_kswapd
    then 1
    else 0

abbrev counted : List ℕ → ℕ
counted vs = u64 (sum_by (λ v. v) vs)

-- The closure `sum` of `perPacket`: the first group with the name.
unfoldable pub sum_counter : Bytes → List PerfDelta → Option ℕ
sum_counter name [] = none
sum_counter name (p ∷ ps) =
    let rest = sum_counter name ps in
    if bytes_eq p.name name then some (counted p.per_cpu) else rest

pub record IrqSums : Type 0 where
  pub timer : ℕ
  pub ipi : ℕ
  pub saw_timer : Bool

unfoldable pub irq_sums : IrqSums → List IrqDelta → IrqSums
irq_sums a [] = a
irq_sums a (q ∷ qs) =
    let t = counted q.per_cpu in
    irq_sums
      (if contains (codes "arch_timer") q.name || contains (codes "timer") q.name
        then record a { timer = u64 (a.timer + t); saw_timer = true }
        else if is_some (after_prefix (codes "IPI") q.id)
        then record a { ipi = u64 (a.ipi + t) }
        else a)
      qs

module _ {F : Type 0} (fl : Floats F) where
  abbrev derived : Sample F → Derived F
  derived s = record {
    seq = s.seq;
    mem_pressure = mem_pressure s.vm;
    cycles_per_packet = none;
    instructions_per_packet = none;
    cache_misses_per_packet = none;
    packets_per_irq = none;
    burst = false;
    suspect = ltb 0 s.resets;
  }

  abbrev packets_of : Sample F → ℕ
  packets_of s = u64 (sum_by (λ n. n.processed) s.softnet)

  abbrev per_one : ℕ → Bytes → Sample F → Option F
  per_one packets name s =
      of_some none (λ v. some (fl.div (fl.of_ℕ v) (fl.of_ℕ packets))) (sum_counter name s.perf)

  abbrev per_irq : ℕ → ℕ → IrqSums → Option F
  per_irq packets irq_total a =
      if a.saw_timer && ltb (u64 (a.timer + a.ipi)) irq_total
      then some (fl.div (fl.of_ℕ packets) (fl.of_ℕ (sub64 (sub64 irq_total a.timer) a.ipi)))
      else none

  -- `perPacket`.
  unfoldable pub per_packet : Sample F → Derived F → Derived F
  unfolding sum_counter irq_sums
  per_packet s d =
      let packets = packets_of s in
      let filled = record d {
        cycles_per_packet = per_one packets (codes "cycles") s;
        instructions_per_packet = per_one packets (codes "instructions") s;
        cache_misses_per_packet = per_one packets (codes "cache-misses") s;
        packets_per_irq =
            per_irq packets s.irq_total
              (irq_sums (record { timer = 0; ipi = 0; saw_timer = false }) s.irq);
      } in
      if packets == 0 then d else filled

  abbrev pub reset_rule : Sample F → Firing F → Firing F
  reset_rule s r =
      emit_if (ltb 0 s.resets) (detection fl s counter_reset [] (fl.of_ℕ s.resets) (fl.of_ℕ 0)) r

  -- The summary is frozen before this sample joins the window, which starts again.
  abbrev restarted : Sample F → Firing F → Firing F
  restarted s r =
      let lu = lead_up fl s.wall_ns r.stage in
      let d = detection fl s agent_restart [] (fl.of_ℕ s.seq) (fl.of_ℕ r.stage.prev_seq) in
      emit_if true (record d { before = some lu })
        (record r {
          stage = record r.stage { frozen = some lu; frozen_at = s.wall_ns; recent = [] };
        })

  unfoldable pub restart_rule : Sample F → Firing F → Firing F
  restart_rule s r =
      let back = restarted s r in
      if ltb 0 r.stage.prev_seq && ltb s.seq r.stage.prev_seq then back else r

  abbrev told_boot : Stage F → Stage F
  told_boot st = record st { boot_from = []; boot_log = no_text; boot_held_at = pos 0 }

  abbrev rebooted : Sample F → Firing F → Firing F
  rebooted s r =
      let (st, lu) = lead_up_for_reboot fl s.wall_ns r.stage in
      let d = detection fl s reboot [] (fl.of_ℕ 0) (fl.of_ℕ 0) in
      let r' = emit_if true (record d { before = some lu }) (record r { stage = st }) in
      record r' { stage = told_boot r'.stage }

  -- `heldForBootLog` is called only where a boot is to be told.
  unfoldable pub boot_rule : Sample F → Firing F → Firing F
  boot_rule s r =
      let (st, held) = held_for_boot_log s.wall_ns r.stage in
      let waiting = record r { stage = st } in
      let told = rebooted s waiting in
      if length r.stage.boot_from == 0 then r else if held then waiting else told

  abbrev pub seen_sample : Sample F → Firing F → Firing F
  seen_sample s r = record r { stage = remember fl s (record r.stage { prev_seq = s.seq }) }

  abbrev pub oom_rule : Sample F → Firing F → Firing F
  oom_rule s r =
      emit_if (ltb 0 s.self.oom_kill)
        (detection fl s agent_oom [] (fl.of_ℕ s.self.oom_kill) (fl.of_ℕ 0)) r

  abbrev pub first_rules : Sample F → Firing F → Firing F
  first_rules s r = seen_sample s (boot_rule s (restart_rule s (reset_rule s r)))

  abbrev pub last_rules : Sample F → Firing F → Firing F
  last_rules s r = ipc_rules fl s (
      thermal_rules fl s s.thermal (conntrack_rules fl s (kmsg_rules fl s s.events (oom_rule s r))))

  -- `Kernel`: the stage after it, the derived values and the detections.
  unfoldable pub kernel : Sample F → Stage F → Firing F × Derived F
  unfolding restart_rule boot_rule per_packet mem_pressure
  kernel s st =
      let (r, burst) =
        burst_cores fl s 0 s.softnet false (first_rules s (record { stage = st; out = [] })) in
      let d = derived s in
      (last_rules s r, record (if d.suspect then d else per_packet s d) { burst = burst })
