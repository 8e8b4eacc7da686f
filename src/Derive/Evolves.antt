-- ===== src/Derive/Evolves.antt =====
-- What a call of `Kernel` does to the detections, as steps: a detection of this sample is offered to
-- `fire`, or something else of the stage changes. Every rule is made of such steps.
use mikroscope.Common.{
  ℕ, suc, List, [], ◌∷◌, Bool, true, false, ℤ, ◌≡◌, refl, arith, if◌then◌else◌, Option-cases, inl,
  inr, lookup, codes, or_else,
}
use mikroscope.Procfs.Types.{KmsgRecord, Thermal}
use mikroscope.Sample.Floats.{Floats}
use mikroscope.Sample.Types.{Sample, SoftnetDelta}
use mikroscope.Derive.Types.{Detection, Stage}
use mikroscope.Derive.LeadUp.{lead_up_for_reboot, remember}
use mikroscope.Derive.Boot.{held_for_boot_log}
use mikroscope.Derive.Fire.{Firing, emit, emit_if}
use mikroscope.Derive.Rules.{
  burst_cores, kmsg_rule, kmsg_rules, conntrack_of, conntrack_rules, cliff_rule, note_ct, high_rule,
}
use mikroscope.Derive.Bins.{
  zone_state, high_zone, rising_zone, thermal_rule, thermal_rules, ipc_core, ipc_fire, ipc_cores,
  ipc_rules, last_counts,
}
use mikroscope.Derive.Kernel.{
  kernel, reset_rule, seen_sample, oom_rule, first_rules, last_rules, restart_rule, boot_rule,
}

module _ {F : Type 0} where
  -- The fields that `fire` reads are the same, and so are the detections.
  abbrev Quiet : Firing F → Firing F → Type 0
  Quiet r q =
      (q.stage.opts ≡ r.stage.opts) × (q.stage.last_fire ≡ r.stage.last_fire) × (q.out ≡ r.out)

  pub data Evolves (s : Sample F) : Firing F → Firing F → Type 0 where
    done : {r : Firing F} → Evolves s r r
    fired :
        {r t : Firing F} (d : Detection F)
        → d.seq ≡ s.seq
        → d.wall_ns ≡ s.wall_ns
        → Evolves s (emit d r) t
        → Evolves s r t
    quiet : {r t : Firing F} (q : Firing F) → Quiet r q → Evolves s q t → Evolves s r t

  also : {s : Sample F} {r q t : Firing F} → Evolves s r q → Evolves s q t → Evolves s r t
  also done f = f
  also (fired d e1 e2 g) f = fired d e1 e2 (also g f)
  also (quiet q e g) f = quiet q e (also g f)

  keep : {s : Sample F} {r : Firing F} (q : Firing F) → Quiet r q → Evolves s r q
  keep q e = quiet q e done

  emits :
      {s : Sample F} (b : Bool) (d : Detection F) (r : Firing F)
      → d.seq ≡ s.seq
      → d.wall_ns ≡ s.wall_ns
      → Evolves s r (emit_if b d r)
  emits true d r e1 e2 = fired d e1 e2 done
  emits false d r e1 e2 = done

  choose :
      {s : Sample F} {r x y : Firing F} (b : Bool)
      → Evolves s r x
      → Evolves s r y
      → Evolves s r (if b then x else y)
  choose true f g = f
  choose false f g = g

  module _ (fl : Floats F) where
    lead_up_for_reboot_quiet :
        (now : ℤ) (st : Stage F)
        → ((lead_up_for_reboot fl now st).0.opts ≡ st.opts)
          × ((lead_up_for_reboot fl now st).0.last_fire ≡ st.last_fire)
    unfolding lead_up_for_reboot
    lead_up_for_reboot_quiet now st = elim (Option-cases st.frozen) [
      | inl o ↦ rw o (refl, refl)
      | inr (lu, o) ↦ rw o (ground arith)
    ]

    held_quiet :
        (now : ℤ) (st : Stage F)
        → ((held_for_boot_log now st).0.opts ≡ st.opts)
          × ((held_for_boot_log now st).0.last_fire ≡ st.last_fire)
    unfolding held_for_boot_log
    held_quiet now st = ground arith

    burst_cores-Evolves :
        (s : Sample F) (i : ℕ) (ns : List SoftnetDelta) (hit : Bool) (r : Firing F)
        → Evolves s r (burst_cores fl s i ns hit r).0
    unfolding burst_cores
    burst_cores-Evolves s i [] hit r = done
    burst_cores-Evolves s i (n ∷ ns) hit r = also (keep _ (refl, refl, refl)) (
        also (choose _ (also (keep _ (refl, refl, refl)) (emits _ _ _ refl refl)) done)
          (also (keep _ (refl, refl, refl)) (burst_cores-Evolves s (suc i) ns _ _)))

    kmsg_rule-Evolves :
        (s : Sample F) (ev : KmsgRecord) (r : Firing F) → Evolves s r (kmsg_rule fl s ev r)
    unfolding kmsg_rule
    kmsg_rule-Evolves s ev r =
        let (opts, fires) = lead_up_for_reboot_quiet s.wall_ns r.stage in
        let first =
          also (choose _ (also (keep _ (opts, fires, refl)) (emits true _ _ refl refl)) done)
            (keep _ (refl, refl, refl)) in
        choose _ first (also first (also (keep _ (refl, refl, refl)) (emits _ _ _ refl refl)))

    kmsg_rules-Evolves :
        (s : Sample F) (evs : List KmsgRecord) (r : Firing F) → Evolves s r (kmsg_rules fl s evs r)
    unfolding kmsg_rules
    kmsg_rules-Evolves s [] r = done
    kmsg_rules-Evolves s (ev ∷ evs) r = also (kmsg_rule-Evolves s ev r) (kmsg_rules-Evolves s evs _)

    conntrack_of-Evolves :
        (s : Sample F) (ct : ℕ) (r : Firing F) → Evolves s r (conntrack_of fl s ct r)
    conntrack_of-Evolves s ct r =
        let limit = or_else 0 (lookup (codes "nf_conntrack") s.slab_limit) in
        let r' = cliff_rule fl s ct r in
        let noted = record r' { stage = note_ct fl s ct limit r'.stage } in
        let fall : Evolves s r r' = emits _ _ r refl refl in
        let high : Evolves s noted (high_rule fl s ct limit noted) = emits _ _ noted refl refl in
        also fall (also (keep noted (refl, refl, refl)) high)

    conntrack_rules-Evolves : (s : Sample F) (r : Firing F) → Evolves s r (conntrack_rules fl s r)
    unfolding conntrack_rules
    conntrack_rules-Evolves s r = elim (Option-cases (lookup (codes "nf_conntrack") s.slab)) [
      | inl o ↦ rw o done
      | inr (ct, o) ↦ rw o (conntrack_of-Evolves s ct r)
    ]

    thermal_rule-Evolves :
        (s : Sample F) (z : Thermal F) (r : Firing F) → Evolves s r (thermal_rule fl s z r)
    unfolding thermal_rule
    thermal_rule-Evolves s z r =
        let ts = zone_state fl s z r.stage in
        let r1 = high_zone fl s z ts r in
        let r2 = rising_zone fl s z ts r1 in
        let high : Evolves s r r1 = emits _ _ r refl refl in
        let rising : Evolves s r1 r2 = emits _ _ r1 refl refl in
        also high (also rising (keep _ (refl, refl, refl)))

    thermal_rules-Evolves :
        (s : Sample F) (zs : List (Thermal F)) (r : Firing F)
        → Evolves s r (thermal_rules fl s zs r)
    unfolding thermal_rules
    thermal_rules-Evolves s [] r = done
    thermal_rules-Evolves s (z ∷ zs) r =
        also (thermal_rule-Evolves s z r) (thermal_rules-Evolves s zs _)

    ipc_core-Evolves :
        (s : Sample F) (i cycles instrs : ℕ) (r : Firing F)
        → Evolves s r (ipc_core fl s i cycles instrs r)
    unfolding ipc_core ipc_fire
    ipc_core-Evolves s i cycles instrs r =
        also (keep _ (refl, refl, refl))
          (also (choose _ (emits _ _ _ refl refl) done) (keep _ (refl, refl, refl)))

    ipc_cores-Evolves :
        (s : Sample F) (i : ℕ) (cycles instrs : List ℕ) (r : Firing F)
        → Evolves s r (ipc_cores fl s i cycles instrs r)
    unfolding ipc_cores
    ipc_cores-Evolves s i [] instrs r = done
    ipc_cores-Evolves s i (c ∷ cycles) [] r = done
    ipc_cores-Evolves s i (c ∷ cycles) (n ∷ instrs) r =
        also (ipc_core-Evolves s i c n r) (ipc_cores-Evolves s (suc i) cycles instrs _)

    ipc_rules-Evolves : (s : Sample F) (r : Firing F) → Evolves s r (ipc_rules fl s r)
    unfolding ipc_rules
    ipc_rules-Evolves s r =
        ipc_cores-Evolves s 0 (last_counts (codes "cycles") [] s.perf)
          (last_counts (codes "instructions") [] s.perf) r

    restart_rule-Evolves : (s : Sample F) (r : Firing F) → Evolves s r (restart_rule fl s r)
    unfolding restart_rule
    restart_rule-Evolves s r =
        choose _ (also (keep _ (refl, refl, refl)) (emits true _ _ refl refl)) done

    boot_rule-Evolves : (s : Sample F) (r : Firing F) → Evolves s r (boot_rule fl s r)
    unfolding boot_rule
    boot_rule-Evolves s r =
        let (opts, fires) = held_quiet s.wall_ns r.stage in
        let waiting = record r { stage = (held_for_boot_log s.wall_ns r.stage).0 } in
        let (opts', fires') = lead_up_for_reboot_quiet s.wall_ns waiting.stage in
        choose _ done (
          also (keep waiting (opts, fires, refl)) (
            choose _ done (
              also (keep _ (opts', fires', refl))
                (also (emits true _ _ refl refl) (keep _ (refl, refl, refl))))))

    first_rules-Evolves : (s : Sample F) (r : Firing F) → Evolves s r (first_rules fl s r)
    unfolding remember
    first_rules-Evolves s r =
        let reset : Evolves s r (reset_rule fl s r) = emits _ _ r refl refl in
        let before = boot_rule fl s (restart_rule fl s (reset_rule fl s r)) in
        let seen : Evolves s before (seen_sample fl s before) = keep _ (refl, refl, refl) in
        also reset (also (restart_rule-Evolves s _) (also (boot_rule-Evolves s _) seen))

    last_rules-Evolves : (s : Sample F) (r : Firing F) → Evolves s r (last_rules fl s r)
    last_rules-Evolves s r =
        let oom : Evolves s r (oom_rule fl s r) = emits _ _ r refl refl in
        also oom (
          also (kmsg_rules-Evolves s s.events _) (
            also (conntrack_rules-Evolves s _)
              (also (thermal_rules-Evolves s s.thermal _) (ipc_rules-Evolves s _))))

    -- From the stage before a sample, and no detection, to the end of `Kernel`.
    pub kernel-Evolves :
        (s : Sample F) (st : Stage F)
        → Evolves s (record { stage = st; out = [] }) (kernel fl s st).0
    unfolding kernel
    kernel-Evolves s st =
        also (first_rules-Evolves s _)
          (also (burst_cores-Evolves s 0 s.softnet false _) (last_rules-Evolves s _))
