-- ===== src/Derive/Tests.antt =====
-- Runs of the stage: repeated faults, a flapping link, a reboot, and a fast path.
use mikroscope.Common.{
  ℕ, ◌*◌, ◌≤◌, List, [], ◌∷◌, map, some, Bytes, codes, bytes_eq, after_prefix, ℤ, pos, sub_int64,
  lookup, insert, ◌≡◌, refl, arith,
}
use mikroscope.Procfs.Types.{KmsgRecord}
use mikroscope.Procfs.Text.{
  span, after_device, lower, link_state, stp_here, stp_from, find_stp_state, contains,
}
use mikroscope.Procfs.Ports.{kmsg_kind}
use mikroscope.Sample.Floats.{micro}
use mikroscope.Sample.Types.{Sample}
use mikroscope.Sample.Fixtures.{quiet_sample}
use mikroscope.Derive.Types.{
  Rule, agent_oom, link_flap, reboot, rule_name, Options, Detection, Stage,
}
use mikroscope.Derive.Window.{new_stage, new_window, baseline_samples}
use mikroscope.Derive.Window.Trail.{trail, push_all, push_all-last}
use mikroscope.Derive.LeadUp.{cut_older, lead_up, lead_up_for_reboot, remember}
use mikroscope.Derive.Boot.{note_boot, held_for_boot_log}
use mikroscope.Derive.Fire.{emit, fire, fire_key, is_refractory}
use mikroscope.Derive.Rules.{burst_cores, kmsg_rules, kmsg_rule, conntrack_rules}
use mikroscope.Derive.Bins.{thermal_rules, ipc_rules, ipc_cores, last_counts}
use mikroscope.Derive.Kernel.{kernel, restart_rule, boot_rule, per_packet, mem_pressure}
use mikroscope.Derive.Interfaces.{counter_delta}
use mikroscope.Derive.Spacing.{Spaced, detections, kernel-Spaced}

abbrev options : Options
options = record { refractory_ns = pos 0; rate_hz = pos 0 }

-- A sample at so many seconds, with its records and the processes killed in the container.
abbrev sample : ℕ → List KmsgRecord → ℕ → Sample ℕ
sample t events kills = record quiet_sample {
  seq = t;
  wall_ns = pos (t * 1000000000);
  events = events;
  self = record quiet_sample.self { oom_kill = kills };
}

abbrev brief : List (Detection ℕ) → List (Rule × ℤ)
brief ds = map (λ d. (d.rule, d.wall_ns)) ds

abbrev killed : List (Sample ℕ)
killed = sample 1 [] 1 ∷ sample 2 [] 1 ∷ sample 11 [] 2 ∷ []

-- The one in between is within ten seconds of the first.
killed_twice :
    brief (detections micro killed (new_stage options))
    ≡ (agent_oom, pos 1000000000) ∷ (agent_oom, pos 11000000000) ∷ []
unfolding kernel restart_rule boot_rule mem_pressure per_packet remember cut_older burst_cores
    kmsg_rules conntrack_rules thermal_rules ipc_rules ipc_cores last_counts emit fire fire_key
    is_refractory rule_name lookup insert bytes_eq new_stage sub_int64
killed_twice = refl

abbrev link : Bytes → KmsgRecord
link message = record {
  priority = 6;
  level = 6;
  facility = 0;
  seq = 1;
  time_usec = 1;
  message = message;
  iface = codes "eth1";
  ros_iface = codes "ether2";
  kind = [];
  label = [];
  role = [];
}

abbrev flapped : List (Sample ℕ)
flapped =
    sample 1 (link (codes "eth1: link down") ∷ []) 0
    ∷ sample 9 (link (codes "eth1: link up") ∷ []) 0
    ∷ []

a_flap : brief (detections micro flapped (new_stage options)) ≡ (link_flap, pos 9000000000) ∷ []
unfolding kernel restart_rule boot_rule mem_pressure per_packet remember cut_older burst_cores
    kmsg_rules kmsg_rule conntrack_rules thermal_rules ipc_rules ipc_cores last_counts emit fire
    fire_key is_refractory rule_name lookup insert bytes_eq new_stage sub_int64 kmsg_kind link_state
    find_stp_state stp_from stp_here span lower after_prefix contains after_device
a_flap = refl

abbrev booted : Stage ℕ
booted = (note_boot (codes "b") (note_boot (codes "a") (new_stage options)).0).0

a_reboot :
    brief (detections micro (sample 5 [] 0 ∷ sample 6 [] 0 ∷ []) booted)
    ≡ (reboot, pos 5000000000) ∷ []
unfolding kernel restart_rule boot_rule mem_pressure per_packet remember cut_older burst_cores
    kmsg_rules kmsg_rule conntrack_rules thermal_rules ipc_rules ipc_cores last_counts emit fire
    fire_key is_refractory rule_name lookup insert bytes_eq new_stage sub_int64 note_boot
    held_for_boot_log lead_up_for_reboot lead_up
a_reboot = refl

-- The driver's counter fell, so that the one of the wire is taken.
falls_through :
    counter_delta
      ((codes "driver-rx-byte", 3) ∷ (codes "rx-byte", 90) ∷ [])
      ((codes "driver-rx-byte", 70) ∷ (codes "rx-byte", 50) ∷ [])
      (codes "driver-rx-byte" ∷ codes "rx-byte" ∷ [])
    ≡ some 40
unfolding counter_delta lookup bytes_eq
falls_through = refl

kernel-Spaced_example : Spaced (pos 10000000000) (detections micro killed (new_stage options))
unfolding new_stage
kernel-Spaced_example = kernel-Spaced micro options killed (
  (1000000000, refl, omega arith),
  ((2000000000, refl, omega arith), ((11000000000, refl, omega arith), tt)),
)

abbrev three : List ℕ
three = 1 ∷ 2 ∷ 3 ∷ []

push_all-last_example :
    (trail (push_all three (new_window (baseline_samples (pos 1)))) ≡ three)
    × (10 ≤ baseline_samples (pos 1))
    × (baseline_samples (pos 1) ≤ 2000)
unfolding baseline_samples
push_all-last_example = push_all-last (pos 1) three
