-- ===== src/Derive/Types.antt =====
-- internal/derive/derive.go: the state of the stage, and what it gives. The prose of a message is
-- left out; what it tells of the time before a restart is the record `LeadUp`. Times are nanoseconds.
use mikroscope.Common.{ℕ, List, Option, Bool, Bytes, codes, ℤ}

-- `Rules`.
pub data Rule : Type 0 where
  counter_reset agent_restart agent_oom microburst reboot link_flap conntrack_cliff : Rule
  conntrack_high thermal_high thermal_rising ipc_collapse : Rule

unfoldable pub rule_name : Rule → Bytes
rule_name counter_reset = codes "counter-reset"
rule_name agent_restart = codes "agent-restart"
rule_name agent_oom = codes "agent-oom"
rule_name microburst = codes "microburst"
rule_name reboot = codes "reboot"
rule_name link_flap = codes "link-flap"
rule_name conntrack_cliff = codes "conntrack-cliff"
rule_name conntrack_high = codes "conntrack-high"
rule_name thermal_high = codes "thermal-high"
rule_name thermal_rising = codes "thermal-rising"
rule_name ipc_collapse = codes "ipc-collapse"

pub record Options : Type 0 where
  pub refractory_ns : ℤ
  pub rate_hz : ℤ

pub record Vitals : Type 0 where
  pub wall_ns : ℤ
  pub dt_ns : ℤ
  pub core_busy : List ℕ
  pub mem_avail_kb : ℕ
  pub mem_total : ℕ
  pub ct : ℕ
  pub ct_limit : ℕ
  pub has_ct : Bool
  pub dropped : ℕ
  pub squeezed : ℕ
  pub oom_kills : ℕ
  pub alloc_stalls : ℕ

pub record CpuPart (F : Type 0) : Type 0 where
  pub average : F
  pub hot_core : ℕ
  pub hot_share : F

pub record MemPart : Type 0 where
  pub available : ℕ
  pub total : ℕ
  pub lowest : ℕ

-- The numbers that the text of `leadUp` tells; `nothing` is its text for an empty window.
pub record Facts (F : Type 0) : Type 0 where
  pub seconds : F
  pub samples : ℕ
  pub cpu : Option (CpuPart F)
  pub mem : Option MemPart
  pub conntrack : Option (ℕ × ℕ)
  pub dropped : ℕ
  pub squeezed : ℕ
  pub oom_kills : ℕ
  pub alloc_stalls : ℕ
  pub gap : Option F

pub data LeadUp (F : Type 0) : Type 0 where
  nothing : LeadUp F
  facts : Facts F → LeadUp F

-- The text about the log of the boot: none, the one of each branch of `NoteBootLog`, or the one of
-- `heldForBootLog`.
pub data BootLog : Type 0 where
  no_text unreadable no_line late : BootLog
  logged : List Bytes → BootLog

pub record Point (F : Type 0) : Type 0 where
  pub wall_ns : ℤ
  pub v : F

pub record ThermalState (F : Type 0) : Type 0 where
  pub bin_start : ℤ
  pub sum : F
  pub n : ℕ
  pub means : List F
  pub critical : F

pub record IpcState (F : Type 0) : Type 0 where
  pub bin_start : ℤ
  pub cycles : ℕ
  pub instrs : ℕ
  pub ipc_hist : List F
  pub rate_hist : List F

-- `cap` is 0 where the int of the source is less than 1.
pub record Window (F : Type 0) : Type 0 where
  pub vals : List F
  pub cap : ℕ
  pub next : ℕ
  pub full : Bool

pub record Detection (F : Type 0) : Type 0 where
  pub rule : Rule
  pub key : Bytes
  pub seq : ℕ
  pub wall_ns : ℤ
  pub value : F
  pub threshold : F
  pub before : Option (LeadUp F)

pub record Derived (F : Type 0) : Type 0 where
  pub seq : ℕ
  pub mem_pressure : ℕ
  pub cycles_per_packet : Option F
  pub instructions_per_packet : Option F
  pub cache_misses_per_packet : Option F
  pub packets_per_irq : Option F
  pub burst : Bool
  pub suspect : Bool

pub record Stage (F : Type 0) : Type 0 where
  pub opts : Options
  pub prev_seq : ℕ
  pub prev_kmsg_us : ℕ
  pub link_events : List (Bytes × List ℤ)
  pub softnet : List (Window F)
  pub squeezes : List (Window F)
  pub burst_at : List (List ℤ)
  pub prev_ct : ℕ
  pub ct_limit : ℕ
  pub ct_history : List (Point F)
  pub thermal : List (Bytes × ThermalState F)
  pub ipc : List (IpcState F)
  pub prev_ctrs : List (Bytes × List (Bytes × ℕ))
  pub last_fire : List (Bytes × ℤ)
  pub suppressed : ℕ
  pub recent : List Vitals
  pub frozen : Option (LeadUp F)
  pub frozen_at : ℤ
  pub boot_id : Bytes
  pub boot_same : Bool
  pub boot_from : Bytes
  pub boot_log : BootLog
  pub boot_log_wait : Bool
  pub boot_held_at : ℤ
