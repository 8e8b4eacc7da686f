-- ===== src/Health.antt =====
-- internal/health/health.go: what the samples of a window show. The prose of a finding is left out;
-- the counts that it states are the field `counts`.
pub mod Counting
pub mod Reports
mod Tests
use mikroscope.Common.{
  sort_strings, ℕ, ◌+◌, ◌-◌, List, [], ◌∷◌, ◌++◌, Option, none, some, Bool, true, false, ◌&&◌, ◌||◌,
  not, Bytes, codes, bytes_eq, bytes_lt, itoa, lookup, insert, map, length, leb, ltb, ◌==◌,
  if◌then◌else◌, u64, or_else, ℤ, pos, sub_int64,
}
use mikroscope.Procfs.Types.{KmsgRecord}
use mikroscope.Procfs.Ports.{annotate_kmsg}
use mikroscope.Sample.Floats.{Floats}
use mikroscope.Sample.Types.{Sample, SoftnetDelta}

pub record PortEvents : Type 0 where
  pub own_address : ℕ
  pub blocking : ℕ
  pub learning : ℕ
  pub forwarding : ℕ
  pub link_down : ℕ

abbrev pub no_events : PortEvents
no_events = record { own_address = 0; blocking = 0; learning = 0; forwarding = 0; link_down = 0 }

-- `ownAddressMin`, `stpStuckMin`, `linkDownMin`.
abbrev pub own_address_min : ℕ
own_address_min = 3

abbrev pub stp_stuck_min : ℕ
stp_stuck_min = 3

abbrev pub link_down_min : ℕ
link_down_min = 2

pub data Check : Type 0 where
  layer2_loop stp_churn link_flap softnet_drops : Check

-- The cores are the one text that a finding lists.
pub record Finding : Type 0 where
  pub check : Check
  pub port : Bytes
  pub counts : List ℕ
  pub cores : List Bytes

-- `portEvents.count`.
unfoldable pub count : Bytes → PortEvents → PortEvents
count kind pe =
    if bytes_eq kind (codes "own-address")
    then record pe { own_address = pe.own_address + 1 }
    else if bytes_eq kind (codes "stp-blocking")
    then record pe { blocking = pe.blocking + 1 }
    else if bytes_eq kind (codes "stp-learning")
    then record pe { learning = pe.learning + 1 }
    else if bytes_eq kind (codes "stp-forwarding")
    then record pe { forwarding = pe.forwarding + 1 }
    else if bytes_eq kind (codes "link-down")
    then record pe { link_down = pe.link_down + 1 }
    else pe

-- What `tally` returns.
pub record Tally : Type 0 where
  pub ports : List (Bytes × PortEvents)
  pub dropped : ℕ
  pub drop_cores : List ℕ

abbrev pub events_at : Bytes → List (Bytes × PortEvents) → PortEvents
events_at port m = or_else no_events (lookup port m)

-- The name that a record is counted under: RouterOS's, or the kernel's where there is none.
abbrev pub port_of : KmsgRecord → Bytes
port_of r = if length r.ros_iface == 0 then r.iface else r.ros_iface

abbrev pub count_port : KmsgRecord → List (Bytes × PortEvents) → List (Bytes × PortEvents)
count_port r m = insert (port_of r) (count r.kind (events_at (port_of r) m)) m

unfoldable pub tally_record :
    Bytes → KmsgRecord → List (Bytes × PortEvents) → List (Bytes × PortEvents)
unfolding count
tally_record board raw m =
    let r = annotate_kmsg board raw in if length r.kind == 0 then m else count_port r m

unfoldable pub tally_records :
    Bytes → List KmsgRecord → List (Bytes × PortEvents) → List (Bytes × PortEvents)
unfolding tally_record
tally_records board [] m = m
tally_records board (r ∷ rs) m = tally_records board rs (tally_record board r m)

-- `dropCPUs[cpu] = true`.
unfoldable pub mark_core : ℕ → List ℕ → List ℕ
mark_core cpu [] = cpu ∷ []
mark_core cpu (c ∷ cs) = let rest = mark_core cpu cs in if c == cpu then c ∷ cs else c ∷ rest

unfoldable pub tally_softnet : ℕ → List SoftnetDelta → Tally → Tally
unfolding mark_core
tally_softnet cpu [] t = t
tally_softnet cpu (sn ∷ rest) t =
    let t' = record t {
      dropped = u64 (t.dropped + sn.dropped);
      drop_cores = mark_core cpu t.drop_cores;
    } in
    tally_softnet (cpu + 1) rest (if ltb 0 sn.dropped then t' else t)

-- A board without a model still has its records read.
abbrev pub annotate_as : Bytes → Bytes
annotate_as board = if length board == 0 then codes "unknown" else board

abbrev finding : Check → Bytes → List ℕ → Finding
finding check port counts = record { check = check; port = port; counts = counts; cores = [] }

-- The switch of `portFindings`: a loop hides a churn.
unfoldable pub loop_or_churn : Bytes → PortEvents → List Finding
loop_or_churn port pe =
    if leb own_address_min pe.own_address
    then finding layer2_loop port (pe.own_address ∷ pe.blocking ∷ []) ∷ []
    else if leb (pe.forwarding + stp_stuck_min) pe.learning
    then finding stp_churn port (pe.learning ∷ pe.forwarding ∷ []) ∷ []
    else []

unfoldable pub port_findings : Bytes → PortEvents → List Finding
unfolding loop_or_churn
port_findings port pe =
    if leb link_down_min pe.link_down
    then loop_or_churn port pe ++ finding link_flap port (pe.link_down ∷ []) ∷ []
    else loop_or_churn port pe

unfoldable pub all_port_findings : List (Bytes × PortEvents) → List Bytes → List Finding
unfolding port_findings
all_port_findings m [] = []
all_port_findings m (port ∷ ports) =
    port_findings port (events_at port m) ++ all_port_findings m ports

abbrev core_name : ℕ → Bytes
core_name cpu = codes "cpu" ++ itoa cpu

unfoldable pub drop_findings : Tally → List Finding
unfolding sort_strings
drop_findings t =
    if ltb 0 t.dropped
    then record {
      check = softnet_drops;
      port = [];
      counts = t.dropped ∷ [];
      cores = sort_strings (map core_name t.drop_cores);
    }
      ∷ []
    else []

unfoldable pub findings_of : Tally → List Finding
unfolding all_port_findings drop_findings sort_strings
findings_of t = all_port_findings t.ports (sort_strings (map (λ e. e.0) t.ports)) ++ drop_findings t

pub record Report (F : Type 0) : Type 0 where
  pub samples : ℕ
  pub seconds : F
  pub findings : List Finding

module _ {F : Type 0} where
  unfoldable pub tally_sample : Bytes → Sample F → Tally → Tally
  unfolding tally_records tally_softnet
  tally_sample board s t =
      tally_softnet 0 s.softnet
        (record t { ports = tally_records (annotate_as board) s.events t.ports })

  unfoldable pub tally_from : Bytes → List (Sample F) → Tally → Tally
  unfolding tally_sample
  tally_from board [] t = t
  tally_from board (s ∷ ss) t = tally_from board ss (tally_sample board s t)

  unfoldable pub tally : Bytes → List (Sample F) → Tally
  unfolding tally_from
  tally board ss = tally_from board ss (record { ports = []; dropped = 0; drop_cores = [] })

  -- `samples[len(samples)-1].WallNS`.
  abbrev last_wall : ℤ → List (Sample F) → ℤ
  last_wall t [] = t
  last_wall t (s ∷ ss) = last_wall s.wall_ns ss

  module _ (fl : Floats F) where
    abbrev window_seconds : List (Sample F) → F
    window_seconds [] = fl.of_ℕ 0
    window_seconds (s ∷ []) = fl.of_ℕ 0
    window_seconds (s ∷ r ∷ ss) =
        fl.div (fl.of_ℤ (sub_int64 (last_wall r.wall_ns ss) s.wall_ns)) (fl.of_ℕ 1000000000)

    unfoldable pub analyze : Bytes → List (Sample F) → Report F
    unfolding tally findings_of
    analyze board samples = record {
      samples = length samples;
      seconds = window_seconds samples;
      findings = findings_of (tally board samples);
    }
