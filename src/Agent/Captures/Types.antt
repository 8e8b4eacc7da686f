-- ===== src/Agent/Captures/Types.antt =====
-- internal/agent/capture.go: the conditions, the captures and the evaluator's state.
use mikroscope.Common.{
  ℕ, ◌*◌, List, [], Option, none, some, Bool, Bytes, codes, bytes_eq, ℤ, ltb, ◌==◌, not,
  if◌then◌else◌, u64,
}
use mikroscope.Agent.Ring.{Entry}

pub data CondKind : Type 0 where
  busy drop squeeze oom kmsg reset slip mem_fall irq_err flash_bad manual : CondKind

pub record Condition (F : Type 0) : Type 0 where
  pub name : Bytes
  pub threshold : F
  pub kind : CondKind

pub record Capture (F : Type 0) : Type 0 where
  pub id : ℕ
  pub cause : Bytes
  pub condition : Bytes
  pub field : Bytes
  pub value : F
  pub threshold : F
  pub fire_seq : ℕ
  pub fire_mono_ns : ℤ
  pub fire_wall_ns : ℤ
  pub first_seq : ℕ
  pub last_seq : ℕ
  pub samples : ℕ
  pub bytes : ℕ
  pub complete : Bool
  pub entries : List (Entry F)

pub record Marker (F : Type 0) : Type 0 where
  pub id : ℕ
  pub cause : Bytes
  pub field : Bytes
  pub value : F
  pub threshold : F
  pub seq : ℕ
  pub wall_ns : ℤ

pub record CaptureConfig (F : Type 0) : Type 0 where
  pub conditions : List (Condition F)
  pub rate_hz : ℕ
  pub pre_s : ℕ
  pub post_s : ℕ
  pub budget : ℕ
  pub policy : Bytes
  pub refractory : ℕ

pub record Captures (F : Type 0) : Type 0 where
  pub cfg : CaptureConfig F
  pub pre : ℕ
  pub post : ℕ
  pub refr : ℕ
  pub last_fire : List (Bytes × ℕ)
  pub fired : List (Bytes × ℕ)
  pub suppressed : List (Bytes × ℕ)
  pub refused : List (Bytes × ℕ)
  pub pending : Option (Capture F)
  pub held : List (Capture F)
  pub bytes : ℕ
  pub next_id : ℕ
  pub served : ℕ
  pub markers : List (Marker F)
  pub prev_mem_avail : ℕ
  pub prev_bad : List (Bytes × ℕ)

abbrev pub max_markers : ℕ
max_markers = 64

abbrev pub policy_last : Bytes
policy_last = codes "last"

abbrev pub policy_first : Bytes
policy_first = codes "first"

-- A budget that is not positive turns the feature off.
unfoldable pub new_captures : {F : Type 0} → CaptureConfig F → Option (Captures F)
new_captures cfg =
    let rate = if ltb cfg.rate_hz 1 then 1 else cfg.rate_hz in
    let policy = if not (bytes_eq cfg.policy policy_last) then policy_first else cfg.policy in
    if cfg.budget == 0
    then none
    else some (record {
      cfg = record cfg { rate_hz = rate; policy = policy };
      pre = cfg.pre_s * rate;
      post = cfg.post_s * rate;
      refr = u64 (cfg.refractory * rate);
      last_fire = [];
      fired = [];
      suppressed = [];
      refused = [];
      pending = none;
      held = [];
      bytes = 0;
      next_id = 0;
      served = 0;
      markers = [];
      prev_mem_avail = 0;
      prev_bad = [];
    })
