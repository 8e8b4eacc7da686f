-- ===== src/Agent/Captures/Fire.antt =====
-- internal/agent/capture.go: arming a capture (`fire`, `Fire`, `Observe`).
use mikroscope.Common.{
  ℕ, ◌+◌, ◌-◌, List, [], ◌∷◌, ◌++◌, Option, none, some, Bool, false, not, Bytes, codes, ℤ, lookup,
  insert, bump, ltb, ◌==◌, if◌then◌else◌, u64, sub64, length, drop,
}
use mikroscope.Sample.Floats.{Floats}
use mikroscope.Sample.Types.{Sample, FlashDelta}
use mikroscope.Agent.Captures.Types.{Condition, Capture, Marker, Captures, max_markers}
use mikroscope.Agent.Captures.Evaluate.{evaluate}

-- The keys of the suppression counts: a cause, a zero byte and the reason.
abbrev pub refractory_key : Bytes → Bytes
refractory_key cause = cause ++ (0 ∷ codes "refractory")

abbrev pub pending_key : Bytes → Bytes
pending_key cause = cause ++ (0 ∷ codes "pending")

-- Whether a condition that last fired at `last` is still quiet.
abbrev pub is_quiet : Option ℕ → ℕ → ℕ → Bool
is_quiet none seq refr = false
is_quiet (some last) seq refr = ltb (sub64 seq last) refr

note_bad : List FlashDelta → List (Bytes × ℕ) → List (Bytes × ℕ)
note_bad [] m = m
note_bad (f ∷ fs) m = note_bad fs (insert f.device f.bad_blocks m)

module _ {F : Type 0} where
  -- The condition's name and threshold, Go's zero values where there is none.
  abbrev condition_name : Option (Condition F) → Bytes
  condition_name none = []
  condition_name (some c) = c.name

  abbrev condition_threshold : F → Option (Condition F) → F
  condition_threshold zero none = zero
  condition_threshold zero (some c) = c.threshold

  -- The capture that a fire arms.
  unfoldable pub armed :
      F → Bytes → Option (Condition F) → Bytes → F → ℕ → ℤ → ℤ → Captures F → Capture F
  armed zero cause cond field value seq mono_ns wall_ns c = record {
    id = u64 (c.next_id + 1);
    cause = cause;
    condition = condition_name cond;
    field = field;
    value = value;
    threshold = condition_threshold zero cond;
    fire_seq = seq;
    fire_mono_ns = mono_ns;
    fire_wall_ns = wall_ns;
    first_seq = if ltb c.pre seq then seq - c.pre else 1;
    last_seq = u64 (seq + c.post);
    samples = 0;
    bytes = 0;
    complete = false;
    entries = [];
  }

  unfoldable pub keep_markers : List (Marker F) → List (Marker F)
  keep_markers ms = if ltb max_markers (length ms) then drop (length ms - max_markers) ms else ms

  -- The marker line's content: what the capture's header says of the fire.
  unfoldable pub marker_of : Capture F → Marker F
  marker_of cp = record {
    id = cp.id;
    cause = cp.cause;
    field = cp.field;
    value = cp.value;
    threshold = cp.threshold;
    seq = cp.fire_seq;
    wall_ns = cp.fire_wall_ns;
  }

  -- `fire` past its two guards.
  unfoldable pub arm :
      F → Bytes → Option (Condition F) → Bytes → F → ℕ → ℤ → ℤ → Captures F → Captures F
  unfolding armed marker_of keep_markers
  arm zero cause cond field value seq mono_ns wall_ns c =
      let cp = armed zero cause cond field value seq mono_ns wall_ns c in
      record c {
        last_fire = insert cause seq c.last_fire;
        fired = bump cause c.fired;
        pending = some cp;
        next_id = cp.id;
        markers = keep_markers (c.markers ++ marker_of cp ∷ []);
      }

  -- The guard on a capture already pending.
  unfoldable pub fire_pending :
      Option (Capture F)
      → F
      → Bytes
      → Option (Condition F)
      → Bytes
      → F
      → ℕ
      → ℤ
      → ℤ
      → Captures F
      → Captures F
  unfolding arm
  fire_pending (some p) zero cause cond field value seq mono_ns wall_ns c = record c {
    suppressed = bump (pending_key cause) c.suppressed;
  }
  fire_pending none zero cause cond field value seq mono_ns wall_ns c =
      arm zero cause cond field value seq mono_ns wall_ns c

  -- `zero` is the float 0, the threshold of a capture without a condition.
  unfoldable pub fire :
      F → Bytes → Option (Condition F) → Bytes → F → ℕ → ℤ → ℤ → Captures F → Captures F
  unfolding fire_pending
  fire zero cause cond field value seq mono_ns wall_ns c =
      if is_quiet (lookup cause c.last_fire) seq c.refr
      then record c { suppressed = bump (refractory_key cause) c.suppressed }
      else fire_pending c.pending zero cause cond field value seq mono_ns wall_ns c

  -- `Fire` reads the identifier without the lock, fires under it, and reads it again under it.
  -- What it returns, from the first reading and the state at the second.
  unfoldable pub manual_result : ℕ → Captures F → ℕ × Bool
  manual_result before c = (c.next_id, not (c.next_id == before))

  -- `Fire` with no other method between its steps: a capture at the ring's newest sample.
  unfoldable pub fire_manual : F → Bytes → ℕ → ℤ → ℤ → Captures F → Captures F × (ℕ × Bool)
  fire_manual zero reason last mono_ns wall_ns c =
      let c' = fire zero (codes "manual") none reason zero last mono_ns wall_ns c in
      (c', manual_result c.next_id c')

  -- What `Observe` remembers of the sample for the next one.
  unfoldable pub remember : Sample F → Captures F → Captures F
  unfolding note_bad
  remember s c = record c {
    prev_mem_avail = s.mem.mem_available;
    prev_bad = note_bad s.flash c.prev_bad;
  }

module _ {F : Type 0} (fl : Floats F) where
  open fl use {of_ℕ, div}

  -- What a round of `Observe` does with the result of a condition.
  unfoldable pub react : Option (Bytes × F) → Condition F → Sample F → Captures F → Captures F
  react none cond s c = c
  react (some (field, value)) cond s c =
      fire (of_ℕ 0) cond.name (some cond) field value s.seq s.mono_ns s.wall_ns c

  -- One round of the loop of `Observe`.
  unfoldable pub observe_one : Condition F → Sample F → F → Captures F → Captures F
  observe_one cond s period c = react (evaluate fl cond c s period) cond s c

  unfoldable pub observe_all : List (Condition F) → Sample F → F → Captures F → Captures F
  observe_all [] s period c = c
  observe_all (cond ∷ conds) s period c = observe_all conds s period (observe_one cond s period c)

  unfoldable pub observe : Sample F → Captures F → Captures F
  observe s c =
      let period = div (of_ℕ 1000000000) (of_ℕ c.cfg.rate_hz) in
      remember s (observe_all c.cfg.conditions s period c)
