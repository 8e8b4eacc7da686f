-- ===== src/Agent/Captures/Collect.antt =====
-- internal/agent/capture.go: collecting the pending window from the ring, and the readers.
use mikroscope.Common.{
  ℕ, ◌+◌, ◌-◌, List, [], ◌∷◌, ◌++◌, map, Option, none, some, Bool, true, false, ◌&&◌, Bytes, codes,
  bump, bytes_eq, ltb, leb, ◌==◌, if◌then◌else◌, u64, length, select, sum_by, insert, lookup,
}
use mikroscope.Agent.Ring.{Entry, Ring, tail}
use mikroscope.Agent.Captures.Types.{Condition, Capture, Marker, Captures, policy_last}
use mikroscope.Agent.Captures.Fire.{refractory_key, pending_key}

pub record Index (F : Type 0) : Type 0 where
  pub policy : Bytes
  pub budget : ℕ
  pub bytes : ℕ
  pub pending : Option (Capture F)
  pub captures : List (Capture F)
  pub triggers : List (Condition F)

module _ {F : Type 0} where
  -- The bytes of a window's lines.
  abbrev pub size_of : List (Entry F) → ℕ
  size_of = sum_by (λ e. length e.line)

  -- The entries of the ring's tail that stand in the window.
  unfoldable pub window : Capture F → ℕ → Ring F → List (Entry F)
  window cp n ring = select (λ e. leb cp.first_seq e.seq && leb e.seq cp.last_seq) (tail n ring)

  -- The loop that makes room: the captures still held, their bytes, and whether the new one fits.
  -- A refusal under the policy `last` comes after the evictions before it.
  unfoldable pub make_room : Bool → ℕ → ℕ → List (Capture F) → ℕ → List (Capture F) × ℕ × Bool
  make_room last budget size [] bytes = ([], bytes, leb (bytes + size) budget)
  make_room last budget size (h ∷ hs) bytes =
      let evicted = make_room last budget size hs (bytes - h.bytes) in
      if leb (bytes + size) budget
      then (h ∷ hs, bytes, true)
      else if last
      then evicted
      else (h ∷ hs, bytes, false)

  -- The sequence number of a window's last entry.
  abbrev pub last_seq_of : Entry F → List (Entry F) → ℕ
  last_seq_of e [] = e.seq
  last_seq_of e (f ∷ es) = last_seq_of f es

  -- The retained window: `e ∷ es` are its entries.
  abbrev pub filled : Capture F → Entry F → List (Entry F) → ℕ → Capture F
  filled cp e es full = record cp {
    first_seq = e.seq;
    last_seq = last_seq_of e es;
    samples = length (e ∷ es);
    bytes = size_of (e ∷ es);
    complete = length (e ∷ es) == full;
    entries = e ∷ es;
  }

  abbrev refuse : Bytes → Captures F → Captures F
  refuse reason c = record c { refused = bump reason c.refused }

  -- The end of `collect`, with room made or not.
  unfoldable pub retain : List (Capture F) × ℕ × Bool → Capture F → Captures F → Captures F
  retain (held, bytes, true) cp c = record c { held = held ++ cp ∷ []; bytes = bytes + cp.bytes }
  retain (held, bytes, false) cp c =
      refuse (codes "budget") (record c { held = held; bytes = bytes })

  unfoldable pub store_window : Capture F → List (Entry F) → Captures F → Captures F
  unfolding retain
  store_window cp [] c = refuse (codes "empty") c
  store_window cp (e ∷ es) c =
      let size = size_of (e ∷ es) in
      let room = make_room (bytes_eq c.cfg.policy policy_last) c.cfg.budget size c.held c.bytes in
      if ltb c.cfg.budget size
      then refuse (codes "budget") c
      else retain room (filled cp e es (c.pre + c.post + 1)) c

  unfoldable pub collect : Capture F → Ring F → Captures F → Captures F
  collect cp ring c =
      store_window cp (window cp (c.pre + c.post + 1) ring) (record c { pending = none })

  unfoldable pub collect_due : Option (Capture F) → Ring F → ℕ → Captures F → Captures F
  collect_due none ring seq c = c
  collect_due (some cp) ring seq c = if ltb seq cp.last_seq then c else collect cp ring c

  -- `AfterPush`.
  unfoldable pub after_push : Ring F → ℕ → Captures F → Captures F
  unfolding collect_due
  after_push ring seq c = collect_due c.pending ring seq c

  unfoldable pub collect_pending : Option (Capture F) → Ring F → Captures F → Captures F
  collect_pending none ring c = c
  collect_pending (some cp) ring c = collect cp ring c

  unfoldable pub finalize : Ring F → Captures F → Captures F
  unfolding collect_pending
  finalize ring c = collect_pending c.pending ring c

  abbrev header : Capture F → Capture F
  header cp = record cp { entries = [] }

  -- `List`.
  unfoldable pub index : Captures F → Index F
  index c = record {
    policy = c.cfg.policy;
    budget = c.cfg.budget;
    bytes = c.bytes;
    pending = c.pending;
    captures = map header c.held;
    triggers = c.cfg.conditions;
  }

  find_held : ℕ → List (Capture F) → Option (Capture F × List (Entry F))
  find_held id [] = none
  find_held id (cp ∷ cps) =
      let rest = find_held id cps in if cp.id == id then some (header cp, cp.entries) else rest

  unfoldable pub get : ℕ → Captures F → Option (Capture F × List (Entry F))
  unfolding find_held
  get id c = find_held id c.held

  -- The held captures without the first that has the identifier, the bytes freed, and whether
  -- there was one.
  unfoldable pub remove_held : ℕ → List (Capture F) → List (Capture F) × ℕ × Bool
  remove_held id [] = ([], 0, false)
  remove_held id (cp ∷ cps) =
      let rest = remove_held id cps in
      if cp.id == id then (cps, cp.bytes, true) else (cp ∷ rest.0, rest.1, rest.2)

  unfoldable pub delete : ℕ → Captures F → Captures F × Bool
  delete id c =
      let (held, freed, found) = remove_held id c.held in
      if found then (record c { held = held; bytes = c.bytes - freed }, true) else (c, false)

  unfoldable pub serve : ℕ → Captures F → Captures F
  serve n c = record c { served = u64 (c.served + u64 n) }

  -- `MarkersBetween`: the markers whose fire is in (after, up_to].
  unfoldable pub markers_between : ℕ → ℕ → Captures F → List (Marker F)
  markers_between after up_to c = select (λ m. ltb after m.seq && leb m.seq up_to) c.markers

-- internal/agent/samplerstats.go: the counters, zero-filled for every configured condition.
pub record CaptureStats : Type 0 where
  pub held : ℕ
  pub bytes : ℕ
  pub budget_bytes : ℕ
  pub served_bytes : ℕ
  pub refused : List (Bytes × ℕ)
  pub fired : List (Bytes × ℕ)
  pub suppressed : List (Bytes × ℕ)

unfoldable pub zero_fill : Bytes → List (Bytes × ℕ) → List (Bytes × ℕ)
zero_fill k m = elim (lookup k m) [ none ↦ insert k 0 m | some n ↦ m ]

module _ {F : Type 0} where
  fill_fired : List (Condition F) → List (Bytes × ℕ) → List (Bytes × ℕ)
  fill_fired [] m = m
  fill_fired (c ∷ cs) m = fill_fired cs (zero_fill c.name m)

  fill_suppressed : List (Condition F) → List (Bytes × ℕ) → List (Bytes × ℕ)
  fill_suppressed [] m = m
  fill_suppressed (c ∷ cs) m =
      fill_suppressed cs (zero_fill (pending_key c.name) (zero_fill (refractory_key c.name) m))

  unfoldable pub stats : Captures F → CaptureStats
  unfolding fill_fired fill_suppressed
  stats c = record {
    held = length c.held;
    bytes = c.bytes;
    budget_bytes = c.cfg.budget;
    served_bytes = c.served;
    refused = zero_fill (codes "empty") (zero_fill (codes "budget") c.refused);
    fired = fill_fired c.cfg.conditions c.fired;
    suppressed = fill_suppressed c.cfg.conditions c.suppressed;
  }
