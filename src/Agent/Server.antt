-- ===== src/Agent/Server.antt =====
-- internal/agent/http.go: what a pull is answered (`snapshotSince`). A reply is the list of its
-- lines; the text of a line, and a write that fails, are not modelled. `Ring.Since`, `Ring.Oldest`
-- and `MarkersBetween` lock one after the other, so each may find a different state.
pub mod Order
mod Tests
use mikroscope.Common.{
  ℕ, ◌+◌, List, [], ◌∷◌, ◌++◌, Option, none, some, Bool, true, false, u64, sub64, leb,
  if◌then◌else◌,
}
use mikroscope.Agent.Ring.{Entry, Ring, since, oldest}
use mikroscope.Agent.Captures.Types.{Marker, Captures}
use mikroscope.Agent.Captures.Collect.{markers_between, last_seq_of}

pub data Line (F : Type 0) : Type 0 where
  gap_line : ℕ → ℕ → Line F
  trigger_line : Marker F → Line F
  sample_line : Entry F → Line F
  comment_line : Line F

module _ {F : Type 0} where
  -- The markers of a disabled evaluator are none.
  abbrev pub markers_of : Option (Captures F) → ℕ → ℕ → List (Marker F)
  markers_of none after up_to = []
  markers_of (some c) after up_to = markers_between after up_to c

  -- The markers written in front of a sample, and those left.
  unfoldable pub due : ℕ → List (Marker F) → List (Line F) × List (Marker F)
  due seq [] = ([], [])
  due seq (m ∷ ms) =
      let rest = due seq ms in
      if leb m.seq seq then (trigger_line m ∷ rest.0, rest.1) else ([], m ∷ ms)

  -- The loop over the entries.
  unfoldable pub with_markers : List (Entry F) → List (Marker F) → List (Line F)
  unfolding due
  with_markers [] ms = []
  with_markers (e ∷ es) ms = let d = due e.seq ms in d.0 ++ sample_line e ∷ with_markers es d.1

  unfoldable pub write_entries : List (Entry F) → ℕ → Option (Captures F) → List (Line F)
  write_entries [] after captures = []
  write_entries (e ∷ es) after captures =
      with_markers (e ∷ es) (markers_of captures after (last_seq_of e es))

  unfoldable pub gap_lines : Bool → ℕ → ℕ → List (Line F)
  gap_lines true after first = gap_line (u64 (after + 1)) (sub64 first 1) ∷ []
  gap_lines false after first = []

  -- `now` is the ring at `Since`, `later` at `Oldest`.
  unfoldable pub snapshot_since : ℕ → ℕ → Ring F → Ring F → Option (Captures F) → List (Line F)
  unfolding gap_lines
  snapshot_since after limit now later captures =
      let (batch, gap) = since after limit now in
      gap_lines gap after (oldest later) ++ write_entries batch after captures
