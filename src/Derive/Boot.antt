-- ===== src/Derive/Boot.antt =====
-- internal/derive/derive.go: the boot id, and the wait for the router's log of the boot.
use mikroscope.Common.{
  List, [], ◌∷◌, Bool, true, false, ◌&&◌, ◌||◌, not, Bytes, bytes_eq, ℤ, pos, sub_int64, lebℤ,
  length, ◌==◌, if◌then◌else◌, neg_part, pos_part, ◌+◌,
}
use mikroscope.Derive.Types.{Stage, BootLog, unreadable, no_line, late, logged}

abbrev pub boot_log_hold_ns : ℤ
boot_log_hold_ns = pos 180000000000

abbrev pub is_zero : ℤ → Bool
is_zero t = pos_part t + neg_part t == 0

abbrev log_text : List Bytes → Bool → BootLog
log_text lines true = unreadable
log_text [] false = no_line
log_text (l ∷ ls) false = logged (l ∷ ls)

module _ {F : Type 0} where
  abbrev changed_boot : Bytes → Stage F → Stage F × (Bytes × Bool)
  changed_boot id st =
      if length st.boot_id == 0
      then (record st { boot_id = id; boot_same = false }, ([], false))
      else (
        record st { boot_id = id; boot_same = false; boot_from = st.boot_id; prev_kmsg_us = 0 },
        (st.boot_id, true),
      )

  -- `NoteBoot`: the id before, and whether it changed.
  unfoldable pub note_boot : Bytes → Stage F → Stage F × (Bytes × Bool)
  note_boot id st =
      let same = not (length id == 0) && bytes_eq id st.boot_id in
      let kept : Stage F × (Bytes × Bool) = (record st { boot_same = same }, (st.boot_id, false)) in
      if length id == 0 || bytes_eq id st.boot_id then kept else changed_boot id st

  -- `AwaitBootLog`.
  unfoldable pub await_boot_log : Stage F → Stage F
  await_boot_log st = if length st.boot_from == 0 then st else record st { boot_log_wait = true }

  -- `NoteBootLog`, with whether the read failed.
  unfoldable pub note_boot_log : List Bytes → Bool → Stage F → Stage F
  note_boot_log lines failed st = record st {
    boot_log = log_text lines failed;
    boot_log_wait = false;
  }

  abbrev held_since : ℤ → Stage F → Stage F
  held_since now st = if is_zero st.boot_held_at then record st { boot_held_at = now } else st

  abbrev is_held : ℤ → Stage F → Bool
  is_held now st =
      lebℤ st.boot_held_at now && not (lebℤ boot_log_hold_ns (sub_int64 now st.boot_held_at))

  abbrev hold : ℤ → Stage F → Stage F × Bool
  hold now st =
      if is_held now st
      then (st, true)
      else (record st { boot_log_wait = false; boot_log = late }, false)

  -- `heldForBootLog`.
  unfoldable pub held_for_boot_log : ℤ → Stage F → Stage F × Bool
  held_for_boot_log now st =
      let waiting = hold now (held_since now st) in
      if st.boot_log_wait then waiting else (st, false)
