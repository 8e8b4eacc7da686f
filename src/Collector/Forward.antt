-- ===== src/Collector/Forward.antt =====
-- internal/forward/forward.go: the cursor, `pull`, `pullOnce`, `labelPorts` and `resync`. The clock
-- and the log are left out; the sinks see the events in the order emitted.
pub mod Account
pub mod Replies
pub mod Delivery
pub mod CatchUp
pub mod Restart
mod Tests
use mikroscope.Common.{
  ℕ, zero, suc, ◌+◌, ◌-◌, List, [], ◌∷◌, ◌++◌, map, Option, none, some, Bytes, u64, length, ltb,
  leb, ◌==◌, ◌||◌, if◌then◌else◌,
}
use mikroscope.Procfs.Types.{KmsgRecord}
use mikroscope.Sample.Types.{Sample}
use mikroscope.Agent.Captures.Types.{Marker}
use mikroscope.Agent.Server.{Line, gap_line, trigger_line, sample_line, comment_line}
use mikroscope.Collector.Transport.{Gap}

-- What the router's API knows of a port.
pub record PortInfo : Type 0 where
  pub name : Bytes
  pub comment : Bytes
  pub role : Bytes

-- The other components that the loop calls: the decoder of a sample line, the kind of a kernel-log
-- message, the API tier's inventory (none without one), and the derive stage with its state `D`,
-- which gives derived series `X` and detections `Y`.
pub record Stages (F D X Y : Type 0) : Type 0 where
  pub decode : Bytes → Option (Sample F)
  pub kmsg_kind : Bytes → Bytes
  pub port : Option (Bytes → Option PortInfo)
  pub kernel : Sample F → D → X × List Y × D

pub data Event (F X Y : Type 0) : Type 0 where
  gap_event : Gap → Event F X Y
  trigger_event : Marker F → Event F X Y
  kernel_event : Sample F → X → Event F X Y
  detection_event : Y → Event F X Y

-- The cursor, the counts and the derive stage, with the events emitted so far.
pub record Forwarder (F D X Y : Type 0) : Type 0 where
  pub since : ℕ
  pub kernel : ℕ
  pub gaps : ℕ
  pub triggers : ℕ
  pub detections : ℕ
  pub last_seq : ℕ
  pub resyncs : ℕ
  pub derive : D
  pub emitted : List (Event F X Y)

abbrev pub found_port : Option PortInfo → KmsgRecord → KmsgRecord
found_port none ev = ev
found_port (some info) ev = record ev {
  ros_iface = info.name;
  label = info.comment;
  role = info.role;
}

abbrev pub with_port : Option (Bytes → Option PortInfo) → KmsgRecord → KmsgRecord
with_port none ev = ev
with_port (some port) ev =
    if length ev.ros_iface == 0 then ev else found_port (port ev.ros_iface) ev

module _ {F D X Y : Type 0} where
  unfoldable pub note_gap : Option Gap → Forwarder F D X Y → Forwarder F D X Y
  note_gap none f = f
  note_gap (some g) f = record f {
    gaps = u64 (f.gaps + 1);
    emitted = f.emitted ++ gap_event g ∷ [];
  }

module _ {F D X Y : Type 0} (st : Stages F D X Y) where
  unfoldable pub label_event : KmsgRecord → KmsgRecord
  label_event ev =
      let kinded =
        if length ev.kind == 0 then record ev { kind = st.kmsg_kind ev.message } else ev in
      if length ev.iface == 0 then ev else with_port st.port kinded

  unfoldable pub label_ports : Sample F → Sample F
  label_ports s = record s { events = map label_event s.events }

  -- A sample line that was decoded: the cursor moves, and the sample and its detections go out.
  unfoldable pub take_sample : Sample F → Forwarder F D X Y → Forwarder F D X Y
  unfolding label_ports
  take_sample s f =
      let labelled = label_ports s in
      let (derived, found, next) = st.kernel labelled f.derive in
      record f {
        since = s.seq;
        kernel = u64 (f.kernel + 1);
        last_seq = s.seq;
        detections = u64 (f.detections + length found);
        derive = next;
        emitted = f.emitted ++ kernel_event labelled derived ∷ map (λ d. detection_event d) found;
      }

  unfoldable pub decoded : Option (Sample F) → Forwarder F D X Y → Forwarder F D X Y
  decoded none f = f
  decoded (some s) f = take_sample s f

  -- One line: a marker does not move the cursor, and what does not decode is skipped.
  unfoldable pub take_line : Line F → Forwarder F D X Y → Forwarder F D X Y
  take_line (trigger_line m) f = record f {
    triggers = u64 (f.triggers + 1);
    emitted = f.emitted ++ trigger_event m ∷ [];
  }
  take_line (sample_line e) f = decoded (st.decode e.line) f
  take_line (gap_line from to) f = f
  take_line comment_line f = f

  unfoldable pub take_lines : List (Line F) → Forwarder F D X Y → Forwarder F D X Y
  take_lines [] f = f
  take_lines (l ∷ ls) f = take_lines ls (take_line l f)

  -- `pullOnce` on what the transport returned (none for an error), with the number of lines.
  unfoldable pub pull_once :
      Option (List (Line F) × Option Gap) → Forwarder F D X Y → Forwarder F D X Y × ℕ
  pull_once none f = (f, 0)
  pull_once (some (lines, gap)) f = (take_lines lines (note_gap gap f), length lines)

  -- The loop of `pull`, over at most the given number of rounds; `answer` is what the transport
  -- returns for a cursor in each of them.
  unfoldable pub drain :
      ℕ → ℕ → (ℕ → ℕ → Option (List (Line F) × Option Gap)) → Forwarder F D X Y → Forwarder F D X Y
  drain zero batch answer f = f
  drain (suc n) batch answer f =
      let r = pull_once (answer n f.since) f in
      let rest = drain n batch answer r.0 in if ltb r.1 batch then r.0 else rest

abbrev pub max_drain : ℕ
max_drain = 100

module _ {F D X Y : Type 0} where
  -- `resync`, from a health read's newest and oldest number.
  unfoldable pub resync : ℕ → ℕ → Forwarder F D X Y → Forwarder F D X Y
  resync newest oldest_seq f = if leb f.since newest then f else record f {
    since = if ltb 0 oldest_seq then oldest_seq - 1 else 0;
    resyncs = u64 (f.resyncs + 1);
  }
