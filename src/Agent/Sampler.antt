-- ===== src/Agent/Sampler.antt =====
-- internal/agent/sampler.go: the tick loop. The clock, the ticker and the reads of the source are
-- inputs: a tick brings what was read and how late it ran. `F` stands for float64 and `marshal`
-- for `json.Marshal` of a sample.
pub mod Invariant
pub mod Lossless
mod Tests
use mikroscope.Common.{
  ℕ, ◌+◌, ◌/◌, List, [], ◌∷◌, Option, none, some, Bool, Bytes, ℤ, u64, ltb, if◌then◌else◌,
}
use mikroscope.Sample.Floats.{Floats}
use mikroscope.Sample.Types.{Raw, Sample, SelfDelta}
use mikroscope.Sample.Delta.{delta}
use mikroscope.Agent.Ring.{Ring, push}
use mikroscope.Agent.Captures.Types.{Captures}
use mikroscope.Agent.Captures.Fire.{observe}
use mikroscope.Agent.Captures.Collect.{after_push, finalize}

-- `resets` is the package's `resetsSeen`; `prev` is the read before.
pub record Sampler (F : Type 0) : Type 0 where
  pub ring : Ring F
  pub rate : ℕ
  pub top_k : ℕ
  pub seq : ℕ
  pub slips : ℕ
  pub ticks : ℕ
  pub captures : Option (Captures F)
  pub prev : Raw F
  pub resets : ℕ

-- One tick: the read, how late the loop woke and how long the read took, and the time from the
-- tick's due instant to its end, in nanoseconds.
pub record Tick (F : Type 0) : Type 0 where
  pub cur : Raw F
  pub wake_ns : ℤ
  pub read_ns : ℤ
  pub elapsed_ns : ℕ

pub data Event (F : Type 0) : Type 0 where
  ticked : Tick F → Event F
  read_failed : Event F
  stopped : Event F

-- Where `Run` stands: in its loop, or returned, with or without an error.
pub data Run (F : Type 0) : Type 0 where
  running finished failed : Sampler F → Run F

-- A method on the possibly nil `*Captures`.
abbrev pub when_on :
    {F : Type 0} → (Captures F → Captures F) → Option (Captures F) → Option (Captures F)
when_on f none = none
when_on f (some c) = some (f c)

module _ {F : Type 0} where
  -- `time.Second / time.Duration(rate)`; a rate of 0 panics in Go, and the configuration refuses it.
  abbrev pub period : Sampler F → ℕ
  period s = 1000000000 / s.rate

  -- `Run` up to its loop: the first read primes `prev`.
  unfoldable pub new_sampler : Ring F → ℕ → ℕ → Option (Captures F) → Raw F → Sampler F
  new_sampler ring rate_hz top_k captures first = record {
    ring = ring;
    rate = rate_hz;
    top_k = top_k;
    seq = 0;
    slips = 0;
    ticks = 0;
    captures = captures;
    prev = first;
    resets = 0;
  }

  -- The sample of a tick, with the sampler's own timing in it.
  unfoldable pub tick_sample : Sampler F → Tick F → Sample F
  tick_sample s t =
      let smp = (delta s.prev t.cur (u64 (s.seq + 1)) s.top_k s.resets).0 in
      record smp { self = record (smp.self) { wake_ns = t.wake_ns; read_ns = t.read_ns } }

module _ {F : Type 0} (fl : Floats F) (marshal : Sample F → Option Bytes) where
  -- The rest of a tick once the sample is in the ring.
  unfoldable pub pushed : Sampler F → Tick F → Option (Captures F) → Ring F → Sampler F
  pushed s t observed ring =
      let smp = tick_sample s t in
      record {
        ring = ring;
        rate = s.rate;
        top_k = s.top_k;
        seq = smp.seq;
        slips = if ltb (period s) t.elapsed_ns then u64 (s.slips + 1) else s.slips;
        ticks = u64 (s.ticks + 1);
        captures = when_on (after_push ring smp.seq) observed;
        prev = t.cur;
        resets = 0;
      }

  unfoldable pub after_tick : Option (Ring F) → Sampler F → Tick F → Option (Captures F) → Run F
  after_tick none s t observed =
      failed (record s { seq = (tick_sample s t).seq; captures = observed; resets = 0 })
  after_tick (some ring) s t observed = running (pushed s t observed ring)

  -- The loop's body at a tick: evaluate the triggers, push, collect what is due. An error of the
  -- push ends the loop.
  unfoldable pub tick : Sampler F → Tick F → Run F
  tick s t =
      let smp = tick_sample s t in
      after_tick (push fl marshal smp s.ring) s t (when_on (observe fl smp) s.captures)

  unfoldable pub step : Sampler F → Event F → Run F
  step s (ticked t) = tick s t
  step s read_failed = failed s
  step s stopped = finished (record s { captures = when_on (finalize s.ring) s.captures })

  -- The loop over a list of events; what comes after it has returned is not read.
  unfoldable pub run : Run F → List (Event F) → Run F
  run r [] = r
  run (running s) (e ∷ es) = run (step s e) es
  run (finished s) (e ∷ es) = finished s
  run (failed s) (e ∷ es) = failed s
