-- ===== src/Agent/Sampler/Invariant.antt =====
-- What holds of the sampler between two events, whatever is read and however late it runs.
use mikroscope.Common.{
  ℕ, ◌+◌, ◌≤◌, ◌<◌, List, [], ◌∷◌, Option, none, some, Bytes, ◌≡◌, refl, ◌∙◌, arith, length, u64,
  u64_mod,
}
use mikroscope.Sample.Floats.{Floats}
use mikroscope.Sample.Types.{Raw, Sample}
use mikroscope.Sample.Delta.{delta, differences}
use mikroscope.Agent.Ring.{Ring, new_ring, push, push-store}
use mikroscope.Agent.Ring.View.{WellFormed}
use mikroscope.Agent.Ring.Store.{last-store, store-WellFormed, new_ring-WellFormed}
use mikroscope.Agent.Ring.Numbered.{Consecutive, store-Consecutive, new_ring-Consecutive}
use mikroscope.Agent.Captures.Types.{Captures}
use mikroscope.Agent.Captures.Fire.{observe}
use mikroscope.Agent.Captures.Collect.{after_push, finalize}
use mikroscope.Agent.Captures.Budget.{WithinBudget, after_push-WithinBudget, finalize-WithinBudget}
use mikroscope.Agent.Captures.Observe.{observe-WithinBudget}
use mikroscope.Agent.Sampler.{
  Sampler, Tick, Event, ticked, read_failed, stopped, Run, running, finished, failed, when_on,
  new_sampler, tick_sample, pushed, after_tick, tick, step, run,
}

module _ {F : Type 0} where
  -- A property of the evaluator, where there is one.
  abbrev pub When : (Captures F → Type 0) → Option (Captures F) → Type 0
  When P none = Unit
  When P (some c) = P c

  -- The ring is valid and holds consecutive numbers that end at the newest sample's, and the
  -- captures are within their budget.
  pub record Sound (s : Sampler F) : Type 0 where
    pub formed : WellFormed s.ring
    pub held : Consecutive s.ring
    pub newest : s.ring.last ≡ s.seq
    pub budget : When WithinBudget s.captures

  -- A tick that failed to encode its sample has counted it, and the ring does not hold it.
  pub record Readable (s : Sampler F) : Type 0 where
    pub formed : WellFormed s.ring
    pub held : Consecutive s.ring
    pub budget : When WithinBudget s.captures

  abbrev pub SoundRun : Run F → Type 0
  SoundRun (running s) = Sound s
  SoundRun (finished s) = Sound s
  SoundRun (failed s) = Readable s

  pub tick_sample-seq : (s : Sampler F) (t : Tick F) → (tick_sample s t).seq ≡ u64 (s.seq + 1)
  unfolding tick_sample delta differences
  tick_sample-seq s t = refl

  pub when_on-When :
      (P : Captures F → Type 0) (f : Captures F → Captures F) (c : Option (Captures F))
      → ((d : Captures F) → P d → P (f d))
      → When P c
      → When P (when_on f c)
  when_on-When P f none keep h = tt
  when_on-When P f (some c) keep h = keep c h

module _ {F : Type 0} (fl : Floats F) (marshal : Sample F → Option Bytes) where
  pushed-Sound :
      (s : Sampler F) (t : Tick F) (observed : Option (Captures F)) (r : Ring F)
      → Sound s
      → s.seq + 2 < u64_mod
      → push fl marshal (tick_sample s t) s.ring ≡ some r
      → When WithinBudget observed
      → Sound (pushed fl marshal s t observed r)
  unfolding pushed
  pushed-Sound s t observed r h bound e w =
      let (en, num, same) = push-store fl marshal (tick_sample s t) s.ring r e in
      let number : en.seq ≡ s.ring.last + 1 = omega (arith, num, tick_sample-seq s t, h.newest) in
      let room : s.ring.last + 2 < u64_mod = omega (arith, h.newest) in
      record {
        formed = rw same (store-WellFormed en s.ring h.formed);
        held = rw same (store-Consecutive en s.ring h.formed h.held number room);
        newest = rw same (last-store en s.ring ∙ num);
        budget =
            when_on-When WithinBudget (after_push r (tick_sample s t).seq) observed
              (after_push-WithinBudget r (tick_sample s t).seq) w;
      }

  after_tick-SoundRun :
      (o : Option (Ring F)) (s : Sampler F) (t : Tick F) (observed : Option (Captures F))
      → Sound s
      → s.seq + 2 < u64_mod
      → push fl marshal (tick_sample s t) s.ring ≡ o
      → When WithinBudget observed
      → SoundRun (after_tick fl marshal o s t observed)
  unfolding after_tick
  after_tick-SoundRun none s t observed h bound e w = record {
    formed = h.formed;
    held = h.held;
    budget = w;
  }
  after_tick-SoundRun (some r) s t observed h bound e w = pushed-Sound s t observed r h bound e w

  pub step-SoundRun :
      (s : Sampler F) (e : Event F) → Sound s → s.seq + 2 < u64_mod → SoundRun (step fl marshal s e)
  unfolding step tick
  step-SoundRun s (ticked t) h bound =
      let smp = tick_sample s t in
      after_tick-SoundRun (push fl marshal smp s.ring) s t (when_on (observe fl smp) s.captures) h
        bound refl
        (when_on-When WithinBudget (observe fl smp) s.captures (observe-WithinBudget fl smp)
          h.budget)
  step-SoundRun s read_failed h bound = record {
    formed = h.formed;
    held = h.held;
    budget = h.budget;
  }
  step-SoundRun s stopped h bound = record {
    formed = h.formed;
    held = h.held;
    newest = h.newest;
    budget =
        when_on-When WithinBudget (finalize s.ring) s.captures (finalize-WithinBudget s.ring)
          h.budget;
  }

  -- The number of the newest sample grows by at most one with each event.
  abbrev seq_of : Run F → ℕ
  seq_of (running s) = s.seq
  seq_of (finished s) = s.seq
  seq_of (failed s) = s.seq

  seq_of-after_tick :
      (o : Option (Ring F)) (s : Sampler F) (t : Tick F) (observed : Option (Captures F))
      → seq_of (after_tick fl marshal o s t observed) ≤ s.seq + 1
  unfolding after_tick pushed
  seq_of-after_tick none s t observed = omega (arith, tick_sample-seq s t)
  seq_of-after_tick (some r) s t observed = omega (arith, tick_sample-seq s t)

  seq_of-step : (s : Sampler F) (e : Event F) → seq_of (step fl marshal s e) ≤ s.seq + 1
  unfolding step tick
  seq_of-step s (ticked t) =
      let smp = tick_sample s t in
      seq_of-after_tick (push fl marshal smp s.ring) s t (when_on (observe fl smp) s.captures)
  seq_of-step s read_failed = omega arith
  seq_of-step s stopped = omega arith

  -- Whatever the events (ticks of any reads and any lateness, a failed read, the stop), in any
  -- order and number below 2 ^ 64: a sampler that starts sound stays so. In its loop and after a
  -- stop its ring is valid and holds consecutive sample numbers that end at the newest one, and its
  -- captures are within their byte budget; after a failure the same but for the newest number.
  pub run-SoundRun :
      (es : List (Event F)) (r : Run F)
      → SoundRun r
      → seq_of r + length es + 2 < u64_mod
      → SoundRun (run fl marshal r es)
  unfolding run
  run-SoundRun [] r h bound = h
  run-SoundRun (e ∷ es) (running s) h bound =
      run-SoundRun es (step fl marshal s e) (step-SoundRun s e h (omega arith))
        (omega (arith, seq_of-step s e))
  run-SoundRun (e ∷ es) (finished s) h bound = h
  run-SoundRun (e ∷ es) (failed s) h bound = h

module _ {F : Type 0} where
  -- A new sampler over a new ring is sound, whatever its capacity and its first read.
  pub new_sampler-Sound :
      (capacity rate_hz top_k : ℕ) (captures : Option (Captures F)) (first : Raw F)
      → When WithinBudget captures
      → Sound (new_sampler (new_ring capacity) rate_hz top_k captures first)
  unfolding new_sampler new_ring
  new_sampler-Sound capacity rate_hz top_k captures first h = record {
    formed = new_ring-WellFormed capacity;
    held = new_ring-Consecutive capacity;
    newest = refl;
    budget = h;
  }
