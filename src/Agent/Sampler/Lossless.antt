-- ===== src/Agent/Sampler/Lossless.antt =====
-- A triggered capture loses nothing: the loop runs on after a trigger until the last sample of its
-- window is pushed, and the window collected then is complete.
use mikroscope.Common.{
  ◌⊎◌, ◌+◌, ◌≤◌, ◌<◌, List, [], ◌∷◌, map, Option, none, some, Bytes, ◌≡◌, refl, sym, ◌∙◌, ap, arith,
  length, u64, u64_mod,
}
use mikroscope.Sample.Floats.{Floats}
use mikroscope.Sample.Types.{Sample}
use mikroscope.Agent.Ring.{Entry, store, push, push_line, entry_of}
use mikroscope.Agent.Ring.Numbered.{Numbered}
use mikroscope.Agent.Ring.History.{length-store}
use mikroscope.Agent.Captures.Types.{Capture, Captures}
use mikroscope.Agent.Captures.Fire.{observe}
use mikroscope.Agent.Captures.Collect.{after_push, store_window, window}
use mikroscope.Agent.Captures.Window.{
  Waiting, window_full, after_push-due, after_push-early, observe-Waiting,
}
use mikroscope.Agent.Captures.Room.{Retained, Refused, store_window-outcome}
use mikroscope.Agent.Captures.Untouched.{SameStore, observe-SameStore}
use mikroscope.Agent.Captures.Budget.{held_bytes}
use mikroscope.Agent.Sampler.{
  Sampler, Tick, ticked, running, when_on, tick_sample, pushed, after_tick, tick, step, run,
}
use mikroscope.Agent.Sampler.Invariant.{Sound, tick_sample-seq, step-SoundRun}

module _ {F : Type 0} where
  -- What the last tick of a window leaves, when `c` were the captures before: the whole window, from
  -- its first sample to its last, is retained or refused, and nothing is pending.
  abbrev pub Collected : Capture F → Captures F → Sampler F → Type 0
  Collected cp c s =
      (c' : Captures F) × (es : List (Entry F)) × (s.captures ≡ some c')
      × (c'.pending ≡ none)
      × Numbered cp.first_seq es
      × (length es ≡ c.pre + c.post + 1)
      × (cp.first_seq + length es ≡ cp.last_seq + 1)
      × (Retained cp es c c' ⊎ Refused es c c')

  Outcome-same :
      (cp : Capture F) (es : List (Entry F)) (c d c' : Captures F)
      → SameStore c d
      → Retained cp es d c' ⊎ Refused es d c'
      → Retained cp es c c' ⊎ Refused es c c'
  Outcome-same cp es c d c' same o = rw (same.same_held, same.same_cfg, same.same_refused) at o

  Collected-same :
      (cp : Capture F) (c d : Captures F) (s : Sampler F)
      → SameStore c d
      → Collected cp d s
      → Collected cp c s
  Collected-same cp c d s same (c', es, at, free, numbered, size, span, o) = (
    c',
    es,
    at,
    free,
    numbered,
    omega (arith, size, same.same_pre, same.same_post),
    span,
    Outcome-same cp es c d c' same o,
  )

module _ {F : Type 0} (fl : Floats F) (marshal : Sample F → Option Bytes) where
  -- The encoder has a line for every sample.
  abbrev pub Encodes : Type 0
  Encodes = (s : Sample F) → (line : Bytes) × (marshal s ≡ some line)

  -- The state after a tick whose sample was encoded.
  abbrev next : Encodes → Sampler F → Tick F → Sampler F
  next enc s t =
      let smp = tick_sample s t in
      pushed fl marshal s t (when_on (observe fl smp) s.captures)
        (store (entry_of fl marshal smp (enc smp).0) s.ring)

  step-next :
      (enc : Encodes) (s : Sampler F) (t : Tick F)
      → step fl marshal s (ticked t) ≡ running (next enc s t)
  unfolding step tick after_tick push push_line
  step-next enc s t = rw (enc (tick_sample s t)).1 refl

  next-Sound :
      (enc : Encodes) (s : Sampler F) (t : Tick F)
      → Sound s
      → s.seq + 2 < u64_mod
      → Sound (next enc s t)
  next-Sound enc s t h bound =
      rw (step-next enc s t) at (step-SoundRun fl marshal s (ticked t) h bound)

  next-seq : (enc : Encodes) (s : Sampler F) (t : Tick F) → (next enc s t).seq ≡ u64 (s.seq + 1)
  unfolding pushed
  next-seq enc s t = tick_sample-seq s t

  next-buf :
      (enc : Encodes) (s : Sampler F) (t : Tick F)
      → length (next enc s t).ring.buf ≡ length s.ring.buf
  unfolding pushed
  next-buf enc s t =
      length-store (entry_of fl marshal (tick_sample s t) (enc (tick_sample s t)).0) s.ring

  next-captures :
      (enc : Encodes) (s : Sampler F) (t : Tick F) (c : Captures F)
      → s.captures ≡ some c
      → (next enc s t).captures
        ≡ some (after_push (next enc s t).ring (next enc s t).seq (observe fl (tick_sample s t) c))
  unfolding pushed
  next-captures enc s t c q = rw q refl

  collects :
      (enc : Encodes) (t : Tick F) (s : Sampler F) (c : Captures F) (cp : Capture F)
      → Sound s
      → s.captures ≡ some c
      → Waiting cp c
      → s.seq + 1 ≡ cp.last_seq
      → cp.last_seq + 2 < u64_mod
      → c.pre + c.post + 1 ≤ length s.ring.buf
      → Collected cp c (next enc s t)
  collects enc t s c cp h some_c w last bound fits =
      let o = observe fl (tick_sample s t) c in
      let w' = observe-Waiting fl (tick_sample s t) cp c w in
      let h' = next-Sound enc s t h (omega arith) in
      let now : (next enc s t).seq ≡ cp.last_seq = omega (arith, next-seq enc s t) in
      let newest : (next enc s t).ring.last ≡ cp.last_seq = h'.newest ∙ now in
      let r = (next enc s t).ring in
      let span : o.pre + o.post ≡ c.pre + c.post = omega (arith, w.spans, w'.spans) in
      let room : o.pre + o.post + 1 ≤ r.count =
        omega (arith, h'.held.filled, next-buf enc s t, w'.spans, w'.first) in
      let full =
        window_full cp (o.pre + o.post + 1) r h'.formed h'.held room (omega (arith, w'.spans))
          (sym newest) in
      let es = window cp (o.pre + o.post + 1) r in
      let same = observe-SameStore fl (tick_sample s t) c in
      let exact : o.bytes ≡ held_bytes o.held =
        same.same_bytes ∙ (rw some_c at h.budget).exact ∙ ap held_bytes (sym same.same_held) in
      let stored = store_window-outcome cp es (record o { pending = none }) exact full.1 in
      Collected-same cp c o (next enc s t) same (
        store_window cp es (record o { pending = none }),
        es,
        next-captures enc s t c some_c
            ∙ ap (λ k. some (after_push r k o)) now
            ∙ ap some (after_push-due cp r o w'.pends),
        stored.0,
        full.0,
        full.1,
        omega (arith, full.1, w'.spans),
        stored.1,
      )

  -- If every sample can be encoded, and the sampler is sound with a capture pending whose window is
  -- `pre + post + 1` numbers from 1 on or later, fits the ring and ends below 2 ^ 64 - 2: the ticks up
  -- to the window's last sample, whatever they read, however late they run and whichever conditions
  -- they meet, keep the loop running, and with the last one the window is whole, the `pre + post + 1`
  -- samples numbered from its first one to its last, none missing, and nothing is pending. It is
  -- retained with those samples as the newest capture, complete and under its identifier, after the
  -- captures held before, of which only the policy `last` may have evicted some from the front; or it
  -- is refused, which changes nothing that is held, is counted under budget, and happens only if its
  -- lines are more than the budget alone, or, under another policy, with those held.
  pub run-Collected :
      (enc : Encodes) (t : Tick F) (ts : List (Tick F)) (s : Sampler F) (c : Captures F)
      (cp : Capture F)
      → Sound s
      → s.captures ≡ some c
      → Waiting cp c
      → s.seq + length ts + 1 ≡ cp.last_seq
      → cp.last_seq + 2 < u64_mod
      → c.pre + c.post + 1 ≤ length s.ring.buf
      → (s' : Sampler F) × (run fl marshal (running s) (map ticked (t ∷ ts)) ≡ running s')
        × Collected cp c s'
  unfolding run
  run-Collected enc t [] s c cp h some_c w last bound fits =
      (next enc s t, step-next enc s t, collects enc t s c cp h some_c w (omega arith) bound fits)
  run-Collected enc t (u ∷ ts) s c cp h some_c w last bound fits =
      let o = observe fl (tick_sample s t) c in
      let w' = observe-Waiting fl (tick_sample s t) cp c w in
      let h' = next-Sound enc s t h (omega arith) in
      let early : (next enc s t).seq < cp.last_seq = omega (arith, next-seq enc s t) in
      let still : (next enc s t).captures ≡ some o =
        next-captures enc s t c some_c
        ∙ ap some (after_push-early cp (next enc s t).ring (next enc s t).seq o w'.pends early) in
      let rest =
        run-Collected enc u ts (next enc s t) o cp h' still w' (omega (arith, next-seq enc s t))
          bound (omega (arith, w.spans, w'.spans, next-buf enc s t)) in
      (
        rest.0,
        ap (λ r. run fl marshal r (map ticked (u ∷ ts))) (step-next enc s t) ∙ rest.1,
        Collected-same cp c o rest.0 (observe-SameStore fl (tick_sample s t) c) rest.2,
      )
