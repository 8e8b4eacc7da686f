-- ===== src/Agent/Captures/Window.antt =====
-- The window a capture collects: when the ring still holds all of it, it is exactly the samples
-- from the first to the last sequence number of the capture.
use mikroscope.Common.{
  ℕ, ◌+◌, ◌-◌, ◌≤◌, List, [], ◌∷◌, Option, none, some, Bytes, ℤ, ◌≡◌, refl, arith, length,
  take_last, select, leb, ◌&&◌, le→leb, le→ltb, lt→ltb, length-drop, lookup, Bool-cases, inl, inr,
  ◌<◌,
}
use mikroscope.Sample.Floats.{Floats}
use mikroscope.Sample.Types.{Sample}
use mikroscope.Agent.Ring.{Entry, Ring}
use mikroscope.Agent.Ring.View.{WellFormed, contents}
use mikroscope.Agent.Ring.Store.{length-contents}
use mikroscope.Agent.Ring.Numbered.{Numbered, Consecutive, Numbered-drop}
use mikroscope.Agent.Ring.Read.{tail-contents}
use mikroscope.Agent.Captures.Types.{Condition, Capture, Captures}
use mikroscope.Agent.Captures.Evaluate.{evaluate}
use mikroscope.Agent.Captures.Fire.{
  fire, fire_pending, observe, observe_all, observe_one, react, remember, is_quiet,
}
use mikroscope.Agent.Captures.Collect.{window, collect, collect_due, after_push, store_window}

module _ {F : Type 0} where
  select-all :
      (lo hi s : ℕ) (es : List (Entry F))
      → Numbered s es
      → lo ≤ s
      → s + length es ≤ hi + 1
      → select (λ e. leb lo e.seq && leb e.seq hi) es ≡ es
  select-all lo hi s [] h p q = refl
  select-all lo hi s (e ∷ es) h p q =
      rw
        (
          le→leb lo e.seq (omega (arith, h.0)),
          le→leb e.seq hi (omega (arith, h.0)),
          select-all lo hi (s + 1) es h.1 (omega arith) (omega arith),
        )
        refl

  -- A pending capture that waits for its last sample: its window is `pre + post + 1` samples.
  pub record Waiting (cp : Capture F) (c : Captures F) : Type 0 where
    pub pends : c.pending ≡ some cp
    pub spans : cp.first_seq + c.pre + c.post ≡ cp.last_seq
    pub first : 1 ≤ cp.first_seq

  pub window_full :
      (cp : Capture F) (n : ℕ) (r : Ring F)
      → WellFormed r
      → Consecutive r
      → n ≤ r.count
      → cp.first_seq + n ≡ r.last + 1
      → cp.last_seq ≡ r.last
      → Numbered cp.first_seq (window cp n r) × (length (window cp n r) ≡ n)
  unfolding window
  window_full cp n r w c le first last =
      let es = take_last n (contents r) in
      let skipped : r.last + 1 - r.count + (length (contents r) - n) ≡ cp.first_seq =
        omega (arith, length-contents r, c.counted) in
      let numbered : Numbered cp.first_seq es =
        rw skipped at (
          Numbered-drop (r.last + 1 - r.count) (length (contents r) - n) (contents r) c.numbered) in
      let size : length es ≡ n =
        omega (arith, length-drop (length (contents r) - n) (contents r), length-contents r) in
      rw
        (
          tail-contents n r w,
          select-all cp.first_seq cp.last_seq cp.first_seq es numbered (omega arith) (omega arith),
        )
        (numbered, size)

  pub fire-Waiting :
      (zero : F) (cause : Bytes) (cond : Option (Condition F)) (field : Bytes) (value : F) (seq : ℕ)
      (mono wall : ℤ) (cp : Capture F) (c : Captures F)
      → Waiting cp c
      → Waiting cp (fire zero cause cond field value seq mono wall c)
  unfolding fire fire_pending
  fire-Waiting zero cause cond field value seq mono wall cp c w =
      elim (Bool-cases (is_quiet (lookup cause c.last_fire) seq c.refr)) [
        | inl quiet ↦ rw quiet (record { pends = w.pends; spans = w.spans; first = w.first })
        | inr loud ↦ rw (loud, w.pends) (record { pends = refl; spans = w.spans; first = w.first })
      ]

  -- The push of the last sample of the window collects it.
  pub after_push-due :
      (cp : Capture F) (ring : Ring F) (c : Captures F)
      → c.pending ≡ some cp
      → after_push ring cp.last_seq c
        ≡ store_window cp (window cp (c.pre + c.post + 1) ring) (record c { pending = none })
  unfolding after_push collect_due collect
  after_push-due cp ring c p = rw (p, le→ltb cp.last_seq cp.last_seq (omega arith)) refl

  -- A push before that leaves the evaluator as it is.
  pub after_push-early :
      (cp : Capture F) (ring : Ring F) (seq : ℕ) (c : Captures F)
      → c.pending ≡ some cp
      → seq < cp.last_seq
      → after_push ring seq c ≡ c
  unfolding after_push collect_due
  after_push-early cp ring seq c p lt = rw (p, lt→ltb seq cp.last_seq lt) refl

module _ {F : Type 0} (fl : Floats F) where
  react-Waiting :
      (hit : Option (Bytes × F)) (cond : Condition F) (s : Sample F) (cp : Capture F)
      (c : Captures F)
      → Waiting cp c
      → Waiting cp (react fl hit cond s c)
  unfolding react
  react-Waiting none cond s cp c w = w
  react-Waiting (some (field, value)) cond s cp c w =
      fire-Waiting (fl.of_ℕ 0) cond.name (some cond) field value s.seq s.mono_ns s.wall_ns cp c w

  observe_all-Waiting :
      (conds : List (Condition F)) (s : Sample F) (period : F) (cp : Capture F) (c : Captures F)
      → Waiting cp c
      → Waiting cp (observe_all fl conds s period c)
  unfolding observe_all observe_one
  observe_all-Waiting [] s period cp c w = w
  observe_all-Waiting (cond ∷ conds) s period cp c w =
      observe_all-Waiting conds s period cp (observe_one fl cond s period c)
        (react-Waiting (evaluate fl cond c s period) cond s cp c w)

  -- Evaluating a sample leaves a pending capture as it is, whichever conditions hold.
  pub observe-Waiting :
      (s : Sample F) (cp : Capture F) (c : Captures F) → Waiting cp c → Waiting cp (observe fl s c)
  unfolding observe remember
  observe-Waiting s cp c w =
      let period = fl.div (fl.of_ℕ 1000000000) (fl.of_ℕ c.cfg.rate_hz) in
      let w' = observe_all-Waiting c.cfg.conditions s period cp c w in
      record { pends = w'.pends; spans = w'.spans; first = w'.first }
