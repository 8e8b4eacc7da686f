-- ===== src/Agent/Ring/Numbered.antt =====
-- Sequence numbers: what the ring holds has no hole, and a push of the next sample keeps it so.
use native.Mathlib.Nat.{add-zero}
use mathlib.Core.Path.{subst}
use mikroscope.Common.{
  min, length-set, ℕ, zero, suc, ◌+◌, ◌-◌, ◌≤◌, ◌<◌, List, [], ◌∷◌, ◌++◌, ◌≡◌, refl, sym, arith,
  length, drop, select, ltb, if◌then◌else◌, inl, inr, Bool, Bool-cases, u64_mod, ltb→lt, ltb→le,
  length-append,
}
use mikroscope.Agent.Ring.{Entry, Ring, read_run, new_ring, store}
use mikroscope.Agent.Ring.View.{WellFormed, next_step, contents}
use mikroscope.Agent.Ring.Store.{contents-store, length-contents}
use mikroscope.Agent.Ring.Runs.{drop-nil}

module _ {F : Type 0} where
  -- Sequence numbers one after the other, from the given one.
  abbrev pub Numbered : ℕ → List (Entry F) → Type 0
  Numbered s [] = Unit
  Numbered s (e ∷ es) = (e.seq ≡ s) × Numbered (s + 1) es

  -- The ring holds the newest samples with no hole among them, and the numbers do not wrap.
  pub record Consecutive (r : Ring F) : Type 0 where
    pub counted : r.count ≤ r.last
    pub filled : r.count ≡ min r.last (length r.buf)
    pub bounded : r.last + 1 < u64_mod
    pub numbered : Numbered (r.last + 1 - r.count) (contents r)

  pub Numbered-append :
      (s : ℕ) (es : List (Entry F)) (e : Entry F)
      → Numbered s es
      → e.seq ≡ s + length es
      → Numbered s (es ++ e ∷ [])
  Numbered-append s [] e h q = (omega arith, tt)
  Numbered-append s (x ∷ es) e h q = (h.0, Numbered-append (s + 1) es e h.1 (omega arith))

  pub Numbered-drop : (s n : ℕ) (es : List (Entry F)) → Numbered s es → Numbered (s + n) (drop n es)
  Numbered-drop s zero es h = rw add-zero h
  Numbered-drop s (suc n) [] h = tt
  Numbered-drop s (suc n) (e ∷ es) h =
      subst (λ t. Numbered t (drop n es)) (next_step s n) (Numbered-drop (s + 1) n es h.1)

  pub select-newer :
      (s after : ℕ) (es : List (Entry F))
      → Numbered s es
      → select (λ e. ltb after e.seq) es ≡ drop (after + 1 - s) es
  select-newer s after [] h = sym (drop-nil (after + 1 - s))
  select-newer s after (e ∷ es) h = elim (Bool-cases (ltb after e.seq)) [
    | inl newer ↦
        let lt : after < e.seq = ltb→lt _ _ newer in
        let none_skipped : after + 1 - s ≡ 0 = omega arith in
        let none_left : after + 1 - (s + 1) ≡ 0 = omega arith in
        rw (newer, none_skipped, select-newer (s + 1) after es h.1, none_left) refl
    | inr older ↦
        let le : e.seq ≤ after = ltb→le _ _ older in
        let one_skipped : after + 1 - s ≡ suc (after + 1 - (s + 1)) = omega arith in
        rw (older, one_skipped) (select-newer (s + 1) after es h.1)
  ]

  pub new_ring-Consecutive : (capacity : ℕ) → Consecutive (new_ring {F = F} capacity)
  unfolding new_ring contents read_run
  new_ring-Consecutive capacity = record {
    counted = omega arith;
    filled = omega arith;
    bounded = omega arith;
    numbered = tt;
  }

  -- A push of the next sample keeps the numbers without a hole.
  pub store-Consecutive :
      (e : Entry F) (r : Ring F)
      → WellFormed r
      → Consecutive r
      → e.seq ≡ r.last + 1
      → r.last + 2 < u64_mod
      → Consecutive (store e r)
  unfolding store
  store-Consecutive e r w c next bound = record {
    counted = ground arith;
    filled = ground (arith, length-set r.buf r.head e);
    bounded = omega arith;
    numbered =
        rw (contents-store e r w, length-append, length-contents)
          (renumbered (ltb r.count (length r.buf)) refl);
  }
    where
      held : Numbered (r.last + 1 - r.count) (contents r ++ e ∷ [])
      held =
          Numbered-append (r.last + 1 - r.count) (contents r) e c.numbered
            (rw length-contents (omega arith))

      renumbered :
          (b : Bool)
          → ltb r.count (length r.buf) ≡ b
          → Numbered
              (e.seq + 1 - (if b then r.count + 1 else r.count))
              (drop (r.count + 1 - length r.buf) (contents r ++ e ∷ []))
      renumbered b q =
          subst (λ t. Numbered t (drop (r.count + 1 - length r.buf) (contents r ++ e ∷ [])))
            (ground arith)
            (Numbered-drop (r.last + 1 - r.count) (r.count + 1 - length r.buf)
              (contents r ++ e ∷ []) held)
