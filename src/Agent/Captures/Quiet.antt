-- ===== src/Agent/Captures/Quiet.antt =====
-- The refractory window and the accounting of fires.
use mikroscope.Common.{
  ℕ, ◌+◌, ◌≤◌, ◌<◌, List, [], ◌∷◌, Option, none, some, true, false, ◌≡◌, ◌≢◌, refl, arith, Bytes, ℤ,
  lookup, lookup-insert, lookup-insert_self, bump, count_at, codes, u64, ◌++◌, ◌⊎◌, inl, inr,
  Option-cases, Bool-cases, sym, ap, ◌∙◌, bytes_eq_iff, u64_mod, sub64, lt→ltb, ltb, ltb→lt, ltb→le,
}
use mikroscope.Sample.Types.{Sample}
use mikroscope.Agent.Ring.{Ring, Entry}
use mikroscope.Agent.Captures.Types.{Condition, Capture, Captures}
use mikroscope.Agent.Captures.Fire.{
  fire, fire_pending, arm, is_quiet, refractory_key, pending_key, remember,
}
use mikroscope.Agent.Captures.Collect.{
  collect, window, retain, collect_due, collect_pending, store_window, after_push, finalize, delete,
  serve,
}

-- One more under a key, and every other count as it was.
abbrev pub CountedOnce : Bytes → List (Bytes × ℕ) → List (Bytes × ℕ) → Type 0
CountedOnce k m m' =
    (count_at k m' ≡ count_at k m + 1) × ((j : Bytes) → (k ≡ j) ⊎ (lookup j m' ≡ lookup j m))

bump-CountedOnce :
    (k : Bytes) (m : List (Bytes × ℕ)) → count_at k m + 1 < u64_mod → CountedOnce k m (bump k m)
unfolding bump
bump-CountedOnce k m h = (
  ap (λ o. elim o [ none ↦ 0 | some n ↦ n ]) (lookup-insert_self k (u64 (count_at k m + 1)) m)
      ∙ omega arith,
  λ j. ground (arith, lookup-insert k j (u64 (count_at k m + 1)) m, bytes_eq_iff k j),
)

no_value : {n : ℕ} → ◌≡◌ {A = Option ℕ} none (some n) → ⊥
no_value h = cc

same_value : {m n : ℕ} → ◌≡◌ {A = Option ℕ} (some m) (some n) → m ≡ n
same_value h = cc

module _ {F : Type 0} where
  -- The condition fired less than the refractory time ago, counted in samples.
  abbrev pub Near : Bytes → ℕ → Captures F → Type 0
  Near cause seq c = (last : ℕ) × (lookup cause c.last_fire ≡ some last) × (sub64 seq last < c.refr)

  is_quiet-Near :
      (cause : Bytes) (seq : ℕ) (c : Captures F)
      → (Near cause seq c × (is_quiet (lookup cause c.last_fire) seq c.refr ≡ true))
        ⊎ ((Near cause seq c → ⊥) × (is_quiet (lookup cause c.last_fire) seq c.refr ≡ false))
  is_quiet-Near cause seq c = elim (Option-cases (lookup cause c.last_fire)) [
    | inl e ↦ inr (λ near. no_value (sym e ∙ near.1), rw e refl)
    | inr (last, e) ↦ elim (Bool-cases (ltb (sub64 seq last) c.refr)) [
      | inl t ↦ inl ((last, e, ltb→lt _ _ t), rw e t)
      | inr f ↦ inr (
        λ near.
            let same : last ≡ near.0 = same_value (sym e ∙ near.1) in
            let far = ltb→le _ _ f in
            let close : sub64 seq last < c.refr = rw same near.2 in absurd (omega arith),
        rw e f,
      )
    ]
  ]

  -- Every call of `fire` is counted once, under one key, by what it finds: as a suppression with the
  -- reason refractory if the condition last fired less than the refractory time ago, else as one with
  -- the reason pending if a capture is pending, else as a fire of the condition; every other count of
  -- both maps is as it was. (The three counts are below 2 ^ 64 - 1.)
  pub fire_accounted :
      (zero : F) (cause : Bytes) (cond : Option (Condition F)) (field : Bytes) (value : F) (seq : ℕ)
      (mono wall : ℤ) (c : Captures F)
      → count_at cause c.fired + 1 < u64_mod
      → count_at (cause ++ 0 ∷ codes "refractory") c.suppressed + 1 < u64_mod
      → count_at (cause ++ 0 ∷ codes "pending") c.suppressed + 1 < u64_mod
      → let c' = fire zero cause cond field value seq mono wall c in
        (Near cause seq c
          × (c'.fired ≡ c.fired)
          × CountedOnce (cause ++ 0 ∷ codes "refractory") c.suppressed c'.suppressed)
        ⊎ ((Near cause seq c → ⊥)
            × ((p : Capture F) × (c.pending ≡ some p))
            × (c'.fired ≡ c.fired)
            × CountedOnce (cause ++ 0 ∷ codes "pending") c.suppressed c'.suppressed)
        ⊎ ((Near cause seq c → ⊥)
            × (c.pending ≡ none)
            × CountedOnce cause c.fired c'.fired
            × (c'.suppressed ≡ c.suppressed))
  unfolding fire fire_pending arm
  fire_accounted zero cause cond field value seq mono wall c hf hr hp =
      elim (is_quiet-Near cause seq c) [
        | inl (near, q) ↦
            inl (near, rw q refl, rw q (bump-CountedOnce (refractory_key cause) c.suppressed hr))
        | inr (far, q) ↦ elim (Option-cases c.pending) [
          | inl e ↦
              inr (inr (far, e, rw (q, e) (bump-CountedOnce cause c.fired hf), rw (q, e) refl))
          | inr (p, e) ↦ inr (
              inl (
                far,
                (p, e),
                rw (q, e) refl,
                rw (q, e) (bump-CountedOnce (pending_key cause) c.suppressed hp),
              ))
        ]
      ]

  -- What may happen between two fires of a condition: fires of others, pushes, the end of the
  -- sampler, deletions, downloads and the bookkeeping of a sample.
  pub data Other (cause : Bytes) : Captures F → Captures F → Type 0 where
    other_fire :
        (zero : F) (other : Bytes) (cond : Option (Condition F)) (field : Bytes) (value : F)
        (seq : ℕ) (mono wall : ℤ) (c : Captures F)
        → other ≢ cause
        → Other cause c (fire zero other cond field value seq mono wall c)
    pushed : (ring : Ring F) (seq : ℕ) (c : Captures F) → Other cause c (after_push ring seq c)
    stopped : (ring : Ring F) (c : Captures F) → Other cause c (finalize ring c)
    deleted : (id : ℕ) (c : Captures F) → Other cause c (delete id c).0
    downloaded : (n : ℕ) (c : Captures F) → Other cause c (serve n c)
    remembered : (s : Sample F) (c : Captures F) → Other cause c (remember s c)

  pub data Others (cause : Bytes) (c : Captures F) : Captures F → Type 0 where
    here : Others cause c c
    next : {d e : Captures F} → Others cause c d → Other cause d e → Others cause c e

  -- The quiet time and what a condition's last fire was are left alone by the other steps.
  record SameQuiet (cause : Bytes) (c d : Captures F) : Type 0 where
    same_fire : lookup cause d.last_fire ≡ lookup cause c.last_fire
    same_refr : d.refr ≡ c.refr

  fire-SameQuiet :
      (cause : Bytes) (zero : F) (other : Bytes) (cond : Option (Condition F)) (field : Bytes)
      (value : F) (seq : ℕ) (mono wall : ℤ) (c : Captures F)
      → other ≢ cause
      → SameQuiet cause c (fire zero other cond field value seq mono wall c)
  unfolding fire fire_pending arm
  fire-SameQuiet cause zero other cond field value seq mono wall c ne =
      ground (arith, lookup-insert other cause seq c.last_fire, bytes_eq_iff other cause)

  store_window-SameQuiet :
      (cause : Bytes) (cp : Capture F) (es : List (Entry F)) (c : Captures F)
      → SameQuiet cause c (store_window cp es c)
  unfolding store_window retain
  store_window-SameQuiet cause cp [] c = record { same_fire = refl; same_refr = refl }
  store_window-SameQuiet cause cp (e ∷ es) c = ground arith

  collect-SameQuiet :
      (cause : Bytes) (cp : Capture F) (ring : Ring F) (c : Captures F)
      → SameQuiet cause c (collect cp ring c)
  unfolding collect
  collect-SameQuiet cause cp ring c =
      let kept =
        store_window-SameQuiet cause cp (window cp (c.pre + c.post + 1) ring)
          (record c { pending = none }) in
      record { same_fire = kept.same_fire; same_refr = kept.same_refr }

  due-SameQuiet :
      (cause : Bytes) (p : Option (Capture F)) (ring : Ring F) (seq : ℕ) (c : Captures F)
      → SameQuiet cause c (collect_due p ring seq c)
  unfolding collect_due
  due-SameQuiet cause none ring seq c = record { same_fire = refl; same_refr = refl }
  due-SameQuiet cause (some cp) ring seq c = ground (arith, collect-SameQuiet cause cp ring c)

  pending-SameQuiet :
      (cause : Bytes) (p : Option (Capture F)) (ring : Ring F) (c : Captures F)
      → SameQuiet cause c (collect_pending p ring c)
  unfolding collect_pending
  pending-SameQuiet cause none ring c = record { same_fire = refl; same_refr = refl }
  pending-SameQuiet cause (some cp) ring c = collect-SameQuiet cause cp ring c

  Other-SameQuiet : {cause : Bytes} {c d : Captures F} → Other cause c d → SameQuiet cause c d
  unfolding after_push finalize delete serve remember
  Other-SameQuiet {cause} (other_fire zero other cond field value seq mono wall c ne) =
      fire-SameQuiet cause zero other cond field value seq mono wall c ne
  Other-SameQuiet {cause} (pushed ring seq c) = due-SameQuiet cause c.pending ring seq c
  Other-SameQuiet {cause} (stopped ring c) = pending-SameQuiet cause c.pending ring c
  Other-SameQuiet {cause} (deleted id c) = ground arith
  Other-SameQuiet {cause} (downloaded n c) = record { same_fire = refl; same_refr = refl }
  Other-SameQuiet {cause} (remembered s c) = record { same_fire = refl; same_refr = refl }

  Others-SameQuiet : {cause : Bytes} {c d : Captures F} → Others cause c d → SameQuiet cause c d
  Others-SameQuiet here = record { same_fire = refl; same_refr = refl }
  Others-SameQuiet (next r s) = ground (arith, Others-SameQuiet r, Other-SameQuiet s)

  fire_quiet :
      (zero : F) (cause : Bytes) (cond : Option (Condition F)) (field : Bytes) (value : F) (seq : ℕ)
      (mono wall : ℤ) (c : Captures F)
      → is_quiet (lookup cause c.last_fire) seq c.refr ≡ true
      → fire zero cause cond field value seq mono wall c
        ≡ record c { suppressed = bump (refractory_key cause) c.suppressed }
  unfolding fire
  fire_quiet zero cause cond field value seq mono wall c q = rw q refl

  fire_armed :
      (zero : F) (cause : Bytes) (cond : Option (Condition F)) (field : Bytes) (value : F) (seq : ℕ)
      (mono wall : ℤ) (c : Captures F)
      → is_quiet (lookup cause c.last_fire) seq c.refr ≡ false
      → c.pending ≡ none
      → let c' = fire zero cause cond field value seq mono wall c in
        (lookup cause c'.last_fire ≡ some seq) × (c'.refr ≡ c.refr)
  unfolding fire fire_pending arm
  fire_armed zero cause cond field value seq mono wall c loud free =
      ground (arith, lookup-insert_self cause seq c.last_fire)

  -- After a condition has fired at `seq`, whatever else happens in between, a fire of the same
  -- condition at a later sample less than the refractory window away only counts a suppression:
  -- no capture is armed, no marker is added, and the fire before stays the last one.
  pub fire_refractory :
      (cause : Bytes) (c d : Captures F) (zero : F) (cond cond' : Option (Condition F))
      (field field' : Bytes) (value value' : F) (seq seq' : ℕ) (mono wall mono' wall' : ℤ)
      → is_quiet (lookup cause c.last_fire) seq c.refr ≡ false
      → c.pending ≡ none
      → Others cause (fire zero cause cond field value seq mono wall c) d
      → seq ≤ seq'
      → seq' < u64_mod
      → seq' < seq + c.refr
      → fire zero cause cond' field' value' seq' mono' wall' d
        ≡ record d { suppressed = bump (refractory_key cause) d.suppressed }
  fire_refractory cause c d zero cond cond' field field' value value' seq seq' mono wall mono' wall'
        loud free steps le bound near =
      let (at, same) = fire_armed zero cause cond field value seq mono wall c loud free in
      let kept = Others-SameQuiet steps in
      let quiet : ltb (sub64 seq' seq) c.refr ≡ true =
        lt→ltb (sub64 seq' seq) c.refr (omega arith) in
      fire_quiet zero cause cond' field' value' seq' mono' wall' d
        (rw (kept.same_fire, kept.same_refr, at, same) quiet)
