-- ===== src/Derive/Spacing.antt =====
-- Detections of the same rule and key are apart by the refractory time, over any run of samples.
use mikroscope.Common.{
  sub_int64, sub_int64-NotNegative, NotNegative, ℕ, ◌+◌, ◌≤◌, List, [], ◌∷◌, ◌++◌, Option, none,
  some, Bool, true, false, not, Bytes, bytes_eq, bytes_eq_iff, ℤ, pos, ◌-ℤ◌, ◌≤ℤ◌, lebℤ, pos_part,
  neg_part, sub_ℕ, lookup, insert, lookup-insert, All, All-append, ◌≡◌, refl, sym, ap, ◌∙◌, arith,
  append_assoc, append-nil, Bool-cases, inl, inr, ◌↔◌, of_some,
}
use mikroscope.Sample.Floats.{Floats}
use mikroscope.Sample.Types.{Sample}
use mikroscope.Derive.Types.{Options, Detection, Stage}
use mikroscope.Derive.Fire.{Firing, fire_key, is_refractory, fire, emit}
use mikroscope.Derive.Evolves.{Evolves, done, fired, quiet, kernel-Evolves}
use mikroscope.Derive.Kernel.{kernel}
use mikroscope.Derive.Window.{new_stage}

le-sub : (r : ℤ) (a b : ℕ) → (r ≤ℤ sub_ℕ a b) ↔ (pos_part r + b ≤ a + neg_part r)
le-sub r a b = ground arith

-- From `r <= now - t` and `w <= t`, with `r` at least 0.
apart_trans : (r now t w : ℤ) → pos 0 ≤ℤ r → r ≤ℤ now -ℤ t → w ≤ℤ t → (r ≤ℤ now -ℤ w) × (w ≤ℤ now)
unfolding ◌-ℤ◌
apart_trans r now t w p a b =
    let near = (le-sub r (pos_part now + neg_part t) (neg_part now + pos_part t)).0 a in
    (
      (le-sub r (pos_part now + neg_part w) (neg_part now + pos_part w)).1 (omega (arith, near)),
      omega (arith, near),
    )

no_both : {a : Bool} → a ≡ false → a ≡ true → ⊥
no_both h k = cc

not_refused : (r now last : ℤ) → not (lebℤ r (now -ℤ last)) ≡ false → r ≤ℤ now -ℤ last
not_refused r now last h = ground arith

le_self : (t : ℤ) → t ≤ℤ t
le_self t = omega arith

same_time : {t u : ℤ} → ◌≡◌ {A = Option ℤ} (some t) (some u) → t ≡ u
same_time h = cc

-- The test of `fire` where no difference wraps.
no_wrap :
    (r now : ℤ) (o : Option ℤ)
    → NotNegative now
    → ((t : ℤ) → o ≡ some t → NotNegative t)
    → of_some false (λ last. not (lebℤ r (sub_int64 now last))) o
      ≡ of_some false (λ last. not (lebℤ r (now -ℤ last))) o
no_wrap r now none n h = refl
no_wrap r now (some t) n h = ap (λ d. not (lebℤ r d)) (sub_int64-NotNegative now t n (h t refl))

insert-stamps :
    (k j : Bytes) (v t : ℤ) (m : List (Bytes × ℤ))
    → NotNegative v
    → ((k : Bytes) (t : ℤ) → lookup k m ≡ some t → NotNegative t)
    → lookup j (insert k v m) ≡ some t
    → NotNegative t
insert-stamps k j v t m n h e = elim (Bool-cases (bytes_eq k j)) [
  | inl y ↦ let same : v ≡ t = same_time (rw (lookup-insert k j v m, y) at e) in rw (← same) n
  | inr y ↦ h j t (rw (lookup-insert k j v m, y) at e)
]

module _ {F : Type 0} where
  abbrev key_of : Detection F → Bytes
  key_of d = fire_key d.rule d.key

  -- Each later detection with the key of an earlier one comes so much later.
  abbrev pub Spaced : ℤ → List (Detection F) → Type 0
  Spaced r [] = Unit
  Spaced r (d ∷ ds) =
      All (λ e. bytes_eq (key_of d) (key_of e) ≡ true → r ≤ℤ e.wall_ns -ℤ d.wall_ns) ds
      × Spaced r ds

  Spaced-snoc :
      (r : ℤ) (ds : List (Detection F)) (e : Detection F)
      → Spaced r ds
      → All (λ d. bytes_eq (key_of d) (key_of e) ≡ true → r ≤ℤ e.wall_ns -ℤ d.wall_ns) ds
      → Spaced r (ds ++ e ∷ [])
  Spaced-snoc r [] e s a = (tt, tt)
  Spaced-snoc r (d ∷ ds) e s a =
      (All-append _ ds (e ∷ []) s.0 (a.0, tt), Spaced-snoc r ds e s.1 a.1)

  -- What `last_fire` tells of the detections so far: a key that is missing has none, and no detection
  -- of a key is later than the time that stands there.
  abbrev Told : List (Detection F) → Bytes → Option ℤ → Type 0
  Told ds k none = All (λ d. bytes_eq (key_of d) k ≡ false) ds
  Told ds k (some t) = All (λ d. bytes_eq (key_of d) k ≡ true → d.wall_ns ≤ℤ t) ds

  -- The invariant, for the detections of the earlier calls and of this one.
  pub record Kept (r : ℤ) (past : List (Detection F)) (f : Firing F) : Type 0 where
    pub time : f.stage.opts.refractory_ns ≡ r
    pub told : (k : Bytes) → Told (past ++ f.out) k (lookup k f.stage.last_fire)
    pub spaced : Spaced r (past ++ f.out)
    pub stamps : (k : Bytes) (t : ℤ) → lookup k f.stage.last_fire ≡ some t → NotNegative t

  Told-all :
      (ds : List (Detection F)) (k : Bytes) (o : Option ℤ) (r now : ℤ)
      → pos 0 ≤ℤ r
      → Told ds k o
      → of_some false (λ last. not (lebℤ r (now -ℤ last))) o ≡ false
      → All (λ d. bytes_eq (key_of d) k ≡ true → (r ≤ℤ now -ℤ d.wall_ns) × (d.wall_ns ≤ℤ now)) ds
  Told-all [] k o r now p t h = tt
  Told-all (d ∷ ds) k none r now p t h =
      (λ same. absurd (no_both t.0 same), Told-all ds k none r now p t.1 h)
  Told-all (d ∷ ds) k (some last) r now p t h = (
    λ same. apart_trans r now last d.wall_ns p (not_refused r now last h) (t.0 same),
    Told-all ds k (some last) r now p t.1 h,
  )

  Told-snoc :
      (ds : List (Detection F)) (d : Detection F) (j : Bytes) (o : Option ℤ)
      → bytes_eq (key_of d) j ≡ false
      → Told ds j o
      → Told (ds ++ d ∷ []) j o
  Told-snoc ds d j none n t = All-append _ ds (d ∷ []) t (n, tt)
  Told-snoc ds d j (some last) n t =
      All-append _ ds (d ∷ []) t ((λ same. absurd (no_both n same)), tt)

  abbrev Bounds : ℤ → ℤ → Bytes → List (Detection F) → Type 0
  Bounds r now k ds =
      All (λ d. bytes_eq (key_of d) k ≡ true → (r ≤ℤ now -ℤ d.wall_ns) × (d.wall_ns ≤ℤ now)) ds

  later :
      (r now : ℤ) (k : Bytes) (ds : List (Detection F)) → Bounds r now k ds → Told ds k (some now)
  later r now k [] b = tt
  later r now k (d ∷ ds) b = (λ same. (b.0 same).1, later r now k ds b.1)

  far :
      (r now : ℤ) (k : Bytes) (ds : List (Detection F))
      → Bounds r now k ds
      → All (λ d. bytes_eq (key_of d) k ≡ true → r ≤ℤ now -ℤ d.wall_ns) ds
  far r now k [] b = tt
  far r now k (d ∷ ds) b = (λ same. (b.0 same).0, far r now k ds b.1)

  -- The detection is given: what is told of each key is still right.
  given-Told :
      (r : ℤ) (ds : List (Detection F)) (d : Detection F) (m : List (Bytes × ℤ))
      → Bounds r d.wall_ns (key_of d) ds
      → ((k : Bytes) → Told ds k (lookup k m))
      → (j : Bytes) → Told (ds ++ d ∷ []) j (lookup j (insert (key_of d) d.wall_ns m))
  given-Told r ds d m b t j = elim (Bool-cases (bytes_eq (key_of d) j)) [
    | inl e ↦
        let same : key_of d ≡ j = (bytes_eq_iff (key_of d) j).0 e in
        rw (lookup-insert (key_of d) j d.wall_ns m, e)
          (All-append _ ds (d ∷ []) (later r d.wall_ns j ds (rw (← same) b))
            ((λ _. le_self d.wall_ns), tt))
    | inr e ↦ rw (lookup-insert (key_of d) j d.wall_ns m, e) (Told-snoc ds d j (lookup j m) e (t j))
  ]

  emit-Kept :
      (r : ℤ) (past : List (Detection F)) (d : Detection F) (f : Firing F)
      → pos 0 ≤ℤ r
      → NotNegative d.wall_ns
      → Kept r past f
      → Kept r past (emit d f)
  unfolding emit fire is_refractory
  emit-Kept r past d f p n v = elim (Bool-cases (is_refractory (key_of d) d.wall_ns f.stage)) [
    | inl e ↦ rw e (record { time = v.time; told = v.told; spaced = v.spaced; stamps = v.stamps })
    | inr e ↦
        let ds = past ++ f.out in
        let e' : of_some false (λ last. not (lebℤ r (d.wall_ns -ℤ last)))
              (lookup (key_of d) f.stage.last_fire)
            ≡ false =
          sym (no_wrap r d.wall_ns _ n (v.stamps (key_of d))) ∙ (rw (← v.time) e) in
        let b : Bounds r d.wall_ns (key_of d) ds =
          Told-all ds (key_of d) (lookup (key_of d) f.stage.last_fire) r d.wall_ns p
            (v.told (key_of d)) e' in
        let whole : past ++ (f.out ++ d ∷ []) ≡ ds ++ d ∷ [] =
          sym (append_assoc past f.out (d ∷ [])) in
        rw e (record {
          time = v.time;
          told = λ j. rw whole (given-Told r ds d f.stage.last_fire b v.told j);
          spaced = rw whole (Spaced-snoc r ds d v.spaced (far r d.wall_ns (key_of d) ds b));
          stamps = λ j t. insert-stamps (key_of d) j d.wall_ns t f.stage.last_fire n v.stamps;
        })
  ]

  Evolves-Kept :
      {s : Sample F} {f g : Firing F} (r : ℤ) (past : List (Detection F))
      → pos 0 ≤ℤ r
      → NotNegative s.wall_ns
      → Evolves s f g
      → Kept r past f
      → Kept r past g
  Evolves-Kept r past p n done v = v
  Evolves-Kept r past p n (fired d e1 e2 rest) v =
      Evolves-Kept r past p n rest (emit-Kept r past d _ p (rw e2 n) v)
  Evolves-Kept r past p n (quiet q (opts, fires, out) rest) v =
      Evolves-Kept r past p n rest (record {
        time = ap (λ o. o.refractory_ns) opts ∙ v.time;
        told = λ k. rw (out, fires) (v.told k);
        spaced = rw out v.spaced;
        stamps = λ k t. rw fires (v.stamps k t);
      })

  module _ (fl : Floats F) where
    -- The detections of `Kernel` on one sample after the other.
    abbrev pub detections : List (Sample F) → Stage F → List (Detection F)
    detections [] st = []
    detections (s ∷ ss) st = let r = (kernel fl s st).0 in r.out ++ detections ss r.stage

    run-Spaced :
        (r : ℤ) (past : List (Detection F)) (ss : List (Sample F)) (st : Stage F)
        → pos 0 ≤ℤ r
        → All (λ s. NotNegative s.wall_ns) ss
        → Kept r past (record { stage = st; out = [] })
        → Spaced r (past ++ detections ss st)
    run-Spaced r past [] st p n v = v.spaced
    run-Spaced r past (s ∷ ss) st p n v =
        let f = (kernel fl s st).0 in
        let w = Evolves-Kept r past p n.0 (kernel-Evolves fl s st) v in
        let next : Kept r (past ++ f.out) (record { stage = f.stage; out = [] }) = record {
          time = w.time;
          told = λ k. rw append-nil (w.told k);
          spaced = rw append-nil w.spaced;
          stamps = w.stamps;
        } in
        rw (← append_assoc past f.out (detections ss f.stage))
          (run-Spaced r (past ++ f.out) ss f.stage p n.1 next)

    new_stage_time : (opts : Options) → pos 0 ≤ℤ (new_stage {F = F} opts).opts.refractory_ns
    unfolding new_stage
    new_stage_time opts = ground arith

    -- Over any run of samples from a new stage whose times are int64 values that are not negative (not
    -- before 1970), in whatever order they come, two detections of the same rule and key are at least
    -- the refractory time apart, the later one after the earlier one.
    pub kernel-Spaced :
        (opts : Options) (ss : List (Sample F))
        → All (λ s. NotNegative s.wall_ns) ss
        → Spaced (new_stage {F = F} opts).opts.refractory_ns (detections ss (new_stage opts))
    unfolding new_stage lookup
    kernel-Spaced opts ss n =
        run-Spaced (new_stage {F = F} opts).opts.refractory_ns [] ss (new_stage opts)
          (new_stage_time opts) n
          (record { time = refl; told = λ k. tt; spaced = tt; stamps = λ k t h. cc })
