-- ===== src/Agent/Source/Held.antt =====
-- The change filter against a source that sends each reading: who keeps the last value received
-- has the same.
use mikroscope.Common.{
  ℕ, List, [], ◌∷◌, Option, none, some, Bool, true, false, ◌&&◌, Bytes, bytes_eq, bytes_eq→eq, ℤ,
  pos, negsuc, lebℤ, leb, sub64, u64, ◌+◌, length, map, ◌==◌, ==_iff, if◌then◌else◌, or_else,
  of_some, ◌>>=◌, ◌≡◌, refl, sym, ap, ◌∙◌, ◌⊎◌, inl, inr, arith, Option-cases,
}
use mikroscope.Sample.Floats.{Floats}
use mikroscope.Procfs.Types.{BuddyZone, Stat}
use mikroscope.Procfs.Cpus.{parse_stat}
use mikroscope.Sample.Types.{Raw}
use mikroscope.Agent.Source.Types.{content, Files, Source, emits}
use mikroscope.Agent.Source.Filter.{each_equal, equal_uints, equal_zone, equal_buddy, read_freq}
use mikroscope.Agent.Source.System.{read_system, read_kernel, read_optional, read_self}
use mikroscope.Agent.Source.{
  Reading, re_arm, begin_tick, read_counters, emit_thermal, emit_freq, emit_slabs, read_zones,
  read_buddy, read_mtd, read_discovered, read,
}

-- A consumer keeps the value it has where nothing is sent.
abbrev pub keep : {A : Type 0} → List A → List A → List A
keep h [] = h
keep h (x ∷ xs) = x ∷ xs

-- What it has after a list of messages.
abbrev pub held : {A : Type 0} → List A → List (List A) → List A
held h [] = h
held h (m ∷ ms) = held (keep h m) ms

-- The filter on one tick: the reading is sent and remembered, or nothing is sent, and the reading is
-- the one remembered, or there is none.
abbrev Filtered : {A : Type 0} → List A → List A → List A → List A → Type 0
Filtered now last sent last' =
    ((sent ≡ now) × (last' ≡ now)) ⊎ ((sent ≡ []) × (last' ≡ last) × ((now ≡ last) ⊎ (now ≡ [])))

-- What is remembered is what the consumer has.
abbrev Current : {A : Type 0} → List A → List A → Type 0
Current h last = (last ≡ []) ⊎ (h ≡ last)

keep_self : {A : Type 0} (h : List A) → keep h h ≡ h
keep_self [] = refl
keep_self (x ∷ h) = refl

keep_nil : {A : Type 0} (h now : List A) → now ≡ [] → keep h now ≡ h
keep_nil h now e = rw e refl

Current-keep : {A : Type 0} (h now : List A) → Current (keep h now) now
Current-keep h [] = inl refl
Current-keep h (x ∷ now) = inr refl

Filtered-keep :
    {A : Type 0} (h now last sent last' : List A)
    → Current h last
    → Filtered now last sent last'
    → (keep h sent ≡ keep h now) × Current (keep h now) last'
Filtered-keep h now last sent last' c (inl (s, l)) = rw (s, l) (refl, Current-keep h now)
Filtered-keep h now last sent last' c (inr (s, l, inr e)) = rw (s, l, e) (refl, c)
Filtered-keep h now last sent last' (inl n) (inr (s, l, inl e)) = rw (s, l, e, n) (refl, inl refl)
Filtered-keep h now last sent last' (inr i) (inr (s, l, inl e)) =
    rw (s, l, e, i) (sym (keep_self last), inr (keep_self last))

each_equal-eq :
    {A : Type 0} (eq : A → A → Bool)
    → ((a b : A) → eq a b ≡ true → a ≡ b)
    → (xs ys : List A) → (length xs == length ys && each_equal eq xs ys) ≡ true
    → xs ≡ ys
each_equal-eq eq ok [] [] h = refl
each_equal-eq eq ok [] (y ∷ ys) h = ground arith
each_equal-eq eq ok (x ∷ xs) [] h = ground arith
each_equal-eq eq ok (x ∷ xs) (y ∷ ys) h =
    let e : eq x y ≡ true = ground arith in
    let t : (length xs == length ys && each_equal eq xs ys) ≡ true = ground arith in
    rw (ok x y e, each_equal-eq eq ok xs ys t) refl

equal_uints-eq : (xs ys : List ℕ) → equal_uints xs ys ≡ true → xs ≡ ys
unfolding equal_uints
equal_uints-eq xs ys h = each_equal-eq (λ a b. a == b) (λ a b. (==_iff a b).0) xs ys h

lebℤ-antisym : (a b : ℤ) → (lebℤ a b && lebℤ b a) ≡ true → a ≡ b
lebℤ-antisym (pos a) (pos b) h = ap pos (ground arith)
lebℤ-antisym (pos a) (negsuc b) h = absurd (ground arith)
lebℤ-antisym (negsuc a) (pos b) h = absurd (ground arith)
lebℤ-antisym (negsuc a) (negsuc b) h = ap negsuc (ground arith)

same_zone :
    {m n : ℤ} {z w : Bytes} {xs ys : List ℕ}
    → m ≡ n
    → z ≡ w
    → xs ≡ ys
    → ◌≡◌ {A = BuddyZone}
        (record { node = m; zone = z; free = xs })
        (record { node = n; zone = w; free = ys })
same_zone h k l = rw (h, k, l) refl

equal_zone-eq : (a b : BuddyZone) → equal_zone a b ≡ true → a ≡ b
unfolding equal_zone
equal_zone-eq a b h =
    let n : (lebℤ a.node b.node && lebℤ b.node a.node) ≡ true = ground arith in
    let z : bytes_eq a.zone b.zone ≡ true = ground arith in
    let u : equal_uints a.free b.free ≡ true = ground arith in
    let node = lebℤ-antisym a.node b.node n in
    let zone = bytes_eq→eq a.zone b.zone z in
    let free = equal_uints-eq a.free b.free u in same_zone node zone free

equal_buddy-eq : (xs ys : List BuddyZone) → equal_buddy xs ys ≡ true → xs ≡ ys
unfolding equal_buddy
equal_buddy-eq xs ys h = each_equal-eq equal_zone equal_zone-eq xs ys h

-- The filter, by what it decides.
sent-Filtered :
    {A : Type 0} (now last before : List A) (same sent : Bool)
    → before ≡ []
    → (same ≡ true → now ≡ last)
    → (sent ≡ false → same ≡ true)
    → Filtered now last (if sent then now else before) (if sent then now else last)
sent-Filtered now last before same true b e s = inl (refl, refl)
sent-Filtered now last before same false b e s = inr (b, refl, inl (e (s refl)))

emits-same : (s : Source) (same : Bool) (t : ℕ) → emits s same t ≡ false → same ≡ true
unfolding emits
emits-same s same t h = ground arith

-- The free lists that a tick has, empty where they cannot be read.
abbrev pub free_lists : Files → List BuddyZone
free_lists f = or_else [] (read_zones f)

-- When the filter sends, at a tick.
Timed-cases :
    {A B P : Type 0} (sent : Bool) (now before : A) (t l : B)
    → (sent ≡ false → P)
    → ((if sent then now else before) ≡ now) ⊎ (((if sent then t else l) ≡ l) × P)
Timed-cases true now before t l p = inl refl
Timed-cases false now before t l p = inr (refl, p refl)

emits-late :
    (s : Source) (same : Bool) (t : ℕ)
    → emits s same t ≡ false
    → leb s.heartbeat (sub64 s.tick t) ≡ false
unfolding emits
emits-late s same t h = ground arith

-- A tick passed, and the frequencies were sent, or their last sending is less than a heartbeat ago.
abbrev pub Timed : {F : Type 0} → Source → Files → Reading F → Type 0
Timed s f r =
    ((r.source).heartbeat ≡ s.heartbeat)
    × ((r.source).tick ≡ u64 (s.tick + 1))
    × (((r.raw).freq_khz ≡ read_freq f.freq)
        ⊎ (((r.source).last_freq_tick ≡ s.last_freq_tick)
            × (leb s.heartbeat (sub64 (u64 (s.tick + 1)) s.last_freq_tick) ≡ false)))

module _ {F : Type 0} where
  emit_freq-Filtered :
      (f : Files) (r : Reading F)
      → (r.raw).freq_khz ≡ []
      → Filtered
          (read_freq f.freq)
          (r.source).last_freq_emit
          ((emit_freq f r).raw).freq_khz
          ((emit_freq f r).source).last_freq_emit
  unfolding emit_freq
  emit_freq-Filtered f r b =
      let s = r.source in
      let now = read_freq f.freq in
      let same = equal_uints now s.last_freq_emit in
      sent-Filtered now s.last_freq_emit (r.raw).freq_khz same (emits s same s.last_freq_tick) b
        (equal_uints-eq now s.last_freq_emit) (emits-same s same s.last_freq_tick)

  read_buddy-Filtered :
      (f : Files) (r : Reading F)
      → (r.raw).buddy ≡ []
      → Filtered
          (free_lists f)
          (r.source).last_buddy
          ((read_buddy f r).raw).buddy
          ((read_buddy f r).source).last_buddy
  unfolding read_buddy
  read_buddy-Filtered f r b =
      let s = r.source in
      elim (Option-cases (read_zones f)) [
        | inl e ↦ rw e (inr (b, refl, inr refl))
        | inr (z, e) ↦
            let same = equal_buddy z s.last_buddy in
            rw e (
              sent-Filtered z s.last_buddy (r.raw).buddy same (emits s same s.last_buddy_tick) b
                (equal_buddy-eq z s.last_buddy) (emits-same s same s.last_buddy_tick))
      ]

abbrev pub Ticks : Type 0 → Type 0
Ticks F = List (Raw F × Files)

-- What `Read` does: it fails where /proc/stat does, and else filters the frequencies and the zones.
module _ {F : Type 0} (fl : Floats F) (parse_float : Bytes → Option F) where
  -- A list of reads, each into a buffer with what is left of an earlier one: what was read.
  abbrev pub raws : Source → Ticks F → List (Raw F)
  raws s [] = []
  raws s ((dst, f) ∷ ts) =
      of_some (raws s ts) (λ r. r.raw ∷ raws r.source ts) (read fl parse_float s dst f)

  -- The readings of those ticks, sent or not.
  abbrev pub readings : {A : Type 0} → (Files → List A) → Ticks F → List (List A)
  readings get [] = []
  readings get ((dst, f) ∷ ts) =
      of_some (readings get ts) (λ st. get f ∷ readings get ts) (content f.stat >>= parse_stat)

  discovered-Filtered :
      (s : Source) (dst : Raw F) (f : Files)
      → let r = read_discovered fl parse_float s dst f in
        Filtered (read_freq f.freq) s.last_freq_emit (r.raw).freq_khz (r.source).last_freq_emit
        × Filtered (free_lists f) s.last_buddy (r.raw).buddy (r.source).last_buddy
  unfolding read_discovered begin_tick read_counters emit_thermal emit_freq emit_slabs read_mtd
  discovered-Filtered s dst f =
      let begun = emit_thermal fl f (read_counters f (begin_tick s dst f)) in
      (
        emit_freq-Filtered f begun refl,
        read_buddy-Filtered f (emit_slabs f (emit_freq f begun)) refl,
      )

  discovered-Timed :
      (s : Source) (dst : Raw F) (f : Files) → Timed s f (read_discovered fl parse_float s dst f)
  unfolding read_discovered begin_tick read_counters emit_thermal emit_freq emit_slabs read_buddy
      read_mtd
  discovered-Timed s dst f =
      let now = record s { tick = u64 (s.tick + 1) } in
      let same = equal_uints (read_freq f.freq) s.last_freq_emit in
      (
        refl,
        refl,
        Timed-cases (emits now same s.last_freq_tick) (read_freq f.freq) [] _ _
            (emits-late now same s.last_freq_tick),
      )

  -- A read that gives a result, with what the two filters did.
  abbrev pub Read : Source → Raw F → Files → Type 0
  Read s dst f =
      (st : Stat) × (r : Reading F) × ((content f.stat >>= parse_stat) ≡ some st)
      × (read fl parse_float s dst f ≡ some r)
      × Filtered (read_freq f.freq) s.last_freq_emit (r.raw).freq_khz (r.source).last_freq_emit
      × Filtered (free_lists f) s.last_buddy (r.raw).buddy (r.source).last_buddy
      × Timed s f r

  pub read-cases :
      (s : Source) (dst : Raw F) (f : Files)
      → (((content f.stat >>= parse_stat) ≡ none) × (read fl parse_float s dst f ≡ none))
        ⊎ Read s dst f
  unfolding read read_self
  read-cases s dst f = elim (Option-cases (content f.stat)) [
    | inl e ↦ inl (rw e refl, rw e refl)
    | inr (b, e) ↦ elim (Option-cases (parse_stat b)) [
      | inl p ↦ inl (rw (e, p) refl, rw (e, p) refl)
      | inr (st, p) ↦
          let begun = record dst { mono_ns = f.mono_ns; wall_ns = f.wall_ns; stat = st } in
          let own = read_optional (read_kernel (read_system fl parse_float begun f) f) f in
          let buffer = record own { perf = or_else [] f.perf } in
          let d = read_discovered fl parse_float s buffer f in
          inr (
            st,
            record d { raw = read_self d.source d.raw f },
            rw (e, p) refl,
            rw (e, p) refl,
            (discovered-Filtered s buffer f).0,
            (discovered-Filtered s buffer f).1,
            discovered-Timed s buffer f,
          )
    ]
  ]

  -- A consumer of the reads has what one of all the readings has.
  abbrev Follows : Source → List ℕ → List BuddyZone → Ticks F → Type 0
  Follows s h z ts =
      (held h (map (λ r. r.freq_khz) (raws s ts)) ≡ held h (readings (λ f. read_freq f.freq) ts))
      × (held z (map (λ r. r.buddy) (raws s ts)) ≡ held z (readings free_lists ts))

  raws-follow :
      (ts : Ticks F) (s : Source) (h : List ℕ) (z : List BuddyZone)
      → Current h s.last_freq_emit
      → Current z s.last_buddy
      → Follows s h z ts
  raws-follow [] s h z c d = (refl, refl)
  raws-follow ((dst, f) ∷ ts) s h z c d = elim (read-cases s dst f) [
    | inl (e, n) ↦ rw (e, n) (raws-follow ts s h z c d)
    | inr (st, r, e, n, a, b, t) ↦
        let freq = Filtered-keep h (read_freq f.freq) _ _ _ c a in
        let free = Filtered-keep z (free_lists f) _ _ _ d b in
        let rest = raws-follow ts r.source _ _ freq.1 free.1 in
        let out = raws r.source ts in
        rw (e, n)
          (
            ap (λ k. held k (map (λ q. q.freq_khz) out)) freq.0 ∙ rest.0,
            ap (λ k. held k (map (λ q. q.buddy) out)) free.0 ∙ rest.1,
          )
  ]

  -- The change filter loses nothing: from a source that `ReArm` has reset, over any list of reads, a
  -- consumer that keeps the last core frequencies it received has, after the list, the last that the
  -- files held at a tick whose read did not fail, as if each reading had been sent; and the same
  -- holds of the free lists of the memory zones. A reading that is empty counts as none.
  pub raws-held :
      (s : Source) (ts : Ticks F)
      → (held [] (map (λ r. r.freq_khz) (raws (re_arm s) ts))
          ≡ held [] (readings (λ f. read_freq f.freq) ts))
        × (held [] (map (λ r. r.buddy) (raws (re_arm s) ts)) ≡ held [] (readings free_lists ts))
  unfolding re_arm
  raws-held s ts = raws-follow ts (re_arm s) [] [] (inl refl) (inl refl)
