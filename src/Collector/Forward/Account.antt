-- ===== src/Collector/Forward/Account.antt =====
-- What the events of a pull account for: each number delivered once, in order, or declared lost.
use mikroscope.Common.{
  ℕ, ◌+◌, ◌≤◌, List, [], ◌∷◌, ◌++◌, append-nil, append_assoc, map, some, ◌≡◌, refl, sym, ◌∙◌, ap,
  arith, All, length, leb, Bool-cases, inl, inr,
}
use mathlib.Core.Path.{subst}
use mikroscope.Sample.Types.{Sample}
use mikroscope.Agent.Ring.{Entry}
use mikroscope.Agent.Ring.Numbered.{Numbered}
use mikroscope.Agent.Captures.Types.{Marker}
use mikroscope.Agent.Server.{Line, trigger_line, sample_line, due, with_markers}
use mikroscope.Collector.Forward.{
  Stages, Event, gap_event, trigger_event, kernel_event, detection_event, Forwarder, label_ports,
  take_sample, decoded, take_line, take_lines,
}

module _ {F X Y : Type 0} where
  -- The events take the cursor from `a` to `b`: each kernel sample is the next one, and each gap
  -- declares the numbers from the next one to one below the next delivered.
  abbrev pub Accounts : ℕ → List (Event F X Y) → ℕ → Type 0
  Accounts a [] b = a ≡ b
  Accounts a (kernel_event s x ∷ es) b = (s.seq ≡ a + 1) × Accounts (a + 1) es b
  Accounts a (gap_event g ∷ es) b = (g.from ≡ a + 1) × (g.from ≤ g.to) × Accounts g.to es b
  Accounts a (trigger_event m ∷ es) b = Accounts a es b
  Accounts a (detection_event y ∷ es) b = Accounts a es b

  pub Accounts-append :
      (a b c : ℕ) (es fs : List (Event F X Y))
      → Accounts a es b
      → Accounts b fs c
      → Accounts a (es ++ fs) c
  Accounts-append a b c [] fs h k = subst (λ n. Accounts n fs c) (sym h) k
  Accounts-append a b c (kernel_event s x ∷ es) fs h k =
      (h.0, Accounts-append (a + 1) b c es fs h.1 k)
  Accounts-append a b c (gap_event g ∷ es) fs h k = (h.0, h.1, Accounts-append g.to b c es fs h.2 k)
  Accounts-append a b c (trigger_event m ∷ es) fs h k = Accounts-append a b c es fs h k
  Accounts-append a b c (detection_event y ∷ es) fs h k = Accounts-append a b c es fs h k

Accounts-detections :
    (F X : Type 0) {Y : Type 0} (a : ℕ) (ys : List Y)
    → Accounts {F = F} {X = X} a (map (λ y. detection_event y) ys) a
Accounts-detections F X a [] = refl
Accounts-detections F X a (y ∷ ys) = Accounts-detections F X a ys

module _ {F D X Y : Type 0} where
  -- `f'` has emitted more than `f`, which accounts for the numbers from `a` to `b`.
  abbrev pub Delivers : ℕ → Forwarder F D X Y → Forwarder F D X Y → ℕ → Type 0
  Delivers a f f' b = (es : List (Event F X Y)) × (f'.emitted ≡ f.emitted ++ es) × Accounts a es b

  pub Delivers-trans :
      (a b c : ℕ) (f g h : Forwarder F D X Y)
      → Delivers a f g b
      → Delivers b g h c
      → Delivers a f h c
  Delivers-trans a b c f g h (es, e1, acc1) (fs, e2, acc2) = (
    es ++ fs,
    e2 ∙ (ap (λ xs. xs ++ fs) e1 ∙ append_assoc f.emitted es fs),
    Accounts-append a b c es fs acc1 acc2,
  )

  pub Delivers-none : (a : ℕ) (f : Forwarder F D X Y) → Delivers a f f a
  Delivers-none a f = ([], sym (append-nil f.emitted), refl)

module _ {F D X Y : Type 0} (st : Stages F D X Y) where
  -- The entry's line decodes to a sample with its number, as it was encoded.
  abbrev pub Decodes : Entry F → Type 0
  Decodes e = (s : Sample F) × (st.decode e.line ≡ some s) × (s.seq ≡ e.seq)

  take_lines-append :
      (xs ys : List (Line F)) (f : Forwarder F D X Y)
      → take_lines st (xs ++ ys) f ≡ take_lines st ys (take_lines st xs f)
  unfolding take_lines
  take_lines-append [] ys f = refl
  take_lines-append (x ∷ xs) ys f = take_lines-append xs ys (take_line st x f)

  -- The markers in front of a sample go out and leave the cursor where it is.
  due-Delivers :
      (a seq : ℕ) (ms : List (Marker F)) (f : Forwarder F D X Y)
      → Delivers a f (take_lines st (due seq ms).0 f) a
  unfolding due take_lines take_line
  due-Delivers a seq [] f = Delivers-none a f
  due-Delivers a seq (m ∷ ms) f = elim (Bool-cases (leb m.seq seq)) [
    | inl early ↦
        let g = take_line st (trigger_line m) f in
        rw early (
          Delivers-trans a a a f g (take_lines st (due seq ms).0 g)
            (trigger_event m ∷ [], refl, refl) (due-Delivers a seq ms g))
    | inr late ↦ rw late (Delivers-none a f)
  ]

  sample-Delivers :
      (a : ℕ) (e : Entry F) (f : Forwarder F D X Y)
      → Decodes e
      → e.seq ≡ a + 1
      → let f' = take_line st (sample_line e) f in Delivers a f f' (a + 1) × (f'.since ≡ a + 1)
  unfolding take_line decoded take_sample label_ports
  sample-Delivers a e f (s, found, same) next =
      let made = st.kernel (label_ports st s) f.derive in
      rw found (
        (
          kernel_event (label_ports st s) made.0 ∷ map (λ y. detection_event y) made.1,
          refl,
          (same ∙ next, Accounts-detections F X (a + 1) made.1),
        ),
        same ∙ next,
      )

  -- Up to and with a sample, the markers in front of it included.
  first-Delivers :
      (a : ℕ) (e : Entry F) (ms : List (Marker F)) (f : Forwarder F D X Y)
      → Decodes e
      → e.seq ≡ a + 1
      → let f' = take_line st (sample_line e) (take_lines st (due e.seq ms).0 f) in
        Delivers a f f' (a + 1) × (f'.since ≡ a + 1)
  first-Delivers a e ms f d next =
      let g = take_lines st (due e.seq ms).0 f in
      let taken = sample-Delivers a e g d next in
      (
        Delivers-trans a a (a + 1) f g (take_line st (sample_line e) g) (due-Delivers a e.seq ms f)
            taken.0,
        taken.1,
      )

  after_first :
      (e : Entry F) (ms : List (Marker F)) (rest : List (Line F)) (f : Forwarder F D X Y)
      → take_lines st ((due e.seq ms).0 ++ sample_line e ∷ rest) f
        ≡ take_lines st rest (take_line st (sample_line e) (take_lines st (due e.seq ms).0 f))
  after_first e ms rest f =
      unfold take_lines in (take_lines-append (due e.seq ms).0 (sample_line e ∷ rest) f)

  -- The lines of a batch that begins behind `a` deliver its samples.
  pub lines-Delivers :
      (a : ℕ) (e : Entry F) (es : List (Entry F)) (ms : List (Marker F)) (f : Forwarder F D X Y)
      → Numbered (a + 1) (e ∷ es)
      → All Decodes (e ∷ es)
      → let f' = take_lines st (with_markers (e ∷ es) ms) f in
        Delivers a f f' (a + length (e ∷ es)) × (f'.since ≡ a + length (e ∷ es))
  unfolding with_markers
  lines-Delivers a e [] ms f n d =
      rw (after_first e ms [] f) (unfold take_lines in (first-Delivers a e ms f d.0 n.0))
  lines-Delivers a e (x ∷ es) ms f n d =
      let g = take_line st (sample_line e) (take_lines st (due e.seq ms).0 f) in
      let first = first-Delivers a e ms f d.0 n.0 in
      let later = (due e.seq ms).1 in
      let rest = lines-Delivers (a + 1) x es later g n.1 d.1 in
      let end : a + 1 + length (x ∷ es) ≡ a + length (e ∷ x ∷ es) = omega arith in
      rw (after_first e ms (with_markers (x ∷ es) later) f, ← end)
        (
          Delivers-trans a (a + 1) (a + 1 + length (x ∷ es)) f g
              (take_lines st (with_markers (x ∷ es) later) g) first.0 rest.0,
          rest.1,
        )
