-- ===== src/Derive/Window/Trail.antt =====
-- A baseline window is the trail of the values pushed: the last ones, as many as it has room for.
use native.Mathlib.Nat.{mod-lt, mod_self}
use native.Mathlib.Numerals.{add-one}
use mikroscope.Common.{
  ℕ, zero, suc, ℤ, ◌+◌, ◌-◌, ◌%◌, ◌≤◌, ◌<◌, List, [], ◌∷◌, ◌++◌, ◌≡◌, refl, sym, ap, ◌∙◌, arith,
  append-nil, append_assoc, length, set, take, drop, take_last, take_last-append, take_all,
  drop-append, drop-drop, length-append, length-drop, length-take, length-set, ltb, ltb→lt, ltb→le,
  Bool-cases, inl, inr, mod_small,
}
use mikroscope.Derive.Types.{Window}
use mikroscope.Derive.Window.{baseline_samples, new_window, replaced, push_sized, push_value}

module _ {A : Type 0} where
  drop-set : (n : ℕ) (xs : List A) (v : A) → drop (suc n) (set xs n v) ≡ drop (suc n) xs
  drop-set n [] v = refl
  drop-set zero (x ∷ xs) v = refl
  drop-set (suc n) (x ∷ xs) v = drop-set n xs v

  take-set :
      (n : ℕ) (xs : List A) (v : A)
      → n < length xs
      → take (suc n) (set xs n v) ≡ take n xs ++ v ∷ []
  take-set n [] v h = absurd (omega arith)
  take-set zero (x ∷ xs) v h = refl
  take-set (suc n) (x ∷ xs) v h = ap (λ t. x ∷ t) (take-set n xs v (omega arith))

  drop_all : (xs : List A) → drop (length xs) xs ≡ []
  drop_all [] = refl
  drop_all (x ∷ xs) = drop_all xs

  -- A rotation by the whole length is none.
  rotated :
      (m : ℕ) (xs : List A)
      → 0 < length xs
      → m ≤ length xs
      → drop (m % length xs) xs ++ take (m % length xs) xs ≡ drop m xs ++ take m xs
  rotated m xs p h = elim (Bool-cases (ltb m (length xs))) [
    | inl e ↦ rw (mod_small m (length xs) (ltb→lt m (length xs) e)) refl
    | inr e ↦
        let all : m ≡ length xs = omega (arith, ltb→le m (length xs) e) in
        let whole : take (length xs) xs ≡ xs = take_all (length xs) xs (omega arith) in
        rw (all, mod_self (length xs), drop_all xs, whole) (append-nil xs)
  ]

baseline_samples-bounds :
    (rate_hz : ℤ) → (10 ≤ baseline_samples rate_hz) × (baseline_samples rate_hz ≤ 2000)
unfolding baseline_samples
baseline_samples-bounds rate_hz = ground arith

module _ {F : Type 0} where
  -- The values of a window, the oldest first.
  abbrev pub trail : Window F → List F
  trail w = drop w.next w.vals ++ take w.next w.vals

  pub record WellSized (w : Window F) : Type 0 where
    pub room : 0 < w.cap
    pub fits : length w.vals ≤ w.cap
    pub inside : w.next < w.cap
    pub from_start : length w.vals < w.cap → w.next ≡ 0

  replaced-trail :
      (v : F) (w : Window F)
      → WellSized w
      → length w.vals ≡ w.cap
      → trail (replaced v w) ≡ take_last w.cap (trail w ++ v ∷ [])
  replaced-trail v w s full =
      let n = w.next in
      let xs = w.vals in
      let ys = set xs n v in
      let len : length ys ≡ w.cap = length-set xs n v ∙ full in
      let inside : n < length xs = omega (arith, s.inside) in
      let kept : drop (suc n) ys ++ take (suc n) ys ≡ drop (suc n) xs ++ (take n xs ++ v ∷ []) =
        rw (drop-set n xs v, take-set n xs v inside) refl in
      let over : length (trail w ++ v ∷ []) - w.cap ≡ 1 = omega (
        arith,
        s.inside,
        length-append (trail w) (v ∷ []),
        length-append (drop n xs) (take n xs),
        length-drop n xs,
        length-take n xs,
      ) in
      let front : drop 1 (drop n xs ++ (take n xs ++ v ∷ []))
          ≡ drop (suc n) xs ++ (take n xs ++ v ∷ []) =
        drop-append 1 (drop n xs) (take n xs ++ v ∷ []) (omega (arith, length-drop n xs))
        ∙ ap (λ t. t ++ (take n xs ++ v ∷ []))
            (drop-drop 1 n xs ∙ ap (λ k. drop k xs) (add-one n)) in
      let turned : trail (replaced v w) ≡ drop (suc n) ys ++ take (suc n) ys =
        ap (λ c. drop ((n + 1) % c) ys ++ take ((n + 1) % c) ys) (sym len)
        ∙ rotated (n + 1) ys (omega (arith, s.room, len)) (omega (arith, len))
        ∙ ap (λ k. drop k ys ++ take k ys) (add-one n) in
      turned
      ∙ kept
      ∙ sym front
      ∙ ap (drop 1) (sym (append_assoc (drop n xs) (take n xs) (v ∷ [])))
      ∙ ap (λ k. drop k (trail w ++ v ∷ [])) (sym over)

  push_sized-trail :
      (v : F) (w : Window F)
      → WellSized w
      → trail (push_sized v w) ≡ take_last w.cap (trail w ++ v ∷ [])
  push_sized-trail v w s = elim (Bool-cases (ltb (length w.vals) w.cap)) [
    | inl e ↦
        let start : w.next ≡ 0 = s.from_start (ltb→lt (length w.vals) w.cap e) in
        let none : length (w.vals ++ v ∷ []) - w.cap ≡ 0 =
          omega (arith, length-append w.vals (v ∷ []), ltb→lt (length w.vals) w.cap e) in
        rw (e, start) (rw (append-nil w.vals, append-nil (w.vals ++ v ∷ []), none) refl)
    | inr e ↦ rw e (replaced-trail v w s (omega (arith, ltb→le (length w.vals) w.cap e, s.fits)))
  ]

  push_sized-WellSized : (v : F) (w : Window F) → WellSized w → WellSized (push_sized v w)
  push_sized-WellSized v w s = ground (
    arith,
    length-append w.vals (v ∷ []),
    length-set w.vals w.next v,
    mod-lt (w.next + 1) {m = w.cap} s.room,
  )

  -- A window with room is pushed to as it is.
  push_value-sized : (v : F) (w : Window F) → 0 < w.cap → push_value v w ≡ push_sized v w
  unfolding push_value
  push_value-sized v w p = ground arith

  abbrev pub push_all : List F → Window F → Window F
  push_all [] w = w
  push_all (v ∷ vs) w = push_all vs (push_value v w)

  push_all-trail :
      (vs : List F) (w : Window F)
      → WellSized w
      → trail (push_all vs w) ≡ take_last w.cap (trail w ++ vs)
  push_all-trail [] w s =
      let short : length (trail w) - w.cap ≡ 0 = omega (
        arith,
        s.fits,
        length-append (drop w.next w.vals) (take w.next w.vals),
        length-drop w.next w.vals,
        length-take w.next w.vals,
      ) in
      rw (append-nil (trail w), short) refl
  push_all-trail (v ∷ vs) w s =
      let w' = push_sized v w in
      let same_cap : w'.cap ≡ w.cap = ground arith in
      ap (λ x. trail (push_all vs x)) (push_value-sized v w s.room)
      ∙ push_all-trail vs w' (push_sized-WellSized v w s)
      ∙ ap (λ c. take_last c (trail w' ++ vs)) same_cap
      ∙ ap (λ t. take_last w.cap (t ++ vs)) (push_sized-trail v w s)
      ∙ take_last-append w.cap (trail w ++ v ∷ []) vs
      ∙ ap (take_last w.cap) (append_assoc (trail w) (v ∷ []) vs)

  -- A new window to which values are pushed holds the last of them in the order of their pushes, as
  -- many as it has room for; `baselineSamples` gives a room of 10 to 2000.
  pub push_all-last :
      (rate_hz : ℤ) (vs : List F)
      → (trail (push_all vs (new_window (baseline_samples rate_hz)))
          ≡ take_last (baseline_samples rate_hz) vs)
        × (10 ≤ baseline_samples rate_hz)
        × (baseline_samples rate_hz ≤ 2000)
  push_all-last rate_hz vs =
      let (least, most) = baseline_samples-bounds rate_hz in
      (
        push_all-trail vs (new_window (baseline_samples rate_hz)) (record {
          room = omega arith;
          fits = omega arith;
          inside = omega arith;
          from_start = λ _. refl;
        }),
        least,
        most,
      )
