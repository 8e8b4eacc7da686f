-- ===== src/Sample/Ranking.antt =====
-- internal/sample/sample.go, `topIRQs`: the sort and the cut, against what a ranking is.
use mathlib.Core.List.{Permᴰ}
use mathlib.Core.List.Permᴰ
use mikroscope.Common.{
  ℕ, zero, suc, ◌+◌, ◌≤◌, List, [], ◌∷◌, ◌++◌, true, false, ◌≡◌, refl, arith, All, take, drop,
  Bool-cases, inl, inr, ap, ◌∙◌, map, u64, sum_by, length, min, length-take,
}
use mikroscope.Sample.Irqs.{Scored, before, place, stable_sort, rank}

-- The totals go down, from each row to every later one.
abbrev pub Ranked : List Scored → Type 0
Ranked [] = Unit
Ranked (x ∷ xs) = All (λ y. y.total ≤ x.total) xs × Ranked xs

before-total : (a b : Scored) → before a b ≡ true → b.total ≤ a.total
unfolding before
before-total a b h = ground arith

before_not-total : (a b : Scored) → before a b ≡ false → a.total ≤ b.total
unfolding before
before_not-total a b h = ground arith

All-le :
    (m n : ℕ) (xs : List Scored) → m ≤ n → All (λ y. y.total ≤ m) xs → All (λ y. y.total ≤ n) xs
All-le m n [] le h = tt
All-le m n (x ∷ xs) le h = (omega (arith, h.0), All-le m n xs le h.1)

place-All :
    (P : Scored → Type 0) (x : Scored) (xs : List Scored) → P x → All P xs → All P (place x xs)
unfolding place
place-All P x [] p h = (p, tt)
place-All P x (y ∷ ys) p h = elim (Bool-cases (before y x)) [
  | inl behind ↦ rw behind (h.0, place-All P x ys p h.1)
  | inr front ↦ rw front (p, h)
]

place-Ranked : (x : Scored) (xs : List Scored) → Ranked xs → Ranked (place x xs)
unfolding place
place-Ranked x [] h = (tt, tt)
place-Ranked x (y ∷ ys) h = elim (Bool-cases (before y x)) [
  | inl behind ↦
      rw behind (
        place-All (λ z. z.total ≤ y.total) x ys (before-total y x behind) h.0,
        place-Ranked x ys h.1,
      )
  | inr front ↦
      let le = before_not-total y x front in rw front ((le, All-le y.total x.total ys le h.0), h)
]

stable_sort-Ranked : (xs : List Scored) → Ranked (stable_sort xs)
unfolding stable_sort
stable_sort-Ranked [] = tt
stable_sort-Ranked (x ∷ xs) = place-Ranked x (stable_sort xs) (stable_sort-Ranked xs)

place-Perm : (x : Scored) (xs : List Scored) → Permᴰ (place x xs) (x ∷ xs)
unfolding place
place-Perm x [] = Permᴰ.refl (x ∷ [])
place-Perm x (y ∷ ys) = elim (Bool-cases (before y x)) [
  | inl behind ↦ rw behind (Permᴰ.trans (Permᴰ.cons refl (place-Perm x ys)) (Permᴰ.swap refl refl))
  | inr front ↦ rw front (Permᴰ.refl (x ∷ y ∷ ys))
]

stable_sort-Perm : (xs : List Scored) → Permᴰ (stable_sort xs) xs
unfolding stable_sort
stable_sort-Perm [] = Permᴰ.nil
stable_sort-Perm (x ∷ xs) =
    Permᴰ.trans (place-Perm x (stable_sort xs)) (Permᴰ.cons refl (stable_sort-Perm xs))

-- Each row of the first list has at least the total of each row of the second.
abbrev pub Dominates : List Scored → List Scored → Type 0
Dominates xs ys = All (λ x. All (λ y. y.total ≤ x.total) ys) xs

All-later : (k : ℕ) (P : Scored → Type 0) (xs : List Scored) → All P xs → All P (drop k xs)
All-later zero P xs h = h
All-later (suc k) P [] h = tt
All-later (suc k) P (x ∷ xs) h = All-later k P xs h.1

Ranked-Dominates : (k : ℕ) (xs : List Scored) → Ranked xs → Dominates (take k xs) (drop k xs)
Ranked-Dominates zero xs h = tt
Ranked-Dominates (suc k) [] h = tt
Ranked-Dominates (suc k) (x ∷ xs) h =
    (All-later k (λ y. y.total ≤ x.total) xs h.0, Ranked-Dominates k xs h.1)

take-drop : (k : ℕ) (xs : List Scored) → take k xs ++ drop k xs ≡ xs
take-drop zero xs = refl
take-drop (suc k) [] = refl
take-drop (suc k) (x ∷ xs) = ap (λ ys. x ∷ ys) (take-drop k xs)

All-take : (k : ℕ) (P : Scored → Type 0) (xs : List Scored) → All P xs → All P (take k xs)
All-take zero P xs h = tt
All-take (suc k) P [] h = tt
All-take (suc k) P (x ∷ xs) h = (h.0, All-take k P xs h.1)

take-Ranked : (k : ℕ) (xs : List Scored) → Ranked xs → Ranked (take k xs)
take-Ranked zero xs h = tt
take-Ranked (suc k) [] h = tt
take-Ranked (suc k) (x ∷ xs) h = (All-take k (λ y. y.total ≤ x.total) xs h.0, take-Ranked k xs h.1)

place-sum :
    (f : Scored → ℕ) (x : Scored) (xs : List Scored) → sum_by f (place x xs) ≡ f x + sum_by f xs
unfolding place
place-sum f x [] = refl
place-sum f x (y ∷ ys) = ground (arith, place-sum f x ys)

stable_sort-sum : (f : Scored → ℕ) (xs : List Scored) → sum_by f (stable_sort xs) ≡ sum_by f xs
unfolding stable_sort
stable_sort-sum f [] = refl
stable_sort-sum f (x ∷ xs) =
    place-sum f x (stable_sort xs) ∙ ap (λ n. f x + n) (stable_sort-sum f xs)

length-place : (x : Scored) (xs : List Scored) → length (place x xs) ≡ suc (length xs)
unfolding place
length-place x [] = refl
length-place x (y ∷ ys) = ground (arith, length-place x ys)

length-stable_sort : (xs : List Scored) → length (stable_sort xs) ≡ length xs
unfolding stable_sort
length-stable_sort [] = refl
length-stable_sort (x ∷ xs) = length-place x (stable_sort xs) ∙ ap suc (length-stable_sort xs)

-- The ranking keeps the `k` rows (or all, if there are fewer) with the largest totals, the largest
-- first: what it keeps and what it leaves out are together the rows it was given, no kept row has
-- a smaller total than one left out, and the total it reports is that of all rows, modulo 2 ^ 64.
pub rank-top :
    (k : ℕ) (all : List Scored)
    → (kept others : List Scored) × (rank k all
        ≡ (map (λ s. s.delta) kept, u64 (sum_by (λ s. s.total) (kept ++ others))))
      × Permᴰ (kept ++ others) all
      × Ranked kept
      × Dominates kept others
      × (length kept ≡ min k (length all))
unfolding rank
rank-top k all =
    let sorted = stable_sort all in
    let whole = take-drop k sorted in
    (
      take k sorted,
      drop k sorted,
      rw (whole, stable_sort-sum (λ s. s.total) all) refl,
      rw whole (stable_sort-Perm all),
      take-Ranked k sorted (stable_sort-Ranked all),
      Ranked-Dominates k sorted (stable_sort-Ranked all),
      length-take k sorted ∙ ap (min k) (length-stable_sort all),
    )
