-- ===== src/Agent/Ring/Runs.antt =====
-- Runs over the buffer: a run's tail, its prefix, and where it starts.
use native.Mathlib.Nat.{mod-add-mod, add-zero, sub-zero, zero-min, min-zero, suc-min-suc}
use mathlib.Core.Path.{ap₂}
use mikroscope.Common.{
  ℕ, zero, suc, ◌+◌, ◌-◌, ◌%◌, ◌≤◌, ◌<◌, min, List, [], ◌∷◌, ◌≡◌, refl, sym, ◌∙◌, ap, arith, length,
  get_or, take, drop, ltb, ◌&&◌, if◌then◌else◌, inl, inr, Bool, Bool-cases, true, false, ltb→lt,
  ltb→le,
}
use mikroscope.Agent.Ring.{Entry, zero_entry, read_run}
use mikroscope.Agent.Ring.View.{next_step, at, read_run_ext}

module _ {F : Type 0} where
  pub drop-nil : (n : ℕ) → drop n (let es : List (Entry F) = [] in es) ≡ []
  drop-nil zero = refl
  drop-nil (suc n) = refl

  pub take-nil :
      (limit : ℕ)
      → (if ltb 0 limit then take limit (let es : List (Entry F) = [] in es) else []) ≡ []
  take-nil zero = refl
  take-nil (suc n) = ground arith

  pub nil-length : (es : List (Entry F)) → length es ≡ 0 → es ≡ []
  nil-length [] h = refl
  nil-length (e ∷ es) h = absurd (omega arith)

  pub if_pair :
      (b : Bool) (xs ys : List (Entry F)) (g : Bool)
      → ◌≡◌ {A = List (Entry F) × Bool} (if b then (xs, g) else (ys, g)) ((if b then xs else ys), g)
  if_pair true xs ys g = refl
  if_pair false xs ys g = refl

  pub drop_all : (n : ℕ) (es : List (Entry F)) → length es ≤ n → drop n es ≡ []
  drop_all n [] h = drop-nil n
  drop_all zero (e ∷ es) h = absurd (omega arith)
  drop_all (suc n) (e ∷ es) h = drop_all n es (omega arith)

  pub drop-read_run :
      (b : List (Entry F)) (f i n k : ℕ)
      → k ≤ n
      → drop k (read_run b f i n) ≡ read_run b f (i + k) (n - k)
  unfolding read_run
  drop-read_run b f i n zero h = rw (add-zero, sub-zero)
  drop-read_run b f i zero (suc k) h = absurd (omega arith)
  drop-read_run b f i (suc n) (suc k) h =
      drop-read_run b f (i + 1) n k (omega arith)
      ∙ ap₂ (λ a c. read_run b f a c) (next_step i k) (omega arith)

  pub take-read_run :
      (b : List (Entry F)) (f i n k : ℕ) → take k (read_run b f i n) ≡ read_run b f i (min k n)
  unfolding read_run
  take-read_run b f i n zero = rw zero-min refl
  take-read_run b f i zero (suc k) = rw min-zero refl
  take-read_run b f i (suc n) (suc k) =
      rw (suc-min-suc k n) (ap (λ xs. at b f i ∷ xs) (take-read_run b f (i + 1) n k))

  -- A run that starts further on is the rest of the run.
  pub run_shift :
      (b : List (Entry F)) (h c m n : ℕ)
      → h < length b
      → c ≤ length b
      → read_run b ((h + length b + m - c) % length b) 0 n
        ≡ read_run b ((h + length b - c) % length b) m n
  run_shift b h c m n p q =
      read_run_ext b b ((h + length b + m - c) % length b) ((h + length b - c) % length b) 0 m n
        (λ k lt.
          ap (λ i. get_or b i zero_entry)
            (mod-add-mod (h + length b + m - c) (length b) (0 + k)
              ∙ (ap (λ t. t % length b) (shifted k)
                  ∙ sym (mod-add-mod (h + length b - c) (length b) (m + k)))))
    where
      shifted : (k : ℕ) → h + length b + m - c + (0 + k) ≡ h + length b - c + (m + k)
      shifted k = omega arith

  -- A limit on a run is a shorter run.
  pub limit-run :
      (b : List (Entry F)) (f i n limit : ℕ)
      → (if ltb 0 limit then take limit (read_run b f i n) else read_run b f i n)
        ≡ read_run b f i (if ltb 0 limit && ltb limit n then limit else n)
  limit-run b f i n limit = elim (Bool-cases (ltb 0 limit)) [
    | inl positive ↦ elim (Bool-cases (ltb limit n)) [
      | inl cut ↦
          let lt : limit < n = ltb→lt _ _ cut in
          rw (positive, cut, take-read_run) (ap (λ k. read_run b f i k) (omega arith))
      | inr whole ↦
          let le : n ≤ limit = ltb→le _ _ whole in
          rw (positive, whole, take-read_run) (ap (λ k. read_run b f i k) (omega arith))
    ]
    | inr unlimited ↦ rw unlimited refl
  ]
