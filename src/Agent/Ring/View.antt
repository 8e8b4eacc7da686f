-- ===== src/Agent/Ring/View.antt =====
-- The ring as a queue: what it holds, oldest first, and the invariant that keeps its indices valid.
use native.Mathlib.Nat.{add-zero, mod-add-mod}
use mathlib.Core.Path.{ap₂}
use mikroscope.Common.{
  ℕ, zero, suc, ◌+◌, ◌-◌, ◌%◌, ◌≤◌, ◌<◌, List, [], ◌∷◌, ◌++◌, ◌≡◌, ◌≢◌, refl, ◌∙◌, ap, arith,
  length, get_or,
}
use mikroscope.Agent.Ring.{Entry, Ring, zero_entry, read_run}

pub next_step : (i k : ℕ) → i + 1 + k ≡ i + suc k
next_step i k = omega arith

module _ {F : Type 0} where
  -- The write position is inside the buffer, and no more entries are counted than fit.
  pub record WellFormed (r : Ring F) : Type 0 where
    pub placed : r.head < length r.buf
    pub sized : r.count ≤ length r.buf

  -- The position of the oldest entry.
  abbrev pub front : Ring F → ℕ
  front r = (r.head + length r.buf - r.count) % length r.buf

  -- What the ring holds, oldest first.
  unfoldable pub contents : Ring F → List (Entry F)
  unfolding read_run
  contents r = read_run r.buf (front r) 0 r.count

  -- The entry that a run reads at its `k`th step.
  abbrev pub at : List (Entry F) → ℕ → ℕ → Entry F
  at buf first k = get_or buf ((first + k) % length buf) zero_entry

  pub length-read_run : (buf : List (Entry F)) (f i n : ℕ) → length (read_run buf f i n) ≡ n
  unfolding read_run
  length-read_run buf f i zero = refl
  length-read_run buf f i (suc n) = omega (arith, length-read_run buf f (i + 1) n)

  -- Two runs agree if they read the same entries.
  pub read_run_ext :
      (b c : List (Entry F)) (f g i j n : ℕ)
      → ((k : ℕ) → k < n → at b f (i + k) ≡ at c g (j + k))
      → read_run b f i n ≡ read_run c g j n
  unfolding read_run
  read_run_ext b c f g i j zero h = refl
  read_run_ext b c f g i j (suc n) h =
      ap₂ (λ x xs. x ∷ xs) (rw (add-zero i, add-zero j) at (h 0 (omega arith)))
        (read_run_ext b c f g (i + 1) (j + 1) n
          (λ k lt. rw (next_step i k, next_step j k) (h (suc k) (omega arith))))

  -- A longer run ends with the entry at its last step.
  pub read_run_snoc :
      (b : List (Entry F)) (f i n : ℕ)
      → read_run b f i (suc n) ≡ read_run b f i n ++ at b f (i + n) ∷ []
  unfolding read_run
  read_run_snoc b f i zero = rw add-zero
  read_run_snoc b f i (suc n) = rw (read_run_snoc b f (i + 1) n) (rw next_step)

-- After a push with room left, the oldest entry stands where it stood.
pub front_room : (h c n : ℕ) → h < n → c < n → ((h + 1) % n + n - (c + 1)) % n ≡ (h + n - c) % n
front_room h c n p q =
    let e : (h + 1) % n + n - (c + 1) ≡ (h + 1) % n + (n - (c + 1)) = omega arith in
    let e' : h + 1 + (n - (c + 1)) ≡ h + n - c = omega arith in
    ap (λ t. t % n) e ∙ (mod-add-mod (h + 1) n (n - (c + 1)) ∙ ap (λ t. t % n) e')

-- Below the count a run does not reach the write position; at the count it stands on it.
pub index-ne-head : (h c n k : ℕ) → h < n → c < n → k < c → ((h + n - c) % n + k) % n ≢ h
index-ne-head h c n k p q r = grind arith

pub index-head : (h c n : ℕ) → h < n → c < n → ((h + n - c) % n + c) % n ≡ h
index-head h c n p q = grind arith

-- In a full ring the oldest entry stands at the write position, and a push moves both on.
pub front_full : (h n : ℕ) → h < n → (h + n - n) % n ≡ h
front_full h n p = grind arith

pub index_full : (h n k : ℕ) → h < n → k < n → ((h + 1) % n + k) % n ≡ (h + (k + 1)) % n
index_full h n k p q =
    let e : h + 1 + k ≡ h + (k + 1) = omega arith in mod-add-mod (h + 1) n k ∙ ap (λ t. t % n) e

pub index_full-ne-head : (h n k : ℕ) → h < n → k + 1 < n → (h + (k + 1)) % n ≢ h
index_full-ne-head h n k p q = grind arith

pub index_full-head : (h n : ℕ) → h < n → (h + n) % n ≡ h
index_full-head h n p = grind arith
