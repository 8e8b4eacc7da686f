-- ===== src/Sinks/Queue/Order.antt =====
-- Batches in the order of their allocations, and the newest of them.
use mikroscope.Common.{ℕ, ◌+◌, ◌≤◌, List, [], ◌∷◌, ◌++◌, ◌≡◌, refl, ap, arith, sum_by}
use mikroscope.Sinks.Queue.{Batch, size}

abbrev pub total_size : List Batch → ℕ
total_size = sum_by size

-- The addresses go up, from a lower bound: the batches stand in the order they were pushed.
abbrev pub Ascending : ℕ → List Batch → Type 0
Ascending lo [] = Unit
Ascending lo (b ∷ bs) = (lo ≤ b.address) × Ascending (b.address + 1) bs

pub Ascending-le : (lo hi : ℕ) (bs : List Batch) → lo ≤ hi → Ascending hi bs → Ascending lo bs
Ascending-le lo hi [] le h = tt
Ascending-le lo hi (b ∷ bs) le h = (omega (arith, h.0), h.1)

-- The newest batch, `d` if there is none.
abbrev pub newest_or : Batch → List Batch → Batch
newest_or d [] = d
newest_or d (b ∷ bs) = newest_or b bs

-- The address that the next batch has at least.
abbrev pub end_of : ℕ → List Batch → ℕ
end_of lo [] = lo
end_of lo (b ∷ bs) = end_of (b.address + 1) bs

pub Ascending-split :
    (lo : ℕ) (xs ys : List Batch) → Ascending lo (xs ++ ys) → Ascending (end_of lo xs) ys
Ascending-split lo [] ys h = h
Ascending-split lo (x ∷ xs) ys h = Ascending-split (x.address + 1) xs ys h.1

pub Ascending-join :
    (lo : ℕ) (xs ys zs : List Batch)
    → Ascending lo (xs ++ ys)
    → Ascending (end_of lo xs) zs
    → Ascending lo (xs ++ zs)
Ascending-join lo [] ys zs h k = k
Ascending-join lo (x ∷ xs) ys zs h k = (h.0, Ascending-join (x.address + 1) xs ys zs h.1 k)

pub end_of-append : (lo : ℕ) (xs ys : List Batch) → end_of lo (xs ++ ys) ≡ end_of (end_of lo xs) ys
end_of-append lo [] ys = refl
end_of-append lo (x ∷ xs) ys = end_of-append (x.address + 1) xs ys

-- A batch with a later address may follow.
pub Ascending-snoc :
    (lo : ℕ) (xs : List Batch) (b : Batch)
    → Ascending lo xs
    → end_of lo xs ≤ b.address
    → Ascending lo (xs ++ b ∷ [])
Ascending-snoc lo [] b h le = (le, tt)
Ascending-snoc lo (x ∷ xs) b h le = (h.0, Ascending-snoc (x.address + 1) xs b h.1 le)

end_of-newest :
    (x : Batch) (bs : List Batch) → end_of (x.address + 1) bs ≡ (newest_or x bs).address + 1
end_of-newest x [] = refl
end_of-newest x (b ∷ bs) = end_of-newest b bs

pub end_of_newest :
    (lo : ℕ) (bs : List Batch) (b : Batch)
    → ((d : Batch) → newest_or d bs ≡ b)
    → lo ≤ b.address + 1
    → end_of lo bs ≤ b.address + 1
end_of_newest lo [] b h le = le
end_of_newest lo (x ∷ xs) b h le = omega (arith, end_of-newest x xs, ap (λ c. c.address) (h x))

pub newest-snoc : (d : Batch) (xs : List Batch) (b : Batch) → newest_or d (xs ++ b ∷ []) ≡ b
newest-snoc d [] b = refl
newest-snoc d (x ∷ xs) b = newest-snoc x xs b

pub end_of-ge : (lo : ℕ) (bs : List Batch) → Ascending lo bs → lo ≤ end_of lo bs
end_of-ge lo [] h = omega arith
end_of-ge lo (b ∷ bs) h = omega (arith, h.0, end_of-ge (b.address + 1) bs h.1)
