-- ===== src/Procfs/Keys/Refreshed.antt =====
-- A map of keys and numbers that is refreshed from a file of them.
use mikroscope.Common.{
  ℕ, ◌+◌, ◌≤◌, List, [], ◌∷◌, none, true, false, Bytes, bytes_eq, bytes_eq_iff, bytes_eq_refl,
  insert, lookup, lookup-insert, ◌≡◌, refl, sym, ap, ◌∙◌, arith, length, select, Bool-cases,
  Option-cases, inl, inr, or_else, is_some,
}
use mikroscope.Procfs.Keys.Rows.{Distinct}

abbrev pub Table : Type 0
Table = List (Bytes × ℕ)

-- The map with the same keys, in the same order, and the number of each that the file has.
abbrev pub refresh : Table → Table → Table
refresh file [] = []
refresh file ((k, v) ∷ m) = (k, or_else v (lookup k file)) ∷ refresh file m

-- How many rows of the file are wanted.
abbrev pub pending : Table → Table → ℕ
pending m file = length (select (λ r. is_some (lookup r.0 m)) file)

abbrev count_key : Bytes → Table → ℕ
count_key k file = length (select (λ r. bytes_eq k r.0) file)

count_key-none : (k : Bytes) (file : Table) → lookup k file ≡ none → count_key k file ≡ 0
unfolding lookup
count_key-none k [] h = refl
count_key-none k ((j, v) ∷ file) h =
    ground (arith, count_key-none k file, bytes_eq_iff j k, bytes_eq_iff k j)

count_key-le : (k : Bytes) (file : Table) → Distinct file → count_key k file ≤ 1
unfolding lookup
count_key-le k [] d = omega arith
count_key-le k ((j, v) ∷ file) d = elim (Bool-cases (bytes_eq k j)) [
  | inl e ↦
      let same : lookup k file ≡ none = rw ((bytes_eq_iff k j).0 e) (d.0) in
      rw e (omega (arith, count_key-none k file same))
  | inr e ↦ rw e (count_key-le k file d.1)
]

pending-cons :
    (k : Bytes) (v : ℕ) (m file : Table)
    → pending ((k, v) ∷ m) file ≤ count_key k file + pending m file
unfolding lookup
pending-cons k v m [] = omega arith
pending-cons k v m ((j, n) ∷ file) = ground (arith, pending-cons k v m file)

pending_nil : (file : Table) → pending [] file ≡ 0
unfolding lookup
pending_nil [] = refl
pending_nil (r ∷ file) = pending_nil file

-- The rows of a file without a key twice that are wanted are no more than the keys that are.
pub pending-le : (m file : Table) → Distinct file → pending m file ≤ length m
pending-le [] file d = omega (arith, pending_nil file)
pending-le ((k, v) ∷ m) file d =
    omega (arith, pending-cons k v m file, count_key-le k file d, pending-le m file d)

pub refresh_nil : (m : Table) → refresh [] m ≡ m
unfolding lookup
refresh_nil [] = refl
refresh_nil ((k, v) ∷ m) = ap (λ t. (k, v) ∷ t) (refresh_nil m)

-- A row that is not wanted changes nothing.
pub refresh_unwanted :
    (k : Bytes) (n : ℕ) (file m : Table)
    → lookup k m ≡ none
    → refresh ((k, n) ∷ file) m ≡ refresh file m
unfolding lookup
refresh_unwanted k n file [] h = refl
refresh_unwanted k n file ((j, v) ∷ m) h = elim (Bool-cases (bytes_eq j k)) [
  | inl e ↦ absurd (ground arith)
  | inr e ↦
      let other : bytes_eq k j ≡ false = ground (arith, bytes_eq_iff j k, bytes_eq_iff k j) in
      rw other
        (ap (λ t. (j, or_else v (lookup j file)) ∷ t) (refresh_unwanted k n file m (ground arith)))
]

-- A row that is wanted is stored, and does not come again.
pub refresh_wanted :
    (k : Bytes) (n : ℕ) (file m : Table)
    → Distinct m
    → lookup k file ≡ none
    → is_some (lookup k m) ≡ true
    → refresh file (insert k n m) ≡ refresh ((k, n) ∷ file) m
unfolding lookup insert
refresh_wanted k n file [] d f w = cc
refresh_wanted k n file ((j, v) ∷ m) d f w = elim (Bool-cases (bytes_eq j k)) [
  | inl e ↦
      let same : j ≡ k = (bytes_eq_iff j k).0 e in
      let absent : lookup k m ≡ none = rw (← same) d.0 in
      rw (e, same, f, bytes_eq_refl k)
        (ap (λ t. (k, n) ∷ t) (sym (refresh_unwanted k n file m absent)))
  | inr e ↦
      let other : bytes_eq k j ≡ false = ground (arith, bytes_eq_iff j k, bytes_eq_iff k j) in
      rw (e, other)
        (ap (λ t. (j, or_else v (lookup j file)) ∷ t)
          (refresh_wanted k n file m d.1 f (ground arith)))
]

pub refresh_pending :
    (file m : Table) → Distinct file → Distinct m → pending m file ≡ 0 → refresh file m ≡ m
refresh_pending [] m f d p = refresh_nil m
refresh_pending ((k, n) ∷ file) m f d p = elim (Option-cases (lookup k m)) [
  | inl e ↦ refresh_unwanted k n file m e ∙ refresh_pending file m f.1 d (ground arith)
  | inr (v, e) ↦ absurd (ground arith)
]

pub insert-Distinct : (k : Bytes) (n : ℕ) (m : Table) → Distinct m → Distinct (insert k n m)
unfolding insert lookup
insert-Distinct k n [] d = (refl, tt)
insert-Distinct k n ((j, v) ∷ m) d = elim (Bool-cases (bytes_eq j k)) [
  | inl e ↦ rw e (rw (← (bytes_eq_iff j k).0 e) d.0, d.1)
  | inr e ↦ rw e (
    lookup-insert k j n m ∙ ground (arith, bytes_eq_iff j k, bytes_eq_iff k j),
    insert-Distinct k n m d.1,
  )
]

pub length-insert :
    (k : Bytes) (n : ℕ) (m : Table) → is_some (lookup k m) ≡ true → length (insert k n m) ≡ length m
unfolding insert lookup
length-insert k n [] h = cc
length-insert k n ((j, v) ∷ m) h = ground (arith, length-insert k n m)

pub pending-insert :
    (k : Bytes) (n : ℕ) (m file : Table)
    → is_some (lookup k m) ≡ true
    → pending (insert k n m) file ≡ pending m file
pending-insert k n m [] h = refl
pending-insert k n m ((j, v) ∷ file) h = elim (Bool-cases (bytes_eq k j)) [
  | inl e ↦
      let same : is_some (lookup j m) ≡ true = rw (← (bytes_eq_iff k j).0 e) h in
      ground (arith, lookup-insert k j n m, pending-insert k n m file h)
  | inr e ↦ ground (arith, lookup-insert k j n m, pending-insert k n m file h)
]
