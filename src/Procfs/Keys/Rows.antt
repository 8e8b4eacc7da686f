-- ===== src/Procfs/Keys/Rows.antt =====
-- The rows of a file of keys and numbers, apart from the map that a parser stores them in.
use mikroscope.Common.{
  ℕ, List, [], ◌∷◌, Option, none, some, false, Bytes, insert, lookup, bytes_eq, bytes_eq_iff, All,
  ◌++◌, append-nil, append_assoc, arith, ◌≡◌, refl, sym, ap, ◌∙◌, length, ◌==◌, if◌then◌else◌,
  Bool-cases, Option-cases, inl, inr, of_some,
}
use mikroscope.Procfs.Numbers.{parse_uint}
use mikroscope.Procfs.Lines.{each_all}
use mikroscope.Procfs.Keys.{key_value, vmstat_line}

abbrev numbered : Bytes → Option ℕ → Option (Bytes × ℕ)
numbered key none = none
numbered key (some n) = some (key, n)

-- The key and the number of a row, where it has them.
unfoldable pub row_of : Bytes → Option (Bytes × ℕ)
row_of line =
    let (key, v) = key_value line in if length key == 0 then none else numbered key (parse_uint v)

unfoldable pub rows : List Bytes → List (Bytes × ℕ)
rows [] = []
rows (l ∷ ls) = of_some (rows ls) (λ r. r ∷ rows ls) (row_of l)

unfoldable pub store_rows : List (Bytes × ℕ) → List (Bytes × ℕ) → List (Bytes × ℕ)
store_rows m [] = m
store_rows m ((k, n) ∷ rs) = store_rows (insert k n m) rs

vmstat_line-row_of :
    (out : List (Bytes × ℕ)) (line : Bytes)
    → vmstat_line out line ≡ of_some out (λ r. insert r.0 r.1 out) (row_of line)
unfolding vmstat_line row_of
vmstat_line-row_of out line =
    let (key, v) = key_value line in
    elim (Bool-cases (length key == 0)) [
      | inl e ↦ rw e refl
      | inr e ↦ elim (Option-cases (parse_uint v)) [
        | inl o ↦ rw (e, o) refl
        | inr (n, o) ↦ rw (e, o) refl
      ]
    ]

pub each_all-rows :
    (ls : List Bytes) (m : List (Bytes × ℕ)) → each_all vmstat_line m ls ≡ store_rows m (rows ls)
unfolding each_all rows store_rows
each_all-rows [] m = refl
each_all-rows (l ∷ ls) m = elim (Option-cases (row_of l)) [
  | inl e ↦ ap (λ s. each_all vmstat_line s ls) (vmstat_line-row_of m l) ∙ rw e (each_all-rows ls m)
  | inr ((k, n), e) ↦
      ap (λ s. each_all vmstat_line s ls) (vmstat_line-row_of m l)
      ∙ rw e (each_all-rows ls (insert k n m))
]

-- No key twice.
abbrev pub Distinct {ℓ} : {V : Type ℓ} → List (Bytes × V) → Type ℓ
Distinct [] = Unit
Distinct ((k, v) ∷ m) = (lookup k m ≡ none) × Distinct m

abbrev Apart : List (Bytes × ℕ) → List (Bytes × ℕ) → Type 0
Apart m rs = All (λ r. lookup r.0 m ≡ none) rs

lookup_snoc :
    (j k : Bytes) (n : ℕ) (m : List (Bytes × ℕ))
    → lookup j m ≡ none
    → bytes_eq k j ≡ false
    → lookup j (m ++ (k, n) ∷ []) ≡ none
unfolding lookup
lookup_snoc j k n [] h e = rw e refl
lookup_snoc j k n ((i, v) ∷ m) h e = ground (arith, lookup_snoc j k n m)

insert_new :
    (k : Bytes) (n : ℕ) (m : List (Bytes × ℕ)) → lookup k m ≡ none → insert k n m ≡ m ++ (k, n) ∷ []
unfolding lookup insert
insert_new k n [] h = refl
insert_new k n ((j, v) ∷ m) h = elim (Bool-cases (bytes_eq j k)) [
  | inl e ↦ absurd (ground arith)
  | inr e ↦ rw e (ap (λ t. (j, v) ∷ t) (insert_new k n m (ground arith)))
]

Apart-snoc :
    (k : Bytes) (n : ℕ) (m rs : List (Bytes × ℕ))
    → Apart m rs
    → lookup k rs ≡ none
    → Apart (m ++ (k, n) ∷ []) rs
unfolding lookup
Apart-snoc k n m [] a h = tt
Apart-snoc k n m ((j, v) ∷ rs) a h = elim (Bool-cases (bytes_eq j k)) [
  | inl e ↦ absurd (ground arith)
  | inr e ↦ (
    lookup_snoc j k n m a.0 (ground (arith, bytes_eq_iff j k, bytes_eq_iff k j)),
    Apart-snoc k n m rs a.1 (ground arith),
  )
]

store_rows-append : (rs m : List (Bytes × ℕ)) → Distinct rs → Apart m rs → store_rows m rs ≡ m ++ rs
unfolding store_rows
store_rows-append [] m d a = sym (append-nil m)
store_rows-append ((k, n) ∷ rs) m d a =
    ap (λ t. store_rows t rs) (insert_new k n m a.0)
    ∙ store_rows-append rs (m ++ (k, n) ∷ []) d.1 (Apart-snoc k n m rs a.1 d.0)
    ∙ append_assoc m ((k, n) ∷ []) rs

Apart-nil : (rs : List (Bytes × ℕ)) → Apart [] rs
unfolding lookup
Apart-nil [] = tt
Apart-nil (r ∷ rs) = (refl, Apart-nil rs)

-- Rows with distinct keys are the map that they are stored in.
pub store_rows-Distinct : (rs : List (Bytes × ℕ)) → Distinct rs → store_rows [] rs ≡ rs
store_rows-Distinct rs d = store_rows-append rs [] d (Apart-nil rs)
