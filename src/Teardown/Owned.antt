-- ===== src/Teardown/Owned.antt =====
-- What may be dropped is this project's own, and what is listed can be dropped.
use mikroscope.Common.{
  ℕ, ◌≤◌, List, [], ◌∷◌, ◌++◌, Option, none, some, Bool, true, false, ◌&&◌, not, Bytes, codes,
  bytes_eq, after_prefix, place_string, sort_strings, length, select, All, bytes_lt, ◌==◌, ◌≡◌, ◌≢◌,
  refl, ◌⊎◌, inl, inr, arith, Bool-cases, Option-cases, if◌then◌else◌,
}
use mikroscope.Teardown.{
  prefix, is_name_byte, name_bytes, ours, influx_already_deleted, Store, influx, elastic, postgres,
  sql_file, jsonl_file, elastic_prefix, glob_of, holds, remove_under, drop_ours, drop_item,
}

-- A lower-case letter, a digit or an underscore.
abbrev pub NameByte : ℕ → Type 0
NameByte b = ((97 ≤ b) × (b ≤ 122)) ⊎ (((48 ≤ b) × (b ≤ 57)) ⊎ (b ≡ 95))

abbrev pub StartsWith : Bytes → Bytes → Type 0
StartsWith p n = (rest : Bytes) × (n ≡ p ++ rest)

-- A name of this project: its prefix, and then at least one byte, each of which is a letter, a digit
-- or an underscore.
abbrev pub OwnName : Bytes → Type 0
OwnName n = (rest : Bytes) × (n ≡ prefix ++ rest) × (rest ≢ []) × All NameByte rest

abbrev pub Under : Bytes → Bytes → Type 0
Under p n = (p ≢ []) × StartsWith p n

-- What a store may drop.
abbrev pub Owned : Store → Bytes → Type 0
Owned (influx url token database) n = OwnName n
Owned (elastic url auth index) n = Under (elastic_prefix index) n
Owned (postgres dsn) n = OwnName n
Owned (sql_file path) n = Under path n
Owned (jsonl_file path) n = Under path n

-- What a store answers to the listing: a cluster the indices under the prefix it was asked for, the
-- file system the names that start with the path.
abbrev pub Answer : Store → List Bytes → Type 0
Answer (influx url token database) ns = Unit
Answer (elastic url auth index) ns = All (λ n. StartsWith (elastic_prefix index) n) ns
Answer (postgres dsn) ns = Unit
Answer (sql_file path) ns = All (λ n. StartsWith path n) ns
Answer (jsonl_file path) ns = All (λ n. StartsWith path n) ns

after_prefix-eq : (p s r : Bytes) → after_prefix p s ≡ some r → s ≡ p ++ r
unfolding after_prefix
after_prefix-eq [] s r h = cc
after_prefix-eq (q ∷ p) [] r h = cc
after_prefix-eq (q ∷ p) (b ∷ s) r h = ground (arith, after_prefix-eq p s r)

after_prefix-append : (p r : Bytes) → after_prefix p (p ++ r) ≡ some r
unfolding after_prefix
after_prefix-append [] r = refl
after_prefix-append (q ∷ p) r = ground (arith, after_prefix-append p r)

is_name_byte-NameByte : (b : ℕ) → is_name_byte b ≡ true → NameByte b
is_name_byte-NameByte b h = ground arith

name_bytes-NameByte : (bs : Bytes) → name_bytes bs ≡ true → All NameByte bs
unfolding name_bytes
name_bytes-NameByte [] h = tt
name_bytes-NameByte (b ∷ bs) h =
    (is_name_byte-NameByte b (ground arith), name_bytes-NameByte bs (ground arith))

not_empty : (bs : Bytes) → not (length bs == 0) ≡ true → bs ≢ []
not_empty [] h e = cc
not_empty (b ∷ bs) h e = cc

ours-OwnName : (n : Bytes) → ours n ≡ true → OwnName n
unfolding ours
ours-OwnName n h = elim (Option-cases (after_prefix prefix n)) [
  | inl e ↦ absurd (ground (arith, e))
  | inr (rest, e) ↦
      let both : (not (length rest == 0) && name_bytes rest) ≡ true = rw e at h in
      (
        rest,
        after_prefix-eq prefix n rest e,
        not_empty rest (ground arith),
        name_bytes-NameByte rest (ground arith),
      )
]

All-place_string :
    (P : Bytes → Type 0) (s : Bytes) (ts : List Bytes) → P s → All P ts → All P (place_string s ts)
unfolding place_string
All-place_string P s [] p h = (p, h)
All-place_string P s (t ∷ ts) p h = elim (Bool-cases (bytes_lt t s)) [
  | inl e ↦ rw e (h.0, All-place_string P s ts p h.1)
  | inr e ↦ rw e (p, h)
]

All-sort_strings : (P : Bytes → Type 0) (ts : List Bytes) → All P ts → All P (sort_strings ts)
unfolding sort_strings
All-sort_strings P [] h = h
All-sort_strings P (t ∷ ts) h =
    All-place_string P t (sort_strings ts) h.0 (All-sort_strings P ts h.1)

All-select :
    {P : Bytes → Type 0} (f : Bytes → Bool) (ns : List Bytes)
    → ((n : Bytes) → f n ≡ true → P n)
    → All P (select f ns)
All-select f [] h = tt
All-select f (n ∷ ns) h = elim (Bool-cases (f n)) [
  | inl e ↦ rw e (h n e, All-select f ns h)
  | inr e ↦ rw e (All-select f ns h)
]

All-map : {P Q : Bytes → Type 0} (ns : List Bytes) → ((n : Bytes) → P n → Q n) → All P ns → All Q ns
All-map [] f h = tt
All-map (n ∷ ns) f h = (f n h.0, All-map ns f h.1)

-- The two guards of a drop: the item is sent and owned, or it is refused.
Guarded : Option Bytes → Bytes → Type 0 → Type 0
Guarded sent item owned = (sent ≡ none) ⊎ ((sent ≡ some item) × owned)

drop_ours_lem : (n : Bytes) → Guarded (drop_ours n) n (OwnName n)
unfolding drop_ours Guarded
drop_ours_lem n = elim (Bool-cases (ours n)) [
  | inl e ↦ inr (rw e refl, ours-OwnName n e)
  | inr e ↦ inl (rw e refl)
]

empty_or : (p : Bytes) → (p ≡ []) ⊎ ((p ≢ []) × ((length p == 0) ≡ false))
empty_or [] = inl refl
empty_or (b ∷ p) = inr (λ h. cc, ground arith)

remove_under_lem : (p n : Bytes) → Guarded (remove_under p n) n (Under p n)
unfolding remove_under Guarded
remove_under_lem p n = elim (empty_or p) [
  | inl e ↦ inl (rw e refl)
  | inr (ne, e) ↦ elim (Option-cases (after_prefix p n)) [
    | inl a ↦ inl (rw (e, a) refl)
    | inr (r, a) ↦ inr (rw (e, a) refl, (ne, (r, after_prefix-eq p n r a)))
  ]
]

remove_under-StartsWith : (p n : Bytes) → p ≢ [] → StartsWith p n → remove_under p n ≡ some n
unfolding remove_under
remove_under-StartsWith p n ne (r, e) = elim (empty_or p) [
  | inl q ↦ absurd (ne q)
  | inr (_, q) ↦ rw (e, q, after_prefix-append p r) refl
]

drop_ours-eq : (n : Bytes) → ours n ≡ true → drop_ours n ≡ some n
unfolding drop_ours
drop_ours-eq n e = rw e refl

sorted-droppable :
    (p : Bytes) (ns : List Bytes)
    → All (λ n. StartsWith p n) ns
    → All (λ n. remove_under p n ≡ some n) (if length p == 0 then [] else sort_strings ns)
sorted-droppable p ns h = elim (empty_or p) [
  | inl e ↦ rw e tt
  | inr (ne, e) ↦ rw e (
      All-sort_strings (λ n. remove_under p n ≡ some n) ns
        (All-map ns (λ n. remove_under-StartsWith p n ne) h))
]

glob-droppable :
    (p : Bytes) (ns : List Bytes)
    → All (λ n. StartsWith p n) ns
    → All (λ n. remove_under p n ≡ some n) (glob_of p ns)
unfolding glob_of
glob-droppable p ns h = elim (Bool-cases (bytes_eq p (codes "-"))) [
  | inl d ↦ elim (Bool-cases (length p == 0)) [ inl e ↦ rw (d, e) tt | inr e ↦ rw (d, e) tt ]
  | inr d ↦ elim (Bool-cases (length p == 0)) [
    | inl e ↦ rw (d, e) tt
    | inr e ↦
        let all : All (λ n. remove_under p n ≡ some n) (sort_strings ns) =
          rw e at (sorted-droppable p ns h) in
        rw (d, e) all
  ]
]

holds-droppable :
    (st : Store) (ns : List Bytes) → Answer st ns → All (λ n. drop_item st n ≡ some n) (holds st ns)
unfolding holds drop_item
holds-droppable (influx url token database) ns a =
    All-sort_strings (λ n. drop_ours n ≡ some n) _
      (All-select (λ n. ours n && not (influx_already_deleted n)) ns
        (λ n e. drop_ours-eq n (ground arith)))
holds-droppable (elastic url auth index) ns a = sorted-droppable (elastic_prefix index) ns a
holds-droppable (postgres dsn) ns a = All-select ours ns drop_ours-eq
holds-droppable (sql_file path) ns a = glob-droppable path ns a
holds-droppable (jsonl_file path) ns a = glob-droppable path ns a

drop_item_lem : (st : Store) (n : Bytes) → Guarded (drop_item st n) n (Owned st n)
unfolding drop_item
drop_item_lem (influx url token database) n = drop_ours_lem n
drop_item_lem (elastic url auth index) n = remove_under_lem (elastic_prefix index) n
drop_item_lem (postgres dsn) n = drop_ours_lem n
drop_item_lem (sql_file path) n = remove_under_lem path n
drop_item_lem (jsonl_file path) n = remove_under_lem path n

-- For every store and every item: a drop refuses the item, or sends the item itself, which is then
-- the project's own: a table by its prefix and allowed bytes, an index or a file by the configured
-- prefix, which is not empty. And each item that the store lists, from an answer under the prefix it
-- was asked for, is one that a drop sends.
pub holds-Owned :
    (st : Store) (answer : List Bytes) (item : Bytes)
    → Answer st answer
    → All (λ n. drop_item st n ≡ some n) (holds st answer)
      × ((drop_item st item ≡ none) ⊎ ((drop_item st item ≡ some item) × Owned st item))
unfolding Guarded
holds-Owned st answer item a = (holds-droppable st answer a, drop_item_lem st item)
