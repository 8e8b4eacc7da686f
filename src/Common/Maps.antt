-- ===== src/Common/Maps.antt =====
-- Go maps with string keys, as association lists: a read of a missing key and a write that replaces.
use Prim.Native.Nat.{ℕ, ◌+◌}
use mathlib.Core.Path.{◌≡◌, refl}
use mathlib.Core.List.{List, [], ◌∷◌}
use mathlib.Core.Option.{Option, none, some}
use native.Mathlib.Omega.{arith}
use mikroscope.Common.Tests.{if◌then◌else◌, u64}
use mikroscope.Common.Text.{Bytes, bytes_eq, bytes_eq_iff, bytes_eq_refl}

module _ {ℓ} {V : Type ℓ} where
  unfoldable pub lookup : Bytes → List (Bytes × V) → Option V
  lookup k [] = none
  lookup k ((j, v) ∷ m) = let rest = lookup k m in if bytes_eq j k then some v else rest

  unfoldable pub insert : Bytes → V → List (Bytes × V) → List (Bytes × V)
  insert k v [] = (k, v) ∷ []
  insert k v ((j, w) ∷ m) =
      let rest = insert k v m in if bytes_eq j k then (k, v) ∷ m else (j, w) ∷ rest

  pub lookup-insert :
      (k j : Bytes) (v : V) (m : List (Bytes × V))
      → lookup j (insert k v m) ≡ (if bytes_eq k j then some v else lookup j m)
  unfolding lookup insert
  lookup-insert k j v [] = refl
  lookup-insert k j v ((i, w) ∷ m) =
      ground (arith, bytes_eq_iff k j, bytes_eq_iff i k, bytes_eq_iff i j, lookup-insert k j v m)

  pub lookup-insert_self :
      (k : Bytes) (v : V) (m : List (Bytes × V)) → lookup k (insert k v m) ≡ some v
  lookup-insert_self k v m = ground (arith, lookup-insert k k v m, bytes_eq_refl k)

-- `m[k]` of a map of counters: 0 where the key is missing.
abbrev pub count_at : Bytes → List (Bytes × ℕ) → ℕ
count_at k m = elim (lookup k m) [ none ↦ 0 | some n ↦ n ]

-- `m[k]++` in uint64.
unfoldable pub bump : Bytes → List (Bytes × ℕ) → List (Bytes × ℕ)
bump k m = insert k (u64 (count_at k m + 1)) m
