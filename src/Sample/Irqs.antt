-- ===== src/Sample/Irqs.antt =====
-- internal/sample/sample.go, `topIRQs` and `irqRow`: the interrupt sources, matched by ID.
use mikroscope.Common.{
  ℕ, zero, suc, List, [], ◌∷◌, map, Option, none, some, Bool, Bytes, bytes_eq, bytes_lt, lookup,
  insert, ltb, ◌==◌, if◌then◌else◌, u64, take, sum_by,
}
use mikroscope.Procfs.Types.{Irq, irq_total}
use mikroscope.Sample.Types.{IrqDelta}
use mikroscope.Sample.Counter.{Counted, ◌>>=◌, pure, sub}
use mikroscope.Sample.Rows.{sub_all}

-- The first row with an ID.
find_irq : Bytes → List Irq → Option Irq
find_irq id [] = none
find_irq id (r ∷ rs) = let rest = find_irq id rs in if bytes_eq r.id id then some r else rest

irq_pair : Option Irq → Option Irq → Counted ℕ
irq_pair none p = pure 0
irq_pair (some c) none = pure 0
irq_pair (some c) (some p) = sub (irq_total c) (irq_total p)

unfoldable pub irq_row : List Irq → List Irq → Bytes → Counted ℕ
unfolding find_irq irq_pair
irq_row cur prev id = irq_pair (find_irq id cur) (find_irq id prev)

pub record Scored : Type 0 where
  pub delta : IrqDelta
  pub total : ℕ

-- `prevByID`: a later row with the same ID replaces an earlier one.
unfoldable pub by_id : List Irq → List (Bytes × Irq) → List (Bytes × Irq)
by_id [] m = m
by_id (r ∷ rs) m = by_id rs (insert r.id r m)

score_row : Irq → Option Irq → List Scored → Counted (List Scored)
score_row c none rest = pure rest
score_row c (some p) rest = do
  d ← sub_all c.per_cpu p.per_cpu
  pure (
      record {
        delta = record { id = c.id; name = c.description; per_cpu = d };
        total = u64 (sum_by (λ v. v) d);
      }
      ∷ rest)

-- The matched rows, in the order of the current read.
unfoldable pub score : List Irq → List (Bytes × Irq) → Counted (List Scored)
unfolding score_row
score [] prev = pure []
score (c ∷ cs) prev = do rest ← score cs prev; score_row c (lookup c.id prev) rest

-- The comparison of the sort: the larger total first, then the smaller ID.
unfoldable pub before : Scored → Scored → Bool
before a b = if a.total == b.total then bytes_lt a.delta.id b.delta.id else ltb b.total a.total

-- `sort.SliceStable`: a row goes in front of the first row that it is not behind.
unfoldable pub place : Scored → List Scored → List Scored
place x [] = x ∷ []
place x (y ∷ ys) = let rest = place x ys in if before y x then y ∷ rest else x ∷ y ∷ ys

unfoldable pub stable_sort : List Scored → List Scored
unfolding place
stable_sort [] = []
stable_sort (x ∷ xs) = place x (stable_sort xs)

-- The end of `topIRQs`: the `k` first rows of the sorted list, and the total over all of them.
unfoldable pub rank : ℕ → List Scored → List IrqDelta × ℕ
rank k all = (map (λ s. s.delta) (take k (stable_sort all)), u64 (sum_by (λ s. s.total) all))

unfoldable pub top_irqs : List Irq → List Irq → ℕ → Counted (List IrqDelta × ℕ)
top_irqs cur prev zero = pure ([], 0)
top_irqs [] prev (suc k) = pure ([], 0)
top_irqs (c ∷ cs) [] (suc k) = pure ([], 0)
top_irqs (c ∷ cs) (p ∷ ps) (suc k) = do
  all ← score (c ∷ cs) (by_id (p ∷ ps) [])
  pure (rank (suc k) all)
