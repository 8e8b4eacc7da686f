-- ===== src/Sample/Tests.antt =====
-- Differences and rankings on concrete reads.
use mathlib.Core.List.{Permᴰ}
use mikroscope.Common.{
  ℕ, ◌+◌, List, [], ◌∷◌, ◌++◌, map, ◌≡◌, refl, arith, codes, u64, sum_by, length, min,
}
use mikroscope.Sample.Counter.{sub}
use mikroscope.Sample.Laws.{
  restarts, went_back, last_read, differences-account, differences_of, readings,
  differences-readings,
}
use mikroscope.Sample.Irqs.{Scored, rank}
use mikroscope.Sample.Ranking.{Ranked, Dominates, rank-top}
use mikroscope.Sample.Fixtures.{scored}

near_wrap : sub 5 4294967290 0 ≡ (11, 0)
unfolding sub
near_wrap = refl

a_restart : sub 5 100 0 ≡ (5, 1)
unfolding sub
a_restart = refl

-- A wrap, an advance, and a restart.
abbrev reads : List ℕ
reads = 5 ∷ 300000005 ∷ 7 ∷ []

differences-account_example :
    let r = differences_of 4294967290 reads 0 in
    (sum_by (λ d. d) r.0 + 4294967290 ≡ last_read 4294967290 reads + went_back 4294967290 reads)
    × (r.1 ≡ u64 (0 + restarts 4294967290 reads))
differences-account_example =
    differences-account 4294967290 0 reads (omega arith)
      (omega arith, (omega arith, (omega arith, tt)))

a_run : (restarts 4294967290 reads ≡ 1) × (went_back 4294967290 reads ≡ 4294967296 + 300000005)
a_run = (refl, refl)

abbrev steps : List ℕ
steps = 100 ∷ 250000000 ∷ 7 ∷ []

differences-readings_example : differences_of 4200000000 (readings 4200000000 steps) 0 ≡ (steps, 0)
differences-readings_example =
    differences-readings 4200000000 0 steps (omega arith)
      (omega arith, (omega arith, (omega arith, tt)))

abbrev three : List Scored
three = scored 2 (codes "a") ∷ scored 9 (codes "b") ∷ scored 5 (codes "c") ∷ []

rank-top_example :
    (kept others : List Scored) × (rank 2 three
      ≡ (map (λ s. s.delta) kept, u64 (sum_by (λ s. s.total) (kept ++ others))))
    × Permᴰ (kept ++ others) three
    × Ranked kept
    × Dominates kept others
    × (length kept ≡ min 2 (length three))
rank-top_example = rank-top 2 three
