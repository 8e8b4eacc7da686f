-- ===== src/Sinks/Queue/Eviction.antt =====
-- The eviction loop of the queue: what it keeps, and that its counts are exact.
use mikroscope.Common.{
  ℕ, ◌+◌, ◌-◌, ◌≤◌, ◌<◌, List, [], ◌∷◌, Option, some, true, ◌≡◌, refl, arith, u64, u64_mod, length,
  leb, leb→le, Bool-cases, inl, inr, ◌⊎◌, All,
}
use mikroscope.Sinks.Queue.{Batch, size, same_batch, is_inflight, evict_behind, evict}
use mikroscope.Sinks.Queue.Order.{total_size, Ascending, Ascending-le, newest_or}

-- What an eviction leaves of the batches `old`, where `extra` bytes are queued in front of them: the
-- bytes and the drops are counted, the order and the newest batch are kept, and the budget is met unless at most `k` batches are left.
pub record Evicted (k lo extra max_q : ℕ) (old : List Batch) (before : ℕ) (r : List Batch × ℕ × ℕ)
    : Type 0 where
  pub exact : r.1 ≡ extra + total_size r.0
  pub counted : r.2 + length r.0 ≡ before + length old
  pub ordered : Ascending lo r.0
  pub same_newest : (d : Batch) → newest_or d r.0 ≡ newest_or d old
  pub within : (r.1 ≤ max_q) ⊎ (length r.0 ≤ k)

unchanged :
    (k lo extra max_q : ℕ) (bs : List Batch) (queued dropped : ℕ)
    → queued ≡ extra + total_size bs
    → Ascending lo bs
    → (queued ≤ max_q) ⊎ (length bs ≤ k)
    → Evicted k lo extra max_q bs dropped (bs, queued, dropped)
unchanged k lo extra max_q bs queued dropped e h w = record {
  exact = e;
  counted = refl;
  ordered = h;
  same_newest = λ d. refl;
  within = w;
}

-- Dropping the head first.
dropped_head :
    (k lo extra max_q dropped : ℕ) (b c : Batch) (rest : List Batch) (r : List Batch × ℕ × ℕ)
    → dropped + 1 < u64_mod
    → lo ≤ b.address
    → Evicted k (b.address + 1) extra max_q (c ∷ rest) (u64 (dropped + 1)) r
    → Evicted k lo extra max_q (b ∷ c ∷ rest) dropped r
dropped_head k lo extra max_q dropped b c rest r small le v = record {
  exact = v.exact;
  counted = omega (arith, v.counted);
  ordered = Ascending-le lo (b.address + 1) r.0 (omega arith) v.ordered;
  same_newest = v.same_newest;
  within = v.within;
}

pub evict_behind-Evicted :
    (max_q lo extra queued dropped : ℕ) (bs : List Batch)
    → queued ≡ extra + total_size bs
    → Ascending lo bs
    → dropped + length bs < u64_mod
    → Evicted 1 lo extra max_q bs dropped (evict_behind max_q bs queued dropped)
unfolding evict_behind
evict_behind-Evicted max_q lo extra queued dropped [] e h small =
    unchanged 1 lo extra max_q [] queued dropped e h (inr (omega arith))
evict_behind-Evicted max_q lo extra queued dropped (c ∷ []) e h small =
    unchanged 1 lo extra max_q (c ∷ []) queued dropped e h (inr (omega arith))
evict_behind-Evicted max_q lo extra queued dropped (c ∷ d ∷ rest) e h small =
    elim (Bool-cases (leb queued max_q)) [
      | inl fits ↦
          rw fits
            (unchanged 1 lo extra max_q (c ∷ d ∷ rest) queued dropped e h (inl (leb→le _ _ fits)))
      | inr over ↦ rw over (
          dropped_head 1 lo extra max_q dropped c d rest _ (omega arith) h.0 (
            evict_behind-Evicted max_q (c.address + 1) extra (queued - size c) (u64 (dropped + 1))
              (d ∷ rest) (omega arith) h.1 (omega arith)))
    ]

-- The in-flight head stays in front of what the loop leaves behind it.
kept_head :
    (lo max_q queued dropped : ℕ) (b c : Batch) (rest : List Batch)
    → lo ≤ b.address
    → Evicted 1
        (b.address + 1)
        (size b)
        max_q
        (c ∷ rest)
        dropped
        (evict_behind max_q (c ∷ rest) queued dropped)
    → let behind = evict_behind max_q (c ∷ rest) queued dropped in
      Evicted 2 lo 0 max_q (b ∷ c ∷ rest) dropped (b ∷ behind.0, behind.1, behind.2)
kept_head lo max_q queued dropped b c rest le v = record {
  exact = omega (arith, v.exact);
  counted = omega (arith, v.counted);
  ordered = (le, v.ordered);
  same_newest = λ d. v.same_newest b;
  within = elim v.within [ inl fits ↦ inl fits | inr few ↦ inr (omega arith) ];
}

pub evict-Evicted :
    (inflight : Option Batch) (max_q lo queued dropped : ℕ) (bs : List Batch)
    → queued ≡ total_size bs
    → Ascending lo bs
    → dropped + length bs < u64_mod
    → Evicted 2 lo 0 max_q bs dropped (evict inflight max_q bs queued dropped)
unfolding evict
evict-Evicted inflight max_q lo queued dropped [] e h small =
    unchanged 2 lo 0 max_q [] queued dropped e h (inr (omega arith))
evict-Evicted inflight max_q lo queued dropped (b ∷ []) e h small =
    unchanged 2 lo 0 max_q (b ∷ []) queued dropped (omega arith) h (inr (omega arith))
evict-Evicted inflight max_q lo queued dropped (b ∷ c ∷ rest) e h small =
    elim (Bool-cases (leb queued max_q)) [
      | inl fits ↦ rw fits (
          unchanged 2 lo 0 max_q (b ∷ c ∷ rest) queued dropped (omega arith) h
            (inl (leb→le _ _ fits)))
      | inr over ↦ elim (Bool-cases (is_inflight inflight b)) [
        | inl busy ↦
            rw (over, busy)
              (kept_head lo max_q queued dropped b c rest h.0 (
                evict_behind-Evicted max_q (b.address + 1) (size b) queued dropped (c ∷ rest) e h.1
                  (omega arith)))
        | inr free ↦
            rw (over, free)
              (dropped_head 2 lo 0 max_q dropped b c rest _ (omega arith) h.0 (
                evict-Evicted inflight max_q (b.address + 1) (queued - size b) (u64 (dropped + 1))
                  (c ∷ rest) (omega arith) h.1 (omega arith)))
      ]
    ]

pub same_batch_self : (b : Batch) → 0 < size b → same_batch b b ≡ true
unfolding same_batch
same_batch_self b h = ground arith

-- An eviction leaves the in-flight head where it is.
pub evict-head :
    (f : Batch) (max_q queued dropped : ℕ) (rest : List Batch)
    → same_batch f f ≡ true
    → (after : List Batch) × ((evict (some f) max_q (f ∷ rest) queued dropped).0 ≡ f ∷ after)
unfolding evict
evict-head f max_q queued dropped [] same = ([], refl)
evict-head f max_q queued dropped (c ∷ rest) same = elim (Bool-cases (leb queued max_q)) [
  | inl fits ↦ (c ∷ rest, rw fits refl)
  | inr over ↦ ((evict_behind max_q (c ∷ rest) queued dropped).0, rw (over, same) refl)
]

evict_behind-All :
    (P : Batch → Type 0) (max_q queued dropped : ℕ) (bs : List Batch)
    → All P bs
    → All P (evict_behind max_q bs queued dropped).0
unfolding evict_behind
evict_behind-All P max_q queued dropped [] h = tt
evict_behind-All P max_q queued dropped (c ∷ []) h = h
evict_behind-All P max_q queued dropped (c ∷ d ∷ rest) h =
    ground (arith, evict_behind-All P max_q (queued - size c) (u64 (dropped + 1)) (d ∷ rest) h.1)

pub evict-All :
    (P : Batch → Type 0) (inflight : Option Batch) (max_q queued dropped : ℕ) (bs : List Batch)
    → All P bs
    → All P (evict inflight max_q bs queued dropped).0
unfolding evict
evict-All P inflight max_q queued dropped [] h = tt
evict-All P inflight max_q queued dropped (b ∷ []) h = h
evict-All P inflight max_q queued dropped (b ∷ c ∷ rest) h = ground (
  arith,
  evict_behind-All P max_q queued dropped (c ∷ rest) h.1,
  evict-All P inflight max_q (queued - size b) (u64 (dropped + 1)) (c ∷ rest) h.1,
)
