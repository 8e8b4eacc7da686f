-- ===== src/Sinks/Queue/Pushes.antt =====
-- A push keeps the queue's invariant.
use mikroscope.Common.{
  ℕ, ◌+◌, ◌*◌, ◌≤◌, ◌<◌, List, [], ◌∷◌, ◌++◌, none, some, false, ◌≡◌, ◌≢◌, refl, ◌∙◌, arith,
  u64_mod, length, length-append, sum_by-append, ◌==◌, Bool-cases, inl, inr, ◌⊎◌, All, All-append,
  Bytes,
}
use mikroscope.Sinks.Queue.{
  Batch, BatchQueue, Worker, World, pushes, size, push, evict, act, second,
}
use mikroscope.Sinks.Queue.Eviction.{Evicted, evict-Evicted, evict-head, same_batch_self, evict-All}
use mikroscope.Sinks.Queue.Order.{
  total_size, Ascending, newest_or, end_of, end_of-append, end_of-ge, Ascending-split,
  Ascending-join, Ascending-snoc, end_of_newest, newest-snoc,
}

-- The batch being posted is the head of the queue and marked in flight; at other times none is.
abbrev pub Held : Worker → BatchQueue → Type 0
Held (Worker.posting b) q =
    (q.inflight ≡ some b) × (0 < size b) × ((rest : List Batch) × (q.queue ≡ b ∷ rest))
Held Worker.idle q = q.inflight ≡ none
Held Worker.looping q = q.inflight ≡ none
Held Worker.failing q = q.inflight ≡ none

pub record Sound (w : World) : Type 0 where
  pub exact : w.q.queued ≡ total_size w.q.queue
  pub accounted : w.q.stats.written + w.q.stats.dropped + length w.q.queue ≡ w.next
  pub written : w.q.stats.written ≡ length w.acknowledged
  pub ordered : Ascending 0 (w.acknowledged ++ w.q.queue)
  pub fresh : end_of 0 (w.acknowledged ++ w.q.queue) ≤ w.next
  pub full : All (λ b. 0 < size b) w.q.queue
  pub held : Held w.worker w.q
  pub patient : w.q.backoff ≤ 60 * second

pub ==_ne : (a b : ℕ) → (a == b) ≡ false → a ≢ b
==_ne a b h = λ e. ground arith

push-inflight : (b : Batch) (q : BatchQueue) → (push b q).inflight ≡ q.inflight
unfolding push
push-inflight b q = ground arith

-- A push leaves the batch in flight at the head.
push-head :
    (f b : Batch) (rest : List Batch) (q : BatchQueue)
    → q.inflight ≡ some f
    → 0 < size f
    → q.queue ≡ f ∷ rest
    → (after : List Batch) × ((push b q).queue ≡ f ∷ after)
unfolding push
push-head f b rest q busy full head = elim (Bool-cases (size b == 0)) [
  | inl empty ↦ (rest, rw empty head)
  | inr some_bytes ↦
      let kept =
        evict-head f q.max_q (q.queued + size b) q.stats.dropped (rest ++ b ∷ [])
          (same_batch_self f full) in
      (kept.0, rw (some_bytes, busy, head) kept.1)
]

push-Held : (worker : Worker) (b : Batch) (q : BatchQueue) → Held worker q → Held worker (push b q)
push-Held Worker.idle b q h = push-inflight b q ∙ h
push-Held Worker.looping b q h = push-inflight b q ∙ h
push-Held Worker.failing b q h = push-inflight b q ∙ h
push-Held (Worker.posting f) b q h =
    (push-inflight b q ∙ h.0, h.1, push-head f b h.2.0 q h.0 h.1 h.2.1)

-- What the eviction leaves of the queue with a new batch in it.
pub push-Evicted :
    (w : World) (b : Batch)
    → Sound w
    → w.next + 1 < u64_mod
    → b.address ≡ w.next
    → Evicted 2
        (end_of 0 w.acknowledged)
        0
        w.q.max_q
        (w.q.queue ++ b ∷ [])
        w.q.stats.dropped
        (evict w.q.inflight w.q.max_q (w.q.queue ++ b ∷ []) (w.q.queued + size b) w.q.stats.dropped)
push-Evicted w b s small new =
    evict-Evicted w.q.inflight w.q.max_q (end_of 0 w.acknowledged) (w.q.queued + size b)
      w.q.stats.dropped (w.q.queue ++ b ∷ [])
      (omega (arith, s.exact, sum_by-append size w.q.queue (b ∷ [])))
      (Ascending-snoc (end_of 0 w.acknowledged) w.q.queue b
        (Ascending-split 0 w.acknowledged w.q.queue s.ordered)
        (omega (arith, end_of-append 0 w.acknowledged w.q.queue, s.fresh)))
      (omega (arith, s.accounted, length-append w.q.queue (b ∷ [])))

pub push-Sound :
    (w : World) (bytes : Bytes) → Sound w → w.next + 1 < u64_mod → Sound (act (pushes bytes) w)
unfolding act push
push-Sound w bytes s small = elim (Bool-cases (length bytes == 0)) [
  | inl empty ↦ rw empty (record {
    exact = s.exact;
    accounted = s.accounted;
    written = s.written;
    ordered = s.ordered;
    fresh = s.fresh;
    full = s.full;
    held = s.held;
    patient = s.patient;
  })
  | inr some_bytes ↦ rw some_bytes (record {
    exact = omega (arith, v.exact);
    accounted = omega (arith, v.counted, s.accounted, length-append w.q.queue (b ∷ []));
    written = s.written;
    ordered = Ascending-join 0 w.acknowledged w.q.queue r.0 s.ordered v.ordered;
    fresh = omega (
      arith,
      end_of-append 0 w.acknowledged r.0,
      end_of_newest (end_of 0 w.acknowledged) r.0 b
          (λ d. v.same_newest d ∙ newest-snoc d w.q.queue b) low,
    );
    full =
        evict-All (λ c. 0 < size c) w.q.inflight w.q.max_q (w.q.queued + size b) w.q.stats.dropped
          (w.q.queue ++ b ∷ [])
          (All-append (λ c. 0 < size c) w.q.queue (b ∷ []) s.full
            (omega (arith, ==_ne _ _ some_bytes), tt));
    held = rw some_bytes at (push-Held w.worker b w.q s.held);
    patient = s.patient;
  })
]
  where
    b : Batch
    b = record { address = w.next; bytes = bytes }

    r : List Batch × ℕ × ℕ
    r = evict w.q.inflight w.q.max_q (w.q.queue ++ b ∷ []) (w.q.queued + size b) w.q.stats.dropped

    v : Evicted 2 (end_of 0 w.acknowledged) 0 w.q.max_q (w.q.queue ++ b ∷ []) w.q.stats.dropped r
    v = push-Evicted w b s small refl

    low : end_of 0 w.acknowledged ≤ w.next + 1
    low = omega (
      arith,
      s.fresh,
      end_of-append 0 w.acknowledged w.q.queue,
      end_of-ge (end_of 0 w.acknowledged) w.q.queue
          (Ascending-split 0 w.acknowledged w.q.queue s.ordered),
    )

-- After a push of a batch that is not empty to a sound queue (below 2 ^ 64 - 1 pushes): the newest
-- batch queued is that one, so that it is never what is dropped, and the queued bytes are within
-- the budget unless at most two batches are left.
pub push-within :
    (w : World) (bytes : Bytes) (d : Batch)
    → Sound w
    → 0 < length bytes
    → w.next + 1 < u64_mod
    → let q = (act (pushes bytes) w).q in
      (newest_or d q.queue ≡ record { address = w.next; bytes = bytes })
      × ((q.queued ≤ q.max_q) ⊎ (length q.queue ≤ 2))
unfolding act push
push-within w bytes d s full small =
    let b : Batch = record { address = w.next; bytes = bytes } in
    let v = push-Evicted w b s small refl in
    let some_bytes : (length bytes == 0) ≡ false = ground arith in
    rw some_bytes (v.same_newest d ∙ newest-snoc d w.q.queue b, v.within)
