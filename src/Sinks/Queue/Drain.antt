-- ===== src/Sinks/Queue/Drain.antt =====
-- A remote that answers: one call of `deliver` empties the queue.
use mikroscope.Common.{
  ◌<◌, List, [], ◌∷◌, ◌++◌, append-nil, append_assoc, ◌≡◌, refl, sym, ◌∙◌, ap, All,
}
use mikroscope.Sinks.Queue.Eviction.{same_batch_self}
use mikroscope.Sinks.Queue.{
  Batch, Worker, World, Act, goes_on, post_succeeds, size, begin_round, dequeue, posted, work, act,
  acts,
}

-- A round for each of the given batches.
abbrev pub rounds : List Batch → List Act
rounds [] = goes_on ∷ []
rounds (b ∷ bs) = goes_on ∷ post_succeeds ∷ rounds bs

one_round :
    (b : Batch) (bs : List Batch) (w : World)
    → w.worker ≡ Worker.looping
    → w.q.backoff ≡ 0
    → w.q.queue ≡ b ∷ bs
    → 0 < size b
    → let w' = act post_succeeds (act goes_on w) in
      (w'.worker ≡ Worker.looping)
      × (w'.q.backoff ≡ 0)
      × (w'.q.queue ≡ bs)
      × (w'.acknowledged ≡ w.acknowledged ++ b ∷ [])
unfolding act work begin_round posted dequeue
one_round b bs w at calm e full = rw (at, e, calm, same_batch_self b full) (refl, refl, refl, refl)

-- If no post fails and no push comes in between, a call of `deliver` with no backoff running, on a
-- queue of batches that are not empty, writes every one of them, in order, and ends with the queue
-- empty.
pub rounds-drain :
    (bs : List Batch) (w : World)
    → w.worker ≡ Worker.looping
    → w.q.backoff ≡ 0
    → w.q.queue ≡ bs
    → All (λ b. 0 < size b) bs
    → let w' = acts (rounds bs) w in
      (w'.q.queue ≡ []) × (w'.worker ≡ Worker.idle) × (w'.acknowledged ≡ w.acknowledged ++ bs)
unfolding act work begin_round
rounds-drain [] w at calm e full = rw (at, e) (refl, refl, sym (append-nil w.acknowledged))
rounds-drain (b ∷ bs) w at calm e full =
    let (at', calm', e', took) = one_round b bs w at calm e full.0 in
    let rest = rounds-drain bs (act post_succeeds (act goes_on w)) at' calm' e' full.1 in
    (rest.0, rest.1, rest.2 ∙ ap (λ r. r ++ bs) took ∙ append_assoc w.acknowledged (b ∷ []) bs)
