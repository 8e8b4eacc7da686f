-- ===== src/Sinks/Queue/Tests.antt =====
-- A queue of eight bytes under a slow remote.
use mikroscope.Common.{◌≤◌, List, [], ◌∷◌, ◌++◌, map, codes, ◌≡◌, refl, arith, length, ◌⊎◌}
use mikroscope.Sinks.Queue.{
  Batch, Worker, World, Act, pushes, wakes, goes_on, post_fails, push, evict, evict_behind,
  same_batch, begin_round, fail, new_queue, work, act, acts,
}
use mikroscope.Sinks.Queue.Order.{newest_or}
use mikroscope.Sinks.Queue.Pushes.{Sound, push-within}
use mikroscope.Sinks.Queue.Invariant.{start, acts-Sound}
use mikroscope.Sinks.Queue.Drain.{rounds, rounds-drain}

-- Three batches while the first is in flight, and a post that fails.
abbrev busy_queue : List Act
busy_queue =
    pushes (codes "one")
    ∷ wakes
    ∷ goes_on
    ∷ pushes (codes "two")
    ∷ pushes (codes "three")
    ∷ post_fails
    ∷ goes_on
    ∷ []

-- The second one went: the first was in flight, the third is the newest.
second_dropped :
    let w = acts busy_queue (start 8) in
    (map (λ b. b.bytes) w.q.queue ≡ codes "one" ∷ codes "three" ∷ [])
    × (w.q.stats.dropped ≡ 1)
    × (w.q.backoff ≡ 2000000000)
unfolding act work push evict evict_behind same_batch begin_round fail new_queue
second_dropped = (refl, refl, refl)

acts-Sound_example : Sound (acts busy_queue (start 8))
acts-Sound_example = acts-Sound 8 busy_queue (omega arith)

abbrev two_queued : World
two_queued = acts (pushes (codes "one") ∷ pushes (codes "two") ∷ wakes ∷ []) (start 8)

two_queued-Sound : Sound two_queued
two_queued-Sound =
    acts-Sound 8 (pushes (codes "one") ∷ pushes (codes "two") ∷ wakes ∷ []) (omega arith)

abbrev no_batch : Batch
no_batch = record { address = 0; bytes = [] }

push-within_example :
    let q = (act (pushes (codes "three")) two_queued).q in
    (newest_or no_batch q.queue ≡ record { address = two_queued.next; bytes = codes "three" })
    × ((q.queued ≤ q.max_q) ⊎ (length q.queue ≤ 2))
unfolding act work
push-within_example =
    push-within two_queued (codes "three") no_batch two_queued-Sound (omega arith) (omega arith)

abbrev first_two : List Batch
first_two =
    record { address = 0; bytes = codes "one" } ∷ record { address = 1; bytes = codes "two" } ∷ []

rounds-drain_example :
    let w' = acts (rounds first_two) two_queued in
    (w'.q.queue ≡ []) × (w'.worker ≡ Worker.idle) × (w'.acknowledged ≡ [] ++ first_two)
unfolding act work push evict new_queue
rounds-drain_example =
    rounds-drain first_two two_queued refl refl refl (omega arith, (omega arith, tt))
