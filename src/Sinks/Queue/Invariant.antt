-- ===== src/Sinks/Queue/Invariant.antt =====
-- The queue under every interleaving of the collector's pushes with the sink's deliveries.
use mikroscope.Common.{
  ℕ, ◌+◌, ◌-◌, ◌*◌, ◌≤◌, ◌<◌, List, [], ◌∷◌, ◌++◌, none, some, ◌≡◌, refl, sym, ◌∙◌, ap, arith,
  u64_mod, length, length-append, append_assoc, ltb, Bool-cases, inl, inr, All,
}
use mikroscope.Sinks.Queue.{
  Batch, BatchQueue, Worker, World, Act, pushes, wakes, goes_on, post_succeeds, post_fails, size,
  begin_round, dequeue, posted, fail, new_queue, work, act, acts, second,
}
use mikroscope.Sinks.Queue.Eviction.{same_batch_self}
use mikroscope.Sinks.Queue.Order.{total_size}
use mikroscope.Sinks.Queue.Pushes.{Held, Sound, push-Sound}

-- Changes that do not touch what is queued.
kept-Sound :
    (w : World) (q : BatchQueue) (worker : Worker)
    → Sound w
    → q.queue ≡ w.q.queue
    → q.queued ≡ w.q.queued
    → q.stats.written ≡ w.q.stats.written
    → q.stats.dropped ≡ w.q.stats.dropped
    → Held worker q
    → q.backoff ≤ 60 * second
    → Sound (record w { q = q; worker = worker })
kept-Sound w q worker s same_queue same_queued same_written same_dropped held patient = record {
  exact = same_queued ∙ s.exact ∙ ap total_size (sym same_queue);
  accounted = omega (arith, s.accounted, ap length same_queue);
  written = same_written ∙ s.written;
  ordered = rw same_queue s.ordered;
  fresh = rw same_queue s.fresh;
  full = rw same_queue s.full;
  held = held;
  patient = patient;
}

begin-Sound :
    (queue : List Batch) (w : World)
    → Sound w
    → w.q.queue ≡ queue
    → w.worker ≡ Worker.looping
    → let r = begin_round queue w.q in Sound (record w { q = r.0; worker = r.1 })
unfolding begin_round
begin-Sound [] w s e at =
    let idle : w.q.inflight ≡ none = rw at at s.held in
    kept-Sound w (record (w.q) { backoff = w.q.backoff - second }) Worker.idle s refl refl refl refl
      idle (omega (arith, s.patient))
begin-Sound (b ∷ rest) w s e at =
    let idle : w.q.inflight ≡ none = rw at at s.held in
    let full : All (λ c. 0 < size c) (b ∷ rest) = rw e at s.full in
    elim (Bool-cases (ltb 0 w.q.backoff)) [
      | inl waits ↦ rw waits (
          kept-Sound w (record (w.q) { backoff = w.q.backoff - second }) Worker.idle s refl refl
            refl refl idle (omega (arith, s.patient)))
      | inr ready ↦ rw ready (
          kept-Sound w (record (w.q) { inflight = some b }) (Worker.posting b) s refl refl refl refl
            (refl, full.0, (rest, e)) s.patient)
    ]

fail-Sound :
    (w : World)
    → Sound w
    → w.q.inflight ≡ none
    → Sound (record w { q = fail w.q; worker = Worker.idle })
unfolding fail
fail-Sound w s idle =
    kept-Sound w (fail w.q) Worker.idle s refl refl refl refl idle
      (unfold fail in ground (arith, s.patient))

posted-Sound :
    (w : World) (b : Batch) (rest : List Batch)
    → Sound w
    → w.next < u64_mod
    → 0 < size b
    → w.q.queue ≡ b ∷ rest
    → Sound (record w {
      q = posted b w.q;
      worker = Worker.looping;
      acknowledged = w.acknowledged ++ b ∷ [];
    })
unfolding posted dequeue
posted-Sound w b rest s small full head =
    rw (head, same_batch_self b full)
      (record {
        exact = omega (arith, s.exact, ap total_size head);
        accounted = omega (arith, s.accounted, ap length head);
        written =
            omega (
              arith,
              s.written,
              s.accounted,
              ap length head,
              length-append w.acknowledged (b ∷ []),
            );
        ordered = rw append_assoc (rw head at s.ordered);
        fresh = rw append_assoc (rw head at s.fresh);
        full = (rw head at s.full).1;
        held = refl;
        patient = omega arith;
      })

work-Sound :
    (a : Act) (at : Worker) (w : World)
    → Sound w
    → w.next < u64_mod
    → w.worker ≡ at
    → Sound (work a at w)
unfolding work
work-Sound wakes Worker.idle w s small e =
    kept-Sound w w.q Worker.looping s refl refl refl refl (rw e at s.held) s.patient
work-Sound goes_on Worker.looping w s small e = begin-Sound w.q.queue w s refl e
work-Sound goes_on Worker.failing w s small e = fail-Sound w s (rw e at s.held)
work-Sound post_succeeds (Worker.posting b) w s small e =
    let held : Held (Worker.posting b) w.q = rw e at s.held in
    posted-Sound w b held.2.0 s small held.1 held.2.1
work-Sound post_fails (Worker.posting b) w s small e =
    kept-Sound w (record (w.q) { inflight = none }) Worker.failing s refl refl refl refl refl
      s.patient
work-Sound _ _ w s small e = s

act-Sound : (a : Act) (w : World) → Sound w → w.next + 1 < u64_mod → Sound (act a w)
unfolding act
act-Sound (pushes bytes) w s small = unfold act in (push-Sound w bytes s small)
act-Sound wakes w s small = work-Sound wakes w.worker w s (omega arith) refl
act-Sound goes_on w s small = work-Sound goes_on w.worker w s (omega arith) refl
act-Sound post_succeeds w s small = work-Sound post_succeeds w.worker w s (omega arith) refl
act-Sound post_fails w s small = work-Sound post_fails w.worker w s (omega arith) refl

work-next : (a : Act) (at : Worker) (w : World) → (work a at w).next ≡ w.next
unfolding work
work-next wakes Worker.idle w = refl
work-next goes_on Worker.looping w = refl
work-next goes_on Worker.failing w = refl
work-next post_succeeds (Worker.posting b) w = refl
work-next post_fails (Worker.posting b) w = refl
work-next _ _ w = refl

act-next : (a : Act) (w : World) → (act a w).next ≤ w.next + 1
unfolding act
act-next (pushes bytes) w = ground arith
act-next wakes w = omega (arith, work-next wakes w.worker w)
act-next goes_on w = omega (arith, work-next goes_on w.worker w)
act-next post_succeeds w = omega (arith, work-next post_succeeds w.worker w)
act-next post_fails w = omega (arith, work-next post_fails w.worker w)

-- A queue with nothing in it, and no post so far.
abbrev pub start : ℕ → World
start max_q = record { q = new_queue max_q; worker = Worker.idle; next = 0; acknowledged = [] }

start-Sound : (max_q : ℕ) → Sound (start max_q)
unfolding new_queue
start-Sound max_q = record {
  exact = refl;
  accounted = omega arith;
  written = refl;
  ordered = tt;
  fresh = omega arith;
  full = tt;
  held = refl;
  patient = omega arith;
}

acts-Sound_from :
    (given : List Act) (w : World)
    → Sound w
    → w.next + length given < u64_mod
    → Sound (acts given w)
acts-Sound_from [] w s small = s
acts-Sound_from (a ∷ rest) w s small =
    acts-Sound_from rest (act a w) (act-Sound a w s (omega arith)) (omega (arith, act-next a w))

-- Under every interleaving, shorter than 2 ^ 64 steps, of pushes with the steps of the delivery and
-- with posts that return an error or none: the queued bytes are those of the batches queued; every
-- batch pushed is either written, dropped (and counted so) or still queued; the written ones are those
-- with a post that returned no error, and each has one such post, in the order of the pushes and all
-- before those still queued; the batch being posted stands at the head and is never evicted; and the
-- backoff stays within a minute. What the remote keeps of a post that returned an error is not said.
pub acts-Sound :
    (max_q : ℕ) (given : List Act) → length given < u64_mod → Sound (acts given (start max_q))
acts-Sound max_q given small = acts-Sound_from given (start max_q) (start-Sound max_q) (omega arith)
