-- ===== src/Sinks/Queue.antt =====
-- internal/sinks/queue.go: the bounded queue of batches with backoff. `push` runs on the
-- collector's goroutine and `deliver` on the sink's own, which releases the mutex while it posts:
-- what one of them does under the mutex is one step, and the steps interleave. The line logged once
-- a minute is left out. Times are nanoseconds.
pub mod Order
pub mod Pushes
pub mod Invariant
pub mod Eviction
pub mod Drain
mod Tests
use mikroscope.Common.{
  ℕ, ◌+◌, ◌-◌, ◌*◌, List, [], ◌∷◌, ◌++◌, Option, none, some, Bool, false, ◌&&◌, ◌||◌, not, Bytes,
  u64, length, ltb, leb, ◌==◌, if◌then◌else◌, min,
}

-- A slice of bytes with the identity of its allocation: the number of the allocation.
pub record Batch : Type 0 where
  pub address : ℕ
  pub bytes : Bytes

pub record Stats : Type 0 where
  pub written : ℕ
  pub dropped : ℕ
  pub errors : ℕ

pub record BatchQueue : Type 0 where
  pub queue : List Batch
  pub queued : ℕ
  pub max_q : ℕ
  pub inflight : Option Batch
  pub stats : Stats
  pub backoff : ℕ

abbrev pub second : ℕ
second = 1000000000

abbrev pub size : Batch → ℕ
size b = length b.bytes

-- `sameBatch` compares the addresses of the first bytes.
unfoldable pub same_batch : Batch → Batch → Bool
same_batch a b = ltb 0 (size a) && (ltb 0 (size b) && a.address == b.address)

abbrev pub is_inflight : Option Batch → Batch → Bool
is_inflight none b = false
is_inflight (some f) b = same_batch b f

-- The eviction loop once the head is in flight: the victim is the batch behind the head, and the
-- newest batch is never one.
unfoldable pub evict_behind : ℕ → List Batch → ℕ → ℕ → List Batch × ℕ × ℕ
evict_behind max_q [] queued dropped = ([], queued, dropped)
evict_behind max_q (c ∷ []) queued dropped = (c ∷ [], queued, dropped)
evict_behind max_q (c ∷ d ∷ rest) queued dropped =
    let evicted = evict_behind max_q (d ∷ rest) (queued - size c) (u64 (dropped + 1)) in
    if leb queued max_q then (c ∷ d ∷ rest, queued, dropped) else evicted

-- The loop of `push`: the queue, its bytes and the count of what was dropped.
unfoldable pub evict : Option Batch → ℕ → List Batch → ℕ → ℕ → List Batch × ℕ × ℕ
unfolding evict_behind
evict inflight max_q [] queued dropped = ([], queued, dropped)
evict inflight max_q (b ∷ []) queued dropped = (b ∷ [], queued, dropped)
evict inflight max_q (b ∷ c ∷ rest) queued dropped =
    let behind = evict_behind max_q (c ∷ rest) queued dropped in
    let evicted = evict inflight max_q (c ∷ rest) (queued - size b) (u64 (dropped + 1)) in
    if leb queued max_q
    then (b ∷ c ∷ rest, queued, dropped)
    else if is_inflight inflight b
    then (b ∷ behind.0, behind.1, behind.2)
    else evicted

unfoldable pub push : Batch → BatchQueue → BatchQueue
unfolding evict
push b q =
    let r = evict q.inflight q.max_q (q.queue ++ b ∷ []) (q.queued + size b) q.stats.dropped in
    if size b == 0
    then q
    else record q { queue = r.0; queued = r.1; stats = record (q.stats) { dropped = r.2 } }

-- Where `deliver` is: not called, at the top of its loop, in `post` with the mutex released, or
-- about to call `fail`.
pub data Worker : Type 0 where
  idle looping failing : Worker
  posting : Batch → Worker

-- The first critical section of a round.
unfoldable pub begin_round : List Batch → BatchQueue → BatchQueue × Worker
begin_round [] q = (record q { backoff = q.backoff - second }, Worker.idle)
begin_round (b ∷ rest) q =
    if ltb 0 q.backoff
    then (record q { backoff = q.backoff - second }, Worker.idle)
    else (record q { inflight = some b }, Worker.posting b)

-- The head is removed if it is the batch that was posted.
unfoldable pub dequeue : Batch → List Batch → BatchQueue → BatchQueue
dequeue b [] q = q
dequeue b (h ∷ rest) q =
    if same_batch h b then record q { queue = rest; queued = q.queued - size b } else q

-- The second critical section, after a post that succeeded.
unfoldable pub posted : Batch → BatchQueue → BatchQueue
unfolding dequeue
posted b q =
    let q' = dequeue b q.queue (record q { inflight = none }) in
    record q' { stats = record (q'.stats) { written = u64 (q'.stats.written + 1) }; backoff = 0 }

unfoldable pub fail : BatchQueue → BatchQueue
fail q = record q {
  stats = record (q.stats) { errors = u64 (q.stats.errors + 1) };
  backoff = if q.backoff == 0 then 2 * second else min (2 * q.backoff) (60 * second);
}

unfoldable pub new_queue : ℕ → BatchQueue
new_queue max_q = record {
  queue = [];
  queued = 0;
  max_q = max_q;
  inflight = none;
  stats = record { written = 0; dropped = 0; errors = 0 };
  backoff = 0;
}

-- What may happen next: the collector pushes a batch, the sink's goroutine calls `deliver`, goes on
-- with it, and its post succeeds or fails.
pub data Act : Type 0 where
  pushes : Bytes → Act
  wakes goes_on post_succeeds post_fails : Act

-- The queue, the worker, the number of allocations so far, and the batches whose post returned no
-- error, oldest first. (A post that returned one may have been taken by the remote all the same, in
-- whole or in part, before it is tried again: this is not followed here.)
pub record World : Type 0 where
  pub q : BatchQueue
  pub worker : Worker
  pub next : ℕ
  pub acknowledged : List Batch

-- One step of the worker; an act that does not fit where it stands changes nothing.
unfoldable pub work : Act → Worker → World → World
work wakes Worker.idle w = record w { worker = Worker.looping }
work goes_on Worker.looping w =
    let r = begin_round w.q.queue w.q in record w { q = r.0; worker = r.1 }
work goes_on Worker.failing w = record w { q = fail w.q; worker = Worker.idle }
work post_succeeds (Worker.posting b) w = record w {
  q = posted b w.q;
  worker = Worker.looping;
  acknowledged = w.acknowledged ++ b ∷ [];
}
work post_fails (Worker.posting b) w = record w {
  q = record (w.q) { inflight = none };
  worker = Worker.failing;
}
work _ _ w = w

unfoldable pub act : Act → World → World
act (pushes bytes) w = record w {
  q = push (record { address = w.next; bytes = bytes }) w.q;
  next = if length bytes == 0 then w.next else w.next + 1;
}
act wakes w = work wakes w.worker w
act goes_on w = work goes_on w.worker w
act post_succeeds w = work post_succeeds w.worker w
act post_fails w = work post_fails w.worker w

abbrev pub acts : List Act → World → World
acts [] w = w
acts (a ∷ rest) w = acts rest (act a w)
