-- ===== src/Collector/Forward/Tests.antt =====
-- A collector at sample 1 of an agent whose ring of three entries holds the samples 3 to 5.
use mikroscope.Common.{
  ℕ, ◌+◌, ◌≤◌, ◌<◌, List, [], ◌∷◌, map, Option, none, some, Bytes, codes, pos, ◌≡◌, refl, arith,
}
use mikroscope.Sample.Types.{Sample}
use mikroscope.Sample.Delta.{delta, differences}
use mikroscope.Sample.Fixtures.{quiet_at}
use mikroscope.Agent.Ring.{Entry, Ring, new_ring, store, oldest}
use mikroscope.Agent.Ring.View.{contents, WellFormed}
use mikroscope.Agent.Ring.Store.{new_ring-WellFormed}
use mikroscope.Agent.Ring.Numbered.{Consecutive, new_ring-Consecutive}
use mikroscope.Agent.Ring.History.{store_all, store_all-Consecutive, contents-history}
use mikroscope.Collector.Forward.{Stages, Forwarder, drain, resync}
use mikroscope.Collector.Forward.Account.{Delivers, Decodes}
use mikroscope.Collector.Forward.Replies.{reply}
use mikroscope.Collector.Forward.Delivery.{Serves, drain-Delivers}
use mikroscope.Collector.Forward.CatchUp.{drain-catches_up}
use mikroscope.Collector.Forward.Restart.{resync-contents}
use mikroscope.Agent.Ring.Read.{newer_than}

-- A sample with the number that is its line's first byte.
abbrev sample : ℕ → Sample ℕ
sample n = (delta (quiet_at 0) (quiet_at 1) n 4 0).0

abbrev read_line : Bytes → Option (Sample ℕ)
read_line [] = none
read_line (n ∷ line) = some (sample n)

abbrev stages : Stages ℕ ℕ ℕ ℕ
stages = record {
  decode = read_line;
  kmsg_kind = λ m. codes "other";
  port = none;
  kernel = λ s n. (n, n ∷ [], n + 1);
}

abbrev entry : ℕ → Entry ℕ
entry n = record { seq = n; mono_ns = pos 0; dt_ns = pos 0; busy = []; line = n ∷ 10 ∷ [] }

abbrev five : List (Entry ℕ)
five = map entry (1 ∷ 2 ∷ 3 ∷ 4 ∷ 5 ∷ [])

abbrev ring : Ring ℕ
ring = store_all five (new_ring 3)

ring_held : WellFormed ring × Consecutive ring
unfolding new_ring
ring_held =
    let held =
      store_all-Consecutive five (new_ring 3) (new_ring-WellFormed 3) (new_ring-Consecutive 3)
        (refl, (refl, (refl, (refl, (refl, tt))))) (omega arith) in
    (held.0, held.1)

abbrev at_one : Forwarder ℕ ℕ ℕ ℕ
at_one = record {
  since = 1;
  kernel = 0;
  gaps = 0;
  triggers = 0;
  detections = 0;
  last_seq = 1;
  resyncs = 0;
  derive = 0;
  emitted = [];
}

entry-Decodes : (n : ℕ) → Decodes stages (entry n)
unfolding delta differences
entry-Decodes n = (sample n, refl, refl)

ring-Serves : Serves stages ring
ring-Serves = record {
  formed = ring_held.0;
  held = ring_held.1;
  decodes =
      rw (contents-history 3 five) (entry-Decodes 3, (entry-Decodes 4, (entry-Decodes 5, tt)));
}

drain-Delivers_example :
    let f' = drain stages 100 2 (λ i cursor. reply cursor 2 ring none) at_one in
    Delivers 1 at_one f' f'.since
drain-Delivers_example =
    drain-Delivers stages 100 2 2 (λ i. ring) (λ i. none) at_one (λ i. ring-Serves)
      (λ z. omega arith) (omega arith) (omega arith)

drain-catches_up_example :
    (drain stages 3 2 (λ i cursor. reply cursor 2 ring none) at_one).since ≡ ring.last
unfolding new_ring store
drain-catches_up_example =
    drain-catches_up stages 3 2 ring (λ i. none) at_one ring-Serves (λ z. omega arith) (omega arith)
      (omega arith) (omega arith) (omega arith)

-- The agent restarted: the cursor is ahead of its ring.
abbrev ahead : Forwarder ℕ ℕ ℕ ℕ
ahead = record at_one { since = 900 }

resync-contents_example :
    (ring.last < 900
      → newer_than (resync ring.last (oldest ring) ahead).since 0 (contents ring) ≡ contents ring)
    × (900 ≤ ring.last → resync ring.last (oldest ring) ahead ≡ ahead)
resync-contents_example = resync-contents ring ahead ring_held.0 ring_held.1
