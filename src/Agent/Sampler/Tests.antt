-- ===== src/Agent/Sampler/Tests.antt =====
-- A sampler over a ring of four entries, with a capture pending.
use mikroscope.Common.{
  ℕ, List, [], ◌∷◌, Option, some, none, Bytes, codes, pos, ◌≡◌, refl, arith, map, lookup,
}
use mikroscope.Sample.Floats.{micro}
use mikroscope.Sample.Types.{Sample}
use mikroscope.Sample.Fixtures.{quiet_at}
use mikroscope.Agent.Ring.{new_ring}
use mikroscope.Agent.Captures.Types.{Capture, Captures, policy_last}
use mikroscope.Agent.Captures.Fire.{fire, fire_pending, arm, armed}
use mikroscope.Agent.Captures.Budget.{WithinBudget, fire-WithinBudget}
use mikroscope.Agent.Captures.Window.{Waiting}
use mikroscope.Agent.Sampler.{Sampler, Tick, Event, ticked, stopped, running, new_sampler, run}
use mikroscope.Agent.Sampler.Invariant.{Sound, SoundRun, run-SoundRun, new_sampler-Sound}
use mikroscope.Agent.Sampler.Lossless.{Encodes, Collected, run-Collected}

-- Every sample is encoded as the same byte.
abbrev encoder : Sample ℕ → Option Bytes
encoder s = some (codes "x")

encoder-Encodes : Encodes micro encoder
encoder-Encodes s = (codes "x", refl)

abbrev captures : Captures ℕ
captures = record {
  cfg = record {
    conditions = [];
    rate_hz = 1;
    pre_s = 0;
    post_s = 1;
    budget = 100;
    policy = policy_last;
    refractory = 5;
  };
  pre = 0;
  post = 1;
  refr = 5;
  last_fire = [];
  fired = [];
  suppressed = [];
  refused = [];
  pending = none;
  held = [];
  bytes = 0;
  next_id = 0;
  served = 0;
  markers = [];
  prev_mem_avail = 0;
  prev_bad = [];
}

captures-WithinBudget : WithinBudget captures
captures-WithinBudget = record {
  exact = refl;
  capped = omega arith;
  few_markers = omega arith;
  honest = tt;
}

abbrev tick_at : ℕ → Tick ℕ
tick_at t = record { cur = quiet_at t; wake_ns = pos 5; read_ns = pos 7; elapsed_ns = 12 }

abbrev fresh : Sampler ℕ
fresh = new_sampler (new_ring 4) 1 4 (some captures) (quiet_at 0)

fresh-Sound : Sound fresh
fresh-Sound = new_sampler-Sound 4 1 4 (some captures) (quiet_at 0) captures-WithinBudget

abbrev events : List (Event ℕ)
events = ticked (tick_at 1) ∷ ticked (tick_at 2) ∷ stopped ∷ []

run-SoundRun_example : SoundRun (run micro encoder (running fresh) events)
unfolding new_sampler
run-SoundRun_example = run-SoundRun micro encoder events (running fresh) fresh-Sound (omega arith)

-- The capture of a fire at sample 1.
abbrev cp : Capture ℕ
cp = armed 0 (codes "manual") none [] 0 1 (pos 0) (pos 0) captures

abbrev waiting : Captures ℕ
waiting = fire 0 (codes "manual") none [] 0 1 (pos 0) (pos 0) captures

waits : Waiting cp waiting
unfolding fire fire_pending arm armed lookup
waits = record { pends = refl; spans = refl; first = omega arith }

waiting-WithinBudget : WithinBudget waiting
waiting-WithinBudget =
    fire-WithinBudget 0 (codes "manual") none [] 0 1 (pos 0) (pos 0) captures captures-WithinBudget

abbrev alert : Sampler ℕ
alert = new_sampler (new_ring 4) 1 4 (some waiting) (quiet_at 0)

run-Collected_example :
    (s' : Sampler ℕ) × (run micro encoder (running alert) (map ticked (tick_at 1 ∷ tick_at 2 ∷ []))
      ≡ running s')
    × Collected cp waiting s'
unfolding new_sampler new_ring fire fire_pending arm armed lookup
run-Collected_example =
    run-Collected micro encoder encoder-Encodes (tick_at 1) (tick_at 2 ∷ []) alert waiting cp
      (new_sampler-Sound 4 1 4 (some waiting) (quiet_at 0) waiting-WithinBudget) refl waits
      (omega arith) (omega arith) (omega arith)
