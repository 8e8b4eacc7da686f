-- ===== src/Agent/Server/Tests.antt =====
-- A reply with a marker in it.
use mikroscope.Common.{ℕ, [], ◌∷◌, some, none, codes, pos, ◌≡◌, refl}
use mikroscope.Agent.Ring.{Entry}
use mikroscope.Agent.Captures.Types.{Captures, Marker, policy_last}
use mikroscope.Agent.Captures.Collect.{last_seq_of, markers_between}
use mikroscope.Agent.Server.{
  sample_line, trigger_line, due, with_markers, write_entries, markers_of,
}
use mikroscope.Agent.Server.Order.{samples, markers, InFront, write_entries-InFront}

abbrev entry : ℕ → Entry ℕ
entry n = record { seq = n; mono_ns = pos 0; dt_ns = pos 0; busy = []; line = n ∷ 10 ∷ [] }

abbrev marker : Marker ℕ
marker = record {
  id = 1;
  cause = codes "oom";
  field = codes "vm.oom_kill";
  value = 1;
  threshold = 0;
  seq = 4;
  wall_ns = pos 0;
}

abbrev captures : Captures ℕ
captures = record {
  cfg = record {
    conditions = [];
    rate_hz = 1;
    pre_s = 0;
    post_s = 1;
    budget = 100;
    policy = policy_last;
    refractory = 5;
  };
  pre = 0;
  post = 1;
  refr = 5;
  last_fire = [];
  fired = [];
  suppressed = [];
  refused = [];
  pending = none;
  held = [];
  bytes = 0;
  next_id = 0;
  served = 0;
  markers = marker ∷ [];
  prev_mem_avail = 0;
  prev_bad = [];
}

in_order :
    write_entries (entry 3 ∷ entry 4 ∷ []) 2 (some captures)
    ≡ sample_line (entry 3) ∷ trigger_line marker ∷ sample_line (entry 4) ∷ []
unfolding write_entries with_markers due markers_between
in_order = refl

write_entries-InFront_example :
    let written = write_entries (entry 3 ∷ entry 4 ∷ []) 2 (some captures) in
    (samples written ≡ entry 3 ∷ entry 4 ∷ [])
    × (markers written ≡ markers_of (some captures) 2 (last_seq_of (entry 3) (entry 4 ∷ [])))
    × InFront written
write_entries-InFront_example = write_entries-InFront (entry 3) (entry 4 ∷ []) 2 (some captures)
