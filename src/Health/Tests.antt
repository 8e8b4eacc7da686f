-- ===== src/Health/Tests.antt =====
-- Windows read: a loop on a port whose board is not known, and drops on two cores.
use mikroscope.Common.{
  ℕ, List, [], ◌∷◌, true, Bytes, codes, map, ◌≡◌, refl, bytes_eq, lookup, after_prefix,
}
use mikroscope.Procfs.Types.{KmsgRecord}
use mikroscope.Procfs.Text.{
  span, after_device, device_here, find_device_from, find_device, lower, link_state, stp_here,
  stp_from, find_stp_state, contains,
}
use mikroscope.Procfs.Ports.{annotate_kmsg, kmsg_kind, routeros_name, port_names}
use mikroscope.Sample.Types.{Sample}
use mikroscope.Sample.Floats.{micro}
use mikroscope.Sample.Fixtures.{quiet_sample}
use mikroscope.Health.{
  analyze, tally, tally_from, tally_sample, tally_softnet, tally_records, mark_core, layer2_loop,
}
use mikroscope.Health.Reports.{analyze_lem, reported}

abbrev says : Bytes → KmsgRecord
says message = record {
  priority = 4;
  level = 4;
  facility = 0;
  seq = 1;
  time_usec = 1;
  message = message;
  iface = [];
  ros_iface = [];
  kind = [];
  label = [];
  role = [];
}

abbrev looped : KmsgRecord
looped = says (codes "received on eth1 with own address as source address")

abbrev sample : List KmsgRecord → List ℕ → Sample ℕ
sample events drops = record quiet_sample {
  events = events;
  softnet = map (λ n. record { processed = 9; dropped = n; time_squeeze = 0 }) drops;
}

abbrev read_window : List (Sample ℕ)
read_window = sample (looped ∷ looped ∷ []) (0 ∷ 3 ∷ []) ∷ sample (looped ∷ []) (2 ∷ 1 ∷ []) ∷ []

dropped : (tally [] read_window).dropped ≡ 6
unfolding tally tally_from tally_sample tally_softnet mark_core tally_records
dropped = refl

drop_cores : (tally [] read_window).drop_cores ≡ 1 ∷ 0 ∷ []
unfolding tally tally_from tally_sample tally_softnet mark_core tally_records
drop_cores = refl

analyze_lem_example :
    reported layer2_loop (codes "eth1") (analyze micro [] read_window).findings ≡ true
unfolding annotate_kmsg kmsg_kind routeros_name port_names find_device find_device_from device_here
    after_device span lower link_state stp_here stp_from find_stp_state contains bytes_eq lookup
    after_prefix
analyze_lem_example = analyze_lem micro [] read_window layer2_loop (codes "eth1")
