-- ===== src/Teardown/Tests.antt =====
-- Names that a catalog may hold, and what an uninstall makes of them.
use mikroscope.Common.{
  List, [], ◌∷◌, none, some, true, Bytes, codes, All, ◌≡◌, refl, ◌⊎◌, after_prefix, sort_strings,
  place_string, bytes_lt, bytes_eq,
}
use mikroscope.Teardown.{
  ours, name_bytes, influx_already_deleted, deleted_suffix, digits_only, Store, elastic, influx,
  jsonl_file, postgres, elastic_prefix, before_percent, trim_dots, holds, drop_item, drop_ours,
  Sinks, for_sinks,
}
use mikroscope.Teardown.Owned.{Owned, holds-Owned}

abbrev cluster : Store
cluster = elastic (codes "http://es") [] (codes "mikro-%Y.%m")

abbrev answer : List Bytes
answer = codes "mikro-2026.02" ∷ codes "mikro-2026.01" ∷ []

-- The prefix ends in front of the dash.
cluster_prefix : elastic_prefix (codes "mikro-%Y.%m") ≡ codes "mikro"
unfolding elastic_prefix before_percent trim_dots
cluster_prefix = refl

tables :
    holds (influx [] [] []) (
      codes "mikroscope_irq"
      ∷ codes "mikroscope_cpu-20260919T225605"
      ∷ codes "mikroscope_\"; x"
      ∷ codes "mikroscope_"
      ∷ codes "cpu"
      ∷ codes "mikroscope_cpu"
      ∷ [])
    ≡ codes "mikroscope_cpu" ∷ codes "mikroscope_irq" ∷ []
unfolding holds ours after_prefix name_bytes influx_already_deleted deleted_suffix digits_only
    sort_strings place_string bytes_lt
tables = refl

retired : influx_already_deleted (codes "mikroscope_cpu-20260919T225605") ≡ true
unfolding influx_already_deleted deleted_suffix digits_only
retired = refl

refused : drop_item (postgres []) (codes "users") ≡ none
unfolding drop_item drop_ours ours after_prefix
refused = refl

abbrev settings : Sinks
settings = record {
  influx_url = [];
  influx_token = [];
  influx_db = [];
  elastic_url = [];
  elastic_auth = [];
  elastic_index = [];
  postgres_dsn = codes "dsn";
  sql_path = codes "-";
  prom_addr = [];
  graphite_addr = codes "g";
  loki_url = [];
  otlp_url = [];
  telegraf_url = [];
  file_path = codes "out";
}

chosen : for_sinks settings ≡ (
  postgres (codes "dsn") ∷ jsonl_file (codes "out") ∷ [],
  codes "--graphite" ∷ codes "--sql" ∷ [],
)
unfolding for_sinks bytes_eq
chosen = refl

holds-Owned_example :
    All (λ n. drop_item cluster n ≡ some n) (holds cluster answer)
    × ((drop_item cluster (codes "mikro-2026.01") ≡ none)
        ⊎ ((drop_item cluster (codes "mikro-2026.01") ≡ some (codes "mikro-2026.01"))
            × Owned cluster (codes "mikro-2026.01")))
unfolding elastic_prefix before_percent trim_dots
holds-Owned_example =
    holds-Owned cluster answer (codes "mikro-2026.01")
      ((codes "-2026.02", refl), ((codes "-2026.01", refl), tt))
