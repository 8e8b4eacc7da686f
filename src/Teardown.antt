-- ===== src/Teardown.antt =====
-- internal/teardown: what a store holds of this project, and what may be dropped from it. The calls
-- of a store are parameters: a listing takes the names that the store answered with, and a drop gives
-- the name that it sends, or `none` where it refuses.
pub mod Owned
mod Tests
use mikroscope.Common.{
  ℕ, ◌-◌, List, [], ◌∷◌, ◌++◌, Option, none, some, Bool, true, false, ◌&&◌, ◌||◌, not, Bytes, codes,
  bytes_eq, after_prefix, sort_strings, length, get_or, take, drop, select, leb, ◌==◌,
  if◌then◌else◌, of_some, is_some, ◌>>◌, require,
}

-- `Prefix`.
abbrev pub prefix : Bytes
prefix = codes "mikroscope_"

abbrev pub is_name_byte : ℕ → Bool
is_name_byte b = (leb 97 b && leb b 122) || (leb 48 b && leb b 57) || b == 95

unfoldable pub name_bytes : Bytes → Bool
name_bytes [] = true
name_bytes (b ∷ bs) = is_name_byte b && name_bytes bs

-- The expression `ourName`.
unfoldable pub ours : Bytes → Bool
unfolding after_prefix name_bytes
ours name =
    of_some false (λ rest. not (length rest == 0) && name_bytes rest) (after_prefix prefix name)

unfoldable pub digits_only : Bytes → Bool
digits_only [] = true
digits_only (b ∷ bs) = leb 48 b && leb b 57 && digits_only bs

-- The expression `influxDeletedSuffix`, on the 16 bytes that it takes.
unfoldable pub deleted_suffix : Bytes → Bool
unfolding digits_only
deleted_suffix s =
    get_or s 0 0 == 45
    && digits_only (take 8 (drop 1 s))
    && get_or s 9 0 == 84
    && digits_only (drop 10 s)

unfoldable pub influx_already_deleted : Bytes → Bool
unfolding deleted_suffix
influx_already_deleted name = leb 16 (length name) && deleted_suffix (drop (length name - 16) name)

-- The stores that can be emptied, with their fields.
pub data Store : Type 0 where
  influx : (url token database : Bytes) → Store
  elastic : (url auth index : Bytes) → Store
  postgres : (dsn : Bytes) → Store
  sql_file jsonl_file : (path : Bytes) → Store

-- `strings.Cut` at the first percent sign: what is in front of it, if there is one.
unfoldable pub before_percent : Bytes → Option Bytes
before_percent [] = none
before_percent (b ∷ bs) =
    let rest = before_percent bs in
    if b == 37 then some [] else of_some none (λ front. some (b ∷ front)) rest

-- `strings.TrimRight` of dots and dashes.
unfoldable pub trim_dots : Bytes → Bytes
trim_dots [] = []
trim_dots (b ∷ bs) =
    let rest = trim_dots bs in if length rest == 0 && (b == 46 || b == 45) then [] else b ∷ rest

unfoldable pub elastic_prefix : Bytes → Bytes
unfolding before_percent trim_dots
elastic_prefix index = of_some index trim_dots (before_percent index)

-- `globOf` of the names that the file system gave.
unfoldable pub glob_of : Bytes → List Bytes → List Bytes
glob_of path names =
    if length path == 0 || bytes_eq path (codes "-") then [] else sort_strings names

-- `Holds`.
unfoldable pub holds : Store → List Bytes → List Bytes
unfolding ours influx_already_deleted elastic_prefix glob_of
holds (influx url token database) names =
    sort_strings (select (λ n. ours n && not (influx_already_deleted n)) names)
holds (elastic url auth index) names =
    if length (elastic_prefix index) == 0 then [] else sort_strings names
holds (postgres dsn) names = select ours names
holds (sql_file path) names = glob_of path names
holds (jsonl_file path) names = glob_of path names

-- `removeUnder`, and the guard of `Drop` of an index.
unfoldable pub remove_under : Bytes → Bytes → Option Bytes
unfolding after_prefix
remove_under path item = do
  require (not (length path == 0 || not (is_some (after_prefix path item))))
  some item

unfoldable pub drop_ours : Bytes → Option Bytes
unfolding ours
drop_ours item = do require (ours item); some item

-- `Drop`.
unfoldable pub drop_item : Store → Bytes → Option Bytes
unfolding remove_under drop_ours elastic_prefix
drop_item (influx url token database) item = drop_ours item
drop_item (elastic url auth index) item = remove_under (elastic_prefix index) item
drop_item (postgres dsn) item = drop_ours item
drop_item (sql_file path) item = remove_under path item
drop_item (jsonl_file path) item = remove_under path item

pub record Sinks : Type 0 where
  pub influx_url : Bytes
  pub influx_token : Bytes
  pub influx_db : Bytes
  pub elastic_url : Bytes
  pub elastic_auth : Bytes
  pub elastic_index : Bytes
  pub postgres_dsn : Bytes
  pub sql_path : Bytes
  pub prom_addr : Bytes
  pub graphite_addr : Bytes
  pub loki_url : Bytes
  pub otlp_url : Bytes
  pub telegraf_url : Bytes
  pub file_path : Bytes

-- An element that is appended where a setting is not empty.
abbrev pub when_set : {A : Type 0} → Bytes → A → List A
when_set setting a = if length setting == 0 then [] else a ∷ []

-- `For`: the stores, and the flags of the sinks that cannot be emptied, without the prose of why.
unfoldable pub for_sinks : Sinks → List Store × List Bytes
for_sinks s = (
  when_set s.influx_url (influx s.influx_url s.influx_token s.influx_db)
      ++ when_set s.elastic_url (elastic s.elastic_url s.elastic_auth s.elastic_index)
      ++ when_set s.postgres_dsn (postgres s.postgres_dsn)
      ++ (if bytes_eq s.sql_path (codes "-") then [] else when_set s.sql_path (sql_file s.sql_path))
      ++ when_set s.file_path (jsonl_file s.file_path),
  when_set s.graphite_addr (codes "--graphite")
      ++ when_set s.sql_path (codes "--sql")
      ++ when_set s.prom_addr (codes "--prom")
      ++ when_set s.loki_url (codes "--loki")
      ++ when_set s.otlp_url (codes "--otlp")
      ++ when_set s.telegraf_url (codes "--telegraf"),
)
