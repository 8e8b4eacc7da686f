-- ===== src/Procfs/Keys.antt =====
-- internal/procfs/vmstat.go, meminfo.go, slabinfo.go and the cgroup files of self.go: rows of a key
-- and its numbers, of which a parser picks those it knows.
pub mod Rows
pub mod Printed
pub mod Refreshed
pub mod Refresh
mod Tests
use mikroscope.Common.{
  ℕ, suc, ◌+◌, List, [], ◌∷◌, Option, none, some, Bool, true, false, ◌&&◌, ◌||◌, not, Bytes, codes,
  bytes_eq, lookup, insert, length, get_or, ltb, ◌==◌, if◌then◌else◌, ◌>>=◌, ◌>>◌, require, is_some,
}
use mikroscope.Procfs.Types.{Meminfo, Slab}
use mikroscope.Procfs.Numbers.{next_field, parse_uint}
use mikroscope.Procfs.Lines.{split_lines, each_all, each_until, columns}

-- The first two fields of a row.
unfoldable pub key_value : Bytes → Bytes × Bytes
key_value line = let (key, rest) = next_field line in (key, (next_field rest).0)

-- The callback of `ParseVmstat`.
unfoldable pub vmstat_line : List (Bytes × ℕ) → Bytes → List (Bytes × ℕ)
unfolding key_value
vmstat_line out line =
    let (key, v) = key_value line in
    if length key == 0 then out else elim (parse_uint v) [ none ↦ out | some n ↦ insert key n out ]

unfoldable pub parse_vmstat : Bytes → Option (List (Bytes × ℕ))
unfolding vmstat_line
parse_vmstat b = do
  let out = each_all vmstat_line [] (split_lines b)
  require (not (length out == 0))
  some out

-- What `ParseVmstatInto` and `ParseSlabinfoInto` have: the map of the caller and the count of rows
-- that were stored.
pub record Wanted (V : Type 0) : Type 0 where
  pub dst : List (Bytes × V)
  pub found : ℕ

abbrev pub wanted : {V : Type 0} → List (Bytes × V) → Wanted V
wanted dst = record { dst = dst; found = 0 }

abbrev pub is_wanted : {V : Type 0} → Bytes → Wanted V → Bool
is_wanted key w = is_some (lookup key w.dst)

abbrev pub is_short : {V : Type 0} → Wanted V → Bool
is_short w = ltb w.found (length w.dst)

unfoldable pub store_wanted : {V : Type 0} → Bytes → Option V → Wanted V → Wanted V
store_wanted key none w = w
store_wanted key (some v) w = record { dst = insert key v w.dst; found = w.found + 1 }

-- The callback of `ParseVmstatInto`: it goes on while fewer rows were stored than keys are wanted.
unfoldable pub vmstat_into_line : Wanted ℕ → Bytes → Wanted ℕ × Bool
unfolding key_value store_wanted
vmstat_into_line w line =
    let (key, v) = key_value line in
    let w' = store_wanted key (parse_uint v) w in
    if length key == 0 || not (is_wanted key w) then (w, true) else (w', is_short w')

-- `none` is the error; the map of the caller is then as it was, since no row was stored.
unfoldable pub parse_vmstat_into : Bytes → List (Bytes × ℕ) → Option (List (Bytes × ℕ))
unfolding vmstat_into_line
parse_vmstat_into b dst = do
  let w = each_until vmstat_into_line (wanted dst) (split_lines b)
  require (not (w.found == 0))
  some w.dst

abbrev slab_of : Bytes → List ℕ × Bytes → Slab
slab_of name (cols, rest) = record {
  name = name;
  active_objs = get_or cols 0 0;
  num_objs = get_or cols 1 0;
  obj_size = get_or cols 2 0;
}

abbrev slab_row : Bytes → Bytes → Option Slab
slab_row name rest = do let cols = (← columns 3 rest); some (slab_of name cols)

-- The callback of `ParseSlabinfoInto`, with the flag `first`.
unfoldable pub slabinfo_line : Bool × Wanted Slab → Bytes → (Bool × Wanted Slab) × Bool
unfolding store_wanted
slabinfo_line (first, w) line =
    let (name, rest) = next_field line in
    let w' = store_wanted name (slab_row name rest) w in
    if length name == 0
    then ((first, w), true)
    else if first && bytes_eq name (codes "slabinfo")
    then ((false, w), true)
    else if get_or name 0 0 == 35 || not (is_wanted name w)
    then ((first, w), true)
    else ((first, w'), is_short w')

unfoldable pub parse_slabinfo_into : Bytes → List (Bytes × Slab) → Option (List (Bytes × Slab))
unfolding slabinfo_line
parse_slabinfo_into b dst = do
  let (first, w) = each_until slabinfo_line (true, wanted dst) (split_lines b)
  require (not (w.found == 0))
  some w.dst
