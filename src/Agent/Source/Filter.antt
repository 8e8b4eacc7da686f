-- ===== src/Agent/Source/Filter.antt =====
-- internal/agent/discovered.go: the comparisons of the change filter, the cadences, and the readers
-- of the sources that have one file for each zone or core.
use mikroscope.Common.{
  ℕ, ◌%◌, List, [], ◌∷◌, Option, some, Bool, true, false, ◌&&◌, ◌||◌, not, Bytes, bytes_eq, lebℤ,
  map, length, select, lookup, leb, ◌==◌, of_some, ◌>>=◌,
}
use mikroscope.Sample.Floats.{Floats}
use mikroscope.Procfs.Types.{Slab, BuddyZone, MtdHealth, Thermal}
use mikroscope.Procfs.Trim.{parse_thermal_temp, parse_cpu_freq_khz}
use mikroscope.Procfs.Keys.{parse_slabinfo_into}
use mikroscope.Agent.Source.Types.{ProcFile, content, Source}

-- The loop over the indices of the first list, xs far xs the second one goes.
abbrev pub each_equal : {A : Type 0} → (A → A → Bool) → List A → List A → Bool
each_equal eq [] ys = true
each_equal eq (a ∷ xs) [] = true
each_equal eq (a ∷ xs) (b ∷ ys) = eq a b && each_equal eq xs ys

unfoldable pub equal_uints : List ℕ → List ℕ → Bool
equal_uints xs ys = length xs == length ys && each_equal (λ a b. a == b) xs ys

unfoldable pub equal_zone : BuddyZone → BuddyZone → Bool
unfolding equal_uints
equal_zone a b =
    lebℤ a.node b.node && lebℤ b.node a.node && bytes_eq a.zone b.zone && equal_uints a.free b.free

unfoldable pub equal_buddy : List BuddyZone → List BuddyZone → Bool
unfolding equal_zone
equal_buddy xs ys = length xs == length ys && each_equal equal_zone xs ys

-- `a != b` on the struct.
abbrev equal_health : MtdHealth → MtdHealth → Bool
equal_health a b =
    bytes_eq a.dev b.dev
    && bytes_eq a.name b.name
    && a.corrected_bits == b.corrected_bits
    && a.ecc_failures == b.ecc_failures
    && a.bad_blocks == b.bad_blocks
    && a.bbt_blocks == b.bbt_blocks
    && a.bitflip_threshold == b.bitflip_threshold
    && a.ecc_strength == b.ecc_strength

unfoldable pub equal_mtd : List MtdHealth → List MtdHealth → Bool
equal_mtd xs ys = length xs == length ys && each_equal equal_health xs ys

unfoldable pub slab_values : List (Bytes × Slab) → List (Bytes × ℕ)
slab_values sl = map (λ e. (e.0, (e.1).active_objs)) sl

abbrev all_found : List (Bytes × ℕ) → List (Bytes × ℕ) → Bool
all_found [] ys = true
all_found ((k, va) ∷ xs) ys = of_some false (λ vb. va == vb) (lookup k ys) && all_found xs ys

unfoldable pub equal_slab : List (Bytes × ℕ) → List (Bytes × ℕ) → Bool
equal_slab xs ys = length xs == length ys && all_found xs ys

unfoldable pub due : Source → ℕ → Bool
due s every = leb every 1 || s.tick % every == 0

-- The numbers that a list of files holds; one that cannot be read or parsed is left out.
abbrev pub read_each : {A B : Type 0} → (A → Option B) → List A → List B
read_each f [] = []
read_each f (a ∷ xs) = of_some (read_each f xs) (λ b. b ∷ read_each f xs) (f a)

unfoldable pub read_freq : List ProcFile → List ℕ
unfolding content
read_freq files = read_each (λ pf. content pf >>= parse_cpu_freq_khz) files

unfoldable pub read_thermal : {F : Type 0} → Floats F → List (Bytes × ProcFile) → List (Thermal F)
unfolding content
read_thermal fl zones =
    read_each
      (λ z. do
        let b = (← content z.1)
        let mc = (← parse_thermal_temp b)
        some (record { kind = z.0; milli_c = mc; celsius = fl.div (fl.of_ℤ mc) (fl.of_ℕ 1000) }))
      zones

-- The caches that were read, and the map that `ParseSlabinfoInto` wrote to.
unfoldable pub read_slabs :
    ProcFile → Option (List (Bytes × Slab)) → List (Bytes × Slab) × Option (List (Bytes × Slab))
unfolding content
read_slabs pf slabs =
    of_some ([], slabs) (λ m. (select (λ e. not (length (e.1).name == 0)) m, some m))
      (do let b = (← content pf); let m = (← slabs); parse_slabinfo_into b m)
