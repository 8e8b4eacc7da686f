-- ===== src/Procfs/Trim.antt =====
-- internal/procfs: the small functions on bytes that yaffs.go, kmsg.go and sensors.go declare, and
-- the integers of sensors.go.
use mikroscope.Common.{
  ℕ, suc, ◌-◌, [], ◌∷◌, Option, none, some, Bool, ◌&&◌, ◌||◌, Bytes, ℤ, pos, negsuc, length, take,
  drop, ltb, ◌==◌, if◌then◌else◌, of_some, u64_mod, ◌>>=◌, get_or,
}
use mikroscope.Procfs.Numbers.{parse_uint, next_field}

-- `indexByte`: `none` is -1.
unfoldable pub index_byte : ℕ → Bytes → Option ℕ
index_byte c [] = none
index_byte c (b ∷ bs) =
    let rest = (do let i = (← index_byte c bs); some (suc i)) in if b == c then some 0 else rest

-- What stands before the first byte `c`, or everything.
unfoldable pub up_to : ℕ → Bytes → Bytes
unfolding index_byte
up_to c b = of_some b (λ i. take i b) (index_byte c b)

unfoldable pub trim_front : (ℕ → Bool) → Bytes → Bytes
trim_front p [] = []
trim_front p (b ∷ bs) = let rest = trim_front p bs in if p b then rest else b ∷ bs

unfoldable pub trim_back : (ℕ → Bool) → Bytes → Bytes
trim_back p [] = []
trim_back p (b ∷ bs) = let rest = trim_back p bs in if length rest == 0 && p b then [] else b ∷ rest

unfoldable pub trim_quotes : Bytes → Bytes
unfolding trim_front trim_back
trim_quotes b =
    trim_back (λ c. c == 32 || (c == 9 || c == 13)) (trim_front (λ c. c == 32 || c == 9) b)

abbrev pub is_space_byte : ℕ → Bool
is_space_byte c = c == 32 || (c == 9 || (c == 10 || c == 13))

unfoldable pub trim_space_bytes : Bytes → Bytes
unfolding trim_front trim_back
trim_space_bytes b = trim_back is_space_byte (trim_front is_space_byte b)

unfoldable pub next_csv : Bytes → Bytes × Bytes
unfolding index_byte
next_csv b = of_some (b, []) (λ i. (take i b, drop (suc i) b)) (index_byte 44 b)

-- `int64(v)` of a uint64.
abbrev pub to_int64 : ℕ → ℤ
to_int64 v = if ltb v 9223372036854775808 then pos v else negsuc (u64_mod - v - 1)

-- `-n` of an int64: the least one is its own.
abbrev pub negate64 : ℤ → ℤ
negate64 (pos n) = if n == 0 then pos 0 else negsuc (n - 1)
negate64 (negsuc n) = if n == 9223372036854775807 then negsuc n else pos (suc n)

unfoldable pub unsigned_part : Bytes → Bytes
unsigned_part [] = []
unsigned_part (b ∷ bs) = if b == 45 || b == 43 then bs else b ∷ bs

unfoldable pub parse_int : Bytes → Option ℤ
unfolding unsigned_part
parse_int b = do
  let v = (← parse_uint (unsigned_part b))
  some (if get_or b 0 0 == 45 then negate64 (to_int64 v) else to_int64 v)

unfoldable pub parse_thermal_temp : Bytes → Option ℤ
unfolding trim_space_bytes parse_int
parse_thermal_temp b = parse_int (next_field (trim_space_bytes b)).0

unfoldable pub parse_cpu_freq_khz : Bytes → Option ℕ
unfolding trim_space_bytes
parse_cpu_freq_khz b = parse_uint (next_field (trim_space_bytes b)).0
