-- ===== src/Agent/Ring.antt =====
-- internal/agent/ring.go: the fixed-capacity buffer of the last samples. The mutex makes every
-- method atomic, so a method is one step. An `int` that the code only compares with zero
-- (capacity, limit, n) is a natural number, with 0 for every value that is not positive.
pub mod View
pub mod Store
pub mod Runs
pub mod Numbered
pub mod Read
pub mod History
mod Tests
use mikroscope.Common.{
  ◌≡◌, refl, ℕ, zero, suc, ◌+◌, ◌-◌, ◌%◌, ◌≤◌, ◌<◌, min, max, List, [], ◌∷◌, ◌++◌, map, Option,
  none, some, Bool, true, false, ◌&&◌, not, Bytes, ℤ, pos, u64, sub64, length, get_or, set,
  replicate, ltb, leb, ◌==◌, if◌then◌else◌,
}
use mikroscope.Sample.Floats.{Floats}
use mikroscope.Sample.Types.{Sample, busy_ratio}

pub record Entry (F : Type 0) : Type 0 where
  pub seq : ℕ
  pub mono_ns : ℤ
  pub dt_ns : ℤ
  pub busy : List F
  pub line : Bytes

pub record Ring (F : Type 0) : Type 0 where
  pub buf : List (Entry F)
  pub head : ℕ
  pub count : ℕ
  pub last : ℕ

-- Go's zero value of an entry, which `make` fills the buffer with.
abbrev pub zero_entry : {F : Type 0} → Entry F
zero_entry = record { seq = 0; mono_ns = pos 0; dt_ns = pos 0; busy = []; line = [] }

module _ {F : Type 0} where
  unfoldable pub new_ring : ℕ → Ring F
  new_ring capacity =
      let n = if ltb capacity 1 then 1 else capacity in
      record { buf = replicate n zero_entry; head = 0; count = 0; last = 0 }

  -- The part of `Push` under the lock.
  unfoldable pub store : Entry F → Ring F → Ring F
  store e r = record {
    buf = set r.buf r.head e;
    head = (r.head + 1) % length r.buf;
    count = if ltb r.count (length r.buf) then r.count + 1 else r.count;
    last = e.seq;
  }

  -- The loop that reads `buf[(first+i)%len(buf)]` for the `n` values of `i` from the given one.
  unfoldable pub read_run : List (Entry F) → ℕ → ℕ → ℕ → List (Entry F)
  read_run buf first i zero = []
  read_run buf first i (suc n) =
      get_or buf ((first + i) % length buf) zero_entry ∷ read_run buf first (i + 1) n

  unfoldable pub oldest : Ring F → ℕ
  oldest r = if r.count == 0 then 0 else u64 (sub64 r.last r.count + 1)

  -- `first` adds the length before the subtraction, which is the same sum in Go's signed `int`.
  unfoldable pub since : ℕ → ℕ → Ring F → List (Entry F) × Bool
  unfolding read_run
  since after limit r =
      if r.count == 0
      then ([], false)
      else (let old = u64 (sub64 r.last r.count + 1) in
          let gap = not (after == 0) && ltb (u64 (after + 1)) old in
          let start = max old (u64 (after + 1)) in
          let n = u64 (sub64 r.last start + 1) in
          let n' = if ltb 0 limit && ltb limit n then limit else n in
          let first = (r.head + length r.buf + (start - old) - r.count) % length r.buf in
          if ltb r.last start then ([], gap) else (read_run r.buf first 0 n', gap))

  unfoldable pub tail : ℕ → Ring F → List (Entry F)
  unfolding read_run
  tail n r =
      let m = min n r.count in
      if m == 0 then [] else read_run r.buf ((r.head + length r.buf - m) % length r.buf) 0 m

-- `json.Marshal` of a sample: its bytes, or none for an error.
module _ {F : Type 0} (fl : Floats F) (marshal : Sample F → Option Bytes) where
  unfoldable pub entry_of : Sample F → Bytes → Entry F
  entry_of s line = record {
    seq = s.seq;
    mono_ns = s.mono_ns;
    dt_ns = s.dt_ns;
    busy = map (λ c. fl.to_float32 (busy_ratio fl c s.dt_ns)) s.cpu;
    line = line ++ 10 ∷ [];
  }

  unfoldable pub push_line : Sample F → Option Bytes → Ring F → Option (Ring F)
  push_line s none r = none
  push_line s (some line) r = some (store (entry_of s line) r)

  -- `Push`: an error of the encoder leaves the ring as it was.
  unfoldable pub push : Sample F → Ring F → Option (Ring F)
  push s r = push_line s (marshal s) r

  push_line-store :
      (s : Sample F) (o : Option Bytes) (r r' : Ring F)
      → push_line s o r ≡ some r'
      → (e : Entry F) × (e.seq ≡ s.seq) × (r' ≡ store e r)
  unfolding push_line entry_of
  push_line-store s none r r' h = cc
  push_line-store s (some line) r r' h = (entry_of s line, refl, cc)

  -- A push that succeeds stores an entry with the sample's number.
  pub push-store :
      (s : Sample F) (r r' : Ring F)
      → push s r ≡ some r'
      → (e : Entry F) × (e.seq ≡ s.seq) × (r' ≡ store e r)
  unfolding push
  push-store s r r' h = push_line-store s (marshal s) r r' h
