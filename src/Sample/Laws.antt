-- ===== src/Sample/Laws.antt =====
-- internal/sample/sample.go, `sub`: what a difference of two reads is.
use mikroscope.Common.{
  Bool, ◌&&◌, ◌||◌, leb, ltb, if◌then◌else◌, sum_by, ℕ, ◌+◌, ◌%◌, ◌<◌, List, [], ◌∷◌, ◌≡◌, refl,
  arith, All, u64, u64_mod,
}
use mikroscope.Sample.Counter.{Counted, ◌>>=◌, pure, sub, is_wrap32, range32, edge32}

-- A counter that advances by `d` between two reads gives `d`, with no reset counted: a 64-bit one
-- that does not overflow, and a 32-bit one that wraps, if `d` is less than a sixteenth of its range.
sub-advance :
    (p d seen : ℕ)
    → (p + d < u64_mod → sub (p + d) p seen ≡ (d, seen))
      × (p < range32 → d < edge32 → sub ((p + d) % range32) p seen ≡ (d, seen))
unfolding sub is_wrap32
sub-advance p d seen = (λ h. ground arith, λ hp hd. ground arith)

-- The reads of a 32-bit counter that stands at `p` and then advances by each of `ds`.
abbrev pub readings : ℕ → List ℕ → List ℕ
readings p [] = []
readings p (d ∷ ds) = (p + d) % range32 ∷ readings ((p + d) % range32) ds

-- The differences of consecutive reads, the first against `p`.
abbrev pub differences_of : ℕ → List ℕ → Counted (List ℕ)
differences_of p [] = pure []
differences_of p (c ∷ cs) = do d ← sub c p; ds ← differences_of c cs; pure (d ∷ ds)

-- Over any number of reads of a 32-bit counter that advances by less than a sixteenth of its range
-- between two of them, however often it wraps, the differences are exactly what it advanced by, so
-- that nothing is lost or counted twice, and no reset is counted.
pub differences-readings :
    (p seen : ℕ) (ds : List ℕ)
    → p < range32
    → All (λ d. d < edge32) ds
    → differences_of p (readings p ds) seen ≡ (ds, seen)
differences-readings p seen [] h small = refl
differences-readings p seen (d ∷ ds) h small =
    rw
      (
        (sub-advance p d seen).1 h small.0,
        differences-readings ((p + d) % range32) seen ds (omega arith) small.1,
      )
      refl

-- A fall of a counter between two reads is a wrap of a 32-bit counter if it is from the last sixteenth
-- of the range to the first one; it is a restart otherwise.
abbrev pub wrapped : ℕ → ℕ → Bool
wrapped p c = ltb p 4294967296 && leb 4026531840 p && ltb c 268435456

-- The restarts in a list of reads, the first against `p`.
abbrev pub restarts : ℕ → List ℕ → ℕ
restarts p [] = 0
restarts p (c ∷ cs) = restarts c cs + (if leb p c || wrapped p c then 0 else 1)

-- What the readings went back by: the range at each wrap, all that was counted at each restart.
abbrev pub went_back : ℕ → List ℕ → ℕ
went_back p [] = 0
went_back p (c ∷ cs) =
    went_back c cs + (if leb p c then 0 else if wrapped p c then 4294967296 else p)

abbrev pub last_read : ℕ → List ℕ → ℕ
last_read p [] = p
last_read p (c ∷ cs) = last_read c cs

sub_step :
    (p c seen : ℕ)
    → c < u64_mod
    → seen < u64_mod
    → let r = sub c p seen in
      (r.0 + p ≡ c + (if leb p c then 0 else if wrapped p c then 4294967296 else p))
      × (r.1 ≡ u64 (seen + (if leb p c || wrapped p c then 0 else 1)))
unfolding sub is_wrap32
sub_step p c seen h b = ground arith

pub differences-account :
    (p seen : ℕ) (cs : List ℕ)
    → seen < u64_mod
    → All (λ c. c < u64_mod) cs
    → let r = differences_of p cs seen in
      (sum_by (λ d. d) r.0 + p ≡ last_read p cs + went_back p cs)
      × (r.1 ≡ u64 (seen + restarts p cs))
differences-account p seen [] b h = (omega arith, omega arith)
differences-account p seen (c ∷ cs) b h =
    let (way, resets) = sub_step p c seen h.0 b in
    let small : (sub c p seen).1 < u64_mod = omega (arith, resets) in
    let rest = differences-account c (sub c p seen).1 cs small h.1 in
    (omega (arith, way, rest.0), omega (arith, resets, rest.1))
