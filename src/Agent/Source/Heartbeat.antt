-- ===== src/Agent/Source/Heartbeat.antt =====
-- The heartbeat of an emit-on-change source: how long it can be silent.
use mikroscope.Common.{
  ℕ, ◌+◌, ◌<◌, [], ◌∷◌, Option, Bytes, length, u64, u64_mod, sub64, leb→lt, All, ◌≡◌, ◌≢◌, refl,
  ◌∙◌, sym, inl, inr, arith,
}
use mikroscope.Sample.Floats.{Floats}
use mikroscope.Agent.Source.Types.{Files, Source}
use mikroscope.Agent.Source.Filter.{read_freq}
use mikroscope.Agent.Source.{Reading}
use mikroscope.Agent.Source.Held.{Ticks, raws, readings, Timed, read-cases}

-- The ticks since the frequencies were sent last.
abbrev pub age : Source → ℕ
age s = sub64 s.tick s.last_freq_tick

-- Both counters and the heartbeat are 64-bit words, and less than a heartbeat has passed.
abbrev pub Young : Source → Type 0
Young s =
    (s.tick < u64_mod)
    × (s.last_freq_tick < u64_mod)
    × (s.heartbeat < u64_mod)
    × (age s < s.heartbeat)

age-next :
    (t l b : ℕ)
    → t < u64_mod
    → l < u64_mod
    → b < u64_mod
    → sub64 t l < b
    → sub64 (u64 (t + 1)) l ≡ sub64 t l + 1
age-next t l b ht hl hb ha = omega arith

module _ {F : Type 0} (fl : Floats F) (parse_float : Bytes → Option F) where
  silent-Young :
      (s : Source) (f : Files) (r : Reading F)
      → Timed s f r
      → read_freq f.freq ≢ []
      → (r.raw).freq_khz ≡ []
      → Young s
      → Young r.source × (age r.source ≡ age s + 1) × ((r.source).heartbeat ≡ s.heartbeat)
  silent-Young s f r (h, t, inl e) n q y = absurd (n (sym e ∙ q))
  silent-Young s f r (h, t, inr (l, b)) n q (yt, yl, yb, ya) =
      let next = age-next s.tick s.last_freq_tick s.heartbeat yt yl yb ya in
      rw (h, t, l) ((omega arith, yl, yb, leb→lt s.heartbeat _ b), next, refl)

  -- A source sends the core frequencies at least once in a heartbeat, changed or not: from a state in
  -- which less than a heartbeat has passed since they were sent, the counters being 64-bit words, a
  -- list of reads that all leave them out, at ticks that all have some, is short: with the ticks that
  -- had passed it is less than a heartbeat.
  pub raws-heartbeat :
      (ts : Ticks F) (s : Source)
      → Young s
      → All (λ m. m ≢ []) (readings fl parse_float (λ f. read_freq f.freq) ts)
      → All (λ r. r.freq_khz ≡ []) (raws fl parse_float s ts)
      → length (raws fl parse_float s ts) + age s < s.heartbeat
  raws-heartbeat [] s y n q = omega (arith, y.3)
  raws-heartbeat ((dst, f) ∷ ts) s y n q = elim (read-cases fl parse_float s dst f) [
    | inl (e, m) ↦
        let n' : All (λ m. m ≢ []) (readings fl parse_float (λ f. read_freq f.freq) ts) =
          rw e at n in
        let q' : All (λ r. r.freq_khz ≡ []) (raws fl parse_float s ts) = rw m at q in
        rw m (raws-heartbeat ts s y n' q')
    | inr (st, r, e, m, a, b, t) ↦
        let n' : (read_freq f.freq ≢ [])
            × All (λ m. m ≢ []) (readings fl parse_float (λ f. read_freq f.freq) ts) =
          rw e at n in
        let q' : ((r.raw).freq_khz ≡ [])
            × All (λ r. r.freq_khz ≡ []) (raws fl parse_float r.source ts) =
          rw m at q in
        let (young, older, same) = silent-Young s f r t n'.0 q'.0 y in
        let rest = raws-heartbeat ts r.source young n'.1 q'.1 in
        rw m (omega (arith, rest, older, same))
  ]
