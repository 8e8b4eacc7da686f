-- ===== src/Derive/LeadUp.antt =====
-- internal/derive/derive.go: what the router did in the 30 s before a sample.
use mikroscope.Common.{
  ℕ, suc, ◌+◌, List, [], ◌∷◌, ◌++◌, Option, none, some, Bool, ◌&&◌, not, codes, ℤ, pos, sub_int64,
  add_int64, lebℤ, map, lookup, length, ltb, ◌==◌, if◌then◌else◌, u64, or_else, of_some, is_some,
  sum_by,
}
use mikroscope.Sample.Floats.{Floats}
use mikroscope.Sample.Types.{Sample, busy}
use mikroscope.Derive.Types.{Vitals, CpuPart, MemPart, Facts, LeadUp, nothing, facts, Stage}

-- `now - t > limit`.
abbrev pub is_older : ℤ → ℤ → ℤ → Bool
is_older limit now t = not (lebℤ (sub_int64 now t) limit)

-- The loop that cuts what is older than a window off the front.
unfoldable pub cut_older : {A : Type 0} → (A → ℤ) → ℤ → ℤ → List A → List A
cut_older at limit now [] = []
cut_older at limit now (x ∷ xs) =
    let rest = cut_older at limit now xs in if is_older limit now (at x) then rest else x ∷ xs

abbrev lead_up_ns : ℤ
lead_up_ns = pos 30000000000

abbrev frozen_keep_ns : ℤ
frozen_keep_ns = pos 300000000000

-- The busy ticks of a sample added to those of each core so far.
unfoldable pub add_cores : List ℕ → List ℕ → List ℕ
add_cores [] bs = bs
add_cores (a ∷ xs) [] = a ∷ xs
add_cores (a ∷ xs) (b ∷ bs) = u64 (a + b) ∷ add_cores xs bs

unfoldable pub core_totals : List ℕ → List Vitals → List ℕ
unfolding add_cores
core_totals per_core [] = per_core
core_totals per_core (v ∷ vs) = core_totals (add_cores per_core v.core_busy) vs

unfoldable pub total_dt : ℤ → List Vitals → ℤ
total_dt dt [] = dt
total_dt dt (v ∷ vs) = total_dt (add_int64 dt v.dt_ns) vs

-- The first core with the most ticks: its number and ticks.
unfoldable pub hottest : ℕ → ℕ × ℕ → List ℕ → ℕ × ℕ
hottest i (core, hot) [] = (core, hot)
hottest i (core, hot) (b ∷ bs) = hottest (suc i) (if ltb hot b then (i, b) else (core, hot)) bs

unfoldable pub lowest_avail : ℕ → List Vitals → ℕ
lowest_avail low [] = low
lowest_avail low (v ∷ vs) =
    lowest_avail (if ltb 0 v.mem_total && ltb v.mem_avail_kb low then v.mem_avail_kb else low) vs

-- The newest population of the window that has one.
unfoldable pub last_conntrack : List Vitals → Option (ℕ × ℕ)
last_conntrack [] = none
last_conntrack (v ∷ vs) =
    let here : Option (ℕ × ℕ) = if v.has_ct then some (v.ct, v.ct_limit) else none in
    of_some here some (last_conntrack vs)

abbrev last_vitals : Vitals → List Vitals → Vitals
last_vitals v [] = v
last_vitals v (u ∷ us) = last_vitals u us

abbrev sum_u64 : (Vitals → ℕ) → List Vitals → ℕ
sum_u64 field vs = u64 (sum_by field vs)

module _ {F : Type 0} (fl : Floats F) where
  abbrev cpu_of : F → List ℕ → CpuPart F
  cpu_of capacity per_core =
      let (core, hot) = hottest 0 (0, 0) per_core in
      let total = u64 (sum_by (λ b. b) per_core) in
      record {
        average =
            fl.min (fl.of_ℕ 1)
              (fl.div (fl.of_ℕ total) (fl.mul capacity (fl.of_ℕ (length per_core))));
        hot_core = core;
        hot_share = fl.min (fl.of_ℕ 1) (fl.div (fl.of_ℕ hot) capacity);
      }

  -- `cpuPart`: USER_HZ is 100.
  unfoldable pub cpu_part : List Vitals → Option (CpuPart F)
  unfolding core_totals total_dt hottest
  cpu_part win =
      let per_core = core_totals [] win in
      let capacity =
        fl.mul (fl.div (fl.of_ℤ (total_dt (pos 0) win)) (fl.of_ℕ 1000000000)) (fl.of_ℕ 100) in
      let part = cpu_of capacity per_core in
      if fl.le capacity (fl.of_ℕ 0) then none else if length per_core == 0 then none else some part

  -- `conntrackPart`: the population and its limit, 0 where there is none.
  unfoldable pub conntrack_part : Stage F → Option (ℕ × ℕ)
  unfolding last_conntrack
  conntrack_part st =
      let kept : Option (ℕ × ℕ) =
        if st.prev_ct == 0 then none else some (st.prev_ct, st.ct_limit) in
      of_some kept some (last_conntrack st.recent)

  abbrev mem_part : Vitals → List Vitals → Option MemPart
  mem_part last win =
      if ltb 0 last.mem_total
      then some (record {
        available = last.mem_avail_kb;
        total = last.mem_total;
        lowest = lowest_avail last.mem_avail_kb win;
      })
      else none

  -- The time without a sample, where it is not negative and at most an hour.
  abbrev gap_part : ℤ → ℤ → Option F
  gap_part now last =
      let gap = sub_int64 now last in
      if lebℤ (pos 0) gap && lebℤ gap (pos 3600000000000)
      then some (fl.div (fl.of_ℤ gap) (fl.of_ℕ 1000000000))
      else none

  abbrev facts_of : ℤ → Stage F → Vitals → Vitals → Facts F
  facts_of now st first last = record {
    seconds = fl.div (fl.of_ℤ (sub_int64 last.wall_ns first.wall_ns)) (fl.of_ℕ 1000000000);
    samples = length st.recent;
    cpu = cpu_part st.recent;
    mem = mem_part last st.recent;
    conntrack = conntrack_part st;
    dropped = sum_u64 (λ v. v.dropped) st.recent;
    squeezed = sum_u64 (λ v. v.squeezed) st.recent;
    oom_kills = sum_u64 (λ v. v.oom_kills) st.recent;
    alloc_stalls = sum_u64 (λ v. v.alloc_stalls) st.recent;
    gap = gap_part now last.wall_ns;
  }

  abbrev lead_up_from : ℤ → Stage F → List Vitals → LeadUp F
  lead_up_from now st [] = nothing
  lead_up_from now st (v ∷ vs) = facts (facts_of now st v (last_vitals v vs))

  unfoldable pub lead_up : ℤ → Stage F → LeadUp F
  unfolding cpu_part conntrack_part lowest_avail
  lead_up now st = lead_up_from now st st.recent

  abbrev is_fresh : ℤ → Stage F → Bool
  is_fresh now st = lebℤ st.frozen_at now && lebℤ (sub_int64 now st.frozen_at) frozen_keep_ns

  -- `leadUpForReboot`: what was frozen at a restart is told once.
  unfoldable pub lead_up_for_reboot : ℤ → Stage F → Stage F × LeadUp F
  unfolding lead_up
  lead_up_for_reboot now st =
      let now_text : Stage F × LeadUp F = (st, lead_up now st) in
      of_some now_text
        (λ lu. if is_fresh now st then (record st { frozen = none }, lu) else now_text) st.frozen

  abbrev vitals_of : Sample F → Vitals
  vitals_of s = record {
    wall_ns = s.wall_ns;
    dt_ns = s.dt_ns;
    core_busy = map busy s.cpu;
    mem_avail_kb = s.mem.mem_available;
    mem_total = s.mem.mem_total;
    ct = or_else 0 (lookup (codes "nf_conntrack") s.slab);
    ct_limit =
        (if is_some (lookup (codes "nf_conntrack") s.slab)
          then or_else 0 (lookup (codes "nf_conntrack") s.slab_limit)
          else 0);
    has_ct = is_some (lookup (codes "nf_conntrack") s.slab);
    dropped = u64 (sum_by (λ n. n.dropped) s.softnet);
    squeezed = u64 (sum_by (λ n. n.time_squeeze) s.softnet);
    oom_kills = s.vm.oom_kill;
    alloc_stalls = s.vm.alloc_stall;
  }

  -- `remember`.
  unfoldable pub remember : Sample F → Stage F → Stage F
  unfolding cut_older
  remember s st = record st {
    recent = cut_older (λ v. v.wall_ns) lead_up_ns s.wall_ns (st.recent ++ vitals_of s ∷ []);
  }
