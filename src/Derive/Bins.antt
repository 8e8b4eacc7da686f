-- ===== src/Derive/Bins.antt =====
-- internal/derive/derive.go: the rules that work on bins of time, of a thermal zone and of a core.
use mikroscope.Common.{
  ℕ, suc, ◌+◌, List, [], ◌∷◌, ◌++◌, Bool, ◌&&◌, not, Bytes, codes, bytes_eq, itoa, pos, sub_int64,
  lebℤ, lookup, insert, length, get_or, set, drop, ltb, leb, ◌==◌, if◌then◌else◌, u64, or_else,
}
use mikroscope.Procfs.Types.{Thermal}
use mikroscope.Sample.Floats.{Floats}
use mikroscope.Sample.Types.{Sample, PerfDelta}
use mikroscope.Derive.Types.{
  thermal_high, thermal_rising, ipc_collapse, ThermalState, IpcState, Stage,
}
use mikroscope.Derive.Window.{median}
use mikroscope.Derive.Fire.{Firing, emit_if}
use mikroscope.Derive.Rules.{is_past, detection, padded}

-- The counts of the last group with this name; an empty list does what a nil one does.
unfoldable pub last_counts : Bytes → List ℕ → List PerfDelta → List ℕ
last_counts name found [] = found
last_counts name found (p ∷ ps) =
    last_counts name (if bytes_eq p.name name then p.per_cpu else found) ps

module _ {F : Type 0} (fl : Floats F) where
  -- 85 hundredths of the zone's critical trip.
  abbrev near : ThermalState F → F
  near ts = fl.mul (fl.div (fl.of_ℕ 85) (fl.of_ℕ 100)) ts.critical

  abbrev pub zone_state : Sample F → Thermal F → Stage F → ThermalState F
  zone_state s z st =
      let ts =
        or_else
          (record {
            bin_start = s.wall_ns;
            sum = fl.of_ℕ 0;
            n = 0;
            means = [];
            critical = fl.of_ℕ 0;
          })
          (lookup z.kind st.thermal) in
      let crit = or_else (pos 0) (lookup z.kind s.thermal_critical) in
      if lebℤ crit (pos 0)
      then ts
      else record ts { critical = fl.div (fl.of_ℤ crit) (fl.of_ℕ 1000) }

  -- At most the last four means are kept.
  unfoldable pub keep_means : List F → List F
  keep_means means = if ltb 4 (length means) then drop 1 means else means

  abbrev rises : F → F → Bool
  rises a b = fl.lt (fl.of_ℕ 1) (fl.sub b a)

  unfoldable pub is_rising : List F → Bool
  is_rising m =
      let at : ℕ → F = λ i. get_or m i (fl.of_ℕ 0) in
      leb 4 (length m) && (rises (at 0) (at 1) && (rises (at 1) (at 2) && rises (at 2) (at 3)))

  abbrev mean : ThermalState F → F
  mean ts = fl.div ts.sum (fl.of_ℕ ts.n)

  abbrev closed_bin : Sample F → ThermalState F → ThermalState F
  closed_bin s ts = record ts {
    means = keep_means (ts.means ++ mean ts ∷ []);
    bin_start = s.wall_ns;
    sum = fl.of_ℕ 0;
    n = 0;
  }

  abbrev bin_over : Sample F → ThermalState F → Bool
  bin_over s ts = is_past s.wall_ns ts.bin_start (pos 60000000000) && ltb 0 ts.n

  abbrev zone_bin : Sample F → ThermalState F → ThermalState F
  zone_bin s ts = if bin_over s ts then closed_bin s ts else ts

  abbrev pub high_zone : Sample F → Thermal F → ThermalState F → Firing F → Firing F
  high_zone s z ts r =
      emit_if (fl.lt (fl.of_ℕ 0) ts.critical && fl.le (near ts) z.celsius)
        (detection fl s thermal_high z.kind z.celsius (near ts)) r

  abbrev pub rising_zone : Sample F → Thermal F → ThermalState F → Firing F → Firing F
  rising_zone s z ts r =
      let m = (zone_bin s ts).means in
      emit_if (bin_over s ts && is_rising m)
        (detection fl s thermal_rising z.kind
          (fl.sub (get_or m 3 (fl.of_ℕ 0)) (get_or m 0 (fl.of_ℕ 0))) (fl.of_ℕ 3))
        r

  abbrev pub zone_added : Sample F → Thermal F → ThermalState F → ThermalState F
  zone_added s z ts =
      let ts' = zone_bin s ts in record ts' { sum = fl.add ts'.sum z.celsius; n = ts'.n + 1 }

  -- One zone: the state behind its pointer is written once, at the end.
  unfoldable pub thermal_rule : Sample F → Thermal F → Firing F → Firing F
  unfolding keep_means is_rising
  thermal_rule s z r =
      let ts = zone_state s z r.stage in
      let r' = rising_zone s z ts (high_zone s z ts r) in
      record r' {
        stage = record r'.stage { thermal = insert z.kind (zone_added s z ts) r'.stage.thermal };
      }

  -- `thermalRules`.
  unfoldable pub thermal_rules : Sample F → List (Thermal F) → Firing F → Firing F
  unfolding thermal_rule
  thermal_rules s [] r = r
  thermal_rules s (z ∷ zs) r = thermal_rules s zs (thermal_rule s z r)

  abbrev add_bin : ℕ → ℕ → IpcState F → IpcState F
  add_bin cycles instrs c = record c {
    cycles = u64 (c.cycles + cycles);
    instrs = u64 (c.instrs + instrs);
  }

  -- The bins kept are sixty at most.
  unfoldable pub keep_bins : IpcState F → IpcState F
  keep_bins c =
      if ltb 60 (length c.ipc_hist)
      then record c { ipc_hist = drop 1 c.ipc_hist; rate_hist = drop 1 c.rate_hist }
      else c

  abbrev bin_ipc : IpcState F → F
  bin_ipc c = fl.div (fl.of_ℕ c.instrs) (fl.of_ℕ c.cycles)

  abbrev bin_rate : Sample F → IpcState F → F
  bin_rate s c =
      fl.div (fl.of_ℕ c.cycles)
        (fl.div (fl.of_ℤ (sub_int64 s.wall_ns c.bin_start)) (fl.of_ℕ 1000000000))

  -- The state that `closeIPCBin` leaves.
  unfoldable pub ipc_closed : Sample F → IpcState F → IpcState F
  unfolding keep_bins
  ipc_closed s c =
      let idle = record c { bin_start = s.wall_ns; instrs = 0 } in
      let counted = keep_bins (record c {
        bin_start = s.wall_ns;
        cycles = 0;
        instrs = 0;
        ipc_hist = c.ipc_hist ++ bin_ipc c ∷ [];
        rate_hist = c.rate_hist ++ bin_rate s c ∷ [];
      }) in
      if c.cycles == 0 then idle else counted

  abbrev half_median : IpcState F → F
  half_median c = fl.mul (fl.div (fl.of_ℕ 1) (fl.of_ℕ 2)) (median fl c.ipc_hist)

  abbrev collapsed : Sample F → IpcState F → Bool
  collapsed s c =
      not (c.cycles == 0)
      && (leb 20 (length c.ipc_hist)
          && (fl.lt (bin_ipc c) (half_median c) && fl.lt (median fl c.rate_hist) (bin_rate s c)))

  -- What `closeIPCBin` fires.
  unfoldable pub ipc_fire : Sample F → ℕ → IpcState F → Firing F → Firing F
  ipc_fire s core c r =
      emit_if (collapsed s c)
        (detection fl s ipc_collapse (codes "core" ++ itoa core) (bin_ipc c) (half_median c)) r

  abbrev new_bin : Sample F → IpcState F
  new_bin s = record {
    bin_start = s.wall_ns;
    cycles = 0;
    instrs = 0;
    ipc_hist = [];
    rate_hist = [];
  }

  abbrev put_ipc : ℕ → IpcState F → Firing F → Firing F
  put_ipc i c r = record r { stage = record r.stage { ipc = set r.stage.ipc i c } }

  unfoldable pub ipc_core : Sample F → ℕ → ℕ → ℕ → Firing F → Firing F
  unfolding ipc_closed ipc_fire padded
  ipc_core s i cycles instrs r =
      let ready = record r {
        stage = record r.stage { ipc = padded (suc i) (new_bin s) r.stage.ipc };
      } in
      let c = get_or ready.stage.ipc i (new_bin s) in
      let over = is_past s.wall_ns c.bin_start (pos 1000000000) in
      let fired = ipc_fire s i c ready in
      put_ipc i (add_bin cycles instrs (if over then ipc_closed s c else c))
        (if over then fired else ready)

  -- The loop of `ipcRules` over the cores that both groups have.
  unfoldable pub ipc_cores : Sample F → ℕ → List ℕ → List ℕ → Firing F → Firing F
  unfolding ipc_core
  ipc_cores s i [] instrs r = r
  ipc_cores s i (c ∷ cycles) [] r = r
  ipc_cores s i (c ∷ cycles) (n ∷ instrs) r = ipc_cores s (suc i) cycles instrs (ipc_core s i c n r)

  -- `ipcRules`.
  unfoldable pub ipc_rules : Sample F → Firing F → Firing F
  unfolding ipc_cores last_counts
  ipc_rules s r =
      ipc_cores s 0 (last_counts (codes "cycles") [] s.perf)
        (last_counts (codes "instructions") [] s.perf) r
