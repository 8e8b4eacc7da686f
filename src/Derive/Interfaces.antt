-- ===== src/Derive/Interfaces.antt =====
-- internal/derive/derive.go: `API`, the share of an interface's traffic that took the fast path.
use mikroscope.Common.{
  ℕ, ◌-◌, List, [], ◌∷◌, ◌++◌, Option, none, some, Bool, ◌||◌, not, Bytes, codes, lookup, insert,
  leb, ltb, ◌==◌, if◌then◌else◌, of_some, or_else, is_some,
}
use mikroscope.Sample.Floats.{Floats}
use mikroscope.Derive.Types.{Stage}

-- `apitier.IfaceCounters`, of which `API` reads the name and the counters.
pub record IfaceCounters : Type 0 where
  pub name : Bytes
  pub counters : List (Bytes × ℕ)

pub record IfaceShare (F : Type 0) : Type 0 where
  pub interface_name : Bytes
  pub rx_bytes : ℕ
  pub fp_rx_bytes : ℕ
  pub tx_bytes : ℕ
  pub fp_tx_bytes : ℕ
  pub fp_rx_share : Option F
  pub fp_tx_share : Option F

abbrev CounterMap : Type 0
CounterMap = List (Bytes × ℕ)

abbrev pub grown : Option ℕ → Option ℕ → Option ℕ
grown none old = none
grown (some c) none = none
grown (some c) (some o) = if leb o c then some (c - o) else none

-- The closure `delta`: the first of the keys that both polls have and that did not fall.
unfoldable pub counter_delta : CounterMap → CounterMap → List Bytes → Option ℕ
counter_delta cur old [] = none
counter_delta cur old (k ∷ ks) =
    of_some (counter_delta cur old ks) some (grown (lookup k cur) (lookup k old))

abbrev rx_keys : List Bytes
rx_keys = codes "driver-rx-byte" ∷ codes "rx-byte" ∷ codes "rx-bytes" ∷ []

abbrev tx_keys : List Bytes
tx_keys = codes "driver-tx-byte" ∷ codes "tx-byte" ∷ codes "tx-bytes" ∷ []

module _ {F : Type 0} (fl : Floats F) where
  abbrev share_of : Option ℕ → Option ℕ → Option F
  share_of none fp = none
  share_of (some b) none = none
  share_of (some b) (some f) =
      if ltb 0 b then some (fl.min (fl.of_ℕ 1) (fl.div (fl.of_ℕ f) (fl.of_ℕ b))) else none

  abbrev share : Bytes → Option ℕ → Option ℕ → Option ℕ → Option ℕ → IfaceShare F
  share name rx fp_rx tx fp_tx = record {
    interface_name = name;
    rx_bytes = or_else 0 rx;
    fp_rx_bytes = or_else 0 fp_rx;
    tx_bytes = or_else 0 tx;
    fp_tx_bytes = or_else 0 fp_tx;
    fp_rx_share = share_of rx fp_rx;
    fp_tx_share = share_of tx fp_tx;
  }

  -- An interface that never counted a byte on the fast path has no transmit side.
  abbrev has_fast_tx : CounterMap → Bool
  has_fast_tx cur = not (or_else 0 (lookup (codes "fp-tx-byte") cur) == 0)

  unfoldable pub iface_share : Bytes → CounterMap → CounterMap → Option (IfaceShare F)
  unfolding counter_delta
  iface_share name cur old =
      let rx = counter_delta cur old rx_keys in
      let fp_rx = counter_delta cur old (codes "fp-rx-byte" ∷ []) in
      let tx : Option ℕ = if has_fast_tx cur then counter_delta cur old tx_keys else none in
      let fp_tx : Option ℕ =
        if has_fast_tx cur then counter_delta cur old (codes "fp-tx-byte" ∷ []) else none in
      if is_some rx || is_some tx then some (share name rx fp_rx tx fp_tx) else none

  abbrev with_share : Option (IfaceShare F) → List (IfaceShare F) → List (IfaceShare F)
  with_share none out = out
  with_share (some sh) out = out ++ sh ∷ []

  abbrev shown : IfaceCounters → Stage F → List (IfaceShare F) → List (IfaceShare F)
  shown c st out =
      of_some out (λ old. with_share (iface_share c.name c.counters old) out)
        (lookup c.name st.prev_ctrs)

  unfoldable pub shares_from :
      List IfaceCounters → Stage F → List (IfaceShare F) → Stage F × List (IfaceShare F)
  unfolding iface_share
  shares_from [] st out = (st, out)
  shares_from (c ∷ cs) st out =
      shares_from cs (record st { prev_ctrs = insert c.name c.counters st.prev_ctrs })
        (shown c st out)

  -- `API`.
  unfoldable pub api : List IfaceCounters → Stage F → Stage F × List (IfaceShare F)
  unfolding shares_from
  api counters st = shares_from counters st []
