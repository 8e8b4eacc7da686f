-- ===== src/Procfs/Ports.antt =====
-- internal/procfs/ports.go and `KmsgKind` of kmsg.go: which port a record of the kernel's log is
-- about, and what it says. A regular expression of the source is a matcher for that expression on
-- ASCII text.
mod Tests
use mikroscope.Common.{
  ℕ, List, [], ◌∷◌, ◌++◌, Option, none, some, Bool, true, false, Bytes, codes, bytes_eq, lookup,
  length, ◌==◌, if◌then◌else◌, ◌>>=◌, or_else, of_some,
}
use mikroscope.Procfs.Types.{KmsgRecord}
use mikroscope.Procfs.Text.{after_device, find_device, link_state, find_stp_state, contains, atoi}

-- The port names of the one board in `boards`.
abbrev pub rb5009 : List (Bytes × Bytes)
rb5009 =
    (codes "eth0", codes "ether1")
    ∷ (codes "eth1", codes "ether2")
    ∷ (codes "eth2", codes "ether3")
    ∷ (codes "eth3", codes "ether4")
    ∷ (codes "eth4", codes "ether5")
    ∷ (codes "eth5", codes "ether6")
    ∷ (codes "eth6", codes "ether7")
    ∷ (codes "eth7", codes "ether8")
    ∷ (codes "eth8", codes "sfp-sfpplus1")
    ∷ (codes "switch0", codes "switch1")
    ∷ []

unfoldable pub port_names : Bytes → Option (List (Bytes × Bytes))
port_names board = if bytes_eq board (codes "RB5009") then some rb5009 else none

unfoldable pub routeros_name : Bytes → Bytes → Option Bytes
unfolding port_names
routeros_name board kernel_iface = do let names = (← port_names board); lookup kernel_iface names

unfoldable pub format_port : Bytes → Bytes → Bytes
unfolding routeros_name
format_port board kernel_iface = elim (routeros_name board kernel_iface) [
  | none ↦ kernel_iface
  | some ros ↦ kernel_iface ++ codes " (" ++ ros ++ codes ")"
]

unfoldable pub port_index : Bytes → Option ℕ
port_index iface = do
  let (device, rest) = (← after_device iface)
  let digits = (← elim rest [ [] ↦ some device | (c ∷ cs) ↦ none ])
  atoi digits

unfoldable pub kmsg_kind : Bytes → Bytes
kmsg_kind msg =
    let other =
      if contains (codes "with own address as source address") msg
      then codes "own-address"
      else codes "other" in
    let stp = of_some other (λ s. codes "stp-" ++ s) (find_stp_state msg) in
    of_some stp (λ s. codes "link-" ++ s) (link_state msg)

abbrev annotated : Bytes → KmsgRecord → Bytes → KmsgRecord
annotated board r iface = record r {
  iface = iface;
  kind = kmsg_kind r.message;
  ros_iface = or_else r.ros_iface (routeros_name board iface);
}

unfoldable pub annotate_kmsg : Bytes → KmsgRecord → KmsgRecord
unfolding kmsg_kind routeros_name
annotate_kmsg board r =
    let named = of_some r (annotated board r) (find_device r.message) in
    if length board == 0 then r else named
