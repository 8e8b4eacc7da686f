-- ===== src/Procfs/Ports/Tests.antt =====
-- Records of the kernel's log, read.
use mikroscope.Common.{none, some, codes, ◌≡◌, refl, bytes_eq, lookup, after_prefix}
use mikroscope.Procfs.Text.{
  span, after_device, device_here, find_device_from, find_device, lower, link_state, stp_here,
  stp_from, find_stp_state, contains, atoi,
}
use mikroscope.Procfs.Ports.{kmsg_kind, port_index, format_port, routeros_name, port_names}

a_loop :
    kmsg_kind (codes "br: received packet on eth1 with own address as source address")
    ≡ codes "own-address"
unfolding kmsg_kind link_state find_stp_state stp_from stp_here span lower after_prefix contains
    after_device
a_loop = refl

a_link : kmsg_kind (codes "mvpp2 eth6: Link is Down") ≡ codes "other"
unfolding kmsg_kind link_state find_stp_state stp_from stp_here span lower after_prefix contains
    after_device
a_link = refl

a_phy : kmsg_kind (codes "eth5: phy link up 1000") ≡ codes "link-up"
unfolding kmsg_kind link_state find_stp_state stp_from stp_here span lower after_prefix contains
    after_device
a_phy = refl

link_is : kmsg_kind (codes "eth5: Link is DOWN") ≡ codes "link-down"
unfolding kmsg_kind link_state find_stp_state stp_from stp_here span lower after_prefix contains
    after_device
link_is = refl

a_state : kmsg_kind (codes "bridge: port 3(eth2) entered learning state") ≡ codes "stp-learning"
unfolding kmsg_kind link_state find_stp_state stp_from stp_here span lower after_prefix contains
    after_device
a_state = refl

a_device : find_device (codes "on beth3 eth12 x") ≡ some (codes "eth12")
unfolding find_device find_device_from device_here after_device span after_prefix
a_device = refl

an_index : port_index (codes "switch12") ≡ some 12
unfolding port_index after_device span after_prefix atoi
an_index = refl

no_index : port_index (codes "eth1x") ≡ none
unfolding port_index after_device span after_prefix atoi
no_index = refl

a_name : format_port (codes "RB5009") (codes "eth8") ≡ codes "eth8 (sfp-sfpplus1)"
unfolding format_port routeros_name port_names bytes_eq lookup
a_name = refl
