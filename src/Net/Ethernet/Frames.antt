-- ===== src/Net/Ethernet/Frames.antt =====
-- src/net/ethernet.cpp: what becomes of a frame that is sent.
use uni_os.Prelude.{
  ℕ, ◌-◌, ◌^◌, ◌<◌, ◌≡◌, true, some, ◌||◌, ◌==◌, List, ◌++◌, arith, length, replicate,
  if◌then◌else◌,
}
use uni_os.Net.Bytes.{htons, join16, htons-lt, ntohs-htons}
use uni_os.Net.Ethernet.{
  Mac, Upcall, to_ipv4, to_arp, dropped, eth_mac_equals, eth_mac_is_broadcast, eth_min_payload_len,
  eth_type_ipv4, eth_type_arp, ethernet_frame, ethernet_send, ethernet_receive,
}

pub eth_mac_equals_self : (a : Mac) → eth_mac_equals a a ≡ true
unfolding eth_mac_equals
eth_mac_equals_self a = ground arith

abbrev pub padded : List ℕ → List ℕ
padded payload = payload ++ replicate (eth_min_payload_len - length payload) 0

-- The layer that an EtherType names.
abbrev pub upcall : ℕ → List ℕ → Mac → Upcall
upcall ethertype payload src =
    if ethertype == eth_type_arp
    then to_arp payload src
    else if ethertype == eth_type_ipv4
    then to_ipv4 payload
    else dropped

-- A station takes a sent frame exactly if it is addressed to it or to all, and hands the payload,
-- with zeros behind it up to 46 bytes, to the layer that the EtherType names.
pub ethernet_receive-send :
    (our_mac dst_mac station : Mac) (ethertype : ℕ) (payload : List ℕ) {frame : List ℕ}
    → ethertype < 2 ^ 16
    → ethernet_send our_mac dst_mac ethertype payload ≡ some frame
    → ethernet_receive station frame ≡ (
        if eth_mac_equals dst_mac station || eth_mac_is_broadcast dst_mac
        then upcall ethertype (padded payload) our_mac
        else dropped)
unfolding ethernet_send ethernet_receive ethernet_frame
ethernet_receive-send our_mac dst_mac station ethertype payload lt h =
    ground (arith, join16 (htons ethertype) (htons-lt ethertype), ntohs-htons ethertype lt)
