-- ===== src/Net/Ethernet.antt =====
-- src/net/ethernet.cpp: Ethernet II frames. The card and its driver are outside the model, so
-- `ethernet_send` gives the frame that it hands to `net_send_raw`.
pub mod Frames
use uni_os.Prelude.{
  ℕ, ◌+◌, ◌-◌, ◌<◌, Bool, true, false, not, ◌&&◌, ◌||◌, Option, none, some, List, [], ◌∷◌, ◌++◌,
  ltb, ◌==◌, if◌then◌else◌, length, drop, replicate,
}
use uni_os.Net.Bytes.{htons, ntohs, byte_at, u16_at, byte0, byte1}

-- The six bytes of a hardware address.
pub record Mac : Type 0 where
  pub m0 : ℕ
  pub m1 : ℕ
  pub m2 : ℕ
  pub m3 : ℕ
  pub m4 : ℕ
  pub m5 : ℕ

abbrev pub eth_hlen : ℕ
eth_hlen = 14

abbrev pub eth_data_len : ℕ
eth_data_len = 1500

abbrev pub eth_min_payload_len : ℕ
eth_min_payload_len = 46

abbrev pub eth_type_ipv4 : ℕ
eth_type_ipv4 = 0x0800

abbrev pub eth_type_arp : ℕ
eth_type_arp = 0x0806

abbrev pub eth_broadcast_mac : Mac
eth_broadcast_mac = record { m0 = 255; m1 = 255; m2 = 255; m3 = 255; m4 = 255; m5 = 255 }

-- The loops over the six bytes are written out.
unfoldable pub eth_mac_equals : Mac → Mac → Bool
eth_mac_equals a b =
    a.m0 == b.m0
    && (a.m1 == b.m1 && (a.m2 == b.m2 && (a.m3 == b.m3 && (a.m4 == b.m4 && a.m5 == b.m5))))

unfoldable pub eth_mac_is_broadcast : Mac → Bool
eth_mac_is_broadcast mac = eth_mac_equals mac eth_broadcast_mac

unfoldable pub eth_mac_is_zero : Mac → Bool
eth_mac_is_zero a =
    a.m0 == 0 && (a.m1 == 0 && (a.m2 == 0 && (a.m3 == 0 && (a.m4 == 0 && a.m5 == 0))))

-- The address at an offset of a packet.
abbrev pub mac_at : List ℕ → ℕ → Mac
mac_at d i = record {
  m0 = byte_at d i;
  m1 = byte_at d (i + 1);
  m2 = byte_at d (i + 2);
  m3 = byte_at d (i + 3);
  m4 = byte_at d (i + 4);
  m5 = byte_at d (i + 5);
}

abbrev pub mac_then : Mac → List ℕ → List ℕ
mac_then a rest = a.m0 ∷ a.m1 ∷ a.m2 ∷ a.m3 ∷ a.m4 ∷ a.m5 ∷ rest

abbrev pub u16_then : ℕ → List ℕ → List ℕ
u16_then v rest = byte0 v ∷ byte1 v ∷ rest

-- The frame in `tx_buffer`: header, payload and the padding of a short one.
unfoldable pub ethernet_frame : Mac → Mac → ℕ → List ℕ → List ℕ
ethernet_frame our_mac dst_mac ethertype payload = mac_then dst_mac (
    mac_then our_mac
      (u16_then (htons ethertype) (payload ++ replicate (eth_min_payload_len - length payload) 0)))

unfoldable pub ethernet_send : Mac → Mac → ℕ → List ℕ → Option (List ℕ)
ethernet_send our_mac dst_mac ethertype payload =
    if eth_mac_is_zero dst_mac
    then none
    else if ltb eth_data_len (length payload)
    then none
    else some (ethernet_frame our_mac dst_mac ethertype payload)

-- What `ethernet_receive` calls.
pub data Upcall : Type 0 where
  to_arp : List ℕ → Mac → Upcall
  to_ipv4 : List ℕ → Upcall
  dropped : Upcall

unfoldable pub ethernet_receive : Mac → List ℕ → Upcall
ethernet_receive our_mac frame =
    if ltb (length frame) eth_hlen
    then dropped
    else if not (eth_mac_equals (mac_at frame 0) our_mac)
        && not (eth_mac_is_broadcast (mac_at frame 0))
    then dropped
    else if ntohs (u16_at frame 12) == eth_type_arp
    then to_arp (drop eth_hlen frame) (mac_at frame 6)
    else if ntohs (u16_at frame 12) == eth_type_ipv4
    then to_ipv4 (drop eth_hlen frame)
    else dropped
