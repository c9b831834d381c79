-- ===== src/Net/Arp.antt =====
-- src/net/arp.cpp: the ARP cache and the resolution of addresses. Our own addresses are arguments.
-- `net_poll` enters as the ARP packets that it hands to `arp_receive`.
pub mod Cache
pub mod Table
pub mod Packets
pub mod Exchange
use uni_os.Prelude.{
  ℕ, zero, suc, ◌+◌, ◌-◌, ◌*◌, ◌/◌, ◌%◌, ◌^◌, ◌<◌, Bool, true, false, not, ◌&&◌, ◌||◌, Option, none,
  some, List, [], ◌∷◌, ◌++◌, map, ltb, ◌==◌, if◌then◌else◌, length, replicate,
}
use uni_os.Net.Bytes.{htons, ntohs, byte_at, u16_at, u32_at}
use uni_os.Net.Ethernet.{
  Mac, eth_broadcast_mac, eth_type_arp, eth_type_ipv4, ethernet_send, mac_at, mac_then, u16_then,
}
use uni_os.Net.Ipv4.{broadcast_ip, u32_then}

abbrev pub arp_hw_ethernet : ℕ
arp_hw_ethernet = 1

abbrev pub arp_op_request : ℕ
arp_op_request = 1

abbrev pub arp_op_reply : ℕ
arp_op_reply = 2

abbrev pub arp_table_size : ℕ
arp_table_size = 32

abbrev pub arp_packet_size : ℕ
arp_packet_size = 28

abbrev pub zero_mac : Mac
zero_mac = record { m0 = 0; m1 = 0; m2 = 0; m3 = 0; m4 = 0; m5 = 0 }

-- The timestamp is never read or written.
pub record ArpEntry : Type 0 where
  pub ip : ℕ
  pub mac : Mac
  pub valid : Bool

pub record Arp : Type 0 where
  pub table : List ArpEntry
  pub waiting : Bool
  pub waiting_ip : ℕ
  pub waiting_mac : Mac
  pub resolved : Bool

-- The loop over the six bytes is written out.
unfoldable pub all_bytes : ℕ → Mac → Bool
all_bytes b a = a.m0 == b && (a.m1 == b && (a.m2 == b && (a.m3 == b && (a.m4 == b && a.m5 == b))))

unfoldable pub arp_mac_is_unusable : Mac → Bool
arp_mac_is_unusable mac = all_bytes 0 mac || all_bytes 0xFF mac

unfoldable pub arp_init : List ArpEntry → List ArpEntry
arp_init table = map (λ (e : ArpEntry). record e { valid = false }) table

-- A loop that changes the first entry with a property and returns, if there is one.
abbrev pub behind : ArpEntry → Option (List ArpEntry) → Option (List ArpEntry)
behind e none = none
behind e (some es) = some (e ∷ es)

unfoldable pub update_first :
    (ArpEntry → Bool) → (ArpEntry → ArpEntry) → List ArpEntry → Option (List ArpEntry)
update_first test f [] = none
update_first test f (e ∷ es) = if test e then some (f e ∷ es) else behind e (update_first test f es)

abbrev pub holds : ℕ → ArpEntry → Bool
holds ip e = e.valid && e.ip == ip

abbrev pub entry : ℕ → Mac → ArpEntry
entry ip mac = record { ip = ip; mac = mac; valid = true }

abbrev pub overwrite_first : ArpEntry → List ArpEntry → List ArpEntry
overwrite_first e [] = []
overwrite_first e (old ∷ es) = e ∷ es

abbrev pub or_else : Option (List ArpEntry) → List ArpEntry → List ArpEntry
or_else none table = table
or_else (some table') table = table'

unfoldable pub arp_add_entry : ℕ → Mac → List ArpEntry → List ArpEntry
arp_add_entry ip mac table =
    if ip == 0 || (ip == broadcast_ip || arp_mac_is_unusable mac)
    then table
    else or_else (update_first (holds ip) (λ e. record e { mac = mac }) table) (
        or_else (update_first (λ e. not e.valid) (λ e. entry ip mac) table)
          (overwrite_first (entry ip mac) table))

unfoldable pub find_mac : ℕ → List ArpEntry → Option Mac
find_mac ip [] = none
find_mac ip (e ∷ es) = if holds ip e then some e.mac else find_mac ip es

unfoldable pub arp_lookup : ℕ → List ArpEntry → Option Mac
arp_lookup ip table = if ip == 0 then none else find_mac ip table

-- `ArpPacket`, field after field.
abbrev pub arp_packet : (operation : ℕ) → Mac → ℕ → Mac → ℕ → List ℕ
arp_packet operation sender_mac sender_ip target_mac target_ip = u16_then (htons arp_hw_ethernet) (
    u16_then (htons eth_type_ipv4) (
      6
      ∷ 4
      ∷ u16_then (htons operation)
          (mac_then sender_mac (u32_then sender_ip (mac_then target_mac (u32_then target_ip []))))))

-- The frame that is sent, if any.
unfoldable pub arp_send_request : Mac → ℕ → (target_ip : ℕ) → Option (List ℕ)
arp_send_request our_mac our_ip target_ip =
    if target_ip == 0 || target_ip == broadcast_ip
    then none
    else ethernet_send our_mac eth_broadcast_mac eth_type_arp
        (arp_packet arp_op_request our_mac our_ip zero_mac target_ip)

unfoldable pub arp_send_reply : Mac → ℕ → (target_ip : ℕ) → (target_mac : Mac) → Option (List ℕ)
arp_send_reply our_mac our_ip target_ip target_mac =
    if target_ip == 0 || arp_mac_is_unusable target_mac
    then none
    else ethernet_send our_mac target_mac eth_type_arp
        (arp_packet arp_op_reply our_mac our_ip target_mac target_ip)

-- What a valid packet changes.
unfoldable pub learn : (sender_ip : ℕ) → (sender_mac : Mac) → Arp → Arp
learn sender_ip sender_mac a =
    let a' = record a { table = arp_add_entry sender_ip sender_mac a.table } in
    if a.waiting && sender_ip == a.waiting_ip
    then record a' { waiting_mac = sender_mac; resolved = true }
    else a'

abbrev pub header_passes : List ℕ → Bool
header_passes d =
    ntohs (u16_at d 0) == arp_hw_ethernet
    && (ntohs (u16_at d 2) == eth_type_ipv4 && (byte_at d 4 == 6 && byte_at d 5 == 4))

-- The reply that is sent, if any, and the new state.
unfoldable pub arp_receive : Mac → ℕ → List ℕ → Arp → Option (List ℕ) × Arp
arp_receive our_mac our_ip d a =
    if ltb (length d) arp_packet_size
    then (none, a)
    else if not (header_passes d)
    then (none, a)
    else if ntohs (u16_at d 6) == arp_op_request && u32_at d 24 == our_ip
    then (
      arp_send_reply our_mac our_ip (u32_at d 14) (mac_at d 8),
      learn (u32_at d 14) (mac_at d 8) a,
    )
    else (none, learn (u32_at d 14) (mac_at d 8) a)

-- One `net_poll`.
unfoldable pub poll : Mac → ℕ → List (List ℕ) → Arp → Arp
poll our_mac our_ip [] a = a
poll our_mac our_ip (d ∷ ds) a = poll our_mac our_ip ds (arp_receive our_mac our_ip d a).1

-- The waiting loop: the rounds are those that come before the timeout.
unfoldable pub wait : Mac → ℕ → List (List (List ℕ)) → Arp → Arp
wait our_mac our_ip [] a = a
wait our_mac our_ip (round ∷ rounds) a =
    let rest = wait our_mac our_ip rounds (poll our_mac our_ip round a) in
    if a.resolved then a else rest

abbrev pub ask : ℕ → Arp → Arp
ask ip a = record a { waiting = true; waiting_ip = ip; resolved = false }

unfoldable pub arp_resolve : Mac → ℕ → ℕ → List (List (List ℕ)) → Arp → Option Mac × Arp
arp_resolve our_mac our_ip ip rounds a =
    if ip == 0
    then (none, a)
    else if ip == broadcast_ip
    then (some eth_broadcast_mac, a)
    else elim (arp_lookup ip a.table) [
      | some mac ↦ (some mac, a)
      | none ↦
          let a' = record (wait our_mac our_ip rounds (ask ip a)) { waiting = false } in
          (if a'.resolved then some a'.waiting_mac else none, a')
    ]
