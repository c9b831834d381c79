-- ===== src/Net/Arp/Exchange.antt =====
-- src/net/arp.cpp: a request and its reply, between two machines.
use uni_os.Prelude.{
  ℕ, ◌-◌, ◌^◌, ◌<◌, ◌≡◌, ◌≢◌, refl, ap, true, false, ◌&&◌, ◌||◌, arith, Option, none, some, List,
  ◌==◌, if◌then◌else◌, length, replicate,
}
use uni_os.Net.Ethernet.{
  Mac, Upcall, to_arp, to_ipv4, dropped, ethernet_receive, ethernet_send, eth_broadcast_mac,
  eth_type_arp, eth_mac_is_zero, eth_mac_equals, eth_mac_is_broadcast, ethernet_frame,
  eth_min_payload_len,
}
use uni_os.Net.Ethernet.Frames.{ethernet_receive-send, eth_mac_equals_self}
use uni_os.Net.Ipv4.{broadcast_ip}
use uni_os.Net.Arp.{
  Arp, arp_packet, arp_receive, arp_send_request, arp_send_reply, arp_mac_is_unusable, all_bytes,
  learn, zero_mac, arp_op_request, arp_op_reply, arp_lookup, ask,
}
use uni_os.Net.Arp.Cache.{IsUsable, arp_lookup-arp_add_entry}
use uni_os.Net.Arp.Packets.{arp_receive-arp_packet}

-- A frame at a machine: what `ethernet_receive` makes of it, and its ARP layer of that.
abbrev upcall_arp : Mac → ℕ → Upcall → Arp → Option (List ℕ) × Arp
upcall_arp mac ip (to_arp d src) a = arp_receive mac ip d a
upcall_arp mac ip (to_ipv4 d) a = (none, a)
upcall_arp mac ip dropped a = (none, a)

abbrev pub receive_arp_frame : Mac → ℕ → List ℕ → Arp → Option (List ℕ) × Arp
receive_arp_frame mac ip frame a = upcall_arp mac ip (ethernet_receive mac frame) a

abbrev pub receive_any : Mac → ℕ → Option (List ℕ) → Arp → Option (List ℕ) × Arp
receive_any mac ip none a = (none, a)
receive_any mac ip (some frame) a = receive_arp_frame mac ip frame a

-- A packet that a frame brings to a machine it is for.
receive_sent :
    (src dst station : Mac) (ip operation : ℕ) (sender_mac : Mac) (sender_ip : ℕ) (target_mac : Mac)
    (target_ip : ℕ) (a : Arp)
    → operation < 2 ^ 16
    → sender_ip < 2 ^ 32
    → target_ip < 2 ^ 32
    → eth_mac_is_zero dst ≡ false
    → eth_mac_equals dst station || eth_mac_is_broadcast dst ≡ true
    → receive_any station ip
        (ethernet_send src dst eth_type_arp
          (arp_packet operation sender_mac sender_ip target_mac target_ip))
        a
      ≡ (
        if operation == arp_op_request && target_ip == ip
            then arp_send_reply station ip sender_ip sender_mac
            else none,
        learn sender_ip sender_mac a,
      )
receive_sent src dst station ip operation sender_mac sender_ip target_mac target_ip a ho hs ht nz
      hit =
    let packet = arp_packet operation sender_mac sender_ip target_mac target_ip in
    let sent : ethernet_send src dst eth_type_arp packet
        ≡ some (ethernet_frame src dst eth_type_arp packet) =
      unfold ethernet_send in ground (arith, nz) in
    let got = ethernet_receive-send src dst station eth_type_arp packet (omega arith) sent in
    rw (sent, got, hit)
      (arp_receive-arp_packet station ip operation sender_mac sender_ip target_mac target_ip
        (replicate (eth_min_payload_len - length packet) 0) a ho hs ht)

broadcast_reaches :
    (station : Mac)
    → eth_mac_equals eth_broadcast_mac station || eth_mac_is_broadcast eth_broadcast_mac ≡ true
unfolding eth_mac_is_broadcast
broadcast_reaches station = ground (arith, eth_mac_equals_self eth_broadcast_mac)

receive_request :
    (our_mac : Mac) (our_ip target_ip : ℕ) (station : Mac) (station_ip : ℕ) (a : Arp)
    → our_ip < 2 ^ 32
    → target_ip < 2 ^ 32
    → target_ip ≢ 0
    → target_ip ≢ broadcast_ip
    → receive_any station station_ip (arp_send_request our_mac our_ip target_ip) a ≡ (
      if target_ip == station_ip then arp_send_reply station station_ip our_ip our_mac else none,
      learn our_ip our_mac a,
    )
unfolding arp_send_request
receive_request our_mac our_ip target_ip station station_ip a ho ht z b =
    let go : (target_ip == 0 || target_ip == broadcast_ip) ≡ false = ground arith in
    let nz : eth_mac_is_zero eth_broadcast_mac ≡ false = unfold eth_mac_is_zero in refl in
    rw go (
      receive_sent our_mac eth_broadcast_mac station station_ip arp_op_request our_mac our_ip
        zero_mac target_ip a (omega arith) ho ht nz (broadcast_reaches station))

receive_reply :
    (our_mac : Mac) (our_ip : ℕ) (station : Mac) (station_ip : ℕ) (a : Arp)
    → our_ip < 2 ^ 32
    → station_ip < 2 ^ 32
    → our_ip ≢ 0
    → arp_mac_is_unusable our_mac ≡ false
    → (receive_any our_mac our_ip (arp_send_reply station station_ip our_ip our_mac) a).1
      ≡ learn station_ip station a
unfolding arp_send_reply
receive_reply our_mac our_ip station station_ip a ho hs z u =
    let go : (our_ip == 0 || arp_mac_is_unusable our_mac) ≡ false = ground (arith, u) in
    let nz : eth_mac_is_zero our_mac ≡ false =
      unfold eth_mac_is_zero in unfold arp_mac_is_unusable all_bytes in ground (arith, u) in
    let reached =
      receive_sent station our_mac our_mac our_ip arp_op_reply station station_ip our_mac our_ip a
        (omega arith) hs ho nz (ground (arith, eth_mac_equals_self our_mac)) in
    rw go (ap (λ r. r.1) reached)

learn-lookup :
    (ip : ℕ) (mac : Mac) (a : Arp)
    → IsUsable ip mac
    → 0 < length a.table
    → arp_lookup ip (learn ip mac a).table ≡ some mac
unfolding learn
learn-lookup ip mac a u pos =
    let known = arp_lookup-arp_add_entry a.table ip mac ip u pos in ground (arith, known)

learn-resolved :
    (ip : ℕ) (mac : Mac) (a : Arp)
    → let a' = learn ip mac (ask ip a) in (a'.resolved ≡ true) × (a'.waiting_mac ≡ mac)
unfolding learn
learn-resolved ip mac a = (ground arith, ground arith)

-- Where a request and its reply lead: the asker waits no longer and has the hardware address of the
-- other in its cache, and the other has that of the asker.
abbrev pub IsExchanged : Mac → ℕ → Mac → ℕ → (asker other : Arp) → Type 0
IsExchanged mac ip other_mac other_ip asker other =
    (arp_lookup other_ip asker.table ≡ some other_mac)
    × (asker.resolved ≡ true)
    × (asker.waiting_mac ≡ other_mac)
    × (arp_lookup ip other.table ≡ some mac)

-- If a machine asks for the address of another, both with addresses and hardware addresses that may
-- be used and with caches that are not empty arrays, then the frame that it broadcasts is answered,
-- and the answer tells it the hardware address of the other, for which it waited; each has an entry
-- for the other in its cache then.
pub arp_exchange :
    (mac : Mac) (ip : ℕ) (other_mac : Mac) (other_ip : ℕ) (a b : Arp)
    → ip < 2 ^ 32
    → other_ip < 2 ^ 32
    → IsUsable ip mac
    → IsUsable other_ip other_mac
    → 0 < length a.table
    → 0 < length b.table
    → let (reply, b') = receive_any other_mac other_ip (arp_send_request mac ip other_ip) b in
      IsExchanged mac ip other_mac other_ip (receive_any mac ip reply (ask other_ip a)).1 b'
arp_exchange mac ip other_mac other_ip a b hi ho u v pa pb =
    let asked = receive_request mac ip other_ip other_mac other_ip b hi ho v.0 v.1 in
    let same : (other_ip == other_ip) ≡ true = ground arith in
    let replied = receive_reply mac ip other_mac other_ip (ask other_ip a) hi ho u.0 u.2 in
    let (done, found) = learn-resolved other_ip other_mac a in
    rw (asked, same, replied)
      (
        learn-lookup other_ip other_mac (ask other_ip a) v pa,
        done,
        found,
        learn-lookup ip mac b u pb,
      )
