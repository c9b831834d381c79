-- ===== src/Net/Arp/Packets.antt =====
-- src/net/arp.cpp: what a packet does that is received.
use uni_os.Prelude.{
  ℕ, ◌^◌, ◌<◌, ◌≡◌, Bool, true, false, ◌&&◌, arith, none, List, [], ◌∷◌, ◌++◌, ◌==◌, if◌then◌else◌,
  Bool-cases, Option-cases, inl, inr,
}
use uni_os.Net.Bytes.{htons, u32_at, join16, join32, ntohs-htons, htons-lt}
use uni_os.Net.Ethernet.{Mac, mac_at}
use uni_os.Net.Ipv4.{broadcast_ip}
use uni_os.Net.Arp.{
  Arp, arp_packet, arp_receive, arp_send_reply, learn, arp_op_request, poll, wait, arp_resolve, ask,
  arp_lookup,
}
use uni_os.Net.Arp.Table.{IsTable, arp_add_entry-IsTable}

-- A packet that is received, with any padding behind it, is learned from, whatever its operation;
-- a request for our address is answered.
pub arp_receive-arp_packet :
    (our_mac : Mac) (our_ip operation : ℕ) (sender_mac : Mac) (sender_ip : ℕ) (target_mac : Mac)
    (target_ip : ℕ) (padding : List ℕ) (a : Arp)
    → operation < 2 ^ 16
    → sender_ip < 2 ^ 32
    → target_ip < 2 ^ 32
    → arp_receive our_mac our_ip
        (arp_packet operation sender_mac sender_ip target_mac target_ip ++ padding)
        a
      ≡ (
        if operation == arp_op_request && target_ip == our_ip
            then arp_send_reply our_mac our_ip sender_ip sender_mac
            else none,
        learn sender_ip sender_mac a,
      )
unfolding arp_receive
arp_receive-arp_packet our_mac our_ip operation sender_mac sender_ip target_mac target_ip padding a
      ho hs ht =
    ground (
      arith,
      join16 (htons operation) (htons-lt operation),
      ntohs-htons operation ho,
      join32 sender_ip hs,
      join32 target_ip ht,
      join16 (htons 1) (htons-lt 1),
      join16 (htons 0x800) (htons-lt 0x800),
      ntohs-htons 1 (omega arith),
      ntohs-htons 0x800 (omega arith),
    )

learn-IsTable : (ip : ℕ) (mac : Mac) (a : Arp) → IsTable a.table → IsTable (learn ip mac a).table
unfolding learn
learn-IsTable ip mac a h = elim (Bool-cases (a.waiting && ip == a.waiting_ip)) [
  | inl asked ↦ rw asked (arp_add_entry-IsTable a.table ip mac h)
  | inr other ↦ rw other (arp_add_entry-IsTable a.table ip mac h)
]

arp_receive-IsTable :
    (our_mac : Mac) (our_ip : ℕ) (d : List ℕ) (a : Arp)
    → IsTable a.table
    → IsTable (arp_receive our_mac our_ip d a).1.table
unfolding arp_receive
arp_receive-IsTable our_mac our_ip d a h =
    ground (arith, h, learn-IsTable (u32_at d 14) (mac_at d 8) a h)

either :
    (t : Bool) (x y : Arp) → IsTable x.table → IsTable y.table → IsTable (if t then x else y).table
either true x y h k = h
either false x y h k = k

module _ (our_mac : Mac) (our_ip : ℕ) where
  poll-IsTable :
      (ds : List (List ℕ)) (a : Arp) → IsTable a.table → IsTable (poll our_mac our_ip ds a).table
  unfolding poll
  poll-IsTable [] a h = h
  poll-IsTable (d ∷ ds) a h = poll-IsTable ds _ (arp_receive-IsTable our_mac our_ip d a h)

  wait-IsTable :
      (rounds : List (List (List ℕ))) (a : Arp)
      → IsTable a.table
      → IsTable (wait our_mac our_ip rounds a).table
  unfolding wait
  wait-IsTable [] a h = h
  wait-IsTable (round ∷ rounds) a h =
      either a.resolved a _ h
        (wait-IsTable rounds (poll our_mac our_ip round a) (poll-IsTable round a h))

-- Whatever packets come in while an address is resolved, the cache keeps at most one entry in use
-- for an address, each for an address and a hardware address that may be used.
pub arp_resolve-IsTable :
    (our_mac : Mac) (our_ip ip : ℕ) (rounds : List (List (List ℕ))) (a : Arp)
    → IsTable a.table
    → IsTable (arp_resolve our_mac our_ip ip rounds a).1.table
unfolding arp_resolve
arp_resolve-IsTable our_mac our_ip ip rounds a h = elim (Bool-cases (ip == 0)) [
  | inl e ↦ rw e h
  | inr n ↦ elim (Bool-cases (ip == broadcast_ip)) [
    | inl e ↦ rw (n, e) h
    | inr m ↦ elim (Option-cases (arp_lookup ip a.table)) [
      | inl none_yet ↦ rw (n, m, none_yet) (wait-IsTable our_mac our_ip rounds (ask ip a) h)
      | inr (mac, known) ↦ rw (n, m, known) h
    ]
  ]
]
