-- ===== src/Net/Ipv4.antt =====
-- src/net/ipv4.cpp: the IPv4 layer. An address is a `uint32_t` in network order, so its first octet
-- is its low byte. `ipv4_send` takes the answer of `arp_resolve` as an argument.
pub mod Checksum
pub mod Delivery
use uni_os.Prelude.{
  ℕ, zero, suc, ◌+◌, ◌-◌, ◌*◌, ◌/◌, ◌%◌, ◌^◌, ◌<◌, bit_and, Bool, true, false, not, ◌&&◌, ◌||◌,
  Option, none, some, List, [], ◌∷◌, ◌++◌, ltb, ◌==◌, if◌then◌else◌, length, take, drop, set,
}
use uni_os.Net.Bytes.{htons, ntohs, byte_at, u16_at, u32_at, byte0, byte1, byte2, byte3}
use uni_os.Net.Ethernet.{Mac, u16_then, eth_type_ipv4, ethernet_send}

-- `NetConfig` of include/kernel/net/net.h.
pub record NetConfig : Type 0 where
  pub ip : ℕ
  pub netmask : ℕ
  pub gateway : ℕ
  pub dns : ℕ
  pub configured : Bool

abbrev pub ip_proto_icmp : ℕ
ip_proto_icmp = 1

abbrev pub ip_proto_tcp : ℕ
ip_proto_tcp = 6

abbrev pub ip_proto_udp : ℕ
ip_proto_udp = 17

abbrev pub ipv4_header_size : ℕ
ipv4_header_size = 20

abbrev pub ipv4_default_ttl : ℕ
ipv4_default_ttl = 64

abbrev pub broadcast_ip : ℕ
broadcast_ip = 0xFFFFFFFF

-- The two loops that sum the words, in a `uint32_t`; an odd last byte is a word of its own.
unfoldable pub sum_words : ℕ → List ℕ → ℕ
sum_words sum [] = sum
sum_words sum (a ∷ []) = (sum + a) % 2 ^ 32
sum_words sum (a ∷ b ∷ rest) = sum_words ((sum + (a + b * 256)) % 2 ^ 32) rest

-- `while (sum >> 16)`, on fuel: two rounds are enough for any `uint32_t`.
unfoldable pub fold_sum : ℕ → ℕ → ℕ
fold_sum zero sum = sum
fold_sum (suc fuel) sum =
    let folded = fold_sum fuel (sum % 2 ^ 16 + sum / 2 ^ 16) in
    if sum / 2 ^ 16 == 0 then sum else folded

abbrev pub fold_fuel : ℕ
fold_fuel = 3

-- `data` is as long as `length` says.
unfoldable pub ipv4_checksum : List ℕ → ℕ
ipv4_checksum bytes = (2 ^ 32 - 1 - fold_sum fold_fuel (sum_words 0 bytes)) % 2 ^ 16

-- The four bytes share no bit, so `|` adds them.
unfoldable pub ip_make : ℕ → ℕ → ℕ → ℕ → ℕ
ip_make a b c d = a + b * 256 + c * 2 ^ 16 + d * 2 ^ 24

abbrev pub u32_then : ℕ → List ℕ → List ℕ
u32_then v rest = byte0 v ∷ byte1 v ∷ byte2 v ∷ byte3 v ∷ rest

-- The header that `ipv4_send` fills in, with the bytes that follow it.
abbrev pub header_then :
    (total_length identification protocol checksum src_ip dst_ip : ℕ) → List ℕ → List ℕ
header_then total_length identification protocol checksum src_ip dst_ip rest =
    0x45
    ∷ 0
    ∷ u16_then (htons total_length) (
        u16_then (htons identification) (
          u16_then 0 (
            ipv4_default_ttl
            ∷ protocol
            ∷ u16_then checksum (u32_then src_ip (u32_then dst_ip rest)))))

-- The packet in `tx_buffer`: the checksum is taken over the header with a checksum of 0.
unfoldable pub ipv4_packet : (our_ip dst_ip identification protocol : ℕ) → List ℕ → List ℕ
ipv4_packet our_ip dst_ip identification protocol payload =
    let total = ipv4_header_size + length payload in
    let checksum = ipv4_checksum (header_then total identification protocol 0 our_ip dst_ip []) in
    header_then total identification protocol checksum our_ip dst_ip payload

-- The address whose hardware address the packet goes to.
unfoldable pub resolve_ip : NetConfig → ℕ → ℕ
resolve_ip net dst_ip =
    if dst_ip == broadcast_ip
    then dst_ip
    else if bit_and dst_ip net.netmask == bit_and net.ip net.netmask
    then dst_ip
    else if not (net.gateway == 0)
    then net.gateway
    else dst_ip

-- `arp_resolve` is the answer for each address. The result is the frame that is sent, if one is,
-- and `ip_id_counter`.
unfoldable pub ipv4_send :
    NetConfig
    → Mac
    → (arp_resolve : ℕ → Option Mac) → (ip_id_counter dst_ip protocol : ℕ) → List ℕ
    → Option (List ℕ) × ℕ
ipv4_send net our_mac arp_resolve ip_id_counter dst_ip protocol payload =
    if dst_ip == 0
    then (none, ip_id_counter)
    else if ltb 1480 (length payload)
    then (none, ip_id_counter)
    else elim (arp_resolve (resolve_ip net dst_ip)) [
      | none ↦ (none, ip_id_counter)
      | some dst_mac ↦
          let packet = ipv4_packet net.ip dst_ip ip_id_counter protocol payload in
          (ethernet_send our_mac dst_mac eth_type_ipv4 packet, (ip_id_counter + 1) % 2 ^ 16)
    ]

-- What `ipv4_receive` calls, with the payload and the addresses.
pub data Upcall : Type 0 where
  to_icmp : List ℕ → ℕ → Upcall
  to_udp : List ℕ → ℕ → ℕ → Upcall
  to_tcp : List ℕ → ℕ → ℕ → Upcall
  dropped : Upcall

abbrev pub header_length : List ℕ → ℕ
header_length bytes = byte_at bytes 0 % 16 * 4

-- A checksum of 0 is not looked at.
unfoldable pub checksum_passes : List ℕ → Bool
checksum_passes bytes =
    u16_at bytes 10 == 0
    || ipv4_checksum (set (set (take (header_length bytes) bytes) 10 0) 11 0) == u16_at bytes 10

-- The test of the destination: our address, the broadcast address, or a top byte of 255.
unfoldable pub is_for_us : ℕ → ℕ → Bool
is_for_us our_ip dst_ip =
    dst_ip == our_ip || (dst_ip == broadcast_ip || dst_ip / 2 ^ 24 % 256 == 255)

unfoldable pub dispatch : ℕ → List ℕ → ℕ → ℕ → Upcall
dispatch protocol payload src_ip dst_ip =
    if protocol == ip_proto_icmp
    then to_icmp payload src_ip
    else if protocol == ip_proto_udp
    then to_udp payload src_ip dst_ip
    else if protocol == ip_proto_tcp
    then to_tcp payload src_ip dst_ip
    else dropped

unfoldable pub ipv4_receive : ℕ → List ℕ → Upcall
ipv4_receive our_ip bytes =
    if ltb (length bytes) ipv4_header_size
    then dropped
    else if not (byte_at bytes 0 / 16 % 16 == 4)
    then dropped
    else let ihl = header_length bytes in
      if ltb ihl 20 || ltb (length bytes) ihl
      then dropped
      else if not (checksum_passes bytes)
      then dropped
      else if not (is_for_us our_ip (u32_at bytes 16))
      then dropped
      else let total_length = ntohs (u16_at bytes 2) in
        if ltb total_length ihl || ltb (length bytes) total_length
        then dropped
        else dispatch (byte_at bytes 9) (take (total_length - ihl) (drop ihl bytes))
            (u32_at bytes 12) (u32_at bytes 16)
