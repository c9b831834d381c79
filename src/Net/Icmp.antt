-- ===== src/Net/Icmp.antt =====
-- src/net/icmp.cpp: echo requests and replies. The ticks of the timer and their frequency are
-- arguments, and what `ipv4_send` is given is the answer.
pub mod Echo
use uni_os.Prelude.{
  ℕ, zero, suc, ◌+◌, ◌-◌, ◌*◌, ◌/◌, ◌%◌, ◌^◌, ◌<◌, Bool, true, false, ◌&&◌, List, [], ◌∷◌, ltb,
  ◌==◌, if◌then◌else◌, length, take, drop,
}
use uni_os.Net.Bytes.{htons, ntohs, byte_at, u16_at}
use uni_os.Net.Ethernet.{u16_then}
use uni_os.Net.Ipv4.{ipv4_checksum}

abbrev pub icmp_type_echo_reply : ℕ
icmp_type_echo_reply = 0

abbrev pub icmp_type_echo_request : ℕ
icmp_type_echo_request = 8

abbrev pub icmp_header_size : ℕ
icmp_header_size = 8

-- The most that a reply carries, the IPv4 payload budget less the header.
abbrev pub reply_budget : ℕ
reply_budget = 1472

pub record Icmp : Type 0 where
  pub ping_id : ℕ
  pub ping_seq : ℕ
  pub ping_sent_time : ℕ
  pub has_callback : Bool

unfoldable pub icmp_init : Icmp → Icmp
icmp_init s = record s { ping_id = 1234; ping_seq = 0; has_callback = false }

-- `IcmpHeader` with code 0, its fields as they are stored.
abbrev pub icmp_header_then : (type checksum identifier sequence : ℕ) → List ℕ → List ℕ
icmp_header_then type checksum identifier sequence payload =
    type ∷ 0 ∷ u16_then checksum (u16_then identifier (u16_then sequence payload))

unfoldable pub icmp_packet : (type identifier sequence : ℕ) → List ℕ → List ℕ
icmp_packet type identifier sequence payload =
    icmp_header_then type (ipv4_checksum (icmp_header_then type 0 identifier sequence payload))
      identifier sequence payload

-- What a packet leads to: a reply that is sent, a call of the callback, or neither.
pub data Answer : Type 0 where
  reply : List ℕ → Answer
  callback : (src_ip seq rtt_ms : ℕ) → Answer
  nothing : Answer

abbrev pub rtt : (now sent frequency : ℕ) → ℕ
rtt now sent frequency = (now + 2 ^ 64 - sent) % 2 ^ 64 * 1000 % 2 ^ 64 / frequency % 2 ^ 16

unfoldable pub icmp_receive : Icmp → (now frequency : ℕ) → List ℕ → (src_ip : ℕ) → Answer
icmp_receive s now frequency d src_ip =
    if ltb (length d) icmp_header_size
    then nothing
    else if byte_at d 0 == icmp_type_echo_request
    then reply (
        icmp_packet icmp_type_echo_reply (u16_at d 4) (u16_at d 6)
          (take reply_budget (drop icmp_header_size d)))
    else if byte_at d 0 == icmp_type_echo_reply
        && (ntohs (u16_at d 4) == s.ping_id && s.has_callback)
    then callback src_ip (ntohs (u16_at d 6)) (rtt now s.ping_sent_time frequency)
    else nothing

-- The bytes from `i` on that a request carries.
abbrev pub counting : (n i : ℕ) → List ℕ
counting zero i = []
counting (suc n) i = i ∷ counting n (i + 1)

-- The packet for `ipv4_send`, empty where none is sent, and the new state.
unfoldable pub icmp_send_echo_request : Icmp → (now dst_ip id seq : ℕ) → List ℕ × Icmp
icmp_send_echo_request s now dst_ip id seq = if dst_ip == 0 then ([], s) else (
  icmp_packet icmp_type_echo_request (htons id) (htons seq) (counting 56 0),
  record s { ping_id = id; ping_seq = seq; ping_sent_time = now },
)
