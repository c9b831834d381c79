-- ===== src/Net/Icmp/Echo.antt =====
-- src/net/icmp.cpp: what a reply carries, and a ping from the request to the callback.
use uni_os.Prelude.{ℕ, ◌%◌, ◌^◌, ◌<◌, ◌≤◌, ◌≡◌, ◌≢◌, true, List, arith, length, All}
use uni_os.Net.Bytes.{htons, join16, htons-lt, ntohs-htons}
use uni_os.Net.Ipv4.Checksum.{word_sum, ipv4_checksum_lem, ipv4_checksum-lt, IsByte}
use uni_os.Net.Icmp.{
  Icmp, reply, callback, icmp_header_then, icmp_packet, icmp_receive, icmp_send_echo_request, rtt,
  counting,
}

-- A packet of a type, an identifier, a sequence number and a payload of bytes that is built has a
-- checksum with which the words of the packet sum to 0 in ones' complement arithmetic.
pub icmp_packet_checksum :
    (type identifier sequence : ℕ) (payload : List ℕ)
    → type < 256
    → All IsByte payload
    → length payload ≤ 1472
    → word_sum (icmp_packet type identifier sequence payload) % 65535 ≡ 0
unfolding icmp_packet word_sum
icmp_packet_checksum type identifier sequence payload t b le =
    let summed = icmp_header_then type 0 identifier sequence payload in
    let bytes : All IsByte summed = ground arith in
    ground (arith, ipv4_checksum_lem summed bytes (omega arith), ipv4_checksum-lt summed)

-- A ping comes back: the packet that icmp_send_echo_request builds for an address other than 0 is
-- answered by any machine, whatever its state, and the answer calls the callback of the machine that
-- asked with the sequence number of the request and the time since it was sent.
pub ping :
    (s other : Icmp) (sent now frequency there dst_ip src_ip id seq : ℕ)
    → dst_ip ≢ 0
    → id < 2 ^ 16
    → seq < 2 ^ 16
    → s.has_callback ≡ true
    → let (request, s') = icmp_send_echo_request s sent dst_ip id seq in
      let answer = icmp_packet 0 (htons id) (htons seq) (counting 56 0) in
      (icmp_receive other there frequency request src_ip ≡ reply answer)
      × (icmp_receive s' now frequency answer dst_ip ≡ callback dst_ip seq (rtt now sent frequency))
unfolding icmp_send_echo_request icmp_receive icmp_packet
ping s other sent now frequency there dst_ip src_ip id seq nz hi hs cb = ground (
  arith,
  nz,
  cb,
  join16 (htons id) (htons-lt id),
  join16 (htons seq) (htons-lt seq),
  ntohs-htons id hi,
  ntohs-htons seq hs,
)
