-- ===== src/Net/Udp/Packet.antt =====
-- src/net/udp.cpp: the datagram that `udp_send` builds, and what it sends.
use uni_os.Prelude.{ℕ, ◌+◌, ◌%◌, ◌≤◌, ◌≡◌, ◌≢◌, List, arith, length, All}
use uni_os.Net.Bytes.{u16_at}
use uni_os.Net.Ipv4.Checksum.{word_sum, ipv4_checksum_lem, ipv4_checksum-lt, IsByte}
use uni_os.Net.Udp.{udp_packet, udp_checksum, pseudo_then, udp_header_then, udp_header_size}

-- Every datagram that is built carries a checksum that is not 0, so that it is not taken for one
-- without, and a receiver that sums the pseudo header and the datagram gets 0 in ones' complement
-- arithmetic.
pub udp_packet_checksum :
    (src dst src_port dst_port : ℕ) (payload : List ℕ)
    → All IsByte payload
    → length payload ≤ 1472
    → let packet = udp_packet src dst src_port dst_port payload in
      (u16_at packet 6 ≢ 0) × (word_sum (pseudo_then src dst (length packet) packet) % 65535 ≡ 0)
unfolding udp_packet udp_checksum word_sum
udp_packet_checksum src dst src_port dst_port payload b le =
    let size = udp_header_size + length payload in
    let summed = pseudo_then src dst size (udp_header_then src_port dst_port size 0 payload) in
    let bytes : All IsByte summed = ground arith in
    ground (arith, ipv4_checksum_lem summed bytes (omega arith), ipv4_checksum-lt summed)
