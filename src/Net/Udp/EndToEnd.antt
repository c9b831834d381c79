-- ===== src/Net/Udp/EndToEnd.antt =====
-- src/net/udp.cpp over src/net/ipv4.cpp and src/net/ethernet.cpp: a datagram from one machine's
-- `udp_send` to another's `udp_recvfrom`.
use uni_os.Prelude.{
  ℕ, ◌+◌, ◌-◌, ◌^◌, ◌≤◌, ◌<◌, ◌≡◌, min, true, Option, some, List, arith, length, get_elem?, set,
  take, replicate, lt_of_get_elem?,
}
use uni_os.Prelude.Int.{pos}
use uni_os.Net.Ethernet.{Mac, to_ipv4, ethernet_send, ethernet_receive, eth_type_ipv4}
use uni_os.Net.Ethernet.Frames.{ethernet_receive-send, eth_mac_equals_self}
use uni_os.Net.Ipv4.{
  NetConfig, to_udp, ip_proto_udp, ipv4_packet, ipv4_receive, ipv4_send, resolve_ip, is_for_us,
  dispatch,
}
use uni_os.Net.Ipv4.Delivery.{ipv4_receive-packet}
use uni_os.Net.Udp.{
  UdpSocket, udp_packet, udp_send, udp_receive, udp_recvfrom, store, is_live, rx_buffer_size,
}
use uni_os.Net.Udp.Ports.{IsDistinct}
use uni_os.Net.Udp.Delivery.{udp_receive-packet, at_port-bound, recvfrom-store}

-- The sockets after a frame has come in: the path of `ethernet_receive` that ends in `udp_receive`.
-- The other layers do not touch them.
pub receive_frame : Mac → ℕ → List UdpSocket → List ℕ → List UdpSocket
receive_frame our_mac our_ip sockets frame = elim (ethernet_receive our_mac frame) [
  | to_ipv4 packet ↦ elim (ipv4_receive our_ip packet) [
    | to_udp datagram src_ip dst_ip ↦ (udp_receive sockets datagram src_ip).0
    | _ ↦ sockets
  ]
  | _ ↦ sockets
]

-- What a successful `ipv4_send` hands to the Ethernet layer.
ipv4_send-frame :
    (net : NetConfig) (our_mac : Mac) (arp_resolve : ℕ → Option Mac) (counter dst_ip protocol : ℕ)
    (payload : List ℕ) {frame : List ℕ} {dst_mac : Mac}
    → arp_resolve (resolve_ip net dst_ip) ≡ some dst_mac
    → (ipv4_send net our_mac arp_resolve counter dst_ip protocol payload).0 ≡ some frame
    → ethernet_send our_mac dst_mac eth_type_ipv4
        (ipv4_packet net.ip dst_ip counter protocol payload)
      ≡ some frame
unfolding ipv4_send
ipv4_send-frame net our_mac arp_resolve counter dst_ip protocol payload r h = ground arith

-- The frame of a UDP packet brings the packet to the owner of its destination.
frame-to_udp :
    (our_mac dst_mac : Mac) (src_ip dst_ip counter : ℕ) (datagram : List ℕ) {frame : List ℕ}
    → src_ip < 2 ^ 32
    → dst_ip < 2 ^ 32
    → length datagram ≤ 1480
    → ethernet_send our_mac dst_mac eth_type_ipv4
        (ipv4_packet src_ip dst_ip counter ip_proto_udp datagram)
      ≡ some frame
    → (sockets : List UdpSocket)
    → receive_frame dst_mac dst_ip sockets frame ≡ (udp_receive sockets datagram src_ip).0
unfolding receive_frame dispatch is_for_us
frame-to_udp our_mac dst_mac src_ip dst_ip counter datagram hs hd le h sockets =
    let packet = ipv4_packet src_ip dst_ip counter ip_proto_udp datagram in
    ground (
      arith,
      ethernet_receive-send our_mac dst_mac dst_mac eth_type_ipv4 packet (omega arith) h,
      eth_mac_equals_self dst_mac,
      ipv4_receive-packet dst_ip src_ip dst_ip counter ip_proto_udp datagram
          (replicate (46 - length packet) 0) hs hd le,
    )

udp_send-ipv4_send :
    (net : NetConfig) (our_mac : Mac) (arp_resolve : ℕ → Option Mac)
    (counter dst_ip src_port dst_port : ℕ) (payload : List ℕ) {frame : List ℕ}
    → (udp_send net our_mac arp_resolve counter dst_ip src_port dst_port payload).0 ≡ some frame
    → (length payload ≤ 1472)
      × ((ipv4_send net our_mac arp_resolve counter dst_ip ip_proto_udp
            (udp_packet net.ip dst_ip src_port dst_port payload)).0
          ≡ some frame)
unfolding udp_send
udp_send-ipv4_send net our_mac arp_resolve counter dst_ip src_port dst_port payload h = ground arith

length-udp_packet :
    (src dst src_port dst_port : ℕ) (payload : List ℕ)
    → length (udp_packet src dst src_port dst_port payload) ≡ 8 + length payload
unfolding udp_packet
length-udp_packet src dst src_port dst_port payload = omega arith

-- The datagram is stored in the socket.
udp_receive-bound :
    (src dst src_port dst_port : ℕ) (payload : List ℕ) (sockets : List UdpSocket) (i : ℕ)
    {s : UdpSocket}
    → src_port < 2 ^ 16
    → dst_port < 2 ^ 16
    → length payload ≤ 1472
    → IsDistinct sockets
    → get_elem? sockets i ≡ some s
    → is_live s dst_port ≡ true
    → (udp_receive sockets (udp_packet src dst src_port dst_port payload) src).0
      ≡ set sockets i (store payload src src_port s)
udp_receive-bound src dst src_port dst_port payload sockets i {s} hs hd le distinct e live =
    ground (
      arith,
      udp_receive-packet sockets src dst src_port dst_port payload hs hd le,
      at_port-bound dst_port (store payload src src_port) sockets i distinct e live,
    )

-- If `udp_send` sends a frame to the machine with address `dst_ip`, and a socket there is bound to
-- the destination port, then the owner of that socket reads the payload, as far as its buffer goes,
-- and the sender's address and port.
pub udp_end_to_end :
    (net : NetConfig) (our_mac dst_mac : Mac) (arp_resolve : ℕ → Option Mac)
    (counter dst_ip src_port dst_port : ℕ) (payload : List ℕ) (sockets : List UdpSocket)
    (i max_len : ℕ) {frame : List ℕ} {s : UdpSocket}
    → net.ip < 2 ^ 32
    → dst_ip < 2 ^ 32
    → src_port < 2 ^ 16
    → dst_port < 2 ^ 16
    → arp_resolve (resolve_ip net dst_ip) ≡ some dst_mac
    → (udp_send net our_mac arp_resolve counter dst_ip src_port dst_port payload).0 ≡ some frame
    → IsDistinct sockets
    → get_elem? sockets i ≡ some s
    → is_live s dst_port ≡ true
    → length s.rx_buffer ≡ rx_buffer_size
    → (udp_recvfrom (receive_frame dst_mac dst_ip sockets frame) (pos i) max_len).0 ≡ record {
      result = pos (min max_len (length payload));
      bytes = take (min max_len (length payload)) payload;
      source = some (net.ip, src_port);
    }
udp_end_to_end net our_mac dst_mac arp_resolve counter dst_ip src_port dst_port payload sockets i
      max_len {frame} {s} hs hd hsp hdp r h distinct e live size =
    let datagram = udp_packet net.ip dst_ip src_port dst_port payload in
    let (fits, sent) =
      udp_send-ipv4_send net our_mac arp_resolve counter dst_ip src_port dst_port payload h in
    let framed =
      ipv4_send-frame net our_mac arp_resolve counter dst_ip ip_proto_udp datagram r sent in
    let small : length datagram ≤ 1480 =
      omega (arith, length-udp_packet net.ip dst_ip src_port dst_port payload) in
    let arrived =
      frame-to_udp our_mac dst_mac net.ip dst_ip counter datagram hs hd small framed sockets in
    let stored =
      udp_receive-bound net.ip dst_ip src_port dst_port payload sockets i hsp hdp fits distinct e
        live in
    rw (arrived, stored)
      (recvfrom-store sockets i s payload net.ip src_port max_len (lt_of_get_elem? sockets i e)
        (ground arith) (ground arith) size fits)
