-- ===== src/Tests/Net.antt =====
-- The network stack of src/net on concrete packets.
use uni_os.Prelude.{
  ℕ, ◌≡◌, refl, true, false, ◌==◌, Option, none, some, List, [], ◌∷◌, ◌++◌, arith, map,
  length-replicate, replicate, if◌then◌else◌,
}
use uni_os.Prelude.Int.{pos}
use uni_os.Net.Bytes.{htons, ntohs, htonl, ntohl, ntoh-hton}
use uni_os.Net.Ethernet.{Mac, eth_type_ipv4, eth_mac_is_zero, ethernet_frame, ethernet_send}
use uni_os.Net.Ipv4
use uni_os.Net.Ipv4.{
  NetConfig, ip_make, ipv4_packet, ipv4_receive, ipv4_send, ipv4_checksum, resolve_ip, is_for_us,
  dispatch, sum_words, fold_sum, fold_fuel,
}
use uni_os.Net.Ipv4.Delivery.{ipv4_receive-packet}
use uni_os.Net.Udp.{
  UdpSocket, init_socket, at_port, store, udp_packet, udp_send, udp_receive, udp_recvfrom,
}
use uni_os.Net.Udp.Ports.{IsDistinct, socket, bind, steps, steps-IsDistinct}
use uni_os.Net.Udp.Delivery.{udp_receive-packet}
use uni_os.Net.Udp.EndToEnd.{receive_frame, udp_end_to_end}

abbrev alice_mac : Mac
alice_mac = record { m0 = 2; m1 = 0; m2 = 0; m3 = 0; m4 = 0; m5 = 1 }

abbrev bob_mac : Mac
bob_mac = record { m0 = 2; m1 = 0; m2 = 0; m3 = 0; m4 = 0; m5 = 2 }

-- 10.0.0.1 and 10.0.0.2
abbrev alice_ip : ℕ
alice_ip = 0x0100000a

abbrev bob_ip : ℕ
bob_ip = 0x0200000a

abbrev alice_net : NetConfig
alice_net = record {
  ip = alice_ip;
  netmask = 0x00ffffff;
  gateway = 0xfe00000a;
  dns = 0;
  configured = true;
}

abbrev hello : List ℕ
hello = 104 ∷ 105 ∷ []

abbrev bob_socket : UdpSocket
bob_socket = record {
  in_use = true;
  port = 53;
  bound = true;
  rx_buffer = replicate 1500 0;
  rx_length = 0;
  rx_src_ip = 0;
  rx_src_port = 0;
  rx_ready = false;
}

abbrev bob_sockets : List UdpSocket
bob_sockets = init_socket bob_socket ∷ bob_socket ∷ []

abbrev finds_bob : ℕ → Option Mac
finds_bob ip = if ip == bob_ip then some bob_mac else none

abbrev packet : List ℕ
packet = ipv4_packet alice_ip bob_ip 7 17 (udp_packet alice_ip bob_ip 4000 53 hello)

abbrev frame : List ℕ
frame = ethernet_frame alice_mac bob_mac eth_type_ipv4 packet

sends_frame : (udp_send alice_net alice_mac finds_bob 7 bob_ip 4000 53 hello).0 ≡ some frame
unfolding udp_send ipv4_send ethernet_send eth_mac_is_zero resolve_ip ipv4_packet udp_packet
sends_frame = refl

ntoh-hton_example : (ntohs (htons 53) ≡ 53) × (ntohl (htonl alice_ip) ≡ alice_ip)
ntoh-hton_example = ntoh-hton 53 alice_ip (omega arith) (omega arith)

ipv4_receive-packet_example :
    ipv4_receive bob_ip (ipv4_packet alice_ip bob_ip 7 17 hello ++ (0 ∷ []))
    ≡ (if is_for_us bob_ip bob_ip then dispatch 17 hello alice_ip bob_ip else Ipv4.dropped)
ipv4_receive-packet_example =
    ipv4_receive-packet bob_ip alice_ip bob_ip 7 17 hello (0 ∷ []) (omega arith) (omega arith)
      (omega arith)

steps-IsDistinct_example :
    IsDistinct (steps (map init_socket bob_sockets) (socket ∷ bind (pos 0) 53 ∷ []))
steps-IsDistinct_example = steps-IsDistinct bob_sockets (socket ∷ bind (pos 0) 53 ∷ [])

udp_receive-packet_example :
    udp_receive bob_sockets (udp_packet alice_ip bob_ip 4000 53 hello) alice_ip
    ≡ (elim (at_port 53 (store hello alice_ip 4000) bob_sockets) [
      | some sockets' ↦ (sockets', none)
      | none ↦ if ◌==◌ 53 68 then (bob_sockets, some hello) else (bob_sockets, none)
    ])
udp_receive-packet_example =
    udp_receive-packet bob_sockets alice_ip bob_ip 4000 53 hello (omega arith) (omega arith)
      (omega arith)

udp_end_to_end_example :
    (udp_recvfrom (receive_frame bob_mac bob_ip bob_sockets frame) (pos 1) 64).0
    ≡ record { result = pos 2; bytes = hello; source = some (alice_ip, 4000) }
udp_end_to_end_example =
    udp_end_to_end alice_net alice_mac bob_mac finds_bob 7 bob_ip 4000 53 hello bob_sockets 1 64
      (omega arith) (omega arith) (omega arith) (omega arith) (unfold resolve_ip in refl)
      sends_frame (unfold init_socket in ground arith) refl refl (length-replicate {A = ℕ} 1500 0)
