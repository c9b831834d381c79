-- ===== src/Net/Udp.antt =====
-- src/net/udp.cpp: datagrams and the table of sockets. The locks and the scratch buffers do not show
-- in the results, and `ipv4_send` is that of `Net.Ipv4`.
pub mod Ports
pub mod Delivery
pub mod EndToEnd
pub mod Packet
use uni_os.Prelude.{
  ℕ, zero, suc, ◌+◌, ◌-◌, ◌<◌, Bool, true, false, not, ◌&&◌, ◌||◌, Option, none, some, List, [],
  ◌∷◌, ltb, ◌==◌, if◌then◌else◌, length, take, drop, replicate, get_elem?, set,
}
use uni_os.Prelude.Int.{ℤ, pos, negsuc}
use uni_os.Net.Bytes.{htons, ntohs, byte_at, u16_at, byte0, byte1}
use uni_os.Net.Ethernet.{Mac, u16_then}
use uni_os.Net.Ipv4.{NetConfig, ipv4_checksum, ipv4_send, ip_proto_udp, u32_then}

pub record UdpSocket : Type 0 where
  pub in_use : Bool
  pub port : ℕ
  pub bound : Bool
  pub rx_buffer : List ℕ
  pub rx_length : ℕ
  pub rx_src_ip : ℕ
  pub rx_src_port : ℕ
  pub rx_ready : Bool

abbrev pub udp_header_size : ℕ
udp_header_size = 8

abbrev pub udp_max_sockets : ℕ
udp_max_sockets = 16

abbrev pub rx_buffer_size : ℕ
rx_buffer_size = 1500

-- `udp_init` on one socket.
unfoldable pub init_socket : UdpSocket → UdpSocket
init_socket s = record s { in_use = false; bound = false; rx_ready = false }

-- The pseudo header, in front of the datagram.
abbrev pub pseudo_then : (src_ip dst_ip length : ℕ) → List ℕ → List ℕ
pseudo_then src_ip dst_ip length rest =
    u32_then src_ip (u32_then dst_ip (0 ∷ ip_proto_udp ∷ u16_then (htons length) rest))

unfoldable pub udp_checksum : ℕ → ℕ → List ℕ → ℕ
udp_checksum src_ip dst_ip datagram =
    ipv4_checksum (pseudo_then src_ip dst_ip (length datagram) datagram)

abbrev pub udp_header_then : (src_port dst_port length checksum : ℕ) → List ℕ → List ℕ
udp_header_then src_port dst_port length checksum rest =
    u16_then (htons src_port)
      (u16_then (htons dst_port) (u16_then (htons length) (u16_then checksum rest)))

-- A checksum of 0 would say that there is none, so it is sent as 0xFFFF.
abbrev pub nonzero_checksum : ℕ → ℕ
nonzero_checksum c = if c == 0 then 0xFFFF else c

unfoldable pub udp_packet : (src_ip dst_ip src_port dst_port : ℕ) → List ℕ → List ℕ
udp_packet src_ip dst_ip src_port dst_port payload =
    let size = udp_header_size + length payload in
    let checksum = udp_checksum src_ip dst_ip (udp_header_then src_port dst_port size 0 payload) in
    udp_header_then src_port dst_port size (nonzero_checksum checksum) payload

-- The frame that goes out, if one does, and `ip_id_counter`.
unfoldable pub udp_send :
    NetConfig
    → Mac
    → (ℕ → Option Mac)
    → (ip_id_counter dst_ip src_port dst_port : ℕ) → List ℕ
    → Option (List ℕ) × ℕ
udp_send net our_mac arp_resolve ip_id_counter dst_ip src_port dst_port payload =
    if dst_ip == 0 || (src_port == 0 || dst_port == 0)
    then (none, ip_id_counter)
    else if ltb 1472 (length payload)
    then (none, ip_id_counter)
    else ipv4_send net our_mac arp_resolve ip_id_counter dst_ip ip_proto_udp
        (udp_packet net.ip dst_ip src_port dst_port payload)

abbrev pub is_live : UdpSocket → ℕ → Bool
is_live s port = s.in_use && (s.bound && s.port == port)

-- `for (j = 0; j < stored_len; j++) rx_buffer[j] = payload[j]`.
unfoldable pub write_prefix : List ℕ → List ℕ → List ℕ
write_prefix [] buffer = buffer
write_prefix (b ∷ bytes) [] = []
write_prefix (b ∷ bytes) (x ∷ buffer) = b ∷ write_prefix bytes buffer

unfoldable pub store : List ℕ → (src_ip src_port : ℕ) → UdpSocket → UdpSocket
store payload src_ip src_port s =
    let stored_len =
      if ltb rx_buffer_size (length payload) then rx_buffer_size else length payload in
    record s {
      rx_buffer = write_prefix (take stored_len payload) s.rx_buffer;
      rx_length = stored_len;
      rx_src_ip = src_ip;
      rx_src_port = src_port;
      rx_ready = true;
    }

-- The first socket bound to the port is changed by `f`; `none` if there is no such socket.
unfoldable pub at_port : ℕ → (UdpSocket → UdpSocket) → List UdpSocket → Option (List UdpSocket)
at_port port f [] = none
at_port port f (s ∷ sockets) =
    let rest = at_port port f sockets in
    if is_live s port
    then some (f s ∷ sockets)
    else elim rest [ none ↦ none | some sockets' ↦ some (s ∷ sockets') ]

-- The sockets after a datagram, and the payload that is handed to `dhcp_receive`, if it is.
unfoldable pub udp_receive : List UdpSocket → List ℕ → ℕ → List UdpSocket × Option (List ℕ)
udp_receive sockets bytes src_ip =
    if ltb (length bytes) udp_header_size
    then (sockets, none)
    else let udp_len = ntohs (u16_at bytes 4) in
      let payload = take (udp_len - udp_header_size) (drop udp_header_size bytes) in
      let dst_port = ntohs (u16_at bytes 2) in
      if ltb udp_len udp_header_size || ltb (length bytes) udp_len
      then (sockets, none)
      else elim (at_port dst_port (store payload src_ip (ntohs (u16_at bytes 0))) sockets) [
        | some sockets' ↦ (sockets', none)
        | none ↦ if dst_port == 68 then (sockets, some payload) else (sockets, none)
      ]

-- `udp_socket` from index `i` on; -1 is `negsuc 0`.
unfoldable pub socket_from : ℕ → List UdpSocket → ℤ × List UdpSocket
socket_from i [] = (negsuc 0, [])
socket_from i (s ∷ sockets) =
    let (id, sockets') = socket_from (i + 1) sockets in
    if s.in_use
    then (id, s ∷ sockets')
    else (pos i, record s { in_use = true; bound = false; rx_ready = false } ∷ sockets)

unfoldable pub udp_socket : List UdpSocket → ℤ × List UdpSocket
unfolding socket_from
udp_socket sockets = socket_from 0 sockets

-- The socket that a descriptor names, if it is in range and in use. The table has
-- `udp_max_sockets` entries.
abbrev pub open_socket : List UdpSocket → ℤ → Option UdpSocket
open_socket sockets (negsuc n) = none
open_socket sockets (pos i) = elim (get_elem? sockets i) [
  | none ↦ none
  | some s ↦ if s.in_use then some s else none
]

abbrev pub set_socket : List UdpSocket → ℤ → UdpSocket → List UdpSocket
set_socket sockets (negsuc n) s = sockets
set_socket sockets (pos i) s = set sockets i s

unfoldable pub port_taken : List UdpSocket → ℕ → Bool
port_taken [] port = false
port_taken (s ∷ sockets) port = is_live s port || port_taken sockets port

unfoldable pub udp_bind : List UdpSocket → ℤ → ℕ → Bool × List UdpSocket
udp_bind sockets sock port = elim (open_socket sockets sock) [
  | none ↦ (false, sockets)
  | some s ↦ if port_taken sockets port then (false, sockets) else (
    true,
    set_socket sockets sock (record s { port = port; bound = true; rx_ready = false }),
  )
]

unfoldable pub udp_sendto :
    NetConfig
    → Mac
    → (ℕ → Option Mac)
    → ℕ
    → List UdpSocket
    → ℤ
    → (dst_ip dst_port : ℕ) → List ℕ
    → Option (List ℕ) × ℕ
udp_sendto net our_mac arp_resolve ip_id_counter sockets sock dst_ip dst_port payload =
    elim (open_socket sockets sock) [
      | none ↦ (none, ip_id_counter)
      | some s ↦
          let src_port = if s.bound then s.port else 49152 in
          udp_send net our_mac arp_resolve ip_id_counter dst_ip src_port dst_port payload
    ]

-- What `udp_recvfrom` returns, and what it writes through its pointers where they are given.
pub record Received : Type 0 where
  pub result : ℤ
  pub bytes : List ℕ
  pub source : Option (ℕ × ℕ)

abbrev pub nothing : ℤ → Received
nothing result = record { result = result; bytes = []; source = none }

unfoldable pub udp_recvfrom : List UdpSocket → ℤ → ℕ → Received × List UdpSocket
udp_recvfrom sockets sock max_len = elim (open_socket sockets sock) [
  | none ↦ (nothing (negsuc 0), sockets)
  | some s ↦
      if not s.bound
      then (nothing (negsuc 0), sockets)
      else if not s.rx_ready
      then (nothing (pos 0), sockets)
      else let len = if ltb max_len s.rx_length then max_len else s.rx_length in
        (
          record {
            result = pos len;
            bytes = take len s.rx_buffer;
            source = some (s.rx_src_ip, s.rx_src_port);
          },
          set_socket sockets sock (record s { rx_ready = false }),
        )
]

unfoldable pub udp_close : List UdpSocket → ℤ → List UdpSocket
udp_close sockets (negsuc n) = sockets
udp_close sockets (pos i) = elim (get_elem? sockets i) [
  | none ↦ sockets
  | some s ↦ set sockets i (init_socket s)
]
