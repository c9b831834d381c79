-- ===== src/Net/Udp/Delivery.antt =====
-- src/net/udp.cpp over src/net/ipv4.cpp and src/net/ethernet.cpp: a datagram from one machine's
-- `udp_send` to another's `udp_recvfrom`.
use uni_os.Prelude.{
  ℕ, zero, suc, ◌+◌, ◌-◌, ◌^◌, ◌≤◌, ◌<◌, ◌≡◌, refl, ap, min, true, false, none, some, List, [], ◌∷◌,
  ◌==◌, arith, if◌then◌else◌, length, get_elem?, set, take, get_elem?-set_self, take-length,
  All-get_elem?,
}
use uni_os.Prelude.Int.{pos}
use uni_os.Net.Bytes.{htons, htons-lt, join16, ntohs-htons}
use uni_os.Net.Udp.{
  UdpSocket, udp_packet, udp_receive, udp_recvfrom, at_port, store, is_live, write_prefix,
  udp_header_size, rx_buffer_size,
}
use uni_os.Net.Udp.Ports.{IsDistinct, is_bound}

-- A datagram that `udp_send` builds goes to the first socket bound to its destination port, with
-- its payload, the sender's address and the source port; without such a socket it goes to the DHCP
-- client if the port is 68, and is dropped otherwise.
pub udp_receive-packet :
    (sockets : List UdpSocket) (src dst src_port dst_port : ℕ) (payload : List ℕ)
    → src_port < 2 ^ 16
    → dst_port < 2 ^ 16
    → length payload ≤ 1472
    → udp_receive sockets (udp_packet src dst src_port dst_port payload) src
      ≡ (elim (at_port dst_port (store payload src src_port) sockets) [
        | some sockets' ↦ (sockets', none)
        | none ↦ if dst_port == 68 then (sockets, some payload) else (sockets, none)
      ])
unfolding udp_receive udp_packet
udp_receive-packet sockets src dst src_port dst_port payload hs hd le =
    let size = udp_header_size + length payload in
    ground (
      arith,
      take-length payload (size - udp_header_size),
      join16 (htons size) (htons-lt size),
      ntohs-htons size,
      join16 (htons src_port) (htons-lt src_port),
      ntohs-htons src_port hs,
      join16 (htons dst_port) (htons-lt dst_port),
      ntohs-htons dst_port hd,
    )

-- With distinct ports the first socket on a port is the only one.
pub at_port-bound :
    (port : ℕ) (f : UdpSocket → UdpSocket) (sockets : List UdpSocket) (i : ℕ) {s : UdpSocket}
    → IsDistinct sockets
    → get_elem? sockets i ≡ some s
    → is_live s port ≡ true
    → at_port port f sockets ≡ some (set sockets i (f s))
unfolding at_port
at_port-bound port f [] i h e live = absurd (cc)
at_port-bound port f (u ∷ sockets) zero {s} h e live = ground arith
at_port-bound port f (u ∷ sockets) (suc i) {s} h e live = ground (
  arith,
  at_port-bound port f sockets i {s = s} h.1 e live,
  λ (b : is_bound u ≡ true). All-get_elem? (λ v. is_live v u.port ≡ false) sockets i (h.0 b) e,
)

take-write_prefix :
    (bytes buffer : List ℕ) (n : ℕ)
    → n ≤ length bytes
    → length bytes ≤ length buffer
    → take n (write_prefix bytes buffer) ≡ take n bytes
unfolding write_prefix
take-write_prefix [] buffer zero hn hl = refl
take-write_prefix [] buffer (suc n) hn hl = absurd (omega arith)
take-write_prefix (b ∷ bytes) [] n hn hl = absurd (omega arith)
take-write_prefix (b ∷ bytes) (x ∷ buffer) zero hn hl = refl
take-write_prefix (b ∷ bytes) (x ∷ buffer) (suc n) hn hl =
    ap (λ w. b ∷ w) (take-write_prefix bytes buffer n (omega arith) (omega arith))

-- What the owner of a socket reads when a datagram is stored in it.
pub recvfrom-store :
    (sockets : List UdpSocket) (i : ℕ) (s : UdpSocket) (payload : List ℕ)
    (src_ip src_port max_len : ℕ)
    → i < length sockets
    → s.in_use ≡ true
    → s.bound ≡ true
    → length s.rx_buffer ≡ rx_buffer_size
    → length payload ≤ 1472
    → (udp_recvfrom (set sockets i (store payload src_ip src_port s)) (pos i) max_len).0 ≡ record {
      result = pos (min max_len (length payload));
      bytes = take (min max_len (length payload)) payload;
      source = some (src_ip, src_port);
    }
unfolding udp_recvfrom store
recvfrom-store sockets i s payload src_ip src_port max_len hi used bound size le = ground (
  arith,
  get_elem?-set_self sockets i (store payload src_ip src_port s) hi,
  take-length payload (length payload) refl,
  take-write_prefix payload s.rx_buffer (min max_len (length payload)),
)
