-- ===== src/Net/Udp/Ports.antt =====
-- src/net/udp.cpp: the ports that the sockets in use are bound to.
use uni_os.Prelude.{
  ℕ, zero, suc, ◌+◌, ◌≡◌, Bool, true, false, ◌&&◌, some, List, [], ◌∷◌, arith, get_elem?, set, map,
  All, All-set, inl, inr, Option-cases, IfAny, All-get_elem?, take, drop, ◌-◌,
}
use uni_os.Net.Bytes.{ntohs, u16_at}
use uni_os.Prelude.Int.{ℤ, pos, negsuc}
use uni_os.Net.Udp.{
  UdpSocket, is_live, init_socket, at_port, store, udp_receive, socket_from, udp_socket, port_taken,
  udp_bind, udp_recvfrom, udp_close, udp_header_size,
}

abbrev pub is_bound : UdpSocket → Bool
is_bound s = s.in_use && s.bound

abbrev pub IsFree : ℕ → List UdpSocket → Type 0
IsFree port = All (λ s. is_live s port ≡ false)

-- No socket that is bound has a later one on its port.
abbrev pub IsDistinct : List UdpSocket → Type 0
IsDistinct [] = Unit
IsDistinct (s ∷ sockets) = (is_bound s ≡ true → IsFree s.port sockets) × IsDistinct sockets

IsFree-of_port_taken :
    (sockets : List UdpSocket) (port : ℕ) → port_taken sockets port ≡ false → IsFree port sockets
unfolding port_taken
IsFree-of_port_taken [] port h = tt
IsFree-of_port_taken (s ∷ sockets) port h = ground (arith, IsFree-of_port_taken sockets port)

IsDistinct-set_idle :
    (sockets : List UdpSocket) (i : ℕ) (s : UdpSocket)
    → is_bound s ≡ false
    → IsDistinct sockets
    → IsDistinct (set sockets i s)
IsDistinct-set_idle [] i s idle h = tt
IsDistinct-set_idle (u ∷ sockets) zero s idle h = ground arith
IsDistinct-set_idle (u ∷ sockets) (suc i) s idle h =
    (λ b. All-set _ sockets i s (h.0 b) (ground arith), IsDistinct-set_idle sockets i s idle h.1)

IsDistinct-set_fresh :
    (sockets : List UdpSocket) (i : ℕ) (s : UdpSocket)
    → IsFree s.port sockets
    → IsDistinct sockets
    → IsDistinct (set sockets i s)
IsDistinct-set_fresh [] i s free h = tt
IsDistinct-set_fresh (u ∷ sockets) zero s free h = (λ b. free.1, h.1)
IsDistinct-set_fresh (u ∷ sockets) (suc i) s free h =
    (λ b. All-set _ sockets i s (h.0 b) (ground arith), IsDistinct-set_fresh sockets i s free.1 h.1)

module _ (port : ℕ) (payload : List ℕ) (src_ip src_port : ℕ) where
  store-IsFree :
      (q : ℕ) (sockets : List UdpSocket)
      → IsFree q sockets
      → IfAny (IsFree q) (at_port port (store payload src_ip src_port) sockets)
  unfolding at_port store
  store-IsFree q [] h = tt
  store-IsFree q (s ∷ sockets) h = ground (arith, store-IsFree q sockets h.1)

  store-IsDistinct :
      (sockets : List UdpSocket)
      → IsDistinct sockets
      → IfAny IsDistinct (at_port port (store payload src_ip src_port) sockets)
  unfolding at_port store
  store-IsDistinct [] h = tt
  store-IsDistinct (s ∷ sockets) h = ground (
    arith,
    store-IsDistinct sockets h.1,
    λ (b : is_bound s ≡ true). store-IsFree s.port sockets (h.0 b),
  )

socket_from-IsFree :
    (i q : ℕ) (sockets : List UdpSocket) → IsFree q sockets → IsFree q (socket_from i sockets).1
unfolding socket_from
socket_from-IsFree i q [] h = tt
socket_from-IsFree i q (s ∷ sockets) h = ground (arith, socket_from-IsFree (i + 1) q sockets h.1)

socket_from-IsDistinct :
    (i : ℕ) (sockets : List UdpSocket) → IsDistinct sockets → IsDistinct (socket_from i sockets).1
unfolding socket_from
socket_from-IsDistinct i [] h = tt
socket_from-IsDistinct i (s ∷ sockets) h = ground (
  arith,
  socket_from-IsDistinct (i + 1) sockets h.1,
  λ (b : is_bound s ≡ true). socket_from-IsFree (i + 1) s.port sockets (h.0 b),
)

-- The datagram that a call of `udp_recvfrom` takes away changes neither mark nor port.
IsDistinct-set_read :
    (sockets : List UdpSocket) (i : ℕ) {s : UdpSocket}
    → get_elem? sockets i ≡ some s
    → IsDistinct sockets
    → IsDistinct (set sockets i (record s { rx_ready = false }))
IsDistinct-set_read [] i e h = tt
IsDistinct-set_read (u ∷ sockets) zero {s} e h = let same : u ≡ s = ground arith in rw (← same) h
IsDistinct-set_read (u ∷ sockets) (suc i) {s} e h = (
  λ b.
      All-set _ sockets i (record s { rx_ready = false }) (h.0 b)
        (All-get_elem? (λ u'. is_live u' u.port ≡ false) sockets i (h.0 b) e),
  IsDistinct-set_read sockets i e h.1,
)

-- A call on the table of sockets, or a datagram that arrives.
pub data Call : Type 0 where
  socket : Call
  bind : ℤ → ℕ → Call
  arrive : List ℕ → ℕ → Call
  recvfrom : ℤ → ℕ → Call
  close : ℤ → Call

pub step : List UdpSocket → Call → List UdpSocket
step sockets socket = (udp_socket sockets).1
step sockets (bind sock port) = (udp_bind sockets sock port).1
step sockets (arrive bytes src_ip) = (udp_receive sockets bytes src_ip).0
step sockets (recvfrom sock max_len) = (udp_recvfrom sockets sock max_len).1
step sockets (close sock) = udp_close sockets sock

pub steps : List UdpSocket → List Call → List UdpSocket
steps sockets [] = sockets
steps sockets (c ∷ calls) = steps (step sockets c) calls

udp_bind-IsDistinct :
    (sockets : List UdpSocket) (sock : ℤ) (port : ℕ)
    → IsDistinct sockets
    → IsDistinct (udp_bind sockets sock port).1
unfolding udp_bind
udp_bind-IsDistinct sockets (negsuc n) port h = h
udp_bind-IsDistinct sockets (pos i) port h = elim (Option-cases (get_elem? sockets i)) [
  | inl e ↦ ground arith
  | inr (s, e) ↦ ground (
    arith,
    IsFree-of_port_taken sockets port,
    IsDistinct-set_fresh sockets i (record s { port = port; bound = true; rx_ready = false }),
  )
]

udp_receive-IsDistinct :
    (sockets : List UdpSocket) (bytes : List ℕ) (src_ip : ℕ)
    → IsDistinct sockets
    → IsDistinct (udp_receive sockets bytes src_ip).0
unfolding udp_receive
udp_receive-IsDistinct sockets bytes src_ip h = ground (
  arith,
  store-IsDistinct (ntohs (u16_at bytes 2))
      (take (ntohs (u16_at bytes 4) - udp_header_size) (drop udp_header_size bytes)) src_ip
      (ntohs (u16_at bytes 0)) sockets h,
)

udp_recvfrom-IsDistinct :
    (sockets : List UdpSocket) (sock : ℤ) (max_len : ℕ)
    → IsDistinct sockets
    → IsDistinct (udp_recvfrom sockets sock max_len).1
unfolding udp_recvfrom
udp_recvfrom-IsDistinct sockets (negsuc n) max_len h = h
udp_recvfrom-IsDistinct sockets (pos i) max_len h = elim (Option-cases (get_elem? sockets i)) [
  | inl e ↦ ground arith
  | inr (s, e) ↦ ground (arith, IsDistinct-set_read sockets i e h)
]

udp_close-IsDistinct :
    (sockets : List UdpSocket) (sock : ℤ) → IsDistinct sockets → IsDistinct (udp_close sockets sock)
unfolding udp_close init_socket
udp_close-IsDistinct sockets (negsuc n) h = h
udp_close-IsDistinct sockets (pos i) h = elim (Option-cases (get_elem? sockets i)) [
  | inl e ↦ ground arith
  | inr (s, e) ↦ ground (arith, IsDistinct-set_idle sockets i (init_socket s))
]

step-IsDistinct :
    (sockets : List UdpSocket) (c : Call) → IsDistinct sockets → IsDistinct (step sockets c)
unfolding step udp_socket
step-IsDistinct sockets socket h = socket_from-IsDistinct 0 sockets h
step-IsDistinct sockets (bind sock port) h = udp_bind-IsDistinct sockets sock port h
step-IsDistinct sockets (arrive bytes src_ip) h = udp_receive-IsDistinct sockets bytes src_ip h
step-IsDistinct sockets (recvfrom sock max_len) h = udp_recvfrom-IsDistinct sockets sock max_len h
step-IsDistinct sockets (close sock) h = udp_close-IsDistinct sockets sock h

init_socket-IsDistinct : (sockets : List UdpSocket) → IsDistinct (map init_socket sockets)
unfolding init_socket
init_socket-IsDistinct [] = tt
init_socket-IsDistinct (s ∷ sockets) = ground (arith, init_socket-IsDistinct sockets)

steps-IsDistinct_of :
    (sockets : List UdpSocket) (calls : List Call)
    → IsDistinct sockets
    → IsDistinct (steps sockets calls)
unfolding steps
steps-IsDistinct_of sockets [] h = h
steps-IsDistinct_of sockets (c ∷ calls) h =
    steps-IsDistinct_of (step sockets c) calls (step-IsDistinct sockets c h)

-- After `udp_init`, whatever calls are made and whatever datagrams arrive, no two sockets in use are
-- bound to the same port.
pub steps-IsDistinct :
    (sockets : List UdpSocket) (calls : List Call)
    → IsDistinct (steps (map init_socket sockets) calls)
steps-IsDistinct sockets calls =
    steps-IsDistinct_of (map init_socket sockets) calls (init_socket-IsDistinct sockets)
