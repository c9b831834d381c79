-- ===== src/Net/Dhcp.antt =====
-- src/net/dhcp.cpp and include/kernel/net/dhcp.h: what a packet of the server leads to. The packet is the
-- list of its bytes; `none` is a read outside it, and a loop that is left for want of fuel. The fuel of a
-- loop is the number of bytes of the options. The options start at byte 240, with 308 bytes of room in
-- sizeof(DhcpPacket).
pub mod Receive
use uni_os.Prelude.{
  ℕ, zero, suc, ◌+◌, ◌-◌, ◌*◌, ◌/◌, ◌%◌, ◌^◌, Bool, true, false, not, ◌&&◌, ◌||◌, Option, none,
  some, List, [], ◌∷◌, ltb, leb, ◌==◌, if◌then◌else◌, length, get_elem?, drop,
}
use uni_os.Net.Bytes.{ntohl}

pub record Dhcp : Type 0 where
  pub xid : ℕ
  pub server_ip : ℕ
  pub offered_ip : ℕ
  pub subnet_mask : ℕ
  pub gateway : ℕ
  pub dns : ℕ
  pub got_offer : Bool
  pub got_ack : Bool

-- dhcp_init with the ticks of the timer, and how dhcp_request begins.
abbrev pub dhcp_init : (ticks : ℕ) → Dhcp
dhcp_init ticks = record {
  xid = ticks % 2 ^ 32;
  server_ip = 0;
  offered_ip = 0;
  subnet_mask = 0;
  gateway = 0;
  dns = 0;
  got_offer = false;
  got_ack = false;
}

abbrev pub with_subnet_mask : Dhcp → ℕ → Dhcp
with_subnet_mask s v = record {
  xid = s.xid;
  server_ip = s.server_ip;
  offered_ip = s.offered_ip;
  subnet_mask = v;
  gateway = s.gateway;
  dns = s.dns;
  got_offer = s.got_offer;
  got_ack = s.got_ack;
}

abbrev pub with_gateway : Dhcp → ℕ → Dhcp
with_gateway s v = record {
  xid = s.xid;
  server_ip = s.server_ip;
  offered_ip = s.offered_ip;
  subnet_mask = s.subnet_mask;
  gateway = v;
  dns = s.dns;
  got_offer = s.got_offer;
  got_ack = s.got_ack;
}

abbrev pub with_dns : Dhcp → ℕ → Dhcp
with_dns s v = record {
  xid = s.xid;
  server_ip = s.server_ip;
  offered_ip = s.offered_ip;
  subnet_mask = s.subnet_mask;
  gateway = s.gateway;
  dns = v;
  got_offer = s.got_offer;
  got_ack = s.got_ack;
}

abbrev pub with_server_ip : Dhcp → ℕ → Dhcp
with_server_ip s v = record {
  xid = s.xid;
  server_ip = v;
  offered_ip = s.offered_ip;
  subnet_mask = s.subnet_mask;
  gateway = s.gateway;
  dns = s.dns;
  got_offer = s.got_offer;
  got_ack = s.got_ack;
}

abbrev pub with_offered_ip : Dhcp → ℕ → Dhcp
with_offered_ip s v = record {
  xid = s.xid;
  server_ip = s.server_ip;
  offered_ip = v;
  subnet_mask = s.subnet_mask;
  gateway = s.gateway;
  dns = s.dns;
  got_offer = s.got_offer;
  got_ack = s.got_ack;
}

abbrev pub with_got : Dhcp → (got_offer got_ack : Bool) → Dhcp
with_got s got_offer got_ack = record {
  xid = s.xid;
  server_ip = s.server_ip;
  offered_ip = s.offered_ip;
  subnet_mask = s.subnet_mask;
  gateway = s.gateway;
  dns = s.dns;
  got_offer = got_offer;
  got_ack = got_ack;
}

unfoldable pub and_then : Option ℕ → (ℕ → Option Dhcp) → Option Dhcp
and_then none next = none
and_then (some b) next = next b

-- Four bytes as a word of the little-endian machine.
unfoldable pub read_u32 : List ℕ → ℕ → (ℕ → Option Dhcp) → Option Dhcp
read_u32 d i next = and_then (get_elem? d i) (λ a. and_then (get_elem? d (i + 1)) (λ b.
    and_then (get_elem? d (i + 2))
      (λ c. and_then (get_elem? d (i + 3)) (λ e. next (a + b * 2 ^ 8 + c * 2 ^ 16 + e * 2 ^ 24)))))

-- The switch of dhcp_parse_options.
unfoldable pub set_option : List ℕ → (opt len i : ℕ) → Dhcp → (Dhcp → Option Dhcp) → Option Dhcp
set_option options opt len i s next =
    if not (leb 4 len)
    then next s
    else if opt == 1
    then read_u32 options i (λ v. next (with_subnet_mask s v))
    else if opt == 3
    then read_u32 options i (λ v. next (with_gateway s v))
    else if opt == 6
    then read_u32 options i (λ v. next (with_dns s v))
    else if opt == 54
    then read_u32 options i (λ v. next (with_server_ip s v))
    else next s

module _ (options : List ℕ) (size : ℕ) where
  unfoldable pub dhcp_parse_options : (fuel i : ℕ) → Dhcp → Option Dhcp
  dhcp_parse_options zero i s = if ltb i size then none else some s
  dhcp_parse_options (suc fuel) i s =
      let rest : ℕ → Dhcp → Option Dhcp = λ i' s'. dhcp_parse_options fuel i' s' in
      if not (ltb i size)
      then some s
      else and_then (get_elem? options i) (λ opt.
        if opt == 0
        then rest (i + 1) s
        else if opt == 255
        then some s
        else if leb size (i + 1)
        then some s
        else and_then (get_elem? options (i + 1)) (λ len.
          if ltb (size - (i + 2)) len
          then some s
          else set_option options opt len (i + 2) s (λ s'. rest (i + 2 + len) s')))

  -- The loop of dhcp_receive that looks for the type of the message; `next` goes on with it.
  unfoldable pub message_type : (fuel i msg_type : ℕ) → (ℕ → Option Dhcp) → Option Dhcp
  message_type zero i msg_type next = if ltb i size then none else next msg_type
  message_type (suc fuel) i msg_type next =
      let rest : ℕ → ℕ → Option Dhcp = λ i' m. message_type fuel i' m next in
      if not (ltb i size)
      then next msg_type
      else and_then (get_elem? options i) (λ code.
        if code == 0
        then rest (i + 1) msg_type
        else if code == 255
        then next msg_type
        else if leb size (i + 1)
        then next msg_type
        else and_then (get_elem? options (i + 1)) (λ len.
          if ltb (size - (i + 2)) len
          then next msg_type
          else if code == 53 && leb 1 len
          then and_then (get_elem? options (i + 2)) (λ m. rest (i + 2 + len) m)
          else rest (i + 2 + len) msg_type))

-- The loop that compares the hardware address: bytes 28 to 33.
unfoldable pub same_mac :
    List ℕ → (our_mac : List ℕ) → (i : ℕ) → Dhcp → (Dhcp → Option Dhcp) → Option Dhcp
same_mac d [] i s next = next s
same_mac d (m ∷ our_mac) i s next =
    let rest = same_mac d our_mac (i + 1) s next in
    and_then (get_elem? d i) (λ b. if b == m then rest else some s)

unfoldable pub on_message : List ℕ → (msg_type : ℕ) → Dhcp → Option Dhcp
on_message d msg_type s =
    let options = drop 240 d in
    let size = length d - 240 in
    if msg_type == 2
    then read_u32 d 16 (λ ip. elim (dhcp_parse_options options size size 0 (with_offered_ip s ip)) [
      | none ↦ none
      | some s' ↦ some (with_got s' true s'.got_ack)
    ])
    else if msg_type == 5
    then read_u32 d 16 (λ ip. elim (dhcp_parse_options options size size 0 (with_offered_ip s ip)) [
      | none ↦ none
      | some s' ↦ some (with_got s' s'.got_offer true)
    ])
    else some s

unfoldable pub dhcp_receive : List ℕ → (our_mac : List ℕ) → Dhcp → Option Dhcp
dhcp_receive d our_mac s =
    let size = length d - 240 in
    if ltb (length d) 240
    then some s
    else and_then (get_elem? d 0) (λ op.
      if not (op == 2)
      then some s
      else read_u32 d 4 (λ xid.
        if not (ntohl xid == s.xid)
        then some s
        else same_mac d our_mac 28 s (λ s. read_u32 d 236 (λ magic.
          if not (ntohl magic == 1669485411)
          then some s
          else message_type (drop 240 d) size size 0 0 (λ m. on_message d m s)))))
