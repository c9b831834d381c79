-- ===== src/Net/Dhcp/Receive.antt =====
-- src/net/dhcp.cpp: which bytes of a packet dhcp_receive reads.
use uni_os.Prelude.{
  ℕ, zero, suc, ◌+◌, ◌-◌, ◌*◌, ◌^◌, ◌<◌, ◌≤◌, ◌≡◌, inl, inr, refl, arith, Bool, true, false, not,
  ◌&&◌, Bool-cases, Option, none, some, List, [], ◌∷◌, ltb, leb, ◌==◌, if◌then◌else◌, length,
  get_elem?, drop, length-drop,
}
use mathlib.Core.Path.{subst}
use uni_os.Net.Bytes.{ntohl}
use uni_os.Net.Dhcp.{
  Dhcp, and_then, read_u32, set_option, with_subnet_mask, with_gateway, with_dns, with_server_ip,
  with_offered_ip, with_got, dhcp_parse_options, message_type, same_mac, on_message, dhcp_receive,
}

-- No byte outside the packet is read, and no loop runs out of fuel.
abbrev pub IsRead : Option Dhcp → Type 0
IsRead none = ⊥
IsRead (some s) = Unit {0}

IsRead-if : (b : Bool) (x y : Option Dhcp) → IsRead x → IsRead y → IsRead (if b then x else y)
IsRead-if true x y h k = h
IsRead-if false x y h k = k

-- The second branch, where the test answers false.
IsRead-else :
    (b : Bool) (x y : Option Dhcp) → IsRead x → (b ≡ false → IsRead y) → IsRead (if b then x else y)
IsRead-else true x y h k = h
IsRead-else false x y h k = k refl

module _ (d : List ℕ) where
  and_then-IsRead :
      (l : List ℕ) (i : ℕ) (next : ℕ → Option Dhcp)
      → i < length l
      → ((b : ℕ) → IsRead (next b))
      → IsRead (and_then (get_elem? l i) next)
  unfolding and_then
  and_then-IsRead [] i next lt h = absurd (omega arith)
  and_then-IsRead (x ∷ l) zero next lt h = h x
  and_then-IsRead (x ∷ l) (suc i) next lt h = and_then-IsRead l i next (omega arith) h

  read_u32-IsRead :
      (i : ℕ) (next : ℕ → Option Dhcp)
      → i + 3 < length d
      → ((v : ℕ) → IsRead (next v))
      → IsRead (read_u32 d i next)
  unfolding read_u32
  read_u32-IsRead i next lt h = and_then-IsRead d i _ (omega arith) (λ a.
      and_then-IsRead d (i + 1) _ (omega arith) (λ b.
        and_then-IsRead d (i + 2) _ (omega arith)
          (λ c. and_then-IsRead d (i + 3) _ lt (λ e. h (a + b * 2 ^ 8 + c * 2 ^ 16 + e * 2 ^ 24)))))

  set_option-IsRead :
      (opt len i : ℕ) (s : Dhcp) (next : Dhcp → Option Dhcp)
      → i + len ≤ length d
      → ((s' : Dhcp) → IsRead (next s'))
      → IsRead (set_option d opt len i s next)
  unfolding set_option
  set_option-IsRead opt len i s next le h = IsRead-else (not (leb 4 len)) _ _ (h s) (λ e.
      let four : i + 3 < length d = ground (arith, e, le) in
      IsRead-if (opt == 1) _ _ (read_u32-IsRead i _ four (λ v. h (with_subnet_mask s v))) (
        IsRead-if (opt == 3) _ _ (read_u32-IsRead i _ four (λ v. h (with_gateway s v))) (
          IsRead-if (opt == 6) _ _ (read_u32-IsRead i _ four (λ v. h (with_dns s v))) (
            IsRead-if (opt == 54) _ _ (read_u32-IsRead i _ four (λ v. h (with_server_ip s v)))
              (h s)))))

  dhcp_parse_options-IsRead :
      (fuel i : ℕ) (s : Dhcp)
      → length d ≤ i + fuel
      → IsRead (dhcp_parse_options d (length d) fuel i s)
  unfolding dhcp_parse_options
  dhcp_parse_options-IsRead zero i s enough =
      let e : ltb i (length d) ≡ false = ground (arith, enough) in rw e tt
  dhcp_parse_options-IsRead (suc fuel) i s enough =
      IsRead-else (not (ltb i (length d))) _ _ tt (λ more.
        and_then-IsRead d i _ (ground (arith, more)) (λ opt.
          IsRead-if (opt == 0) _ _
            (dhcp_parse_options-IsRead fuel (i + 1) s (omega (arith, enough)))
            (IsRead-if (opt == 255) _ _ tt (
              IsRead-else (leb (length d) (i + 1)) _ _ tt (λ two.
                and_then-IsRead d (i + 1) _ (ground (arith, two)) (λ len.
                  IsRead-else (ltb (length d - (i + 2)) len) _ _ tt (λ whole.
                    set_option-IsRead opt len (i + 2) s _ (ground (arith, whole, two)) (λ s'.
                      dhcp_parse_options-IsRead fuel (i + 2 + len) s'
                        (omega (arith, enough))))))))))

  message_type-IsRead :
      (fuel i msg_type : ℕ) (next : ℕ → Option Dhcp)
      → length d ≤ i + fuel
      → ((m : ℕ) → IsRead (next m))
      → IsRead (message_type d (length d) fuel i msg_type next)
  unfolding message_type
  message_type-IsRead zero i msg_type next enough h =
      let e : ltb i (length d) ≡ false = ground (arith, enough) in rw e (h msg_type)
  message_type-IsRead (suc fuel) i msg_type next enough h =
      IsRead-else (not (ltb i (length d))) _ _ (h msg_type) (λ more.
        and_then-IsRead d i _ (ground (arith, more)) (λ code.
          IsRead-if (code == 0) _ _
            (message_type-IsRead fuel (i + 1) msg_type next (omega (arith, enough)) h)
            (IsRead-if (code == 255) _ _ (h msg_type) (
              IsRead-else (leb (length d) (i + 1)) _ _ (h msg_type) (λ two.
                and_then-IsRead d (i + 1) _ (ground (arith, two)) (λ len.
                  IsRead-else (ltb (length d - (i + 2)) len) _ _ (h msg_type) (λ whole.
                    elim (Bool-cases (code == 53 && leb 1 len)) [
                      | inl e ↦ rw e (
                          and_then-IsRead d (i + 2) _ (ground (arith, whole, two, e)) (λ m.
                            message_type-IsRead fuel (i + 2 + len) m next (omega (arith, enough))
                              h))
                      | inr e ↦ rw e (
                          message_type-IsRead fuel (i + 2 + len) msg_type next
                            (omega (arith, enough)) h)
                    ])))))))

  same_mac-IsRead :
      (our_mac : List ℕ) (i : ℕ) (s : Dhcp) (next : Dhcp → Option Dhcp)
      → i + length our_mac ≤ length d
      → IsRead (next s)
      → IsRead (same_mac d our_mac i s next)
  unfolding same_mac
  same_mac-IsRead [] i s next le h = h
  same_mac-IsRead (m ∷ our_mac) i s next le h =
      and_then-IsRead d i _ (omega arith)
        (λ b. IsRead-if (b == m) _ _ (same_mac-IsRead our_mac (i + 1) s next (omega arith) h) tt)

IsRead-elim :
    (o : Option Dhcp) (f : Dhcp → Dhcp)
    → IsRead o
    → IsRead (elim o [ none ↦ none | some s ↦ some (f s) ])
IsRead-elim none f h = h
IsRead-elim (some s) f h = tt

options-IsRead :
    (d : List ℕ) (s : Dhcp)
    → IsRead (dhcp_parse_options (drop 240 d) (length d - 240) (length d - 240) 0 s)
options-IsRead d s =
    subst (λ n. IsRead (dhcp_parse_options (drop 240 d) n n 0 s)) (length-drop 240 d)
      (dhcp_parse_options-IsRead (drop 240 d) (length (drop 240 d)) 0 s (omega arith))

on_message-IsRead : (d : List ℕ) (m : ℕ) (s : Dhcp) → 240 ≤ length d → IsRead (on_message d m s)
unfolding on_message
on_message-IsRead d m s le =
    IsRead-if (m == 2) _ _
      (read_u32-IsRead d 16 _ (omega (arith, le)) (λ ip.
        IsRead-elim _ (λ s'. with_got s' true s'.got_ack)
          (options-IsRead d (with_offered_ip s ip))))
      (IsRead-if (m == 5) _ _
        (read_u32-IsRead d 16 _ (omega (arith, le)) (λ ip.
          IsRead-elim _ (λ s'. with_got s' s'.got_offer true)
            (options-IsRead d (with_offered_ip s ip))))
        tt)

-- Whatever the bytes of a packet are, and with a hardware address of six bytes, dhcp_receive reads none
-- outside the packet, and its loops over the options come to their end within as many rounds as there
-- are bytes of options.
pub dhcp_receive-IsRead :
    (d our_mac : List ℕ) (s : Dhcp) → length our_mac ≡ 6 → IsRead (dhcp_receive d our_mac s)
unfolding dhcp_receive
dhcp_receive-IsRead d our_mac s six = IsRead-else (ltb (length d) 240) _ _ tt (λ e.
    let le : 240 ≤ length d = ground (arith, e) in
    let rest = drop 240 d in
    and_then-IsRead d d 0 _ (omega (arith, le)) (λ op. IsRead-if (not (op == 2)) _ _ tt (
      read_u32-IsRead d 4 _ (omega (arith, le)) (λ xid.
        IsRead-if (not (ntohl xid == s.xid)) _ _ tt (
          same_mac-IsRead d our_mac 28 s _ (omega (arith, le, six)) (
            read_u32-IsRead d 236 _ (omega (arith, le)) (λ magic.
              IsRead-if (not (ntohl magic == 1669485411)) _ _ tt (
                subst (λ n. IsRead (message_type rest n n 0 0 (λ m. on_message d m s)))
                  (length-drop 240 d)
                  (message_type-IsRead rest (length rest) 0 0 (λ m. on_message d m s) (omega arith)
                    (λ m. on_message-IsRead d m s le))))))))))
