-- ===== src/Net/Dns.antt =====
-- src/net/dns.cpp and include/kernel/net/dns.h: addresses in text, the query of the resolver and the
-- reading of an answer. A string is the list of its characters without the zero at its end. A read of
-- the answer outside its bytes is a fault, and so is a loop that is left for want of fuel.
pub mod Answer
pub mod Name
pub mod Encode
use uni_os.Prelude.{
  ℕ, zero, suc, ◌+◌, ◌-◌, ◌*◌, ◌/◌, ◌%◌, ◌^◌, ◌<◌, Bool, true, false, not, ◌&&◌, ◌||◌, Option, none,
  some, List, [], ◌∷◌, ◌++◌, ltb, leb, ◌==◌, if◌then◌else◌, length, get_elem?,
}
use uni_os.Net.Bytes.{htons}

abbrev pub dns_max_name_len : ℕ
dns_max_name_len = 256

abbrev pub dns_header_size : ℕ
dns_header_size = 12

abbrev pub dot : ℕ
dot = 46

-- The loop of dns_is_ip_address.
unfoldable pub is_ip_from : (dots : ℕ) → (has_digit : Bool) → (octet_value : ℕ) → List ℕ → Bool
is_ip_from dots has_digit octet_value [] = dots == 3 && has_digit
is_ip_from dots has_digit octet_value (c ∷ str) =
    let value = octet_value * 10 + (c - 48) in
    let digit = is_ip_from dots true value str in
    let next = is_ip_from (dots + 1) false 0 str in
    if leb 48 c && leb c 57
    then (if ltb 255 value then false else digit)
    else if c == dot
    then (if not has_digit then false else next)
    else false

unfoldable pub dns_is_ip_address : List ℕ → Bool
dns_is_ip_address [] = false
dns_is_ip_address (c ∷ str) = is_ip_from 0 false 0 (c ∷ str)

-- What dns_parse_response comes to: its answer, or a fault.
pub data Reply : Type 0 where
  fault : Reply
  answer : ℕ → Reply

abbrev pub on_byte : Option ℕ → (ℕ → Reply) → Reply
on_byte none next = fault
on_byte (some b) next = next b

abbrev pub with_byte : List ℕ → ℕ → (ℕ → Reply) → Reply
with_byte d i next = on_byte (get_elem? d i) next

-- `(d[i] << 8) | d[i + 1]`.
unfoldable pub with_u16 : List ℕ → ℕ → (ℕ → Reply) → Reply
with_u16 d i next = with_byte d i (λ high. with_byte d (i + 1) (λ low. next (high * 256 + low)))

-- The loop that skips a name.
unfoldable pub skip_name : ℕ → List ℕ → (length pos : ℕ) → (ℕ → Reply) → Reply
skip_name zero d length pos next = if ltb pos length then fault else next pos
skip_name (suc fuel) d length pos next =
    if not (ltb pos length)
    then next pos
    else with_byte d pos (λ len.
      if len == 0
      then next (pos + 1)
      else if len / 64 == 3
      then (if leb length (pos + 1) then answer 0 else next (pos + 2))
      else if ltb length (pos + 1 + len)
      then answer 0
      else skip_name fuel d length (pos + (len + 1)) next)

-- The loop over the questions, with the number that are left.
unfoldable pub skip_questions : (left : ℕ) → List ℕ → (length pos : ℕ) → (ℕ → Reply) → Reply
skip_questions zero d length pos next = next pos
skip_questions (suc left) d length pos next =
    if not (ltb pos length)
    then next pos
    else skip_name length d length pos (λ pos.
      if ltb length (pos + 4) then answer 0 else skip_questions left d length (pos + 4) next)

-- The loop over the answers: the address of the first one of type A with four bytes.
unfoldable pub find_address : (left : ℕ) → List ℕ → (length pos : ℕ) → Reply
find_address zero d length pos = answer 0
find_address (suc left) d length pos =
    if not (ltb pos length)
    then answer 0
    else skip_name length d length pos (λ pos.
      if ltb length (pos + 10)
      then answer 0
      else with_u16 d pos (λ type. with_u16 d (pos + 8) (λ rdlength.
        if type == 1 && rdlength == 4 && leb (pos + 10 + 4) length
        then with_byte d (pos + 10) (λ a. with_byte d (pos + 11) (λ b.
          with_byte d (pos + 12)
            (λ c. with_byte d (pos + 13) (λ e. answer (a + b * 256 + c * 2 ^ 16 + e * 2 ^ 24)))))
        else if ltb length (pos + 10 + rdlength)
        then answer 0
        else find_address left d length (pos + 10 + rdlength))))

unfoldable pub dns_parse_response : (transaction_id : ℕ) → List ℕ → (length : ℕ) → Reply
dns_parse_response transaction_id d length =
    if ltb length dns_header_size
    then answer 0
    else with_u16 d 0 (λ id.
      if not (id == transaction_id)
      then answer 0
      else with_u16 d 2 (λ flags.
        if flags / 2 ^ 15 % 2 == 0
        then answer 0
        else if not (flags % 16 == 0)
        then answer 0
        else with_u16 d 4 (λ qdcount. with_u16 d 6 (λ ancount.
          if ancount == 0
          then answer 0
          else skip_questions qdcount d length dns_header_size
              (λ pos. find_address ancount d length pos)))))

-- The loop of dns_encode_name, with the labels that are written and the one that is being written. The
-- place of its length is the byte between them.
unfoldable pub encode_from : (written label : List ℕ) → List ℕ → Option (List ℕ)
encode_from written label [] =
    if length label == 0 then none else some (written ++ (length label ∷ (label ++ (0 ∷ []))))
encode_from written label (c ∷ hostname) =
    let written' = written ++ (length label ∷ label) in
    let pos = length written + 1 + length label in
    let next = encode_from written' [] hostname in
    let longer = encode_from written (label ++ (c ∷ [])) hostname in
    if c == dot
    then (if length label == 0
        then none
        else if leb dns_max_name_len (length written' + 1)
        then none
        else next)
    else if leb 63 (length label) || leb dns_max_name_len pos
    then none
    else longer

-- `none` for the answer 0.
unfoldable pub dns_encode_name : List ℕ → Option (List ℕ)
dns_encode_name [] = none
dns_encode_name (c ∷ hostname) = encode_from [] [] (c ∷ hostname)

-- The bytes of the query, if the name can be encoded, and the next identifier.
unfoldable pub dns_build_query : List ℕ → (transaction_id : ℕ) → Option (List ℕ) × ℕ
dns_build_query hostname transaction_id =
    let id = (transaction_id + 1) % 2 ^ 16 in
    let header = id / 256 ∷ id % 256 ∷ 1 ∷ 0 ∷ 0 ∷ 1 ∷ 0 ∷ 0 ∷ 0 ∷ 0 ∷ 0 ∷ 0 ∷ [] in
    (
      elim (dns_encode_name hostname) [
        | none ↦ none
        | some name ↦ if leb (length name) 1 then none else some (header ++ (name ++ (1 ∷ 1 ∷ [])))
      ],
      id,
    )
