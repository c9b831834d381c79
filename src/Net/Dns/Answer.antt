-- ===== src/Net/Dns/Answer.antt =====
-- src/net/dns.cpp: which bytes of an answer are read.
use uni_os.Prelude.{
  ℕ, zero, suc, ◌+◌, ◌*◌, ◌/◌, ◌%◌, ◌^◌, ◌<◌, ◌≤◌, ◌≡◌, arith, false, ◌&&◌, Bool-cases, List, [],
  ◌∷◌, ltb, leb, ◌==◌, length, get_elem?, inl, inr,
}
use uni_os.Net.Dns.{
  Reply, fault, answer, on_byte, with_byte, with_u16, skip_name, skip_questions, find_address,
  dns_parse_response,
}

-- No byte outside the answer is read, and no loop runs out of fuel.
abbrev pub IsSafe : Reply → Type 0
IsSafe fault = ⊥
IsSafe (answer ip) = Unit

module _ (d : List ℕ) where
  on_byte-IsSafe :
      (l : List ℕ) (i : ℕ) (next : ℕ → Reply)
      → i < length l
      → ((b : ℕ) → IsSafe (next b))
      → IsSafe (on_byte (get_elem? l i) next)
  on_byte-IsSafe [] i next lt h = absurd (omega arith)
  on_byte-IsSafe (x ∷ l) zero next lt h = h x
  on_byte-IsSafe (x ∷ l) (suc i) next lt h = on_byte-IsSafe l i next (omega arith) h

  with_byte-IsSafe :
      (i : ℕ) (next : ℕ → Reply)
      → i < length d
      → ((b : ℕ) → IsSafe (next b))
      → IsSafe (with_byte d i next)
  with_byte-IsSafe i next lt h = on_byte-IsSafe d i next lt h

  with_u16-IsSafe :
      (i : ℕ) (next : ℕ → Reply)
      → i + 1 < length d
      → ((v : ℕ) → IsSafe (next v))
      → IsSafe (with_u16 d i next)
  unfolding with_u16
  with_u16-IsSafe i next lt h =
      with_byte-IsSafe i _ (omega arith)
        (λ high. with_byte-IsSafe (i + 1) _ lt (λ low. h (high * 256 + low)))

  skip_name-IsSafe :
      (fuel pos : ℕ) (next : ℕ → Reply)
      → length d ≤ pos + fuel
      → ((p : ℕ) → IsSafe (next p))
      → IsSafe (skip_name fuel d (length d) pos next)
  unfolding skip_name
  skip_name-IsSafe zero pos next enough h =
      let e : ltb pos (length d) ≡ false = ground arith in rw e (h pos)
  skip_name-IsSafe (suc fuel) pos next enough h = elim (Bool-cases (ltb pos (length d))) [
    | inr end ↦ rw end (h pos)
    | inl more ↦ rw more (
        with_byte-IsSafe pos _ (ground arith) (λ len. elim (Bool-cases (len == 0)) [
          | inl last ↦ rw last (h (pos + 1))
          | inr label ↦ elim (Bool-cases (len / 64 == 3)) [
            | inl pointer ↦ elim (Bool-cases (leb (length d) (pos + 1))) [
              | inl cut ↦ rw (label, pointer, cut) tt
              | inr whole ↦ rw (label, pointer, whole) (h (pos + 2))
            ]
            | inr plain ↦ elim (Bool-cases (ltb (length d) (pos + 1 + len))) [
              | inl cut ↦ rw (label, plain, cut) tt
              | inr whole ↦
                  rw (label, plain, whole)
                    (skip_name-IsSafe fuel (pos + (len + 1)) next (omega arith) h)
            ]
          ]
        ]))
  ]

  skip_questions-IsSafe :
      (left pos : ℕ) (next : ℕ → Reply)
      → ((p : ℕ) → IsSafe (next p))
      → IsSafe (skip_questions left d (length d) pos next)
  unfolding skip_questions
  skip_questions-IsSafe zero pos next h = h pos
  skip_questions-IsSafe (suc left) pos next h = elim (Bool-cases (ltb pos (length d))) [
    | inr end ↦ rw end (h pos)
    | inl more ↦ rw more (
        skip_name-IsSafe (length d) pos _ (omega arith) (λ p.
          elim (Bool-cases (ltb (length d) (p + 4))) [
            | inl cut ↦ rw cut tt
            | inr whole ↦ rw whole (skip_questions-IsSafe left (p + 4) next h)
          ]))
  ]

  address_at :
      (p : ℕ)
      → p + 13 < length d
      → IsSafe (
          with_byte d (p + 10) (λ a. with_byte d (p + 11) (λ b.
            with_byte d
              (p + 12)
              (λ c. with_byte d (p + 13) (λ e. answer (a + b * 256 + c * 2 ^ 16 + e * 2 ^ 24))))))
  address_at p lt = with_byte-IsSafe (p + 10) _ (omega arith) (λ a.
      with_byte-IsSafe (p + 11) _ (omega arith) (λ b.
        with_byte-IsSafe (p + 12) _ (omega arith) (λ c. with_byte-IsSafe (p + 13) _ lt (λ e. tt))))

  find_address-IsSafe : (left pos : ℕ) → IsSafe (find_address left d (length d) pos)
  unfolding find_address
  find_address-IsSafe zero pos = tt
  find_address-IsSafe (suc left) pos = elim (Bool-cases (ltb pos (length d))) [
    | inr end ↦ rw end tt
    | inl more ↦ rw more (
        skip_name-IsSafe (length d) pos _ (omega arith) (λ p.
          elim (Bool-cases (ltb (length d) (p + 10))) [
            | inl cut ↦ rw cut tt
            | inr whole ↦
                let fits : p + 10 ≤ length d = ground arith in
                rw whole (
                  with_u16-IsSafe p _ (omega arith) (λ type.
                    with_u16-IsSafe (p + 8) _ (omega arith) (λ rdlength.
                      elim (Bool-cases
                        (type == 1 && rdlength == 4 && leb (p + 10 + 4) (length d))) [
                          | inl found ↦ rw found (address_at p (ground arith))
                          | inr other ↦ elim (Bool-cases (ltb (length d) (p + 10 + rdlength))) [
                            | inl cut ↦ rw (other, cut) tt
                            | inr next ↦
                                rw (other, next) (find_address-IsSafe left (p + 10 + rdlength))
                          ]
                        ])))
          ]))
  ]

-- dns_parse_response of a whole answer, whatever its bytes are, reads none outside it, and its loops end
-- within their fuel, the length of the answer for each name, so that it comes to an address or to 0.
pub dns_parse_response-IsSafe :
    (transaction_id : ℕ) (d : List ℕ) → IsSafe (dns_parse_response transaction_id d (length d))
unfolding dns_parse_response
dns_parse_response-IsSafe transaction_id d = elim (Bool-cases (ltb (length d) 12)) [
  | inl short ↦ rw short tt
  | inr long ↦
      let fits : 12 ≤ length d = ground arith in
      rw long (
        with_u16-IsSafe d 0 _ (omega arith) (λ id. elim (Bool-cases (id == transaction_id)) [
          | inr other ↦ rw other tt
          | inl ours ↦ rw ours (
              with_u16-IsSafe d 2 _ (omega arith) (λ flags.
                elim (Bool-cases (flags / 2 ^ 15 % 2 == 0)) [
                  | inl query ↦ rw query tt
                  | inr response ↦ elim (Bool-cases (flags % 16 == 0)) [
                    | inr failed ↦ rw (response, failed) tt
                    | inl fine ↦
                        rw (response, fine)
                          (with_u16-IsSafe d 4 _ (omega arith) (λ qdcount.
                            with_u16-IsSafe d 6 _ (omega arith) (λ ancount.
                              elim (Bool-cases (ancount == 0)) [
                                | inl empty ↦ rw empty tt
                                | inr answers ↦ rw answers (
                                    skip_questions-IsSafe d qdcount 12 _
                                      (λ pos. find_address-IsSafe d ancount pos))
                              ])))
                  ]
                ]))
        ]))
]
