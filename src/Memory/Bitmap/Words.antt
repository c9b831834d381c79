-- ===== src/Memory/Bitmap/Words.antt =====
-- src/mm/bitmap.cpp: the words of eight bytes that the search reads at once.
use uni_os.Prelude.{
  ℕ, zero, suc, ◌+◌, ◌-◌, ◌*◌, ◌/◌, ◌%◌, ◌^◌, ◌≤◌, ◌<◌, ◌≡◌, ◌≢◌, refl, Bool, true, false, List,
  arith, ◌==◌, get_or, Bool-cases, inl, inr,
}
use uni_os.Memory.Bitmap.{raw_test, qword, all_ones, ctz}
use uni_os.Memory.Bitmap.Bits.{test_bit-digit}
use uni_os.Memory.Bitmap.Write.{IsByte, IsBuffer, IsByte-get_or}

-- The low `n` binary digits of `w` are the bits from `i` on, and it has no more.
unfoldable pub Matches : (ℕ → Bool) → ℕ → ℕ → ℕ → Type 0
Matches p i zero w = w ≡ 0
Matches p i (suc n) w = (p i ≡ (w % 2 == 1)) × Matches p (i + 1) n (w / 2)

ones : ℕ → ℕ
ones zero = 0
ones (suc n) = 2 * ones n + 1

pow_step : (m b : ℕ) → 2 ^ suc m * b ≡ 2 * (2 ^ m * b)
pow_step m b = grind arith

double : (a b m : ℕ) → (a + 2 ^ suc m * b) / 2 ≡ a / 2 + 2 ^ m * b
double a b m = grind arith

parity : (a b m : ℕ) → (a + 2 ^ suc m * b) % 2 ≡ a % 2
parity a b m = omega (arith, pow_step m b)

Matches-append :
    (p : ℕ → Bool) (i m n low high : ℕ)
    → Matches p i m low
    → Matches p (i + m) n high
    → Matches p i (m + n) (low + 2 ^ m * high)
unfolding Matches
Matches-append p i zero n low high h k =
    let e : low + 2 ^ 0 * high ≡ high = grind arith in
    let f : zero + n ≡ n = omega arith in let g : i ≡ i + 0 = omega arith in rw (e, f, g) k
Matches-append p i (suc m) n low high h k =
    let f : suc m + n ≡ suc (m + n) = omega arith in
    let g : i + 1 + m ≡ i + suc m = omega arith in
    rw (f, parity low high m, double low high m)
      (h.0, Matches-append p (i + 1) m n (low / 2) high h.1 (rw g k))

byte_digit :
    (buffer : List ℕ) (k j x w : ℕ)
    → IsByte (get_or buffer k 0)
    → j < 8
    → x ≡ 8 * k + j
    → w ≡ get_or buffer k 0 / 2 ^ j
    → raw_test buffer x ≡ (w % 2 == 1)
unfolding raw_test
byte_digit buffer k j x w h lt at e =
    let q : x / 8 ≡ k = omega arith in
    let r : x % 8 ≡ j = omega arith in rw (q, r, e) (test_bit-digit (get_or buffer k 0) j h lt)

Matches-byte :
    (buffer : List ℕ) (i k : ℕ)
    → IsByte (get_or buffer k 0)
    → i ≡ 8 * k
    → Matches (raw_test buffer) i 8 (get_or buffer k 0)
unfolding Matches
Matches-byte buffer i k h e =
    let digit = byte_digit buffer k in
    (
      digit 0 _ _ h (omega arith) (omega arith) (omega arith),
      (
        digit 1 _ _ h (omega arith) (omega arith) (omega arith),
        (
          digit 2 _ _ h (omega arith) (omega arith) (omega arith),
          (
            digit 3 _ _ h (omega arith) (omega arith) (omega arith),
            (
              digit 4 _ _ h (omega arith) (omega arith) (omega arith),
              (
                digit 5 _ _ h (omega arith) (omega arith) (omega arith),
                (
                  digit 6 _ _ h (omega arith) (omega arith) (omega arith),
                  (digit 7 _ _ h (omega arith) (omega arith) (omega arith), omega arith),
                ),
              ),
            ),
          ),
        ),
      ),
    )

Matches-then :
    (buffer : List ℕ) (i k n high : ℕ)
    → IsByte (get_or buffer k 0)
    → i ≡ 8 * k
    → Matches (raw_test buffer) (i + 8) n high
    → Matches (raw_test buffer) i (8 + n) (get_or buffer k 0 + 256 * high)
Matches-then buffer i k n high h e rest =
    Matches-append (raw_test buffer) i 8 n (get_or buffer k 0) high (Matches-byte buffer i k h e)
      rest

-- The word `q` has the bits from `64 * q` on as its digits.
pub Matches-qword :
    (size : ℕ) (buffer : List ℕ) (i q : ℕ)
    → IsBuffer size buffer
    → i ≡ 64 * q
    → Matches (raw_test buffer) i 64 (qword buffer q)
Matches-qword size buffer i q h e =
    let byte = λ (k : ℕ). IsByte-get_or buffer (q * 8 + k) h.bytes in
    let next = Matches-then buffer in
    next i (q * 8 + 0) 56 _ (byte 0) (omega arith) (
      next (i + 8) (q * 8 + 1) 48 _ (byte 1) (omega arith) (
        next (i + 8 + 8) (q * 8 + 2) 40 _ (byte 2) (omega arith) (
          next (i + 8 + 8 + 8) (q * 8 + 3) 32 _ (byte 3) (omega arith) (
            next (i + 8 + 8 + 8 + 8) (q * 8 + 4) 24 _ (byte 4) (omega arith) (
              next (i + 8 + 8 + 8 + 8 + 8) (q * 8 + 5) 16 _ (byte 5) (omega arith) (
                next (i + 8 + 8 + 8 + 8 + 8 + 8) (q * 8 + 6) 8 _ (byte 6) (omega arith) (
                  Matches-byte buffer (i + 8 + 8 + 8 + 8 + 8 + 8 + 8) (q * 8 + 7) (byte 7)
                    (omega arith))))))))

-- The bits from `a` up to `b` are set.
abbrev pub IsSetTo : (ℕ → Bool) → ℕ → ℕ → Type 0
IsSetTo p a b = (j : ℕ) → a ≤ j → j < b → p j ≡ true

pub IsSetTo-next : (p : ℕ → Bool) (a b : ℕ) → p a ≡ true → IsSetTo p (a + 1) b → IsSetTo p a b
IsSetTo-next p a b e h = λ j le lt. elim (Bool-cases (a == j)) [
  | inl same ↦ let f : j ≡ a = ground arith in rw f e
  | inr other ↦ h j (ground arith) lt
]

ones_match : (p : ℕ → Bool) (i n w : ℕ) → Matches p i n w → w ≡ ones n → IsSetTo p i (i + n)
unfolding Matches ones
ones_match p i zero w h e = λ j le lt. absurd (omega arith)
ones_match p i (suc n) w h e =
    let f : i + suc n ≡ i + 1 + n = omega arith in
    rw f (
      IsSetTo-next p i (i + 1 + n) (ground (arith, h.0))
        (ones_match p (i + 1) n (w / 2) h.1 (omega arith)))

Matches-bound : (p : ℕ → Bool) (i n w : ℕ) → Matches p i n w → w ≤ ones n
unfolding Matches ones
Matches-bound p i zero w h = omega arith
Matches-bound p i (suc n) w h = omega (arith, Matches-bound p (i + 1) n (w / 2) h.1)

-- `ctz` of the complement is the place of the first digit 0.
ctz_match :
    (p : ℕ → Bool) (i n w x : ℕ)
    → Matches p i n w
    → w ≢ ones n
    → x + w ≡ ones n
    → (p (i + ctz n x) ≡ false) × IsSetTo p i (i + ctz n x) × (ctz n x < n)
unfolding Matches ones ctz
ctz_match p i zero w x h ne e = absurd (ne h)
ctz_match p i (suc n) w x h ne e = elim (Bool-cases (x % 2 == 1)) [
  | inl stop ↦
      let z : i + 0 ≡ i = omega arith in
      rw (stop, z) (ground (arith, h.0), λ j le lt. absurd (omega arith), omega arith)
  | inr go ↦
      let odd : x % 2 ≡ 0 = ground arith in
      let (a, b, c) =
        ctz_match p (i + 1) n (w / 2) (x / 2) h.1 (λ same. ne (omega arith)) (omega arith) in
      let f : i + suc (ctz n (x / 2)) ≡ i + 1 + ctz n (x / 2) = omega arith in
      rw (go, f) (a, IsSetTo-next p i _ (ground (arith, h.0)) b, omega (arith, c))
]

ones_64 : all_ones ≡ ones 64
unfolding ones
ones_64 = refl

pub full_qword : (p : ℕ → Bool) (i w : ℕ) → Matches p i 64 w → w ≡ all_ones → IsSetTo p i (i + 64)
full_qword p i w h e = ones_match p i 64 w h (cc (e, ones_64))

pub free_qword :
    (p : ℕ → Bool) (i w : ℕ)
    → Matches p i 64 w
    → w ≢ all_ones
    → let c = ctz 64 (all_ones - w) in (p (i + c) ≡ false) × IsSetTo p i (i + c) × (c < 64)
free_qword p i w h ne =
    ctz_match p i 64 w (all_ones - w) h (λ e. ne (cc (e, ones_64)))
      (omega (arith, ones_64, Matches-bound p i 64 w h))
