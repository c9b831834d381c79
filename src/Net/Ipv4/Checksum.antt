-- ===== src/Net/Ipv4/Checksum.antt =====
-- The Internet checksum of src/net/ipv4.cpp.
use uni_os.Prelude.{
  ℕ, ◌+◌, ◌*◌, ◌/◌, ◌%◌, ◌^◌, ◌≤◌, ◌<◌, ◌≡◌, ◌∙◌, List, [], ◌∷◌, arith, length, All,
}
use uni_os.Net.Ipv4.{sum_words, fold_sum, fold_fuel, ipv4_checksum}

-- The sum of the 16-bit words of a packet, low byte first, an odd last byte as a word.
unfoldable pub word_sum : List ℕ → ℕ
word_sum [] = 0
word_sum (a ∷ []) = a
word_sum (a ∷ b ∷ rest) = a + b * 256 + word_sum rest

abbrev pub IsByte : ℕ → Type 0
IsByte b = b < 256

word_sum-le : (bytes : List ℕ) → All IsByte bytes → word_sum bytes ≤ 65535 * length bytes
unfolding word_sum
word_sum-le [] h = omega arith
word_sum-le (a ∷ []) h = omega arith
word_sum-le (a ∷ b ∷ rest) h = omega (arith, word_sum-le rest h.1.1)

-- The sum in the `uint32_t` does not wrap where the whole sum fits.
sum_words-eq :
    (bytes : List ℕ) (sum : ℕ)
    → sum + word_sum bytes < 2 ^ 32
    → sum_words sum bytes ≡ sum + word_sum bytes
unfolding word_sum sum_words
sum_words-eq [] sum h = omega arith
sum_words-eq (a ∷ []) sum h = omega arith
sum_words-eq (a ∷ b ∷ rest) sum h =
    let e : (sum + (a + b * 256)) % 2 ^ 32 ≡ sum + (a + b * 256) = omega arith in
    rw e (sum_words-eq rest (sum + (a + b * 256)) (omega arith) ∙ omega arith)

-- Three rounds bring any `uint32_t` below 2 ^ 16, and keep it modulo 65535.
fold_sum_lem :
    (sum : ℕ)
    → sum < 2 ^ 32
    → (fold_sum fold_fuel sum < 2 ^ 16) × (fold_sum fold_fuel sum % 65535 ≡ sum % 65535)
unfolding fold_sum
fold_sum_lem sum h = ground arith

pub ipv4_checksum-lt : (bytes : List ℕ) → ipv4_checksum bytes < 2 ^ 16
unfolding ipv4_checksum
ipv4_checksum-lt bytes = omega arith

-- For a packet of bytes the folding loop has ended within its fuel, and the checksum, added to the
-- words of the packet, makes a multiple of 65535, which is zero in ones' complement arithmetic: a
-- receiver that sums packet and checksum accepts.
pub ipv4_checksum_lem :
    (bytes : List ℕ)
    → All IsByte bytes
    → length bytes < 2 ^ 16
    → (fold_sum fold_fuel (sum_words 0 bytes) / 2 ^ 16 ≡ 0)
      × ((word_sum bytes + ipv4_checksum bytes) % 65535 ≡ 0)
unfolding ipv4_checksum
ipv4_checksum_lem bytes b h =
    omega (arith, word_sum-le bytes b, sum_words-eq bytes 0, fold_sum_lem (sum_words 0 bytes))
