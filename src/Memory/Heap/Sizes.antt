-- ===== src/Memory/Heap/Sizes.antt =====
-- src/mm/heap.cpp: the sizes of blocks.
use uni_os.Prelude.{
  ℕ, zero, suc, ◌+◌, ◌-◌, ◌*◌, ◌/◌, ◌^◌, ◌<◌, ◌≤◌, ◌≡◌, inl, inr, refl, ap, ◌∙◌, arith, false,
  Bool-cases, Option, none, some, ltb, leb, ◌==◌,
}
use native.Mathlib.Nat.{pow-le-pow_right}
use uni_os.Memory.Heap.{bit_width, get_bucket_index, get_bucket_size}

bit_width_zero : (fuel : ℕ) → bit_width fuel 0 ≡ 0
unfolding bit_width
bit_width_zero zero = refl
bit_width_zero (suc fuel) = refl

bit_width_half : (fuel n : ℕ) → 0 < n → bit_width (suc fuel) n ≡ suc (bit_width fuel (n / 2))
unfolding bit_width
bit_width_half fuel n h = let not_zero : (n == 0) ≡ false = ground (arith, h) in rw not_zero refl

double : (n k : ℕ) → n / 2 < 2 ^ k → 2 ^ k ≤ 2 * (n / 2) → (n < 2 ^ suc k) × (2 ^ suc k ≤ 2 * n)
double n k h l = (omega (arith, h), omega (arith, l))

-- The number of bits is that of the power of two above n, and the one below is at most n.
bit_width-bounds :
    (fuel n : ℕ)
    → n < 2 ^ fuel
    → 0 < n
    → (n < 2 ^ bit_width fuel n) × (2 ^ bit_width fuel n ≤ 2 * n)
bit_width-bounds zero n lt some_bits = absurd (omega arith)
bit_width-bounds (suc fuel) n lt some_bits = elim (Bool-cases (n / 2 == 0)) [
  | inl e ↦
      let one : n ≡ 1 = ground (arith, e, some_bits) in
      rw (bit_width_half fuel n some_bits, one, bit_width_zero fuel) (omega arith, omega arith)
  | inr e ↦
      let (a, b) = bit_width-bounds fuel (n / 2) (omega arith) (ground (arith, e)) in
      rw (bit_width_half fuel n some_bits) (double n (bit_width fuel (n / 2)) a b)
]

pow_lt : (a b : ℕ) → 2 ^ a < 2 ^ b → a < b
pow_lt a b h = elim (Bool-cases (ltb a b)) [
  | inl e ↦ ground (arith, e)
  | inr e ↦
      let le : b ≤ a = ground (arith, e) in
      let powers = pow-le-pow_right {n = 2} (omega arith) {i = b} {j = a} le in
      absurd (omega (arith, h, powers))
]

-- The list of a size of at most 4096 bytes is one of the eight, its blocks are large enough, and those
-- of the lists before are not.
abbrev pub IsBucket : (size : ℕ) → Option ℕ → Type 0
IsBucket size none = 4096 < size
IsBucket size (some i) =
    (size ≤ 4096)
    × (i < 8)
    × (size ≤ get_bucket_size i)
    × ((j : ℕ) → j < i → get_bucket_size j < size)

pow_five : (i : ℕ) → 2 ^ (i + 5) ≡ 32 * 2 ^ i
pow_five i =
    let one_by_one : 2 ^ suc (suc (suc (suc (suc i)))) ≡ 32 * 2 ^ i = omega arith in
    ap (λ n. 2 ^ n) (omega arith) ∙ one_by_one

pow_six : (i : ℕ) → 2 ^ (i + 6) ≡ 64 * 2 ^ i
pow_six i =
    let one_more : 2 ^ suc (i + 5) ≡ 2 * 2 ^ (i + 5) = omega arith in
    ap (λ n. 2 ^ n) (omega arith) ∙ one_more ∙ omega (arith, pow_five i)

bits-IsBucket :
    (size k : ℕ)
    → 32 < size
    → size ≤ 4096
    → size - 1 < 2 ^ k
    → 2 ^ k ≤ 2 * (size - 1)
    → IsBucket size (some (k - 5))
bits-IsBucket size k low high a b =
    let above = pow_lt 5 k (omega (arith, low, a)) in
    let below = pow_lt k 13 (omega (arith, high, b)) in
    let whole : 2 ^ (k - 5 + 5) ≡ 2 ^ k = ap (λ n. 2 ^ n) (omega (arith, above)) in
    (
      high,
      omega (arith, above, below),
      omega (arith, whole, a, pow_five (k - 5)),
      λ j lt.
          let powers =
            pow-le-pow_right {n = 2} (omega arith) {i = j + 6} {j = k} (omega (arith, lt)) in
          omega (arith, powers, b, pow_six j),
    )

-- get_bucket_index of a size answers -1 just for more than 4096 bytes; else the first of the eight
-- lists of which the blocks are as large as the size.
pub get_bucket_index-IsBucket : (size : ℕ) → IsBucket size (get_bucket_index size)
unfolding get_bucket_index
get_bucket_index-IsBucket size = elim (Bool-cases (leb size 32)) [
  | inl e ↦ rw e (ground (arith, e), omega arith, ground (arith, e), λ j lt. absurd (omega arith))
  | inr e ↦ elim (Bool-cases (ltb 4096 size)) [
    | inl e' ↦ rw (e, e') (ground (arith, e'))
    | inr e' ↦
        let low : 32 < size = ground (arith, e) in
        let high : size ≤ 4096 = ground (arith, e') in
        let (a, b) = bit_width-bounds 64 (size - 1) (omega (arith, high)) (omega (arith, low)) in
        rw (e, e') (bits-IsBucket size (bit_width 64 (size - 1)) low high a b)
  ]
]
