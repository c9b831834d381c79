-- ===== src/Memory/Bitmap/Bits.antt =====
-- The bits of a byte, for src/mm/bitmap.cpp, checked over all bytes.
use uni_os.Prelude.{
  ℕ, zero, suc, ◌/◌, ◌%◌, ◌^◌, ◌<◌, ◌≡◌, refl, Bool, true, false, not, ◌&&◌, ◌||◌, arith, ltb, ◌==◌,
  if◌then◌else◌,
}
use uni_os.Memory.Bitmap.{test_bit, put_bit}

all_below : ℕ → (ℕ → Bool) → Bool
all_below zero p = true
all_below (suc n) p = p n && all_below n p

all_below_lem : (n : ℕ) (p : ℕ → Bool) (x : ℕ) → all_below n p ≡ true → x < n → p x ≡ true
unfolding all_below
all_below_lem zero p x h lt = absurd (omega arith)
all_below_lem (suc n) p x h lt = ground (arith, all_below_lem n p x)

same : Bool → Bool → Bool
same true b = b
same false b = not b

same-eq : (a b : Bool) → same a b ≡ true → a ≡ b
unfolding same
same-eq true true h = refl
same-eq true false h = cc
same-eq false true h = cc
same-eq false false h = refl

-- The tests of every bit of every byte after a write of any bit.
put_table :
    all_below 256 (λ byte. all_below 8 (λ k. all_below 8 (λ j.
      same (test_bit (put_bit byte k true) j) (k == j || test_bit byte j)
      && (same (test_bit (put_bit byte k false) j) (not (k == j) && test_bit byte j)
          && (ltb (put_bit byte k true) 256 && ltb (put_bit byte k false) 256)))))
    ≡ true
unfolding all_below same test_bit put_bit
put_table = refl

digit_table :
    all_below 256 (λ byte. all_below 8 (λ j. same (test_bit byte j) (byte / 2 ^ j % 2 == 1))) ≡ true
unfolding all_below same test_bit
digit_table = refl

pub test_bit-digit : (byte j : ℕ) → byte < 256 → j < 8 → test_bit byte j ≡ (byte / 2 ^ j % 2 == 1)
test_bit-digit byte j hb hj =
    same-eq _ _ (all_below_lem 8 _ j (all_below_lem 256 _ byte digit_table hb) hj)

-- A write of a bit shows at that bit and at no other, and leaves a byte.
pub test_bit-put_bit :
    (byte k j : ℕ) (value : Bool)
    → byte < 256
    → k < 8
    → j < 8
    → (test_bit (put_bit byte k value) j ≡ (if k == j then value else test_bit byte j))
      × (put_bit byte k value < 256)
test_bit-put_bit byte k j value hb hk hj =
    let row =
      all_below_lem 8 _ j (all_below_lem 8 _ k (all_below_lem 256 _ byte put_table hb) hk) hj in
    ground (
      arith,
      row,
      same-eq (test_bit (put_bit byte k true) j) (k == j || test_bit byte j),
      same-eq (test_bit (put_bit byte k false) j) (not (k == j) && test_bit byte j),
    )
