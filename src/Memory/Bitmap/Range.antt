-- ===== src/Memory/Bitmap/Range.antt =====
-- src/mm/bitmap.cpp: which bits `set_range` writes.
use uni_os.Prelude.{
  ℕ, zero, suc, ◌+◌, ◌-◌, ◌*◌, ◌/◌, ◌%◌, ◌^◌, ◌≤◌, ◌<◌, ◌≡◌, ◌⊎◌, inl, inr, refl, Bool, true, false,
  ◌&&◌, ◌||◌, List, arith, ltb, leb, ◌==◌, if◌then◌else◌, set, All-set, length-set, get_or-set_self,
  get_or-set_ne, Bool-cases,
}
use uni_os.Memory.Bitmap.{Bitmap, test_bit, raw_test, get, put_to_byte, fill, put_span, set_range}
use uni_os.Memory.Bitmap.Bits.{test_bit-digit}
use uni_os.Memory.Bitmap.Write.{
  IsByte, IsBuffer, Written, Written-none, Written-trans, put_to_byte-Written, put_to_end-Written,
}

abbrev byte_of : Bool → ℕ
byte_of value = if value then 0xFF else 0

ones_digit : (j : ℕ) → j < 8 → 255 / 2 ^ j % 2 ≡ 1
ones_digit zero h = refl
ones_digit (suc zero) h = refl
ones_digit (suc (suc zero)) h = refl
ones_digit (suc (suc (suc zero))) h = refl
ones_digit (suc (suc (suc (suc zero)))) h = refl
ones_digit (suc (suc (suc (suc (suc zero))))) h = refl
ones_digit (suc (suc (suc (suc (suc (suc zero)))))) h = refl
ones_digit (suc (suc (suc (suc (suc (suc (suc zero))))))) h = refl
ones_digit (suc (suc (suc (suc (suc (suc (suc (suc j)))))))) h = absurd (omega arith)

zero_digit : (d : ℕ) → 0 / d % 2 ≡ 0
zero_digit d = grind arith

test_bit-byte_of : (value : Bool) (j : ℕ) → j < 8 → test_bit (byte_of value) j ≡ value
test_bit-byte_of true j h = ground (arith, test_bit-digit 255 j, ones_digit j h)
test_bit-byte_of false j h = ground (arith, test_bit-digit 0 j, zero_digit (2 ^ j))

fill_one :
    (size k : ℕ) (value : Bool) (buffer : List ℕ)
    → IsBuffer size buffer
    → 8 * k + 8 ≤ size
    → Written size (8 * k) (8 * k + 8) value buffer (set buffer k (byte_of value))
unfolding raw_test
fill_one size k value buffer h fits = record {
  buffer = record {
    bytes = All-set IsByte buffer k (byte_of value) h.bytes (ground arith);
    room = omega (arith, h.room, length-set buffer k (byte_of value));
  };
  bits = λ j. ground (
    arith,
    get_or-set_self buffer k (byte_of value) 0 (omega (arith, h.room)),
    get_or-set_ne buffer k (j / 8) (byte_of value) 0,
    test_bit-byte_of value (j % 8),
  );
}

fill-Written :
    (n size k i end : ℕ) (value : Bool) (buffer : List ℕ)
    → IsBuffer size buffer
    → i ≡ 8 * k
    → end ≡ i + n * 8
    → end ≤ size
    → Written size i end value buffer (fill n k (byte_of value) buffer)
unfolding fill
fill-Written zero size k i end value buffer h at to fits =
    let e : end ≡ i = omega arith in rw e (Written-none size i value buffer h)
fill-Written (suc n) size k i end value buffer h at to fits =
    let first : Written size i (i + 8) value buffer (set buffer k (byte_of value)) =
      rw at (fill_one size k value buffer h (omega arith)) in
    Written-trans size i (i + 8) end value buffer (set buffer k (byte_of value)) _ (omega arith)
      (omega arith) first
      (fill-Written n size (k + 1) (i + 8) end value (set buffer k (byte_of value)) first.buffer
        (omega arith) (omega arith) fits)

fill_nothing :
    (size i n k : ℕ) (value : Bool) (buffer : List ℕ)
    → IsBuffer size buffer
    → n ≡ 0
    → Written size i (i + n * 8) value buffer (fill n k (byte_of value) buffer)
unfolding fill
fill_nothing size i n k value buffer h e =
    let f : i + 0 * 8 ≡ i = omega arith in rw (e, f) (Written-none size i value buffer h)

fill_middle :
    (size i end : ℕ) (value : Bool) (buffer : List ℕ)
    → IsBuffer size buffer
    → i ≤ end
    → end ≤ size
    → (i ≡ end) ⊎ (i % 8 ≡ 0)
    → Written size i
        (i + (end - i) / 8 * 8)
        value
        buffer
        (fill ((end - i) / 8) (i / 8) (byte_of value) buffer)
fill_middle size i end value buffer h le fits (inl e) =
    fill_nothing size i ((end - i) / 8) (i / 8) value buffer h (grind arith)
fill_middle size i end value buffer h le fits (inr e) =
    fill-Written ((end - i) / 8) size (i / 8) i (i + (end - i) / 8 * 8) value buffer h (omega arith)
      refl (omega arith)

-- The three loops together write exactly the bits from `start` to `end`.
pub put_span-Written :
    (size start end : ℕ) (value : Bool) (buffer : List ℕ)
    → IsBuffer size buffer
    → end ≤ size
    → start ≤ end
    → Written size start end value buffer (put_span start end value buffer)
unfolding put_span
put_span-Written size start end value buffer h fits le =
    let (i, aligned) = put_to_byte (end - start) start end value buffer in
    let (w, a, b, c) =
      put_to_byte-Written (end - start) size start end value buffer h fits le (omega arith) in
    let n = (end - i) / 8 in
    let i' = i + n * 8 in
    let filled = fill n (i / 8) (byte_of value) aligned in
    let middle : Written size i i' value aligned filled =
      fill_middle size i end value aligned w.buffer b fits c in
    let le' : i' ≤ end = omega (arith, b) in
    Written-trans size start i end value buffer aligned _ a b w (
      Written-trans size i i' end value aligned filled _ (omega arith) le' middle (
        put_to_end-Written (end - i') size i' end value filled middle.buffer fits le'
          (omega arith)))

-- What set_range must do to the bits: those from `start` on, `count` of them or up to the last bit,
-- have the value, and the others are as they were.
abbrev pub IsRange : Bitmap → (start count : ℕ) → Bool → Bitmap → Type 0
IsRange b start count value new =
    IsBuffer b.size new.buffer
    × ((j : ℕ)
        → get new j
          ≡ (if leb start j && ltb j (start + count) && ltb j b.size then value else get b j))

-- On a buffer of bytes that is long enough, with sizes of 64 bits, set_range gives the value to the
-- bits from `start` on, `count` of them or up to the last bit of the bitmap, leaves every other bit
-- as it was, and leaves bytes in the buffer.
pub set_range-IsRange :
    (b : Bitmap) (start count : ℕ) (value : Bool)
    → IsBuffer b.size b.buffer
    → b.size < 2 ^ 64
    → count < 2 ^ 64
    → IsRange b start count value (set_range b start count value)
unfolding set_range get
set_range-IsRange b start count value h sb cb =
    let sum = (start + count) % 2 ^ 64 in
    let end = if ltb sum start || ltb b.size sum then b.size else sum in
    elim (Bool-cases (leb b.size start || count == 0)) [
      | inl stop ↦ rw stop (h, λ j. ground arith)
      | inr go ↦
          let w =
            put_span-Written b.size start end value b.buffer h (ground arith) (ground arith) in
          rw go (w.buffer, λ j. ground (arith, w.bits j))
    ]
