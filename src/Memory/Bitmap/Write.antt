-- ===== src/Memory/Bitmap/Write.antt =====
-- src/mm/bitmap.cpp: which bits `set` and `set_range` change.
use uni_os.Prelude.{
  ℕ, zero, suc, ◌+◌, ◌*◌, ◌/◌, ◌%◌, ◌≤◌, ◌<◌, ◌≡◌, Bool, not, ◌&&◌, List, arith, ltb, leb, ◌==◌,
  if◌then◌else◌, length, get_or, All, All-get_or, All-set, length-set, get_or-set_self,
  get_or-set_ne, ◌⊎◌, Bool-cases, inl, inr,
}
use uni_os.Memory.Bitmap.{put_bit, raw_test, raw_put, put_to_byte, put_to_end}
use uni_os.Memory.Bitmap.Bits.{test_bit-put_bit}

abbrev pub IsByte : ℕ → Type 0
IsByte b = b < 256

-- The buffer holds bytes, and one for each eight bits.
pub record IsBuffer (size : ℕ) (buffer : List ℕ) : Type 0 where
  pub bytes : All IsByte buffer
  pub room : size ≤ 8 * length buffer

pub IsByte-get_or : (buffer : List ℕ) (k : ℕ) → All IsByte buffer → get_or buffer k 0 < 256
IsByte-get_or buffer k h = All-get_or IsByte buffer k 0 h (omega arith)

pub raw_put-IsBuffer :
    (size : ℕ) (buffer : List ℕ) (i : ℕ) (value : Bool)
    → IsBuffer size buffer
    → IsBuffer size (raw_put buffer i value)
unfolding raw_put
raw_put-IsBuffer size buffer i value h =
    let byte = put_bit (get_or buffer (i / 8) 0) (i % 8) value in
    let small =
      test_bit-put_bit (get_or buffer (i / 8) 0) (i % 8) 0 value
        (IsByte-get_or buffer (i / 8) h.bytes) (omega arith) (omega arith) in
    record {
      bytes = All-set IsByte buffer (i / 8) byte h.bytes small.1;
      room = omega (arith, h.room, length-set buffer (i / 8) byte);
    }

-- A write of a bit inside the buffer shows at that bit and at no other.
pub raw_test-raw_put :
    (size : ℕ) (buffer : List ℕ) (i j : ℕ) (value : Bool)
    → IsBuffer size buffer
    → i < size
    → raw_test (raw_put buffer i value) j ≡ (if i == j then value else raw_test buffer j)
unfolding raw_test raw_put
raw_test-raw_put size buffer i j value h lt =
    let old = get_or buffer (i / 8) 0 in
    let byte = put_bit old (i % 8) value in
    let bits =
      test_bit-put_bit old (i % 8) (j % 8) value (IsByte-get_or buffer (i / 8) h.bytes)
        (omega arith) (omega arith) in
    ground (
      arith,
      bits,
      get_or-set_self buffer (i / 8) byte 0 (omega (arith, h.room)),
      get_or-set_ne buffer (i / 8) (j / 8) byte 0,
    )

-- The bits from `start` to `end` have the value, the others are as they were.
pub record Written (size start end : ℕ) (value : Bool) (old new : List ℕ) : Type 0 where
  pub buffer : IsBuffer size new
  pub bits : (j : ℕ) → raw_test new j ≡ (if leb start j && ltb j end then value else raw_test old j)

pub Written-none :
    (size i : ℕ) (value : Bool) (buffer : List ℕ)
    → IsBuffer size buffer
    → Written size i i value buffer buffer
Written-none size i value buffer h = record { buffer = h; bits = λ j. ground arith }

Written-one :
    (size i : ℕ) (value : Bool) (buffer : List ℕ)
    → IsBuffer size buffer
    → i < size
    → Written size i (i + 1) value buffer (raw_put buffer i value)
Written-one size i value buffer h lt = record {
  buffer = raw_put-IsBuffer size buffer i value h;
  bits = λ j. ground (arith, raw_test-raw_put size buffer i j value h lt);
}

pub Written-trans :
    (size a b c : ℕ) (value : Bool) (x y z : List ℕ)
    → a ≤ b
    → b ≤ c
    → Written size a b value x y
    → Written size b c value y z
    → Written size a c value x z
Written-trans size a b c value x y z ab bc f g = record {
  buffer = g.buffer;
  bits = λ j. ground (arith, f.bits j, g.bits j);
}

pub put_to_byte-Written :
    (fuel size i end : ℕ) (value : Bool) (buffer : List ℕ)
    → IsBuffer size buffer
    → end ≤ size
    → i ≤ end
    → end ≤ i + fuel
    → let (i', new) = put_to_byte fuel i end value buffer in
      Written size i i' value buffer new × (i ≤ i') × (i' ≤ end) × ((i' ≡ end) ⊎ (i' % 8 ≡ 0))
unfolding put_to_byte
put_to_byte-Written zero size i end value buffer h fits le f =
    (Written-none size i value buffer h, omega arith, omega arith, inl (omega arith))
put_to_byte-Written (suc fuel) size i end value buffer h fits le f =
    elim (Bool-cases (ltb i end && not (i % 8 == 0))) [
      | inr stop ↦
          rw stop (Written-none size i value buffer h, ground arith, ground arith, ground arith)
      | inl go ↦
          let lt : i < size = ground arith in
          let first = Written-one size i value buffer h lt in
          let (w, a, b, c) =
            put_to_byte-Written fuel size (i + 1) end value (raw_put buffer i value) first.buffer
              fits (ground arith) (omega arith) in
          rw go (
            Written-trans size i (i + 1) _ value buffer (raw_put buffer i value) _ (omega arith) a
                first w,
            omega (arith, a),
            b,
            c,
          )
    ]

pub put_to_end-Written :
    (fuel size i end : ℕ) (value : Bool) (buffer : List ℕ)
    → IsBuffer size buffer
    → end ≤ size
    → i ≤ end
    → end ≤ i + fuel
    → Written size i end value buffer (put_to_end fuel i end value buffer)
unfolding put_to_end
put_to_end-Written zero size i end value buffer h fits le f =
    let e : end ≡ i = omega arith in rw e (Written-none size i value buffer h)
put_to_end-Written (suc fuel) size i end value buffer h fits le f = elim (Bool-cases (ltb i end)) [
  | inr stop ↦ let e : end ≡ i = ground arith in rw (stop, e) (Written-none size i value buffer h)
  | inl go ↦
      let first = Written-one size i value buffer h (ground arith) in
      rw go (
        Written-trans size i (i + 1) end value buffer (raw_put buffer i value) _ (omega arith)
          (ground arith) first
          (put_to_end-Written fuel size (i + 1) end value (raw_put buffer i value) first.buffer fits
            (ground arith) (omega arith)))
]
