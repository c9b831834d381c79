-- ===== src/Memory/Bitmap.antt =====
-- src/mm/bitmap.cpp and include/kernel/mm/bitmap.h: the bitmap of page frames, over the bytes of its
-- buffer. `(size_t)-1`, the answer that nothing was found, is `none`. Loops run on fuel: the number
-- of bits or words that are left, which each round makes smaller.
pub mod Bits
pub mod Words
pub mod Write
pub mod Range
pub mod FirstFree
pub mod Search
pub mod Sequence
use uni_os.Prelude.{
  ℕ, zero, suc, ◌+◌, ◌-◌, ◌*◌, ◌/◌, ◌%◌, ◌^◌, ◌<◌, bit_and, bit_or, Bool, true, false, not, ◌&&◌,
  ◌||◌, Option, none, some, List, [], ◌∷◌, ltb, leb, ◌==◌, if◌then◌else◌, get_or, set, replicate,
}

pub record Bitmap : Type 0 where
  pub buffer : List ℕ
  pub size : ℕ
  pub hint : ℕ

-- A buffer of the `(size_in_bits + 7) >> 3` bytes that are cleared.
unfoldable pub init : ℕ → Bitmap
init size_in_bits = record {
  buffer = replicate ((size_in_bits + 7) / 8) 0;
  size = size_in_bits;
  hint = 0;
}

-- `byte & (1 << k)`, as a test.
unfoldable pub test_bit : ℕ → ℕ → Bool
test_bit byte k = not (bit_and byte (2 ^ k) == 0)

-- `byte |= 1 << k`, or `byte &= ~(1 << k)` in 8 bits.
unfoldable pub put_bit : ℕ → ℕ → Bool → ℕ
put_bit byte k value = if value then bit_or byte (2 ^ k) else bit_and byte (255 - 2 ^ k)

unfoldable pub raw_test : List ℕ → ℕ → Bool
raw_test buffer i = test_bit (get_or buffer (i / 8) 0) (i % 8)

unfoldable pub raw_put : List ℕ → ℕ → Bool → List ℕ
raw_put buffer i value = set buffer (i / 8) (put_bit (get_or buffer (i / 8) 0) (i % 8) value)

-- `operator[]`.
unfoldable pub get : Bitmap → ℕ → Bool
get b index = if leb b.size index then false else raw_test b.buffer index

unfoldable pub put : Bitmap → ℕ → Bool → Bitmap
put b index value =
    if leb b.size index then b else record b { buffer = raw_put b.buffer index value }

-- `while (i < end && (i & 7))`: the index where it stops, and the buffer.
unfoldable pub put_to_byte : ℕ → (i end : ℕ) → Bool → List ℕ → ℕ × List ℕ
put_to_byte zero i end value buffer = (i, buffer)
put_to_byte (suc fuel) i end value buffer =
    let rest = put_to_byte fuel (i + 1) end value (raw_put buffer i value) in
    if ltb i end && not (i % 8 == 0) then rest else (i, buffer)

-- `memset` of `n` bytes from byte `k` on.
unfoldable pub fill : ℕ → ℕ → ℕ → List ℕ → List ℕ
fill zero k byte buffer = buffer
fill (suc n) k byte buffer = fill n (k + 1) byte (set buffer k byte)

-- `while (i < end)`.
unfoldable pub put_to_end : ℕ → (i end : ℕ) → Bool → List ℕ → List ℕ
put_to_end zero i end value buffer = buffer
put_to_end (suc fuel) i end value buffer =
    let rest = put_to_end fuel (i + 1) end value (raw_put buffer i value) in
    if ltb i end then rest else buffer

-- The three parts of `set_range`, from `start` to `end`. Without whole bytes the middle one does
-- nothing.
unfoldable pub put_span : (start end : ℕ) → Bool → List ℕ → List ℕ
put_span start end value buffer =
    let (i, aligned) = put_to_byte (end - start) start end value buffer in
    let bytes_to_fill = (end - i) / 8 in
    let filled = fill bytes_to_fill (i / 8) (if value then 0xFF else 0) aligned in
    let i' = i + bytes_to_fill * 8 in put_to_end (end - i') i' end value filled

-- `start + count` wraps in a `size_t`; a range that wraps or is too long ends at the last bit.
unfoldable pub set_range : Bitmap → (start count : ℕ) → Bool → Bitmap
set_range b start count value =
    if leb b.size start || count == 0
    then b
    else let sum = (start + count) % 2 ^ 64 in
      let end = if ltb sum start || ltb b.size sum then b.size else sum in
      record b { buffer = put_span start end value b.buffer }

-- Where a loop of a search stands: it has found a bit, or has come to an index.
pub data Scan : Type 0 where
  found : ℕ → Scan
  reached : ℕ → Scan

-- `while (i < end && (i & 63))`.
unfoldable pub scan_to_word : ℕ → Bitmap → (i end : ℕ) → Scan
scan_to_word zero b i end = reached i
scan_to_word (suc fuel) b i end =
    let rest = scan_to_word fuel b (i + 1) end in
    if ltb i end && not (i % 64 == 0) then (if get b i then rest else found i) else reached i

-- Eight bytes, the lowest first.
abbrev pub qword : List ℕ → ℕ → ℕ
qword buffer q =
    let byte = λ (k : ℕ). get_or buffer (q * 8 + k) 0 in
    byte 0
    + 256
      * (byte 1
          + 256
            * (byte 2
                + 256 * (byte 3 + 256 * (byte 4 + 256 * (byte 5 + 256 * (byte 6 + 256 * byte 7))))))

abbrev pub all_ones : ℕ
all_ones = 2 ^ 64 - 1

-- The number of low zero bits of a number that is not 0.
unfoldable pub ctz : ℕ → ℕ → ℕ
ctz zero x = 0
ctz (suc fuel) x = let rest = suc (ctz fuel (x / 2)) in if x % 2 == 1 then 0 else rest

-- `while (i < qword_end)`.
unfoldable pub scan_words : ℕ → Bitmap → (i qword_end : ℕ) → Scan
scan_words zero b i qword_end = reached i
scan_words (suc fuel) b i qword_end =
    let rest = scan_words fuel b (i + 64) qword_end in
    let qw = qword b.buffer (i / 64) in
    if ltb i qword_end
    then (if qw == all_ones then rest else found (i + ctz 64 (all_ones - qw)))
    else reached i

-- `while (i < end)`.
unfoldable pub scan_to_end : ℕ → Bitmap → (i end : ℕ) → Scan
scan_to_end zero b i end = reached i
scan_to_end (suc fuel) b i end =
    let rest = scan_to_end fuel b (i + 1) end in
    if ltb i end then (if get b i then rest else found i) else reached i

abbrev pub continue : Scan → (ℕ → Scan) → Scan
continue (found k) next = found k
continue (reached i) next = next i

abbrev pub result : Scan → Option ℕ
result (found k) = some k
result (reached i) = none

-- `end & ~63`.
abbrev pub word_end : ℕ → ℕ
word_end end = end / 64 * 64

unfoldable pub scan_range : Bitmap → (begin end : ℕ) → Option ℕ
scan_range b begin end =
    if leb end begin
    then none
    else result (
        continue (scan_to_word (end - begin) b begin end) (λ i.
          continue (scan_words (end / 64) b i (word_end end))
            (λ i'. scan_to_end (end - i') b i' end)))

-- The second scan, from the start of the bitmap, if the first found nothing.
unfoldable pub search_from : Bitmap → ℕ → Option ℕ
search_from b search_start = elim (scan_range b search_start b.size) [
  | some k ↦ some k
  | none ↦ if search_start == 0 then none else scan_range b 0 search_start
]

unfoldable pub search_start : Bitmap → ℕ → ℕ
search_start b start_index =
    let start = if start_index == 0 then b.hint else start_index in
    if leb b.size start then 0 else start

-- After a search that finds a bit the hint is the bit behind it.
abbrev pub move_hint : Bitmap → Option ℕ → Option ℕ × Bitmap
move_hint b none = (none, b)
move_hint b (some k) = (some k, record b { hint = if ltb (k + 1) b.size then k + 1 else 0 })

unfoldable pub find_first_free : Bitmap → ℕ → Option ℕ × Bitmap
find_first_free b start_index =
    if b.size == 0 then (none, b) else move_hint b (search_from b (search_start b start_index))
