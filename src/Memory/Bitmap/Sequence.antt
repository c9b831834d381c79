-- ===== src/Memory/Bitmap/Sequence.antt =====
-- src/mm/bitmap.cpp: `find_last_free_sequence`, the search for a run of clear bits from the end of
-- the bitmap down.
pub mod Bitwise
pub mod Last
use uni_os.Prelude.{
  ℕ, zero, suc, ◌+◌, ◌-◌, ◌*◌, ◌/◌, ◌%◌, ◌^◌, ◌<◌, Bool, true, false, not, ◌||◌, Option, none, some,
  ltb, leb, ◌==◌, if◌then◌else◌,
}
use uni_os.Memory.Bitmap.{Bitmap, get, qword, all_ones, word_end}

-- Where a search stands: with the length of the run of clear bits that it comes from, or with its
-- answer.
pub data Walk : Type 0 where
  searching : ℕ → Walk
  answered : ℕ → Walk

abbrev pub walk_on : Walk → (ℕ → Walk) → Walk
walk_on (searching run) next = next run
walk_on (answered k) next = answered k

abbrev pub walked : Walk → Option ℕ
walked (searching run) = none
walked (answered k) = some k

-- One bit, at the index `i`.
unfoldable pub last_step : (count i : ℕ) → (is_set : Bool) → (current_run : ℕ) → Walk
last_step count i is_set current_run =
    if is_set
    then searching 0
    else if current_run + 1 == count
    then answered i
    else searching (current_run + 1)

-- `n` bits from `base + n - 1` down to `base`.
unfoldable pub last_bits : (ℕ → Bool) → (count base n current_run : ℕ) → Walk
last_bits p count base zero current_run = searching current_run
last_bits p count base (suc n) current_run =
    walk_on (last_step count (base + n) (p (base + n)) current_run) (last_bits p count base n)

-- `qw & (1ULL << bit)`, as a test.
unfoldable pub word_bit : ℕ → ℕ → Bool
word_bit qw bit = qw / 2 ^ bit % 2 == 1

-- One word, with its index.
unfoldable pub last_word : (count q qw current_run : ℕ) → Walk
last_word count q qw current_run =
    if qw == 0
    then (if leb count (current_run + 64)
        then answered (q * 64 + (current_run + 64 - count))
        else searching (current_run + 64))
    else if qw == all_ones
    then searching 0
    else last_bits (λ i. word_bit qw (i - q * 64)) count (q * 64) 64 current_run

-- `while (q_idx > 0)`.
unfoldable pub last_words : Bitmap → (count q_idx current_run : ℕ) → Walk
last_words b count zero current_run = searching current_run
last_words b count (suc q) current_run =
    walk_on (last_word count q (qword b.buffer q) current_run) (last_words b count q)

unfoldable pub find_last_free_sequence : Bitmap → ℕ → Option ℕ
find_last_free_sequence b count =
    if count == 0 || ltb b.size count
    then none
    else let qword_end = word_end b.size in
      walked (
        walk_on (last_bits (get b) count qword_end (b.size - qword_end) 0)
          (last_words b count (qword_end / 64)))
