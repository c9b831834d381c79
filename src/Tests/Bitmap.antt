-- ===== src/Tests/Bitmap.antt =====
-- Runs of src/mm/bitmap.cpp on a bitmap of 130 bits.
use uni_os.Prelude.{◌≡◌, refl, true, false, none, some, arith, All-replicate}
use uni_os.Memory.Bitmap.{
  Bitmap, init, get, put, raw_put, put_bit, raw_test, test_bit, set_range, put_span, put_to_byte,
  put_to_end, fill, find_first_free, search_start, search_from, scan_range, scan_to_word,
  scan_words, scan_to_end, ctz,
}
use uni_os.Memory.Bitmap.Write.{IsByte, IsBuffer}
use uni_os.Memory.Bitmap.Range.{set_range-IsRange}
use uni_os.Memory.Bitmap.Search.{IsAnswer, find_first_free-IsAnswer}

abbrev full : Bitmap
full = set_range (init 130) 0 130 true

abbrev one_free : Bitmap
one_free = put full 77 false

empty-IsBuffer : IsBuffer (init 130).size (init 130).buffer
unfolding init
empty-IsBuffer = record { bytes = All-replicate IsByte 17 0 (omega arith); room = omega arith }

finds_77 : (find_first_free one_free 0).0 ≡ some 77
unfolding init put raw_put put_bit raw_test test_bit set_range put_span put_to_byte put_to_end fill
    find_first_free search_start search_from scan_range scan_to_word scan_words scan_to_end ctz get
finds_77 = refl

finds_none : (find_first_free full 5).0 ≡ none
unfolding init put raw_put put_bit raw_test test_bit set_range put_span put_to_byte put_to_end fill
    find_first_free search_start search_from scan_range scan_to_word scan_words scan_to_end ctz get
finds_none = refl

three_on : IsBuffer (set_range (init 130) 3 70 true).size (set_range (init 130) 3 70 true).buffer
unfolding set_range init
three_on =
    (set_range-IsRange (init 130) 3 70 true empty-IsBuffer (unfold init in omega arith)
      (omega arith)).0

find_first_free-IsAnswer_example :
    IsAnswer
      (set_range (init 130) 3 70 true)
      (search_start (set_range (init 130) 3 70 true) 3)
      (find_first_free (set_range (init 130) 3 70 true) 3)
find_first_free-IsAnswer_example =
    find_first_free-IsAnswer (set_range (init 130) 3 70 true) 3 three_on
