-- ===== src/Tests/Pmm.antt =====
-- Runs of src/mm/pmm.cpp on eight free frames.
use uni_os.Prelude.{ℕ, zero, suc, ◌<◌, ◌≡◌, refl, false, some, arith, replicate, All-replicate}
use uni_os.Memory.Bitmap.{
  init, get, put, raw_put, put_bit, raw_test, test_bit, find_first_free, search_start, search_from,
  scan_range, scan_to_word, scan_words, scan_to_end, ctz,
}
use uni_os.Memory.Bitmap.Write.{IsByte}
use uni_os.Memory.Pmm.{
  Pmm, refcount, pmm_alloc_frame, pmm_alloc_frames, take_frame, after_search,
  reserve_frame_permanently, pmm_refcount_dec,
}
use uni_os.Memory.Pmm.Count.{clear_count}
use uni_os.Memory.Pmm.Claim.{IsPmm, Claimed-IsPmm}
use uni_os.Memory.Pmm.Take.{take_frame-Claimed}
use uni_os.Memory.Pmm.Alloc.{IsGiven, pmm_alloc_frame-IsGiven}
use uni_os.Memory.Pmm.Frames.{IsRun, pmm_alloc_frames-IsRun}
use uni_os.Memory.Pmm.References.{IsReleased, pmm_refcount_dec-IsReleased}
use uni_os.Memory.Pmm.Calls.{alloc_frame, alloc_frames, refcount_dec, no_calls, after, Calls-IsPmm}

abbrev all_free : Pmm
all_free = record {
  bitmap = init 8;
  refcounts = replicate 8 0;
  bits = 8;
  free_memory = 32768;
  highest_page = 7;
}

-- Frame 0 is free too and is set aside.
first_frame : (pmm_alloc_frame all_free).0 ≡ 4096
unfolding init put raw_put put_bit raw_test test_bit find_first_free search_start search_from
    scan_range scan_to_word scan_words scan_to_end ctz get pmm_alloc_frame after_search take_frame
    reserve_frame_permanently
first_frame = refl

no_counts : (i : ℕ) → i < 8 → refcount all_free i ≡ 0
no_counts zero lt = refl
no_counts (suc zero) lt = refl
no_counts (suc (suc zero)) lt = refl
no_counts (suc (suc (suc zero))) lt = refl
no_counts (suc (suc (suc (suc zero)))) lt = refl
no_counts (suc (suc (suc (suc (suc zero))))) lt = refl
no_counts (suc (suc (suc (suc (suc (suc zero)))))) lt = refl
no_counts (suc (suc (suc (suc (suc (suc (suc zero))))))) lt = refl
no_counts (suc (suc (suc (suc (suc (suc (suc (suc i)))))))) lt = absurd (omega arith)

all_free-IsPmm : IsPmm all_free
unfolding init get raw_test test_bit clear_count
all_free-IsPmm = record {
  size = refl;
  buffer = record { bytes = All-replicate IsByte 1 0 (omega arith); room = omega arith };
  counts = refl;
  small = omega arith;
  unused = λ i lt clear. no_counts i lt;
  memory = refl;
}

frame_3 : get (init 8) 3 ≡ false
unfolding init get raw_test test_bit
frame_3 = refl

abbrev one_used : Pmm
one_used = (take_frame all_free (some 3)).1

one_used-IsPmm : IsPmm one_used
one_used-IsPmm =
    Claimed-IsPmm all_free one_used 3 1
      (take_frame-Claimed all_free 3 all_free-IsPmm (omega arith) frame_3).1 all_free-IsPmm

used_once : refcount one_used 3 ≡ 1
unfolding take_frame
used_once = refl

pmm_alloc_frame-IsGiven_example : IsGiven all_free (pmm_alloc_frame all_free)
pmm_alloc_frame-IsGiven_example = pmm_alloc_frame-IsGiven all_free all_free-IsPmm

pmm_alloc_frames-IsRun_example : IsRun one_used 3 (pmm_alloc_frames 3 one_used)
pmm_alloc_frames-IsRun_example = pmm_alloc_frames-IsRun 3 one_used (omega arith) one_used-IsPmm

pmm_refcount_dec-IsReleased_example :
    IsPmm (pmm_refcount_dec 12288 one_used)
    × IsReleased one_used 3 (pmm_refcount_dec 12288 one_used)
pmm_refcount_dec-IsReleased_example =
    pmm_refcount_dec-IsReleased 12288 one_used one_used-IsPmm (omega arith)
      (unfold take_frame in omega arith)

Calls-IsPmm_example :
    IsPmm (pmm_refcount_dec 4096 (pmm_alloc_frames 2 (pmm_alloc_frame all_free).1).1)
Calls-IsPmm_example = Calls-IsPmm all_free-IsPmm (
    after
      (after (after no_calls (alloc_frame all_free)) (alloc_frames 2 (pmm_alloc_frame all_free).1))
      (refcount_dec 4096 (pmm_alloc_frames 2 (pmm_alloc_frame all_free).1).1))
