-- ===== src/Memory/Pmm.antt =====
-- src/mm/pmm.cpp: the allocator of page frames, over the bitmap and an array of reference counts. A
-- frame is handed out by its physical address, and the address 0 is the null pointer. A panic is
-- `none`. `zero_memory` of a new frame shows in no state that is modelled.
pub mod Count
pub mod Claim
pub mod Take
pub mod Alloc
pub mod Frames
pub mod References
pub mod Calls
use uni_os.Prelude.{
  ℕ, zero, suc, ◌+◌, ◌-◌, ◌*◌, ◌/◌, ◌%◌, ◌^◌, ◌<◌, Bool, true, false, not, ◌&&◌, ◌||◌, Option, none,
  some, List, ltb, leb, ◌==◌, if◌then◌else◌, get_or, set,
}
use uni_os.Memory.Bitmap.{Bitmap, get, put, set_range, find_first_free}
use uni_os.Memory.Bitmap.Sequence.{find_last_free_sequence}

abbrev pub frame_size : ℕ
frame_size = 4096

-- `g_pmm_bitmap`, `g_pmm_refcounts`, `g_bitmap_bits`, `g_free_memory` and `g_highest_page`.
pub record Pmm : Type 0 where
  pub bitmap : Bitmap
  pub refcounts : List ℕ
  pub bits : ℕ
  pub free_memory : ℕ
  pub highest_page : ℕ

abbrev pub refcount : Pmm → ℕ → ℕ
refcount p i = get_or p.refcounts i 0

unfoldable pub reserve_frame_permanently : ℕ → Pmm → Pmm
reserve_frame_permanently frame_idx p = if leb p.bits frame_idx then p else record p {
  bitmap = put p.bitmap frame_idx true;
  refcounts = if refcount p frame_idx == 0 then set p.refcounts frame_idx 1 else p.refcounts;
  free_memory =
      if not (get p.bitmap frame_idx) && leb frame_size p.free_memory
      then p.free_memory - frame_size
      else p.free_memory;
}

-- `g_free_memory -= size`, in 64 bits.
abbrev pub less_memory : ℕ → ℕ → ℕ
less_memory free_memory size = (free_memory + (2 ^ 64 - size)) % 2 ^ 64

-- What follows the search: the frame that it found is marked and its address returned.
unfoldable pub take_frame : Pmm → Option ℕ → ℕ × Pmm
take_frame p none = (0, p)
take_frame p (some frame_idx) =
    if ltb frame_idx p.bits
    then (
      frame_idx * frame_size,
      record p {
        bitmap = put p.bitmap frame_idx true;
        refcounts = set p.refcounts frame_idx 1;
        free_memory = less_memory p.free_memory frame_size;
      },
    )
    else (0, p)

abbrev pub with_bitmap : Pmm → Bitmap → Pmm
with_bitmap p b = record p { bitmap = b }

-- A search that comes to frame 0 reserves it and searches again.
unfoldable pub after_search : Pmm → Option ℕ → ℕ × Pmm
after_search p none = take_frame p none
after_search p (some zero) =
    let p' = reserve_frame_permanently 0 p in
    let (frame_idx, b) = find_first_free p'.bitmap 1 in take_frame (with_bitmap p' b) frame_idx
after_search p (some (suc i)) = take_frame p (some (suc i))

unfoldable pub pmm_alloc_frame : Pmm → ℕ × Pmm
pmm_alloc_frame p =
    let (frame_idx, b) = find_first_free p.bitmap 0 in after_search (with_bitmap p b) frame_idx

-- `for (i = 0; i < count; i++) g_pmm_refcounts[frame_idx + i] = 1`.
unfoldable pub set_ones : (count frame_idx : ℕ) → List ℕ → List ℕ
set_ones zero frame_idx refcounts = refcounts
set_ones (suc n) frame_idx refcounts = set_ones n (frame_idx + 1) (set refcounts frame_idx 1)

abbrev pub moved_hint : Bitmap → (frame_idx count : ℕ) → ℕ
moved_hint b frame_idx count =
    if leb frame_idx b.hint && ltb b.hint (frame_idx + count) then frame_idx + count else b.hint

unfoldable pub take_frames : Pmm → (count : ℕ) → Option ℕ → ℕ × Pmm
take_frames p count none = (0, p)
take_frames p count (some frame_idx) =
    if leb count (p.bits - frame_idx) && leb (frame_idx + count - 1) p.highest_page
    then (let b = set_range p.bitmap frame_idx count true in
        (
          frame_idx * frame_size,
          record p {
            bitmap = record b { hint = moved_hint b frame_idx count };
            refcounts = set_ones count frame_idx p.refcounts;
            free_memory = less_memory p.free_memory (frame_size * count);
          },
        ))
    else (0, p)

unfoldable pub pmm_alloc_frames : ℕ → Pmm → ℕ × Pmm
pmm_alloc_frames count p =
    if count == 0 || ltb ((2 ^ 64 - 1) / frame_size) count
    then (0, p)
    else if count == 1
    then pmm_alloc_frame p
    else take_frames p count (find_last_free_sequence p.bitmap count)

unfoldable pub pmm_refcount_inc : ℕ → Pmm → Option Pmm
pmm_refcount_inc frame p =
    let frame_idx = frame / frame_size in
    if frame == 0 || leb p.bits frame_idx
    then some p
    else if refcount p frame_idx == 65535
    then none
    else some (record p { refcounts = set p.refcounts frame_idx (refcount p frame_idx + 1) })

unfoldable pub pmm_refcount_dec : ℕ → Pmm → Pmm
pmm_refcount_dec frame p =
    let frame_idx = frame / frame_size in
    let count = refcount p frame_idx - 1 in
    if frame == 0 || (leb p.bits frame_idx || refcount p frame_idx == 0)
    then p
    else if count == 0
    then record p {
      bitmap = record (put p.bitmap frame_idx false) { hint = frame_idx };
      refcounts = set p.refcounts frame_idx 0;
      free_memory = (p.free_memory + frame_size) % 2 ^ 64;
    }
    else record p { refcounts = set p.refcounts frame_idx count }

unfoldable pub pmm_free_frame : ℕ → Pmm → Pmm
unfolding pmm_refcount_dec
pmm_free_frame frame p = pmm_refcount_dec frame p

unfoldable pub pmm_get_refcount : ℕ → Pmm → ℕ
pmm_get_refcount frame p =
    let frame_idx = frame / frame_size in
    if frame == 0 then 0 else if ltb frame_idx p.bits then refcount p frame_idx else 0

unfoldable pub pmm_is_managed : ℕ → Pmm → Bool
pmm_is_managed frame p = if frame == 0 then false else ltb (frame / frame_size) p.bits
