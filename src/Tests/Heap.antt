-- ===== src/Tests/Heap.antt =====
-- Runs of src/mm/heap.cpp, with a table of four pages.
use uni_os.Prelude.{◌≡◌, refl, inr, arith, true, none, some, List, [], replicate}
use uni_os.Memory.Heap.{
  Heap, heap_init, get_bucket_index, bit_width, malloc_unlocked, malloc, push_blocks,
}
use uni_os.Memory.Heap.Freed.{free-free}
use uni_os.Memory.Heap.Calls.{free, aligned_alloc, is_power_of_two}
use uni_os.Memory.Heap.Tracker.{
  PageSlot, empty_slot, hash_page, probe, open_from, find_from, page_tracker_add, page_tracker_find,
  page_tracker_alloc_block, page_tracker_free_block,
}
use uni_os.Memory.Heap.Tracker.Probe.{IsTable, replicate-IsTable}
use uni_os.Memory.Heap.Tracker.Pages.{slot_of}
use uni_os.Memory.Heap.Tracker.Steps.{IsAdded, page_tracker_add-IsAdded}
use uni_os.Memory.Heap.Tracker.Counts.{
  IsChanged, freed, emptied, page_tracker_alloc_block-IsChanged, page_tracker_free_block-IsChanged,
}
use uni_os.Memory.Heap.Sizes.{IsBucket, get_bucket_index-IsBucket}
use uni_os.Memory.Heap.Aligned.{IsAligned, aligned_alloc-IsAligned}
use uni_os.Memory.Heap.Blocks.{IsServed, malloc-IsServed}

abbrev no_pages : List PageSlot
no_pages = replicate 4 empty_slot

no_pages-IsTable : IsTable 4 no_pages
no_pages-IsTable = replicate-IsTable 4 (omega arith)

absent : slot_of 4 no_pages 20480 ≡ none
unfolding slot_of page_tracker_find find_from hash_page probe
absent = refl

page_tracker_add-IsAdded_example :
    IsAdded 4 no_pages no_pages-IsTable 20480 1 64
      (omega arith)
      absent
      (page_tracker_add 4 no_pages 20480 1 64)
page_tracker_add-IsAdded_example =
    page_tracker_add-IsAdded 4 no_pages no_pages-IsTable 20480 1 64 (omega arith) absent

-- The page 20480, of two blocks, and the table when one of them is in use.
abbrev half_used : PageSlot
half_used = record { page_virt = 20480; bucket_idx = 6; free_count = 1; total_count = 2 }

abbrev all_free : List PageSlot
all_free = elim (page_tracker_add 4 no_pages 20480 6 2) [ none ↦ no_pages | some slots ↦ slots ]

abbrev one_used : List PageSlot
one_used = page_tracker_alloc_block 4 all_free 20480

all_free-IsTable : IsTable 4 all_free
unfolding page_tracker_add open_from hash_page probe
all_free-IsTable =
    (page_tracker_add-IsAdded 4 no_pages no_pages-IsTable 20480 6 2 (omega arith) absent).0

one_used-IsTable : IsTable 4 one_used
one_used-IsTable =
    (page_tracker_alloc_block-IsChanged 4 all_free all_free-IsTable 20480 (omega arith)).order

one_used-slot_of : slot_of 4 one_used 20480 ≡ some half_used
unfolding slot_of page_tracker_find find_from hash_page probe page_tracker_add open_from
    page_tracker_alloc_block
one_used-slot_of = refl

page_tracker_free_block-IsChanged_example :
    let (slots', answer) = page_tracker_free_block 4 one_used 20480 in
    IsChanged 4 freed 20480 one_used slots' × (answer ≡ emptied (slot_of 4 one_used 20480))
page_tracker_free_block-IsChanged_example =
    page_tracker_free_block-IsChanged 4 one_used one_used-IsTable 20480 (omega arith)

get_bucket_index-IsBucket_example : IsBucket 100 (get_bucket_index 100)
get_bucket_index-IsBucket_example = get_bucket_index-IsBucket 100

index_of_100 : get_bucket_index 100 ≡ some 2
unfolding get_bucket_index bit_width
index_of_100 = refl

abbrev new_heap : Heap
new_heap =
    heap_init 4 (record { buckets = []; slots = []; headers = λ a. record { size = 0; magic = 0 } })

abbrev with_page_2 : List PageSlot
with_page_2 = elim (page_tracker_add 4 no_pages 20480 2 32) [ none ↦ [] | some slots ↦ slots ]

added_page : page_tracker_add 4 no_pages 20480 2 32 ≡ some with_page_2
unfolding page_tracker_add open_from hash_page probe
added_page = refl

malloc-IsServed_example : IsServed 84 (malloc 4 new_heap 84 (some 20480))
malloc-IsServed_example =
    malloc-IsServed 4 new_heap 84 2 (some 20480) refl (omega arith) (omega arith) index_of_100
      (inr (20480, with_page_2, refl, added_page))

-- The last of the sixteen blocks of a page.
raw_block : (malloc 4 new_heap 179 (some 20480)).ptr ≡ 24336
unfolding malloc_unlocked get_bucket_index bit_width page_tracker_add open_from hash_page probe
    push_blocks
raw_block = refl

power_of_two : is_power_of_two 64 ≡ true
unfolding is_power_of_two
power_of_two = refl

aligned_alloc-IsAligned_example :
    IsAligned 64 100
      (malloc 4 new_heap 179 (some 20480)).ptr
      179
      (aligned_alloc 4 new_heap 64 100 (some 20480))
aligned_alloc-IsAligned_example =
    aligned_alloc-IsAligned 4 new_heap 64 100 (some 20480) power_of_two (omega arith)
      (omega (arith, raw_block)) (omega (arith, raw_block))

abbrev served : Heap
served = (malloc 4 new_heap 84 (some 20480)).heap

free-free_example : free 4 (free 4 served 24464).0 24464 ≡ ((free 4 served 24464).0, [])
free-free_example = free-free 4 served 24464
