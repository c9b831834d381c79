-- ===== src/Memory/Heap/Calls.antt =====
-- src/mm/heap.cpp: free, and the calls that stand on malloc and free. The bytes of a block are not
-- kept: of realloc's copy there are the two addresses and the number of bytes.
use uni_os.Prelude.{
  ℕ, zero, suc, ◌+◌, ◌-◌, ◌*◌, ◌/◌, ◌%◌, ◌^◌, bit_and, Bool, not, ◌&&◌, ◌||◌, Option, none, some,
  List, [], ◌∷◌, ◌++◌, ltb, leb, ◌==◌, if◌then◌else◌, get_or, set,
}
use uni_os.Memory.Heap.Tracker.{PageSlot, page_tracker_free_block}
use uni_os.Memory.Heap.{
  AllocHeader, Heap, Allocation, heap_magic, aligned_magic, header_size, put_header, header_before,
  get_bucket_index, bucket_remove_page_blocks, heap_resolve_header, no_memory, malloc,
}

abbrev pub with_header : Heap → (addr : ℕ) → AllocHeader → Heap
with_header heap addr h = record {
  buckets = heap.buckets;
  slots = heap.slots;
  headers = put_header heap.headers addr h;
}

unfoldable pub is_power_of_two : ℕ → Bool
is_power_of_two value = not (value == 0) && bit_and value (value - 1) == 0

-- `x & ~(alignment - 1)`, for a power of two.
abbrev pub round_down : (alignment x : ℕ) → ℕ
round_down alignment x = x - x % alignment

-- The frames of a block of several pages.
unfoldable pub frames_of : (pages virt : ℕ) → List ℕ
frames_of zero virt = []
frames_of (suc pages) virt = virt ∷ frames_of pages (virt + 4096)

abbrev pub heap_observed_alignment : (addr : ℕ) → ℕ
heap_observed_alignment addr =
    let alignment = bit_and addr ((2 ^ 64 - addr) % 2 ^ 64) in
    if addr == 0
    then 16
    else if ltb alignment 16
    then 16
    else if ltb 4096 alignment
    then 4096
    else alignment

-- What can be used from a pointer on, of the block with the header at `header`.
abbrev pub old_size_of : (ptr base size : ℕ) → Option ℕ
old_size_of ptr base size =
    if ltb size header_size || ltb ptr base
    then none
    else if ltb (size - header_size) (ptr - base)
    then none
    else some (size - header_size - (ptr - base))

abbrev pub align_block : (alignment : ℕ) → Allocation → Allocation
align_block alignment o =
    let aligned_addr = round_down alignment ((o.ptr + header_size + alignment - 1) % 2 ^ 64) in
    if o.ptr == 0 then o else record {
      heap =
          with_header o.heap (header_before aligned_addr)
            (record { size = o.ptr; magic = aligned_magic });
      ptr = aligned_addr;
      released = o.released;
    }

module _ (capacity : ℕ) where
  -- The block goes to its list, unless its page is handed back. A size here is at most 4096, so there is
  -- an index.
  abbrev pub put_back :
      Heap → (header : ℕ) → List PageSlot → Option (ℕ × ℕ) → Option ℕ → Heap × List ℕ
  put_back heap header slots (some (page_virt, bucket_idx)) index = (
    record {
      buckets = bucket_remove_page_blocks heap.buckets bucket_idx page_virt;
      slots = slots;
      headers = heap.headers;
    },
    page_virt ∷ [],
  )
  put_back heap header slots none none = (heap, [])
  put_back heap header slots none (some bucket_idx) = (
    record {
      buckets = set heap.buckets bucket_idx (header ∷ get_or heap.buckets bucket_idx []);
      slots = slots;
      headers = heap.headers;
    },
    [],
  )

  abbrev pub free_block : Heap → (header : ℕ) → Heap × List ℕ
  free_block heap header =
      let size = (heap.headers header).size in
      let heap' = with_header heap header (record { size = size; magic = 0 }) in
      let (slots, answer) = page_tracker_free_block capacity heap.slots header in
      if ltb 4096 size
      then (heap', frames_of (size / 4096) header)
      else put_back heap' header slots answer (get_bucket_index size)

  abbrev pub free_resolved : Heap → Option (ℕ × ℕ × Bool) → Heap × List ℕ
  free_resolved heap none = (heap, [])
  free_resolved heap (some (header, base, was_aligned)) =
      if (heap.headers header).magic == heap_magic then free_block heap header else (heap, [])

  -- The heap and the frames that go back.
  unfoldable pub free : Heap → (ptr : ℕ) → Heap × List ℕ
  free heap ptr =
      if ptr == 0 then (heap, []) else free_resolved heap (heap_resolve_header heap.headers ptr)

  unfoldable pub aligned_alloc : Heap → (alignment size : ℕ) → (frame : Option ℕ) → Allocation
  aligned_alloc heap alignment size frame =
      if not (is_power_of_two alignment)
      then no_memory heap []
      else if leb alignment 16
      then malloc capacity heap size frame
      else if leb (2 ^ 64) (size + alignment - 1 + header_size)
      then no_memory heap []
      else align_block alignment (malloc capacity heap (size + alignment - 1 + header_size) frame)

  unfoldable pub calloc : Heap → (nmemb size : ℕ) → (frame : Option ℕ) → Allocation
  calloc heap nmemb size frame =
      if leb (2 ^ 64) (nmemb * size)
      then no_memory heap []
      else malloc capacity heap (nmemb * size) frame

  -- The new block, and the copy to it.
  abbrev pub move_to : (ptr old_size : ℕ) → Allocation → Allocation × Option (ℕ × ℕ × ℕ)
  move_to ptr old_size o =
      let (heap, released) = free o.heap ptr in
      if o.ptr == 0 then (o, none) else (
        record { heap = heap; ptr = o.ptr; released = o.released ++ released },
        some (o.ptr, ptr, old_size),
      )

  abbrev pub realloc_in :
      Heap
      → (ptr size : ℕ) → (frame : Option ℕ) → (was_aligned : Bool) → Option ℕ
      → Allocation × Option (ℕ × ℕ × ℕ)
  realloc_in heap ptr size frame was_aligned none = (no_memory heap [], none)
  realloc_in heap ptr size frame was_aligned (some old_size) =
      if leb size old_size
      then (record { heap = heap; ptr = ptr; released = [] }, none)
      else move_to ptr old_size (
          if was_aligned
          then aligned_alloc heap (heap_observed_alignment ptr) size frame
          else malloc capacity heap size frame)

  abbrev pub realloc_resolved :
      Heap
      → (ptr size : ℕ) → (frame : Option ℕ) → Option (ℕ × ℕ × Bool)
      → Allocation × Option (ℕ × ℕ × ℕ)
  realloc_resolved heap ptr size frame none = (no_memory heap [], none)
  realloc_resolved heap ptr size frame (some (header, base, was_aligned)) =
      let h = heap.headers header in
      if h.magic == heap_magic
      then realloc_in heap ptr size frame was_aligned (old_size_of ptr base h.size)
      else (no_memory heap [], none)

  unfoldable pub realloc :
      Heap → (ptr size : ℕ) → (frame : Option ℕ) → Allocation × Option (ℕ × ℕ × ℕ)
  realloc heap ptr size frame =
      let (freed, released) = free heap ptr in
      if ptr == 0
      then (malloc capacity heap size frame, none)
      else if size == 0
      then (no_memory freed released, none)
      else realloc_resolved heap ptr size frame (heap_resolve_header heap.headers ptr)
