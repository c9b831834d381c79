-- ===== src/Memory/Heap.antt =====
-- src/mm/heap.cpp: the heap. A list of free blocks is the list of their addresses, so the links in the
-- blocks are not kept; of the memory the headers are kept, each at its address. A frame that the frame
-- allocator gives, or `none`, is an argument, by the virtual address it has; the frames that go back to
-- it are a result. The address 0 is the null pointer.
pub mod Tracker
pub mod Sizes
pub mod Calls
pub mod Aligned
pub mod Blocks
pub mod Freed
use uni_os.Prelude.{
  ℕ, zero, suc, ◌+◌, ◌-◌, ◌*◌, ◌/◌, ◌%◌, ◌^◌, bit_and, Bool, true, false, not, ◌&&◌, ◌||◌, Option,
  none, some, List, [], ◌∷◌, ltb, leb, ◌==◌, if◌then◌else◌, get_or, set, replicate,
}
use uni_os.Memory.Heap.Tracker.{
  PageSlot, empty_slot, page_tracker_add, page_tracker_alloc_block, page_tracker_free_block,
}

abbrev pub num_buckets : ℕ
num_buckets = 8

abbrev pub heap_magic : ℕ
heap_magic = 13907095936298285200

abbrev pub aligned_magic : ℕ
aligned_magic = 1311768468105719296

pub record AllocHeader : Type 0 where
  pub size : ℕ
  pub magic : ℕ

-- sizeof(AllocHeader).
abbrev pub header_size : ℕ
header_size = 16

pub record Heap : Type 0 where
  pub buckets : List (List ℕ)
  pub slots : List PageSlot
  pub headers : ℕ → AllocHeader

abbrev pub put_header : (ℕ → AllocHeader) → (addr : ℕ) → AllocHeader → ℕ → AllocHeader
put_header headers addr h a = if a == addr then h else headers a

-- `64 - __builtin_clzll(n)`, the number of bits of n; the fuel is 64.
unfoldable pub bit_width : (fuel n : ℕ) → ℕ
bit_width zero n = 0
bit_width (suc fuel) n = let rest = bit_width fuel (n / 2) in if n == 0 then 0 else suc rest

-- `none` for -1.
unfoldable pub get_bucket_index : (size : ℕ) → Option ℕ
get_bucket_index size =
    if leb size 32
    then some 0
    else if ltb 4096 size
    then none
    else some (bit_width 64 (size - 1) - 5)

abbrev pub get_bucket_size : (index : ℕ) → ℕ
get_bucket_size index = 32 * 2 ^ index

abbrev pub heap_init : (capacity : ℕ) → Heap → Heap
heap_init capacity heap = record {
  buckets = replicate num_buckets [];
  slots = replicate capacity empty_slot;
  headers = heap.headers;
}

-- The heap, the pointer and the frames that go back.
pub record Allocation : Type 0 where
  pub heap : Heap
  pub ptr : ℕ
  pub released : List ℕ

abbrev pub no_memory : Heap → List ℕ → Allocation
no_memory heap released = record { heap = heap; ptr = 0; released = released }

-- `frames` is the first of the frames in a row.
abbrev pub heap_alloc_large : Heap → (total_size : ℕ) → (frames : Option ℕ) → Allocation
heap_alloc_large heap total_size none = no_memory heap []
heap_alloc_large heap total_size (some virt) =
    let pages = (total_size + 4095) % 2 ^ 64 / 4096 in
    record {
      heap = record {
        buckets = heap.buckets;
        slots = heap.slots;
        headers = put_header heap.headers virt (record { size = pages * 4096; magic = heap_magic });
      };
      ptr = virt + header_size;
      released = [];
    }

-- The loop that cuts a page into blocks.
unfoldable pub push_blocks : (rounds i page_virt bucket_size : ℕ) → List ℕ → List ℕ
push_blocks zero i page_virt bucket_size blocks = blocks
push_blocks (suc rounds) i page_virt bucket_size blocks =
    push_blocks rounds (i + 1) page_virt bucket_size ((page_virt + i * bucket_size) ∷ blocks)

-- The blocks outside a page, in their order.
unfoldable pub outside_page : (page_virt : ℕ) → List ℕ → List ℕ
outside_page page_virt [] = []
outside_page page_virt (addr ∷ blocks) =
    let rest = outside_page page_virt blocks in
    if ltb addr page_virt || leb (page_virt + 4096) addr then addr ∷ rest else rest

abbrev pub bucket_remove_page_blocks : List (List ℕ) → (bucket_idx page_virt : ℕ) → List (List ℕ)
bucket_remove_page_blocks buckets bucket_idx page_virt =
    set buckets bucket_idx (outside_page page_virt (get_or buckets bucket_idx []))

-- `reinterpret_cast<AllocHeader *>(ptr) - 1`.
abbrev pub header_before : ℕ → ℕ
header_before ptr = (ptr + 2 ^ 64 - header_size) % 2 ^ 64

-- The address of the header, the pointer that malloc gave, and whether it was aligned after that.
unfoldable pub heap_resolve_header : (ℕ → AllocHeader) → (user_ptr : ℕ) → Option (ℕ × ℕ × Bool)
heap_resolve_header headers user_ptr =
    let header = headers (header_before user_ptr) in
    let raw_addr = header.size in
    if user_ptr == 0
    then none
    else if not (header.magic == aligned_magic)
    then some (header_before user_ptr, user_ptr, false)
    else if raw_addr == 0 || leb user_ptr raw_addr
    then none
    else some (header_before raw_addr, raw_addr, true)

-- The page is cut into blocks.
abbrev pub with_page_blocks : Heap → (bucket_idx page_virt : ℕ) → List PageSlot → Heap
with_page_blocks heap bucket_idx page_virt slots =
    let bucket_size = get_bucket_size bucket_idx in
    record {
      buckets = set heap.buckets bucket_idx (
          push_blocks (4096 / bucket_size) 0 page_virt bucket_size
            (get_or heap.buckets bucket_idx []));
      slots = slots;
      headers = heap.headers;
    }

-- What follows page_tracker_add; `again` is the call of malloc_unlocked.
abbrev pub after_add :
    (Heap → Allocation) → Heap → (bucket_idx page_virt : ℕ) → Option (List PageSlot) → Allocation
after_add again heap bucket_idx page_virt none = no_memory heap (page_virt ∷ [])
after_add again heap bucket_idx page_virt (some slots) =
    again (with_page_blocks heap bucket_idx page_virt slots)

module _ (capacity : ℕ) where
  -- The first block of a list is taken.
  abbrev pub take_block : Heap → (bucket_idx block : ℕ) → List ℕ → Allocation
  take_block heap bucket_idx block rest = record {
    heap = record {
      buckets = set heap.buckets bucket_idx rest;
      slots = page_tracker_alloc_block capacity heap.slots block;
      headers =
          put_header heap.headers block
            (record { size = get_bucket_size bucket_idx; magic = heap_magic });
    };
    ptr = block + header_size;
    released = [];
  }

  -- An empty list.
  abbrev pub refill :
      (Heap → Allocation) → Heap → (bucket_idx : ℕ) → (frame : Option ℕ) → Allocation
  refill again heap bucket_idx none = no_memory heap []
  refill again heap bucket_idx (some page_virt) =
      let total = 4096 / get_bucket_size bucket_idx % 2 ^ 16 in
      after_add again heap bucket_idx page_virt
        (page_tracker_add capacity heap.slots page_virt bucket_idx total)

  abbrev pub from_bucket :
      (Heap → Allocation) → Heap → (frame : Option ℕ) → (bucket_idx : ℕ) → List ℕ → Allocation
  from_bucket again heap frame bucket_idx [] = refill again heap bucket_idx frame
  from_bucket again heap frame bucket_idx (block ∷ rest) = take_block heap bucket_idx block rest

  abbrev pub small_block : (Heap → Allocation) → Heap → (frame : Option ℕ) → Option ℕ → Allocation
  small_block again heap frame none = no_memory heap []
  small_block again heap frame (some bucket_idx) =
      from_bucket again heap frame bucket_idx (get_or heap.buckets bucket_idx [])

  -- The fuel is the number of calls: one, and one more after a page is cut. `frame` is the answer of
  -- pmm_alloc_frame or of pmm_alloc_frames, for the first of the calls.
  unfoldable pub malloc_unlocked : (fuel : ℕ) → Heap → (size : ℕ) → (frame : Option ℕ) → Allocation
  malloc_unlocked zero heap size frame = no_memory heap []
  malloc_unlocked (suc fuel) heap size frame =
      let again : Heap → Allocation = λ heap'. malloc_unlocked fuel heap' size none in
      if size == 0 || leb (2 ^ 64) (size + header_size)
      then no_memory heap []
      else if ltb 4096 (size + header_size)
      then heap_alloc_large heap (size + header_size) frame
      else small_block again heap frame (get_bucket_index (size + header_size))

  abbrev pub malloc : Heap → (size : ℕ) → (frame : Option ℕ) → Allocation
  malloc = malloc_unlocked 2
