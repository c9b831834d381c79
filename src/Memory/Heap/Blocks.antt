-- ===== src/Memory/Heap/Blocks.antt =====
-- src/mm/heap.cpp: the small blocks that malloc gives, and those that go with a page.
use uni_os.Prelude.{
  ℕ, zero, suc, ◌+◌, ◌*◌, ◌/◌, ◌%◌, ◌^◌, ◌<◌, ◌≤◌, ◌≡◌, ◌⊎◌, inl, inr, refl, sym, ap, arith, true,
  false, Option, none, some, List, [], ◌∷◌, length, ltb, leb, ◌==◌, ==_iff, get_or, get_or-set_self,
}
use mathlib.Core.Path.{subst}
use native.Mathlib.Nat.{pow-le-pow_right, one-le-pow, le-div_iff_mul-le}
use uni_os.Memory.Heap.{
  Heap, Allocation, heap_magic, header_size, num_buckets, get_bucket_index, get_bucket_size,
  push_blocks, take_block, from_bucket, with_page_blocks, after_add, small_block, malloc_unlocked,
  malloc,
}
use uni_os.Memory.Heap.Tracker.{PageSlot, page_tracker_add}
use uni_os.Memory.Heap.Sizes.{IsBucket, get_bucket_index-IsBucket}

-- The pointer of a block with its header, large enough for `size` bytes after it.
pub record IsServed (size : ℕ) (o : Allocation) : Type 0 where
  pub block : ℕ
  pub ptr : o.ptr ≡ block + header_size
  pub magic : (o.heap.headers block).magic ≡ heap_magic
  pub room : size + header_size ≤ (o.heap.headers block).size
  pub nothing_back : o.released ≡ []

module _ (capacity : ℕ) where
  take_block-IsServed :
      (heap : Heap) (size bucket_idx block : ℕ) (rest : List ℕ)
      → size + header_size ≤ get_bucket_size bucket_idx
      → IsServed size (take_block capacity heap bucket_idx block rest)
  take_block-IsServed heap size bucket_idx block rest fits =
      let self : (block == block) ≡ true = (==_iff block block).1 refl in
      record {
        block = block;
        ptr = refl;
        magic = rw self refl;
        room = rw self fits;
        nothing_back = refl;
      }

  -- A list that is not empty serves.
  from_bucket-IsServed :
      (again : Heap → Allocation) (heap : Heap) (size bucket_idx : ℕ) (frame : Option ℕ)
      (blocks : List ℕ)
      → size + header_size ≤ get_bucket_size bucket_idx
      → 0 < length blocks
      → IsServed size (from_bucket capacity again heap frame bucket_idx blocks)
  from_bucket-IsServed again heap size bucket_idx frame [] fits some_block = absurd (omega arith)
  from_bucket-IsServed again heap size bucket_idx frame (block ∷ rest) fits some_block =
      take_block-IsServed heap size bucket_idx block rest fits

  length-push_blocks :
      (rounds i page_virt bucket_size : ℕ) (blocks : List ℕ)
      → length (push_blocks rounds i page_virt bucket_size blocks) ≡ rounds + length blocks
  unfolding push_blocks
  length-push_blocks zero i page_virt bucket_size blocks = omega arith
  length-push_blocks (suc rounds) i page_virt bucket_size blocks =
      let rest =
        length-push_blocks rounds (i + 1) page_virt bucket_size
          ((page_virt + i * bucket_size) ∷ blocks) in
      omega (arith, rest)

  malloc_unlocked-small :
      (fuel : ℕ) (heap : Heap) (size : ℕ) (frame : Option ℕ)
      → 0 < size
      → size + header_size ≤ 4096
      → malloc_unlocked capacity (suc fuel) heap size frame
        ≡ small_block capacity
            (λ heap'. malloc_unlocked capacity fuel heap' size none)
            heap
            frame
            (get_bucket_index (size + header_size))
  unfolding malloc_unlocked
  malloc_unlocked-small fuel heap size frame h l =
      let not_zero : (size == 0) ≡ false = ground (arith, h) in
      let fits : leb (2 ^ 64) (size + 16) ≡ false = ground (arith, l) in
      let small : ltb 4096 (size + 16) ≡ false = ground (arith, l) in
      rw (not_zero, fits, small) refl

  -- Whether a list of blocks can serve: it has one, or a frame is given and the table takes its page.
  abbrev pub IsReady : Heap → (frame : Option ℕ) → (bucket_idx : ℕ) → Type 0
  IsReady heap frame bucket_idx =
      (0 < length (get_or heap.buckets bucket_idx []))
      ⊎ ((page_virt : ℕ) × (slots : List PageSlot) × (frame ≡ some page_virt)
          × (page_tracker_add capacity heap.slots page_virt bucket_idx
                (4096 / get_bucket_size bucket_idx % 2 ^ 16)
              ≡ some slots))

  some_blocks : (bucket_idx : ℕ) → bucket_idx < 8 → 0 < 4096 / get_bucket_size bucket_idx
  some_blocks bucket_idx lt =
      let powers =
        pow-le-pow_right {n = 2} (omega arith) {i = bucket_idx} {j = 7} (omega (arith, lt)) in
      let positive : 1 ≤ 2 ^ bucket_idx = one-le-pow bucket_idx 2 (omega arith) in
      (le-div_iff_mul-le {k = get_bucket_size bucket_idx} {x = 1} {y = 4096}
          (omega (arith, positive))).1
        (omega (arith, powers))

  refill-IsServed :
      (heap : Heap) (size bucket_idx page_virt : ℕ) (slots : List PageSlot)
      → length heap.buckets ≡ num_buckets
      → 0 < size
      → size + header_size ≤ 4096
      → get_bucket_index (size + header_size) ≡ some bucket_idx
      → bucket_idx < 8
      → size + header_size ≤ get_bucket_size bucket_idx
      → IsServed size
          (malloc_unlocked capacity 1 (with_page_blocks heap bucket_idx page_virt slots) size none)
  refill-IsServed heap size bucket_idx page_virt slots lists h l index lt fits =
      let heap' = with_page_blocks heap bucket_idx page_virt slots in
      let old = get_or heap.buckets bucket_idx [] in
      let bs = get_bucket_size bucket_idx in
      let blocks = push_blocks (4096 / bs) 0 page_virt bs old in
      let here : get_or heap'.buckets bucket_idx [] ≡ blocks =
        get_or-set_self heap.buckets bucket_idx blocks [] (omega (arith, lists, lt)) in
      let some_block : 0 < length blocks =
        omega
          (arith, length-push_blocks (4096 / bs) 0 page_virt bs old, some_blocks bucket_idx lt) in
      rw (malloc_unlocked-small 0 heap' size none h l, index, here)
        (from_bucket-IsServed (λ heap''. malloc_unlocked capacity 0 heap'' size none) heap' size
          bucket_idx none blocks fits some_block)

  ready-IsServed :
      (heap : Heap) (size bucket_idx : ℕ) (frame : Option ℕ) (blocks : List ℕ)
      → length heap.buckets ≡ num_buckets
      → 0 < size
      → size + header_size ≤ 4096
      → get_bucket_index (size + header_size) ≡ some bucket_idx
      → bucket_idx < 8
      → size + header_size ≤ get_bucket_size bucket_idx
      → IsReady heap frame bucket_idx
      → get_or heap.buckets bucket_idx [] ≡ blocks
      → IsServed size (
          from_bucket capacity
            (λ heap'. malloc_unlocked capacity 1 heap' size none)
            heap
            frame
            bucket_idx
            blocks)
  ready-IsServed heap size bucket_idx frame (block ∷ rest) lists h l index lt fits ready e =
      take_block-IsServed heap size bucket_idx block rest fits
  ready-IsServed heap size bucket_idx frame [] lists h l index lt fits (inl filled) e =
      absurd (omega (arith, filled, ap length e))
  ready-IsServed heap size bucket_idx frame [] lists h l index lt fits
        (inr (page_virt, slots, given, adds)) e =
      let again : Heap → Allocation = λ heap'. malloc_unlocked capacity 1 heap' size none in
      let served = refill-IsServed heap size bucket_idx page_virt slots lists h l index lt fits in
      rw given
        (subst (λ o. IsServed size (after_add again heap bucket_idx page_virt o)) (sym adds) served)

  -- With the eight lists, a size above 0 that fits the largest block with its header, and the list of
  -- its blocks not empty or else a frame given that the table of pages takes, malloc does not fail: its
  -- second call is enough, and it gives the address after a header that holds the mark of the heap and a
  -- size that has room for the header and the bytes asked for; no frame goes back.
  pub malloc-IsServed :
      (heap : Heap) (size bucket_idx : ℕ) (frame : Option ℕ)
      → length heap.buckets ≡ num_buckets
      → 0 < size
      → size + header_size ≤ 4096
      → get_bucket_index (size + header_size) ≡ some bucket_idx
      → IsReady heap frame bucket_idx
      → IsServed size (malloc capacity heap size frame)
  malloc-IsServed heap size bucket_idx frame lists h l index ready =
      let bucket =
        subst (IsBucket (size + header_size)) index
          (get_bucket_index-IsBucket (size + header_size)) in
      rw (malloc_unlocked-small 1 heap size frame h l, index)
        (ready-IsServed heap size bucket_idx frame (get_or heap.buckets bucket_idx []) lists h l
          index bucket.1 bucket.2 ready refl)
