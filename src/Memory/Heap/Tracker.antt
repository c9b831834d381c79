-- ===== src/Memory/Heap/Tracker.antt =====
-- src/mm/heap.cpp: the table of pages that the heap has cut into blocks, a hash table with open
-- addressing. `capacity` stands for MAX_TRACKED_PAGES, 65536, the length of the array; as it is a power
-- of two, `& (MAX_TRACKED_PAGES - 1)` is the rest of a division by it. A loop has as fuel the rounds
-- that are left of `capacity`, and `i` is its counter.
pub mod Probe
pub mod Add
pub mod Pages
pub mod Steps
pub mod Counts
use uni_os.Prelude.{
  ℕ, zero, suc, ◌+◌, ◌-◌, ◌*◌, ◌/◌, ◌%◌, ◌^◌, bit_xor, Bool, true, false, ◌||◌, ◌&&◌, Option, none,
  some, List, [], ◌∷◌, ltb, ◌==◌, if◌then◌else◌, get_or, set, replicate,
}

pub record PageSlot : Type 0 where
  pub page_virt : ℕ
  pub bucket_idx : ℕ
  pub free_count : ℕ
  pub total_count : ℕ

-- A slot with the address SLOT_EMPTY, 0, and one with SLOT_TOMBSTONE, 1.
abbrev pub empty_slot : PageSlot
empty_slot = record { page_virt = 0; bucket_idx = 0; free_count = 0; total_count = 0 }

abbrev pub with_page : PageSlot → ℕ → PageSlot
with_page s page_virt = record {
  page_virt = page_virt;
  bucket_idx = s.bucket_idx;
  free_count = s.free_count;
  total_count = s.total_count;
}

abbrev pub with_free : PageSlot → ℕ → PageSlot
with_free s free_count = record {
  page_virt = s.page_virt;
  bucket_idx = s.bucket_idx;
  free_count = free_count;
  total_count = s.total_count;
}

-- `block_virt & ~(0xFFFULL)`.
abbrev pub page_around : ℕ → ℕ
page_around block_virt = block_virt - block_virt % 4096

module _ (capacity : ℕ) where
  unfoldable pub hash_page : ℕ → ℕ
  hash_page virt =
      let a = bit_xor virt (virt / 2 ^ 33) in
      let b = a * 18397679294719823053 % 2 ^ 64 in let c = bit_xor b (b / 2 ^ 33) in c % capacity

  -- `(idx + i) & (MAX_TRACKED_PAGES - 1)`.
  unfoldable pub probe : (page_virt i : ℕ) → ℕ
  probe page_virt i = (hash_page page_virt + i) % capacity

module _ (capacity : ℕ) (slots : List PageSlot) where
  abbrev pub page_at : ℕ → ℕ
  page_at p = (get_or slots p empty_slot).page_virt

  unfoldable pub open_from : (page_virt rounds i : ℕ) → Option ℕ
  open_from page_virt zero i = none
  open_from page_virt (suc rounds) i =
      let p = probe capacity page_virt i in
      let rest = open_from page_virt rounds (i + 1) in
      if page_at p == 0 || page_at p == 1 then some p else rest

  unfoldable pub find_from : (page_virt rounds i : ℕ) → Option ℕ
  find_from page_virt zero i = none
  find_from page_virt (suc rounds) i =
      let p = probe capacity page_virt i in
      let rest = find_from page_virt rounds (i + 1) in
      if page_at p == page_virt then some p else if page_at p == 0 then none else rest

  -- `none` for the answer false.
  unfoldable pub page_tracker_add : (page_virt bucket_idx total : ℕ) → Option (List PageSlot)
  page_tracker_add page_virt bucket_idx total = elim (open_from page_virt capacity 0) [
    | none ↦ none
    | some p ↦
        let s : PageSlot = record {
          page_virt = page_virt;
          bucket_idx = bucket_idx;
          free_count = total;
          total_count = total;
        } in
        some (set slots p s)
  ]

  -- The index of the slot that the pointer is to.
  unfoldable pub page_tracker_find : (page_virt : ℕ) → Option ℕ
  page_tracker_find page_virt = find_from page_virt capacity 0

  -- What is done to the slot that page_tracker_find answers.
  abbrev pub alloc_at : Option ℕ → List PageSlot
  alloc_at none = slots
  alloc_at (some p) =
      let s = get_or slots p empty_slot in
      if ltb 0 s.free_count then set slots p (with_free s (s.free_count - 1)) else slots

  unfoldable pub page_tracker_alloc_block : (block_virt : ℕ) → List PageSlot
  page_tracker_alloc_block block_virt = alloc_at (page_tracker_find (page_around block_virt))

  abbrev pub free_at : Option ℕ → List PageSlot × Option (ℕ × ℕ)
  free_at none = (slots, none)
  free_at (some p) =
      let s = get_or slots p empty_slot in
      let free_count = (s.free_count + 1) % 2 ^ 16 in
      if free_count == s.total_count
      then (set slots p (with_page (with_free s free_count) 1), some (s.page_virt, s.bucket_idx))
      else (set slots p (with_free s free_count), none)

  -- The table, and with the answer true the page and its bucket. The count is of 16 bits.
  unfoldable pub page_tracker_free_block : (block_virt : ℕ) → List PageSlot × Option (ℕ × ℕ)
  page_tracker_free_block block_virt = free_at (page_tracker_find (page_around block_virt))
