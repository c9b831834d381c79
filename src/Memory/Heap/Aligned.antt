-- ===== src/Memory/Heap/Aligned.antt =====
-- src/mm/heap.cpp: the pointers that aligned_alloc gives.
use uni_os.Prelude.{
  ℕ, ◌+◌, ◌-◌, ◌*◌, ◌/◌, ◌%◌, ◌^◌, ◌<◌, ◌≤◌, ◌≡◌, refl, ap, ◌∙◌, arith, true, false, Option, some,
  leb, ◌==◌, ==_iff,
}
use native.Mathlib.Nat.{mod-lt, div-add-mod, mul-mod_right}
use uni_os.Memory.Heap.{
  AllocHeader, Heap, Allocation, aligned_magic, header_size, put_header, header_before,
  heap_resolve_header, malloc,
}
use uni_os.Memory.Heap.Calls.{round_down, is_power_of_two, aligned_alloc, align_block}

round_down-mod : (alignment x : ℕ) → round_down alignment x % alignment ≡ 0
round_down-mod alignment x =
    let whole = div-add-mod x alignment in
    let product : round_down alignment x ≡ alignment * (x / alignment) = omega (arith, whole) in
    ap (λ n. n % alignment) product ∙ mul-mod_right alignment (x / alignment)

round_down-bounds :
    (alignment x : ℕ)
    → 0 < alignment
    → (round_down alignment x ≤ x) × (x < round_down alignment x + alignment)
round_down-bounds alignment x h =
    let below = mod-lt x h in
    let whole = div-add-mod x alignment in (omega arith, omega (arith, below, whole))

-- What an aligned pointer to `size` bytes in the block at `raw` of `total` bytes is.
pub record IsAligned (alignment size raw total : ℕ) (o : Allocation) : Type 0 where
  pub aligned : o.ptr % alignment ≡ 0
  pub start : raw + header_size ≤ o.ptr
  pub end : o.ptr + size ≤ raw + total
  pub resolved : heap_resolve_header o.heap.headers o.ptr ≡ some (header_before raw, raw, true)

resolve-put_header :
    (headers : ℕ → AllocHeader) (raw ptr : ℕ)
    → 0 < raw
    → raw < ptr
    → heap_resolve_header
        (put_header headers (header_before ptr) (record { size = raw; magic = aligned_magic }))
        ptr
      ≡ some (header_before raw, raw, true)
unfolding heap_resolve_header
resolve-put_header headers raw ptr h lt =
    let self : (header_before ptr == header_before ptr) ≡ true =
      (==_iff (header_before ptr) (header_before ptr)).1 refl in
    let not_null : (ptr == 0) ≡ false = ground (arith, lt) in
    let not_zero : (raw == 0) ≡ false = ground (arith, h) in
    let above : leb ptr raw ≡ false = ground (arith, lt) in
    rw (self, not_null, not_zero, above) refl

align_block-IsAligned :
    (alignment size : ℕ) (o : Allocation)
    → 16 < alignment
    → 0 < o.ptr
    → o.ptr + (size + alignment - 1 + header_size) < 2 ^ 64
    → IsAligned alignment size o.ptr (size + alignment - 1 + header_size) (align_block alignment o)
align_block-IsAligned alignment size o big some_ptr room =
    let x = (o.ptr + header_size + alignment - 1) % 2 ^ 64 in
    let exact : x ≡ o.ptr + header_size + alignment - 1 = omega (arith, room) in
    let (low, high) = round_down-bounds alignment x (omega (arith, big)) in
    let not_null : (o.ptr == 0) ≡ false = ground (arith, some_ptr) in
    rw not_null (record {
      aligned = round_down-mod alignment x;
      start = omega (arith, exact, high, big);
      end = omega (arith, exact, low, big);
      resolved =
          resolve-put_header o.heap.headers o.ptr (round_down alignment x) some_ptr
            (omega (arith, exact, high, big));
    })

-- For a power of two above 16 as alignment: where malloc gives a block inside the address space for the
-- size and the slack, the pointer of aligned_alloc is a multiple of the alignment, stands after a header
-- inside that block, has as many bytes of it as were asked for, and heap_resolve_header finds the block
-- from it.
pub aligned_alloc-IsAligned :
    (capacity : ℕ) (heap : Heap) (alignment size : ℕ) (frame : Option ℕ)
    → is_power_of_two alignment ≡ true
    → 16 < alignment
    → let total = size + alignment - 1 + header_size in
      let o = malloc capacity heap total frame in
      0 < o.ptr
      → o.ptr + total < 2 ^ 64
      → IsAligned alignment size o.ptr total (aligned_alloc capacity heap alignment size frame)
unfolding aligned_alloc
aligned_alloc-IsAligned capacity heap alignment size frame power big some_ptr room =
    let total = size + alignment - 1 + header_size in
    let above : leb alignment 16 ≡ false = ground (arith, big) in
    let fits : leb (2 ^ 64) total ≡ false = ground (arith, room) in
    rw (power, above, fits)
      (align_block-IsAligned alignment size (malloc capacity heap total frame) big some_ptr room)
