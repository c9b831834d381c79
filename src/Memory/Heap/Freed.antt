-- ===== src/Memory/Heap/Freed.antt =====
-- src/mm/heap.cpp: a pointer that is freed twice.
use uni_os.Prelude.{
  ℕ, ◌≡◌, inl, inr, refl, sym, ap, ◌∙◌, arith, Bool, true, false, ◌||◌, Bool-cases, Option, none,
  some, List, [], ltb, leb, ◌==◌, ==_iff,
}
use mathlib.Core.Path.{subst}
use uni_os.Memory.Heap.{
  AllocHeader, Heap, heap_magic, aligned_magic, put_header, header_before, get_bucket_index,
  heap_resolve_header,
}
use uni_os.Memory.Heap.Calls.{with_header, put_back, free_block, free_resolved, free}
use uni_os.Memory.Heap.Tracker.{PageSlot, page_tracker_free_block}

-- A header that is marked as free.
abbrev marked : (ℕ → AllocHeader) → (header : ℕ) → ℕ → AllocHeader
marked headers header =
    put_header headers header (record { size = (headers header).size; magic = 0 })

marked_self : (headers : ℕ → AllocHeader) (header : ℕ) → (marked headers header header).magic ≡ 0
marked_self headers header =
    let self : (header == header) ≡ true = (==_iff header header).1 refl in rw self refl

-- What is resolved is a header that is marked as free.
abbrev IsSpent : (ℕ → AllocHeader) → Option (ℕ × ℕ × Bool) → Type 0
IsSpent headers none = Unit {0}
IsSpent headers (some (header, base, was_aligned)) = (headers header).magic ≡ 0

module _ (headers : ℕ → AllocHeader) (ptr : ℕ) (not_null : (ptr == 0) ≡ false) where
  IsSpent-plain :
      (h : ℕ → AllocHeader)
      → (h (header_before ptr)).magic ≡ 0
      → IsSpent h (heap_resolve_header h ptr)
  unfolding heap_resolve_header
  IsSpent-plain h e =
      let mark : ((h (header_before ptr)).magic == aligned_magic) ≡ false = ground (arith, e) in
      rw (not_null, mark) e

  IsSpent-aligned :
      let raw = (headers (header_before ptr)).size in
      ((headers (header_before ptr)).magic == aligned_magic) ≡ true
      → (raw == 0 || leb ptr raw) ≡ false
      → IsSpent
          (marked headers (header_before raw))
          (heap_resolve_header (marked headers (header_before raw)) ptr)
  unfolding heap_resolve_header
  IsSpent-aligned mark inside =
      let raw = (headers (header_before ptr)).size in
      let h = marked headers (header_before raw) in
      elim (Bool-cases (header_before ptr == header_before raw)) [
        | inl same ↦
            let e = (==_iff (header_before ptr) (header_before raw)).0 same in
            unfold heap_resolve_header in
            IsSpent-plain h
              (subst (λ n. (h n).magic ≡ 0) (sym e) (marked_self headers (header_before raw)))
        | inr other ↦ rw (not_null, other, mark, inside) (marked_self headers (header_before raw))
      ]

module _ (capacity : ℕ) where
  put_back-headers :
      (heap : Heap) (header : ℕ) (slots : List PageSlot) (answer : Option (ℕ × ℕ))
      (index : Option ℕ)
      → (put_back capacity heap header slots answer index).0.headers ≡ heap.headers
  put_back-headers heap header slots (some (page, bucket)) index = refl
  put_back-headers heap header slots none none = refl
  put_back-headers heap header slots none (some bucket) = refl

  free_block-headers :
      (heap : Heap) (header : ℕ)
      → (free_block capacity heap header).0.headers ≡ marked heap.headers header
  free_block-headers heap header =
      let size = (heap.headers header).size in
      let (slots, answer) = page_tracker_free_block capacity heap.slots header in
      elim (Bool-cases (ltb 4096 size)) [
        | inl e ↦ rw e refl
        | inr e ↦ rw e (
            put_back-headers (with_header heap header (record { size = size; magic = 0 })) header
              slots answer (get_bucket_index size))
      ]

  free-null : (heap : Heap) (ptr : ℕ) → (ptr == 0) ≡ true → free capacity heap ptr ≡ (heap, [])
  unfolding free
  free-null heap ptr e = rw e refl

  free_resolved-spent :
      (heap : Heap) (r : Option (ℕ × ℕ × Bool))
      → IsSpent heap.headers r
      → free_resolved capacity heap r ≡ (heap, [])
  free_resolved-spent heap none h = refl
  free_resolved-spent heap (some (header, base, was_aligned)) h =
      let mark : ((heap.headers header).magic == heap_magic) ≡ false = ground (arith, h) in
      rw mark refl

  module _ (ptr : ℕ) (not_null : (ptr == 0) ≡ false) where
    free-spent :
        (heap : Heap)
        → IsSpent heap.headers (heap_resolve_header heap.headers ptr)
        → free capacity heap ptr ≡ (heap, [])
    unfolding free
    free-spent heap h =
        rw not_null (free_resolved-spent heap (heap_resolve_header heap.headers ptr) h)

    free-resolved :
        (heap : Heap) (r : Option (ℕ × ℕ × Bool))
        → heap_resolve_header heap.headers ptr ≡ r
        → free capacity heap ptr ≡ free_resolved capacity heap r
    unfolding free
    free-resolved heap r e = rw not_null (ap (free_resolved capacity heap) e)

    twice_refused :
        (heap : Heap)
        → free capacity heap ptr ≡ (heap, [])
        → free capacity (free capacity heap ptr).0 ptr ≡ ((free capacity heap ptr).0, [])
    twice_refused heap e = subst (λ o. free capacity o.0 ptr ≡ (o.0, [])) (sym e) e

    twice_resolved :
        (heap : Heap) (header base : ℕ) (was_aligned : Bool)
        → heap_resolve_header heap.headers ptr ≡ some (header, base, was_aligned)
        → IsSpent
            (marked heap.headers header)
            (heap_resolve_header (marked heap.headers header) ptr)
        → free capacity (free capacity heap ptr).0 ptr ≡ ((free capacity heap ptr).0, [])
    twice_resolved heap header base was_aligned e spent =
        let done = free-resolved heap (some (header, base, was_aligned)) e in
        elim (Bool-cases ((heap.headers header).magic == heap_magic)) [
          | inr z ↦ twice_refused heap (done ∙ (rw z refl))
          | inl z ↦
              let o = free_block capacity heap header in
              let done' : free capacity heap ptr ≡ o = done ∙ (rw z refl) in
              let gone =
                subst (λ h. IsSpent h (heap_resolve_header h ptr))
                  (sym (free_block-headers heap header)) spent in
              subst (λ (p : Heap × List ℕ). free capacity p.0 ptr ≡ (p.0, [])) (sym done')
                (free-spent o.0 gone)
        ]

  -- A second free of the same pointer leaves the heap as it is and hands no frame back, whatever the heap
  -- and the pointer are, aligned or not.
  pub free-free :
      (heap : Heap) (ptr : ℕ)
      → free capacity (free capacity heap ptr).0 ptr ≡ ((free capacity heap ptr).0, [])
  unfolding heap_resolve_header
  free-free heap ptr = elim (Bool-cases (ptr == 0)) [
    | inl e ↦ free-null (free capacity heap ptr).0 ptr e
    | inr nn ↦
        let h = heap.headers (header_before ptr) in
        elim (Bool-cases (h.magic == aligned_magic)) [
          | inr plain ↦
              twice_resolved ptr nn heap (header_before ptr) ptr false (rw (nn, plain) refl) (
                IsSpent-plain heap.headers ptr nn (marked heap.headers (header_before ptr))
                  (marked_self heap.headers (header_before ptr)))
          | inl mark ↦ elim (Bool-cases (h.size == 0 || leb ptr h.size)) [
            | inl bad ↦
                let none_found : heap_resolve_header heap.headers ptr ≡ none =
                  rw (nn, mark, bad) refl in
                twice_refused ptr nn heap (free-resolved ptr nn heap none none_found)
            | inr inside ↦
                twice_resolved ptr nn heap (header_before h.size) h.size true
                  (rw (nn, mark, inside) refl) (IsSpent-aligned heap.headers ptr nn mark inside)
          ]
        ]
  ]
