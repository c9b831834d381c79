-- ===== src/Memory/Vma/Order.antt =====
-- The order of the areas of src/mm/vma.cpp.
use uni_os.Prelude.{ℕ, ◌≤◌, ◌<◌, Bool, Option, none, some, List, [], ◌∷◌, arith}
use uni_os.Memory.Vma.{
  Vma, VmaType, sentinel, new_vma, insert_at, vma_add, vma_remove, unmap_from, overlap, vma_unmap,
}

-- From `lo` on the areas follow one another, none overlaps the next, and each ends no sooner than
-- it starts.
abbrev pub IsOrdered : ℕ → List Vma → Type 0
IsOrdered lo [] = Unit
IsOrdered lo (c ∷ cs) = (lo ≤ c.start) × (c.start ≤ c.end) × IsOrdered c.end cs

pub IsOrdered-mono : (l : List Vma) {lo lo' : ℕ} → lo' ≤ lo → IsOrdered lo l → IsOrdered lo' l
IsOrdered-mono [] le h = tt
IsOrdered-mono (c ∷ cs) le h = (omega arith, h.1, h.2)

-- The same of a list that may be missing.
abbrev IsOrderedIfAny : ℕ → Option (List Vma) → Type 0
IsOrderedIfAny lo none = Unit
IsOrderedIfAny lo (some l) = IsOrdered lo l

insert_at-IsOrdered :
    (alloc : Bool) (n : Vma) (l : List Vma) {lo : ℕ}
    → lo ≤ n.start
    → n.start ≤ n.end
    → IsOrdered lo l
    → IsOrderedIfAny lo (insert_at alloc n l)
unfolding insert_at
insert_at-IsOrdered alloc n [] lo_le le h = ground arith
insert_at-IsOrdered alloc n (c ∷ cs) {lo} lo_le le h =
    ground (arith, λ (p : c.end ≤ n.start). insert_at-IsOrdered alloc n cs p le h.2)

-- Whether `vma_add` adds an area or not, it leaves an ordered list ordered.
pub vma_add-IsOrdered :
    (m0 m1 : Bool) (l : List Vma) (start end flags : ℕ) (type : VmaType)
    → IsOrdered 0 l
    → IsOrdered 0 (vma_add m0 m1 l start end flags type).1
unfolding vma_add
vma_add-IsOrdered m0 m1 [] start end flags type h =
    ground (arith, insert_at-IsOrdered m1 (new_vma start end flags type) (sentinel ∷ []) {lo = 0})
vma_add-IsOrdered m0 m1 (c ∷ cs) start end flags type h =
    ground (arith, insert_at-IsOrdered m1 (new_vma start end flags type) (c ∷ cs) {lo = 0})

-- `vma_remove` leaves an ordered list ordered.
pub vma_remove-IsOrdered :
    (lo : ℕ) (l : List Vma) (start end : ℕ) → IsOrdered lo l → IsOrdered lo (vma_remove l start end)
unfolding vma_remove
vma_remove-IsOrdered lo [] start end h = tt
vma_remove-IsOrdered lo (c ∷ cs) start end h =
    ground (
      arith,
      vma_remove-IsOrdered c.end cs start end h.2,
      IsOrdered-mono cs {lo = c.end} {lo' = lo},
    )

unmap_from-IsOrdered :
    (lo start end : ℕ) (allocs : List Bool) (l : List Vma)
    → start < end
    → IsOrdered lo l
    → IsOrdered lo (unmap_from start end allocs l).1
unfolding unmap_from overlap
unmap_from-IsOrdered lo start end allocs [] lt h = tt
unmap_from-IsOrdered lo start end [] (c ∷ cs) lt h = ground (
  arith,
  unmap_from-IsOrdered c.end start end [] cs lt h.2,
  IsOrdered-mono cs {lo = c.end} {lo' = lo},
  IsOrdered-mono (unmap_from start end [] cs).1 {lo = c.end} {lo' = lo},
  IsOrdered-mono (unmap_from start end [] cs).1 {lo = c.end} {lo' = start},
)
unmap_from-IsOrdered lo start end (m ∷ ms) (c ∷ cs) lt h = ground (
  arith,
  unmap_from-IsOrdered c.end start end (m ∷ ms) cs lt h.2,
  unmap_from-IsOrdered c.end start end ms cs lt h.2,
  IsOrdered-mono (unmap_from start end (m ∷ ms) cs).1 {lo = c.end} {lo' = lo},
  IsOrdered-mono (unmap_from start end (m ∷ ms) cs).1 {lo = c.end} {lo' = start},
)

-- `vma_unmap` leaves an ordered list ordered, also where it fails for want of memory.
pub vma_unmap-IsOrdered :
    (allocs : List Bool) (l : List Vma) (start end : ℕ)
    → IsOrdered 0 l
    → IsOrdered 0 (vma_unmap allocs l start end).1
unfolding vma_unmap
vma_unmap-IsOrdered allocs l start end h = ground (arith, unmap_from-IsOrdered 0 start end allocs l)
