-- ===== src/Memory/Vma.antt =====
-- src/mm/vma.cpp and include/kernel/mm/vma.h: the list of virtual memory areas of a process.
-- A linked list of `VMA` is a list, so a link that is advanced is a recursion on the rest, and the
-- allocator of src/mm/heap.cpp enters by the outcomes of the calls of `malloc` that a call makes.
pub mod Order
pub mod Find
pub mod Unmap
use uni_os.Prelude.{
  ℕ, ◌≤◌, ◌<◌, Bool, true, false, not, ◌&&◌, ◌||◌, Option, none, some, List, [], ◌∷◌, ltb, leb,
  ◌==◌, if◌then◌else◌,
}

pub data VmaType : Type 0 where
  generic text data_segment stack heap mmio anonymous shared : VmaType

pub record Vma : Type 0 where
  pub start : ℕ
  pub end : ℕ
  pub flags : ℕ
  pub type : VmaType
  pub is_cow : Bool

abbrev pub contains : Vma → ℕ → Bool
contains c addr = leb c.start addr && ltb addr c.end

unfoldable pub vma_find : List Vma → ℕ → Option Vma
vma_find [] addr = none
vma_find (c ∷ cs) addr = if contains c addr then some c else vma_find cs addr

-- The area that an empty list gets first.
abbrev pub sentinel : Vma
sentinel = record { start = 0; end = 0; flags = 0; type = generic; is_cow = false }

-- The walk to the link and the insertion there, with the outcome of the last `malloc`; `none` for
-- the null pointer, where the list is as it was.
unfoldable pub insert_at : Bool → Vma → List Vma → Option (List Vma)
insert_at alloc n [] = if alloc then some (n ∷ []) else none
insert_at alloc n (c ∷ cs) =
    let rest = insert_at alloc n cs in
    if ltb c.start n.start
    then (if ltb n.start c.end then none else elim rest [ none ↦ none | some cs' ↦ some (c ∷ cs') ])
    else if ltb c.start n.end
    then none
    else if alloc
    then some (n ∷ c ∷ cs)
    else none

abbrev pub add_to : Bool → Vma → List Vma → Option Vma × List Vma
add_to alloc n l = elim (insert_at alloc n l) [ none ↦ (none, l) | some l' ↦ (some n, l') ]

abbrev pub new_vma : ℕ → ℕ → ℕ → VmaType → Vma
new_vma start end flags type = record {
  start = start;
  end = end;
  flags = flags;
  type = type;
  is_cow = false;
}

-- `alloc_sentinel` and `alloc` are the outcomes of the two calls of `malloc`. The pointer to the
-- list is not null.
unfoldable pub vma_add :
    (alloc_sentinel alloc : Bool) → List Vma → ℕ → ℕ → ℕ → VmaType → Option Vma × List Vma
vma_add alloc_sentinel alloc l start end flags type = if leb end start then (none, l) else elim l [
  | [] ↦
      if alloc_sentinel
      then add_to alloc (new_vma start end flags type) (sentinel ∷ [])
      else (none, [])
  | c ∷ cs ↦ add_to alloc (new_vma start end flags type) (c ∷ cs)
]

unfoldable pub vma_remove : List Vma → ℕ → ℕ → List Vma
vma_remove [] start end = []
vma_remove (c ∷ cs) start end =
    if c.start == start && c.end == end then cs else c ∷ vma_remove cs start end

-- How one area meets the range that is unmapped: the tests of the loop, in its order.
pub data Overlap : Type 0 where
  apart covered left right inside : Overlap

unfoldable pub overlap : ℕ → ℕ → Vma → Overlap
overlap start end c =
    if leb end c.start || leb c.end start
    then apart
    else if leb start c.start && leb c.end end
    then covered
    else if leb start c.start && ltb end c.end
    then left
    else if ltb c.start start && leb c.end end
    then right
    else inside

-- The loop of `vma_unmap`. `allocs` are the outcomes of the calls of `malloc` to come, an empty
-- list stands for failure.
unfoldable pub unmap_from : ℕ → ℕ → List Bool → List Vma → Bool × List Vma
unmap_from start end allocs [] = (true, [])
unmap_from start end allocs (c ∷ cs) = elim (overlap start end c) [
  | apart ↦ let (done, cs') = unmap_from start end allocs cs in (done, c ∷ cs')
  | covered ↦ unmap_from start end allocs cs
  | left ↦
      let (done, cs') = unmap_from start end allocs cs in (done, record c { start = end } ∷ cs')
  | right ↦
      let (done, cs') = unmap_from start end allocs cs in (done, record c { end = start } ∷ cs')
  | inside ↦ elim allocs [
    | [] ↦ (false, c ∷ cs)
    | alloc ∷ more ↦
        let (done, cs') = unmap_from start end more cs in
        if alloc
        then (done, record c { end = start } ∷ record c { start = end } ∷ cs')
        else (false, c ∷ cs)
  ]
]

unfoldable pub vma_unmap : List Bool → List Vma → ℕ → ℕ → Bool × List Vma
unfolding unmap_from overlap
vma_unmap allocs l start end = if leb end start then (false, l) else unmap_from start end allocs l

-- The loop of `vma_clone`, with an outcome of `malloc` for each area.
unfoldable pub vma_clone : List Bool → List Vma → Option (List Vma)
vma_clone allocs [] = some []
vma_clone [] (c ∷ cs) = none
vma_clone (alloc ∷ allocs) (c ∷ cs) =
    let rest = vma_clone allocs cs in
    if alloc then (elim rest [ none ↦ none | some cs' ↦ some (c ∷ cs') ]) else none
