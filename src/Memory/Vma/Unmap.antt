-- ===== src/Memory/Vma/Unmap.antt =====
-- What `vma_find` of src/mm/vma.cpp finds after `vma_unmap`, `vma_remove` and `vma_clone`.
use mathlib.Core.Option
use uni_os.Prelude.{
  ℕ, ◌≤◌, ◌<◌, ◌≡◌, Bool, true, ◌&&◌, Option, none, some, List, [], ◌∷◌, arith, leb, ltb, ◌⊎◌,
  if◌then◌else◌,
}
use uni_os.Memory.Vma.{
  Vma, VmaType, contains, vma_find, Overlap, apart, covered, left, right, inside, overlap,
  unmap_from, vma_unmap,
}

-- What an area says of its addresses, apart from its bounds.
abbrev Attributes : Type 0
Attributes = ℕ × VmaType × Bool

abbrev attributes : Vma → Attributes
attributes c = (c.flags, c.type, c.is_cow)

pub attributes_at : List Vma → ℕ → Option Attributes
attributes_at l addr = Option.map attributes (vma_find l addr)

attributes_at-cons :
    (c : Vma) (cs : List Vma) (addr : ℕ)
    → attributes_at (c ∷ cs) addr
      ≡ (if contains c addr then some (attributes c) else attributes_at cs addr)
unfolding attributes_at vma_find
attributes_at-cons c cs addr = ground arith

-- What the tests of the loop have found out.
abbrev Meets : ℕ → ℕ → Vma → Overlap → Type 0
Meets start end c apart = (end ≤ c.start) ⊎ (c.end ≤ start)
Meets start end c covered = (start ≤ c.start) × (c.end ≤ end)
Meets start end c left = (start ≤ c.start) × (c.start < end) × (end < c.end)
Meets start end c right = (c.start < start) × (start < c.end) × (c.end ≤ end)
Meets start end c inside = (c.start < start) × (end < c.end)

overlap-Meets : (start end : ℕ) (c : Vma) → Meets start end c (overlap start end c)
unfolding overlap
overlap-Meets start end c = ground arith

-- The looked up attributes with those of the range taken away.
abbrev without : ℕ → ℕ → ℕ → Option Attributes → Option Attributes
without start end addr found = if leb start addr && ltb addr end then none else found

module _ (start end : ℕ) (lt : start < end) (c : Vma) (cs rest : List Vma) (addr : ℕ) where
  keep_apart :
      Meets start end c apart
      → attributes_at rest addr ≡ without start end addr (attributes_at cs addr)
      → attributes_at (c ∷ rest) addr ≡ without start end addr (attributes_at (c ∷ cs) addr)
  keep_apart m ih = ground (arith, attributes_at-cons c rest addr, attributes_at-cons c cs addr)

  keep_covered :
      Meets start end c covered
      → attributes_at rest addr ≡ without start end addr (attributes_at cs addr)
      → attributes_at (rest) addr ≡ without start end addr (attributes_at (c ∷ cs) addr)
  keep_covered m ih = ground (arith, attributes_at-cons c cs addr)

  keep_left :
      Meets start end c left
      → attributes_at rest addr ≡ without start end addr (attributes_at cs addr)
      → attributes_at (record c { start = end } ∷ rest) addr
        ≡ without start end addr (attributes_at (c ∷ cs) addr)
  keep_left m ih =
      ground (
        arith,
        attributes_at-cons (record c { start = end }) rest addr,
        attributes_at-cons c cs addr,
      )

  keep_right :
      Meets start end c right
      → attributes_at rest addr ≡ without start end addr (attributes_at cs addr)
      → attributes_at (record c { end = start } ∷ rest) addr
        ≡ without start end addr (attributes_at (c ∷ cs) addr)
  keep_right m ih =
      ground (
        arith,
        attributes_at-cons (record c { end = start }) rest addr,
        attributes_at-cons c cs addr,
      )

  keep_inside :
      Meets start end c inside
      → attributes_at rest addr ≡ without start end addr (attributes_at cs addr)
      → attributes_at (record c { end = start } ∷ record c { start = end } ∷ rest) addr
        ≡ without start end addr (attributes_at (c ∷ cs) addr)
  keep_inside m ih = ground (
    arith,
    attributes_at-cons (record c { end = start }) (record c { start = end } ∷ rest) addr,
    attributes_at-cons (record c { start = end }) rest addr,
    attributes_at-cons c cs addr,
  )

unmap_from-attributes :
    (start end : ℕ) (allocs : List Bool) (l : List Vma) (addr : ℕ)
    → start < end
    → (unmap_from start end allocs l).0 ≡ true
    → attributes_at (unmap_from start end allocs l).1 addr
      ≡ without start end addr (attributes_at l addr)
unfolding unmap_from
unmap_from-attributes start end allocs [] addr lt h = unfold attributes_at vma_find in ground arith
unmap_from-attributes start end [] (c ∷ cs) addr lt h = ground (
  arith,
  unmap_from-attributes start end [] cs addr lt,
  overlap-Meets start end c,
  keep_apart start end lt c cs (unmap_from start end [] cs).1 addr,
  keep_covered start end lt c cs (unmap_from start end [] cs).1 addr,
  keep_left start end lt c cs (unmap_from start end [] cs).1 addr,
  keep_right start end lt c cs (unmap_from start end [] cs).1 addr,
)
unmap_from-attributes start end (m ∷ ms) (c ∷ cs) addr lt h = ground (
  arith,
  unmap_from-attributes start end (m ∷ ms) cs addr lt,
  unmap_from-attributes start end ms cs addr lt,
  overlap-Meets start end c,
  keep_apart start end lt c cs (unmap_from start end (m ∷ ms) cs).1 addr,
  keep_covered start end lt c cs (unmap_from start end (m ∷ ms) cs).1 addr,
  keep_left start end lt c cs (unmap_from start end (m ∷ ms) cs).1 addr,
  keep_right start end lt c cs (unmap_from start end (m ∷ ms) cs).1 addr,
  keep_inside start end lt c cs (unmap_from start end ms cs).1 addr,
)

-- After a `vma_unmap` that succeeds, no area holds an address of the range, and every other address
-- has the flags, the type and the copy-on-write mark that it had.
pub attributes_at-vma_unmap :
    (allocs : List Bool) (l : List Vma) (start end addr : ℕ)
    → (vma_unmap allocs l start end).0 ≡ true
    → attributes_at (vma_unmap allocs l start end).1 addr
      ≡ (if leb start addr && ltb addr end then none else attributes_at l addr)
unfolding vma_unmap
attributes_at-vma_unmap allocs l start end addr h =
    ground (arith, unmap_from-attributes start end allocs l addr)
