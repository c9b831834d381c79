-- ===== src/Memory/Vma/Find.antt =====
-- What `vma_find` of src/mm/vma.cpp finds after `vma_add`, and when `vma_add` adds an area.
use mathlib.Core.Path.{subst}
use uni_os.Prelude.{
  some-none, refl, sym, ap, ◌∙◌, ℕ, ◌≤◌, ◌<◌, ◌≡◌, ◌≢◌, Bool, true, Option, none, some, List, [],
  ◌∷◌, arith, ◌⊎◌, ◌↔◌, if◌then◌else◌,
}
use uni_os.Memory.Vma.{Vma, VmaType, contains, sentinel, new_vma, insert_at, vma_find, vma_add}
use uni_os.Memory.Vma.Order.{IsOrdered, vma_add-IsOrdered}

-- In the list with `n`, if there is one, an address is looked up as before, but for those of `n`.
abbrev ExtendsIfAny : Vma → List Vma → ℕ → Option (List Vma) → Type 0
ExtendsIfAny n l addr none = Unit
ExtendsIfAny n l addr (some l') =
    vma_find l' addr ≡ (if contains n addr then some n else vma_find l addr)

insert_at-Extends :
    (alloc : Bool) (n : Vma) (l : List Vma) (addr : ℕ) → ExtendsIfAny n l addr (insert_at alloc n l)
unfolding insert_at vma_find
insert_at-Extends alloc n [] addr = ground arith
insert_at-Extends alloc n (c ∷ cs) addr = ground (arith, insert_at-Extends alloc n cs addr)

-- After a `vma_add` that succeeds, the new area is found at each of its addresses, and at any other
-- address what was found before.
pub vma_find-vma_add :
    (m0 m1 : Bool) (l : List Vma) (start end flags : ℕ) (type : VmaType) (addr : ℕ) {n : Vma}
    → (vma_add m0 m1 l start end flags type).0 ≡ some n
    → vma_find (vma_add m0 m1 l start end flags type).1 addr ≡ (
        if contains (new_vma start end flags type) addr
        then some (new_vma start end flags type)
        else vma_find l addr)
unfolding vma_add vma_find
vma_find-vma_add m0 m1 [] start end flags type addr h =
    ground (arith, insert_at-Extends m1 (new_vma start end flags type) (sentinel ∷ []) addr)
vma_find-vma_add m0 m1 (c ∷ cs) start end flags type addr h =
    ground (arith, insert_at-Extends m1 (new_vma start end flags type) (c ∷ cs) addr)

-- The range lies clear of every area: behind it, or before it and not at the same start.
abbrev pub IsClear : ℕ → ℕ → List Vma → Type 0
IsClear start end [] = Unit
IsClear start end (c ∷ cs) =
    ((end ≤ c.start) ⊎ ((c.end ≤ start) × (c.start < start))) × IsClear start end cs

pub IsClear-of_ordered :
    (start end lo : ℕ) (l : List Vma) → IsOrdered lo l → end ≤ lo → IsClear start end l
IsClear-of_ordered start end lo [] h le = tt
IsClear-of_ordered start end lo (c ∷ cs) h le =
    (ground arith, IsClear-of_ordered start end c.end cs h.2 (omega arith))

insert_at_iff :
    (n : Vma) (lo : ℕ) (l : List Vma)
    → n.start < n.end
    → IsOrdered lo l
    → (insert_at true n l ≢ none) ↔ IsClear n.start n.end l
unfolding insert_at
insert_at_iff n lo [] lt h = ground arith
insert_at_iff n lo (c ∷ cs) lt h =
    ground (arith, insert_at_iff n c.end cs lt h.2, IsClear-of_ordered n.start n.end c.end cs h.2)

-- The list that the walk of `vma_add` sees.
abbrev pub with_sentinel : List Vma → List Vma
with_sentinel [] = sentinel ∷ []
with_sentinel (c ∷ cs) = c ∷ cs

-- While memory lasts, `vma_add` answers the new area exactly for the ranges that are not empty and
-- lie clear of every area of an ordered list, the sentinel of an empty list among them.
pub vma_add_iff :
    (l : List Vma) (start end flags : ℕ) (type : VmaType)
    → IsOrdered 0 l
    → ((vma_add true true l start end flags type).0 ≡ some (new_vma start end flags type))
      ↔ ((start < end) × IsClear start end (with_sentinel l))
unfolding vma_add
vma_add_iff [] start end flags type h =
    ground (arith, insert_at_iff (new_vma start end flags type) 0 (sentinel ∷ []))
vma_add_iff (c ∷ cs) start end flags type h =
    ground (arith, insert_at_iff (new_vma start end flags type) 0 (c ∷ cs))

-- An area that is answered is the new one.
vma_add_answer :
    (m0 m1 : Bool) (l : List Vma) (start end flags : ℕ) (type : VmaType) (n : Vma)
    → (vma_add m0 m1 l start end flags type).0 ≡ some n
    → n ≡ new_vma start end flags type
unfolding vma_add
vma_add_answer m0 m1 [] start end flags type n h = ground (arith, h)
vma_add_answer m0 m1 (c ∷ cs) start end flags type n h = ground (arith, h)

-- Without an answer every address is looked up as before.
vma_find-vma_add-none :
    (m0 m1 : Bool) (l : List Vma) (start end flags : ℕ) (type : VmaType) (addr : ℕ)
    → (vma_add m0 m1 l start end flags type).0 ≡ none
    → vma_find (vma_add m0 m1 l start end flags type).1 addr ≡ vma_find l addr
unfolding vma_add vma_find
vma_find-vma_add-none m0 m1 [] start end flags type addr h = ground (arith, h)
vma_find-vma_add-none m0 m1 (c ∷ cs) start end flags type addr h = ground (arith, h)

-- What adding the area `n` to the list `l` comes to: the answer, and the list after.
abbrev pub IsAdded : Vma → List Vma → Option Vma × List Vma → Type 0
IsAdded n l (none, l') =
    IsOrdered 0 l'
    × ¬ ((n.start < n.end) × IsClear n.start n.end (with_sentinel l))
    × ((addr : ℕ) → vma_find l' addr ≡ vma_find l addr)
IsAdded n l (some m, l') =
    IsOrdered 0 l'
    × ((n.start < n.end) × IsClear n.start n.end (with_sentinel l))
    × (m ≡ n)
    × ((addr : ℕ) → vma_find l' addr ≡ (if contains n addr then some n else vma_find l addr))

added :
    (l : List Vma) (start end flags : ℕ) (type : VmaType)
    → IsOrdered 0 l
    → (r : Option Vma × List Vma) → vma_add true true l start end flags type ≡ r
    → IsAdded (new_vma start end flags type) l r
added l start end flags type h (none, l') e =
    let answer = ap (λ (r : Option Vma × List Vma). r.0) e in
    let after = ap (λ (r : Option Vma × List Vma). r.1) e in
    (
      subst (IsOrdered 0) after (vma_add-IsOrdered true true l start end flags type h),
      λ clear. absurd (
          some-none (new_vma start end flags type)
            (sym ((vma_add_iff l start end flags type h).1 clear) ∙ answer)),
      λ addr.
          subst (λ k. vma_find k addr ≡ vma_find l addr) after
            (vma_find-vma_add-none true true l start end flags type addr answer),
    )
added l start end flags type h (some m, l') e =
    let answer = ap (λ (r : Option Vma × List Vma). r.0) e in
    let after = ap (λ (r : Option Vma × List Vma). r.1) e in
    let n = new_vma start end flags type in
    let same = vma_add_answer true true l start end flags type m answer in
    (
      subst (IsOrdered 0) after (vma_add-IsOrdered true true l start end flags type h),
      (vma_add_iff l start end flags type h).0 (answer ∙ ap some same),
      same,
      λ addr.
          subst (λ k. vma_find k addr ≡ (if contains n addr then some n else vma_find l addr)) after
            (vma_find-vma_add true true l start end flags type addr answer),
    )

-- While memory lasts, vma_add of a range to an ordered list leaves an ordered list. It answers the
-- new area exactly if the range is not empty and lies clear of every area, the sentinel of an empty
-- list among them: then the list after finds the new area at each address of the range, and at any
-- other address what the list before does; else it finds at every address what the list before does.
pub vma_add-IsAdded :
    (l : List Vma) (start end flags : ℕ) (type : VmaType)
    → IsOrdered 0 l
    → IsAdded (new_vma start end flags type) l (vma_add true true l start end flags type)
vma_add-IsAdded l start end flags type h =
    added l start end flags type h (vma_add true true l start end flags type) refl
