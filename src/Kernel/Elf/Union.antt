-- ===== src/Kernel/Elf/Union.antt =====
-- src/kernel/core/elf.cpp: which addresses are in an area after `ensure_segment_vma`.
use uni_os.Prelude.{
  ℕ, ◌<◌, ◌≤◌, ◌≡◌, ◌⊎◌, inl, inr, refl, sym, ◌∙◌, Bool, true, false, ◌||◌, Bool-cases,
  Option-cases, List, [], ◌∷◌, Option, none, some, arith, ltb, ◌==◌,
}
use mathlib.Core.Option
use mathlib.Core.Option.{none-ne-some}
use uni_os.Memory.Vma.{Vma, VmaType, new_vma, vma_add}
use uni_os.Memory.Vma.Order.{IsOrdered, IsOrdered-mono, vma_add-IsOrdered}
use uni_os.Memory.Vma.Find.{
  IsClear, IsClear-of_ordered, with_sentinel, vma_add_iff, vma_find-vma_add,
}
use uni_os.Kernel.Elf.{absorb, widen, link, merge_at, after_walk, ensure_segment_vma}
use uni_os.Kernel.Elf.Areas.{is_mapped, in_range, is_mapped-cons, Areas, absorb-Areas, link-Areas}

module _ (start end flags : ℕ) (type : VmaType) (lt : start < end) where
  -- The addresses of `l` and those of the segment.
  abbrev union : List Vma → ℕ → Bool
  union l a = in_range start end a || is_mapped l a

  abbrev AreasIfAny : ℕ → List Vma → Option (List Vma) → Type 0
  AreasIfAny lo l none = IsClear start end l
  AreasIfAny lo l (some l') = Areas lo (union l) l'

  Areas-congr :
      {lo lo' : ℕ} {f g : ℕ → Bool} {l : List Vma}
      → lo' ≤ lo
      → ((a : ℕ) → f a ≡ g a)
      → Areas lo f l
      → Areas lo' g l
  Areas-congr {lo} {lo'} {f} {g} {l} le same h = record {
    order = IsOrdered-mono l {lo = lo} {lo' = lo'} le h.order;
    mapped = λ a. cc (h.mapped a, same a);
  }

  -- The area that the segment meets takes it in, and the areas behind that it then meets.
  widened :
      (c : Vma) (cs : List Vma) (lo : ℕ)
      → lo ≤ start
      → start ≤ c.end
      → c.start ≤ end
      → IsOrdered lo (c ∷ cs)
      → Areas lo (union (c ∷ cs)) (absorb (widen start end flags type c) cs)
  unfolding widen
  widened c cs lo le touch touch' h =
      Areas-congr (ground arith) (λ a. ground (arith, is_mapped-cons c cs a))
        (absorb-Areas (widen start end flags type c) cs lo (ground arith) (ground arith) (
          IsOrdered-mono cs {lo = c.end} {lo' = (widen start end flags type c).start} (ground arith)
            h.2))

  kept_before :
      (p : Vma) (l : List Vma) (lo : ℕ) (o : Option (List Vma))
      → lo ≤ p.start
      → p.start ≤ p.end
      → p.end < start
      → AreasIfAny p.end l o
      → AreasIfAny lo (p ∷ l) (Option.map (λ l'. p ∷ l') o)
  kept_before p l lo none le nonneg below h = (ground arith, h)
  kept_before p l lo (some l') le nonneg below h = record {
    order = (le, nonneg, h.order);
    mapped = λ a. ground (arith, is_mapped-cons p l' a, is_mapped-cons p l a, h.mapped a);
  }

  linked :
      (p : Vma) (l l' : List Vma) (lo : ℕ)
      → lo ≤ p.start
      → p.start ≤ p.end
      → Areas p.end (union l) l'
      → Areas lo (union (p ∷ l)) (link p l')
  linked p l l' lo le nonneg h =
      Areas-congr (omega arith) (λ a. ground (arith, is_mapped-cons p l a))
        (link-Areas p l' lo (union l) le nonneg h)

  missed :
      (c : Vma) (cs : List Vma) (lo : ℕ)
      → end < c.start
      → IsOrdered lo (c ∷ cs)
      → IsClear start end (c ∷ cs)
  missed c cs lo apart h =
      (inl (omega arith), IsClear-of_ordered start end c.end cs h.2 (omega arith))

  merge_after :
      (p : Vma) (l : List Vma) (lo : ℕ)
      → p.end < start
      → IsOrdered lo (p ∷ l)
      → AreasIfAny lo (p ∷ l) (merge_at start end flags type (some p) l)
  unfolding merge_at
  merge_after p [] lo below h = (ground arith, tt)
  merge_after p (c ∷ cs) lo below h = elim (Bool-cases (ltb c.end start)) [
    | inl skip ↦
        rw skip
          (kept_before p (c ∷ cs) lo _ h.0 h.1 below (merge_after c cs p.end (ground arith) h.2))
    | inr here ↦ elim (Bool-cases (ltb end c.start)) [
      | inl apart ↦ rw (here, apart) (ground arith, missed c cs p.end (ground arith) h.2)
      | inr touch ↦
          rw (here, touch)
            (linked p (c ∷ cs) _ lo h.0 h.1
              (widened c cs p.end (omega arith) (ground arith) (ground arith) h.2))
    ]
  ]

  merge_at-Areas :
      (l : List Vma) → IsOrdered 0 l → AreasIfAny 0 l (merge_at start end flags type none l)
  unfolding merge_at
  merge_at-Areas [] h = tt
  merge_at-Areas (c ∷ cs) h = elim (Bool-cases (ltb c.end start)) [
    | inl skip ↦ rw skip (merge_after c cs 0 (ground arith) h)
    | inr here ↦ elim (Bool-cases (ltb end c.start)) [
      | inl apart ↦ rw (here, apart) (missed c cs 0 (ground arith) h)
      | inr touch ↦ rw (here, touch) (widened c cs 0 (omega arith) (ground arith) (ground arith) h)
    ]
  ]

-- What adding a segment to the areas leads to.
abbrev pub IsUnion : (m0 m1 : Bool) → List Vma → (start end : ℕ) → Bool × List Vma → Type 0
IsUnion m0 m1 l start end (done, l') =
    IsOrdered 0 l'
    × (((done ≡ true) × ((a : ℕ) → is_mapped l' a ≡ (in_range start end a || is_mapped l a)))
        ⊎ ((done ≡ false) × ((m0 ≡ false) ⊎ ((m1 ≡ false) ⊎ (start ≡ 0)))))

sentinel-IsClear :
    (start end : ℕ) (l : List Vma)
    → 0 < start
    → IsClear start end l
    → IsClear start end (with_sentinel l)
sentinel-IsClear start end [] pos h = (inr (omega arith, pos), tt)
sentinel-IsClear start end (c ∷ cs) pos h = h

not_added :
    (m0 m1 : Bool) (l : List Vma) (start end flags : ℕ) (type : VmaType)
    → start < end
    → IsOrdered 0 l
    → IsClear start end l
    → (vma_add m0 m1 l start end flags type).0 ≡ none
    → (m0 ≡ false) ⊎ ((m1 ≡ false) ⊎ (start ≡ 0))
not_added false m1 l start end flags type lt h clear e = inl refl
not_added true false l start end flags type lt h clear e = inr (inl refl)
not_added true true l start end flags type lt h clear e = elim (Bool-cases (start == 0)) [
  | inl first ↦ inr (inr (ground arith))
  | inr later ↦
      let f =
        (vma_add_iff l start end flags type h).1
          (lt, sentinel-IsClear start end l (ground arith) clear) in
      absurd (none-ne-some (new_vma start end flags type) (sym e ∙ f))
]

added :
    (m0 m1 : Bool) (l : List Vma) (start end flags : ℕ) (type : VmaType)
    → start < end
    → IsOrdered 0 l
    → IsClear start end l
    → let (n, l') = vma_add m0 m1 l start end flags type in
      IsUnion m0 m1 l start end ((elim n [ none ↦ false | some _ ↦ true ]), l')
added m0 m1 l start end flags type lt h clear =
    let (n, l') = vma_add m0 m1 l start end flags type in
    (
      vma_add-IsOrdered m0 m1 l start end flags type h,
      elim (Option-cases n) [
        | inl e ↦ rw e (inr (refl, not_added m0 m1 l start end flags type lt h clear e))
        | inr (x, e) ↦
            rw e
              (inl (refl, λ a. ground (arith, vma_find-vma_add m0 m1 l start end flags type a e)))
      ],
    )

after_walk-IsUnion :
    (m0 m1 : Bool) (l : List Vma) (start end flags : ℕ) (type : VmaType) (lt : start < end)
    (o : Option (List Vma))
    → IsOrdered 0 l
    → AreasIfAny start end flags type lt 0 l o
    → IsUnion m0 m1 l start end (after_walk m0 m1 l start end flags type o)
unfolding after_walk
after_walk-IsUnion m0 m1 l start end flags type lt none h f =
    added m0 m1 l start end flags type lt h f
after_walk-IsUnion m0 m1 l start end flags type lt (some l') h f = (f.order, inl (refl, f.mapped))

-- For a segment that is not empty and areas in order, ensure_segment_vma leaves areas in order.
-- Either it succeeds, and then the addresses in an area are those that were and those of the segment;
-- or it fails, and then a malloc did or the segment starts at address 0.
pub ensure_segment_vma-IsUnion :
    (m0 m1 : Bool) (l : List Vma) (start end flags : ℕ) (type : VmaType)
    → start < end
    → IsOrdered 0 l
    → IsUnion m0 m1 l start end (ensure_segment_vma m0 m1 l start end flags type)
unfolding ensure_segment_vma
ensure_segment_vma-IsUnion m0 m1 l start end flags type lt h =
    after_walk-IsUnion m0 m1 l start end flags type lt (merge_at start end flags type none l) h
      (merge_at-Areas start end flags type lt l h)
