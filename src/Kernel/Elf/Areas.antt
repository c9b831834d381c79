-- ===== src/Kernel/Elf/Areas.antt =====
-- src/kernel/core/elf.cpp: the areas of a process that `ensure_segment_vma` joins.
use uni_os.Prelude.{
  ℕ, ◌≤◌, ◌≡◌, inl, inr, Bool, true, false, ◌&&◌, ◌||◌, Bool-cases, List, [], ◌∷◌, none, some,
  arith, ltb, leb,
}
use uni_os.Memory.Vma.{Vma, contains, vma_find}
use uni_os.Memory.Vma.Order.{IsOrdered, IsOrdered-mono}
use uni_os.Kernel.Elf.{join, absorb, link}

-- Whether an address is in an area.
abbrev pub is_mapped : List Vma → ℕ → Bool
is_mapped l a = elim (vma_find l a) [ none ↦ false | some c ↦ true ]

abbrev pub in_range : (start end a : ℕ) → Bool
in_range start end a = leb start a && ltb a end

pub is_mapped-cons :
    (c : Vma) (cs : List Vma) (a : ℕ) → is_mapped (c ∷ cs) a ≡ (contains c a || is_mapped cs a)
unfolding vma_find
is_mapped-cons c cs a = ground arith

-- The list is in order, and the addresses in it are those of `f`.
pub record Areas (lo : ℕ) (f : ℕ → Bool) (l : List Vma) : Type 0 where
  pub order : IsOrdered lo l
  pub mapped : (a : ℕ) → is_mapped l a ≡ f a

pub absorb-Areas :
    (c : Vma) (cs : List Vma) (lo : ℕ)
    → lo ≤ c.start
    → c.start ≤ c.end
    → IsOrdered c.start cs
    → Areas lo (λ a. contains c a || is_mapped cs a) (absorb c cs)
unfolding absorb join
absorb-Areas c [] lo le nonneg h = record { order = ground arith; mapped = is_mapped-cons c [] }
absorb-Areas c (next ∷ cs) lo le nonneg h = elim (Bool-cases (leb next.start c.end)) [
  | inr apart ↦ rw apart (record { order = ground arith; mapped = is_mapped-cons c (next ∷ cs) })
  | inl touch ↦
      let rest =
        absorb-Areas (join c next) cs lo le (ground arith)
          (IsOrdered-mono cs {lo = next.end} {lo' = c.start} (omega arith) h.2) in
      rw touch (record {
        order = rest.order;
        mapped = λ a. ground (arith, rest.mapped a, is_mapped-cons next cs a);
      })
]

pub link-Areas :
    (p : Vma) (l : List Vma) (lo : ℕ) (f : ℕ → Bool)
    → lo ≤ p.start
    → p.start ≤ p.end
    → Areas p.end f l
    → Areas lo (λ a. contains p a || f a) (link p l)
unfolding link join
link-Areas p [] lo f le nonneg h = record {
  order = ground arith;
  mapped = λ a. ground (arith, is_mapped-cons p [] a, h.mapped a);
}
link-Areas p (c ∷ cs) lo f le nonneg h =
    let order = h.order in
    elim (Bool-cases (leb c.start p.end)) [
      | inr apart ↦ rw apart (record {
        order = ground arith;
        mapped = λ a. ground (arith, is_mapped-cons p (c ∷ cs) a, h.mapped a);
      })
      | inl touch ↦ rw touch (record {
        order = ground arith;
        mapped =
            λ a. ground (arith, is_mapped-cons (join p c) cs a, is_mapped-cons c cs a, h.mapped a);
      })
    ]
