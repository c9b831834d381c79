-- ===== src/Kernel/Elf/Copy/Inside.antt =====
-- src/kernel/core/elf.cpp: what `elf_load` reads of a file.
use uni_os.Prelude.{
  ℕ, zero, suc, ◌+◌, ◌%◌, ◌≤◌, ◌≡◌, inl, inr, arith, Bool, true, false, ◌&&◌, Bool-cases, Option,
  none, some, List, [], ◌∷◌, All, All-append, ltb, ◌==◌, length,
}
use uni_os.Kernel.Elf.{Phdr, phdr_at, pt_load, e_phnum}
use uni_os.Kernel.Elf.Copy.{
  Pages, segment_pages, amount_in, load_pages, load_in, load_segment, load_segments, elf_load,
}
use uni_os.Kernel.Elf.Copy.Bytes.{IsCopyInside}

module _ (size : ℕ) where
  load_pages-IsInside :
      (outcomes : List Bool) (left p copied page_base : ℕ) (h : Phdr)
      → page_base % 4096 ≡ 0
      → h.p_offset + h.p_filesz ≤ size
      → All (IsCopyInside size) (load_pages outcomes left p copied page_base h).1
  unfolding load_pages
  load_pages-IsInside outcomes zero p copied page_base h at fits = tt
  load_pages-IsInside [] (suc left) p copied page_base h at fits = tt
  load_pages-IsInside (false ∷ outcomes) (suc left) p copied page_base h at fits = tt
  load_pages-IsInside (true ∷ outcomes) (suc left) p copied page_base h at fits =
      elim (Bool-cases (ltb copied h.p_filesz && ltb 0 (amount_in p copied h))) [
        | inl more ↦ rw more (
          (ground arith, ground arith, ground arith),
          load_pages-IsInside outcomes left (p + 1) (copied + amount_in p copied h) page_base h at
              fits,
        )
        | inr done ↦ rw done (load_pages-IsInside outcomes left (p + 1) copied page_base h at fits)
      ]

  -- The pages of a segment that passes the checks start at a page, and its bytes are in the file.
  abbrev ArePages : Phdr → Option Pages → Type 0
  ArePages h none = Unit
  ArePages h (some pages) = (pages.page_base % 4096 ≡ 0) × (h.p_offset + h.p_filesz ≤ size)

  segment_pages-ArePages : (h : Phdr) → ArePages h (segment_pages size h)
  unfolding segment_pages
  segment_pages-ArePages h = ground arith

  load_in-IsInside :
      (has_area : Bool) (outcomes : List Bool) (h : Phdr) (pages : Option Pages)
      → ArePages h pages
      → All (IsCopyInside size) (load_in has_area outcomes h pages).1
  load_in-IsInside has_area outcomes h none k = tt
  load_in-IsInside false outcomes h (some pages) k = tt
  load_in-IsInside true outcomes h (some pages) k =
      load_pages-IsInside outcomes pages.num_pages 0 0 pages.page_base h k.0 k.1

  load_segment-IsInside :
      (has_area : Bool) (outcomes : List Bool) (h : Phdr)
      → All (IsCopyInside size) (load_segment has_area outcomes size h).1
  unfolding load_segment
  load_segment-IsInside has_area outcomes h = elim (Bool-cases (h.p_memsz == 0)) [
    | inl empty ↦ rw empty tt
    | inr memory ↦
        rw memory
          (load_in-IsInside has_area outcomes h (segment_pages size h) (segment_pages-ArePages h))
  ]

load_segments-IsInside :
    (outcomes : List (Bool × List Bool)) (d : List ℕ) (left i : ℕ)
    → All (IsCopyInside (length d)) (load_segments outcomes d left i).1
unfolding load_segments
load_segments-IsInside outcomes d zero i = tt
load_segments-IsInside [] d (suc left) i = elim (Bool-cases ((phdr_at d i).p_type == pt_load)) [
  | inl load ↦ rw load tt
  | inr other ↦ rw other (load_segments-IsInside [] d left (i + 1))
]
load_segments-IsInside (o ∷ outcomes) d (suc left) i =
    let h = phdr_at d i in
    let first = load_segment-IsInside (length d) o.0 o.1 h in
    elim (Bool-cases (h.p_type == pt_load)) [
      | inr other ↦ rw other (load_segments-IsInside (o ∷ outcomes) d left (i + 1))
      | inl load ↦ elim (Bool-cases (load_segment o.0 o.1 (length d) h).0) [
        | inr failed ↦ rw (load, failed) first
        | inl done ↦
            rw (load, done)
              (All-append (IsCopyInside (length d)) _ _ first
                (load_segments-IsInside outcomes d left (i + 1)))
      ]
    ]

-- Whatever bytes a file holds, and whichever areas and pages can be made, each copy that elf_load
-- makes takes its bytes from inside the file and stays inside one page.
pub elf_load-IsInside :
    (outcomes : List (Bool × List Bool)) (d : List ℕ)
    → All (IsCopyInside (length d)) (elf_load outcomes d).1
unfolding elf_load
elf_load-IsInside outcomes d =
    let copies = load_segments-IsInside outcomes d (e_phnum d) 0 in ground (arith, copies)
