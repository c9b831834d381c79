-- ===== src/Tests/Elf.antt =====
-- Runs of src/kernel/core/elf.cpp on a file with one segment, of four bytes on two pages.
use uni_os.Prelude.{ℕ, ◌≡◌, ◌↔◌, refl, true, some, List, [], ◌∷◌, All, length, arith}
use uni_os.Memory.Vma.{Vma, text, new_vma}
use uni_os.Kernel.Elf.{
  phdr_at, phdr_refused, phdrs_pass, elf_validate, ensure_segment_vma, after_walk, merge_at, widen,
  absorb, join, link,
}
use uni_os.Kernel.Elf.Check.{IsElf, elf_validate_iff}
use uni_os.Kernel.Elf.Union.{IsUnion, ensure_segment_vma-IsUnion}
use uni_os.Kernel.Elf.Copy.{load_segment, load_pages, segment_pages, elf_load}
use uni_os.Kernel.Elf.Copy.Bytes.{IsLoad, IsCopyInside, source_at, load_segment-IsLoad}
use uni_os.Kernel.Elf.Copy.Inside.{elf_load-IsInside}

abbrev file : List ℕ
file =
    127 ∷ 69 ∷ 76 ∷ 70 ∷ 2 ∷ 1 ∷ 1 ∷ 0 ∷ 0 ∷ 0 ∷ 0 ∷ 0 ∷ 0 ∷ 0 ∷ 0 ∷ 0 ∷ 2 ∷ 0 ∷ 62 ∷ 0 ∷ 1 ∷ 0 ∷ 0
    ∷ 0 ∷ 0 ∷ 16 ∷ 64 ∷ 0 ∷ 0 ∷ 0 ∷ 0 ∷ 0 ∷ 64 ∷ 0 ∷ 0 ∷ 0 ∷ 0 ∷ 0 ∷ 0 ∷ 0 ∷ 0 ∷ 0 ∷ 0 ∷ 0 ∷ 0 ∷ 0
    ∷ 0 ∷ 0 ∷ 0 ∷ 0 ∷ 0 ∷ 0 ∷ 64 ∷ 0 ∷ 56 ∷ 0 ∷ 1 ∷ 0 ∷ 0 ∷ 0 ∷ 0 ∷ 0 ∷ 0 ∷ 0 ∷ 1 ∷ 0 ∷ 0 ∷ 0 ∷ 5
    ∷ 0 ∷ 0 ∷ 0 ∷ 120 ∷ 0 ∷ 0 ∷ 0 ∷ 0 ∷ 0 ∷ 0 ∷ 0 ∷ 254 ∷ 15 ∷ 64 ∷ 0 ∷ 0 ∷ 0 ∷ 0 ∷ 0 ∷ 254 ∷ 15
    ∷ 64 ∷ 0 ∷ 0 ∷ 0 ∷ 0 ∷ 0 ∷ 4 ∷ 0 ∷ 0 ∷ 0 ∷ 0 ∷ 0 ∷ 0 ∷ 0 ∷ 8 ∷ 0 ∷ 0 ∷ 0 ∷ 0 ∷ 0 ∷ 0 ∷ 0 ∷ 0
    ∷ 16 ∷ 0 ∷ 0 ∷ 0 ∷ 0 ∷ 0 ∷ 0 ∷ 144 ∷ 144 ∷ 144 ∷ 195 ∷ []

accepts : elf_validate file ≡ true
unfolding elf_validate phdrs_pass phdr_refused
accepts = refl

-- The third byte is on the second page.
brings_third :
    source_at (load_segment true (true ∷ true ∷ []) 124 (phdr_at file 0)).1 0x401000 ≡ some 122
unfolding load_segment load_pages segment_pages
brings_third = refl

abbrev areas : List Vma
areas =
    new_vma 0 0 0 text ∷ new_vma 0x400000 0x401000 5 text ∷ new_vma 0x402000 0x403000 5 text ∷ []

joins_three :
    ensure_segment_vma true true areas 0x401000 0x402000 7 text
    ≡ (true, new_vma 0 0 0 text ∷ new_vma 0x400000 0x403000 7 text ∷ [])
unfolding ensure_segment_vma after_walk merge_at widen absorb join link
joins_three = refl

elf_validate_iff_example : (elf_validate file ≡ true) ↔ IsElf file
elf_validate_iff_example = elf_validate_iff file (omega arith)

ensure_segment_vma-IsUnion_example :
    IsUnion true true areas 0x401000 0x402000
      (ensure_segment_vma true true areas 0x401000 0x402000 7 text)
ensure_segment_vma-IsUnion_example =
    ensure_segment_vma-IsUnion true true areas 0x401000 0x402000 7 text (omega arith) (ground arith)

load_segment-IsLoad_example :
    IsLoad true
      (true ∷ true ∷ [])
      124
      (phdr_at file 0)
      (load_segment true (true ∷ true ∷ []) 124 (phdr_at file 0))
load_segment-IsLoad_example =
    load_segment-IsLoad true (true ∷ true ∷ []) 124 (phdr_at file 0) (omega arith) (omega arith)

elf_load-IsInside_example :
    All (IsCopyInside (length file)) (elf_load ((true, true ∷ true ∷ []) ∷ []) file).1
elf_load-IsInside_example = elf_load-IsInside ((true, true ∷ true ∷ []) ∷ []) file
