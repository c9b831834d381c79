-- ===== src/Kernel/Elf.antt =====
-- src/kernel/core/elf.cpp and include/kernel/elf.h: the checks of an ELF file, the areas that its
-- segments get, and the bytes that are copied from it. A file is a list of bytes and its size is the
-- length. The pointer to the file is not null.
pub mod Check
pub mod Areas
pub mod Union
pub mod Copy
use uni_os.Prelude.{
  ℕ, zero, suc, ◌+◌, ◌-◌, ◌*◌, ◌/◌, ◌%◌, ◌^◌, ◌<◌, bit_or, Bool, true, false, not, ◌&&◌, ◌||◌,
  Option, none, some, List, [], ◌∷◌, ltb, leb, ◌==◌, if◌then◌else◌, length,
}
use mathlib.Core.Option
use uni_os.Net.Bytes.{byte_at, u16_at, u32_at}
use uni_os.Fs.Partition.{u64_at}
use uni_os.Memory.Vma.{
  Vma, VmaType, generic, text, data_segment, stack, heap, mmio, anonymous, shared, vma_add,
}

abbrev pub page_size : ℕ
page_size = 0x1000

abbrev pub ehdr_size : ℕ
ehdr_size = 64

abbrev pub phdr_size : ℕ
phdr_size = 56

abbrev pub elf_magic : ℕ
elf_magic = 0x464C457F

abbrev pub pt_load : ℕ
pt_load = 1

-- The fields of the file header that are read.
abbrev pub e_type : List ℕ → ℕ
e_type d = u16_at d 16

abbrev pub e_machine : List ℕ → ℕ
e_machine d = u16_at d 18

abbrev pub e_entry : List ℕ → ℕ
e_entry d = u64_at d 24

abbrev pub e_phoff : List ℕ → ℕ
e_phoff d = u64_at d 32

abbrev pub e_phentsize : List ℕ → ℕ
e_phentsize d = u16_at d 54

abbrev pub e_phnum : List ℕ → ℕ
e_phnum d = u16_at d 56

pub record Phdr : Type 0 where
  pub p_type : ℕ
  pub p_flags : ℕ
  pub p_offset : ℕ
  pub p_vaddr : ℕ
  pub p_filesz : ℕ
  pub p_memsz : ℕ

abbrev pub phdr_at : List ℕ → ℕ → Phdr
phdr_at d i =
    let at = e_phoff d + i * phdr_size in
    record {
      p_type = u32_at d at;
      p_flags = u32_at d (at + 4);
      p_offset = u64_at d (at + 8);
      p_vaddr = u64_at d (at + 16);
      p_filesz = u64_at d (at + 32);
      p_memsz = u64_at d (at + 40);
    }

-- `__builtin_add_overflow` and `__builtin_mul_overflow` in 64 bits: the result, if it fits.
abbrev pub fits_u64 : ℕ → Option ℕ
fits_u64 n = if ltb n (2 ^ 64) then some n else none

abbrev pub is_above : Option ℕ → ℕ → Bool
is_above none size = true
is_above (some end) size = ltb size end

abbrev pub overflows : Option ℕ → Bool
overflows none = true
overflows (some end) = false

-- The body of the loop over the program headers: whether it refuses the file.
unfoldable pub phdr_refused : ℕ → Phdr → Bool
phdr_refused size h =
    if not (h.p_type == pt_load)
    then false
    else ltb h.p_memsz h.p_filesz
      || is_above (fits_u64 (h.p_offset + h.p_filesz)) size
      || overflows (fits_u64 (h.p_vaddr + h.p_memsz))

-- The loop, with the number of headers that are left.
unfoldable pub phdrs_pass : List ℕ → (left i : ℕ) → Bool
phdrs_pass d zero i = true
phdrs_pass d (suc n) i =
    if phdr_refused (length d) (phdr_at d i) then false else phdrs_pass d n (i + 1)

unfoldable pub elf_validate : List ℕ → Bool
elf_validate d =
    let phdr_bytes = e_phnum d * phdr_size in
    if ltb (length d) ehdr_size
    then false
    else if not (u32_at d 0 == elf_magic)
    then false
    else if not (byte_at d 4 == 2)
    then false
    else if not (byte_at d 5 == 1)
    then false
    else if not (e_type d == 2) && not (e_type d == 3)
    then false
    else if not (e_machine d == 62)
    then false
    else if not (e_phentsize d == phdr_size) || e_phnum d == 0
    then false
    else if overflows (fits_u64 phdr_bytes)
    then false
    else if overflows (fits_u64 (e_phoff d + phdr_bytes))
    then false
    else if ltb (length d) (e_phoff d) || ltb (length d) (e_phoff d + phdr_bytes)
    then false
    else phdrs_pass d (e_phnum d) 0

abbrev pub max : ℕ → ℕ → ℕ
max a b = if ltb b a then a else b

abbrev pub is_data : VmaType → Bool
is_data data_segment = true
is_data generic = false
is_data text = false
is_data stack = false
is_data heap = false
is_data mmio = false
is_data anonymous = false
is_data shared = false

-- An area takes in the one behind it.
unfoldable pub join : Vma → Vma → Vma
join c next = record c {
  end = max c.end next.end;
  flags = bit_or c.flags next.flags;
  type = if is_data next.type then data_segment else c.type;
}

-- `while (curr->next && curr->next->start <= curr->end)`.
unfoldable pub absorb : Vma → List Vma → List Vma
absorb c [] = c ∷ []
absorb c (next ∷ cs) = if leb next.start c.end then absorb (join c next) cs else c ∷ next ∷ cs

-- The segment is added to an area that it meets.
unfoldable pub widen : (start end flags : ℕ) → VmaType → Vma → Vma
widen start end flags type c = record c {
  start = if ltb c.start start then c.start else start;
  end = max c.end end;
  flags = bit_or c.flags flags;
  type = if is_data type then data_segment else c.type;
}

-- The area before `curr`, if there is one, takes in `curr` when they meet.
unfoldable pub link : Vma → List Vma → List Vma
link prev [] = prev ∷ []
link prev (curr ∷ cs) = if leb curr.start prev.end then join prev curr ∷ cs else prev ∷ curr ∷ cs

-- The walk `while (curr && curr->end < start)` and what follows it, without the case of `vma_add`,
-- which is `none`.
unfoldable pub merge_at :
    (start end flags : ℕ) → VmaType → Option Vma → List Vma → Option (List Vma)
merge_at start end flags type prev [] = none
merge_at start end flags type prev (c ∷ cs) =
    let rest = merge_at start end flags type (some c) cs in
    if ltb c.end start
    then (elim prev [ none ↦ rest | some p ↦ Option.map (λ l. p ∷ l) rest ])
    else if ltb end c.start
    then none
    else (let merged = absorb (widen start end flags type c) cs in
        elim prev [ none ↦ some merged | some p ↦ some (link p merged) ])

-- What follows the walk: without an area that the segment meets a new one is added.
unfoldable pub after_walk :
    (alloc_sentinel alloc : Bool)
    → List Vma
    → (start end flags : ℕ) → VmaType
    → Option (List Vma)
    → Bool × List Vma
after_walk alloc_sentinel alloc l start end flags type none =
    let (n, l') = vma_add alloc_sentinel alloc l start end flags type in
    (elim n [ none ↦ false | some _ ↦ true ], l')
after_walk alloc_sentinel alloc l start end flags type (some l') = (true, l')

-- `alloc_sentinel` and `alloc` are the outcomes of the calls of `malloc` in `vma_add`.
unfoldable pub ensure_segment_vma :
    (alloc_sentinel alloc : Bool) → List Vma → (start end flags : ℕ) → VmaType → Bool × List Vma
ensure_segment_vma alloc_sentinel alloc l start end flags type =
    after_walk alloc_sentinel alloc l start end flags type (merge_at start end flags type none l)
