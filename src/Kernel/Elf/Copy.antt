-- ===== src/Kernel/Elf/Copy.antt =====
-- src/kernel/core/elf.cpp: the pages of a segment and the bytes that `load_segment` copies to them.
-- The page table and the frames are outside: they enter by whether the page could be made or
-- remapped, one outcome for each page.
pub mod Bytes
pub mod Inside
use uni_os.Prelude.{
  ℕ, zero, suc, ◌+◌, ◌-◌, ◌*◌, ◌/◌, ◌%◌, ◌^◌, ◌<◌, Bool, true, false, not, ◌&&◌, ◌||◌, Option, none,
  some, List, [], ◌∷◌, ◌++◌, ltb, leb, ◌==◌, if◌then◌else◌, length,
}
use uni_os.Kernel.Elf.{
  Phdr, phdr_at, pt_load, e_phnum, e_entry, elf_validate, page_size, fits_u64, is_above,
}

-- A `memcpy` to a page: the address of the page, the place in it, the place in the file, how much.
pub record PageCopy : Type 0 where
  pub page_vaddr : ℕ
  pub copy_start : ℕ
  pub from : ℕ
  pub copy_amount : ℕ

-- The first page of a segment and how many there are.
pub record Pages : Type 0 where
  pub page_base : ℕ
  pub num_pages : ℕ

-- `& ~(k_page_size - 1)`.
abbrev pub page_of : ℕ → ℕ
page_of a = a / page_size * page_size

abbrev pub pages_to : (page_base page_end : ℕ) → Option Pages
pages_to page_base page_end =
    if ltb page_end page_base
    then none
    else some (record { page_base = page_base; num_pages = (page_end - page_base) / page_size })

abbrev pub rounded_end : Option ℕ → Option ℕ
rounded_end none = none
rounded_end (some segment_end) = fits_u64 (segment_end + (page_size - 1))

abbrev pub pages_up_to : ℕ → Option ℕ → Option Pages
pages_up_to vaddr none = none
pages_up_to vaddr (some rounded_segment_end) =
    pages_to (page_of vaddr) (page_of rounded_segment_end)

-- The checks of a segment with memory, and its pages.
unfoldable pub segment_pages : ℕ → Phdr → Option Pages
segment_pages data_size h =
    if ltb h.p_memsz h.p_filesz
    then none
    else if is_above (fits_u64 (h.p_offset + h.p_filesz)) data_size
    then none
    else pages_up_to h.p_vaddr (rounded_end (fits_u64 (h.p_vaddr + h.p_memsz)))

-- How much goes to the page `p`, and from where in the page on.
abbrev pub start_in : ℕ → Phdr → ℕ
start_in p h = if p == 0 then h.p_vaddr % page_size else 0

abbrev pub amount_in : (p bytes_copied : ℕ) → Phdr → ℕ
amount_in p bytes_copied h =
    let copy_amount = page_size - start_in p h in
    if ltb h.p_filesz (bytes_copied + copy_amount) then h.p_filesz - bytes_copied else copy_amount

abbrev pub page_copy : (page_base p bytes_copied : ℕ) → Phdr → PageCopy
page_copy page_base p bytes_copied h = record {
  page_vaddr = page_base + p * page_size;
  copy_start = start_in p h;
  from = h.p_offset + bytes_copied;
  copy_amount = amount_in p bytes_copied h;
}

-- The loop over the pages, with the number that are left: whether it comes to its end, and the copies
-- that it makes.
unfoldable pub load_pages :
    List Bool → (left p bytes_copied page_base : ℕ) → Phdr → Bool × List PageCopy
load_pages outcomes zero p bytes_copied page_base h = (true, [])
load_pages [] (suc left) p bytes_copied page_base h = (false, [])
load_pages (ready ∷ outcomes) (suc left) p bytes_copied page_base h =
    let amount = amount_in p bytes_copied h in
    let (skip_done, skip_copies) = load_pages outcomes left (p + 1) bytes_copied page_base h in
    let (done, copies) = load_pages outcomes left (p + 1) (bytes_copied + amount) page_base h in
    if not ready
    then (false, [])
    else if ltb bytes_copied h.p_filesz && ltb 0 amount
    then (done, page_copy page_base p bytes_copied h ∷ copies)
    else (skip_done, skip_copies)

abbrev pub load_in : Bool → List Bool → Phdr → Option Pages → Bool × List PageCopy
load_in has_area outcomes h none = (false, [])
load_in has_area outcomes h (some pages) =
    if not has_area then (false, []) else load_pages outcomes pages.num_pages 0 0 pages.page_base h

-- `has_area` is the answer of ensure_segment_vma, or true without a process.
unfoldable pub load_segment : Bool → List Bool → ℕ → Phdr → Bool × List PageCopy
load_segment has_area outcomes data_size h =
    if h.p_memsz == 0 then (true, []) else load_in has_area outcomes h (segment_pages data_size h)

-- The loop over the program headers, with the outcomes for each segment that is loaded, and the
-- number of headers that are left.
unfoldable pub load_segments :
    List (Bool × List Bool) → List ℕ → (left i : ℕ) → Bool × List PageCopy
load_segments outcomes d zero i = (true, [])
load_segments [] d (suc left) i =
    let rest = load_segments [] d left (i + 1) in
    if (phdr_at d i).p_type == pt_load then (false, []) else rest
load_segments (o ∷ outcomes) d (suc left) i =
    let h = phdr_at d i in
    let (done, copies) = load_segment o.0 o.1 (length d) h in
    let (rest_done, rest_copies) = load_segments outcomes d left (i + 1) in
    let skipped = load_segments (o ∷ outcomes) d left (i + 1) in
    if not (h.p_type == pt_load)
    then skipped
    else if done
    then (rest_done, copies ++ rest_copies)
    else (false, copies)

-- The entry point, or 0 where the load fails, and the copies that were made.
unfoldable pub elf_load : List (Bool × List Bool) → List ℕ → ℕ × List PageCopy
elf_load outcomes d =
    let (done, copies) = load_segments outcomes d (e_phnum d) 0 in
    if not (elf_validate d) then (0, []) else if done then (e_entry d, copies) else (0, copies)
