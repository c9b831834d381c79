-- ===== src/Kernel/Elf/Copy/Bytes.antt =====
-- src/kernel/core/elf.cpp: which byte of the file `load_segment` puts at an address.
use uni_os.Prelude.{
  ℕ, zero, suc, ◌+◌, ◌-◌, ◌*◌, ◌/◌, ◌%◌, ◌^◌, ◌<◌, ◌≤◌, ◌≡◌, ◌⊎◌, inl, inr, refl, arith, Bool, true,
  false, not, ◌&&◌, Bool-cases, Option, none, some, List, [], ◌∷◌, All, ltb, leb, ◌==◌,
  if◌then◌else◌,
}
use uni_os.Kernel.Elf.{Phdr}
use uni_os.Kernel.Elf.Copy.{PageCopy, segment_pages, amount_in, page_copy, load_pages, load_segment}

-- The place in the file of the byte that copies bring to an address, the first copy that does.
abbrev pub source_at : List PageCopy → ℕ → Option ℕ
source_at [] a = none
source_at (c ∷ cs) a =
    let to = c.page_vaddr + c.copy_start in
    if leb to a && ltb a (to + c.copy_amount) then some (c.from + (a - to)) else source_at cs a

-- A copy stays inside its page and inside the file.
abbrev pub IsCopyInside : ℕ → PageCopy → Type 0
IsCopyInside size c =
    (c.copy_start + c.copy_amount ≤ 4096)
    × (c.from + c.copy_amount ≤ size)
    × (c.page_vaddr % 4096 ≡ 0)

-- Where the loop stands: either at the first page, or the next byte goes to the start of the page.
abbrev IsAt : (p copied page_base : ℕ) → Phdr → Type 0
IsAt p copied page_base h =
    ((p ≡ 0) × (copied ≡ 0))
    ⊎ ((0 < p) × ((copied ≡ h.p_filesz) ⊎ (h.p_vaddr + copied ≡ page_base + p * 4096)))

-- The copies bring the rest of the segment's bytes to its addresses.
record Brings (size copied : ℕ) (h : Phdr) (copies : List PageCopy) : Type 0 where
  inside : All (IsCopyInside size) copies
  bytes :
      (a : ℕ)
      → source_at copies a ≡ (
          if leb (h.p_vaddr + copied) a && ltb a (h.p_vaddr + h.p_filesz)
          then some (h.p_offset + (a - h.p_vaddr))
          else none)

Brings-none : (size copied : ℕ) (h : Phdr) → copied ≡ h.p_filesz → Brings size copied h []
Brings-none size copied h e = record { inside = tt; bytes = λ a. ground arith }

abbrev base : Phdr → ℕ
base h = h.p_vaddr / 4096 * 4096

Brings-page :
    (size p copied : ℕ) (h : Phdr) (copies : List PageCopy)
    → copied < h.p_filesz
    → h.p_offset + h.p_filesz ≤ size
    → IsAt p copied (base h) h
    → Brings size (copied + amount_in p copied h) h copies
    → Brings size copied h (page_copy (base h) p copied h ∷ copies)
Brings-page size p copied h copies lt fits at rest = record {
  inside = ((ground arith, ground arith, ground arith), rest.inside);
  bytes = λ a. ground (arith, rest.bytes a);
}

IsAt-next :
    (p copied : ℕ) (h : Phdr)
    → copied < h.p_filesz
    → IsAt p copied (base h) h
    → IsAt (p + 1) (copied + amount_in p copied h) (base h) h
IsAt-next p copied h lt at = ground arith

abbrev BringsIfDone : (size copied : ℕ) → Phdr → Bool × List PageCopy → Type 0
BringsIfDone size copied h (done, copies) = done ≡ true → Brings size copied h copies

load_pages-Brings :
    (outcomes : List Bool) (left p copied size : ℕ) (h : Phdr)
    → copied ≤ h.p_filesz
    → h.p_offset + h.p_filesz ≤ size
    → h.p_vaddr + h.p_filesz ≤ base h + (p + left) * 4096
    → IsAt p copied (base h) h
    → BringsIfDone size copied h (load_pages outcomes left p copied (base h) h)
unfolding load_pages
load_pages-Brings outcomes zero p copied size h le fits room at =
    λ e. Brings-none size copied h (ground arith)
load_pages-Brings [] (suc left) p copied size h le fits room at = λ e. absurd (cc e)
load_pages-Brings (false ∷ outcomes) (suc left) p copied size h le fits room at = λ e. absurd (cc e)
load_pages-Brings (true ∷ outcomes) (suc left) p copied size h le fits room at =
    let amount = amount_in p copied h in
    elim (Bool-cases (ltb copied h.p_filesz && ltb 0 amount)) [
      | inl more ↦
          let lt : copied < h.p_filesz = ground arith in
          let rest =
            load_pages-Brings outcomes left (p + 1) (copied + amount) size h (ground arith) fits
              (omega arith) (IsAt-next p copied h lt at) in
          rw more (λ e. Brings-page size p copied h _ lt fits at (rest e))
      | inr done ↦
          let all : copied ≡ h.p_filesz = ground arith in
          rw done (
            load_pages-Brings outcomes left (p + 1) copied size h le fits (omega arith)
              (inr (omega arith, inl all)))
    ]

-- The first `n` pages could be made or remapped.
unfoldable pub all_ready : ℕ → List Bool → Bool
all_ready zero outcomes = true
all_ready (suc n) [] = false
all_ready (suc n) (ready ∷ outcomes) = ready && all_ready n outcomes

load_pages-all_ready :
    (outcomes : List Bool) (left p copied page_base : ℕ) (h : Phdr)
    → (load_pages outcomes left p copied page_base h).0 ≡ all_ready left outcomes
unfolding load_pages all_ready
load_pages-all_ready outcomes zero p copied page_base h = refl
load_pages-all_ready [] (suc left) p copied page_base h = refl
load_pages-all_ready (false ∷ outcomes) (suc left) p copied page_base h = refl
load_pages-all_ready (true ∷ outcomes) (suc left) p copied page_base h = ground (
  arith,
  load_pages-all_ready outcomes left (p + 1) (copied + amount_in p copied h) page_base h,
  load_pages-all_ready outcomes left (p + 1) copied page_base h,
)

-- The pages from the first address to the last.
abbrev pub page_count : Phdr → ℕ
page_count h = (h.p_vaddr % 4096 + h.p_memsz + 4095) / 4096

segment_pages-some :
    (size : ℕ) (h : Phdr)
    → h.p_filesz ≤ h.p_memsz
    → h.p_offset + h.p_filesz ≤ size
    → size < 2 ^ 64
    → h.p_vaddr + h.p_memsz + 4095 < 2 ^ 64
    → segment_pages size h ≡ some (record { page_base = base h; num_pages = page_count h })
unfolding segment_pages
segment_pages-some size h le fits lt room = ground arith

segment_pages-none :
    (size : ℕ) (h : Phdr)
    → (size < h.p_offset + h.p_filesz) ⊎ (2 ^ 64 ≤ h.p_vaddr + h.p_memsz + 4095)
    → segment_pages size h ≡ none
unfolding segment_pages
segment_pages-none size h out = ground arith

-- What loading a segment leads to. If it succeeds every copy stays inside its page and inside the
-- file, and the bytes of the segment in the file are at its addresses in their order, and no others.
abbrev pub IsLoad : Bool → List Bool → ℕ → Phdr → Bool × List PageCopy → Type 0
IsLoad has_area outcomes size h (done, copies) =
    ((done ≡ true)
      × All (IsCopyInside size) copies
      × ((a : ℕ)
          → source_at copies a ≡ (
              if leb h.p_vaddr a && ltb a (h.p_vaddr + h.p_filesz)
              then some (h.p_offset + (a - h.p_vaddr))
              else none)))
    ⊎ ((done ≡ false)
        × ((size < h.p_offset + h.p_filesz)
            ⊎ ((2 ^ 64 ≤ h.p_vaddr + h.p_memsz + 4095)
                ⊎ ((has_area ≡ false) ⊎ (all_ready (page_count h) outcomes ≡ false)))))

pages-IsLoad :
    (outcomes : List Bool) (size : ℕ) (h : Phdr)
    → h.p_filesz ≤ h.p_memsz
    → h.p_offset + h.p_filesz ≤ size
    → IsLoad true outcomes size h (load_pages outcomes (page_count h) 0 0 (base h) h)
pages-IsLoad outcomes size h le fits =
    let r = load_pages outcomes (page_count h) 0 0 (base h) h in
    let ready = load_pages-all_ready outcomes (page_count h) 0 0 (base h) h in
    elim (Bool-cases r.0) [
      | inl e ↦
          let b =
            load_pages-Brings outcomes (page_count h) 0 0 size h (omega arith) fits (omega arith)
              (inl (refl, refl)) e in
          inl (e, b.inside, λ a. ground (arith, b.bytes a))
      | inr e ↦ inr (e, inr (inr (inr (cc (e, ready)))))
    ]

with_area-IsLoad :
    (has_area : Bool) (outcomes : List Bool) (size : ℕ) (h : Phdr) (r : Bool × List PageCopy)
    → IsLoad true outcomes size h r
    → IsLoad has_area outcomes size h (if not has_area then (false, []) else r)
with_area-IsLoad false outcomes size h r l = inr (refl, inr (inr (inl refl)))
with_area-IsLoad true outcomes size h r l = l

-- For a segment with no more bytes in the file than in memory, of a file of fewer than 2^64 bytes,
-- load_segment succeeds unless the segment's bytes are not all inside the file, or its last page goes
-- past the end of the address space, or it gets no area, or one of its pages cannot be made or remapped. If it succeeds
-- each copy stays inside one page and inside the file, and together they bring the bytes of the
-- segment in the file to its addresses, in their order, and no byte to any other address.
pub load_segment-IsLoad :
    (has_area : Bool) (outcomes : List Bool) (size : ℕ) (h : Phdr)
    → size < 2 ^ 64
    → h.p_filesz ≤ h.p_memsz
    → IsLoad has_area outcomes size h (load_segment has_area outcomes size h)
unfolding load_segment
load_segment-IsLoad has_area outcomes size h lt le = elim (Bool-cases (h.p_memsz == 0)) [
  | inl empty ↦ rw empty (inl (refl, tt, λ a. ground arith))
  | inr memory ↦ elim (Bool-cases (leb (h.p_offset + h.p_filesz) size)) [
    | inr out ↦
        let short : size < h.p_offset + h.p_filesz = ground arith in
        rw (memory, segment_pages-none size h (inl short)) (inr (refl, inl short))
    | inl fits ↦ elim (Bool-cases (ltb (h.p_vaddr + h.p_memsz + 4095) (2 ^ 64))) [
      | inr past ↦
          let far : 2 ^ 64 ≤ h.p_vaddr + h.p_memsz + 4095 = ground arith in
          rw (memory, segment_pages-none size h (inr far)) (inr (refl, inr (inl far)))
      | inl room ↦
          rw (memory, segment_pages-some size h le (ground arith) lt (ground arith))
            (with_area-IsLoad has_area outcomes size h _
              (pages-IsLoad outcomes size h le (ground arith)))
    ]
  ]
]
