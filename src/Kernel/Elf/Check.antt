-- ===== src/Kernel/Elf/Check.antt =====
-- src/kernel/core/elf.cpp: what `elf_validate` accepts.
use uni_os.Prelude.{
  ℕ, zero, suc, ◌+◌, ◌*◌, ◌^◌, ◌<◌, ◌≤◌, ◌≡◌, ◌↔◌, ◌⊎◌, inl, inr, refl, true, false, Bool-cases,
  List, arith, ◌==◌, length,
}
use uni_os.Net.Bytes.{byte_at, u32_at}
use uni_os.Kernel.Elf.{
  Phdr, e_type, e_machine, e_phoff, e_phentsize, e_phnum, phdr_at, phdr_refused, phdrs_pass,
  elf_validate,
}

-- A segment that is loaded takes no more bytes from the file than it has in memory, takes them from
-- inside the file, and does not go past the end of the address space.
abbrev pub IsInside : ℕ → Phdr → Type 0
IsInside size h =
    h.p_type ≡ 1
    → (h.p_filesz ≤ h.p_memsz) × (h.p_offset + h.p_filesz ≤ size) × (h.p_vaddr + h.p_memsz < 2 ^ 64)

phdr_refused_iff :
    (size : ℕ) (h : Phdr) → size < 2 ^ 64 → (phdr_refused size h ≡ false) ↔ IsInside size h
unfolding phdr_refused
phdr_refused_iff size h lt = (λ e load. ground arith, λ inside. ground (arith, inside))

phdrs_pass_iff :
    (d : List ℕ) (left i : ℕ)
    → length d < 2 ^ 64
    → (phdrs_pass d left i ≡ true)
      ↔ ((j : ℕ) → i ≤ j → j < i + left → IsInside (length d) (phdr_at d j))
unfolding phdrs_pass
phdrs_pass_iff d zero i lt = (λ e j le below. absurd (omega arith), λ h. refl)
phdrs_pass_iff d (suc n) i lt =
    let (f, g) = phdr_refused_iff (length d) (phdr_at d i) lt in
    let (rf, rg) = phdrs_pass_iff d n (i + 1) lt in
    elim (Bool-cases (phdr_refused (length d) (phdr_at d i))) [
      | inl bad ↦ rw bad (λ e. absurd (cc e), λ h. cc (bad, g (h i (omega arith) (omega arith))))
      | inr good ↦ rw good (
        λ e j le below. elim (Bool-cases (i == j)) [
          | inl same ↦ let s : j ≡ i = ground arith in rw s (f good)
          | inr other ↦ rf e j (ground arith) (omega arith)
        ],
        λ h. rg (λ j le below. h j (omega arith) (omega arith)),
      )
    ]

-- What a file must be to be accepted: it holds the two headers with the expected values, and the
-- segments lie inside it.
pub record IsElf (d : List ℕ) : Type 0 where
  pub header : 64 ≤ length d
  pub magic : u32_at d 0 ≡ 0x464C457F
  pub class : byte_at d 4 ≡ 2
  pub order : byte_at d 5 ≡ 1
  pub type : (e_type d ≡ 2) ⊎ (e_type d ≡ 3)
  pub machine : e_machine d ≡ 62
  pub entry_size : e_phentsize d ≡ 56
  pub count : 0 < e_phnum d
  pub table : e_phoff d + e_phnum d * 56 ≤ length d
  pub segments : (i : ℕ) → i < e_phnum d → IsInside (length d) (phdr_at d i)

-- For a file of fewer than 2^64 bytes elf_validate answers true exactly if the file has its header,
-- with the values of an executable or shared object for x86-64 and at least one program header, the
-- table of program headers is inside the file, and each segment to load has no more bytes in the file
-- than in memory, all inside the file, and ends below address 2^64.
pub elf_validate_iff : (d : List ℕ) → length d < 2 ^ 64 → (elf_validate d ≡ true) ↔ IsElf d
unfolding elf_validate
elf_validate_iff d lt =
    let (f, g) = phdrs_pass_iff d (e_phnum d) 0 lt in
    (
      λ e. record {
        header = ground arith;
        magic = ground arith;
        class = ground arith;
        order = ground arith;
        type = ground arith;
        machine = ground arith;
        entry_size = ground arith;
        count = ground arith;
        table = ground arith;
        segments = λ i below. f (ground arith) i (omega arith) (omega arith);
      },
      λ h.
          let pass : phdrs_pass d (e_phnum d) 0 ≡ true =
            g (λ j le below. h.segments j (omega arith)) in
          ground (
            arith, h.header, h.magic, h.class, h.order, h.type, h.machine, h.entry_size, h.count,
            h.table,
          ),
    )
