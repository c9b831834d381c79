-- ===== src/Fs/Partition/Mbr.antt =====
-- src/fs/partition.cpp: the slots of a master boot record.
use uni_os.Prelude.{
  ℕ, zero, suc, ◌+◌, ◌-◌, ◌*◌, ◌^◌, ◌<◌, ◌≡◌, refl, ◌||◌, List, [], ◌∷◌, ◌++◌, arith, ◌==◌,
  if◌then◌else◌, length, length-append, get_or, All,
}
use mathlib.Core.Path.{subst}
use mathlib.Core.List.{append_assoc}
use uni_os.Net.Bytes.{byte_at, u32_at, join32}
use uni_os.Net.Ipv4.{u32_then}
use uni_os.Fs.Partition.{
  Partition, mbr_entry, mbr_skips, mbr_entry_at, mbr_entries_from, partition_parse_mbr_entries,
}

-- MbrPartitionEntry, its arrays written out.
pub record Slot : Type 0 where
  pub status : ℕ
  pub first0 : ℕ
  pub first1 : ℕ
  pub first2 : ℕ
  pub type : ℕ
  pub last0 : ℕ
  pub last1 : ℕ
  pub last2 : ℕ
  pub first_lba : ℕ
  pub sector_count : ℕ

abbrev pub slot_then : Slot → List ℕ → List ℕ
slot_then s rest =
    s.status
    ∷ s.first0
    ∷ s.first1
    ∷ s.first2
    ∷ s.type
    ∷ s.last0
    ∷ s.last1
    ∷ s.last2
    ∷ u32_then s.first_lba (u32_then s.sector_count rest)

abbrev pub slots_then : List Slot → List ℕ → List ℕ
slots_then [] rest = rest
slots_then (s ∷ ss) rest = slot_then s (slots_then ss rest)

abbrev pub IsSlot : Slot → Type 0
IsSlot s = (s.first_lba < 2 ^ 32) × (s.sector_count < 2 ^ 32)

-- The slots that describe a partition, as far as there is room, each under its number.
abbrev pub described : List Slot → (i room : ℕ) → List Partition
described [] i room = []
described (s ∷ ss) i room =
    if room == 0
    then []
    else if s.type == 0 || (s.sector_count == 0 || s.type == 0xEE)
    then described ss (i + 1) room
    else record {
      partition_index = i + 1;
      start_lba = s.first_lba;
      total_blocks = s.sector_count;
      label = [];
    }
      ∷ described ss (i + 1) (room - 1)

get_or-append :
    (xs ys : List ℕ) (i k : ℕ) → i ≡ length xs + k → get_or (xs ++ ys) i 0 ≡ get_or ys k 0
get_or-append [] ys i k e = let f : i ≡ k = omega arith in rw f refl
get_or-append (x ∷ xs) ys zero k e = absurd (omega arith)
get_or-append (x ∷ xs) ys (suc i) k e = get_or-append xs ys i k (omega arith)

module _ (front rest : List ℕ) (s : Slot) (i : ℕ) (at : length front ≡ 446 + 16 * i)
    (h : IsSlot s) where
  field_at :
      (k j : ℕ)
      → j ≡ 446 + 16 * i + k
      → get_or (front ++ slot_then s rest) j 0 ≡ get_or (slot_then s rest) k 0
  field_at k j e = get_or-append front (slot_then s rest) j k (omega arith)

  slot_lem :
      (u32_at (front ++ slot_then s rest) (mbr_entry_at i + 8) ≡ s.first_lba)
      × (u32_at (front ++ slot_then s rest) (mbr_entry_at i + 12) ≡ s.sector_count)
      × (byte_at (front ++ slot_then s rest) (mbr_entry_at i + 4) ≡ s.type)
  slot_lem =
      rw
        (
          field_at 8 (446 + 16 * i + 8) (omega arith),
          field_at 9 (446 + 16 * i + 8 + 1) (omega arith),
          field_at 10 (446 + 16 * i + 8 + 2) (omega arith),
          field_at 11 (446 + 16 * i + 8 + 3) (omega arith),
          field_at 12 (446 + 16 * i + 12) (omega arith),
          field_at 13 (446 + 16 * i + 12 + 1) (omega arith),
          field_at 14 (446 + 16 * i + 12 + 2) (omega arith),
          field_at 15 (446 + 16 * i + 12 + 3) (omega arith),
          field_at 4 (446 + 16 * i + 4) (omega arith),
        )
        (join32 s.first_lba h.0, join32 s.sector_count h.1, refl)

entries-described :
    (front : List ℕ) (ss : List Slot) (tail : List ℕ) (i room : ℕ)
    → length front ≡ 446 + 16 * i
    → All IsSlot ss
    → mbr_entries_from (front ++ slots_then ss tail) (length ss) i room ≡ described ss i room
unfolding mbr_entries_from mbr_entry mbr_skips
entries-described front [] tail i room at h = refl
entries-described front (s ∷ ss) tail i room at h =
    let (lba, count, type) = slot_lem front (slots_then ss tail) s i at h.0 in
    let same = append_assoc front (slot_then s []) (slots_then ss tail) in
    let next = λ (r : ℕ).
      subst (λ w. mbr_entries_from w (length ss) (i + 1) r ≡ described ss (i + 1) r) same
        (entries-described (front ++ slot_then s []) ss tail (i + 1) r
          (omega (arith, length-append front (slot_then s []))) h.1) in
    rw (lba, count, type, next room, next (room - 1)) refl

-- A sector of 446 bytes of boot code, four slots with numbers of 32 bits and the signature is read
-- as the slots that describe a partition, as far as there is room for them.
pub partition_parse_mbr_entries-slots :
    (boot : List ℕ) (a b c d : Slot) (room : ℕ)
    → length boot ≡ 446
    → All IsSlot (a ∷ b ∷ c ∷ d ∷ [])
    → partition_parse_mbr_entries (boot ++ slots_then (a ∷ b ∷ c ∷ d ∷ []) (0x55 ∷ 0xAA ∷ [])) room
      ≡ described (a ∷ b ∷ c ∷ d ∷ []) 0 room
unfolding partition_parse_mbr_entries
partition_parse_mbr_entries-slots boot a b c d room lb h =
    let ss : List Slot = a ∷ b ∷ c ∷ d ∷ [] in
    let tail : List ℕ = 0x55 ∷ 0xAA ∷ [] in
    rw
      (
        get_or-append boot (slots_then ss tail) 510 64 (omega arith),
        get_or-append boot (slots_then ss tail) 511 65 (omega arith),
      )
      (entries-described boot ss tail 0 room lb h)
