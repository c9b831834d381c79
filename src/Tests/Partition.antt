-- ===== src/Tests/Partition.antt =====
-- Runs of src/fs/partition.cpp on small tables.
use uni_os.Prelude.{
  ℕ, ◌-◌, ◌≡◌, refl, ◌^◌, true, Option, none, some, List, [], ◌∷◌, ◌++◌, arith, replicate,
  length-replicate, All, ◌==◌, if◌then◌else◌,
}
use uni_os.Fs.Partition.{
  Partition, partition_read_blocks, partition_write_blocks, partition_parse_mbr_entries,
  mbr_entries_from, mbr_entry, mbr_skips, partition_parse_gpt_entry, scan_gpt, scan_mbr,
  scan_device, scan_entries, entry_sector, partition_parse_gpt_header, register_partition,
  drop_bytes, guid_all_zero, all_zero_from, utf16le_to_ascii,
}
use uni_os.Fs.Partition.Access.{Apart, partition_isolation}
use uni_os.Fs.Partition.Mbr.{Slot, IsSlot, slots_then, described, partition_parse_mbr_entries-slots}

abbrev root : Partition
root = record { partition_index = 1; start_lba = 2048; total_blocks = 1000; label = [] }

abbrev home : Partition
home = record { partition_index = 2; start_lba = 3048; total_blocks = 500; label = [] }

abbrev slot : ℕ → ℕ → ℕ → Slot
slot type lba count = record {
  status = 128;
  first0 = 0;
  first1 = 0;
  first2 = 0;
  type = type;
  last0 = 0;
  last1 = 0;
  last2 = 0;
  first_lba = lba;
  sector_count = count;
}

abbrev boot : List ℕ
boot = replicate 446 0

-- The sum of block and count wraps, so a range far outside the partition passes.
wraps : partition_read_blocks root (2 ^ 64 - 1) 1 ≡ some (record { lba = 2047; count = 1 })
unfolding partition_read_blocks
wraps = refl

two_found :
    partition_parse_mbr_entries
      (boot
        ++ slots_then
            (slot 0 1 1 ∷ slot 131 2048 1000 ∷ slot 238 1 9 ∷ slot 12 70000 5 ∷ [])
            (0x55 ∷ 0xAA ∷ []))
      4
    ≡ (record { partition_index = 2; start_lba = 2048; total_blocks = 1000; label = [] }
        ∷ record { partition_index = 4; start_lba = 70000; total_blocks = 5; label = [] }
        ∷ [])
unfolding partition_parse_mbr_entries mbr_entries_from mbr_entry mbr_skips
two_found = refl

partition_isolation_example :
    Apart (partition_write_blocks true root 999 1) (partition_read_blocks home 0 8)
    × Apart (partition_write_blocks true home 0 8) (partition_read_blocks root 999 1)
partition_isolation_example =
    partition_isolation root home 999 1 0 8 (omega arith) (omega arith) (omega arith) (omega arith)

four_slots : All IsSlot (slot 131 2048 1000 ∷ slot 0 0 0 ∷ slot 0 0 0 ∷ slot 0 0 0 ∷ [])
four_slots = ground arith

partition_parse_mbr_entries-slots_example :
    partition_parse_mbr_entries
      (boot
        ++ slots_then
            (slot 131 2048 1000 ∷ slot 0 0 0 ∷ slot 0 0 0 ∷ slot 0 0 0 ∷ [])
            (0x55 ∷ 0xAA ∷ []))
      4
    ≡ described (slot 131 2048 1000 ∷ slot 0 0 0 ∷ slot 0 0 0 ∷ slot 0 0 0 ∷ []) 0 4
partition_parse_mbr_entries-slots_example =
    partition_parse_mbr_entries-slots boot (slot 131 2048 1000) (slot 0 0 0) (slot 0 0 0)
      (slot 0 0 0) 4 (length-replicate {A = ℕ} 446 0) four_slots

abbrev header : List ℕ
header =
    0x45
    ∷ 0x46
    ∷ 0x49
    ∷ 0x20
    ∷ 0x50
    ∷ 0x41
    ∷ 0x52
    ∷ 0x54
    ∷ (replicate 64 0
        ++ (2 ∷ (replicate 7 0 ++ (4 ∷ 0 ∷ 0 ∷ 0 ∷ 128 ∷ 0 ∷ 0 ∷ 0 ∷ replicate 424 0))))

-- Blocks 34 to 99, under the name A.
abbrev first_entry : List ℕ
first_entry =
    replicate 32 1 ++ (34 ∷ (replicate 7 0 ++ (99 ∷ (replicate 15 0 ++ (65 ∷ replicate 455 0)))))

abbrev disk : ℕ → Option (List ℕ)
disk lba = if lba == 1 then some header else if lba == 2 then some first_entry else none

finds_one :
    scan_device disk (λ i. true) 512
    ≡ (record { partition_index = 1; start_lba = 34; total_blocks = 66; label = 65 ∷ [] } ∷ [])
unfolding scan_device scan_gpt scan_mbr scan_entries entry_sector partition_parse_gpt_header
    partition_parse_gpt_entry register_partition drop_bytes guid_all_zero all_zero_from
    utf16le_to_ascii
finds_one = refl
