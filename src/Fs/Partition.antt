-- ===== src/Fs/Partition.antt =====
-- src/fs/partition.cpp: partition tables, and the block devices of partitions. The disk enters as a
-- function from a block number to the bytes of the block (`none` where the read fails), the heap as
-- whether the two mallocs of each register_partition succeed.
pub mod Access
pub mod Mbr
pub mod Gpt
use uni_os.Prelude.{
  ℕ, zero, suc, ◌+◌, ◌-◌, ◌*◌, ◌/◌, ◌%◌, ◌^◌, ◌<◌, Bool, true, false, not, ◌&&◌, ◌||◌, Option, none,
  some, List, [], ◌∷◌, ◌++◌, ltb, leb, ◌==◌, if◌then◌else◌, length, take,
}
use uni_os.Net.Bytes.{byte_at, u16_at, u32_at}

abbrev pub u64_at : List ℕ → ℕ → ℕ
u64_at d i = u32_at d i + u32_at d (i + 4) * 2 ^ 32

-- What a partition's device knows of itself: PartitionDeviceData and the size.
pub record Partition : Type 0 where
  pub partition_index : ℕ
  pub start_lba : ℕ
  pub total_blocks : ℕ
  pub label : List ℕ

-- What is asked of the parent device.
pub record Request : Type 0 where
  pub lba : ℕ
  pub count : ℕ

-- Both sums are of 64 bits.
unfoldable pub partition_read_blocks : Partition → (lba count : ℕ) → Option Request
partition_read_blocks p lba count =
    if ltb p.total_blocks ((lba + count) % 2 ^ 64)
    then none
    else some (record { lba = (p.start_lba + lba) % 2 ^ 64; count = count })

unfoldable pub partition_write_blocks :
    (allowed : Bool) → Partition → (lba count : ℕ) → Option Request
partition_write_blocks allowed p lba count =
    if not allowed
    then none
    else if ltb p.total_blocks ((lba + count) % 2 ^ 64)
    then none
    else some (record { lba = (p.start_lba + lba) % 2 ^ 64; count = count })

-- The partitions with a new one, unless it is empty or there is no memory.
unfoldable pub register_partition : (alloc : Bool) → Partition → List Partition → List Partition
register_partition alloc p parts =
    if p.total_blocks == 0 || not alloc then parts else parts ++ (p ∷ [])

-- A sector's entry `i`, of 16 bytes.
abbrev pub mbr_entry_at : ℕ → ℕ
mbr_entry_at i = 446 + 16 * i

unfoldable pub mbr_entry : List ℕ → ℕ → Partition
mbr_entry sector i = record {
  partition_index = i + 1;
  start_lba = u32_at sector (mbr_entry_at i + 8);
  total_blocks = u32_at sector (mbr_entry_at i + 12);
  label = [];
}

unfoldable pub mbr_skips : List ℕ → ℕ → Bool
mbr_skips sector i =
    let type = byte_at sector (mbr_entry_at i + 4) in
    type == 0 || (u32_at sector (mbr_entry_at i + 12) == 0 || type == 0xEE)

-- `n` entries are left from `i` on, and there is room for `room`.
unfoldable pub mbr_entries_from : List ℕ → (n i room : ℕ) → List Partition
mbr_entries_from sector zero i room = []
mbr_entries_from sector (suc n) i room =
    let skipped = mbr_entries_from sector n (i + 1) room in
    let taken = mbr_entries_from sector n (i + 1) (room - 1) in
    if room == 0 then [] else if mbr_skips sector i then skipped else mbr_entry sector i ∷ taken

unfoldable pub partition_parse_mbr_entries : List ℕ → ℕ → List Partition
partition_parse_mbr_entries sector max_entries =
    if byte_at sector 510 == 0x55 && byte_at sector 511 == 0xAA
    then mbr_entries_from sector 4 0 max_entries
    else []

pub record PartitionGptInfo : Type 0 where
  pub entries_lba : ℕ
  pub entry_count : ℕ
  pub entry_size : ℕ

abbrev pub gpt_signature : ℕ
gpt_signature = 0x5452415020494645

abbrev pub gpt_entry_size : ℕ
gpt_entry_size = 128

unfoldable pub partition_parse_gpt_header : List ℕ → (block_size : ℕ) → Option PartitionGptInfo
partition_parse_gpt_header sector block_size =
    if ltb block_size 512
    then none
    else if not (u64_at sector 0 == gpt_signature)
        || (ltb (u32_at sector 84) gpt_entry_size
            || (u32_at sector 80 == 0 || ltb block_size (u32_at sector 84)))
    then none
    else some (record {
      entries_lba = u64_at sector 72;
      entry_count = u32_at sector 80;
      entry_size = u32_at sector 84;
    })

-- The first `n` bytes from `i` on are zero.
unfoldable pub all_zero_from : List ℕ → (n i : ℕ) → Bool
all_zero_from d zero i = true
all_zero_from d (suc n) i = byte_at d i == 0 && all_zero_from d n (i + 1)

unfoldable pub guid_all_zero : List ℕ → ℕ → Bool
guid_all_zero d i = all_zero_from d 16 i

-- The `n` code units from `i` on; `room` is the room in the buffer, its last byte left for the 0.
unfoldable pub utf16le_to_ascii : List ℕ → (n i room : ℕ) → List ℕ
utf16le_to_ascii d zero i room = []
utf16le_to_ascii d (suc n) i room =
    let cp = u16_at d i in
    let rest = utf16le_to_ascii d n (i + 2) (room - 1) in
    if leb room 1 || (cp == 0 || cp == 0xFFFF)
    then []
    else (if leb 32 cp && ltb cp 127 then cp else 95) ∷ rest

unfoldable pub partition_parse_gpt_entry :
    List ℕ → (entry_size partition_index : ℕ) → Option Partition
partition_parse_gpt_entry d entry_size partition_index =
    if ltb entry_size gpt_entry_size || partition_index == 0
    then none
    else if guid_all_zero d 0 || ltb (u64_at d 40) (u64_at d 32)
    then none
    else some (record {
      partition_index = partition_index;
      start_lba = u64_at d 32;
      total_blocks = (u64_at d 40 - u64_at d 32 + 1) % 2 ^ 64;
      label = utf16le_to_ascii d 36 56 64;
    })

abbrev pub register_parsed : (ℕ → Bool) → Option Partition → List Partition → List Partition
register_parsed alloc none parts = parts
register_parsed alloc (some p) parts = register_partition (alloc p.partition_index) p parts

unfoldable pub drop_bytes : ℕ → List ℕ → List ℕ
drop_bytes zero d = d
drop_bytes (suc n) [] = []
drop_bytes (suc n) (b ∷ d) = drop_bytes n d

-- The sector to read entry `idx` from: a new one where the last one ends, `none` if it fails.
unfoldable pub entry_sector :
    (ℕ → Option (List ℕ)) → PartitionGptInfo → (per_sector idx : ℕ) → List ℕ → Option (List ℕ)
entry_sector read info per_sector idx sector =
    if idx % per_sector == 0
    then read ((info.entries_lba + idx / per_sector) % 2 ^ 64)
    else some sector

module _ (read : ℕ → Option (List ℕ)) (alloc : ℕ → Bool) (info : PartitionGptInfo)
    (per_sector : ℕ) where
  -- The loop from entry `idx` on; `n` entries are left.
  unfoldable pub scan_entries : (n idx : ℕ) → List ℕ → List Partition → List Partition
  scan_entries zero idx sector parts = parts
  scan_entries (suc n) idx sector parts = elim (entry_sector read info per_sector idx sector) [
    | none ↦ parts
    | some s ↦
        let d = drop_bytes (idx % per_sector * info.entry_size) s in
        scan_entries n (idx + 1) s
          (register_parsed alloc (partition_parse_gpt_entry d info.entry_size (idx + 1)) parts)
  ]

abbrev pub scan_with :
    (ℕ → Option (List ℕ)) → (ℕ → Bool) → (block_size : ℕ) → Option PartitionGptInfo → List Partition
scan_with read alloc block_size none = []
scan_with read alloc block_size (some info) =
    scan_entries read alloc info (block_size / info.entry_size) info.entry_count 0 [] []

abbrev pub parse_read : Option (List ℕ) → ℕ → Option PartitionGptInfo
parse_read none block_size = none
parse_read (some sector) block_size = partition_parse_gpt_header sector block_size

-- The partitions that it registers.
unfoldable pub scan_gpt : (ℕ → Option (List ℕ)) → (ℕ → Bool) → (block_size : ℕ) → List Partition
scan_gpt read alloc block_size = scan_with read alloc block_size (parse_read (read 1) block_size)

abbrev pub register_all : (ℕ → Bool) → List Partition → List Partition → List Partition
register_all alloc [] parts = parts
register_all alloc (p ∷ ps) parts =
    register_all alloc ps (register_partition (alloc p.partition_index) p parts)

abbrev pub mbr_of : Option (List ℕ) → List Partition
mbr_of none = []
mbr_of (some sector) = partition_parse_mbr_entries sector 4

unfoldable pub scan_mbr : (ℕ → Option (List ℕ)) → (ℕ → Bool) → List Partition
scan_mbr read alloc = register_all alloc (mbr_of (read 0)) []

abbrev pub or_else : List Partition → List Partition → List Partition
or_else [] others = others
or_else (p ∷ ps) others = p ∷ ps

-- One round of `partition_scan_all`, for a disk that has no partitions yet.
unfoldable pub scan_device : (ℕ → Option (List ℕ)) → (ℕ → Bool) → (block_size : ℕ) → List Partition
scan_device read alloc block_size =
    if ltb block_size 512
    then []
    else or_else (scan_gpt read alloc block_size) (scan_mbr read alloc)
