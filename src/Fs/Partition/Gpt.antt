-- ===== src/Fs/Partition/Gpt.antt =====
-- src/fs/partition.cpp: what the entries of a GUID partition table become.
use uni_os.Prelude.{
  ℕ, zero, suc, ◌+◌, ◌-◌, ◌*◌, ◌/◌, ◌%◌, ◌^◌, ◌<◌, ◌≤◌, ◌≡◌, ◌≢◌, refl, Bool, not, ◌||◌, Option,
  none, some, List, [], ◌∷◌, ◌++◌, arith, leb, ◌==◌, length, All, Bool-cases, IfAny, inl, inr,
}
use uni_os.Net.Bytes.{u16_at}
use uni_os.Fs.Partition.{
  Partition, PartitionGptInfo, u64_at, utf16le_to_ascii, partition_parse_gpt_entry,
  register_partition, register_parsed, drop_bytes, entry_sector, scan_entries, scan_with,
  parse_read, scan_gpt,
}

-- A printable character of ASCII.
abbrev pub IsPrintable : ℕ → Type 0
IsPrintable c = (32 ≤ c) × (c < 127)

utf16le_to_ascii_lem :
    (d : List ℕ) (n i room : ℕ)
    → (length (utf16le_to_ascii d n i room) ≤ n) × All IsPrintable (utf16le_to_ascii d n i room)
unfolding utf16le_to_ascii
utf16le_to_ascii_lem d zero i room = (omega arith, tt)
utf16le_to_ascii_lem d (suc n) i room =
    let (len, all) = utf16le_to_ascii_lem d n (i + 2) (room - 1) in
    elim (Bool-cases (leb room 1 || (u16_at d i == 0 || u16_at d i == 0xFFFF))) [
      | inl stop ↦ rw stop (omega arith, tt)
      | inr go ↦ rw go (omega (arith, len), (ground arith, all))
    ]

-- The partition of the entry with number `index` that the bytes `d` are.
abbrev pub IsEntryOf : List ℕ → ℕ → Partition → Type 0
IsEntryOf d index p =
    (p.partition_index ≡ index)
    × (p.start_lba ≡ u64_at d 32)
    × (u64_at d 32 ≤ u64_at d 40)
    × (p.total_blocks ≡ (u64_at d 40 + 1 - u64_at d 32) % 2 ^ 64)
    × (length p.label ≤ 36)
    × All IsPrintable p.label

-- A partition that is read from an entry has the entry's number, starts at its first block, which
-- does not come after its last one, and has as its size, in 64 bits, the number of blocks from the
-- first to the last. Its label has at most 36 characters, all of them printable ASCII.
pub partition_parse_gpt_entry_lem :
    (d : List ℕ) (entry_size index : ℕ)
    → IfAny (IsEntryOf d index) (partition_parse_gpt_entry d entry_size index)
unfolding partition_parse_gpt_entry
partition_parse_gpt_entry_lem d entry_size index = ground (arith, utf16le_to_ascii_lem d 36 56 64)

-- Numbers that go up along the list.
abbrev pub IsIncreasing : List Partition → Type 0
IsIncreasing [] = Unit
IsIncreasing (p ∷ ps) = All (λ q. p.partition_index < q.partition_index) ps × IsIncreasing ps

-- Of the first `n` entries, each with blocks of its own.
abbrev pub IsAmong : ℕ → Partition → Type 0
IsAmong n p = (1 ≤ p.partition_index) × (p.partition_index ≤ n) × (p.total_blocks ≢ 0)

pub record IsScanned (n : ℕ) (parts : List Partition) : Type 0 where
  pub among : All (IsAmong n) parts
  pub increasing : IsIncreasing parts

IsAmong-next :
    (n m : ℕ) (parts : List Partition) → n ≤ m → All (IsAmong n) parts → All (IsAmong m) parts
IsAmong-next n m [] le h = tt
IsAmong-next n m (p ∷ ps) le h = ((h.0.0, omega (arith, h.0.1), h.0.2), IsAmong-next n m ps le h.1)

IsScanned-next : (n m : ℕ) (parts : List Partition) → n ≤ m → IsScanned n parts → IsScanned m parts
IsScanned-next n m parts le h = record {
  among = IsAmong-next n m parts le h.among;
  increasing = h.increasing;
}

All-append-one :
    (P : Partition → Type 0) (ps : List Partition) (p : Partition)
    → All P ps
    → P p
    → All P (ps ++ (p ∷ []))
All-append-one P [] p h k = (k, tt)
All-append-one P (q ∷ qs) p h k = (h.0, All-append-one P qs p h.1 k)

IsIncreasing-append :
    (n : ℕ) (ps : List Partition) (p : Partition)
    → All (IsAmong n) ps
    → n < p.partition_index
    → IsIncreasing ps
    → IsIncreasing (ps ++ (p ∷ []))
IsIncreasing-append n [] p h lt inc = (tt, tt)
IsIncreasing-append n (q ∷ qs) p h lt inc = (
  All-append-one (λ x. q.partition_index < x.partition_index) qs p inc.0 (omega (arith, h.0.1)),
  IsIncreasing-append n qs p h.1 lt inc.1,
)

register-IsScanned :
    (n : ℕ) (alloc : Bool) (p : Partition) (parts : List Partition)
    → p.partition_index ≡ n + 1
    → IsScanned n parts
    → IsScanned (n + 1) (register_partition alloc p parts)
unfolding register_partition
register-IsScanned n alloc p parts e h = elim (Bool-cases (p.total_blocks == 0 || not alloc)) [
  | inl skip ↦ rw skip (IsScanned-next n (n + 1) parts (omega arith) h)
  | inr go ↦ rw go (record {
    among =
        All-append-one (IsAmong (n + 1)) parts p
          (IsAmong-next n (n + 1) parts (omega arith) h.among)
          (omega arith, omega arith, ground arith);
    increasing = IsIncreasing-append n parts p h.among (omega arith) h.increasing;
  })
]

parsed-IsScanned :
    (n : ℕ) (d : List ℕ) (alloc : ℕ → Bool) (o : Option Partition) (parts : List Partition)
    → IfAny (IsEntryOf d (n + 1)) o
    → IsScanned n parts
    → IsScanned (n + 1) (register_parsed alloc o parts)
parsed-IsScanned n d alloc none parts e h = IsScanned-next n (n + 1) parts (omega arith) h
parsed-IsScanned n d alloc (some p) parts e h =
    register-IsScanned n (alloc p.partition_index) p parts e.0 h

module _ (read : ℕ → Option (List ℕ)) (alloc : ℕ → Bool) (info : PartitionGptInfo)
    (per_sector : ℕ) where
  scan_entries-IsScanned :
      (n idx : ℕ) (sector : List ℕ) (parts : List Partition)
      → IsScanned idx parts
      → IsScanned (n + idx) (scan_entries read alloc info per_sector n idx sector parts)
  unfolding scan_entries
  scan_entries-IsScanned zero idx sector parts h =
      IsScanned-next idx (zero + idx) parts (omega arith) h
  scan_entries-IsScanned (suc n) idx sector parts h =
      with_sector (entry_sector read info per_sector idx sector)
        (λ s. scan_entries-IsScanned n (idx + 1) s)
    where
      with_sector :
          (o : Option (List ℕ))
          → ((s : List ℕ) (ps : List Partition)
              → IsScanned (idx + 1) ps
              → IsScanned
                  (n + (idx + 1))
                  (scan_entries read alloc info per_sector n (idx + 1) s ps))
          → IsScanned (suc n + idx) (elim o [
            | none ↦ parts
            | some s ↦
                let d = drop_bytes (idx % per_sector * info.entry_size) s in
                scan_entries read alloc info per_sector n (idx + 1) s (
                  register_parsed alloc
                    (partition_parse_gpt_entry d info.entry_size (idx + 1))
                    parts)
          ])
      with_sector none rest = IsScanned-next idx (suc n + idx) parts (omega arith) h
      with_sector (some s) rest =
          let d = drop_bytes (idx % per_sector * info.entry_size) s in
          let ps =
            register_parsed alloc (partition_parse_gpt_entry d info.entry_size (idx + 1)) parts in
          IsScanned-next (n + (idx + 1)) (suc n + idx)
            (scan_entries read alloc info per_sector n (idx + 1) s ps) (omega arith)
            (rest s ps (
              parsed-IsScanned idx d alloc (partition_parse_gpt_entry d info.entry_size (idx + 1))
                parts (partition_parse_gpt_entry_lem d info.entry_size (idx + 1)) h))

-- What a scan of a table registers, with the information of its header, if it has one.
abbrev pub IsScannedBy : Option PartitionGptInfo → List Partition → Type 0
IsScannedBy none parts = parts ≡ []
IsScannedBy (some info) parts = IsScanned info.entry_count parts

scan_with-IsScannedBy :
    (read : ℕ → Option (List ℕ)) (alloc : ℕ → Bool) (block_size : ℕ) (o : Option PartitionGptInfo)
    → IsScannedBy o (scan_with read alloc block_size o)
scan_with-IsScannedBy read alloc block_size none = refl
scan_with-IsScannedBy read alloc block_size (some info) =
    IsScanned-next (info.entry_count + 0) info.entry_count _ (omega arith) (
      scan_entries-IsScanned read alloc info (block_size / info.entry_size) info.entry_count 0 [] []
        (record { among = tt; increasing = tt }))

-- Whatever the disk holds and whichever reads and mallocs fail, a scan without a valid header
-- registers nothing, and one with a valid header registers partitions with blocks, under numbers
-- from 1 to the count of the header that go up, so that none has the number of another.
pub scan_gpt-IsScannedBy :
    (read : ℕ → Option (List ℕ)) (alloc : ℕ → Bool) (block_size : ℕ)
    → IsScannedBy (parse_read (read 1) block_size) (scan_gpt read alloc block_size)
unfolding scan_gpt
scan_gpt-IsScannedBy read alloc block_size =
    scan_with-IsScannedBy read alloc block_size (parse_read (read 1) block_size)
