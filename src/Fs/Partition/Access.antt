-- ===== src/Fs/Partition/Access.antt =====
-- src/fs/partition.cpp: what a partition's device asks of its disk.
use uni_os.Prelude.{
  ℕ, ◌+◌, ◌^◌, ◌<◌, ◌≤◌, ◌≡◌, ◌⊎◌, Bool, true, ◌&&◌, Option, none, some, arith, leb, if◌then◌else◌,
}
use uni_os.Fs.Partition.{Partition, Request, partition_read_blocks, partition_write_blocks}

abbrev pub access : Bool → Partition → (lba count : ℕ) → Option Request
access allowed p lba count =
    if allowed && leb (lba + count) p.total_blocks
    then some (record { lba = p.start_lba + lba; count = count })
    else none

-- For a partition that ends below block 2^64 and a range of blocks that does, a read asks the disk
-- for the blocks of the partition that the range names if they are all in the partition, and for
-- none otherwise; a write does the same while writes are allowed, and asks for none while not.
pub partition_access :
    (allowed : Bool) (p : Partition) (lba count : ℕ)
    → p.start_lba + p.total_blocks < 2 ^ 64
    → lba + count < 2 ^ 64
    → (partition_read_blocks p lba count ≡ access true p lba count)
      × (partition_write_blocks allowed p lba count ≡ access allowed p lba count)
unfolding partition_read_blocks partition_write_blocks
partition_access allowed p lba count fits range = ground arith

-- No block is in both requests.
abbrev pub Apart : Option Request → Option Request → Type 0
Apart none s = Unit
Apart (some r) none = Unit
Apart (some r) (some s) = (r.lba + r.count ≤ s.lba) ⊎ (s.lba + s.count ≤ r.lba)

-- A write to one partition touches no block that a read of another asks for, if the first ends
-- before the second starts and both end below block 2^64, as the ranges of the requests do.
pub partition_isolation :
    (p q : Partition) (lba count lba' count' : ℕ)
    → p.start_lba + p.total_blocks ≤ q.start_lba
    → q.start_lba + q.total_blocks < 2 ^ 64
    → lba + count < 2 ^ 64
    → lba' + count' < 2 ^ 64
    → Apart (partition_write_blocks true p lba count) (partition_read_blocks q lba' count')
      × Apart (partition_write_blocks true q lba' count') (partition_read_blocks p lba count)
unfolding partition_read_blocks partition_write_blocks
partition_isolation p q lba count lba' count' before fits range range' = ground arith
