-- ===== src/Fs.antt =====
-- Pipes, partitions (src/fs) and files in memory (src/kernel/fs/memfd.cpp).
pub mod Pipe
pub mod Memfd
pub mod Partition
