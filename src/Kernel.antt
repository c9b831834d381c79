-- ===== src/Kernel.antt =====
-- The parts of the kernel core: src/kernel/core and src/kernel/sync.
pub mod Elf
pub mod Mutex
