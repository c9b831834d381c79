-- ===== src/Memory.antt =====
-- The kernel's memory management (src/mm).
pub mod Vma
pub mod Bitmap
pub mod Pmm
pub mod Heap
