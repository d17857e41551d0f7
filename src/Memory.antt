-- ===== src/Memory.antt =====
-- kernel/src/memory.
pub mod Heap
pub mod Physical
pub mod Virtual
