-- ===== src/Allocators.antt =====
-- The allocators of kernel/src/allocators.
pub mod AllocRange
pub mod Buddy
pub mod Range
pub mod Slab
