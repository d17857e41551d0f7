-- ===== src/Elf.antt =====
-- kernel/src/elf.
pub mod Loader
