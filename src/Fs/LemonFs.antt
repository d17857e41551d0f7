-- ===== src/Fs/LemonFs.antt =====
-- kernel/src/fs/lemonfs/mod.rs: the operations of the file system.
pub mod Chain
pub mod Paths
pub mod Entries
pub mod Contents
pub mod Queries
pub mod Route
pub mod SwapRemove
pub mod RootCache
pub mod RootCreate
pub mod RootWrite
pub mod Extents
