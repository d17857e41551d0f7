-- ===== src/Fs.antt =====
-- kernel/src/fs.
pub mod Bitmap
pub mod Links
pub mod Sectors
pub mod Path
pub mod Store
pub mod Directory
pub mod LemonFs
