-- ===== src/Storage.antt =====
-- kernel/src/drivers/storage.
pub mod Drive
pub mod Gpt
