-- ===== src/Helpers.antt =====
-- The modules of kernel/src/helpers that are not modelled beside their users.
pub mod Crc
