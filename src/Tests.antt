-- ===== src/Tests.antt =====
-- Runs of the definitions at concrete inputs.
mod Buddy
mod Slab
mod AllocRange
mod Range
mod Bitmap
mod Scheduling
mod Gpt
mod Links
mod Elf
mod Sectors
mod Drive
mod LemonFs
mod Memory
mod Heap
mod Crc
mod Physical
