-- ===== src/Tests/Sectors.antt =====
-- A write of kernel/src/fs/lba_abstractor.rs on blocks of two sectors.
use maram_os.Base.{ℕ, ◌*◌, ◌≡◌, some, arith, if◌then◌else◌}
use maram_os.Fs.Sectors.{write_sectors}
use maram_os.Fs.Sectors.Stage.{within}
use maram_os.Fs.Sectors.Write.{write_sectors_lem}

-- Sectors 3 to 5, of which 3 shares a block with 2.
write_sectors_lem_example :
    (after : ℕ → ℕ) × (write_sectors 1024 100 0 (λ a. a) 3 3 1 (λ a. 7) ≡ some after)
    × ((j : ℕ) → after (j * 512) ≡ (if within 3 3 j then 7 else j * 512))
write_sectors_lem_example =
    write_sectors_lem 2 100 0 (λ a. a) 3 3 1 (λ a. 7) (omega arith) (omega arith) (omega arith)
      (omega arith)
