-- ===== src/Tests/Memory.antt =====
-- Runs of the virtual memory of kernel/src/memory/virt.rs.
use maram_os.Base.{
  ℕ, ◌+◌, ◌*◌, ◌≡◌, ◌||◌, ◌&&◌, Option, none, some, refl, ltb, leb, arith, div_ceil, [], ◌∷◌,
  if◌then◌else◌,
}
use maram_os.Memory.Virtual.{VirtualRegion, Left, map_calls, calls_of, stage, count_of, advance}
use maram_os.Memory.Virtual.Map.{Lays, Adds, map_calls-Lays}

-- Sums of addresses as on a machine with 48 bits for virtual and 52 for physical ones.
abbrev add_virt : ℕ → ℕ → Option ℕ
add_virt a n =
    if ltb (a + n) 140737488355328
      || (leb 18446603336221196288 (a + n) && ltb (a + n) 18446744073709551616)
    then some (a + n)
    else none

abbrev add_phys : ℕ → ℕ → Option ℕ
add_phys a n = if ltb (a + n) 4503599627370496 then some (a + n) else none

-- A large page and some small ones.
abbrev region : VirtualRegion
region = record { start = 4194304; size = 2105344 }

virt_fits : Adds add_virt 4194304 6299648
virt_fits a n lo hi = ground arith

phys_fits : Adds add_phys 8388608 10493952
phys_fits a n lo hi = ground arith

map_calls-Lays_example :
    ((left : Left) × ((map_calls add_virt add_phys region 8388608).1 ≡ some left))
    × Lays
        (map_calls add_virt add_phys region 8388608).0
        region.start
        8388608
        (region.start + div_ceil region.size 4096 * 4096)
        (8388608 + div_ceil region.size 4096 * 4096)
map_calls-Lays_example =
    map_calls-Lays add_virt add_phys region 8388608 (1024, refl) (2048, refl) virt_fits phys_fits

-- The last page below the hole is mapped, and the sum behind it panics.
last_page :
    map_calls add_virt add_phys (record { start = 140737488351232; size = 4096 }) 4096
    ≡ (record { page_size = 4096; virt = 140737488351232; phys = 4096 } ∷ [], none)
unfolding map_calls calls_of stage count_of advance
last_page = refl
