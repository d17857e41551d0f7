-- ===== src/Fs/LemonFs/Chain.antt =====
-- `build_file_chain` of kernel/src/fs/lemonfs/mod.rs: the extents of a list of blocks, and the link
-- blocks that hold them.
use maram_os.Base.{
  ℕ, zero, suc, ◌+◌, ◌-◌, ◌*◌, ◌/◌, none, some, List, [], ◌∷◌, ◌++◌, ◌==◌, if◌then◌else◌, length,
  get_elem?, div_ceil, drop, take, replicate, count_up,
}
use maram_os.Fs.Links.{LinkPointer, LinkBlock}
use maram_os.Fs.Store.{
  null, link_sector, no_space, M, pure, halt, ◌>>=◌, ◌>>◌, of_option, alloc_block,
}
use maram_os.Fs.Directory.{block_link}
use maram_os.Fs.Directory.Sync.{write_each}

-- One step of the coalescing of `build_file_chain`.
unfoldable pub add_extent : List LinkPointer → ℕ → List LinkPointer
add_extent [] block = block_link block ∷ []
add_extent (p ∷ []) block =
    if p.start + p.size / 512 == block
    then record { start = p.start; size = p.size + 512 } ∷ []
    else p ∷ block_link block ∷ []
add_extent (p ∷ q ∷ rest) block = p ∷ add_extent (q ∷ rest) block

unfoldable pub coalesce_blocks : List LinkPointer → List ℕ → List LinkPointer
unfolding add_extent
coalesce_blocks extents [] = extents
coalesce_blocks extents (block ∷ rest) = coalesce_blocks (add_extent extents block) rest

unfoldable pub alloc_each : ℕ → List ℕ → M (List ℕ)
unfolding alloc_block
alloc_each zero lbas = pure lbas
alloc_each (suc rounds) lbas = alloc_block >>= λ block.
    of_option block no_space >>= λ lba. alloc_each rounds (lbas ++ lba ∷ [])

-- The link block with index `i` of `build_file_chain`.
unfoldable pub link_block_at : List LinkPointer → List ℕ → ℕ → LinkBlock
link_block_at extents lbas i =
    let chunk = take 31 (drop (i * 31) extents) in
    record {
      links = chunk ++ replicate (31 - length chunk) null;
      last = elim (get_elem? lbas (i + 1)) [
        | none ↦ null
        | some lba ↦ record { start = lba; size = 0 }
      ];
    }

-- The blocks of the old chain of a file, in order.
unfoldable pub blocks_of : List LinkPointer → List ℕ
blocks_of [] = []
blocks_of (l ∷ rest) = count_up (div_ceil l.size 512) l.start ++ blocks_of rest

module _ (sectors : ℕ) where
  unfoldable pub build_file_chain : List ℕ → M LinkPointer
  unfolding coalesce_blocks alloc_each write_each link_block_at
  build_file_chain blocks =
      let extents = coalesce_blocks [] blocks in
      if length extents == 1
      then elim (get_elem? extents 0) [ none ↦ halt | some e ↦ pure e ]
      else (alloc_each (div_ceil (length extents) 31) [] >>= λ lbas.
          write_each sectors lbas (λ i. link_sector (link_block_at extents lbas i))
            (div_ceil (length extents) 31) 0
          >> (elim (get_elem? lbas 0) [
            | none ↦ halt
            | some lba ↦ pure (record { start = lba; size = 0 })
          ]))
