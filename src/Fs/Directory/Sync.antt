-- ===== src/Fs/Directory/Sync.antt =====
-- `Directory::sync` and `give_child` of kernel/src/fs/lemonfs/directory.rs.
pub mod Keeps
pub mod Written
pub mod Roundtrip
use maram_os.Base.{
  ℕ, zero, suc, ◌+◌, ◌-◌, ◌*◌, ◌&&◌, Option, none, some, List, [], ◌∷◌, ◌++◌, if◌then◌else◌, length,
  get_elem?, div_ceil, max, drop, take, replicate, map,
}
use maram_os.Fs.Links.{LinkPointer, is_valid, is_direct}
use maram_os.Fs.Store.{
  DirBlock, entries_per_direntry, null, zero_entry, Sector, dir_sector, Recast, as_dir, no_space,
  panic, DirectoryEntry, M, pure, halt, ◌>>=◌, ◌>>◌, of_option, diverge, alloc_block, free_run,
  read_sector, write_data,
}
use maram_os.Fs.Directory.{Directory, block_link, to_dentry}

-- `for i in i..` with the rounds that are left: block `i` goes to the sector `chain[i]`.
unfoldable pub write_each : ℕ → List ℕ → (ℕ → Sector) → ℕ → ℕ → M (Unit {0})
unfolding write_data
write_each sectors chain block zero i = pure tt
write_each sectors chain block (suc rounds) i = elim (get_elem? chain i) [
  | none ↦ halt
  | some lba ↦ write_data sectors lba (block i) >> write_each sectors chain block rounds (i + 1)
]

-- `for &lba in lbas { bitmap.free(lba, 1) }`.
unfoldable pub free_each : List ℕ → M (Unit {0})
unfolding free_run
free_each [] = pure tt
free_each (lba ∷ rest) = free_run lba 1 >> free_each rest

abbrev pub link_after : Option ℕ → LinkPointer
link_after none = null
link_after (some lba) = block_link lba

-- The chunk with index `i` of the children, filled up, and the link to the next block.
unfoldable pub chunk_at : ℕ → List ℕ → List DirectoryEntry → ℕ → DirBlock
unfolding to_dentry
chunk_at parent chain children i =
    let chunk = take entries_per_direntry (drop (i * entries_per_direntry) children) in
    record {
      parent = parent;
      entries = map to_dentry chunk ++ replicate (entries_per_direntry - length chunk) zero_entry;
      next = link_after (get_elem? chain (i + 1));
    }

-- `for i in i..needed`: the block with index `i` of the old chain, or a new one.
unfoldable pub build_chain : List ℕ → ℕ → ℕ → List ℕ → M (List ℕ)
unfolding alloc_block
build_chain collected zero i chain = pure chain
build_chain collected (suc rounds) i chain = elim (get_elem? collected i) [
  | some lba ↦ build_chain collected rounds (i + 1) (chain ++ lba ∷ [])
  | none ↦ alloc_block >>= λ block.
      of_option block no_space >>= λ lba. build_chain collected rounds (i + 1) (chain ++ lba ∷ [])
]

abbrev pub blocks_needed : List DirectoryEntry → ℕ
blocks_needed children = max (div_ceil (length children) entries_per_direntry) 1

-- `if self.children.is_empty()`.
abbrev pub clear_head : ℕ → Directory → List DirectoryEntry → M (Unit {0})
clear_head sectors d [] =
    write_data sectors d.head.start
      (dir_sector (record { parent = d.parent; entries = replicate 8 zero_entry; next = null }))
clear_head sectors d (e ∷ rest) = pure tt

module _ (sectors : ℕ) (recast : Recast) where
  -- `while ptr.is_direct() && ptr.is_valid()`.
  unfoldable pub collect : ℕ → LinkPointer → List ℕ → M (List ℕ)
  unfolding read_sector
  collect zero ptr collected = if is_direct ptr && is_valid ptr then diverge else pure collected
  collect (suc rounds) ptr collected =
      if is_direct ptr && is_valid ptr
      then (read_sector sectors ptr.start >>= λ sector.
          collect rounds (as_dir recast sector).next (collected ++ ptr.start ∷ []))
      else pure collected

  -- The end of `sync`, for the chain that it has.
  unfoldable pub write_dir : Directory → List ℕ → M (Unit {0})
  unfolding write_each chunk_at write_data
  write_dir d chain =
      write_each sectors chain (λ i. dir_sector (chunk_at d.parent chain d.children i))
        (div_ceil (length d.children) entries_per_direntry) 0
      >> clear_head sectors d d.children

  unfoldable pub sync : ℕ → Directory → M (Unit {0})
  unfolding collect free_each build_chain write_dir
  sync fuel d = collect fuel d.head [] >>= λ collected.
      free_each (drop (blocks_needed d.children) collected)
      >> (build_chain collected (blocks_needed d.children - 1) 1 (d.head.start ∷ []) >>= λ chain.
          write_dir d chain)

  unfoldable pub give_child : ℕ → Directory → DirectoryEntry → M (Unit {0})
  unfolding sync
  give_child fuel d child = sync fuel (record d { children = d.children ++ child ∷ [] })
