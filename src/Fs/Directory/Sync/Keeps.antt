-- ===== src/Fs/Directory/Sync/Keeps.antt =====
-- `Directory::sync` leaves the cached root as it was.
use maram_os.Base.{
  ℕ, suc, zero, ◌+◌, ◌-◌, refl, Option, none, some, List, [], ◌∷◌, ◌++◌, ◌&&◌, drop, get_elem?,
  length, div_ceil,
}
use maram_os.Fs.Links.{LinkPointer, is_direct, is_valid}
use maram_os.Fs.Store.{
  Sector, dir_sector, Recast, as_dir, DirectoryEntry, M, entries_per_direntry, no_space,
}
use maram_os.Fs.Store.Keeps.{
  Keeps, the_root, Keeps-bind, Keeps-then, Keeps-pure, Keeps-halt, Keeps-diverge, Keeps-if,
  Keeps-of_option, Keeps-read_sector, Keeps-alloc_block, Keeps-free_run, Keeps-write_data,
}
use maram_os.Fs.Directory.{Directory}
use maram_os.Fs.Directory.Sync.{
  write_each, free_each, chunk_at, build_chain, blocks_needed, collect, clear_head, write_dir, sync,
  give_child,
}

pub Keeps-elim :
    {A C : Type 0} (o : Option A) (m : M C) (f : A → M C)
    → Keeps the_root m
    → ((a : A) → Keeps the_root (f a))
    → Keeps the_root (elim o [ none ↦ m | some a ↦ f a ])
Keeps-elim none m f hm hf = hm
Keeps-elim (some a) m f hm hf = hf a

pub Keeps-write_each :
    (sectors : ℕ) (chain : List ℕ) (block : ℕ → Sector) (rounds i : ℕ)
    → Keeps the_root (write_each sectors chain block rounds i)
unfolding write_each
Keeps-write_each sectors chain block zero i = Keeps-pure the_root _
Keeps-write_each sectors chain block (suc rounds) i =
    Keeps-elim (get_elem? chain i) _ _ (Keeps-halt the_root _) (λ lba.
      Keeps-then the_root _ _ (Keeps-write_data sectors lba (block i))
        (Keeps-write_each sectors chain block rounds (i + 1)))

Keeps-free_each : (lbas : List ℕ) → Keeps the_root (free_each lbas)
unfolding Keeps free_each
Keeps-free_each [] = λ s. refl
Keeps-free_each (lba ∷ rest) = Keeps-then the_root _ _ (Keeps-free_run lba 1) (Keeps-free_each rest)

pub Keeps-build_chain :
    (collected : List ℕ) (rounds i : ℕ) (chain : List ℕ)
    → Keeps the_root (build_chain collected rounds i chain)
unfolding build_chain
Keeps-build_chain collected zero i chain = Keeps-pure the_root _
Keeps-build_chain collected (suc rounds) i chain =
    Keeps-elim (get_elem? collected i) _ _
      (Keeps-bind the_root _ _ Keeps-alloc_block (λ block.
        Keeps-bind the_root _ _ (Keeps-of_option the_root block no_space)
          (λ lba. Keeps-build_chain collected rounds (i + 1) (chain ++ lba ∷ []))))
      (λ lba. Keeps-build_chain collected rounds (i + 1) (chain ++ lba ∷ []))

module _ (sectors : ℕ) (recast : Recast) where
  Keeps-collect :
      (rounds : ℕ) (p : LinkPointer) (collected : List ℕ)
      → Keeps the_root (collect sectors recast rounds p collected)
  unfolding collect
  Keeps-collect zero p collected =
      Keeps-if the_root (is_direct p && is_valid p) _ _ (Keeps-diverge the_root _)
        (Keeps-pure the_root _)
  Keeps-collect (suc rounds) p collected =
      Keeps-if the_root (is_direct p && is_valid p) _ _
        (Keeps-bind the_root _ _ (Keeps-read_sector the_root sectors p.start)
          (λ sector. Keeps-collect rounds (as_dir recast sector).next (collected ++ p.start ∷ [])))
        (Keeps-pure the_root _)

  Keeps-last : (d : Directory) (es : List DirectoryEntry) → Keeps the_root (clear_head sectors d es)
  unfolding Keeps
  Keeps-last d [] = Keeps-write_data sectors d.head.start _
  Keeps-last d (e ∷ rest) = λ s. refl

  Keeps-write_dir :
      (d : Directory) (chain : List ℕ) → Keeps the_root (write_dir sectors recast d chain)
  unfolding write_dir
  Keeps-write_dir d chain =
      Keeps-then the_root _ _
        (Keeps-write_each sectors chain (λ i. dir_sector (chunk_at d.parent chain d.children i))
          (div_ceil (length d.children) entries_per_direntry) 0)
        (Keeps-last d d.children)

  pub Keeps-sync : (fuel : ℕ) (d : Directory) → Keeps the_root (sync sectors recast fuel d)
  unfolding sync
  Keeps-sync fuel d = Keeps-bind the_root _ _ (Keeps-collect fuel d.head []) (λ collected.
      Keeps-then the_root _ _ (Keeps-free_each (drop (blocks_needed d.children) collected)) (
        Keeps-bind the_root _ _
          (Keeps-build_chain collected (blocks_needed d.children - 1) 1 (d.head.start ∷ []))
          (λ chain. Keeps-write_dir d chain)))

  pub Keeps-give_child :
      (fuel : ℕ) (d : Directory) (e : DirectoryEntry)
      → Keeps the_root (give_child sectors recast fuel d e)
  unfolding give_child
  Keeps-give_child fuel d e = Keeps-sync fuel (record d { children = d.children ++ e ∷ [] })
