-- ===== src/Allocators/Slab/Free.antt =====
-- `free` of kernel/src/allocators/slab.rs: the range joins the free ranges of its block, and a
-- block that is free as a whole is given up.
use maram_os.Base.{
  ℕ, ◌+◌, ◌-◌, ◌*◌, ◌%◌, ◌≤◌, ◌≡◌, ◌≢◌, refl, true, false, not, Bool, List, ◌∷◌, Option, none, some,
  arith, ap, subst, ◌∙◌, sym, ◌==◌, ltb, if◌then◌else◌, Bool-cases, inl, inr, u32_mod, update,
  update_self, update_ne,
}
use maram_os.Allocators.Buddy.{Cell}
use maram_os.Allocators.Slab.{
  BlockInfo, PageSlab, Outcome, set_block, in_block, write_range, find_block, free_at, free,
}
use maram_os.Allocators.Slab.Ranges.{Range, cover, total}
use maram_os.Allocators.Slab.Chain.{Chain, frame}
use maram_os.Allocators.Slab.Find.{find_block-owner}
use maram_os.Allocators.Slab.Valid.{Valid, ValidBlock, IsTaken}
use maram_os.Allocators.Slab.Alloc.{SameOutside, set_block-Valid}

module _ {s : PageSlab} {memory : ℕ → Cell} {lists : ℕ → List Range} (v : Valid s memory lists)
    {i addr count : ℕ} (k : IsTaken s lists i addr count) where
  abbrev b : BlockInfo
  b = s.blocks i

  old : ValidBlock s.block_size b memory (lists i)
  old = v.blocks i k.used

  pub IsTaken-in_block : in_block s.block_size b addr ≡ true
  IsTaken-in_block =
      let p : 1 ≤ count * s.block_size = grind (arith, k.one, v.pos) in
      ground (arith, k.base_le, k.end_le)

  short : count % u32_mod ≡ count
  short = omega (arith, k.counted, old.account, old.small)

  abbrev written : ℕ → Cell
  written = write_range memory addr b.free_list count

  new_cell : Cell
  new_cell = record { next = b.free_list; count = count }

  apart_from : (y : ℕ) → 1 ≤ cover s.block_size y (lists i) → written y ≡ memory y
  apart_from y h = update_ne memory addr y _ (elim (Bool-cases (y == addr)) [
    | inl e ↦
        let same : y ≡ addr = ground arith in
        let p : 1 ≤ count * s.block_size = grind (arith, k.one, v.pos) in
        let q : 1 ≤ cover s.block_size addr (lists i) = rw same at h in
        absurd (ground (arith, k.apart addr))
    | inr e ↦ e
  ])

  written-Chain : Chain written addr ((addr, count) ∷ lists i)
  written-Chain = (
    refl,
    nonzero old.base_pos,
    ap (λ (c : Cell). c.count) (update_self memory addr _),
    subst (λ t. Chain written t (lists i))
        (sym (ap (λ (c : Cell). c.next) (update_self memory addr _)))
        (frame s.block_size v.pos memory written _ _ b.free_list (lists i) old.within old.chain
          (λ y h. (
            ap (λ (c : Cell). c.next) (apart_from y h),
            ap (λ (c : Cell). c.count) (apart_from y h),
          ))),
  )
    where
      nonzero : b.phys_base ≢ 0 → addr ≢ 0
      nonzero nz z = nz (omega (arith, k.base_le))

  -- The range is written in the block.
  written_outside : SameOutside s i memory written
  written_outside y out =
      let e : written y ≡ memory y = update_ne memory addr y _ (off y out) in
      (ap (λ (c : Cell). c.next) e, ap (λ (c : Cell). c.count) e)
    where
      off : (y : ℕ) → in_block s.block_size b y ≡ false → (y == addr) ≡ false
      off y out = elim (Bool-cases (y == addr)) [
        | inl e ↦
            let same : y ≡ addr = ground arith in
            absurd (cc (sym IsTaken-in_block ∙ (rw same at out)))
        | inr e ↦ e
      ]

  -- The slab with the range linked in, and what is left allocated.
  freed-Valid :
      (info : BlockInfo)
      → info.phys_base ≡ b.phys_base
      → info.total_blocks ≡ b.total_blocks
      → (info.used ≡ true
          → (info.free_list ≡ addr) × (info.allocated_blocks ≡ b.allocated_blocks - count))
      → Valid (set_block s i info) written (update lists i ((addr, count) ∷ lists i))
  freed-Valid info e_base e_total rest =
      set_block-Valid s i info ((addr, count) ∷ lists i) v k.used e_base e_total
        (λ u.
          let (e_list, e_rem) = rest u in
          rw (e_base, e_total, e_list)
            (record {
              base_pos = old.base_pos;
              end_lt = old.end_lt;
              small = old.small;
              within = (k.one, k.base_le, k.end_le, old.within);
              single = k.apart;
              chain = written-Chain;
              account = omega (arith, e_rem, k.counted, old.account);
            }))
        written_outside

  abbrev pub drained : Bool
  drained = b.allocated_blocks == count

  -- What `free` promises of a taken range.
  pub record Freed (r : Outcome (Option (ℕ × ℕ))) : Type 0 where
    pub valid : Valid r.1 r.2 (update lists i ((addr, count) ∷ lists i))
    pub returned : r.0 ≡ (if drained then some (b.phys_base, b.total_blocks) else none)
    pub used_eq : (r.1.blocks i).used ≡ not drained
    pub info : BlockInfo
    pub slab_eq : r.1 ≡ set_block s i info
    pub base_eq : info.phys_base ≡ b.phys_base
    pub total_eq : info.total_blocks ≡ b.total_blocks
    pub outside : SameOutside s i memory r.2
    pub whole : r.0 ≢ none → count + total (lists i) ≡ b.total_blocks

  abbrev linked : BlockInfo
  linked = record b { free_list = addr; allocated_blocks = b.allocated_blocks - count }

  free_at-Freed : Freed (free_at s memory addr count i)
  unfolding free_at
  free_at-Freed = rw short (
      let enough : ltb b.allocated_blocks count ≡ false = ground (arith, k.counted) in
      elim (Bool-cases drained) [
        | inl e ↦
            let z : (b.allocated_blocks - count == 0) ≡ true = ground arith in
            rw (enough, z)
              (record {
                valid = freed-Valid (record linked { used = false }) refl refl (λ q. absurd (cc q));
                returned = rw e refl;
                info = record linked { used = false };
                slab_eq = refl;
                base_eq = refl;
                total_eq = refl;
                outside = written_outside;
                used_eq = rw (e, update_self) refl;
                whole = λ _. ground (arith, old.account);
              })
        | inr e ↦
            let z : (b.allocated_blocks - count == 0) ≡ false = ground (arith, k.counted) in
            rw (enough, z)
              (record {
                valid = freed-Valid linked refl refl (λ _. (refl, refl));
                returned = rw e refl;
                info = linked;
                slab_eq = refl;
                base_eq = refl;
                total_eq = refl;
                outside = written_outside;
                used_eq = rw (e, update_self) k.used.1;
                whole = λ q. absurd (q refl);
              })
      ])

  -- In a valid slab, `free` of a taken range puts exactly that range back and keeps the slab
  -- valid. It returns the block, and gives it up, exactly when all that was allocated of the block
  -- is the range; all of the block is free then.
  pub free-Freed : Freed (free s memory addr count)
  unfolding free
  free-Freed =
      let q : find_block s addr ≡ some i =
        find_block-owner s memory lists addr i v k.used IsTaken-in_block in
      rw (q, free) free_at-Freed
