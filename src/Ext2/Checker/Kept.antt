-- ===== src/Ext2/Checker/Kept.antt =====
-- Assignment4/ext2_utils.c: the operations that allocate, mark and free a block leave the checker
-- nothing to repair in the counters of free blocks.
use csc369_operating_systems.Ext2.Checker.{fix_free_blocks_count}
use csc369_operating_systems.Ext2.Alloc.Steps.{set_block_in_use_exit, set_block_in_use_done}
use csc369_operating_systems.Ext2.Alloc.Lowest.{allocate_resource_lem}
use csc369_operating_systems.Ext2.Resource.{free_lem, set_lem, in_use}
use csc369_operating_systems.Ext2.Alloc.{
  with_bitmap, zero_block, take_block, give_block, get_blocks_count, is_block_in_use,
  set_block_in_use, free_block, allocate_block,
}
use csc369_operating_systems.Ext2.Checker.Blocks.{
  checked_IsCounted, give_block-IsCounted, take_block-IsCounted, IsCounted,
}
use csc369_operating_systems.Ext2.Image.{Disk, done, exited, enomem}
use csc369_operating_systems.Base.{
  ℕ, suc, ◌*◌, ◌/◌, ◌<◌, ◌≡◌, refl, ap, arith, Bool, true, false, Option, List, if◌then◌else◌, ◌==◌,
  length, ◌⊎◌, inl, inr, Bool-cases,
}

-- The bit of one block is `value` now, and those of the others are as they were.
abbrev pub IsOneSwitched : Bool → ℕ → Disk → Disk → Type 0
IsOneSwitched value i d d2 =
    (j : ℕ) → in_use d2.block_bitmap j ≡ (if i == j then value else in_use d.block_bitmap j)

module _ (d : Disk) (c : IsCounted d) where
  -- A block that is allocated, or the exit with ENOMEM.
  abbrev pub BlockAllocated : Type 0
  BlockAllocated =
      ((allocate_block d ≡ exited d enomem)
        × ((j : ℕ) → j < d.super_block.s_blocks_count * 8 → in_use d.block_bitmap j ≡ true))
      ⊎ ((i : ℕ) × (d2 : Disk) × (allocate_block d ≡ done d2 (suc i))
          × IsCounted d2
          × (in_use d.block_bitmap i ≡ false)
          × IsOneSwitched true i d d2)

  allocate_block_lem : BlockAllocated
  unfolding allocate_block get_blocks_count
  allocate_block_lem =
      elim (allocate_resource_lem d.block_bitmap d.super_block.s_blocks_count c.sized) [
        | inl (failed, full) ↦
            inl (rw (allocate_block, failed) (ground (arith, c.sized)), λ j h. full j (omega arith))
        | inr (i, b, taking, inside, t) ↦
            let taken =
              take_block-IsCounted d c i b (omega arith) t.same_length t.was_free t.taken in
            inr (
              i,
              zero_block (suc i) (take_block b d),
              rw (allocate_block, taking) refl,
              record {
                sized = taken.sized;
                small = taken.small;
                by_super = taken.by_super;
                by_group = taken.by_group;
              },
              t.was_free,
              t.taken,
            )
      ]

  module _ (i : ℕ) (counted : i < d.super_block.s_blocks_count * 8) where
    inside : i / 8 < length d.block_bitmap
    inside = omega (arith, c.sized, counted)

    set_block_lem :
        (in_use d.block_bitmap i ≡ false)
        → (d2 : Disk) × (set_block_in_use (suc i) d ≡ done d2 tt)
          × IsCounted d2
          × IsOneSwitched true i d d2
    unfolding set_block_in_use is_block_in_use
    set_block_lem free =
        let (b, setting, size, taken) = set_lem d.block_bitmap i inside in
        (
          take_block b d,
          set_block_in_use_done d i inside free setting,
          take_block-IsCounted d c i b counted size free taken,
          taken,
        )

    set_used_lem : in_use d.block_bitmap i ≡ true → set_block_in_use (suc i) d ≡ exited d 1
    unfolding set_block_in_use is_block_in_use
    set_used_lem used = set_block_in_use_exit d i inside used

    free_block_lem :
        in_use d.block_bitmap i ≡ true
        → (d2 : Disk) × (free_block (suc i) d ≡ done d2 tt)
          × IsCounted d2
          × IsOneSwitched false i d d2
    unfolding free_block
    free_block_lem used =
        let (b, freeing, size, freed) = free_lem d.block_bitmap i inside in
        (
          give_block b d,
          ap (λ (x : Option (List ℕ)). with_bitmap give_block x d) freeing,
          give_block-IsCounted d c i b counted size used freed,
          freed,
        )

-- On an image whose counters of free blocks are right (`IsCounted`): `allocate_block` exits with
-- ENOMEM only if every block that is counted is in use, and otherwise returns one that was free and
-- is now in use; `set_block_in_use` marks a block that was free and exits with 1 for one in use;
-- `free_block` makes a block in use free. Each of them leaves the bits of all the other blocks as they
-- were, and the counters are right after it, so that the checker finds nothing to repair in them.
pub IsCounted-kept :
    (d : Disk) (c : IsCounted d) (i : ℕ)
    → i < d.super_block.s_blocks_count * 8
    → BlockAllocated d c
      × (((in_use d.block_bitmap i ≡ false)
            × ((d2 : Disk) × (set_block_in_use (suc i) d ≡ done d2 tt)
                × IsCounted d2
                × IsOneSwitched true i d d2
                × (fix_free_blocks_count d2 ≡ done d2 0)))
          ⊎ ((in_use d.block_bitmap i ≡ true)
              × (set_block_in_use (suc i) d ≡ exited d 1)
              × ((d2 : Disk) × (free_block (suc i) d ≡ done d2 tt)
                  × IsCounted d2
                  × IsOneSwitched false i d d2
                  × (fix_free_blocks_count d2 ≡ done d2 0))))
IsCounted-kept d c i counted = (
  allocate_block_lem d c,
  elim (Bool-cases (in_use d.block_bitmap i)) [
    | inl used ↦
        let (d2, freeing, c2, freed) = free_block_lem d c i counted used in
        inr
          (used, set_used_lem d c i counted used, (d2, freeing, c2, freed, checked_IsCounted d2 c2))
    | inr free ↦
        let (d2, setting, c2, taken) = set_block_lem d c i counted free in
        inl (free, (d2, setting, c2, taken, checked_IsCounted d2 c2))
  ],
)
