-- ===== src/Ext2/Alloc/Steps.antt =====
-- Assignment4/ext2_utils.c: what the operations on one inode or block come to, where its bit lies in
-- the bitmap.
use csc369_operating_systems.Ext2.Alloc.Lowest.{allocate_resource_lem, IsTaken}
use csc369_operating_systems.Ext2.Resource.{is_lem, in_use}
use csc369_operating_systems.Ext2.Alloc.{
  get_timestamp, new_inode, get_inodes_count, allocate_inode, with_bitmap, take_inode, take_block,
  set_resource_in_use, use_test, is_inode_in_use, is_block_in_use, set_block_in_use,
  set_inode_in_use,
}
use csc369_operating_systems.Ext2.Image.{Disk, done, exited, ◌>>=◌, enomem}
use csc369_operating_systems.Base.{
  ℕ, suc, ◌/◌, ◌≤◌, ◌<◌, ◌≡◌, refl, ap, arith, Bool, true, false, Option, some, List, leb, length,
  update, ◌⊎◌, inl, inr,
}

module _ (d : Disk) (i : ℕ) (inside : i / 8 < length d.block_bitmap) where
  pub is_block_in_use_lem : is_block_in_use (suc i) d ≡ done d (in_use d.block_bitmap i)
  unfolding is_block_in_use
  is_block_in_use_lem = ap (λ (x : Option Bool). use_test x d) (is_lem d.block_bitmap i inside)

  pub set_block_in_use_done :
      {b : List ℕ}
      → in_use d.block_bitmap i ≡ false
      → set_resource_in_use d.block_bitmap (suc i) ≡ some b
      → set_block_in_use (suc i) d ≡ done (take_block b d) tt
  unfolding set_block_in_use
  set_block_in_use_done free setting =
      rw (set_block_in_use, ◌>>=◌, is_block_in_use_lem, free)
        (ap (λ (x : Option (List ℕ)). with_bitmap take_block x d) setting)

  pub set_block_in_use_exit :
      in_use d.block_bitmap i ≡ true → set_block_in_use (suc i) d ≡ exited d 1
  unfolding set_block_in_use
  set_block_in_use_exit used = rw (set_block_in_use, ◌>>=◌, is_block_in_use_lem, used) refl

module _ (d : Disk) (i : ℕ) (inside : i / 8 < length d.inode_bitmap) where
  pub is_inode_in_use_lem : is_inode_in_use (suc i) d ≡ done d (in_use d.inode_bitmap i)
  unfolding is_inode_in_use
  is_inode_in_use_lem = ap (λ (x : Option Bool). use_test x d) (is_lem d.inode_bitmap i inside)

  pub set_inode_in_use_done :
      {b : List ℕ}
      → in_use d.inode_bitmap i ≡ false
      → set_resource_in_use d.inode_bitmap (suc i) ≡ some b
      → set_inode_in_use (suc i) d ≡ done (take_inode b d) tt
  unfolding set_inode_in_use
  set_inode_in_use_done free setting =
      rw (set_inode_in_use, ◌>>=◌, is_inode_in_use_lem, free)
        (ap (λ (x : Option (List ℕ)). with_bitmap take_inode x d) setting)

-- A new inode has the lowest number that is free, and is empty but for its mode and times.
pub allocate_inode_lem :
    (now file_type : ℕ) (d : Disk)
    → d.super_block.s_inodes_count ≤ length d.inode_bitmap
    → (allocate_inode now file_type d ≡ exited d enomem)
      ⊎ ((i : ℕ) × (b : List ℕ) × IsTaken d.inode_bitmap i b
          × (allocate_inode now file_type d
              ≡ done
                  (record (take_inode b d) {
                    inode_table = update d.inode_table i (new_inode (get_timestamp now) file_type);
                  })
                  (suc i)))
unfolding allocate_inode get_inodes_count
allocate_inode_lem now file_type d sized =
    elim (allocate_resource_lem d.inode_bitmap d.super_block.s_inodes_count sized) [
      | inl (failed, all) ↦
          let fits : leb d.super_block.s_inodes_count (length d.inode_bitmap) ≡ true =
            ground arith in
          inl (rw (allocate_inode, failed) (rw fits refl))
      | inr (i, b, taking, inside, t) ↦ inr (i, b, t, rw (allocate_inode, taking) refl)
    ]
