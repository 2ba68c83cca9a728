-- ===== src/Ext2/Tests.antt =====
-- The theorems on ext2 at a bitmap of two bytes and at the image `sample`.
use csc369_operating_systems.Ext2.Path.Same.{cp_create_target_file-eq-ln_create_target_file}
use csc369_operating_systems.Ext2.Checker.FileTypes.{
  fix_file_type_mismatch_lem, dir_entry_file_type-get_inode_mode,
}
use csc369_operating_systems.Ext2.Path.{ln_create_target_file, cp_create_target_file}
use csc369_operating_systems.Ext2.Remove
use csc369_operating_systems.Ext2.Restore
use csc369_operating_systems.Ext2.Alloc.Lowest.{Taking}
use csc369_operating_systems.Ext2.Restore.{scan_blocks}
use csc369_operating_systems.Ext2.Checker.DataBlocks.{IsKept, IsMarked, IsWithin}
use csc369_operating_systems.Ext2.Restore.Ends.{scan_blocks-Ended, Ended}
use csc369_operating_systems.Ext2.Checker.Repair.{fix_data_block_allocation-IsMarked, Pointed}
use csc369_operating_systems.Ext2.Checker.Kept.{BlockAllocated, IsCounted-kept, IsOneSwitched}
use csc369_operating_systems.Ext2.Alloc.Lowest.{allocate_resource_lem}
use csc369_operating_systems.Ext2.Alloc.{get_inode_mode, free_block, set_block_in_use}
use csc369_operating_systems.Ext2.Checker.Blocks.{fix_free_blocks_count-IsCounted, IsCounted}
use csc369_operating_systems.Ext2.Sample.{name_a, file_inode, root_inode, sample, name_b}
use csc369_operating_systems.Ext2.Names.{get_name_len}
use csc369_operating_systems.Ext2.Directory.Lookup.{
  find_entry-create_dir_entry, BlocksUsed, CreatedAfter,
}
use csc369_operating_systems.Ext2.Directory.{
  find_in_block, find_in_blocks, create_dir_entry, find_entry,
}
use csc369_operating_systems.Ext2.Checker.{
  dir_entry_file_type, fix_file_type_mismatch, fix_data_block_allocation, fix_free_blocks_count,
}
use csc369_operating_systems.Ext2.Checker.Counts.{free_count}
use csc369_operating_systems.Ext2.Image.{Disk, done, exited, ft_reg_file, s_ifreg}
use csc369_operating_systems.Ext2.Resource.{
  allocate_resource, is_resource_in_use-set_resource_in_use, in_use, free_resource,
  get_padded_rec_len_lem, is_resource_in_use, get_padded_rec_len, set_resource_in_use,
}
use csc369_operating_systems.Base.{
  ℕ, zero, suc, ◌+◌, ◌%◌, ◌≤◌, ◌<◌, ◌≡◌, ◌≢◌, refl, subst, arith, true, false, none, some, List, [],
  ◌∷◌, ◌==◌, ◌⊎◌, ◌↔◌,
}

is_resource_in_use-set_resource_in_use_example :
    (b1 : List ℕ) × (b2 : List ℕ) × (set_resource_in_use (3 ∷ 0 ∷ []) 10 ≡ some b1)
    × (is_resource_in_use b1 10 ≡ some true)
    × (free_resource b1 10 ≡ some b2)
    × (is_resource_in_use b2 10 ≡ some false)
    × ((j : ℕ)
        → 9 ≢ j
        → (in_use b1 j ≡ in_use (3 ∷ 0 ∷ []) j) × (in_use b2 j ≡ in_use (3 ∷ 0 ∷ []) j))
is_resource_in_use-set_resource_in_use_example =
    is_resource_in_use-set_resource_in_use (3 ∷ 0 ∷ []) 9 (omega arith)

get_padded_rec_len_lem_example :
    (get_padded_rec_len 13 % 4 ≡ 0)
    × (13 ≤ get_padded_rec_len 13)
    × (get_padded_rec_len 13 < 13 + 4)
get_padded_rec_len_lem_example = get_padded_rec_len_lem 13

allocate_resource_lem_example :
    Taking sample.block_bitmap 64 0 (allocate_resource sample.block_bitmap 64)
allocate_resource_lem_example = allocate_resource_lem sample.block_bitmap 64 (omega arith)

-- The name "b" is free in the root directory.
search_b : find_entry (sample.inode_table 1) (some name_b) sample ≡ done sample none
unfolding find_entry get_name_len find_in_blocks find_in_block
search_b = refl

root-BlocksUsed : BlocksUsed sample (sample.inode_table 1)
root-BlocksUsed zero j small e =
    subst (λ (x : ℕ). in_use sample.block_bitmap x ≡ true)
      (let same : 8 ≡ j = omega (arith, e) in same) refl
root-BlocksUsed (suc k) j small e = absurd (
    let no : 0 ≡ suc j = (let far : (suc k == 0) ≡ false = ground arith in rw far at e) in
    omega (arith, no))

find_entry-create_dir_entry_example :
    CreatedAfter none 1 name_b 1 sample (create_dir_entry 7 1 0 name_b 1 sample)
find_entry-create_dir_entry_example =
    find_entry-create_dir_entry 7 1 0 name_b 1 sample none search_b (omega arith) (omega arith) refl
      root-BlocksUsed

sample-IsCounted : IsCounted sample
unfolding free_count
sample-IsCounted = record {
  sized = omega arith;
  small = omega arith;
  by_super = refl;
  by_group = refl;
}

IsCounted-kept_example :
    BlockAllocated sample sample-IsCounted
    × (((in_use sample.block_bitmap 20 ≡ false)
          × ((d2 : Disk) × (set_block_in_use 21 sample ≡ done d2 tt)
              × IsCounted d2
              × IsOneSwitched true 20 sample d2
              × (fix_free_blocks_count d2 ≡ done d2 0)))
        ⊎ ((in_use sample.block_bitmap 20 ≡ true)
            × (set_block_in_use 21 sample ≡ exited sample 1)
            × ((d2 : Disk) × (free_block 21 sample ≡ done d2 tt)
                × IsCounted d2
                × IsOneSwitched false 20 sample d2
                × (fix_free_blocks_count d2 ≡ done d2 0))))
IsCounted-kept_example = IsCounted-kept sample sample-IsCounted 20 (omega arith)

fix_free_blocks_count-IsCounted_example :
    (d2 : Disk) × (n : ℕ) × (fix_free_blocks_count sample ≡ done d2 n)
    × IsCounted d2
    × (d2.block_bitmap ≡ sample.block_bitmap)
    × (fix_free_blocks_count d2 ≡ done d2 0)
fix_free_blocks_count-IsCounted_example =
    fix_free_blocks_count-IsCounted sample (omega arith) (omega arith) (omega arith) (omega arith)

file-IsWithin : Pointed IsWithin sample (sample.inode_table 11)
file-IsWithin = ((λ k small. ground arith), (λ e. absurd (e refl)))

fix_data_block_allocation-IsMarked_example :
    (d2 : Disk) × (n : ℕ) × (fix_data_block_allocation 12 sample ≡ done d2 n)
    × Pointed IsMarked d2 file_inode
    × IsKept sample d2
    × (fix_data_block_allocation 12 d2 ≡ done d2 0)
fix_data_block_allocation-IsMarked_example =
    fix_data_block_allocation-IsMarked sample 11 file-IsWithin

scan_blocks-Ended_example : Ended (scan_blocks sample.entries name_b root_inode.i_block 12 0)
scan_blocks-Ended_example =
    scan_blocks-Ended sample.entries (λ pos. ground arith) name_b root_inode.i_block

path_a : List ℕ
path_a = 47 ∷ 97 ∷ []

path_b : List ℕ
path_b = 47 ∷ 98 ∷ []

cp_create_target_file-eq-ln_create_target_file_example :
    cp_create_target_file 7 path_b name_a sample
    ≡ ln_create_target_file 7 path_b name_a 0 ft_reg_file sample
cp_create_target_file-eq-ln_create_target_file_example =
    cp_create_target_file-eq-ln_create_target_file 7 path_b name_a sample

fix_file_type_mismatch_lem_example :
    (d2 : Disk) × (n : ℕ) × (fix_file_type_mismatch 9240 sample ≡ done d2 n)
    × ((d2.entries 9240).file_type ≡ dir_entry_file_type s_ifreg)
    × ((n ≡ 0) ↔ (1 ≡ dir_entry_file_type s_ifreg))
    × ((other : ℕ) → 9240 ≢ other → d2.entries other ≡ sample.entries other)
    × (fix_file_type_mismatch 9240 d2 ≡ done d2 0)
fix_file_type_mismatch_lem_example = fix_file_type_mismatch_lem sample 9240 11 refl

dir_entry_file_type-get_inode_mode_example :
    (dir_entry_file_type (get_inode_mode 2) ≡ 2)
    ↔ ((◌≡◌ {A = ℕ} 2 1) ⊎ ((◌≡◌ {A = ℕ} 2 2) ⊎ (◌≡◌ {A = ℕ} 2 7)))
dir_entry_file_type-get_inode_mode_example = dir_entry_file_type-get_inode_mode 2
