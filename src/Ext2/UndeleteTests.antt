-- ===== src/Ext2/UndeleteTests.antt =====
-- The theorems on deleted files, at the image `sample` and its file "a", and on the mode of its root.
use csc369_operating_systems.Ext2.Remove.Seek.{delete_file_entry-find_entry, IsBeforeInDir}
use csc369_operating_systems.Ext2.Names.{get_name_len}
use csc369_operating_systems.Ext2.Directory.{find_in_block, find_in_blocks, find_entry}
use csc369_operating_systems.Ext2.Reclaim.{reclaim_inode_and_data_blocks}
use csc369_operating_systems.Ext2.Reclaim.RoundTrip.{reclaim-unlink_inode, IsRestored, IsLastLink}
use csc369_operating_systems.Ext2.Reclaim.Lists.{AllAre, IsDistinct}
use csc369_operating_systems.Ext2.Checker.Root.{fix_root_mode_lem}
use csc369_operating_systems.Ext2.Restore.{hidden_by, recover}
use csc369_operating_systems.Ext2.Reclaim.Loops.{pointed}
use csc369_operating_systems.Ext2.Resource.{in_use}
use csc369_operating_systems.Ext2.Reclaim.Blocks.{blocks_taken, blocks_freed}
use csc369_operating_systems.Ext2.Checker.{dir_entry_file_type, fix_root_mode}
use csc369_operating_systems.Ext2.Remove.{delete_file_entry, entry_after, delete_at}
use csc369_operating_systems.Ext2.Alloc.{unlink_inode}
use csc369_operating_systems.Ext2.Restore.Undelete.{recover-delete_at, IsBehind}
use csc369_operating_systems.Ext2.Image.{Disk, done, eisdir}
use csc369_operating_systems.Base.{ℕ, ◌≡◌, ◌≢◌, refl, arith, false, Option, some, ◌⊎◌}
use csc369_operating_systems.Ext2.Sample.{name_a, sample}

a-IsLastLink : IsLastLink sample 11
unfolding blocks_freed pointed IsDistinct AllAre
a-IsLastLink = record {
  ranged = record { super_range = omega arith; group_range = omega arith };
  inode_range = omega arith;
  group_inode_range = omega arith;
  inside = omega arith;
  used = refl;
  one_link = refl;
  distinct = (refl, tt);
  blocks_used = ((9, refl, omega arith, refl), tt);
}

a-IsBehind : IsBehind sample 9228 9240 11
a-IsBehind = record {
  has_inode = refl;
  is_file = λ e. omega (arith, e);
  is_next = refl;
  some_len = omega arith;
  short = omega arith;
}

reclaim-unlink_inode_example :
    (d1 : Disk) × (d2 : Disk) × (unlink_inode 7 12 sample ≡ done d1 tt)
    × (d1.entries ≡ sample.entries)
    × (in_use d1.inode_bitmap 11 ≡ false)
    × AllAre false d1.block_bitmap (blocks_taken sample.pointers (sample.inode_table 11))
    × (reclaim_inode_and_data_blocks 12 (record d1 { entries = sample.entries }) ≡ done d2 0)
    × (d2.entries ≡ sample.entries)
    × IsRestored sample d2
    × (d2.inode_table 11 ≡ record (sample.inode_table 11) { i_links_count = 1; i_dtime = 0 })
reclaim-unlink_inode_example = reclaim-unlink_inode 7 11 sample sample.entries a-IsLastLink

recover-delete_at_example :
    (d1 : Disk) × (d2 : Disk) × (delete_at 7 (entry_after (some 9228) 9240) sample ≡ done d1 0)
    × (recover (hidden_by 9240 9228) d1 ≡ done d2 0)
    × ((x : ℕ) → d2.entries x ≡ sample.entries x)
    × IsRestored sample d2
    × (d2.inode_table 11 ≡ record (sample.inode_table 11) { i_links_count = 1; i_dtime = 0 })
recover-delete_at_example = recover-delete_at 7 sample 9228 9240 11 a-IsBehind a-IsLastLink

fix_root_mode_lem_example :
    (d2 : Disk) × (n : ℕ) × (fix_root_mode sample ≡ done d2 n)
    × (dir_entry_file_type (d2.inode_table 1).i_mode ≡ 2)
fix_root_mode_lem_example = fix_root_mode_lem sample (omega arith)

found_a : find_entry (sample.inode_table 1) (some name_a) sample ≡ done sample (some 9240)
unfolding find_entry get_name_len find_in_blocks find_in_block
found_a = refl

delete_file_entry-find_entry_example :
    ((◌≡◌ {A = ℕ} 1 2) × (delete_file_entry 7 2 name_a sample ≡ done sample eisdir))
    ⊎ ((◌≢◌ {A = ℕ} 1 2)
        × ((prev : Option ℕ) × (delete_file_entry 7 2 name_a sample
              ≡ delete_at 7 (entry_after prev 9240) sample)
            × IsBeforeInDir sample.entries (sample.inode_table 1).i_block prev 9240))
delete_file_entry-find_entry_example =
    delete_file_entry-find_entry 7 1 name_a sample (some 9240) found_a
