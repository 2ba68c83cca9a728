-- ===== src/Ext2/Sample.antt =====
-- A small image of an ext2 file system, on which the theorems of Ext2 are tried: the root directory,
-- with the inode 2 and the block 9, holds the file "a", with the inode 12 and the block 10.
use csc369_operating_systems.Ext2.Names.{Name}
use csc369_operating_systems.Ext2.Image.{
  empty_entry, s_ifdir, s_ifreg, empty_inode, Inode, DirEntry, Disk,
}
use csc369_operating_systems.Base.{[], ◌∷◌, if◌then◌else◌, ◌==◌, replicate}

abbrev pub root_inode : Inode
root_inode = record empty_inode {
  i_mode = s_ifdir;
  i_links_count = 2;
  i_size = 1024;
  i_blocks = 2;
  i_block = λ n. if n == 0 then 9 else 0;
}

abbrev pub file_inode : Inode
file_inode = record empty_inode {
  i_mode = s_ifreg;
  i_links_count = 1;
  i_size = 3;
  i_blocks = 2;
  i_block = λ n. if n == 0 then 10 else 0;
}

abbrev pub dot_entry : DirEntry
dot_entry = record { inode = 2; rec_len = 12; name_len = 1; file_type = 2; name = 46 ∷ [] }

abbrev pub dot_dot_entry : DirEntry
dot_dot_entry = record { inode = 2; rec_len = 12; name_len = 2; file_type = 2; name = 46 ∷ 46 ∷ [] }

abbrev pub file_entry : DirEntry
file_entry = record { inode = 12; rec_len = 1000; name_len = 1; file_type = 1; name = 97 ∷ [] }

abbrev pub sample : Disk
sample = record {
  super_block = record {
    s_inodes_count = 32;
    s_blocks_count = 64;
    s_free_blocks_count = 502;
    s_free_inodes_count = 244;
  };
  group_desc = record {
    bg_free_blocks_count = 502;
    bg_free_inodes_count = 244;
    bg_used_dirs_count = 1;
  };
  inode_bitmap = 255 ∷ 15 ∷ replicate 30 0;
  block_bitmap = 255 ∷ 3 ∷ replicate 62 0;
  inode_table = λ i. if i == 1 then root_inode else if i == 11 then file_inode else empty_inode;
  entries = λ pos.
      if pos == 9216
      then dot_entry
      else if pos == 9228
      then dot_dot_entry
      else if pos == 9240
      then file_entry
      else empty_entry;
  pointers = λ b k. 0;
  contents = λ b. if b == 10 then 1 ∷ 2 ∷ 3 ∷ [] else [];
}

abbrev pub name_a : Name
name_a = 97 ∷ []

abbrev pub name_b : Name
name_b = 98 ∷ []
