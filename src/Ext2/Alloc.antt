-- ===== src/Ext2/Alloc.antt =====
-- Assignment4/ext2_utils.c: inodes and blocks that are allocated, marked and freed, with the
-- counters of the super block (32 bits) and of the group descriptor (16 bits). `now` is the time
-- that `time(NULL)` returns.
pub mod Lowest
pub mod Steps
use csc369_operating_systems.Ext2.Resource.{
  set_resource_in_use, is_resource_in_use, free_resource, allocate_resource,
}
use csc369_operating_systems.Base.{
  has_bit-clear_bit, has_bit-set_bit, length-set, get_or_of_get_elem?, get_or-set_ne,
  get_or-set_self, lt_of_get_elem?, ℕ_discrete, dec_lt, dec_le, get_elem?_of_lt, ℕ, zero, suc, ◌+◌,
  ◌-◌, ◌*◌, ◌/◌, ◌%◌, ◌^◌, ◌≤◌, ◌<◌, ◌≡◌, ◌≢◌, refl, sym, ◌∙◌, ap, subst, fun_ext, arith, Bool,
  true, false, Option, none, some, List, [], ◌∷◌, ◌++◌, if◌then◌else◌, ◌==◌, ◌&&◌, ◌||◌, not, ltb,
  leb, has_bit, set_bit, clear_bit, get_elem?, set, get_or, length, take, drop, update, ◌⊎◌, inl,
  inr, ◌↔◌, Bool-cases, Option-cases, tests,
}
use csc369_operating_systems.Ext2.Image.{
  SuperBlock, GroupDesc, Inode, DirEntry, Disk, Result, done, exited, undefined, Program, ◌>>=◌,
  ◌>>◌, return, exit, crash, reading, writing, inode_index, put_inode, put_entry, block_size,
  enoent, enomem, eexist, eisdir, s_iflnk, s_ifreg, ft_reg_file, empty_entry, s_ifdir, ft_dir,
  increment, decrement, empty_inode,
}

-- `exit(1)` is never reached where `time_t` has 64 bits.
unfoldable pub get_timestamp : ℕ → ℕ
get_timestamp now = now % 2 ^ 32

unfoldable pub get_blocks_count : Disk → ℕ
get_blocks_count d = d.super_block.s_blocks_count

unfoldable pub get_inodes_count : Disk → ℕ
get_inodes_count d = d.super_block.s_inodes_count

unfoldable pub get_inode_mode : ℕ → ℕ
get_inode_mode file_type =
    if file_type == ft_dir then s_ifdir else if file_type == ft_reg_file then s_ifreg else s_iflnk

-- A test of a bitmap, whose byte is read out of bounds past its end.
abbrev pub use_test : Option Bool → Program Bool
use_test (some b) = return b
use_test none = crash

unfoldable pub is_inode_in_use : ℕ → Program Bool
is_inode_in_use inode_num d = use_test (is_resource_in_use d.inode_bitmap inode_num) d

unfoldable pub is_block_in_use : ℕ → Program Bool
is_block_in_use block_num d = use_test (is_resource_in_use d.block_bitmap block_num) d

-- One free inode less, and one more.
abbrev pub take_inode : List ℕ → Disk → Disk
take_inode bitmap d = record d {
  inode_bitmap = bitmap;
  group_desc = record (d.group_desc) {
    bg_free_inodes_count = decrement 16 d.group_desc.bg_free_inodes_count;
  };
  super_block = record (d.super_block) {
    s_free_inodes_count = decrement 32 d.super_block.s_free_inodes_count;
  };
}

abbrev pub give_inode : List ℕ → Disk → Disk
give_inode bitmap d = record d {
  inode_bitmap = bitmap;
  group_desc = record (d.group_desc) {
    bg_free_inodes_count = increment 16 d.group_desc.bg_free_inodes_count;
  };
  super_block = record (d.super_block) {
    s_free_inodes_count = increment 32 d.super_block.s_free_inodes_count;
  };
}

abbrev pub take_block : List ℕ → Disk → Disk
take_block bitmap d = record d {
  block_bitmap = bitmap;
  group_desc = record (d.group_desc) {
    bg_free_blocks_count = decrement 16 d.group_desc.bg_free_blocks_count;
  };
  super_block = record (d.super_block) {
    s_free_blocks_count = decrement 32 d.super_block.s_free_blocks_count;
  };
}

abbrev pub give_block : List ℕ → Disk → Disk
give_block bitmap d = record d {
  block_bitmap = bitmap;
  group_desc = record (d.group_desc) {
    bg_free_blocks_count = increment 16 d.group_desc.bg_free_blocks_count;
  };
  super_block = record (d.super_block) {
    s_free_blocks_count = increment 32 d.super_block.s_free_blocks_count;
  };
}

-- A bitmap that was written, unless its byte is out of bounds.
abbrev pub with_bitmap : (List ℕ → Disk → Disk) → Option (List ℕ) → Program (Unit {0})
with_bitmap f none d = undefined
with_bitmap f (some bitmap) d = done (f bitmap d) tt

-- `memset` of the block: its entries, its pointers and its contents.
abbrev pub zero_block : ℕ → Disk → Disk
zero_block block_num d = record d {
  entries = λ pos. if pos / block_size == block_num then empty_entry else d.entries pos;
  pointers = update d.pointers block_num (λ _. 0);
  contents = update d.contents block_num [];
}

-- No free resource: `allocate_resource` has exited, or has read past the bitmap.
abbrev pub out_of {ℓ} : {A : Type ℓ} → ℕ → List ℕ → Program A
out_of bitmap_size bitmap d = if leb bitmap_size (length bitmap) then exited d enomem else undefined

abbrev pub new_inode : ℕ → ℕ → Inode
new_inode current_time file_type = record empty_inode {
  i_mode = get_inode_mode file_type;
  i_ctime = current_time;
  i_atime = current_time;
  i_mtime = current_time;
}

unfoldable pub allocate_inode : ℕ → ℕ → Program ℕ
allocate_inode now file_type d = elim (allocate_resource d.inode_bitmap (get_inodes_count d)) [
  | none ↦ out_of (get_inodes_count d) d.inode_bitmap d
  | some (inode_num, bitmap) ↦
      (do
        writing (take_inode bitmap)
        i ← inode_index inode_num
        put_inode i (new_inode (get_timestamp now) file_type)
        return inode_num)
        d
]

unfoldable pub free_inode : ℕ → Program (Unit {0})
free_inode inode_num d = with_bitmap give_inode (free_resource d.inode_bitmap inode_num) d

unfoldable pub free_block : ℕ → Program (Unit {0})
free_block block_num d = with_bitmap give_block (free_resource d.block_bitmap block_num) d

-- The loop over the direct blocks, `left` of them from `n` on: the index where it ends.
unfoldable pub free_direct : (ℕ → ℕ) → ℕ → ℕ → Program ℕ
free_direct i_block zero n = return n
free_direct i_block (suc left) n =
    if i_block n == 0 then return n else do free_block (i_block n); free_direct i_block left (n + 1)

-- The loop over an indirect block's pointers, `left` of them from `k` on.
unfoldable pub free_indirect : (ℕ → ℕ) → ℕ → ℕ → Program (Unit {0})
free_indirect pos zero k = return tt
free_indirect pos (suc left) k =
    if pos k == 0 then return tt else do free_block (pos k); free_indirect pos left (k + 1)

unfoldable pub free_data_blocks : Inode → Program (Unit {0})
free_data_blocks inode = do
  n ← free_direct inode.i_block 12 0
  let indirect_block_num : ℕ = inode.i_block n
  pos ← reading (λ d. d.pointers indirect_block_num)
  if indirect_block_num == 0
      then return tt
      else do free_indirect pos 256 0; free_block indirect_block_num

unfoldable pub unlink_inode : ℕ → ℕ → Program (Unit {0})
unlink_inode now inode_num = do
  i ← inode_index inode_num
  inode ← reading (λ d. d.inode_table i)
  if inode.i_links_count == 0 then exit 1 else do
    let unlinked : Inode = record inode { i_links_count = inode.i_links_count - 1 }
    put_inode i unlinked
    if unlinked.i_links_count == 0
        then (do
          put_inode i (record unlinked { i_dtime = get_timestamp now })
          free_data_blocks unlinked
          free_inode inode_num)
        else return tt

unfoldable pub set_inode_in_use : ℕ → Program (Unit {0})
set_inode_in_use inode_num = do
  in_use ← is_inode_in_use inode_num
  if in_use then exit 1 else λ d.
      with_bitmap take_inode (set_resource_in_use d.inode_bitmap inode_num) d

unfoldable pub set_block_in_use : ℕ → Program (Unit {0})
set_block_in_use block_num = do
  in_use ← is_block_in_use block_num
  if in_use then exit 1 else λ d.
      with_bitmap take_block (set_resource_in_use d.block_bitmap block_num) d

unfoldable pub allocate_block : Program ℕ
allocate_block d = elim (allocate_resource d.block_bitmap (get_blocks_count d)) [
  | none ↦ out_of (get_blocks_count d) d.block_bitmap d
  | some (block_num, bitmap) ↦ done (zero_block block_num (take_block bitmap d)) block_num
]
