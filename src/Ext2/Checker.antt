-- ===== src/Ext2/Checker.antt =====
-- Assignment4/ext2_checker.c: the inconsistencies of an image are counted and repaired. Sums are of
-- `unsigned int`, and the operands of `+` are evaluated from left to right.
pub mod Root
pub mod Repair
pub mod DataBlocks
pub mod FileTypes
pub mod Counts
pub mod Blocks
pub mod Kept
use mathlib.Core.Option.{map}
use csc369_operating_systems.Ext2.Directory.{block_fuel}
use csc369_operating_systems.Ext2.Names.{strncmp_equal}
use csc369_operating_systems.Ext2.Remove.{dot, entry_at}
use csc369_operating_systems.Ext2.Alloc.{
  set_inode_in_use, set_block_in_use, is_inode_in_use, get_inodes_count, is_block_in_use,
  get_blocks_count,
}
use csc369_operating_systems.Base.{
  [], false, set_bit, ltb, ◌∷◌, true, ◌&&◌, ◌%◌, ◌||◌, get_elem?, some, ◌*◌, zero, ◌-◌, not,
  has_bit, none, ◌==◌, Option, ◌^◌, if◌then◌else◌, suc, List, ◌/◌, Bool, ◌+◌, ℕ,
}
use csc369_operating_systems.Ext2.Image.{
  ft_symlink, ft_symlink, s_iflnk, ft_reg_file, s_ifreg, ft_dir, put_entry, put_inode, done,
  block_size, s_ifdir, ◌>>◌, undefined, reading, inode_index, return, DirEntry, crash, ◌>>=◌,
  Program,
}

-- The bits of a byte that are low, `left` of them from `bit` on.
unfoldable pub low_bits : ℕ → ℕ → ℕ → ℕ
low_bits zero bit byte = 0
low_bits (suc left) bit byte = (if has_bit byte bit then 0 else 1) + low_bits left (bit + 1) byte

-- The outer loop, `left` bytes from `i` on; `none` is a byte past the bitmap.
unfoldable pub count_low : ℕ → ℕ → List ℕ → Option ℕ
count_low zero i bitmap = some 0
count_low (suc left) i bitmap = elim (get_elem? bitmap i) [
  | none ↦ none
  | some byte ↦ map (λ n. low_bits 8 0 byte + n) (count_low left (i + 1) bitmap)
]

-- `abs(num - (int) count)`, in 32 bits.
abbrev pub abs_difference : ℕ → ℕ → ℕ
abs_difference num count =
    let difference : ℕ = (num + 2 ^ 32 - count) % 2 ^ 32 in
    if ltb difference (2 ^ 31) then difference else 2 ^ 32 - difference

unfoldable pub fix_free_inodes_count : Program ℕ
fix_free_inodes_count d = elim (count_low (get_inodes_count d) 0 d.inode_bitmap) [
  | none ↦ undefined
  | some num ↦
      let delta_with_super_blk : ℕ = abs_difference num d.super_block.s_free_inodes_count in
      let delta_with_grp_desc : ℕ = abs_difference num d.group_desc.bg_free_inodes_count in
      done
        (record d {
          super_block = record (d.super_block) {
            s_free_inodes_count =
                if delta_with_super_blk == 0 then d.super_block.s_free_inodes_count else num;
          };
          group_desc = record (d.group_desc) {
            bg_free_inodes_count =
                if delta_with_grp_desc == 0
                then d.group_desc.bg_free_inodes_count
                else num % 2 ^ 16;
          };
        })
        ((delta_with_super_blk + delta_with_grp_desc) % 2 ^ 32)
]

unfoldable pub fix_free_blocks_count : Program ℕ
fix_free_blocks_count d = elim (count_low (get_blocks_count d) 0 d.block_bitmap) [
  | none ↦ undefined
  | some num ↦
      let delta_with_super_blk : ℕ = abs_difference num d.super_block.s_free_blocks_count in
      let delta_with_grp_desc : ℕ = abs_difference num d.group_desc.bg_free_blocks_count in
      done
        (record d {
          super_block = record (d.super_block) {
            s_free_blocks_count =
                if delta_with_super_blk == 0 then d.super_block.s_free_blocks_count else num;
          };
          group_desc = record (d.group_desc) {
            bg_free_blocks_count =
                if delta_with_grp_desc == 0
                then d.group_desc.bg_free_blocks_count
                else num % 2 ^ 16;
          };
        })
        ((delta_with_super_blk + delta_with_grp_desc) % 2 ^ 32)
]

-- `i_mode >> 12`
abbrev pub mode_type : ℕ → ℕ
mode_type i_mode = i_mode / 2 ^ 12

unfoldable pub dir_entry_file_type : ℕ → ℕ
dir_entry_file_type i_mode =
    if mode_type i_mode == mode_type s_ifdir
    then ft_dir
    else if mode_type i_mode == mode_type s_ifreg
    then ft_reg_file
    else if mode_type i_mode == mode_type s_iflnk
    then ft_symlink
    else 0

unfoldable pub fix_file_type_mismatch : ℕ → Program ℕ
fix_file_type_mismatch pos = do
  entry ← entry_at pos
  i ← inode_index entry.inode
  inode ← reading (λ d. d.inode_table i)
  let expected : ℕ = dir_entry_file_type inode.i_mode
  if entry.file_type == expected
      then return 0
      else do put_entry pos (record entry { file_type = expected }); return 1

unfoldable pub fix_inode_allocation_inconsistency : ℕ → Program ℕ
fix_inode_allocation_inconsistency inode_num = do
  used ← is_inode_in_use inode_num
  if used then return 0 else do set_inode_in_use inode_num; return 1

unfoldable pub fix_inode_deletion_time : ℕ → Program ℕ
fix_inode_deletion_time inode_num = do
  i ← inode_index inode_num
  inode ← reading (λ d. d.inode_table i)
  if inode.i_dtime == 0 then return 0 else do put_inode i (record inode { i_dtime = 0 }); return 1

-- A block that is pointed to: 1 if it had to be marked.
unfoldable pub fix_block : ℕ → Program ℕ
fix_block block_num = if block_num == 0 then return 0 else do
  used ← is_block_in_use block_num
  if used then return 0 else do set_block_in_use block_num; return 1

-- The loops over the pointers of the inode and of the indirect block, `left` of them from `n` on.
unfoldable pub fix_pointed : (ℕ → ℕ) → ℕ → ℕ → Program ℕ
fix_pointed pointers zero n = return 0
fix_pointed pointers (suc left) n = do
  one ← fix_block (pointers n)
  others ← fix_pointed pointers left (n + 1)
  return (one + others)

-- Of the 256 pointers of the indirect block, the loop leaves out the last.
unfoldable pub fix_data_block_allocation : ℕ → Program ℕ
fix_data_block_allocation inode_num = do
  i ← inode_index inode_num
  inode ← reading (λ d. d.inode_table i)
  direct ← fix_pointed inode.i_block 12 0
  let indirect_block_num : ℕ = inode.i_block 12
  if indirect_block_num == 0 then return direct else do
    itself ← fix_block indirect_block_num
    position ← reading (λ d. d.pointers indirect_block_num)
    indirect ← fix_pointed position 255 0
    return (direct + itself + indirect)

-- The loops over the entries of a directory, which visit every entry in use.
unfoldable pub visit_block : (ℕ → Program ℕ) → ℕ → ℕ → ℕ → Program ℕ
visit_block visit zero position block_end = crash
visit_block visit (suc fuel) position block_end = if position == block_end then return 0 else do
  curr_entry ← entry_at position
  fixed ← if curr_entry.inode == 0 then return 0 else visit position
  after ← entry_at position
  others ← visit_block visit fuel (position + after.rec_len) block_end
  return (fixed + others)

-- The block pointers are read again after every block.
unfoldable pub visit_blocks : (ℕ → Program ℕ) → ℕ → ℕ → ℕ → Program ℕ
visit_blocks visit i zero n = return 0
visit_blocks visit i (suc left) n = do
  inode ← reading (λ d. d.inode_table i)
  let block_start : ℕ = inode.i_block n * block_size
  if inode.i_block n == 0 then return 0 else do
    fixed ← visit_block visit block_fuel block_start (block_start + block_size)
    others ← visit_blocks visit i left (n + 1)
    return (fixed + others)

-- The name begins with a dot: `strncmp` compares one byte, so this covers "..".
abbrev pub is_dotted : DirEntry → Bool
is_dotted entry = strncmp_equal 1 entry.name dot || strncmp_equal 2 entry.name (46 ∷ 46 ∷ [])

-- `fuel` bounds the depth of the directories.
unfoldable pub fix_dir_entries_recursively : ℕ → ℕ → Bool → Program ℕ
fix_dir_entries_recursively zero pos is_root = crash
fix_dir_entries_recursively (suc fuel) pos is_root = do
  entry ← entry_at pos
  i ← inode_index entry.inode
  a ← fix_file_type_mismatch pos
  b ← fix_inode_allocation_inconsistency entry.inode
  c ← fix_inode_deletion_time entry.inode
  e ← fix_data_block_allocation entry.inode
  let num_fixed : ℕ = a + b + c + e
  now_entry ← entry_at pos
  if not (now_entry.file_type == ft_dir) || (not is_root && is_dotted now_entry)
      then return num_fixed
      else do
        others ← visit_blocks (λ curr. fix_dir_entries_recursively fuel curr false) i 12 0
        return (num_fixed + others)

-- `i_mode | EXT2_S_IFDIR` sets one bit.
unfoldable pub fix_root_mode : Program ℕ
fix_root_mode = do
  root ← reading (λ d. d.inode_table 1)
  if mode_type root.i_mode == mode_type s_ifdir
      then return 0
      else do put_inode 1 (record root { i_mode = set_bit root.i_mode 14 }); return 1

-- `main` with the image: the number of inconsistencies that it prints. The program then returns 0.
unfoldable pub check_image : ℕ → Program ℕ
check_image fuel = do
  mode ← fix_root_mode
  root ← reading (λ d. d.inode_table 1)
  inodes ← fix_free_inodes_count
  blocks ← fix_free_blocks_count
  entries ← fix_dir_entries_recursively fuel (root.i_block 0 * block_size) true
  return ((mode + inodes + blocks + entries) % 2 ^ 32)
