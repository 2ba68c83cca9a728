-- ===== src/Ext2/Copy.antt =====
-- Assignment4/ext2_utils.c: the data that ext2_cp and ext2_ln write. A file of the native system is
-- the list of its bytes that are still to be read.
use csc369_operating_systems.Ext2.Directory.{num_disk_blks}
use csc369_operating_systems.Ext2.Names.{is_nil}
use csc369_operating_systems.Ext2.Remove.{entry_at}
use csc369_operating_systems.Ext2.Alloc.{allocate_block}
use csc369_operating_systems.Base.{
  zero, suc, zero, ◌^◌, drop, ◌%◌, take, ◌+◌, length, update, suc, if◌then◌else◌, List, ℕ,
}
use csc369_operating_systems.Ext2.Image.{
  block_size, inode_index, put_inode, reading, writing, ◌>>=◌, ◌>>◌, return, Program,
}

-- A new block behind the pointer `n` of the inode.
unfoldable pub add_block : ℕ → ℕ → Program ℕ
add_block i n = do
  block_num ← allocate_block
  inode ← reading (λ d. d.inode_table i)
  put_inode i (record inode {
    i_block = update inode.i_block n block_num;
    i_blocks = num_disk_blks inode.i_blocks block_size;
  })
  return block_num

-- `memcpy(block, buf, bytes_read)`, and the size that grows with it.
unfoldable pub write_data : ℕ → ℕ → List ℕ → Program (Unit {0})
write_data i block_num buf = do
  writing (λ d. record d { contents = update d.contents block_num buf })
  inode ← reading (λ d. d.inode_table i)
  put_inode i (record inode { i_size = (inode.i_size + length buf) % 2 ^ 32 })

-- The loop over the direct blocks, `left` of them from `n` on: the index and the bytes that remain.
unfoldable pub copy_direct : ℕ → ℕ → ℕ → List ℕ → Program (ℕ × List ℕ)
copy_direct i zero n src = return (n, src)
copy_direct i (suc left) n src = if is_nil src then return (n, src) else do
  block_num ← add_block i n
  write_data i block_num (take block_size src)
  copy_direct i left (n + 1) (drop block_size src)

-- The loop over the blocks behind the indirect one, with bytes in `src` that are written first.
unfoldable pub copy_indirect : ℕ → ℕ → ℕ → ℕ → List ℕ → Program (Unit {0})
copy_indirect i indirect_block zero k src = return tt
copy_indirect i indirect_block (suc left) k src = if is_nil src then return tt else do
  direct_block_num ← allocate_block
  writing (λ d. record d {
    pointers =
        update d.pointers indirect_block (update (d.pointers indirect_block) k direct_block_num);
  })
  inode ← reading (λ d. d.inode_table i)
  put_inode i (record inode { i_blocks = num_disk_blks inode.i_blocks block_size })
  write_data i direct_block_num (take block_size src)
  copy_indirect i indirect_block left (k + 1) (drop block_size src)

unfoldable pub copy_sourcefile_data : ℕ → List ℕ → Program (Unit {0})
copy_sourcefile_data i src = do
  (n, remaining) ← copy_direct i 12 0 src
  if is_nil remaining
      then return tt
      else do indirect_block_num ← add_block i n; copy_indirect i indirect_block_num 256 0 remaining

unfoldable pub copy_symlink_path : ℕ → List ℕ → Program (Unit {0})
copy_symlink_path dir_entry path = do
  entry ← entry_at dir_entry
  i ← inode_index entry.inode
  block_num ← allocate_block
  writing (λ d. record d { contents = update d.contents block_num path })
  inode ← reading (λ d. d.inode_table i)
  put_inode i (record inode {
    i_block = update inode.i_block 0 block_num;
    i_size = length path % 2 ^ 32;
    i_blocks = num_disk_blks inode.i_blocks block_size;
  })
