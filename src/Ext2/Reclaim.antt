-- ===== src/Ext2/Reclaim.antt =====
-- Assignment4/ext2_restore.c: the inode and the data blocks of a deleted file are taken back.
pub mod Orders
pub mod RoundTrip
pub mod Taken
pub mod Files
pub mod Blocks
pub mod Rotate
pub mod Checks
pub mod Loops
pub mod Runs
pub mod Lists
use csc369_operating_systems.Ext2.Alloc.{
  is_inode_in_use, set_block_in_use, set_inode_in_use, is_block_in_use,
}
use csc369_operating_systems.Base.{
  ◌||◌, zero, some, ◌+◌, suc, false, ◌==◌, none, true, if◌then◌else◌, Bool, Option, ℕ,
}
use csc369_operating_systems.Ext2.Image.{
  put_inode, enoent, reading, inode_index, ◌>>◌, return, ◌>>=◌, Program,
}

-- The loop over the direct blocks, `left` of them from `n` on; `none`: it went through.
unfoldable pub direct_free : (ℕ → ℕ) → ℕ → ℕ → Program (Option Bool)
direct_free i_block zero n = return none
direct_free i_block (suc left) n = if i_block n == 0 then return (some true) else do
  used ← is_block_in_use (i_block n)
  if used then return (some false) else direct_free i_block left (n + 1)

unfoldable pub indirect_free : (ℕ → ℕ) → ℕ → ℕ → Program Bool
indirect_free pos zero k = return true
indirect_free pos (suc left) k = if pos k == 0 then return true else do
  used ← is_block_in_use (pos k)
  if used then return false else indirect_free pos left (k + 1)

unfoldable pub is_inode_and_data_blocks_free : ℕ → Program Bool
is_inode_and_data_blocks_free inode_num = do
  inode_used ← is_inode_in_use inode_num
  i ← inode_index inode_num
  inode ← reading (λ d. d.inode_table i)
  if inode_used then return false else do
    direct ← direct_free inode.i_block 12 0
    elim direct [
      | some answer ↦ return answer
      | none ↦ if inode.i_block 12 == 0 then return true else do
        used ← is_block_in_use (inode.i_block 12)
        pos ← reading (λ d. d.pointers (inode.i_block 12))
        if used then return false else indirect_free pos 256 0
    ]

-- The loop over the direct blocks; `true`: it ended at a null pointer.
unfoldable pub reclaim_direct : (ℕ → ℕ) → ℕ → ℕ → Program Bool
reclaim_direct i_block zero n = return false
reclaim_direct i_block (suc left) n =
    if i_block n == 0
    then return true
    else do set_block_in_use (i_block n); reclaim_direct i_block left (n + 1)

unfoldable pub reclaim_indirect : (ℕ → ℕ) → ℕ → ℕ → Program (Unit {0})
reclaim_indirect pos zero k = return tt
reclaim_indirect pos (suc left) k =
    if pos k == 0 then return tt else do set_block_in_use (pos k); reclaim_indirect pos left (k + 1)

unfoldable pub reclaim_inode_and_data_blocks : ℕ → Program ℕ
reclaim_inode_and_data_blocks inode_num = do
  free ← is_inode_and_data_blocks_free inode_num
  if free
      then (do
        set_inode_in_use inode_num
        i ← inode_index inode_num
        inode ← reading (λ d. d.inode_table i)
        put_inode i (record inode { i_links_count = 1; i_dtime = 0 })
        at_null ← reclaim_direct inode.i_block 12 0
        if at_null || inode.i_block 12 == 0 then return 0 else do
          set_block_in_use (inode.i_block 12)
          pos ← reading (λ d. d.pointers (inode.i_block 12))
          reclaim_indirect pos 256 0
          return 0)
      else return enoent
