-- ===== src/Ext2/Remove.antt =====
-- Assignment4/ext2_rm.c: the entry of a file is deleted. The result of `main` is the exit code.
pub mod Seek
use csc369_operating_systems.Ext2.Names.{
  ends_with_slash, is_path_absolute, tokens, first_token, get_name_len, Name, get_file_name,
}
use csc369_operating_systems.Ext2.Alloc.{unlink_inode}
use csc369_operating_systems.Ext2.Directory.{block_fuel, is_named, find_entry_in_inode}
use csc369_operating_systems.Base.{
  zero, ◌&&◌, ◌^◌, ◌*◌, ◌%◌, ◌==◌, if◌then◌else◌, ◌+◌, none, [], List, ◌∷◌, suc, some, Option, ℕ,
}
use csc369_operating_systems.Ext2.Image.{
  ◌>>◌, eisdir, ft_dir, return, block_size, enoent, inode_index, exit, put_entry, reading, ◌>>=◌,
  crash, DirEntry, Program,
}

-- The entry that a pointer points to.
abbrev pub entry_at : ℕ → Program DirEntry
entry_at pos = reading (λ d. d.entries pos)

-- A pointer that `find_entry` returned and that is followed: null crashes the program.
abbrev pub not_null : Option ℕ → Program ℕ
not_null none = crash
not_null (some pos) = return pos

abbrev pub root_inode_num : ℕ
root_inode_num = 2

abbrev pub dot : Name
dot = 46 ∷ []

-- The walk from the token `token` on, which `curr` is the entry of in `container`.
unfoldable pub rm_walk : ℕ → Option ℕ → List Name → Program ℕ
rm_walk container none rest = exit enoent
rm_walk container (some curr) [] = return container
rm_walk container (some curr) (next_token ∷ rest) = do
  entry ← entry_at curr
  if entry.file_type == ft_dir
      then (do next ← find_entry_in_inode entry.inode (some next_token); rm_walk curr next rest)
      else exit enoent

unfoldable pub find_container_directory : List ℕ → Program ℕ
find_container_directory file_path = do
  dot_entry ← find_entry_in_inode root_inode_num (some dot)
  container_dir ← not_null dot_entry
  dir ← entry_at container_dir
  curr_dir_entry ← find_entry_in_inode dir.inode (first_token (tokens file_path))
  elim (tokens file_path) [
    | [] ↦ return container_dir
    | token ∷ rest ↦ rm_walk container_dir curr_dir_entry rest
  ]

-- Where an entry stands in its block: `prev` is the entry before it.
pub data Deletion : Type 0 where
  entry_after : Option ℕ → ℕ → Deletion
  no_entry unending : Deletion

unfoldable pub seek_in_block : (ℕ → DirEntry) → Name → Option ℕ → ℕ → ℕ → ℕ → Deletion
seek_in_block entries name prev zero pos block_end = unending
seek_in_block entries name prev (suc fuel) pos block_end =
    let after : ℕ =
      if (entries pos).inode == 0 && (entries pos).rec_len == 0
      then block_end
      else pos + (entries pos).rec_len in
    let rest = seek_in_block entries name (some pos) fuel after block_end in
    if pos == block_end
    then no_entry
    else if is_named name (entries pos)
    then entry_after prev pos
    else rest

unfoldable pub seek_in_blocks : (ℕ → DirEntry) → Name → (ℕ → ℕ) → ℕ → ℕ → Deletion
seek_in_blocks entries name i_block zero n = no_entry
seek_in_blocks entries name i_block (suc left) n =
    let rest = seek_in_blocks entries name i_block left (n + 1) in
    let block_start : ℕ = i_block n * block_size in
    if i_block n == 0
    then no_entry
    else elim (seek_in_block entries name none block_fuel block_start (block_start + block_size)) [
      | entry_after prev pos ↦ entry_after prev pos
      | no_entry ↦ rest
      | unending ↦ unending
    ]

-- The entry leaves the chain of its block.
unfoldable pub hide_entry : Option ℕ → ℕ → Program (Unit {0})
hide_entry none pos = do entry ← entry_at pos; put_entry pos (record entry { inode = 0 })
hide_entry (some prev_entry) pos = do
  entry ← entry_at pos
  prev ← entry_at prev_entry
  put_entry prev_entry (record prev { rec_len = (prev.rec_len + entry.rec_len) % 2 ^ 16 })

unfoldable pub delete_at : ℕ → Deletion → Program ℕ
delete_at now (entry_after prev pos) = do
  entry ← entry_at pos
  if entry.file_type == ft_dir
      then return eisdir
      else do unlink_inode now entry.inode; hide_entry prev pos; return 0
delete_at now no_entry = return enoent
delete_at now unending = crash

unfoldable pub delete_file_entry : ℕ → ℕ → Name → Program ℕ
delete_file_entry now dir_inode_num name = do
  i ← inode_index dir_inode_num
  dir_inode ← reading (λ d. d.inode_table i)
  _ ← get_name_len name
  place ← reading (λ d. seek_in_blocks d.entries name dir_inode.i_block 12 0)
  delete_at now place

-- `argv`, with the name of the program. The image is the one that `read_disk_image` maps.
abbrev pub or_dot : Option Name → Name
or_dot none = dot
or_dot (some name) = name

unfoldable pub ext2_rm : ℕ → List (List ℕ) → Program ℕ
ext2_rm now (_ ∷ _ ∷ file_path ∷ []) =
    if is_path_absolute file_path
    then (do
      container ← find_container_directory file_path
      container_dir ← entry_at container
      if ends_with_slash file_path
          then return eisdir
          else delete_file_entry now container_dir.inode (or_dot (get_file_name file_path)))
    else return enoent
ext2_rm now _ = exit 1
