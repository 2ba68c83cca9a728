-- ===== src/Ext2/Restore.antt =====
-- Assignment4/ext2_restore.c: a deleted file is restored. The result of `main` is the exit code.
pub mod Undelete
pub mod Container
pub mod Ends
use csc369_operating_systems.Ext2.Reclaim.{reclaim_inode_and_data_blocks}
use csc369_operating_systems.Ext2.Remove.{or_dot, not_null, dot, root_inode_num, entry_at}
use csc369_operating_systems.Ext2.Resource.{get_actual_dir_entry_len}
use csc369_operating_systems.Ext2.Directory.{block_fuel, is_named, find_entry, find_entry_in_inode}
use csc369_operating_systems.Ext2.Names.{
  tokens, tokens, first_token, ends_with_slash, is_path_absolute, Name, get_name_len, get_file_name,
}
use csc369_operating_systems.Base.{
  [], ◌∷◌, ◌^◌, ◌%◌, zero, ◌*◌, some, leb, ◌+◌, ◌&&◌, ◌∷◌, suc, ◌==◌, none, if◌then◌else◌, Option,
  List, ◌-◌, ℕ,
}
use csc369_operating_systems.Ext2.Image.{
  crash, block_size, enoent, eisdir, eexist, put_entry, reading, ft_dir, exit, inode_index, ◌>>◌,
  return, ◌>>=◌, DirEntry, Program,
}

unfoldable pub restore_walk : ℕ → Option ℕ → List Name → Program ℕ
restore_walk container curr [] = return container
restore_walk container none (next_token ∷ rest) = exit enoent
restore_walk container (some curr) (next_token ∷ rest) = do
  entry ← entry_at curr
  if entry.file_type == ft_dir
      then (do
        next ← find_entry_in_inode entry.inode (some next_token)
        restore_walk curr next rest)
      else exit enoent

unfoldable pub find_container_directory : List ℕ → Program ℕ
find_container_directory file_path =
    if is_path_absolute file_path
    then (do
      dot_entry ← find_entry_in_inode root_inode_num (some dot)
      container_dir ← not_null dot_entry
      dir ← entry_at container_dir
      curr_dir_entry ← find_entry_in_inode dir.inode (first_token (tokens file_path))
      elim (tokens file_path) [
        | [] ↦ return container_dir
        | token ∷ rest ↦ restore_walk container_dir curr_dir_entry rest
      ])
    else exit enoent

-- `unsigned short`: less `distance` is plus 65535 times as much.
unfoldable pub unhide_deleted_entry : ℕ → ℕ → Program (Unit {0})
unhide_deleted_entry entry_pos prev_pos = do
  let distance : ℕ = entry_pos - prev_pos
  entry ← entry_at entry_pos
  prev ← entry_at prev_pos
  put_entry entry_pos (record entry { rec_len = (prev.rec_len + 65535 * distance) % 2 ^ 16 })
  kept ← entry_at prev_pos
  put_entry prev_pos (record kept { rec_len = distance % 2 ^ 16 })

-- What the scan of a gap comes to: an entry with the name, or the position after the gap.
pub data Scan : Type 0 where
  match_at after_gap : ℕ → Scan
  unfinished : Scan

-- The steps over a deleted entry and over zeroed bytes.
unfoldable pub next_in_gap : DirEntry → ℕ → ℕ → ℕ
next_in_gap entry pos gap_end =
    if entry.inode == 0 && entry.name_len == 0
    then (if entry.rec_len == 0 then gap_end else pos + entry.rec_len)
    else pos + get_actual_dir_entry_len entry.name_len

unfoldable pub scan_gap : (ℕ → DirEntry) → Name → ℕ → ℕ → ℕ → Scan
scan_gap entries name zero pos gap_end = unfinished
scan_gap entries name (suc fuel) pos gap_end =
    let rest = scan_gap entries name fuel (next_in_gap (entries pos) pos gap_end) gap_end in
    if leb gap_end pos
    then after_gap pos
    else if is_named name (entries pos)
    then match_at pos
    else rest

-- A deleted entry with the name, and the entry that hides it.
pub data Recovery : Type 0 where
  hidden_by : ℕ → ℕ → Recovery
  no_match unfinished_block : Recovery

-- A gap is shorter than 65536 bytes.
abbrev pub gap_fuel : ℕ
gap_fuel = 65536

unfoldable pub scan_block : (ℕ → DirEntry) → Name → ℕ → ℕ → ℕ → ℕ → Recovery
scan_block entries name zero pos last_valid_entry block_end = unfinished_block
scan_block entries name (suc fuel) pos last_valid_entry block_end =
    let last : DirEntry = entries last_valid_entry in
    let gap_start : ℕ = pos + get_actual_dir_entry_len last.name_len in
    if leb block_end pos
    then no_match
    else elim (scan_gap entries name gap_fuel gap_start (pos + last.rec_len)) [
      | match_at entry ↦ hidden_by entry last_valid_entry
      | after_gap end ↦ scan_block entries name fuel end (last_valid_entry + last.rec_len) block_end
      | unfinished ↦ unfinished_block
    ]

unfoldable pub scan_blocks : (ℕ → DirEntry) → Name → (ℕ → ℕ) → ℕ → ℕ → Recovery
scan_blocks entries name i_block zero n = no_match
scan_blocks entries name i_block (suc left) n =
    let rest = scan_blocks entries name i_block left (n + 1) in
    let block_start : ℕ = i_block n * block_size in
    if i_block n == 0
    then no_match
    else elim (scan_block entries name block_fuel block_start block_start
        (block_start + block_size)) [
          | hidden_by entry last_valid_entry ↦ hidden_by entry last_valid_entry
          | no_match ↦ rest
          | unfinished_block ↦ unfinished_block
        ]

unfoldable pub recover : Recovery → Program ℕ
recover (hidden_by pos last_valid_entry) = do
  entry ← entry_at pos
  if entry.file_type == ft_dir then return eisdir else do
    result ← reclaim_inode_and_data_blocks entry.inode
    if result == 0
        then (do unhide_deleted_entry pos last_valid_entry; return result)
        else return result
recover no_match = return enoent
recover unfinished_block = crash

unfoldable pub restore_file : ℕ → Name → Program ℕ
restore_file dir_inode_num name = do
  i ← inode_index dir_inode_num
  dir_inode ← reading (λ d. d.inode_table i)
  _ ← get_name_len name
  existing ← find_entry dir_inode (some name)
  elim existing [
    | some entry ↦ return eexist
    | none ↦ do
      recovery ← reading (λ d. scan_blocks d.entries name dir_inode.i_block 12 0)
      recover recovery
  ]

unfoldable pub restore : List ℕ → Program ℕ
restore path = do
  container ← find_container_directory path
  container_dir ← entry_at container
  if ends_with_slash path
      then return eisdir
      else restore_file container_dir.inode (or_dot (get_file_name path))

-- `main`, on `argv` with the name of the program.
unfoldable pub ext2_restore : List (List ℕ) → Program ℕ
ext2_restore (_ ∷ _ ∷ file_path ∷ []) = restore file_path
ext2_restore _ = exit 1
