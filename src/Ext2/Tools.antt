-- ===== src/Ext2/Tools.antt =====
-- Assignment4/ext2_mkdir.c, ext2_ln.c and ext2_cp.c: the programs, on `argv` with the name of the
-- program. The result is the exit code.
use csc369_operating_systems.Ext2.Remove.{root_inode_num, dot, entry_at}
use csc369_operating_systems.Ext2.Copy.{copy_sourcefile_data, copy_symlink_path}
use csc369_operating_systems.Ext2.Directory.{create_dir_entry, find_entry_in_inode}
use csc369_operating_systems.Ext2.Names.{
  tokens, first_token, is_nil, is_path_absolute, slash, Name, get_file_name,
}
use csc369_operating_systems.Ext2.Path.{
  ln_create_target_file, cp_create_target_file, find_dir_entry,
}
use csc369_operating_systems.Base.{
  not, ◌&&◌, false, ◌==◌, Bool, ◌&&◌, ◌==◌, take, some, none, if◌then◌else◌, Option, List, ℕ, [],
  ◌∷◌,
}
use csc369_operating_systems.Ext2.Image.{
  eisdir, ft_symlink, increment, crash, increment, exit, writing, eexist, ◌>>◌, ft_dir, enoent,
  inode_index, return, ◌>>=◌, ft_reg_file, Program,
}

abbrev pub dot_dot : Name
dot_dot = 46 ∷ 46 ∷ []

-- `strcmp("/", path) == 0`
abbrev pub is_root_path : List ℕ → Bool
is_root_path [] = false
is_root_path (c ∷ cs) = c == slash && is_nil cs

-- `flag[1] == 's'`. Behind an empty flag the byte is none of its own.
abbrev pub is_symbolic : List ℕ → Program Bool
is_symbolic [] = crash
is_symbolic (a ∷ []) = return false
is_symbolic (a ∷ b ∷ cs) = return (b == 115)

-- A new directory in the one with the number `parent`, with its entries "." and "..".
unfoldable pub make_dir : ℕ → ℕ → Name → Program ℕ
make_dir now parent token = do
  dir ← inode_index parent
  new_pos ← create_dir_entry now dir 0 token ft_dir
  writing (λ d. record d {
    group_desc = record (d.group_desc) {
      bg_used_dirs_count = increment 16 d.group_desc.bg_used_dirs_count;
    };
  })
  new_entry ← entry_at new_pos
  new_inode ← inode_index new_entry.inode
  _ ← create_dir_entry now new_inode new_entry.inode dot ft_dir
  _ ← create_dir_entry now new_inode parent dot_dot ft_dir
  return 0

-- The loop, at the token `token`, which `curr` is the entry of in the directory `dir`.
unfoldable pub mkdir_walk : ℕ → ℕ → Option ℕ → Name → List Name → Program ℕ
mkdir_walk now dir none token [] = make_dir now dir token
mkdir_walk now dir none token (next_token ∷ rest) = return enoent
mkdir_walk now dir (some curr) token [] = return eexist
mkdir_walk now dir (some curr) token (next_token ∷ rest) = do
  entry ← entry_at curr
  if entry.file_type == ft_dir
      then (do
        next ← find_entry_in_inode entry.inode (some next_token)
        mkdir_walk now entry.inode next next_token rest)
      else return enoent

unfoldable pub ext2_mkdir : ℕ → List (List ℕ) → Program ℕ
ext2_mkdir now (_ ∷ _ ∷ target_path ∷ []) =
    if is_root_path target_path
    then return eexist
    else if is_path_absolute target_path
    then (do
      curr ← find_entry_in_inode root_inode_num (first_token (tokens target_path))
      elim (tokens target_path) [
        | [] ↦ return enoent
        | token ∷ rest ↦ mkdir_walk now root_inode_num curr token rest
      ])
    else return enoent
ext2_mkdir now _ = exit 1

-- Links to the file at `source_path`.
unfoldable pub link_file : ℕ → ℕ → List ℕ → List ℕ → Program ℕ
link_file now target_file_type source_path link_path = do
  src ← find_dir_entry source_path
  elim src [
    | none ↦ return enoent
    | some src_pos ↦ do
      src_dir_entry ← entry_at src_pos
      let src_file_name : Name = take src_dir_entry.name_len src_dir_entry.name
      if src_dir_entry.file_type == ft_dir && not (target_file_type == ft_symlink)
          then return eisdir
          else if target_file_type == ft_symlink
          then (do
            link ← ln_create_target_file now link_path src_file_name 0 target_file_type
            copy_symlink_path link source_path
            return 0)
          else do
            _ ←
                ln_create_target_file now link_path src_file_name src_dir_entry.inode
                  target_file_type
            return 0
  ]

-- The flag is not read but for its second byte.
unfoldable pub ext2_ln : ℕ → List (List ℕ) → Program ℕ
ext2_ln now (_ ∷ _ ∷ source_path ∷ link_path ∷ []) = link_file now ft_reg_file source_path link_path
ext2_ln now (_ ∷ _ ∷ flag ∷ source_path ∷ link_path ∷ []) = do
  symbolic ← is_symbolic flag
  if symbolic then link_file now ft_symlink source_path link_path else exit 1
ext2_ln now _ = exit 1

-- `open_file` has returned the file with the bytes `source_file`: a regular file, whose path has a
-- token.
unfoldable pub ext2_cp : ℕ → List ℕ → List (List ℕ) → Program ℕ
ext2_cp now source_file (_ ∷ _ ∷ source_path ∷ destination_path ∷ []) =
    elim (get_file_name source_path) [
      | none ↦ crash
      | some source_filename ↦ do
        copied_file ← cp_create_target_file now destination_path source_filename
        entry ← entry_at copied_file
        i ← inode_index entry.inode
        copy_sourcefile_data i source_file
        return 0
    ]
ext2_cp now source_file _ = exit 1
