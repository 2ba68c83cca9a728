-- ===== src/Ext2/Path.antt =====
-- Assignment4/ext2_utils.c: the walks over a path that ext2_ln and ext2_cp make, and the files that
-- they create.
pub mod Same
use csc369_operating_systems.Ext2.Remove.{dot, entry_at}
use csc369_operating_systems.Ext2.Directory.{create_dir_entry, find_entry}
use csc369_operating_systems.Ext2.Names.{
  ends_with_slash, tokens, slash, first_token, is_nil, is_path_absolute, Name,
}
use csc369_operating_systems.Base.{
  not, ◌||◌, ◌&&◌, length, ◌==◌, false, none, drop, Bool, some, if◌then◌else◌, List, Option, ℕ, [],
  ◌∷◌,
}
use csc369_operating_systems.Ext2.Image.{
  ft_reg_file, ft_symlink, crash, eexist, enoent, ft_dir, reading, return, inode_index, exit, ◌>>=◌,
  DirEntry, Program,
}

-- On an entry whose pointer is not null.
unfoldable pub path_terminator_valid : List ℕ → DirEntry → Bool
path_terminator_valid path entry = entry.file_type == ft_dir || not (ends_with_slash path)

-- The end of the path is reached at `pos`.
abbrev pub path_end : List ℕ → ℕ → Program (Option ℕ)
path_end path pos = do
  entry ← entry_at pos
  if path_terminator_valid path entry then return (some pos) else exit enoent

-- The loop, at the entry `curr`, over the tokens that are left.
unfoldable pub find_walk : List ℕ → ℕ → List Name → Program (Option ℕ)
find_walk path curr [] = path_end path curr
find_walk path curr (token ∷ rest) = do
  dir ← entry_at curr
  i ← inode_index dir.inode
  curr_inode ← reading (λ d. d.inode_table i)
  next ← find_entry curr_inode (some token)
  elim next [
    | none ↦ exit enoent
    | some pos ↦ do
      entry ← entry_at pos
      if is_nil rest
          then path_end path pos
          else if entry.file_type == ft_symlink
          then exit enoent
          else if entry.file_type == ft_dir
          then find_walk path pos rest
          else exit enoent
  ]

-- Without a token the entry "." is the answer, null or not.
unfoldable pub find_dir_entry : List ℕ → Program (Option ℕ)
find_dir_entry path =
    if is_path_absolute path
    then (do
      root ← reading (λ d. d.inode_table 1)
      dot_entry ← find_entry root (some dot)
      elim dot_entry [
        | some pos ↦ find_walk path pos (tokens path)
        | none ↦ if is_nil (tokens path) then return none else crash
      ])
    else exit enoent

abbrev pub starts_with_slash : List ℕ → Bool
starts_with_slash [] = false
starts_with_slash (c ∷ cs) = c == slash

-- `rem_path`, past the delimiter behind a directory.
abbrev pub past_delimiter : DirEntry → List ℕ → List ℕ
past_delimiter entry rem_path =
    if entry.file_type == ft_dir && starts_with_slash rem_path then drop 1 rem_path else rem_path

abbrev pub past_token : Option Name → List ℕ → List ℕ
past_token none rem_path = rem_path
past_token (some token) rem_path = drop (length token) rem_path

abbrev pub given_or : Name → Option Name → Name
given_or name none = name
given_or name (some token) = token

-- A file stands where a directory should, or where the new file should.
abbrev pub blocked {ℓ} : {A : Type ℓ} → List ℕ → Program A
blocked rem_path = if is_nil rem_path then exit eexist else exit enoent

-- The loop of `ln_create_target_file`, at the entry `curr` of the token `token` in the directory
-- with the index `dir`: the directory and the name of the file that is to be created.
unfoldable pub ln_walk : Name → ℕ → Option ℕ → Option Name → List Name → List ℕ → Program (ℕ × Name)
ln_walk name dir none token rest rem_path =
    if is_nil rem_path then return (dir, given_or name token) else exit enoent
ln_walk name dir (some curr) token [] rem_path = do
  entry ← entry_at curr
  let rem_path1 : List ℕ = past_delimiter entry rem_path
  if entry.file_type == ft_symlink
      then blocked rem_path1
      else if not (entry.file_type == ft_dir)
      then blocked rem_path1
      else do
        i ← inode_index entry.inode
        if is_nil rem_path1 then return (i, name) else exit enoent
ln_walk name dir (some curr) token (next_token ∷ rest) rem_path = do
  entry ← entry_at curr
  let rem_path1 : List ℕ = past_delimiter entry rem_path
  if entry.file_type == ft_symlink
      then blocked rem_path1
      else if not (entry.file_type == ft_dir)
      then blocked rem_path1
      else do
        i ← inode_index entry.inode
        curr_inode ← reading (λ d. d.inode_table i)
        next ← find_entry curr_inode (some next_token)
        ln_walk name i next (some next_token) rest (past_token (some next_token) rem_path1)

abbrev pub other_tokens : List Name → List Name
other_tokens [] = []
other_tokens (t ∷ ts) = ts

unfoldable pub ln_create_target_file : ℕ → List ℕ → Name → ℕ → ℕ → Program ℕ
ln_create_target_file now path name link_inode file_type =
    if is_path_absolute path
    then (do
      let token : Option Name = first_token (tokens path)
      root ← reading (λ d. d.inode_table 1)
      curr ← find_entry root token
      target ←
          ln_walk name 1 curr token (other_tokens (tokens path)) (past_token token (drop 1 path))
      create_dir_entry now target.0 link_inode target.1 file_type)
    else exit enoent

-- The loop of `cp_create_target_file`.
unfoldable pub cp_walk : Name → ℕ → Option ℕ → Option Name → List Name → List ℕ → Program (ℕ × Name)
cp_walk name dir none token rest rem_path =
    if is_nil rem_path then return (dir, given_or name token) else exit enoent
cp_walk name dir (some curr) token [] rem_path = do
  entry ← entry_at curr
  let rem_path1 : List ℕ = past_delimiter entry rem_path
  if not (entry.file_type == ft_dir) then blocked rem_path1 else do
    i ← inode_index entry.inode
    if is_nil rem_path1 then return (i, name) else exit enoent
cp_walk name dir (some curr) token (next_token ∷ rest) rem_path = do
  entry ← entry_at curr
  let rem_path1 : List ℕ = past_delimiter entry rem_path
  if not (entry.file_type == ft_dir) then blocked rem_path1 else do
    i ← inode_index entry.inode
    curr_inode ← reading (λ d. d.inode_table i)
    next ← find_entry curr_inode (some next_token)
    cp_walk name i next (some next_token) rest (past_token (some next_token) rem_path1)

unfoldable pub cp_create_target_file : ℕ → List ℕ → Name → Program ℕ
cp_create_target_file now path name =
    if is_path_absolute path
    then (do
      let token : Option Name = first_token (tokens path)
      root ← reading (λ d. d.inode_table 1)
      curr ← find_entry root token
      target ←
          cp_walk name 1 curr token (other_tokens (tokens path)) (past_token token (drop 1 path))
      create_dir_entry now target.0 0 target.1 ft_reg_file)
    else exit enoent
