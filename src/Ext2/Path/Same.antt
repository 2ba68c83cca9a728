-- ===== src/Ext2/Path/Same.antt =====
-- Assignment4/ext2_utils.c: the walks of ext2_cp and of ext2_ln agree.
use csc369_operating_systems.Ext2.Path.{
  other_tokens, create_dir_entry, is_path_absolute, tokens, first_token, past_token, find_entry,
  blocked, ln_create_target_file, cp_create_target_file, past_delimiter, Name, ln_walk, cp_walk,
}
use csc369_operating_systems.Ext2.Image.{
  ft_reg_file, DirEntry, Disk, Program, ◌>>=◌, exit, reading, inode_index, enoent, ft_symlink,
  ft_dir,
}
use csc369_operating_systems.Base.{
  ℕ, ◌≡◌, refl, ◌∙◌, ap, fun_ext, arith, false, Option, none, some, List, [], ◌∷◌, if◌then◌else◌,
  ◌==◌, not, drop, inl, inr, Bool-cases,
}

-- A symbolic link is no directory: the test that only ext2_ln makes changes nothing.
same_test {ℓ} :
    {A : Type ℓ} (file_type : ℕ) (a b : A)
    → (if not (file_type == ft_dir) then a else b)
      ≡ (if file_type == ft_symlink then a else if not (file_type == ft_dir) then a else b)
same_test file_type a b = elim (Bool-cases (file_type == ft_symlink)) [
  | inl link ↦ let other : (file_type == ft_dir) ≡ false = ground arith in rw (link, other) refl
  | inr other ↦ rw other refl
]

cp_walk-eq-ln_walk :
    (name : Name) (dir : ℕ) (curr : Option ℕ) (token : Option Name) (rest : List Name)
    (rem_path : List ℕ) (d : Disk)
    → cp_walk name dir curr token rest rem_path d ≡ ln_walk name dir curr token rest rem_path d
unfolding cp_walk ln_walk
cp_walk-eq-ln_walk name dir none token rest rem_path d = refl
cp_walk-eq-ln_walk name dir (some curr) token [] rem_path d =
    ap (λ (m : Program (ℕ × Name)). m d) (same_test (d.entries curr).file_type _ _)
cp_walk-eq-ln_walk name dir (some curr) token (next_token ∷ rest) rem_path d =
    let entry : DirEntry = d.entries curr in
    let rem_path1 : List ℕ = past_delimiter entry rem_path in
    ap
      (λ (next_step : ℕ → Option ℕ → Program (ℕ × Name)).
        (if not (entry.file_type == ft_dir) then blocked rem_path1 else do
          i ← inode_index entry.inode
          curr_inode ← reading (λ d1. d1.inode_table i)
          next ← find_entry curr_inode (some next_token)
          next_step i next)
          d)
      (fun_ext (λ i. fun_ext (λ next. fun_ext (λ d1.
        cp_walk-eq-ln_walk name i next (some next_token) rest
          (past_token (some next_token) rem_path1) d1))))
    ∙ ap (λ (m : Program (ℕ × Name)). m d) (same_test (d.entries curr).file_type _ _)

-- `cp_create_target_file` does what `ln_create_target_file` does for a regular file without an inode
-- to link to: on every image, path, name and time they return the same entry and leave the same
-- image, exit with the same code, or are both undefined.
pub cp_create_target_file-eq-ln_create_target_file :
    (now : ℕ) (path : List ℕ) (name : Name) (d : Disk)
    → cp_create_target_file now path name d ≡ ln_create_target_file now path name 0 ft_reg_file d
unfolding cp_create_target_file ln_create_target_file
cp_create_target_file-eq-ln_create_target_file now path name d =
    let token : Option Name = first_token (tokens path) in
    ap
      (λ (walk : Option ℕ → Program (ℕ × Name)).
        (if is_path_absolute path
            then (do
              root ← reading (λ d1. d1.inode_table 1)
              curr ← find_entry root token
              target ← walk curr
              create_dir_entry now target.0 0 target.1 ft_reg_file)
            else exit enoent)
          d)
      (fun_ext (λ curr. fun_ext (λ d1.
        cp_walk-eq-ln_walk name 1 curr token (other_tokens (tokens path))
          (past_token token (drop 1 path)) d1)))
