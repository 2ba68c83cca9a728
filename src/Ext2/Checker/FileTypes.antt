-- ===== src/Ext2/Checker/FileTypes.antt =====
-- Assignment4: file types in directory entries and modes in inodes.
use csc369_operating_systems.Ext2.Alloc.{get_inode_mode}
use csc369_operating_systems.Ext2.Checker.{
  ft_symlink, ft_dir, ft_reg_file, fix_file_type_mismatch, dir_entry_file_type,
}
use csc369_operating_systems.Ext2.Image.{DirEntry, Disk, done, ◌>>=◌}
use csc369_operating_systems.Base.{
  ℕ, suc, ◌≡◌, ◌≢◌, refl, ◌∙◌, ap, arith, true, false, ◌==◌, update, ◌⊎◌, inl, inr, ◌↔◌, Bool-cases,
  update_self, update_ne,
}

-- The mode that `allocate_inode` gives a new inode is one for which ext2_checker expects the file type
-- it was made for, exactly for regular files, directories and symbolic links.
pub dir_entry_file_type-get_inode_mode :
    (file_type : ℕ)
    → (dir_entry_file_type (get_inode_mode file_type) ≡ file_type)
      ↔ ((file_type ≡ ft_reg_file) ⊎ ((file_type ≡ ft_dir) ⊎ (file_type ≡ ft_symlink)))
unfolding dir_entry_file_type get_inode_mode
dir_entry_file_type-get_inode_mode file_type = ground arith

-- A consistent entry is left alone, and another is given the file type.
module _ (d : Disk) (pos i : ℕ) (has_inode : (d.entries pos).inode ≡ suc i) where
  consistent :
      (d.entries pos).file_type ≡ dir_entry_file_type (d.inode_table i).i_mode
      → fix_file_type_mismatch pos d ≡ done d 0
  unfolding fix_file_type_mismatch
  consistent same =
      let test : ((d.entries pos).file_type == dir_entry_file_type (d.inode_table i).i_mode)
          ≡ true =
        ground arith in
      rw (fix_file_type_mismatch, ◌>>=◌, has_inode, test) refl

  inconsistent :
      (d2 : Disk)
      → record d {
        entries =
            update d.entries pos
              (record (d.entries pos) { file_type = dir_entry_file_type (d.inode_table i).i_mode });
      }
        ≡ d2
      → ((d.entries pos).file_type == dir_entry_file_type (d.inode_table i).i_mode) ≡ false
      → fix_file_type_mismatch pos d ≡ done d2 1
  unfolding fix_file_type_mismatch
  inconsistent d2 written test =
      rw (fix_file_type_mismatch, ◌>>=◌, has_inode, test) (ap (λ (x : Disk). done x 1) written)

-- For an entry with an inode: `fix_file_type_mismatch` gives it the file type of the mode of its
-- inode, returns 0 exactly if it had it, and when it is called again returns 0. The other entries are
-- as they were.
pub fix_file_type_mismatch_lem :
    (d : Disk) (pos i : ℕ)
    → (d.entries pos).inode ≡ suc i
    → (d2 : Disk) × (n : ℕ) × (fix_file_type_mismatch pos d ≡ done d2 n)
      × ((d2.entries pos).file_type ≡ dir_entry_file_type (d.inode_table i).i_mode)
      × ((n ≡ 0) ↔ ((d.entries pos).file_type ≡ dir_entry_file_type (d.inode_table i).i_mode))
      × ((other : ℕ) → pos ≢ other → d2.entries other ≡ d.entries other)
      × (fix_file_type_mismatch pos d2 ≡ done d2 0)
unfolding fix_file_type_mismatch
fix_file_type_mismatch_lem d pos i has_inode =
    let expected : ℕ = dir_entry_file_type (d.inode_table i).i_mode in
    let fixed : DirEntry = record (d.entries pos) { file_type = expected } in
    let d2 : Disk = record d { entries = update d.entries pos fixed } in
    let now : d2.entries pos ≡ fixed = update_self d.entries pos fixed in
    elim (Bool-cases ((d.entries pos).file_type == expected)) [
      | inl test ↦
          let same : (d.entries pos).file_type ≡ expected = ground arith in
          let fine = consistent d pos i has_inode same in
          (d, 0, fine, same, ((λ z. same), (λ z. refl)), (λ other h. refl), fine)
      | inr test ↦
          let apart : (d.entries pos).file_type ≢ expected = ground arith in
          (
            d2,
            1,
            inconsistent d pos i has_inode d2 refl test,
            ap (λ (x : DirEntry). x.file_type) now,
            ((λ z. absurd (omega (arith, z))), (λ z. absurd (apart z))),
            (λ other h. update_ne d.entries pos other fixed h),
            consistent d2 pos i (ap (λ (x : DirEntry). x.inode) now ∙ has_inode)
                (ap (λ (x : DirEntry). x.file_type) now),
          )
    ]
