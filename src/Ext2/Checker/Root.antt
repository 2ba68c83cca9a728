-- ===== src/Ext2/Checker/Root.antt =====
-- Assignment4/ext2_checker.c: the mode of the root directory.
use csc369_operating_systems.Ext2.Image.{Inode, Disk, done, s_ifdir, ft_dir}
use csc369_operating_systems.Ext2.Checker.{dir_entry_file_type, fix_root_mode, mode_type}
use csc369_operating_systems.Base.{
  ℕ, ◌^◌, ◌<◌, ◌≡◌, refl, sym, ◌∙◌, ap, arith, if◌then◌else◌, ◌==◌, ◌||◌, set_bit, update, inl, inr,
  Bool-cases, update_self,
}

-- The file type for a mode with the bit of directories set.
type_with_bit :
    (m : ℕ)
    → m < 2 ^ 16
    → dir_entry_file_type (set_bit m 14)
      ≡ (if mode_type m == 0 || mode_type m == mode_type s_ifdir then ft_dir else 0)
unfolding dir_entry_file_type
type_with_bit m h = ground arith

-- For a mode of 16 bits: `fix_root_mode` returns, and afterwards the file type for the root inode is that
-- of a directory exactly if its mode had been a directory's or had no file type at all. From any other
-- file type, a regular file's or a link's, it makes an unknown one.
pub fix_root_mode_lem :
    (d : Disk)
    → (d.inode_table 1).i_mode < 2 ^ 16
    → (d2 : Disk) × (n : ℕ) × (fix_root_mode d ≡ done d2 n)
      × (dir_entry_file_type (d2.inode_table 1).i_mode ≡ (
          if mode_type (d.inode_table 1).i_mode == 0
            || mode_type (d.inode_table 1).i_mode == mode_type s_ifdir
          then ft_dir
          else 0))
unfolding fix_root_mode
fix_root_mode_lem d h =
    let m : ℕ = (d.inode_table 1).i_mode in
    elim (Bool-cases (mode_type m == mode_type s_ifdir)) [
      | inl dir ↦
          let set_already : set_bit m 14 ≡ m = ground arith in
          (
            d,
            0,
            rw (fix_root_mode, dir) refl,
            sym (ap dir_entry_file_type set_already) ∙ type_with_bit m h,
          )
      | inr other ↦
          let fixed : Inode = record (d.inode_table 1) { i_mode = set_bit m 14 } in
          (
            record d { inode_table = update d.inode_table 1 fixed },
            1,
            rw (fix_root_mode, other) refl,
            ap (λ (x : Inode). dir_entry_file_type x.i_mode) (update_self d.inode_table 1 fixed)
                ∙ type_with_bit m h,
          )
    ]
