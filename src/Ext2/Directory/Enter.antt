-- ===== src/Ext2/Directory/Enter.antt =====
-- Assignment4/ext2_utils.c: what `init_dir_entry` writes.
use csc369_operating_systems.Ext2.Alloc.Steps.{allocate_inode_lem}
use csc369_operating_systems.Ext2.Alloc.{take_inode, new_inode, get_timestamp}
use csc369_operating_systems.Ext2.Directory.{init_dir_entry, is_named}
use csc369_operating_systems.Ext2.Resource.{in_use}
use csc369_operating_systems.Ext2.Names.{strncmp_equal, Name}
use csc369_operating_systems.Ext2.Image.{
  Inode, DirEntry, Disk, done, exited, ◌>>=◌, enomem, increment,
}
use csc369_operating_systems.Base.{
  ℕ_discrete, ℕ, zero, suc, ◌%◌, ◌^◌, ◌≤◌, ◌≡◌, ◌≢◌, refl, sym, ◌∙◌, ap, subst, arith, Bool, true,
  false, [], ◌∷◌, ◌==◌, length, take, update, ◌⊎◌, inl, inr, update_self, update_ne,
}

strncmp_self : (name : Name) → strncmp_equal (length name) name (take (length name) name) ≡ true
strncmp_self [] = refl
strncmp_self (c ∷ name) = ground (arith, strncmp_self name)

-- The entry at `pos` has been written; the others, and the blocks of the inodes in use, are as before.
pub record IsEntered (d d2 : Disk) (pos rec_len : ℕ) (name : Name) (file_type : ℕ) : Type 0 where
  pub same_entries : (other : ℕ) → pos ≢ other → d2.entries other ≡ d.entries other
  pub has_name : is_named name (d2.entries pos) ≡ true
  pub has_len : (d2.entries pos).rec_len ≡ rec_len % 2 ^ 16
  pub has_type : (d2.entries pos).file_type ≡ file_type
  pub same_blocks :
      (j : ℕ)
      → in_use d.inode_bitmap j ≡ true
      → (d2.inode_table j).i_block ≡ (d.inode_table j).i_block

module _ (now pos rec_len : ℕ) (name : Name) (file_type : ℕ) (short : length name ≤ 255) where
  abbrev entry_of : ℕ → DirEntry
  entry_of i = record {
    inode = suc i;
    rec_len = rec_len % 2 ^ 16;
    name_len = length name % 2 ^ 8;
    file_type = file_type;
    name = take (length name) name;
  }

  named : (i : ℕ) → is_named name (entry_of i) ≡ true
  named i =
      let whole : (length name == length name % 2 ^ 8) ≡ true = ground arith in
      let present : (suc i == 0) ≡ false = ground arith in
      rw (present, whole, strncmp_self name) refl

  -- The link to the inode with the index `i`, and the entry.
  abbrev entered : Disk → ℕ → Disk
  entered d i = record d {
    inode_table =
        update d.inode_table i (record (d.inode_table i) {
          i_links_count = increment 16 (d.inode_table i).i_links_count;
        });
    entries = update d.entries pos (entry_of i);
  }

  linked_blocks :
      (d : Disk) (i j : ℕ) → ((entered d i).inode_table j).i_block ≡ (d.inode_table j).i_block
  linked_blocks d i j = elim (ℕ_discrete i j) [
    | yes same ↦
        subst (λ (x : ℕ). ((entered d i).inode_table x).i_block ≡ (d.inode_table x).i_block) same
          (ap (λ (x : Inode). x.i_block) (update_self d.inode_table i _))
    | no other ↦ ap (λ (x : Inode). x.i_block) (update_ne d.inode_table i j _ other)
  ]

  entered_lem :
      (d0 d : Disk) (i : ℕ)
      → d.entries ≡ d0.entries
      → ((j : ℕ)
          → in_use d0.inode_bitmap j ≡ true
          → (d.inode_table j).i_block ≡ (d0.inode_table j).i_block)
      → IsEntered d0 (entered d i) pos rec_len name file_type
  entered_lem d0 d i same_entries same_blocks =
      let at : (entered d i).entries pos ≡ entry_of i = update_self d.entries pos (entry_of i) in
      record {
        same_entries = λ other h.
            update_ne d.entries pos other (entry_of i) h
            ∙ ap (λ (f : ℕ → DirEntry). f other) same_entries;
        has_name = subst (λ (x : DirEntry). is_named name x ≡ true) (sym at) (named i);
        has_len = ap (λ (x : DirEntry). x.rec_len) at;
        has_type = ap (λ (x : DirEntry). x.file_type) at;
        same_blocks = λ j used. linked_blocks d i j ∙ same_blocks j used;
      }

  -- A link to an inode that is there.
  pub linked_lem :
      (i : ℕ) (d : Disk)
      → (d2 : Disk) × (init_dir_entry now pos (suc i) rec_len (length name) file_type name d
          ≡ done d2 tt)
        × IsEntered d d2 pos rec_len name file_type
  unfolding init_dir_entry
  linked_lem i d =
      let present : (suc i == 0) ≡ false = ground arith in
      (entered d i, rw (init_dir_entry, present) refl, entered_lem d d i refl (λ j used. refl))

  -- A new inode, if there is one.
  pub allocated_lem :
      (d : Disk)
      → d.super_block.s_inodes_count ≤ length d.inode_bitmap
      → (init_dir_entry now pos 0 rec_len (length name) file_type name d ≡ exited d enomem)
        ⊎ ((d2 : Disk) × (init_dir_entry now pos 0 rec_len (length name) file_type name d
              ≡ done d2 tt)
            × IsEntered d d2 pos rec_len name file_type)
  unfolding init_dir_entry
  allocated_lem d sized = elim (allocate_inode_lem now file_type d sized) [
    | inl failed ↦ inl (rw (init_dir_entry, ◌>>=◌, failed) refl)
    | inr (i, b, t, allocated) ↦
        let d1 : Disk = record (take_inode b d) {
          inode_table = update d.inode_table i (new_inode (get_timestamp now) file_type);
        } in
        inr (
          entered d1 i,
          rw (init_dir_entry, ◌>>=◌, allocated) refl,
          entered_lem d d1 i refl (λ j used. elim (ℕ_discrete i j) [
            | yes same ↦
                let no : ◌≡◌ {A = Bool} true false =
                  sym used ∙ subst (λ (x : ℕ). in_use d.inode_bitmap x ≡ false) same t.was_free in
                cc
            | no other ↦ ap (λ (x : Inode). x.i_block) (update_ne d.inode_table i j _ other)
          ]),
        )
  ]

  -- On any link.
  pub init_dir_entry_lem :
      (link : ℕ) (d : Disk)
      → d.super_block.s_inodes_count ≤ length d.inode_bitmap
      → (init_dir_entry now pos link rec_len (length name) file_type name d ≡ exited d enomem)
        ⊎ ((d2 : Disk) × (init_dir_entry now pos link rec_len (length name) file_type name d
              ≡ done d2 tt)
            × IsEntered d d2 pos rec_len name file_type)
  init_dir_entry_lem zero d sized = allocated_lem d sized
  init_dir_entry_lem (suc i) d sized = inr (linked_lem i d)
