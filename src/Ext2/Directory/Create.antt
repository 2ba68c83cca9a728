-- ===== src/Ext2/Directory/Create.antt =====
-- Assignment4/ext2_utils.c: `create_dir_entry`, and `find_entry` after it.
use csc369_operating_systems.Ext2.Directory.Found.{found_in_blocks}
use csc369_operating_systems.Ext2.Directory.Insert.{IsInserted}
use csc369_operating_systems.Ext2.Directory.Enter.{init_dir_entry_lem}
use csc369_operating_systems.Ext2.Resource.{get_actual_dir_entry_len, in_use}
use csc369_operating_systems.Ext2.Names.{get_name_len, Name}
use csc369_operating_systems.Ext2.Directory.{
  is_named, behind, absent, found, endless, unused, unused, place_in_blocks, create_at,
  search_result, Search, found, find_in_blocks, find_entry,
}
use csc369_operating_systems.Ext2.Image.{
  bind_done, bind_exited, Inode, DirEntry, Disk, Result, done, exited, return, enomem,
}
use csc369_operating_systems.Base.{
  ℕ_discrete, ℕ, ◌+◌, ◌-◌, ◌≤◌, ◌<◌, ◌≡◌, refl, sym, ◌∙◌, ap, subst, arith, true, false, Option,
  none, some, ltb, length, update, ◌⊎◌, inl, inr, Bool-cases, update_self, update_ne,
}

-- What `find_entry` says of the walk.
pub find_entry-found :
    (d : Disk) (node : Inode) (name : Name) {q : ℕ}
    → length name ≤ 255
    → find_in_blocks d.entries name node.i_block 12 0 ≡ found q
    → find_entry node (some name) d ≡ done d (some q)
unfolding find_entry get_name_len
find_entry-found d node name short e =
    let fits : ltb 255 (length name) ≡ false = ground arith in rw (find_entry, fits) (rw e refl)

pub find_entry-none :
    (d : Disk) (node : Inode) (name : Name)
    → find_entry node (some name) d ≡ done d none
    → (length name ≤ 255) × (find_in_blocks d.entries name node.i_block 12 0 ≡ absent)
unfolding find_entry get_name_len
find_entry-none d node name e = elim (Bool-cases (ltb 255 (length name))) [
  | inl long ↦ let no : ◌≡◌ {A = Result (Option ℕ)} (exited d 1) (done d none) = rw long at e in cc
  | inr fits ↦
      (ground arith, none_absent (find_in_blocks d.entries name node.i_block 12 0) (rw fits at e))
]
  where
    none_absent : (s : Search) → search_result s d ≡ done d none → s ≡ absent
    none_absent (found p) h = cc
    none_absent absent h = refl
    none_absent endless h = cc

-- What the creation of an entry comes to: the entry is there and is found, or nothing was free.
abbrev pub Created : ℕ → Name → ℕ → Result ℕ → Type 0
Created dir name file_type r =
    ((d2 : Disk) × (r ≡ exited d2 enomem))
    ⊎ ((d2 : Disk) × (q : ℕ) × (r ≡ done d2 q)
        × (find_entry (d2.inode_table dir) (some name) d2 ≡ done d2 (some q))
        × ((d2.entries q).file_type ≡ file_type))

module _ (now dir link : ℕ) (name : Name) (file_type : ℕ) (d : Disk) (short : length name ≤ 255)
    (nothing : find_in_blocks d.entries name (d.inode_table dir).i_block 12 0 ≡ absent)
    (sized : d.super_block.s_inodes_count ≤ length d.inode_bitmap)
    (in_table : in_use d.inode_bitmap dir ≡ true) where
  pub found_lem :
      (d1 d2 : Disk) {q : ℕ} (i_block : ℕ → ℕ)
      → (d2.inode_table dir).i_block ≡ i_block
      → find_in_blocks d2.entries name i_block 12 0 ≡ found q
      → find_entry (d2.inode_table dir) (some name) d2 ≡ done d2 (some q)
  found_lem d1 d2 {q = q} i_block same e =
      find_entry-found d2 (d2.inode_table dir) name short
        (subst (λ (f : ℕ → ℕ). find_in_blocks d2.entries name f 12 0 ≡ found q) (sym same) e)

  pub at_unused :
      (len p : ℕ)
      → place_in_blocks d.entries len (d.inode_table dir).i_block 12 0 ≡ unused p
      → Created dir name file_type
          (create_at now dir link name file_type (length name) (unused p) d)
  unfolding create_at
  at_unused len p place =
      elim (init_dir_entry_lem now p (d.entries p).rec_len name file_type short link d sized) [
        | inl failed ↦ inl (d, bind_exited (λ _. return p) failed)
        | inr (d2, entered, t) ↦
            let ins : IsInserted d.entries d2.entries name p p = record {
              is_new = t.has_name;
              others = λ pos. elim (ℕ_discrete pos p) [
                | yes same ↦ inl same
                | no other ↦ inr (inr (t.same_entries pos (λ h. other (sym h)), other))
              ];
            } in
            inr (
              d2,
              p,
              bind_done (λ _. return p) entered,
              found_lem d d2 (d.inode_table dir).i_block (t.same_blocks dir in_table) (
                  found_in_blocks d.entries d2.entries name p p ins len (d.inode_table dir).i_block
                    12 0 nothing (inl place)),
              t.has_type,
            )
      ]

  pub at_behind :
      (len p : ℕ)
      → 0 < len
      → place_in_blocks d.entries len (d.inode_table dir).i_block 12 0 ≡ behind p
      → get_actual_dir_entry_len (d.entries p).name_len + len ≤ (d.entries p).rec_len
      → Created dir name file_type
          (create_at now dir link name file_type (length name) (behind p) d)
  unfolding create_at
  at_behind len p some_len place fits =
      let actual_len : ℕ = get_actual_dir_entry_len (d.entries p).name_len in
      let q : ℕ = p + actual_len in
      let cut : DirEntry = record (d.entries p) { rec_len = actual_len } in
      let d1 : Disk = record d { entries = update d.entries p cut } in
      elim (init_dir_entry_lem now q (p + (d.entries p).rec_len - q) name file_type short link d1
        sized) [
          | inl failed ↦ inl (d1, bind_exited (λ _. return q) failed)
          | inr (d2, entered, t) ↦
              let ins : IsInserted d.entries d2.entries name p q = record {
                is_new = t.has_name;
                others = λ pos. elim (ℕ_discrete pos q) [
                  | yes same ↦ inl same
                  | no other ↦ elim (ℕ_discrete pos p) [
                    | yes here ↦
                        let now_cut : d2.entries pos ≡ cut =
                          t.same_entries pos (λ h. other (sym h))
                          ∙ ap (update d.entries p cut) here
                          ∙ update_self d.entries p cut in
                        inr (
                          inl (
                            ap (is_named name) now_cut
                                ∙ ap (λ (x : ℕ). is_named name (d.entries x)) (sym here),
                            ap (λ (x : DirEntry). pos + x.rec_len) now_cut
                                ∙ ap (λ (x : ℕ). x + actual_len) here,
                            omega (
                              arith,
                              here,
                              fits,
                              some_len,
                              ap (λ (x : ℕ). (d.entries x).rec_len) here,
                            ),
                          ))
                    | no apart ↦ inr (
                        inr (
                          t.same_entries pos (λ h. other (sym h))
                              ∙ update_ne d.entries p pos cut (λ h. apart (sym h)),
                          apart,
                        ))
                  ]
                ];
              } in
              inr (
                d2,
                q,
                bind_done (λ _. return q) entered,
                found_lem d d2 (d.inode_table dir).i_block (t.same_blocks dir in_table) (
                    found_in_blocks d.entries d2.entries name p q ins len
                      (d.inode_table dir).i_block 12 0 nothing (inr place)),
                t.has_type,
              )
        ]
