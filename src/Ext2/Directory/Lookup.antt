-- ===== src/Ext2/Directory/Lookup.antt =====
-- Assignment4/ext2_utils.c: `find_entry` after `create_dir_entry`, also where a block is added to the
-- directory.
use csc369_operating_systems.Ext2.Directory.Blocks.{places_lem}
use csc369_operating_systems.Ext2.Directory.Found.{found_in_new_block}
use csc369_operating_systems.Ext2.Directory.Create.{
  at_behind, at_unused, find_entry-none, Created, found_lem,
}
use csc369_operating_systems.Ext2.Directory.Enter.{init_dir_entry_lem, IsEntered}
use csc369_operating_systems.Ext2.Alloc.Lowest.{allocate_resource_lem, IsTaken}
use csc369_operating_systems.Ext2.Alloc.{get_blocks_count, allocate_block, take_block, zero_block}
use csc369_operating_systems.Ext2.Names.{get_name_len, Name}
use csc369_operating_systems.Ext2.Resource.{get_padded_rec_len_lem, get_padded_rec_len, in_use}
use csc369_operating_systems.Ext2.Image.{
  Inode, Disk, Result, done, exited, ◌>>=◌, return, block_size, enomem, eexist, bind_done,
  bind_exited,
}
use csc369_operating_systems.Base.{
  ℕ, suc, ◌+◌, ◌*◌, ◌/◌, ◌%◌, ◌^◌, ◌≤◌, ◌<◌, ◌≡◌, ◌≢◌, refl, sym, ◌∙◌, ap, subst, arith, Bool, true,
  false, Option, none, some, List, ◌==◌, ltb, leb, length, update, inl, inr, Bool-cases,
  update_self,
}
use csc369_operating_systems.Ext2.Directory.{
  Place, place_in_blocks, create_dir_entry, all_full, create_at, num_disk_blks, find_entry,
  find_in_blocks, absent,
}

-- The blocks of a directory are in use.
abbrev pub BlocksUsed : Disk → Inode → Type 0
BlocksUsed d node = (k j : ℕ) → k < 12 → node.i_block k ≡ suc j → in_use d.block_bitmap j ≡ true

module _ (now dir link : ℕ) (name : Name) (file_type : ℕ) (d : Disk) (short : length name ≤ 255)
    (nothing : find_in_blocks d.entries name (d.inode_table dir).i_block 12 0 ≡ absent)
    (sized : d.super_block.s_inodes_count ≤ length d.inode_bitmap)
    (in_table : in_use d.inode_bitmap dir ≡ true)
    (sized_blocks : d.super_block.s_blocks_count ≤ length d.block_bitmap)
    (used : BlocksUsed d (d.inode_table dir)) where
  -- The image with the new block `suc i` behind the pointer `m` of the directory.
  abbrev grown : ℕ → ℕ → List ℕ → Disk
  grown m i b =
      let d1 : Disk = zero_block (suc i) (take_block b d) in
      let node : Inode = d.inode_table dir in
      record d1 {
        inode_table = update d.inode_table dir (record node {
          i_block = update node.i_block m (suc i);
          i_size = (node.i_size + block_size) % 2 ^ 32;
          i_blocks = num_disk_blks node.i_blocks block_size;
        });
      }

  in_new_block :
      (m i : ℕ) (b : List ℕ)
      → m < 12
      → ((k : ℕ) → k < m → ((d.inode_table dir).i_block k == 0) ≡ false)
      → IsTaken d.block_bitmap i b
      → (d2 : Disk) → IsEntered (grown m i b) d2 (suc i * block_size) block_size name file_type
      → find_entry (d2.inode_table dir) (some name) d2 ≡ done d2 (some (suc i * block_size))
  in_new_block m i b small before t d2 entered =
      let i_block : ℕ → ℕ = (d.inode_table dir).i_block in
      let outside : (pos : ℕ) → pos / block_size ≢ suc i → d2.entries pos ≡ d.entries pos = λ pos h.
        entered.same_entries pos (λ e. h (omega (arith, e)))
        ∙ (let far : (pos / block_size == suc i) ≡ false = ground arith in rw far refl) in
      let apart : (k : ℕ) → 0 ≤ k → k < m → i_block k ≢ suc i = λ k from to e.
        (let no : ◌≡◌ {A = Bool} true false = sym (used k i (omega arith) e) ∙ t.was_free in cc) in
      found_lem now dir link name file_type d short nothing sized in_table d d2
        (update i_block m (suc i))
        (entered.same_blocks dir in_table
          ∙ ap (λ (x : Inode). x.i_block) (update_self d.inode_table dir _))
        (found_in_new_block d.entries d2.entries name (suc i) entered.has_name outside i_block m 12
          0 (λ e. absurd (omega (arith, e))) nothing (omega arith) (omega arith)
          (λ k from to. before k to) apart)

  at_full :
      (m : ℕ)
      → ((k : ℕ) → k < m → ((d.inode_table dir).i_block k == 0) ≡ false)
      → Created dir name file_type
          (create_at now dir link name file_type (length name) (all_full m) d)
  unfolding create_at allocate_block get_blocks_count
  at_full m before = elim (Bool-cases (ltb m 12)) [
    | inr all ↦ inl (d, rw (create_at, all) refl)
    | inl more ↦
        elim (allocate_resource_lem d.block_bitmap d.super_block.s_blocks_count sized_blocks) [
          | inl (failed, busy) ↦
              let fits : leb d.super_block.s_blocks_count (length d.block_bitmap) ≡ true =
                ground arith in
              let stop : allocate_block d ≡ exited d enomem =
                rw (allocate_block, failed) (rw fits refl) in
              inl (d, rw (create_at, more, ◌>>=◌, stop) refl)
          | inr (i, b, taking, inside, t) ↦
              let start : allocate_block d ≡ done (zero_block (suc i) (take_block b d)) (suc i) =
                rw (allocate_block, taking) refl in
              elim (init_dir_entry_lem now (suc i * block_size) block_size name file_type short link
                (grown m i b) sized) [
                  | inl failed ↦ inl (
                    grown m i b,
                    rw (create_at, more, ◌>>=◌, start)
                        (bind_exited (λ _. return (suc i * block_size)) failed),
                  )
                  | inr (d2, entering, entered) ↦ inr (
                    d2,
                    suc i * block_size,
                    rw (create_at, more, ◌>>=◌, start)
                        (bind_done (λ _. return (suc i * block_size)) entering),
                    in_new_block m i b (ground arith) before t d2 entered,
                    entered.has_type,
                  )
                ]
        ]
  ]

-- By what was found under the name before: an entry, or none.
abbrev pub CreatedAfter : Option ℕ → ℕ → Name → ℕ → Disk → Result ℕ → Type 0
CreatedAfter (some p) dir name file_type d r = r ≡ exited d eexist
CreatedAfter none dir name file_type d r = Created dir name file_type r

-- On an image where the search for the name returns, the bitmaps have a byte for each inode and each
-- block, and the directory's inode and blocks are in use: where an entry with the name is found,
-- `create_dir_entry` changes nothing and exits with EEXIST. Otherwise it exits with ENOMEM, or it
-- returns an entry of the given file type that `find_entry` then finds under the name in the
-- directory, wherever it was put: in an unused entry, behind another, or in a new block.
pub find_entry-create_dir_entry :
    (now dir link : ℕ) (name : Name) (file_type : ℕ) (d : Disk) (before : Option ℕ)
    → find_entry (d.inode_table dir) (some name) d ≡ done d before
    → d.super_block.s_inodes_count ≤ length d.inode_bitmap
    → d.super_block.s_blocks_count ≤ length d.block_bitmap
    → in_use d.inode_bitmap dir ≡ true
    → BlocksUsed d (d.inode_table dir)
    → CreatedAfter before dir name file_type d (create_dir_entry now dir link name file_type d)
unfolding create_dir_entry get_name_len
find_entry-create_dir_entry now dir link name file_type d (some p) search sized sized_blocks
      in_table used =
    rw (create_dir_entry, ◌>>=◌, search) refl
find_entry-create_dir_entry now dir link name file_type d none search sized sized_blocks in_table
      used =
    let (short, nothing) = find_entry-none d (d.inode_table dir) name search in
    let fits : ltb 255 (length name) ≡ false = ground arith in
    let len : ℕ = get_padded_rec_len (8 + length name) in
    let some_len : 0 < len = omega (arith, get_padded_rec_len_lem (8 + length name)) in
    let start : create_dir_entry now dir link name file_type d
        ≡ create_at now dir link name file_type (length name)
            (place_in_blocks d.entries len (d.inode_table dir).i_block 12 0) d =
      rw (create_dir_entry, ◌>>=◌, search) (rw fits refl) in
    let created : Place → Type 0 = λ place.
      Created dir name file_type (create_at now dir link name file_type (length name) place d) in
    subst (Created dir name file_type) (sym start)
      (elim (places_lem d.entries len (d.inode_table dir).i_block name 12 0 nothing) [
        | inl (p, place, h) ↦
            subst created (sym place)
              (at_unused now dir link name file_type d short nothing sized in_table len p place)
        | inr (inl (p, place, h)) ↦ subst created (sym place) (
            at_behind now dir link name file_type d short nothing sized in_table len p some_len
              place h)
        | inr (inr (m, place, from, to, full, null)) ↦ subst created (sym place) (
            at_full now dir link name file_type d short nothing sized in_table sized_blocks used m
              (λ k h. full k (omega arith) h))
      ])
