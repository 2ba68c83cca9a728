-- ===== src/Ext2/Remove/Seek.antt =====
-- Assignment4/ext2_rm.c: `delete_file_entry` looks for the entry that `find_entry` finds.
use csc369_operating_systems.Ext2.Names.{get_name_len, Name}
use csc369_operating_systems.Ext2.Remove.{
  delete_at, seek_in_blocks, delete_file_entry, seek_in_block, no_entry, entry_after, Deletion,
}
use csc369_operating_systems.Ext2.Image.{
  DirEntry, Disk, Result, done, exited, block_size, enoent, eisdir, ft_dir,
}
use csc369_operating_systems.Base.{
  ℕ, zero, suc, ◌+◌, ◌*◌, ◌≡◌, ◌≢◌, refl, sym, ◌∙◌, ap, subst, arith, false, Option, none, some,
  ◌==◌, ◌&&◌, ltb, length, ◌⊎◌, inl, inr, Bool-cases,
}
use csc369_operating_systems.Ext2.Directory.{
  search_result, block_fuel, find_entry, find_in_blocks, is_named, find_in_block, absent, found,
  endless, Search,
}

-- What a walk by the lengths of the entries comes to from `start` on.
pub data Reaches (entries : ℕ → DirEntry) (start : ℕ) : ℕ → Type 0 where
  at_start : Reaches entries start start
  past : {q : ℕ} → Reaches entries start q → Reaches entries start (q + (entries q).rec_len)

-- The entry before `pos` in the block that begins at `start`: none for the first entry of the block,
-- and else one that the walk through the block comes to and that ends where `pos` begins.
abbrev pub IsBefore : (ℕ → DirEntry) → ℕ → Option ℕ → ℕ → Type 0
IsBefore entries start none pos = pos ≡ start
IsBefore entries start (some prev) pos =
    Reaches entries start prev × (prev + (entries prev).rec_len ≡ pos)

IsBefore-Reaches :
    (entries : ℕ → DirEntry) (start : ℕ) (prev : Option ℕ) (pos : ℕ)
    → IsBefore entries start prev pos
    → Reaches entries start pos
IsBefore-Reaches entries start none pos first = subst (Reaches entries start) (sym first) at_start
IsBefore-Reaches entries start (some prev) pos (walk, ends) =
    subst (Reaches entries start) ends (past walk)

-- The same in one of the blocks of a directory.
abbrev pub IsBeforeInDir : (ℕ → DirEntry) → (ℕ → ℕ) → Option ℕ → ℕ → Type 0
IsBeforeInDir entries i_block prev pos =
    (n : ℕ) × (i_block n ≢ 0) × IsBefore entries (i_block n * block_size) prev pos

-- What the search for a deletion comes to, by what `find_entry` finds.
abbrev Sought : (ℕ → DirEntry) → (Option ℕ → ℕ → Type 0) → Search → Deletion → Type 0
Sought entries before (found p) r = (prev : Option ℕ) × (r ≡ entry_after prev p) × before prev p
Sought entries before absent r = r ≡ no_entry
Sought entries before endless r = Unit {0}

module _ (entries : ℕ → DirEntry) (name : Name) (start block_end : ℕ) where
  -- An entry without length, unless it is the one, stops the walk.
  no_length :
      (fuel pos : ℕ)
      → (pos == block_end) ≡ false
      → is_named name (entries pos) ≡ false
      → (entries pos).rec_len ≡ 0
      → find_in_block entries name fuel pos block_end ≡ endless
  unfolding find_in_block
  no_length zero pos before other null = refl
  no_length (suc fuel) pos before other null =
      let same : pos + (entries pos).rec_len ≡ pos = omega (arith, null) in
      rw (find_in_block, before, other)
        (subst (λ (x : ℕ). find_in_block entries name fuel x block_end ≡ endless) (sym same)
          (no_length fuel pos before other null))

  seek_lem :
      (prev : Option ℕ) (fuel pos : ℕ)
      → IsBefore entries start prev pos
      → Sought entries
          (IsBefore entries start)
          (find_in_block entries name fuel pos block_end)
          (seek_in_block entries name prev fuel pos block_end)
  unfolding find_in_block seek_in_block
  seek_lem prev zero pos ends = tt
  seek_lem prev (suc fuel) pos ends = elim (Bool-cases (pos == block_end)) [
    | inl at_end ↦ rw at_end refl
    | inr before ↦ elim (Bool-cases (is_named name (entries pos))) [
      | inl named ↦ rw before (rw named (prev, refl, ends))
      | inr other ↦ elim (Bool-cases ((entries pos).inode == 0 && (entries pos).rec_len == 0)) [
        | inl blank ↦
            let null : (entries pos).rec_len ≡ 0 = ground arith in
            let stuck : find_in_block entries name (suc fuel) pos block_end ≡ endless =
              no_length (suc fuel) pos before other null in
            subst
              (λ (x : Search).
                Sought entries (IsBefore entries start) x
                  (seek_in_block entries name prev (suc fuel) pos block_end))
              (sym stuck) tt
        | inr further ↦ rw before (
            rw other (
              rw further (
                seek_lem (some pos) fuel (pos + (entries pos).rec_len)
                  (IsBefore-Reaches entries start prev pos ends, refl))))
      ]
    ]
  ]

Search-cases : (s : Search) → ((p : ℕ) × (s ≡ found p)) ⊎ ((s ≡ absent) ⊎ (s ≡ endless))
Search-cases (found p) = inl (p, refl)
Search-cases absent = inr (inl refl)
Search-cases endless = inr (inr refl)

seek_blocks_lem :
    (entries : ℕ → DirEntry) (name : Name) (i_block : ℕ → ℕ) (left n : ℕ)
    → Sought entries
        (IsBeforeInDir entries i_block)
        (find_in_blocks entries name i_block left n)
        (seek_in_blocks entries name i_block left n)
unfolding find_in_blocks seek_in_blocks
seek_blocks_lem entries name i_block zero n = refl
seek_blocks_lem entries name i_block (suc left) n = elim (Bool-cases (i_block n == 0)) [
  | inl null ↦ rw null refl
  | inr block ↦
      let start : ℕ = i_block n * block_size in
      let walk : Search = find_in_block entries name block_fuel start (start + block_size) in
      let seek : Deletion = seek_in_block entries name none block_fuel start (start + block_size) in
      let here : Sought entries (IsBefore entries start) walk seek =
        seek_lem entries name start (start + block_size) none block_fuel start refl in
      elim (Search-cases walk) [
        | inl (p, e) ↦
            let (prev, at, ends) =
              subst (λ (x : Search). Sought entries (IsBefore entries start) x seek) e here in
            rw block (rw (e, at) (prev, refl, (n, (λ null. ground (arith, null)), ends)))
        | inr (inl e) ↦
            let at : seek ≡ no_entry =
              subst (λ (x : Search). Sought entries (IsBefore entries start) x seek) e here in
            rw block (rw (e, at) (seek_blocks_lem entries name i_block left (n + 1)))
        | inr (inr e) ↦ rw block (rw e tt)
      ]
]

-- By what `find_entry` finds: a directory, a file, or nothing.
abbrev pub DeletedAfter : (ℕ → ℕ) → Option ℕ → ℕ → Disk → Result ℕ → Type 0
DeletedAfter i_block none now d r = r ≡ done d enoent
DeletedAfter i_block (some p) now d r =
    (((d.entries p).file_type ≡ ft_dir) × (r ≡ done d eisdir))
    ⊎ (((d.entries p).file_type ≢ ft_dir)
        × ((prev : Option ℕ) × (r ≡ delete_at now (entry_after prev p) d)
            × IsBeforeInDir d.entries i_block prev p))

deleted_lem :
    (i_block : ℕ → ℕ) (now : ℕ) (d : Disk) (walk : Search) (seek : Deletion) (before : Option ℕ)
    → Sought d.entries (IsBeforeInDir d.entries i_block) walk seek
    → search_result walk d ≡ done d before
    → DeletedAfter i_block before now d (delete_at now seek d)
unfolding delete_at
deleted_lem i_block now d (found p) seek none sought e = cc
deleted_lem i_block now d (found p) seek (some q) (prev, at, ends) e =
    let same : p ≡ q = cc in
    let deletion : delete_at now seek d ≡ delete_at now (entry_after prev p) d =
      ap (λ (s : Deletion). delete_at now s d) at in
    subst (λ (x : ℕ). DeletedAfter i_block (some x) now d (delete_at now seek d)) same
      (elim (Bool-cases ((d.entries p).file_type == ft_dir)) [
        | inl dir ↦ inl (ground arith, deletion ∙ rw dir refl)
        | inr file ↦ inr (ground arith, (prev, deletion, ends))
      ])
deleted_lem i_block now d absent seek none at e = ap (λ (s : Deletion). delete_at now s d) at
deleted_lem i_block now d absent seek (some q) at e = cc
deleted_lem i_block now d endless seek before sought e = cc

-- Where `find_entry` returns for a name in a directory: `delete_file_entry` returns ENOENT and changes
-- nothing if no entry was found, and EISDIR if the entry that was found is a directory's. Otherwise it
-- deletes this entry with the entry before it in its block: one that the walk through the block comes
-- to and that ends where this one begins, or none, where this one is the first of a block.
pub delete_file_entry-find_entry :
    (now i : ℕ) (name : Name) (d : Disk) (before : Option ℕ)
    → find_entry (d.inode_table i) (some name) d ≡ done d before
    → DeletedAfter (d.inode_table i).i_block before now d (delete_file_entry now (suc i) name d)
unfolding delete_file_entry find_entry get_name_len delete_at
delete_file_entry-find_entry now i name d before search =
    elim (Bool-cases (ltb 255 (length name))) [
      | inl long ↦
          let no : ◌≡◌ {A = Result (Option ℕ)} (exited d 1) (done d before) = rw long at search in
          cc
      | inr fits ↦
          let walk : Search = find_in_blocks d.entries name (d.inode_table i).i_block 12 0 in
          let seek : Deletion = seek_in_blocks d.entries name (d.inode_table i).i_block 12 0 in
          let result : search_result walk d ≡ done d before = rw fits at search in
          let start : delete_file_entry now (suc i) name d ≡ delete_at now seek d = rw fits refl in
          subst (DeletedAfter (d.inode_table i).i_block before now d) (sym start) (
            deleted_lem (d.inode_table i).i_block now d walk seek before
              (seek_blocks_lem d.entries name (d.inode_table i).i_block 12 0) result)
    ]
