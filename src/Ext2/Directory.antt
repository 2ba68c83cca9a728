-- ===== src/Ext2/Directory.antt =====
-- Assignment4/ext2_utils.c: directory entries that are looked up and created. A pointer to an entry
-- is its byte address in the image, a pointer to an inode its index in the table.
pub mod Lookup
pub mod Create
pub mod Enter
pub mod Found
pub mod Blocks
pub mod Places
pub mod Insert
use csc369_operating_systems.Ext2.Resource.{get_padded_rec_len, get_actual_dir_entry_len}
use csc369_operating_systems.Ext2.Names.{strncmp_equal, Name, get_name_len}
use csc369_operating_systems.Ext2.Alloc.{allocate_block, allocate_inode}
use csc369_operating_systems.Base.{
  has_bit-clear_bit, has_bit-set_bit, length-set, get_or_of_get_elem?, get_or-set_ne,
  get_or-set_self, lt_of_get_elem?, ℕ_discrete, dec_lt, dec_le, get_elem?_of_lt, ℕ, zero, suc, ◌+◌,
  ◌-◌, ◌*◌, ◌/◌, ◌%◌, ◌^◌, ◌≤◌, ◌<◌, ◌≡◌, ◌≢◌, refl, sym, ◌∙◌, ap, subst, fun_ext, arith, Bool,
  true, false, Option, none, some, List, [], ◌∷◌, ◌++◌, if◌then◌else◌, ◌==◌, ◌&&◌, ◌||◌, not, ltb,
  leb, has_bit, set_bit, clear_bit, get_elem?, set, get_or, length, take, drop, update, ◌⊎◌, inl,
  inr, ◌↔◌, Bool-cases, Option-cases, tests,
}
use csc369_operating_systems.Ext2.Image.{
  SuperBlock, GroupDesc, Inode, DirEntry, Disk, Result, done, exited, undefined, Program, ◌>>=◌,
  ◌>>◌, return, exit, crash, reading, writing, inode_index, put_inode, put_entry, block_size,
  enoent, enomem, eexist, eisdir, increment,
}

-- What a walk over entries comes to; `endless` is a walk that misses the end of its block.
pub data Search : Type 0 where
  found : ℕ → Search
  absent endless : Search

-- The test that finds an entry: in use, and with the name.
abbrev pub is_named : Name → DirEntry → Bool
is_named name entry =
    not (entry.inode == 0)
    && length name == entry.name_len
    && strncmp_equal (length name) name entry.name

-- The walk over one block, with fuel: every entry has a byte at least.
abbrev pub block_fuel : ℕ
block_fuel = 1025

unfoldable pub find_in_block : (ℕ → DirEntry) → Name → ℕ → ℕ → ℕ → Search
find_in_block entries name zero pos block_end = endless
find_in_block entries name (suc fuel) pos block_end =
    let rest = find_in_block entries name fuel (pos + (entries pos).rec_len) block_end in
    if pos == block_end then absent else if is_named name (entries pos) then found pos else rest

-- The loop over the blocks, `left` of them from `n` on.
unfoldable pub find_in_blocks : (ℕ → DirEntry) → Name → (ℕ → ℕ) → ℕ → ℕ → Search
find_in_blocks entries name i_block zero n = absent
find_in_blocks entries name i_block (suc left) n =
    let rest = find_in_blocks entries name i_block left (n + 1) in
    let block_start : ℕ = i_block n * block_size in
    if i_block n == 0
    then absent
    else elim (find_in_block entries name block_fuel block_start (block_start + block_size)) [
      | found pos ↦ found pos
      | absent ↦ rest
      | endless ↦ endless
    ]

abbrev pub search_result : Search → Program (Option ℕ)
search_result (found pos) = return (some pos)
search_result absent = return none
search_result endless = crash

unfoldable pub find_entry : Inode → Option Name → Program (Option ℕ)
find_entry dir_inode none = return none
find_entry dir_inode (some name) = do
  _ ← get_name_len name
  search ← reading (λ d. find_in_blocks d.entries name dir_inode.i_block 12 0)
  search_result search

unfoldable pub find_entry_in_inode : ℕ → Option Name → Program (Option ℕ)
find_entry_in_inode inode_num name = do
  i ← inode_index inode_num
  inode ← reading (λ d. d.inode_table i)
  find_entry inode name

unfoldable pub init_dir_entry : ℕ → ℕ → ℕ → ℕ → ℕ → ℕ → Name → Program (Unit {0})
init_dir_entry now entry link rec_len name_len file_type name = do
  inode_num ← if link == 0 then allocate_inode now file_type else return link
  i ← inode_index inode_num
  node ← reading (λ d. d.inode_table i)
  put_inode i (record node { i_links_count = increment 16 node.i_links_count })
  put_entry entry (record {
    inode = inode_num;
    rec_len = rec_len % 2 ^ 16;
    name_len = name_len % 2 ^ 8;
    file_type = file_type;
    name = take name_len name;
  })

-- Where `create_dir_entry` puts the entry: in place of an unused one, behind one that is longer than
-- it need be, or, after `n` full blocks, in a new one.
pub data Place : Type 0 where
  unused behind all_full : ℕ → Place
  lost : Place

unfoldable pub place_in_block : (ℕ → DirEntry) → ℕ → ℕ → ℕ → ℕ → ℕ → Place
place_in_block entries len n zero pos block_end = lost
place_in_block entries len n (suc fuel) pos block_end =
    let rest = place_in_block entries len n fuel (pos + (entries pos).rec_len) block_end in
    if pos == block_end
    then all_full n
    else if (entries pos).inode == 0
    then (if leb len (entries pos).rec_len then unused pos else rest)
    else if leb (get_actual_dir_entry_len (entries pos).name_len + len) (entries pos).rec_len
    then behind pos
    else rest

unfoldable pub place_in_blocks : (ℕ → DirEntry) → ℕ → (ℕ → ℕ) → ℕ → ℕ → Place
place_in_blocks entries len i_block zero n = all_full n
place_in_blocks entries len i_block (suc left) n =
    let rest = place_in_blocks entries len i_block left (n + 1) in
    let block_start : ℕ = i_block n * block_size in
    if i_block n == 0
    then all_full n
    else elim (place_in_block entries len n block_fuel block_start (block_start + block_size)) [
      | unused pos ↦ unused pos
      | behind pos ↦ behind pos
      | all_full _ ↦ rest
      | lost ↦ lost
    ]

-- `(curr * 512 + delta) / 512`
abbrev pub num_disk_blks : ℕ → ℕ → ℕ
num_disk_blks curr delta = (curr * 512 + delta) % 2 ^ 32 / 512

-- The new entry at a place.
unfoldable pub create_at : ℕ → ℕ → ℕ → Name → ℕ → ℕ → Place → Program ℕ
create_at now dir link name file_type name_len (unused pos) = do
  entry ← reading (λ d. d.entries pos)
  init_dir_entry now pos link entry.rec_len name_len file_type name
  return pos
create_at now dir link name file_type name_len (behind pos) = do
  prev ← reading (λ d. d.entries pos)
  let actual_len : ℕ = get_actual_dir_entry_len prev.name_len
  put_entry pos (record prev { rec_len = actual_len })
  init_dir_entry now (pos + actual_len) link (pos + prev.rec_len - (pos + actual_len)) name_len
      file_type name
  return (pos + actual_len)
create_at now dir link name file_type name_len (all_full n) =
    if ltb n 12
    then (do
      block_num ← allocate_block
      inode ← reading (λ d. d.inode_table dir)
      put_inode dir (record inode {
        i_block = update inode.i_block n block_num;
        i_size = (inode.i_size + block_size) % 2 ^ 32;
        i_blocks = num_disk_blks inode.i_blocks block_size;
      })
      init_dir_entry now (block_num * block_size) link block_size name_len file_type name
      return (block_num * block_size))
    else exit enomem
create_at now dir link name file_type name_len lost = crash

unfoldable pub create_dir_entry : ℕ → ℕ → ℕ → Name → ℕ → Program ℕ
create_dir_entry now dir link name file_type = do
  dir_inode ← reading (λ d. d.inode_table dir)
  existing ← find_entry dir_inode (some name)
  elim existing [
    | some entry ↦ exit eexist
    | none ↦ do
      name_len ← get_name_len name
      place ← reading (λ d.
          place_in_blocks d.entries (get_padded_rec_len (8 + name_len)) dir_inode.i_block 12 0)
      create_at now dir link name file_type name_len place
  ]
