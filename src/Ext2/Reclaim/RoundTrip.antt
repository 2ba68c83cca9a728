-- ===== src/Ext2/Reclaim/RoundTrip.antt =====
-- Assignment4: a file that ext2_rm has unlinked for the last time is taken back by ext2_restore.
use csc369_operating_systems.Ext2.Reclaim.Taken.{reclaim_lem, relinked}
use csc369_operating_systems.Ext2.Reclaim.Orders.{
  member_orders, length_orders, IsDistinct-orders, all_orders,
}
use csc369_operating_systems.Ext2.Reclaim.Rotate.{used_member, all_switched}
use csc369_operating_systems.Ext2.Reclaim.{reclaim_inode_and_data_blocks}
use csc369_operating_systems.Ext2.Reclaim.Loops.{pointed}
use csc369_operating_systems.Ext2.Reclaim.Files.{free_data_blocks_lem}
use csc369_operating_systems.Ext2.Alloc.{
  with_bitmap, free_data_blocks, give_inode, free_inode, get_timestamp, unlink_inode,
}
use csc369_operating_systems.Ext2.Reclaim.Lists.{
  member, IsSwitched, set_list, with_blocks, free_list, AllAre, IsDistinct,
}
use csc369_operating_systems.Ext2.Resource.{set_lem, free_lem, free_resource, in_use}
use csc369_operating_systems.Ext2.Reclaim.Blocks.{blocks_taken, blocks_freed}
use csc369_operating_systems.Ext2.Reclaim.Runs.{set_list_lem, free_list_lem, IsRanged}
use csc369_operating_systems.Ext2.Image.{Inode, DirEntry, Disk, done, bind_done}
use csc369_operating_systems.Base.{
  ℕ_discrete, ℕ, suc, ◌-◌, ◌/◌, ◌^◌, ◌<◌, ◌≡◌, refl, sym, ◌∙◌, ap, subst, arith, Bool, true, false,
  Option, some, List, ◌∷◌, ◌++◌, if◌then◌else◌, ◌==◌, ◌||◌, ltb, length, update, inl, inr,
  Bool-cases, update_self,
}

-- The two bitmaps and the four counters of `d2` are those of `d`.
pub record IsRestored (d d2 : Disk) : Type 0 where
  pub same_inode_bits : (j : ℕ) → in_use d2.inode_bitmap j ≡ in_use d.inode_bitmap j
  pub same_block_bits : (j : ℕ) → in_use d2.block_bitmap j ≡ in_use d.block_bitmap j
  pub same_free_inodes : d2.super_block.s_free_inodes_count ≡ d.super_block.s_free_inodes_count
  pub same_group_inodes : d2.group_desc.bg_free_inodes_count ≡ d.group_desc.bg_free_inodes_count
  pub same_free_blocks : d2.super_block.s_free_blocks_count ≡ d.super_block.s_free_blocks_count
  pub same_group_blocks : d2.group_desc.bg_free_blocks_count ≡ d.group_desc.bg_free_blocks_count

-- An inode with one link, whose blocks are in use and all different.
pub record IsLastLink (d : Disk) (i : ℕ) : Type 0 where
  pub ranged : IsRanged d
  pub inode_range : d.super_block.s_free_inodes_count < 2 ^ 32
  pub group_inode_range : d.group_desc.bg_free_inodes_count < 2 ^ 16
  pub inside : i / 8 < length d.inode_bitmap
  pub used : in_use d.inode_bitmap i ≡ true
  pub one_link : (d.inode_table i).i_links_count ≡ 1
  pub distinct : IsDistinct (blocks_freed d.pointers (d.inode_table i))
  pub blocks_used : AllAre true d.block_bitmap (blocks_freed d.pointers (d.inode_table i))

-- The inode without its last link, at the time of its deletion.
abbrev unlinked : ℕ → Inode → Inode
unlinked now node = record node {
  i_links_count = node.i_links_count - 1;
  i_dtime = get_timestamp now;
}

abbrev deleted : ℕ → ℕ → Disk → Disk
deleted now i d =
    let node : Inode = d.inode_table i in
    record d {
      inode_table =
          update (update d.inode_table i (record node { i_links_count = node.i_links_count - 1 })) i
            (unlinked now node);
    }

unlink_lem :
    (now i : ℕ) (d d2 : Disk) (ibm : List ℕ)
    → (d.inode_table i).i_links_count ≡ 1
    → free_list (blocks_freed d.pointers (d.inode_table i)) (deleted now i d) ≡ done d2 tt
    → free_resource d2.inode_bitmap (suc i) ≡ some ibm
    → unlink_inode now (suc i) d ≡ done (give_inode ibm d2) tt
unfolding unlink_inode free_inode blocks_freed
unlink_lem now i d d2 ibm one_link run freeing =
    let node : Inode = d.inode_table i in
    let has_link : (node.i_links_count == 0) ≡ false = ground arith in
    let was_last : (node.i_links_count - 1 == 0) ≡ true = ground arith in
    let blocks_done : free_data_blocks (record node { i_links_count = node.i_links_count - 1 })
          (deleted now i d)
        ≡ done d2 tt =
      free_data_blocks_lem (record node { i_links_count = node.i_links_count - 1 })
        (deleted now i d) d2 run in
    rw has_link (
      rw was_last (
        bind_done (λ _. free_inode (suc i)) blocks_done
        ∙ ap (λ (x : Option (List ℕ)). with_bitmap give_inode x d2) freeing))

-- The blocks of an inode are told by its pointers.
taken_blocks :
    (pointers : ℕ → ℕ → ℕ) (a b : Inode)
    → a.i_block ≡ b.i_block
    → blocks_taken pointers a ≡ blocks_taken pointers b
unfolding blocks_taken
taken_blocks pointers a b same =
    ap
      (λ (f : ℕ → ℕ).
        let early : Bool = ltb (length (pointed f 12 0)) 12 || f 12 == 0 in
        if early
        then pointed f 12 0
        else pointed f 12 0 ++ (f 12 ∷ pointed (pointers (f 12)) 256 0))
      same

-- Bits that were high, cleared and set again.
bits_back :
    (freed taken a b c : List ℕ)
    → IsSwitched false freed a b
    → IsSwitched true taken b c
    → ((x : ℕ) → member x freed ≡ member x taken)
    → AllAre true a freed
    → (j : ℕ) → in_use c j ≡ in_use a j
bits_back freed taken a b c s t same all j = elim (Bool-cases (member (suc j) freed)) [
  | inl listed ↦
      let again : member (suc j) taken ≡ true = sym (same (suc j)) ∙ listed in
      t.switched j ∙ rw again (sym (used_member true a freed j all listed))
  | inr other ↦
      let again : member (suc j) taken ≡ false = sym (same (suc j)) ∙ other in
      t.switched j ∙ rw again (s.switched j ∙ rw other refl)
]

-- A bit that was high, cleared and set again, as the other bits do not change.
inode_bit_back :
    (i : ℕ) (a b c : List ℕ)
    → in_use a i ≡ true
    → ((j : ℕ) → in_use b j ≡ (if i == j then false else in_use a j))
    → ((j : ℕ) → in_use c j ≡ (if i == j then true else in_use b j))
    → (j : ℕ) → in_use c j ≡ in_use a j
inode_bit_back i a b c used cleared set_again j = elim (ℕ_discrete i j) [
  | yes here ↦
      set_again j ∙ ground (arith, here) ∙ sym (subst (λ (x : ℕ). in_use a x ≡ true) here used)
  | no other ↦ ground (arith, set_again j, cleared j)
]

-- For an inode with one link, in use, whose blocks, direct and indirect, are in use and all different,
-- and counters of their widths: `unlink_inode` frees the inode and its blocks and changes no directory
-- entry, and `reclaim_inode_and_data_blocks`, whatever the directory entries are then, returns 0 and
-- leaves the bitmaps and the counters as they were before, and the inode with one link, no deletion
-- time and all else as it was.
pub reclaim-unlink_inode :
    (now i : ℕ) (d : Disk) (entries : ℕ → DirEntry)
    → IsLastLink d i
    → (d1 : Disk) × (d2 : Disk) × (unlink_inode now (suc i) d ≡ done d1 tt)
      × (d1.entries ≡ d.entries)
      × (in_use d1.inode_bitmap i ≡ false)
      × AllAre false d1.block_bitmap (blocks_taken d.pointers (d.inode_table i))
      × (reclaim_inode_and_data_blocks (suc i) (record d1 { entries = entries }) ≡ done d2 0)
      × (d2.entries ≡ entries)
      × IsRestored d d2
      × (d2.inode_table i ≡ record (d.inode_table i) { i_links_count = 1; i_dtime = 0 })
reclaim-unlink_inode now i d entries h =
    let node : Inode = d.inode_table i in
    let freed : List ℕ = blocks_freed d.pointers node in
    let taken : List ℕ = blocks_taken d.pointers node in
    let da : Disk = deleted now i d in
    let ra : IsRanged da = record {
      super_range = h.ranged.super_range;
      group_range = h.ranged.group_range;
    } in
    let (b, c1, c2, run, s, (f1, m1, e1), (f2, m2, e2)) =
      free_list_lem freed da ra h.distinct h.blocks_used in
    let db : Disk = with_blocks da b c1 c2 in
    let (ibm, freeing, size, changed) = free_lem d.inode_bitmap i h.inside in
    let d1 : Disk = give_inode ibm db in
    let at : d1.inode_table i ≡ unlinked now node =
      update_self (update d.inode_table i (record node { i_links_count = node.i_links_count - 1 }))
        i (unlinked now node) in
    let all_freed : AllAre false b freed =
      all_switched true false freed d.block_bitmap b freed s (λ x e. e) h.blocks_used in
    let all_taken : AllAre false b taken = all_orders d.pointers node false b all_freed in
    let same : blocks_taken d.pointers (d1.inode_table i) ≡ taken =
      taken_blocks d.pointers (d1.inode_table i) node (ap (λ (x : Inode). x.i_block) at) in
    let inside1 : i / 8 < length ibm = omega (arith, size, h.inside) in
    let is_free : in_use ibm i ≡ false = ground (arith, changed i) in
    let d1e : Disk = record d1 { entries = entries } in
    let (ibm2, setting, size2, changed2) = set_lem ibm i inside1 in
    let dc : Disk = relinked ibm2 i d1e in
    let rc : IsRanged dc = record { super_range = m1; group_range = m2 } in
    let (b2, c3, c4, run2, s2, (f3, m3, e3), (f4, m4, e4)) =
      set_list_lem taken dc rc (IsDistinct-orders d.pointers node h.distinct) all_taken in
    let d2 : Disk = with_blocks dc b2 c3 c4 in
    let lengths = length_orders d.pointers node in
    (
      d1,
      d2,
      unlink_lem now i d db ibm h.one_link run freeing,
      refl,
      is_free,
      all_taken,
      reclaim_lem d1e d2 i ibm2 inside1 is_free setting
          (subst (AllAre false b) (sym same) all_taken)
          (subst (λ (x : List ℕ). set_list x dc ≡ done d2 tt) (sym same) run2),
      refl,
      record {
        same_inode_bits = inode_bit_back i d.inode_bitmap ibm ibm2 h.used changed changed2;
        same_block_bits = λ j.
            bits_back freed taken d.block_bitmap b b2 s s2 (member_orders d.pointers node)
              h.blocks_used j;
        same_free_inodes = omega (arith, h.inode_range);
        same_group_inodes = omega (arith, h.group_inode_range);
        same_free_blocks = omega (arith, e1, e3, lengths, f1, f3);
        same_group_blocks = omega (arith, e2, e4, lengths, f2, f4);
      },
      update_self d1.inode_table i (record (d1.inode_table i) { i_links_count = 1; i_dtime = 0 })
          ∙ ap (λ (x : Inode). record x { i_links_count = 1; i_dtime = 0 }) at,
    )
