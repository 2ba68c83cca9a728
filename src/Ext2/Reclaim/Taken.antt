-- ===== src/Ext2/Reclaim/Taken.antt =====
-- Assignment4/ext2_restore.c: `reclaim_inode_and_data_blocks` takes the inode and the listed blocks.
use csc369_operating_systems.Ext2.Reclaim.Loops.{pointed, reclaim_indirect_lem}
use csc369_operating_systems.Ext2.Alloc.Steps.{set_inode_in_use_done}
use csc369_operating_systems.Ext2.Reclaim.Files.{check_lem}
use csc369_operating_systems.Ext2.Resource.{set_resource_in_use, in_use}
use csc369_operating_systems.Ext2.Reclaim.Checks.{ended_early, reclaim_direct_lem}
use csc369_operating_systems.Ext2.Reclaim.Lists.{AllAre, set_list}
use csc369_operating_systems.Ext2.Reclaim.{
  reclaim_inode_and_data_blocks, reclaim_direct, reclaim_indirect,
}
use csc369_operating_systems.Ext2.Reclaim.Blocks.{
  set_list_append, indirect_list, is_plain, direct_list, blocks_taken,
}
use csc369_operating_systems.Ext2.Alloc.{take_inode, set_block_in_use}
use csc369_operating_systems.Ext2.Image.{
  Inode, Disk, done, Program, ◌>>=◌, ◌>>◌, return, reading, bind_inv, bind_done,
}
use csc369_operating_systems.Base.{
  ℕ, suc, ◌/◌, ◌<◌, ◌≡◌, refl, ◌∙◌, ap, subst, arith, Bool, true, false, some, List, [], ◌∷◌, ◌++◌,
  if◌then◌else◌, ◌==◌, ◌||◌, length, update, inl, inr, Bool-cases,
}

abbrev take_rest : Inode → Bool → Program ℕ
take_rest node at_null =
    if at_null || node.i_block 12 == 0
    then return 0
    else (set_block_in_use (node.i_block 12)
        >> (reading (λ d. d.pointers (node.i_block 12)) >>= λ pos.
            reclaim_indirect pos 256 0 >> return 0))

last_set :
    (p : ℕ) (d d2 : Disk) → set_list (p ∷ []) d ≡ done d2 tt → set_block_in_use p d ≡ done d2 tt
unfolding set_list
last_set p d d2 e =
    let (d1, u, one, rest) = bind_inv (λ _. return tt) (set_block_in_use p) e in one ∙ rest

blocks_lem :
    (node : Inode) (d d2 : Disk)
    → set_list (blocks_taken d.pointers node) d ≡ done d2 tt
    → (reclaim_direct node.i_block 12 0 >>= take_rest node) d ≡ done d2 0
unfolding blocks_taken set_list
blocks_lem node d d2 e =
    let direct : List ℕ = direct_list node in
    let ib : ℕ = node.i_block 12 in
    elim (Bool-cases (is_plain node)) [
      | inl plain ↦
          let list : blocks_taken d.pointers node ≡ direct = rw plain refl in
          let run : set_list direct d ≡ done d2 tt =
            subst (λ (x : List ℕ). set_list x d ≡ done d2 tt) list e in
          bind_done (take_rest node) (reclaim_direct_lem node.i_block 12 0 d d2 run)
          ∙ elim (Bool-cases (ended_early 12 direct)) [
            | inl early ↦ rw early refl
            | inr late ↦
                let null : (ib == 0) ≡ true = ground (arith, plain, late) in rw late (rw null refl)
          ]
      | inr more ↦
          let indirect : List ℕ = indirect_list d.pointers node in
          let list : blocks_taken d.pointers node ≡ direct ++ (ib ∷ indirect) = rw more refl in
          let run : set_list (direct ++ (ib ∷ indirect)) d ≡ done d2 tt =
            subst (λ (x : List ℕ). set_list x d ≡ done d2 tt) list e in
          let (d1, first, rest, same) = set_list_append direct (ib ∷ indirect) d d2 run in
          let (d3, single, last, same3) = set_list_append (ib ∷ []) indirect d1 d2 rest in
          let late : ended_early 12 direct ≡ false = ground (arith, more) in
          let present : (ib == 0) ≡ false = ground (arith, more) in
          let looped : reclaim_indirect (d3.pointers ib) 256 0 d3 ≡ done d2 tt =
            reclaim_indirect_lem (d3.pointers ib) 256 0 d3
            ∙ ap (λ (x : ℕ → ℕ → ℕ). set_list (pointed (x ib) 256 0) d3) (same3 ∙ same)
            ∙ last in
          bind_done (take_rest node) (reclaim_direct_lem node.i_block 12 0 d d1 first)
          ∙ rw late (
              rw present (
                bind_done
                  (λ _. reading (λ e1. e1.pointers ib) >>= λ pos.
                    reclaim_indirect pos 256 0 >> return 0)
                  (last_set ib d1 d3 single)
                ∙ bind_done (λ _. return 0) looped))
    ]

-- The image with the inode marked, and linked once.
abbrev pub relinked : List ℕ → ℕ → Disk → Disk
relinked b i d = record (take_inode b d) {
  inode_table =
      update d.inode_table i (record (d.inode_table i) { i_links_count = 1; i_dtime = 0 });
}

pub reclaim_lem :
    (d d2 : Disk) (i : ℕ) (b : List ℕ)
    → i / 8 < length d.inode_bitmap
    → in_use d.inode_bitmap i ≡ false
    → set_resource_in_use d.inode_bitmap (suc i) ≡ some b
    → AllAre false d.block_bitmap (blocks_taken d.pointers (d.inode_table i))
    → set_list (blocks_taken d.pointers (d.inode_table i)) (relinked b i d) ≡ done d2 tt
    → reclaim_inode_and_data_blocks (suc i) d ≡ done d2 0
unfolding reclaim_inode_and_data_blocks
reclaim_lem d d2 i b inside free setting all run =
    let checked = check_lem d i inside free all in
    let marked = set_inode_in_use_done d i inside free setting in
    rw (reclaim_inode_and_data_blocks, ◌>>=◌, checked)
      (rw (◌>>◌, ◌>>=◌, marked) (blocks_lem (d.inode_table i) (relinked b i d) d2 run))
