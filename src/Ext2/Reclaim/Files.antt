-- ===== src/Ext2/Reclaim/Files.antt =====
-- Assignment4: `free_data_blocks` frees the blocks of a file, and `reclaim_inode_and_data_blocks` takes
-- them back.
use csc369_operating_systems.Ext2.Reclaim.Rotate.{all_append}
use csc369_operating_systems.Ext2.Reclaim.Checks.{indirect_free_lem, ended_early, direct_free_lem}
use csc369_operating_systems.Ext2.Alloc.Steps.{is_block_in_use_lem, is_inode_in_use_lem}
use csc369_operating_systems.Ext2.Resource.{in_use}
use csc369_operating_systems.Ext2.Reclaim.{
  direct_free, indirect_free, is_inode_and_data_blocks_free,
}
use csc369_operating_systems.Ext2.Reclaim.Loops.{pointed, free_indirect_lem, free_direct_lem}
use csc369_operating_systems.Ext2.Reclaim.Lists.{AllAre, free_list}
use csc369_operating_systems.Ext2.Reclaim.Blocks.{
  blocks_taken, free_list_append, indirect_list, is_plain, behind_direct, direct_list, blocks_freed,
}
use csc369_operating_systems.Ext2.Alloc.{
  is_block_in_use, free_block, free_data_blocks, free_indirect,
}
use csc369_operating_systems.Ext2.Image.{
  bind_inv, Inode, Disk, done, Program, ◌>>=◌, ◌>>◌, return, reading, bind_done,
}
use csc369_operating_systems.Base.{
  ℕ, suc, ◌+◌, ◌/◌, ◌<◌, ◌≡◌, refl, sym, ◌∙◌, ap, subst, arith, Bool, true, false, Option, none,
  some, List, [], ◌∷◌, ◌++◌, if◌then◌else◌, ◌==◌, length, inl, inr, Bool-cases,
}

last_freed : (p : ℕ) (d d2 : Disk) → free_list (p ∷ []) d ≡ done d2 tt → free_block p d ≡ done d2 tt
unfolding free_list
last_freed p d d2 e =
    let (d1, u, one, rest) = bind_inv (λ _. return tt) (free_block p) e in one ∙ rest

-- What `free_data_blocks` does behind the direct blocks.
abbrev free_rest : Inode → ℕ → Program (Unit {0})
free_rest node n = reading (λ d. d.pointers (node.i_block n)) >>= λ pos.
    if node.i_block n == 0
    then return tt
    else (free_indirect pos 256 0 >> free_block (node.i_block n))

pub free_data_blocks_lem :
    (node : Inode) (d d2 : Disk)
    → free_list (blocks_freed d.pointers node) d ≡ done d2 tt
    → free_data_blocks node d ≡ done d2 tt
unfolding free_data_blocks blocks_freed
free_data_blocks_lem node d d2 e =
    let direct : List ℕ = direct_list node in
    let (at_plain, at_full) = behind_direct node in
    elim (Bool-cases (is_plain node)) [
      | inl plain ↦
          let list : blocks_freed d.pointers node ≡ direct = rw plain refl in
          let run : free_list direct d ≡ done d2 tt =
            subst (λ (x : List ℕ). free_list x d ≡ done d2 tt) list e in
          let null : (node.i_block (0 + length direct) == 0) ≡ true =
            ground (arith, at_plain plain) in
          bind_done (free_rest node) (free_direct_lem node.i_block 12 0 d d2 run) ∙ rw null refl
      | inr more ↦
          let ib : ℕ = node.i_block 12 in
          let indirect : List ℕ = indirect_list d.pointers node in
          let list : blocks_freed d.pointers node ≡ direct ++ (indirect ++ (ib ∷ [])) =
            rw more refl in
          let run : free_list (direct ++ (indirect ++ (ib ∷ []))) d ≡ done d2 tt =
            subst (λ (x : List ℕ). free_list x d ≡ done d2 tt) list e in
          let (d1, first, rest, same) = free_list_append direct (indirect ++ (ib ∷ [])) d d2 run in
          let (d3, second, last, same3) = free_list_append indirect (ib ∷ []) d1 d2 rest in
          let present : (ib == 0) ≡ false = ground (arith, more) in
          let looped : free_indirect (d1.pointers ib) 256 0 d1 ≡ done d3 tt =
            free_indirect_lem (d1.pointers ib) 256 0 d1
            ∙ ap (λ (x : ℕ → ℕ → ℕ). free_list (pointed (x ib) 256 0) d1) same
            ∙ second in
          let tail : free_rest node 12 d1 ≡ done d2 tt =
            rw present (bind_done (λ _. free_block ib) looped ∙ last_freed ib d3 d2 last) in
          bind_done (free_rest node) (free_direct_lem node.i_block 12 0 d d1 first)
          ∙ subst (λ (n : ℕ). free_rest node n d1 ≡ done d2 tt) (sym (at_full more)) tail
    ]

-- What is behind the check, and what the check does behind the direct blocks.
abbrev check_rest : Inode → Option Bool → Program Bool
check_rest node direct = elim direct [
  | some answer ↦ return answer
  | none ↦
      if node.i_block 12 == 0
      then return true
      else (is_block_in_use (node.i_block 12) >>= λ used.
          reading (λ d. d.pointers (node.i_block 12)) >>= λ pos.
          if used then return false else indirect_free pos 256 0)
]

pub check_lem :
    (d : Disk) (i : ℕ)
    → i / 8 < length d.inode_bitmap
    → in_use d.inode_bitmap i ≡ false
    → AllAre false d.block_bitmap (blocks_taken d.pointers (d.inode_table i))
    → is_inode_and_data_blocks_free (suc i) d ≡ done d true
unfolding is_inode_and_data_blocks_free blocks_taken AllAre
check_lem d i inside free all =
    let node : Inode = d.inode_table i in
    let direct : List ℕ = direct_list node in
    let start : is_inode_and_data_blocks_free (suc i) d
        ≡ (direct_free node.i_block 12 0 >>= check_rest node) d =
      rw (is_inode_and_data_blocks_free, ◌>>=◌, is_inode_in_use_lem d i inside) (rw free refl) in
    elim (Bool-cases (is_plain node)) [
      | inl plain ↦
          let list : blocks_taken d.pointers node ≡ direct = rw plain refl in
          let loop =
            direct_free_lem node.i_block 12 0 d (subst (AllAre false d.block_bitmap) list all) in
          start ∙ bind_done (check_rest node) loop ∙ elim (Bool-cases (ended_early 12 direct)) [
            | inl early ↦ rw early refl
            | inr late ↦
                let null : (node.i_block 12 == 0) ≡ true = ground (arith, plain, late) in
                rw late (rw null refl)
          ]
      | inr more ↦
          let ib : ℕ = node.i_block 12 in
          let indirect : List ℕ = indirect_list d.pointers node in
          let list : blocks_taken d.pointers node ≡ direct ++ (ib ∷ indirect) = rw more refl in
          let (all_direct, ((j, number, within, bit), all_indirect)) =
            all_append false d.block_bitmap direct (ib ∷ indirect)
              (subst (AllAre false d.block_bitmap) list all) in
          let loop = direct_free_lem node.i_block 12 0 d all_direct in
          let late : ended_early 12 direct ≡ false = ground (arith, more) in
          let present : (ib == 0) ≡ false = ground (arith, more) in
          let free_ib : is_block_in_use ib d ≡ done d false =
            ap (λ (x : ℕ). is_block_in_use x d) number
            ∙ is_block_in_use_lem d j within
            ∙ ap (λ (x : Bool). done d x) bit in
          start
          ∙ bind_done (check_rest node) loop
          ∙ rw late (
              rw present (
                bind_done
                  (λ used. reading (λ e. e.pointers ib) >>= λ pos.
                    if used then return false else indirect_free pos 256 0)
                  free_ib
                ∙ indirect_free_lem (d.pointers ib) 256 0 d all_indirect))
    ]
