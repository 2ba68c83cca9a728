-- ===== src/Ext2/Reclaim/Blocks.antt =====
-- Assignment4: all blocks of a file, freed by ext2_utils.c and taken back by ext2_restore.c.
use csc369_operating_systems.Ext2.Resource.{is_resource_in_use, set_resource_in_use, free_resource}
use csc369_operating_systems.Ext2.Reclaim.Lists.{free_list, set_list}
use csc369_operating_systems.Ext2.Reclaim.Checks.{ended_early}
use csc369_operating_systems.Ext2.Alloc.{
  take_block, use_test, give_block, is_block_in_use, set_block_in_use, with_bitmap, free_block,
}
use csc369_operating_systems.Ext2.Reclaim.Loops.{pointed, pointed-IsStop}
use csc369_operating_systems.Ext2.Image.{
  bind_done, bind_inv, Inode, Disk, Result, done, ◌>>=◌, exit,
}
use csc369_operating_systems.Base.{
  ℕ, ◌+◌, ◌≡◌, refl, sym, ◌∙◌, ap, arith, Bool, true, false, Option, none, some, List, [], ◌∷◌,
  ◌++◌, if◌then◌else◌, ◌==◌, ◌||◌, length, inl, inr,
}

image_same : {x y : Disk} → ◌≡◌ {A = Result (Unit {0})} (done x tt) (done y tt) → x ≡ y
image_same h = cc

bitmap_keeps :
    (f : List ℕ → Disk → Disk) (r : Option (List ℕ)) (d d1 : Disk)
    → ((b : List ℕ) → (f b d).pointers ≡ d.pointers)
    → with_bitmap f r d ≡ done d1 tt
    → d1.pointers ≡ d.pointers
bitmap_keeps f none d d1 keeps e = cc
bitmap_keeps f (some b) d d1 keeps e = ap (λ (x : Disk). x.pointers) (image_same (sym e)) ∙ keeps b

free_block_keeps : (p : ℕ) (d d1 : Disk) → free_block p d ≡ done d1 tt → d1.pointers ≡ d.pointers
unfolding free_block
free_block_keeps p d d1 e =
    bitmap_keeps give_block (free_resource d.block_bitmap p) d d1 (λ b. refl) e

set_block_keeps :
    (p : ℕ) (d d1 : Disk) → set_block_in_use p d ≡ done d1 tt → d1.pointers ≡ d.pointers
unfolding set_block_in_use is_block_in_use
set_block_keeps p d d1 e = tested (is_resource_in_use d.block_bitmap p) e
  where
    tested :
        (r : Option Bool)
        → (use_test r >>= λ used. if used then exit 1 else λ d0.
              with_bitmap take_block (set_resource_in_use d0.block_bitmap p) d0)
            d
          ≡ done d1 tt
        → d1.pointers ≡ d.pointers
    tested none h = cc
    tested (some true) h = cc
    tested (some false) h =
        bitmap_keeps take_block (set_resource_in_use d.block_bitmap p) d d1 (λ b. refl) h

-- A run over two lists in turn; the pointers stay.
pub free_list_append :
    (a b : List ℕ) (d d2 : Disk)
    → free_list (a ++ b) d ≡ done d2 tt
    → (d1 : Disk) × (free_list a d ≡ done d1 tt)
      × (free_list b d1 ≡ done d2 tt)
      × (d1.pointers ≡ d.pointers)
unfolding free_list
free_list_append [] b d d2 e = (d, refl, e, refl)
free_list_append (p ∷ a) b d d2 e =
    let (d1, u, one, rest) = bind_inv (λ _. free_list (a ++ b)) (free_block p) e in
    let (d3, first, second, same) = free_list_append a b d1 d2 rest in
    (d3, bind_done (λ _. free_list a) one ∙ first, second, same ∙ free_block_keeps p d d1 one)

pub set_list_append :
    (a b : List ℕ) (d d2 : Disk)
    → set_list (a ++ b) d ≡ done d2 tt
    → (d1 : Disk) × (set_list a d ≡ done d1 tt)
      × (set_list b d1 ≡ done d2 tt)
      × (d1.pointers ≡ d.pointers)
unfolding set_list
set_list_append [] b d d2 e = (d, refl, e, refl)
set_list_append (p ∷ a) b d d2 e =
    let (d1, u, one, rest) = bind_inv (λ _. set_list (a ++ b)) (set_block_in_use p) e in
    let (d3, first, second, same) = set_list_append a b d1 d2 rest in
    (d3, bind_done (λ _. set_list a) one ∙ first, second, same ∙ set_block_keeps p d d1 one)

-- The blocks of a file in the order in which they are freed, and in which they are taken back.
abbrev pub direct_list : Inode → List ℕ
direct_list node = pointed node.i_block 12 0

abbrev pub is_plain : Inode → Bool
is_plain node = ended_early 12 (direct_list node) || node.i_block 12 == 0

abbrev pub indirect_list : (ℕ → ℕ → ℕ) → Inode → List ℕ
indirect_list pointers node = pointed (pointers (node.i_block 12)) 256 0

unfoldable pub blocks_freed : (ℕ → ℕ → ℕ) → Inode → List ℕ
blocks_freed pointers node =
    if is_plain node
    then direct_list node
    else direct_list node ++ (indirect_list pointers node ++ (node.i_block 12 ∷ []))

unfoldable pub blocks_taken : (ℕ → ℕ → ℕ) → Inode → List ℕ
blocks_taken pointers node =
    if is_plain node
    then direct_list node
    else direct_list node ++ (node.i_block 12 ∷ indirect_list pointers node)

-- The pointer behind the direct blocks.
pub behind_direct :
    (node : Inode)
    → (is_plain node ≡ true → node.i_block (0 + length (direct_list node)) ≡ 0)
      × (is_plain node ≡ false → 0 + length (direct_list node) ≡ 12)
behind_direct node =
    let (le, end) = pointed-IsStop node.i_block 12 0 in
    elim end [
      | inl full ↦
          let at : 0 + length (direct_list node) ≡ 12 = omega (arith, full) in
          ((λ plain. ap node.i_block at ∙ ground (arith, full, plain)), (λ other. at))
      | inr (short, null) ↦ ((λ plain. null), (λ other. absurd (ground (arith, short, other))))
    ]
