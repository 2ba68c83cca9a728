-- ===== src/Ext2/Reclaim/Orders.antt =====
-- Assignment4: the blocks of a file in the order in which they are freed and taken.
use csc369_operating_systems.Ext2.Reclaim.Rotate.{all_rotate, IsDistinct-rotate, member_rotate}
use csc369_operating_systems.Ext2.Reclaim.Lists.{AllAre, member, IsDistinct}
use csc369_operating_systems.Ext2.Reclaim.Blocks.{
  indirect_list, direct_list, is_plain, blocks_taken, blocks_freed,
}
use csc369_operating_systems.Ext2.Image.{Inode}
use csc369_operating_systems.Base.{
  ℕ, ◌+◌, ◌≡◌, refl, ◌∙◌, ap, arith, Bool, List, [], ◌∷◌, ◌++◌, length, inl, inr, Bool-cases,
  length-append,
}

-- The lists have the same members, whatever the order.
module _ (pointers : ℕ → ℕ → ℕ) (node : Inode) where
  pub member_orders :
      (x : ℕ) → member x (blocks_freed pointers node) ≡ member x (blocks_taken pointers node)
  unfolding blocks_freed blocks_taken
  member_orders x = elim (Bool-cases (is_plain node)) [
    | inl plain ↦ rw plain refl
    | inr more ↦
        rw more (member_rotate x (node.i_block 12) (direct_list node) (indirect_list pointers node))
  ]

  pub IsDistinct-orders :
      IsDistinct (blocks_freed pointers node) → IsDistinct (blocks_taken pointers node)
  unfolding blocks_freed blocks_taken
  IsDistinct-orders h = elim (Bool-cases (is_plain node)) [
    | inl plain ↦ rw plain (rw plain at h)
    | inr more ↦ rw more (
        IsDistinct-rotate (node.i_block 12) (direct_list node) (indirect_list pointers node)
          (rw more at h))
  ]

  pub all_orders :
      (value : Bool) (a : List ℕ)
      → AllAre value a (blocks_freed pointers node)
      → AllAre value a (blocks_taken pointers node)
  unfolding blocks_freed blocks_taken
  all_orders value a h = elim (Bool-cases (is_plain node)) [
    | inl plain ↦ rw plain (rw plain at h)
    | inr more ↦ rw more (
        all_rotate value a (node.i_block 12) (direct_list node) (indirect_list pointers node)
          (rw more at h))
  ]

  pub length_orders : length (blocks_freed pointers node) ≡ length (blocks_taken pointers node)
  unfolding blocks_freed blocks_taken
  length_orders = elim (Bool-cases (is_plain node)) [
    | inl plain ↦ rw plain refl
    | inr more ↦ rw more (
        length-append (direct_list node) (indirect_list pointers node ++ (node.i_block 12 ∷ []))
        ∙ ap (λ (x : ℕ). length (direct_list node) + x)
            (length-append (indirect_list pointers node) (node.i_block 12 ∷ []))
        ∙ omega (
          arith,
          length-append (direct_list node) (node.i_block 12 ∷ indirect_list pointers node),
        ))
  ]
