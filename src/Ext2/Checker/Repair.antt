-- ===== src/Ext2/Checker/Repair.antt =====
-- Assignment4/ext2_checker.c: `fix_data_block_allocation` marks the blocks of an inode, all but the
-- one that the last pointer of a full indirect block points to.
use csc369_operating_systems.Ext2.Checker.DataBlocks.{
  IsMarked-still, IsKept-trans, IsWithin-still, fix_block_lem, fix_pointed_lem, IsKept,
  fix_block_marked, fix_pointed_marked, IsMarked, IsWithin,
}
use csc369_operating_systems.Ext2.Checker.{fix_pointed, fix_block, fix_data_block_allocation}
use csc369_operating_systems.Ext2.Image.{
  Inode, Disk, done, Program, ◌>>=◌, return, reading, bind_done,
}
use csc369_operating_systems.Base.{
  ℕ_discrete, ℕ, suc, ◌+◌, ◌<◌, ◌≡◌, ◌≢◌, refl, sym, ◌∙◌, ap, subst, arith, if◌then◌else◌, ◌==◌,
  inl, inr, Bool-cases,
}

-- What holds of the pointers of an inode that the checker reads.
abbrev pub Pointed : (Disk → ℕ → Type 0) → Disk → Inode → Type 0
Pointed P d node =
    ((k : ℕ) → k < 13 → P d (node.i_block k))
    × (node.i_block 12 ≢ 0 → (k : ℕ) → k < 255 → P d (d.pointers (node.i_block 12) k))

rest_of : Inode → ℕ → Program ℕ
rest_of node direct = if node.i_block 12 == 0 then return direct else do
  itself ← fix_block (node.i_block 12)
  position ← reading (λ d. d.pointers (node.i_block 12))
  indirect ← fix_pointed position 255 0
  return (direct + itself + indirect)

module _ (d : Disk) (i : ℕ) where
  abbrev node : Inode
  node = d.inode_table i

  -- On an image where they are all marked there is nothing to do.
  marked_lem :
      Pointed IsWithin d node
      → Pointed IsMarked d node
      → fix_data_block_allocation (suc i) d ≡ done d 0
  unfolding fix_data_block_allocation rest_of
  marked_lem (h, h12) (m, m12) =
      bind_done (rest_of node) (
        fix_pointed_marked node.i_block 12 0 d (λ k from to. h k (omega arith))
          (λ k from to. m k (omega arith)))
      ∙ elim (Bool-cases (node.i_block 12 == 0)) [
        | inl null ↦ rw null refl
        | inr block ↦
            let present : node.i_block 12 ≢ 0 = ground arith in
            rw block (
              bind_done
                (λ itself. reading (λ d1. d1.pointers (node.i_block 12)) >>= λ position.
                  fix_pointed position 255 0 >>= λ indirect. return (0 + itself + indirect))
                (fix_block_marked (node.i_block 12) d (h 12 (omega arith)) (m 12 (omega arith)))
              ∙ bind_done (λ indirect. return (0 + 0 + indirect))
                  (fix_pointed_marked (d.pointers (node.i_block 12)) 255 0 d
                    (λ k from to. h12 present k (omega arith))
                    (λ k from to. m12 present k (omega arith))))
      ]

-- The first run, and what it leaves.
abbrev Repaired : Disk → ℕ → Type 0
Repaired d i =
    (d2 : Disk) × (n : ℕ) × (fix_data_block_allocation (suc i) d ≡ done d2 n)
    × Pointed IsMarked d2 (d.inode_table i)
    × IsKept d d2

repair_lem : (d : Disk) (i : ℕ) → Pointed IsWithin d (d.inode_table i) → Repaired d i
unfolding fix_data_block_allocation rest_of
repair_lem d i (h, h12) =
    let node : Inode = d.inode_table i in
    let ib : ℕ = node.i_block 12 in
    let (d1, a, direct, marked, kept) =
      fix_pointed_lem node.i_block 12 0 d (λ k from to. h k (omega arith)) in
    let (d2, b, itself, marked_ib, kept2) =
      fix_block_lem ib d1 (IsWithin-still kept ib (h 12 (omega arith))) in
    elim (Bool-cases (ib == 0)) [
      | inl null ↦
          let zero_ib : ib ≡ 0 = ground arith in
          (
            d1,
            a,
            bind_done (rest_of node) direct ∙ rw null refl,
            (
              (λ k small. elim (ℕ_discrete 12 k) [
                | yes last ↦ inl (subst (λ (x : ℕ). node.i_block x ≡ 0) last zero_ib)
                | no other ↦ marked k (omega arith) (omega arith)
              ]),
              (λ present. absurd (present zero_ib)),
            ),
            kept,
          )
      | inr block ↦
          let present : ib ≢ 0 = ground arith in
          let both : IsKept d d2 = IsKept-trans kept kept2 in
          let ps : ℕ → ℕ = d2.pointers ib in
          let same : (k : ℕ) → ps k ≡ d.pointers ib k =
            λ k. ap (λ (f : ℕ → ℕ → ℕ). f ib k) both.same_pointers in
          let (d3, c, indirect, marked3, kept3) = fix_pointed_lem ps 255 0 d2 (λ k from to.
            IsWithin-still both (ps k)
              (subst (IsWithin d) (sym (same k)) (h12 present k (omega arith)))) in
          (
            d3,
            a + b + c,
            bind_done (rest_of node) direct
                ∙ rw block (
                    bind_done
                      (λ x. reading (λ e. e.pointers ib) >>= λ position.
                        fix_pointed position 255 0 >>= λ y. return (a + x + y))
                      itself
                    ∙ bind_done (λ y. return (a + b + y)) indirect),
            (
              (λ k small. elim (ℕ_discrete 12 k) [
                | yes last ↦
                    subst (λ (x : ℕ). IsMarked d3 (node.i_block x)) last
                      (IsMarked-still kept3 ib marked_ib)
                | no other ↦
                    IsMarked-still kept3 (node.i_block k)
                      (IsMarked-still kept2 (node.i_block k) (marked k (omega arith) (omega arith)))
              ]),
              (λ here k small.
                  subst (IsMarked d3)
                    (same k
                      ∙ sym
                          (ap (λ (f : ℕ → ℕ → ℕ). f ib k) (IsKept-trans both kept3).same_pointers))
                    (marked3 k (omega arith) (omega arith))),
            ),
            IsKept-trans both kept3,
          )
    ]

IsWithin-kept :
    {d d2 : Disk} (node : Inode) → IsKept d d2 → Pointed IsWithin d node → Pointed IsWithin d2 node
IsWithin-kept {d = d} {d2 = d2} node kept (h, h12) = (
  (λ k small. IsWithin-still kept (node.i_block k) (h k small)),
  (λ present k small.
      let same : d2.pointers (node.i_block 12) k ≡ d.pointers (node.i_block 12) k =
        ap (λ (f : ℕ → ℕ → ℕ). f (node.i_block 12) k) kept.same_pointers in
      IsWithin-still kept (d2.pointers (node.i_block 12) k)
        (subst (IsWithin d) (sym same) (h12 present k small))),
)

-- For an inode whose block pointers, null ones included, point inside the bitmap: the repair of its
-- blocks returns, with the blocks of its 13 pointers and, behind an indirect block, of the first 255
-- pointers in use. It changes no inode and no pointer and frees no block, and when it is made again
-- it changes nothing and returns 0.
pub fix_data_block_allocation-IsMarked :
    (d : Disk) (i : ℕ)
    → Pointed IsWithin d (d.inode_table i)
    → (d2 : Disk) × (n : ℕ) × (fix_data_block_allocation (suc i) d ≡ done d2 n)
      × Pointed IsMarked d2 (d.inode_table i)
      × IsKept d d2
      × (fix_data_block_allocation (suc i) d2 ≡ done d2 0)
fix_data_block_allocation-IsMarked d i h =
    let (d2, n, run, marked, kept) = repair_lem d i h in
    let same : d.inode_table i ≡ d2.inode_table i =
      sym (ap (λ (f : ℕ → Inode). f i) kept.same_inodes) in
    (
      d2,
      n,
      run,
      marked,
      kept,
      marked_lem d2 i (subst (Pointed IsWithin d2) same (IsWithin-kept (d.inode_table i) kept h))
          (subst (Pointed IsMarked d2) same marked),
    )
