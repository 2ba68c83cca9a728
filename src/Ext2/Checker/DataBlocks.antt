-- ===== src/Ext2/Checker/DataBlocks.antt =====
-- Assignment4/ext2_checker.c: the blocks that an inode points to are marked as in use.
use csc369_operating_systems.Ext2.Alloc.{take_block}
use csc369_operating_systems.Ext2.Alloc.Steps.{set_block_in_use_done, is_block_in_use_lem}
use csc369_operating_systems.Ext2.Resource.{set_lem, in_use}
use csc369_operating_systems.Ext2.Checker.{fix_pointed, fix_block}
use csc369_operating_systems.Ext2.Image.{bind_done, Disk, done, ◌>>=◌, ◌>>◌, return}
use csc369_operating_systems.Base.{
  ℕ_discrete, ℕ, zero, suc, ◌+◌, ◌/◌, ◌≤◌, ◌<◌, ◌≡◌, refl, ◌∙◌, subst, arith, true, false, ◌==◌,
  length, ◌⊎◌, inl, inr, Bool-cases,
}

-- The index of a block's number.
abbrev pub below : ℕ → ℕ
below zero = 0
below (suc i) = i

-- A pointer that is null, or whose block is in use.
abbrev pub IsMarked : Disk → ℕ → Type 0
IsMarked d p = (p ≡ 0) ⊎ (in_use d.block_bitmap (below p) ≡ true)

abbrev pub IsWithin : Disk → ℕ → Type 0
IsWithin d p = (below p) / 8 < length d.block_bitmap

not_null : (i : ℕ) → (suc i == 0) ≡ false
not_null i = ground arith

-- Blocks that were in use stay so, and only the bitmap and the counters change.
pub record IsKept (d d2 : Disk) : Type 0 where
  pub same_inodes : d2.inode_table ≡ d.inode_table
  pub same_pointers : d2.pointers ≡ d.pointers
  pub same_size : length d2.block_bitmap ≡ length d.block_bitmap
  pub still_used : (j : ℕ) → in_use d.block_bitmap j ≡ true → in_use d2.block_bitmap j ≡ true

IsKept-refl : (d : Disk) → IsKept d d
IsKept-refl d = record {
  same_inodes = refl;
  same_pointers = refl;
  same_size = refl;
  still_used = λ j h. h;
}

pub IsKept-trans : {d1 d2 d3 : Disk} → IsKept d1 d2 → IsKept d2 d3 → IsKept d1 d3
IsKept-trans a b = record {
  same_inodes = b.same_inodes ∙ a.same_inodes;
  same_pointers = b.same_pointers ∙ a.same_pointers;
  same_size = b.same_size ∙ a.same_size;
  still_used = λ j h. b.still_used j (a.still_used j h);
}

pub IsMarked-still : {d d2 : Disk} → IsKept d d2 → (p : ℕ) → IsMarked d p → IsMarked d2 p
IsMarked-still k p (inl null) = inl null
IsMarked-still k p (inr used) = inr (k.still_used (below p) used)

pub IsWithin-still : {d d2 : Disk} → IsKept d d2 → (p : ℕ) → IsWithin d p → IsWithin d2 p
IsWithin-still k p h = omega (arith, h, k.same_size)

pub fix_block_lem :
    (p : ℕ) (d : Disk)
    → IsWithin d p
    → (d2 : Disk) × (n : ℕ) × (fix_block p d ≡ done d2 n) × IsMarked d2 p × IsKept d d2
unfolding fix_block
fix_block_lem zero d h = (d, 0, refl, inl refl, IsKept-refl d)
fix_block_lem (suc i) d h = elim (Bool-cases (in_use d.block_bitmap i)) [
  | inl used ↦ (
    d,
    0,
    rw (fix_block, not_null i, ◌>>=◌, is_block_in_use_lem d i h, used) refl,
    inr used,
    IsKept-refl d,
  )
  | inr free ↦
      let (b, setting, size, taken) = set_lem d.block_bitmap i h in
      (
        take_block b d,
        1,
        rw
            (
              fix_block,
              not_null i,
              ◌>>=◌,
              is_block_in_use_lem d i h,
              free,
              ◌>>◌,
              set_block_in_use_done d i h free setting,
            )
            refl,
        inr (taken i ∙ ground arith),
        record {
          same_inodes = refl;
          same_pointers = refl;
          same_size = size;
          still_used = λ j used. taken j ∙ ground arith;
        },
      )
]

pub fix_block_marked : (p : ℕ) (d : Disk) → IsWithin d p → IsMarked d p → fix_block p d ≡ done d 0
unfolding fix_block
fix_block_marked zero d h m = refl
fix_block_marked (suc i) d h (inl null) = absurd (omega arith)
fix_block_marked (suc i) d h (inr used) =
    rw (fix_block, not_null i, ◌>>=◌, is_block_in_use_lem d i h, used) refl

-- What holds at the places from `n` up to `end`.
abbrev Between : (ℕ → Type 0) → ℕ → ℕ → Type 0
Between P n end = (k : ℕ) → n ≤ k → k < end → P k

first_and_rest : {P : ℕ → Type 0} {n end : ℕ} → P n → Between P (n + 1) end → Between P n end
first_and_rest {P = P} {n = n} first rest k from to = elim (ℕ_discrete n k) [
  | yes same ↦ subst P same first
  | no other ↦ rest k (omega arith) to
]

module _ (ps : ℕ → ℕ) where
  pub fix_pointed_lem :
      (left n : ℕ) (d : Disk)
      → Between (λ k. IsWithin d (ps k)) n (n + left)
      → (d2 : Disk) × (m : ℕ) × (fix_pointed ps left n d ≡ done d2 m)
        × Between (λ k. IsMarked d2 (ps k)) n (n + left)
        × IsKept d d2
  unfolding fix_pointed
  fix_pointed_lem zero n d h = (d, 0, refl, λ k from to. absurd (omega arith), IsKept-refl d)
  fix_pointed_lem (suc left) n d h =
      let (d1, a, one, marked, kept) = fix_block_lem (ps n) d (h n (omega arith) (omega arith)) in
      let (d2, b, others, rest, kept2) =
        fix_pointed_lem left (n + 1) d1
          (λ k from to. IsWithin-still kept (ps k) (h k (omega arith) (omega arith))) in
      (
        d2,
        a + b,
        bind_done (λ x. fix_pointed ps left (n + 1) >>= λ y. return (x + y)) one
            ∙ bind_done (λ y. return (a + y)) others,
        first_and_rest {P = λ k. IsMarked d2 (ps k)} (IsMarked-still kept2 (ps n) marked)
            (λ k from to. rest k from (omega arith)),
        IsKept-trans kept kept2,
      )

  pub fix_pointed_marked :
      (left n : ℕ) (d : Disk)
      → Between (λ k. IsWithin d (ps k)) n (n + left)
      → Between (λ k. IsMarked d (ps k)) n (n + left)
      → fix_pointed ps left n d ≡ done d 0
  unfolding fix_pointed
  fix_pointed_marked zero n d h m = refl
  fix_pointed_marked (suc left) n d h m =
      bind_done (λ x. fix_pointed ps left (n + 1) >>= λ y. return (x + y))
        (fix_block_marked (ps n) d (h n (omega arith) (omega arith))
          (m n (omega arith) (omega arith)))
      ∙ bind_done (λ y. return (0 + y))
          (fix_pointed_marked left (n + 1) d (λ k from to. h k (omega arith) (omega arith))
            (λ k from to. m k (omega arith) (omega arith)))
