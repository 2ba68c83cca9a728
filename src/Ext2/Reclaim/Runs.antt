-- ===== src/Ext2/Reclaim/Runs.antt =====
-- Assignment4: a list of blocks is freed, and taken.
use csc369_operating_systems.Ext2.Alloc.Steps.{set_block_in_use_done}
use csc369_operating_systems.Ext2.Resource.{free_lem, set_lem}
use csc369_operating_systems.Ext2.Alloc.{
  with_bitmap, set_block_in_use, give_block, take_block, free_block,
}
use csc369_operating_systems.Ext2.Reclaim.Lists.{
  IsSwitched-first, all_left, member, IsDistinct, IsSwitched, with_blocks, AllAre, free_list,
  set_list,
}
use csc369_operating_systems.Ext2.Image.{bind_done, Disk, done}
use csc369_operating_systems.Base.{
  ℕ, suc, ◌+◌, ◌%◌, ◌^◌, ◌<◌, ◌≡◌, refl, sym, ◌∙◌, ap, subst, arith, true, false, Option, List, [],
  ◌∷◌, length,
}

-- The counters are of their widths.
pub record IsRanged (d : Disk) : Type 0 where
  pub super_range : d.super_block.s_free_blocks_count < 2 ^ 32
  pub group_range : d.group_desc.bg_free_blocks_count < 2 ^ 16

-- Counters after `n` blocks more are free: `more` of `few`.
abbrev pub IsMore : ℕ → ℕ → ℕ → ℕ → Type 0
IsMore w n few more = (few < 2 ^ w) × (more < 2 ^ w) × (more ≡ (few + n) % 2 ^ w)

abbrev pub Freed : Disk → List ℕ → Type 0
Freed d ps =
    (b : List ℕ) × (c1 : ℕ) × (c2 : ℕ) × (free_list ps d ≡ done (with_blocks d b c1 c2) tt)
    × IsSwitched false ps d.block_bitmap b
    × IsMore 32 (length ps) d.super_block.s_free_blocks_count c1
    × IsMore 16 (length ps) d.group_desc.bg_free_blocks_count c2

pub free_list_lem :
    (ps : List ℕ) (d : Disk)
    → IsRanged d
    → IsDistinct ps
    → AllAre true d.block_bitmap ps
    → Freed d ps
unfolding free_list AllAre IsDistinct free_block
free_list_lem [] d r distinct all = (
  d.block_bitmap,
  d.super_block.s_free_blocks_count,
  d.group_desc.bg_free_blocks_count,
  refl,
  record { same_length = refl; switched = λ j. refl },
  (r.super_range, r.super_range, omega (arith, r.super_range)),
  (r.group_range, r.group_range, omega (arith, r.group_range)),
)
free_list_lem (p ∷ ps) d r (apart, distinct) ((i, number, inside, bit), all) =
    let (b, freeing, size, changed) = free_lem d.block_bitmap i inside in
    let d1 : Disk = give_block b d in
    let one : free_block p d ≡ done d1 tt =
      ap (λ (x : ℕ). free_block x d) number
      ∙ ap (λ (x : Option (List ℕ)). with_bitmap give_block x d) freeing in
    let r1 : IsRanged d1 = record { super_range = omega arith; group_range = omega arith } in
    let gone : member (suc i) ps ≡ false = subst (λ (x : ℕ). member x ps ≡ false) number apart in
    let (c, c1, c2, run, s, (f1, m1, e1), (f2, m2, e2)) =
      free_list_lem ps d1 r1 distinct
        (all_left true false ps d.block_bitmap b i size changed gone all) in
    (
      c,
      c1,
      c2,
      bind_done (λ _. free_list ps) one ∙ run,
      subst (λ (x : ℕ). IsSwitched false (x ∷ ps) d.block_bitmap c) (sym number)
          (IsSwitched-first false i ps d.block_bitmap b c size changed s),
      (r.super_range, m1, omega (arith, e1)),
      (r.group_range, m2, omega (arith, e2)),
    )

abbrev pub Taken : Disk → List ℕ → Type 0
Taken d ps =
    (b : List ℕ) × (c1 : ℕ) × (c2 : ℕ) × (set_list ps d ≡ done (with_blocks d b c1 c2) tt)
    × IsSwitched true ps d.block_bitmap b
    × IsMore 32 (length ps) c1 d.super_block.s_free_blocks_count
    × IsMore 16 (length ps) c2 d.group_desc.bg_free_blocks_count

pub set_list_lem :
    (ps : List ℕ) (d : Disk)
    → IsRanged d
    → IsDistinct ps
    → AllAre false d.block_bitmap ps
    → Taken d ps
unfolding set_list AllAre IsDistinct
set_list_lem [] d r distinct all = (
  d.block_bitmap,
  d.super_block.s_free_blocks_count,
  d.group_desc.bg_free_blocks_count,
  refl,
  record { same_length = refl; switched = λ j. refl },
  (r.super_range, r.super_range, omega (arith, r.super_range)),
  (r.group_range, r.group_range, omega (arith, r.group_range)),
)
set_list_lem (p ∷ ps) d r (apart, distinct) ((i, number, inside, bit), all) =
    let (b, setting, size, changed) = set_lem d.block_bitmap i inside in
    let d1 : Disk = take_block b d in
    let one : set_block_in_use p d ≡ done d1 tt =
      ap (λ (x : ℕ). set_block_in_use x d) number ∙ set_block_in_use_done d i inside bit setting in
    let r1 : IsRanged d1 = record { super_range = omega arith; group_range = omega arith } in
    let gone : member (suc i) ps ≡ false = subst (λ (x : ℕ). member x ps ≡ false) number apart in
    let (c, c1, c2, run, s, (f1, m1, e1), (f2, m2, e2)) =
      set_list_lem ps d1 r1 distinct
        (all_left false true ps d.block_bitmap b i size changed gone all) in
    (
      c,
      c1,
      c2,
      bind_done (λ _. set_list ps) one ∙ run,
      subst (λ (x : ℕ). IsSwitched true (x ∷ ps) d.block_bitmap c) (sym number)
          (IsSwitched-first true i ps d.block_bitmap b c size changed s),
      (f1, r.super_range, omega (arith, e1, r.super_range)),
      (f2, r.group_range, omega (arith, e2, r.group_range)),
    )
