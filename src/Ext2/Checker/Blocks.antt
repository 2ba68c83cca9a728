-- ===== src/Ext2/Checker/Blocks.antt =====
-- Assignment4: the counters of free blocks and the bitmap, in ext2_checker.c and in the operations
-- of ext2_utils.c that allocate, mark and free blocks.
use csc369_operating_systems.Ext2.Resource.{in_use}
use csc369_operating_systems.Ext2.Checker.{count_low, fix_free_blocks_count, abs_difference}
use csc369_operating_systems.Ext2.Checker.Counts.{
  free_count_less, count_low_lem, free_count, free_count_le,
}
use csc369_operating_systems.Ext2.Alloc.{give_block, take_block, get_blocks_count}
use csc369_operating_systems.Ext2.Image.{Disk, done}
use csc369_operating_systems.Base.{
  ℕ_discrete, ℕ, ◌+◌, ◌*◌, ◌%◌, ◌^◌, ◌≤◌, ◌<◌, ◌≡◌, refl, sym, ◌∙◌, ap, subst, arith, true, false,
  some, List, if◌then◌else◌, ◌==◌, length, inl, inr, Bool-cases,
}

-- Both counters say what the checker counts; the counts fit 16 bits.
pub record IsCounted (d : Disk) : Type 0 where
  pub sized : d.super_block.s_blocks_count ≤ length d.block_bitmap
  pub small : d.super_block.s_blocks_count < 2 ^ 13
  pub by_super :
      d.super_block.s_free_blocks_count
      ≡ free_count d.block_bitmap (d.super_block.s_blocks_count * 8)
  pub by_group :
      d.group_desc.bg_free_blocks_count
      ≡ free_count d.block_bitmap (d.super_block.s_blocks_count * 8)

abs_difference_zero :
    (num count : ℕ) → num < 2 ^ 31 → count < 2 ^ 32 → abs_difference num count ≡ 0 → num ≡ count
abs_difference_zero num count h1 h2 e = ground arith

abs_difference_self : (n : ℕ) → abs_difference n n ≡ 0
abs_difference_self n = ground arith

module _ (d : Disk) (sized : d.super_block.s_blocks_count ≤ length d.block_bitmap)
    (small : d.super_block.s_blocks_count < 2 ^ 13) where
  abbrev low : ℕ
  low = free_count d.block_bitmap (d.super_block.s_blocks_count * 8)

  counted : count_low (get_blocks_count d) 0 d.block_bitmap ≡ some low
  unfolding get_blocks_count free_count
  counted =
      let (n, count, sum) =
        count_low_lem d.block_bitmap d.super_block.s_blocks_count 0 (omega arith) in
      count
      ∙ ap some (
          let e : (0 + d.super_block.s_blocks_count) * 8 ≡ d.super_block.s_blocks_count * 8 =
            omega arith in
          ground (arith, sum, ap (free_count d.block_bitmap) e))

  low_small : low < 2 ^ 16
  low_small = omega (arith, small, free_count_le d.block_bitmap (d.super_block.s_blocks_count * 8))

pub checked_IsCounted : (d : Disk) → IsCounted d → fix_free_blocks_count d ≡ done d 0
unfolding fix_free_blocks_count
checked_IsCounted d c =
    let s : abs_difference (low d c.sized c.small) d.super_block.s_free_blocks_count ≡ 0 =
      ap (abs_difference (low d c.sized c.small)) c.by_super
      ∙ abs_difference_self (low d c.sized c.small) in
    let g : abs_difference (low d c.sized c.small) d.group_desc.bg_free_blocks_count ≡ 0 =
      ap (abs_difference (low d c.sized c.small)) c.by_group
      ∙ abs_difference_self (low d c.sized c.small) in
    rw (fix_free_blocks_count, counted d c.sized c.small, s, g) refl

-- The counter that is left: the old one, or the number counted.
settled :
    (num count : ℕ)
    → num < 2 ^ 31
    → count < 2 ^ 32
    → (if abs_difference num count == 0 then count else num) ≡ num
settled num count h1 h2 = elim (Bool-cases (abs_difference num count == 0)) [
  | inl zero_apart ↦ rw zero_apart (sym (abs_difference_zero num count h1 h2 (ground arith)))
  | inr apart ↦ rw apart refl
]

-- For a bitmap with a byte for each of fewer than 8192 blocks, and counters of their widths: the
-- repair of the counters of free blocks leaves both equal to the number of low bits in the bytes it
-- reads and the bitmap as it was, and when it is made again it finds nothing to repair.
pub fix_free_blocks_count-IsCounted :
    (d : Disk)
    → d.super_block.s_blocks_count ≤ length d.block_bitmap
    → d.super_block.s_blocks_count < 2 ^ 13
    → d.super_block.s_free_blocks_count < 2 ^ 32
    → d.group_desc.bg_free_blocks_count < 2 ^ 16
    → (d2 : Disk) × (n : ℕ) × (fix_free_blocks_count d ≡ done d2 n)
      × IsCounted d2
      × (d2.block_bitmap ≡ d.block_bitmap)
      × (fix_free_blocks_count d2 ≡ done d2 0)
unfolding fix_free_blocks_count
fix_free_blocks_count-IsCounted d sized small s_range g_range =
    let num : ℕ = low d sized small in
    let num_small : num < 2 ^ 16 = low_small d sized small in
    let delta_s : ℕ = abs_difference num d.super_block.s_free_blocks_count in
    let delta_g : ℕ = abs_difference num d.group_desc.bg_free_blocks_count in
    let d2 : Disk = record d {
      super_block = record (d.super_block) {
        s_free_blocks_count = if delta_s == 0 then d.super_block.s_free_blocks_count else num;
      };
      group_desc = record (d.group_desc) {
        bg_free_blocks_count =
            if delta_g == 0 then d.group_desc.bg_free_blocks_count else num % 2 ^ 16;
      };
    } in
    let whole : num % 2 ^ 16 ≡ num = omega arith in
    let c : IsCounted d2 = record {
      sized = sized;
      small = small;
      by_super = settled num d.super_block.s_free_blocks_count (omega arith) s_range;
      by_group =
          ap (λ (x : ℕ). if delta_g == 0 then d.group_desc.bg_free_blocks_count else x) whole
          ∙ settled num d.group_desc.bg_free_blocks_count (omega arith) (omega arith);
    } in
    (
      d2,
      (delta_s + delta_g) % 2 ^ 32,
      rw (fix_free_blocks_count, counted d sized small) refl,
      c,
      refl,
      checked_IsCounted d2 c,
    )

-- One block less, or one more.
module _ (d : Disk) (c : IsCounted d) (i : ℕ) (b : List ℕ)
    (inside : i < d.super_block.s_blocks_count * 8)
    (same_length : length b ≡ length d.block_bitmap) where
  pub take_block-IsCounted :
      in_use d.block_bitmap i ≡ false
      → ((j : ℕ) → in_use b j ≡ (if i == j then true else in_use d.block_bitmap j))
      → IsCounted (take_block b d)
  take_block-IsCounted free taken =
      let less =
        free_count_less d.block_bitmap b i free taken (d.super_block.s_blocks_count * 8) inside in
      let few = low_small d c.sized c.small in
      record {
        sized = omega (arith, c.sized, same_length);
        small = c.small;
        by_super = omega (arith, less, c.by_super, few);
        by_group = omega (arith, less, c.by_group, few);
      }

  pub give_block-IsCounted :
      in_use d.block_bitmap i ≡ true
      → ((j : ℕ) → in_use b j ≡ (if i == j then false else in_use d.block_bitmap j))
      → IsCounted (give_block b d)
  give_block-IsCounted used freed =
      let now : in_use b i ≡ false = ground (arith, freed i) in
      let back : (j : ℕ) → in_use d.block_bitmap j ≡ (if i == j then true else in_use b j) = λ j.
        elim (ℕ_discrete i j) [
          | yes same ↦ subst (λ (x : ℕ). in_use d.block_bitmap x ≡ true) same used ∙ ground arith
          | no other ↦ ground (arith, freed j)
        ] in
      let more =
        free_count_less b d.block_bitmap i now back (d.super_block.s_blocks_count * 8) inside in
      let few = low_small d c.sized c.small in
      let few_too : free_count b (d.super_block.s_blocks_count * 8) < 2 ^ 16 =
        omega (arith, c.small, free_count_le b (d.super_block.s_blocks_count * 8)) in
      record {
        sized = omega (arith, c.sized, same_length);
        small = c.small;
        by_super = omega (arith, more, c.by_super, few_too);
        by_group = omega (arith, more, c.by_group, few_too);
      }
