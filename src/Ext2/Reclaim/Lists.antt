-- ===== src/Ext2/Reclaim/Lists.antt =====
-- Assignment4: lists of blocks that are freed and taken back, and the bitmap and counters after it.
use csc369_operating_systems.Ext2.Alloc.{set_block_in_use, free_block}
use csc369_operating_systems.Ext2.Resource.{in_use}
use csc369_operating_systems.Ext2.Image.{Disk, Program, ◌>>◌, return}
use csc369_operating_systems.Base.{
  ℕ, suc, ◌/◌, ◌<◌, ◌≡◌, ◌∙◌, arith, Bool, false, List, [], ◌∷◌, if◌then◌else◌, ◌==◌, ◌||◌, length,
}

abbrev pub member : ℕ → List ℕ → Bool
member x [] = false
member x (p ∷ ps) = (p == x) || member x ps

-- No block is listed twice.
unfoldable pub IsDistinct : List ℕ → Type 0
IsDistinct [] = Unit {0}
IsDistinct (p ∷ ps) = (member p ps ≡ false) × IsDistinct ps

-- Each is the number of a block of the bitmap whose bit is `value`.
unfoldable pub AllAre : Bool → List ℕ → List ℕ → Type 0
AllAre value bitmap [] = Unit {0}
AllAre value bitmap (p ∷ ps) =
    ((j : ℕ) × (p ≡ suc j) × (j / 8 < length bitmap) × (in_use bitmap j ≡ value))
    × AllAre value bitmap ps

unfoldable pub free_list : List ℕ → Program (Unit {0})
free_list [] = return tt
free_list (p ∷ ps) = do free_block p; free_list ps

unfoldable pub set_list : List ℕ → Program (Unit {0})
set_list [] = return tt
set_list (p ∷ ps) = do set_block_in_use p; set_list ps

-- The image with another block bitmap and other counts of free blocks.
abbrev pub with_blocks : Disk → List ℕ → ℕ → ℕ → Disk
with_blocks d b by_super by_group = record d {
  block_bitmap = b;
  super_block = record (d.super_block) { s_free_blocks_count = by_super };
  group_desc = record (d.group_desc) { bg_free_blocks_count = by_group };
}

-- The bits of the listed blocks have become `value`, the others are as they were.
pub record IsSwitched (value : Bool) (ps : List ℕ) (a b : List ℕ) : Type 0 where
  pub same_length : length b ≡ length a
  pub switched : (j : ℕ) → in_use b j ≡ (if member (suc j) ps then value else in_use a j)

-- The blocks that are left, after the first of them has been switched.
pub all_left :
    (old value : Bool) (ps : List ℕ) (a b : List ℕ) (i : ℕ)
    → length b ≡ length a
    → ((j : ℕ) → in_use b j ≡ (if i == j then value else in_use a j))
    → member (suc i) ps ≡ false
    → AllAre old a ps
    → AllAre old b ps
unfolding AllAre
all_left old value [] a b i size changed apart all = tt
all_left old value (p ∷ ps) a b i size changed apart ((j, number, inside, bit), all) =
    let other : (i == j) ≡ false = ground (arith, number, apart) in
    let later : member (suc i) ps ≡ false = ground (arith, apart) in
    (
      (j, number, omega (arith, size, inside), changed j ∙ rw other bit),
      all_left old value ps a b i size changed later all,
    )

pub IsSwitched-first :
    (value : Bool) (i : ℕ) (ps : List ℕ) (a b c : List ℕ)
    → length b ≡ length a
    → ((j : ℕ) → in_use b j ≡ (if i == j then value else in_use a j))
    → IsSwitched value ps b c
    → IsSwitched value (suc i ∷ ps) a c
IsSwitched-first value i ps a b c size changed s = record {
  same_length = s.same_length ∙ size;
  switched = λ j. ground (arith, s.switched j, changed j);
}
