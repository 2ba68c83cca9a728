-- ===== src/Ext2/Directory/Found.antt =====
-- Assignment4/ext2_utils.c: a new entry is found in its directory.
use csc369_operating_systems.Ext2.Directory.Blocks.{
  block_walk, found_later, found_block, blocks_step,
}
use csc369_operating_systems.Ext2.Directory.Places.{
  found_in_place, place_not_lost, full_not_at, IsAt,
}
use csc369_operating_systems.Ext2.Directory.{
  find_in_block, is_named, behind, unused, block_fuel, Place, all_full, found, absent,
  find_in_blocks, place_in_blocks,
}
use csc369_operating_systems.Ext2.Directory.Insert.{
  absent_step, pos_le_of_absent, absent_or_found, IsInserted,
}
use csc369_operating_systems.Ext2.Names.{Name}
use csc369_operating_systems.Ext2.Image.{DirEntry, block_size}
use csc369_operating_systems.Base.{
  ℕ_discrete, ℕ, zero, suc, ◌+◌, ◌*◌, ◌/◌, ◌≤◌, ◌<◌, ◌≡◌, ◌≢◌, refl, sym, ◌∙◌, subst, arith, true,
  false, ◌==◌, update, inl, inr, Bool-cases,
}

module _ (entries entries2 : ℕ → DirEntry) (name : Name) (p q : ℕ)
    (ins : IsInserted entries entries2 name p q) (len : ℕ) (i_block : ℕ → ℕ) where
  -- In a place among the entries of the directory.
  pub found_in_blocks :
      (left n : ℕ)
      → find_in_blocks entries name i_block left n ≡ absent
      → IsAt (place_in_blocks entries len i_block left n) p
      → find_in_blocks entries2 name i_block left n ≡ found q
  unfolding place_in_blocks
  found_in_blocks zero n e place = full_not_at place
  found_in_blocks (suc left) n e place = elim (Bool-cases (i_block n == 0)) [
    | inl null ↦
        let is_full : place_in_blocks entries len i_block (suc left) n ≡ all_full n =
          rw (place_in_blocks, null) refl in
        full_not_at (subst (λ (x : Place). IsAt x p) is_full place)
    | inr block ↦
        let (walked, later) = blocks_step entries name i_block left n e block in
        let start : ℕ = i_block n * block_size in
        let here : (Place) → Type 0 = λ r. IsAt r p in
        elim (place_not_lost entries len n name block_fuel start (start + block_size) walked) [
          | inl (r, at, fits) ↦
              let whole : place_in_blocks entries len i_block (suc left) n ≡ unused r =
                rw (place_in_blocks, block, at) refl in
              found_block entries2 name i_block left n block (
                found_in_place entries entries2 name p q ins (start + block_size) len n block_fuel
                  start walked (subst here (sym at) (subst here whole place)))
          | inr (inl (r, at, fits)) ↦
              let whole : place_in_blocks entries len i_block (suc left) n ≡ behind r =
                rw (place_in_blocks, block, at) refl in
              found_block entries2 name i_block left n block (
                found_in_place entries entries2 name p q ins (start + block_size) len n block_fuel
                  start walked (subst here (sym at) (subst here whole place)))
          | inr (inr is_full) ↦
              let further : place_in_blocks entries len i_block (suc left) n
                  ≡ place_in_blocks entries len i_block left (n + 1) =
                rw (place_in_blocks, block, is_full) refl in
              let rest = found_in_blocks left (n + 1) later (subst here further place) in
              elim (absent_or_found entries entries2 name p q ins (start + block_size) block_fuel
                start walked) [
                  | inl nothing ↦ found_later entries2 name i_block left n block nothing rest
                  | inr there ↦ found_block entries2 name i_block left n block there
                ]
        ]
  ]

-- In a new block `b`, behind full ones.
module _ (entries entries2 : ℕ → DirEntry) (name : Name) (b : ℕ)
    (is_new : is_named name (entries2 (b * block_size)) ≡ true)
    (outside : (pos : ℕ) → pos / block_size ≢ b → entries2 pos ≡ entries pos) where
  -- A walk within another block.
  same_walk :
      (c fuel pos : ℕ)
      → c ≢ b
      → c * block_size ≤ pos
      → find_in_block entries name fuel pos (c * block_size + block_size) ≡ absent
      → find_in_block entries2 name fuel pos (c * block_size + block_size) ≡ absent
  unfolding find_in_block
  same_walk c zero pos apart from e = cc
  same_walk c (suc fuel) pos apart from e = elim (Bool-cases (pos == c * block_size + block_size)) [
    | inl at_end ↦ rw (find_in_block, at_end) refl
    | inr before ↦
        let to = pos_le_of_absent entries name (suc fuel) pos (c * block_size + block_size) e in
        let (other, rest) =
          absent_step entries name fuel pos (c * block_size + block_size) e before in
        let within : pos / block_size ≡ c = ground arith in
        let same : entries2 pos ≡ entries pos = outside pos (λ h. apart (sym within ∙ h)) in
        rw (find_in_block, before, same, other)
          (same_walk c fuel (pos + (entries pos).rec_len) apart (omega arith) rest)
  ]

  new_block : b ≢ 0 → block_walk entries2 name b ≡ found (b * block_size)
  unfolding find_in_block
  new_block present =
      let inside : (b * block_size == b * block_size + block_size) ≡ false = ground arith in
      rw (find_in_block, inside, is_new) refl

  pub found_in_new_block :
      (i_block : ℕ → ℕ) (m left n : ℕ)
      → b ≢ 0
      → find_in_blocks entries name i_block left n ≡ absent
      → n ≤ m
      → m < n + left
      → ((k : ℕ) → n ≤ k → k < m → (i_block k == 0) ≡ false)
      → ((k : ℕ) → n ≤ k → k < m → i_block k ≢ b)
      → find_in_blocks entries2 name (update i_block m b) left n ≡ found (b * block_size)
  found_in_new_block i_block m zero n present e from to before other = absurd (omega arith)
  found_in_new_block i_block m (suc left) n present e from to before other = elim (ℕ_discrete m n) [
    | yes same ↦
        let at : update i_block m b n ≡ b = ground arith in
        let block : (update i_block m b n == 0) ≡ false = ground arith in
        found_block entries2 name (update i_block m b) left n block (
          subst (λ (x : ℕ). block_walk entries2 name x ≡ found (b * block_size)) (sym at)
            (new_block present))
    | no later ↦
        let block = before n (omega arith) (omega arith) in
        let (walked, rest) = blocks_step entries name i_block left n e block in
        let at : update i_block m b n ≡ i_block n = ground arith in
        found_later entries2 name (update i_block m b) left n
          (subst (λ (x : ℕ). (x == 0) ≡ false) (sym at) block)
          (subst (λ (x : ℕ). block_walk entries2 name x ≡ absent) (sym at)
            (same_walk (i_block n) block_fuel (i_block n * block_size)
              (other n (omega arith) (omega arith)) (omega arith) walked))
          (found_in_new_block i_block m left (n + 1) present rest (omega arith) (omega arith)
            (λ k low high. before k (omega arith) high) (λ k low high. other k (omega arith) high))
  ]
