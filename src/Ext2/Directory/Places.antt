-- ===== src/Ext2/Directory/Places.antt =====
-- Assignment4/ext2_utils.c: where `create_dir_entry` puts a new entry, and that the entry is then
-- found there.
use csc369_operating_systems.Ext2.Directory.Insert.{
  found_next, found_here, same_step, absent_step, IsInserted,
}
use csc369_operating_systems.Ext2.Names.{Name}
use csc369_operating_systems.Ext2.Directory.{
  all_full, found, get_actual_dir_entry_len, behind, unused, absent, find_in_block, Place,
  place_in_block,
}
use csc369_operating_systems.Ext2.Image.{DirEntry}
use csc369_operating_systems.Base.{
  ℕ, zero, suc, ◌+◌, ◌≤◌, ◌≡◌, refl, sym, ◌∙◌, subst, arith, true, false, ◌==◌, leb, ◌⊎◌, inl, inr,
  Bool-cases,
}

module _ (entries : ℕ → DirEntry) (len n : ℕ) where
  -- One step of the search for a place.
  pub place_cases :
      (fuel pos block_end : ℕ)
      → (((pos == block_end) ≡ true)
          × (place_in_block entries len n (suc fuel) pos block_end ≡ all_full n))
        ⊎ (((pos == block_end) ≡ false)
            × (((place_in_block entries len n (suc fuel) pos block_end ≡ unused pos)
                  × (len ≤ (entries pos).rec_len))
                ⊎ (((place_in_block entries len n (suc fuel) pos block_end ≡ behind pos)
                      × (get_actual_dir_entry_len (entries pos).name_len + len
                          ≤ (entries pos).rec_len))
                    ⊎ (place_in_block entries len n (suc fuel) pos block_end
                        ≡ place_in_block entries len n fuel
                            (pos + (entries pos).rec_len)
                            block_end))))
  unfolding place_in_block
  place_cases fuel pos block_end = elim (Bool-cases (pos == block_end)) [
    | inl at_end ↦ inl (at_end, rw (place_in_block, at_end) refl)
    | inr before ↦ elim (Bool-cases ((entries pos).inode == 0)) [
      | inl free ↦ elim (Bool-cases (leb len (entries pos).rec_len)) [
        | inl fits ↦ inr (before, inl (rw (place_in_block, before, free, fits) refl, ground arith))
        | inr small ↦ inr (before, inr (inr (rw (place_in_block, before, free, small) refl)))
      ]
      | inr used ↦
          elim (Bool-cases
            (leb (get_actual_dir_entry_len (entries pos).name_len + len) (entries pos).rec_len)) [
              | inl fits ↦
                  inr
                    (before, inr (inl (rw (place_in_block, before, used, fits) refl, ground arith)))
              | inr small ↦ inr (before, inr (inr (rw (place_in_block, before, used, small) refl)))
            ]
    ]
  ]

  -- A walk that ends has a place, or goes through the block.
  pub place_not_lost :
      (name : Name) (fuel pos block_end : ℕ)
      → find_in_block entries name fuel pos block_end ≡ absent
      → ((p : ℕ) × (place_in_block entries len n fuel pos block_end ≡ unused p)
          × (len ≤ (entries p).rec_len))
        ⊎ (((p : ℕ) × (place_in_block entries len n fuel pos block_end ≡ behind p)
              × (get_actual_dir_entry_len (entries p).name_len + len ≤ (entries p).rec_len))
            ⊎ (place_in_block entries len n fuel pos block_end ≡ all_full n))
  unfolding find_in_block
  place_not_lost name zero pos block_end e = cc
  place_not_lost name (suc fuel) pos block_end e = elim (place_cases fuel pos block_end) [
    | inl (at_end, place) ↦ inr (inr place)
    | inr (before, inl (place, fits)) ↦ inl (pos, place, fits)
    | inr (before, inr (inl (place, fits))) ↦ inr (inl (pos, place, fits))
    | inr (before, inr (inr place)) ↦
        let (other, rest) = absent_step entries name fuel pos block_end e before in
        elim (place_not_lost name fuel (pos + (entries pos).rec_len) block_end rest) [
          | inl (p, place1, fits) ↦ inl (p, place ∙ place1, fits)
          | inr (inl (p, place1, fits)) ↦ inr (inl (p, place ∙ place1, fits))
          | inr (inr place1) ↦ inr (inr (place ∙ place1))
        ]
  ]

-- A place at the entry `p`.
abbrev pub IsAt : Place → ℕ → Type 0
IsAt place p = (place ≡ unused p) ⊎ (place ≡ behind p)

unused_same : {a b : ℕ} → unused a ≡ unused b → a ≡ b
unused_same e = cc

behind_same : {a b : ℕ} → behind a ≡ behind b → a ≡ b
behind_same e = cc

pub full_not_at : {n p : ℕ} {X : Type 0} → IsAt (all_full n) p → X
full_not_at (inl e) = cc
full_not_at (inr e) = cc

module _ (entries entries2 : ℕ → DirEntry) (name : Name) (p q : ℕ)
    (ins : IsInserted entries entries2 name p q) (block_end len n : ℕ) where
  at_pos :
      (pos : ℕ) {place : Place}
      → (place ≡ unused pos) ⊎ (place ≡ behind pos)
      → IsAt place p
      → pos ≡ p
  at_pos pos (inl e) (inl f) = unused_same (sym e ∙ f)
  at_pos pos (inl e) (inr f) = cc
  at_pos pos (inr e) (inl f) = cc
  at_pos pos (inr e) (inr f) = behind_same (sym e ∙ f)

  not_at_end :
      (fuel pos : ℕ)
      → IsAt (place_in_block entries len n (suc fuel) pos block_end) p
      → (pos == block_end) ≡ false
  not_at_end fuel pos place = elim (place_cases entries len n fuel pos block_end) [
    | inl (at_end, is_full) ↦ full_not_at (subst (λ x. IsAt x p) is_full place)
    | inr (before, other) ↦ before
  ]

  pub found_in_place :
      (fuel pos : ℕ)
      → find_in_block entries name fuel pos block_end ≡ absent
      → IsAt (place_in_block entries len n fuel pos block_end) p
      → find_in_block entries2 name fuel pos block_end ≡ found q
  unfolding find_in_block
  found_in_place zero pos e place = cc
  found_in_place (suc fuel) pos e place = elim (ins.others pos) [
    | inl here ↦
        let before = not_at_end fuel pos place in
        subst (λ (x : ℕ). find_in_block entries2 name (suc fuel) x block_end ≡ found q) (sym here)
          (found_here entries entries2 name p q ins block_end fuel
            (subst (λ (x : ℕ). (x == block_end) ≡ false) here before))
    | inr (inl (same, next, short)) ↦
        let before = not_at_end fuel pos place in
        let (other, rest) = absent_step entries name fuel pos block_end e before in
        found_next entries entries2 name p q ins block_end fuel pos before other rest same next
          short
    | inr (inr (same, apart)) ↦ elim (place_cases entries len n fuel pos block_end) [
      | inl (at_end, is_full) ↦ full_not_at (subst (λ x. IsAt x p) is_full place)
      | inr (before, inl (at, fits)) ↦ absurd (apart (at_pos pos (inl at) place))
      | inr (before, inr (inl (at, fits))) ↦ absurd (apart (at_pos pos (inr at) place))
      | inr (before, inr (inr same_place)) ↦
          let (other, rest) = absent_step entries name fuel pos block_end e before in
          same_step entries entries2 name p q ins block_end fuel pos before other same (
            found_in_place fuel (pos + (entries pos).rec_len) rest
              (subst (λ x. IsAt x p) same_place place))
    ]
  ]
