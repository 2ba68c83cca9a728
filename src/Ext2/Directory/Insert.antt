-- ===== src/Ext2/Directory/Insert.antt =====
-- Assignment4/ext2_utils.c: a walk that found nothing, on entries among which a new one was put.
use csc369_operating_systems.Ext2.Directory.{Search, absent, is_named, found, find_in_block}
use csc369_operating_systems.Ext2.Names.{Name}
use csc369_operating_systems.Ext2.Image.{DirEntry}
use csc369_operating_systems.Base.{
  ℕ, zero, suc, ◌+◌, ◌≤◌, ◌<◌, ◌≡◌, ◌≢◌, refl, sym, ◌∙◌, subst, arith, true, false, ◌==◌, ◌⊎◌, inl,
  inr, Bool-cases,
}

-- A walk that finds nothing stops at the end of the block, and not before.
pub pos_le_of_absent :
    (entries : ℕ → DirEntry) (name : Name) (fuel pos block_end : ℕ)
    → find_in_block entries name fuel pos block_end ≡ absent
    → pos ≤ block_end
unfolding find_in_block
pos_le_of_absent entries name zero pos block_end e = cc
pos_le_of_absent entries name (suc fuel) pos block_end e = elim (Bool-cases (pos == block_end)) [
  | inl at_end ↦ ground arith
  | inr before ↦ elim (Bool-cases (is_named name (entries pos))) [
    | inl named ↦
        let no : ◌≡◌ {A = Search} (found pos) absent = rw (find_in_block, before, named) at e in cc
    | inr other ↦
        let rest : find_in_block entries name fuel (pos + (entries pos).rec_len) block_end
            ≡ absent =
          rw (find_in_block, before, other) at e in
        omega
          (arith, pos_le_of_absent entries name fuel (pos + (entries pos).rec_len) block_end rest)
  ]
]

-- One step of a walk that finds nothing.
pub absent_step :
    (entries : ℕ → DirEntry) (name : Name) (fuel pos block_end : ℕ)
    → find_in_block entries name (suc fuel) pos block_end ≡ absent
    → (pos == block_end) ≡ false
    → (is_named name (entries pos) ≡ false)
      × (find_in_block entries name fuel (pos + (entries pos).rec_len) block_end ≡ absent)
unfolding find_in_block
absent_step entries name fuel pos block_end e before =
    elim (Bool-cases (is_named name (entries pos))) [
      | inl named ↦
          let no : ◌≡◌ {A = Search} (found pos) absent = rw (find_in_block, before, named) at e in
          cc
      | inr other ↦ (other, rw (find_in_block, before, other) at e)
    ]

-- `entries2` has a new entry with the name at `q`, and where `q` is within an old one, that one ends
-- at `q`. `p` is where the place was found.
pub record IsInserted (entries entries2 : ℕ → DirEntry) (name : Name) (p q : ℕ) : Type 0 where
  pub is_new : is_named name (entries2 q) ≡ true
  pub others :
      (pos : ℕ)
      → (pos ≡ q)
        ⊎ (((is_named name (entries2 pos) ≡ is_named name (entries pos))
              × (pos + (entries2 pos).rec_len ≡ q)
              × (q < pos + (entries pos).rec_len))
            ⊎ ((entries2 pos ≡ entries pos) × (pos ≢ p)))

module _ (entries entries2 : ℕ → DirEntry) (name : Name) (p q : ℕ)
    (ins : IsInserted entries entries2 name p q) (block_end : ℕ) where
  -- The new entry is found where the walk comes to it.
  pub found_here :
      (fuel : ℕ)
      → (q == block_end) ≡ false
      → find_in_block entries2 name (suc fuel) q block_end ≡ found q
  unfolding find_in_block
  found_here fuel before = rw (find_in_block, before, ins.is_new) refl

  -- From the entry that now ends at the new one.
  pub found_next :
      (fuel pos : ℕ)
      → (pos == block_end) ≡ false
      → is_named name (entries pos) ≡ false
      → find_in_block entries name fuel (pos + (entries pos).rec_len) block_end ≡ absent
      → is_named name (entries2 pos) ≡ is_named name (entries pos)
      → pos + (entries2 pos).rec_len ≡ q
      → q < pos + (entries pos).rec_len
      → find_in_block entries2 name (suc fuel) pos block_end ≡ found q
  unfolding find_in_block
  found_next zero pos before other rest same next short = cc
  found_next (suc fuel) pos before other rest same next short =
      let le =
        pos_le_of_absent entries name (suc fuel) (pos + (entries pos).rec_len) block_end rest in
      let inside : (q == block_end) ≡ false = ground arith in
      rw (find_in_block, before, same ∙ other)
        (subst (λ (x : ℕ). find_in_block entries2 name (suc fuel) x block_end ≡ found q) (sym next)
          (found_here fuel inside))

  pub same_step :
      (fuel pos : ℕ) {r : Search}
      → (pos == block_end) ≡ false
      → is_named name (entries pos) ≡ false
      → entries2 pos ≡ entries pos
      → find_in_block entries2 name fuel (pos + (entries pos).rec_len) block_end ≡ r
      → find_in_block entries2 name (suc fuel) pos block_end ≡ r
  unfolding find_in_block
  same_step fuel pos before other same e = rw (find_in_block, before, same, other) e

  -- Any block that was walked: the new entry is found there, or nothing.
  pub absent_or_found :
      (fuel pos : ℕ)
      → find_in_block entries name fuel pos block_end ≡ absent
      → (find_in_block entries2 name fuel pos block_end ≡ absent)
        ⊎ (find_in_block entries2 name fuel pos block_end ≡ found q)
  unfolding find_in_block
  absent_or_found zero pos e = cc
  absent_or_found (suc fuel) pos e = elim (Bool-cases (pos == block_end)) [
    | inl at_end ↦ inl (rw (find_in_block, at_end) refl)
    | inr before ↦
        let (other, rest) = absent_step entries name fuel pos block_end e before in
        elim (ins.others pos) [
          | inl here ↦ inr (
              subst (λ (x : ℕ). find_in_block entries2 name (suc fuel) x block_end ≡ found q)
                (sym here)
                (found_here fuel (subst (λ (x : ℕ). (x == block_end) ≡ false) here before)))
          | inr (inl (same, next, short)) ↦
              inr (found_next fuel pos before other rest same next short)
          | inr (inr (same, apart)) ↦
              elim (absent_or_found fuel (pos + (entries pos).rec_len) rest) [
                | inl none_there ↦ inl (same_step fuel pos before other same none_there)
                | inr there ↦ inr (same_step fuel pos before other same there)
              ]
        ]
  ]
