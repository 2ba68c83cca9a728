-- ===== src/Ext2/Directory/Blocks.antt =====
-- Assignment4/ext2_utils.c: the walks over all blocks of a directory.
use csc369_operating_systems.Ext2.Directory.Places.{place_not_lost}
use csc369_operating_systems.Ext2.Names.{Name}
use csc369_operating_systems.Ext2.Directory.{
  all_full, get_actual_dir_entry_len, endless, block_fuel, find_in_block, behind, unused, Search,
  absent, place_in_block, found, Place, find_in_blocks, place_in_blocks,
}
use csc369_operating_systems.Ext2.Image.{DirEntry, block_size}
use csc369_operating_systems.Base.{
  ℕ_discrete, ℕ, zero, suc, ◌+◌, ◌*◌, ◌≤◌, ◌<◌, ◌≡◌, refl, subst, arith, true, false, ◌==◌, ◌⊎◌,
  inl, inr, Bool-cases,
}

-- The range of the block `b`.
abbrev pub block_walk : (ℕ → DirEntry) → Name → ℕ → Search
block_walk entries name b =
    find_in_block entries name block_fuel (b * block_size) (b * block_size + block_size)

-- One step of a search over blocks that finds nothing.
pub blocks_step :
    (entries : ℕ → DirEntry) (name : Name) (i_block : ℕ → ℕ) (left n : ℕ)
    → find_in_blocks entries name i_block (suc left) n ≡ absent
    → (i_block n == 0) ≡ false
    → (block_walk entries name (i_block n) ≡ absent)
      × (find_in_blocks entries name i_block left (n + 1) ≡ absent)
unfolding find_in_blocks
blocks_step entries name i_block left n e block =
    elim (Search-cases (block_walk entries name (i_block n))) [
      | inl (p, there) ↦
          let no : ◌≡◌ {A = Search} (found p) absent = rw (find_in_blocks, block, there) at e in cc
      | inr (inl nothing) ↦ (nothing, rw (find_in_blocks, block, nothing) at e)
      | inr (inr never) ↦
          let no : ◌≡◌ {A = Search} endless absent = rw (find_in_blocks, block, never) at e in cc
    ]
  where
    Search-cases : (s : Search) → ((p : ℕ) × (s ≡ found p)) ⊎ ((s ≡ absent) ⊎ (s ≡ endless))
    Search-cases (found p) = inl (p, refl)
    Search-cases absent = inr (inl refl)
    Search-cases endless = inr (inr refl)

module _ (entries : ℕ → DirEntry) (name : Name) (i_block : ℕ → ℕ) where
  pub found_block :
      (left n : ℕ) {q : ℕ}
      → (i_block n == 0) ≡ false
      → block_walk entries name (i_block n) ≡ found q
      → find_in_blocks entries name i_block (suc left) n ≡ found q
  unfolding find_in_blocks
  found_block left n block there = rw (find_in_blocks, block, there) refl

  pub found_later :
      (left n : ℕ) {r : Search}
      → (i_block n == 0) ≡ false
      → block_walk entries name (i_block n) ≡ absent
      → find_in_blocks entries name i_block left (n + 1) ≡ r
      → find_in_blocks entries name i_block (suc left) n ≡ r
  unfolding find_in_blocks
  found_later left n block nothing later = rw (find_in_blocks, block, nothing) later

module _ (entries : ℕ → DirEntry) (len : ℕ) (i_block : ℕ → ℕ) where
  abbrev pub place_walk : ℕ → ℕ → Place
  place_walk n b =
      place_in_block entries len n block_fuel (b * block_size) (b * block_size + block_size)

  -- A place that fits, or only full blocks up to the index `m`, where a block is added if it is below 12.
  abbrev pub HasPlace : Place → ℕ → ℕ → Type 0
  HasPlace place left n =
      ((p : ℕ) × (place ≡ unused p) × (len ≤ (entries p).rec_len))
      ⊎ (((p : ℕ) × (place ≡ behind p)
            × (get_actual_dir_entry_len (entries p).name_len + len ≤ (entries p).rec_len))
          ⊎ ((m : ℕ) × (place ≡ all_full m)
              × (n ≤ m)
              × (m ≤ n + left)
              × ((k : ℕ) → n ≤ k → k < m → (i_block k == 0) ≡ false)
              × (m < n + left → (i_block m == 0) ≡ true)))

  pub places_lem :
      (name : Name) (left n : ℕ)
      → find_in_blocks entries name i_block left n ≡ absent
      → HasPlace (place_in_blocks entries len i_block left n) left n
  unfolding place_in_blocks
  places_lem name zero n e = inr (
      inr (
        n,
        refl,
        omega arith,
        omega arith,
        (λ k from to. absurd (omega arith)),
        (λ h. absurd (omega arith)),
      ))
  places_lem name (suc left) n e = elim (Bool-cases (i_block n == 0)) [
    | inl null ↦ inr (
        inr (
          n,
          rw (place_in_blocks, null) refl,
          omega arith,
          omega arith,
          (λ k from to. absurd (omega arith)),
          (λ h. null),
        ))
    | inr block ↦
        let (walked, later) = blocks_step entries name i_block left n e block in
        elim (place_not_lost entries len n name block_fuel (i_block n * block_size)
          (i_block n * block_size + block_size) walked) [
            | inl (p, place, fits) ↦ inl (p, rw (place_in_blocks, block, place) refl, fits)
            | inr (inl (p, place, fits)) ↦
                inr (inl (p, rw (place_in_blocks, block, place) refl, fits))
            | inr (inr is_full) ↦ elim (places_lem name left (n + 1) later) [
              | inl (p, place, fits) ↦ inl (p, rw (place_in_blocks, block, is_full) place, fits)
              | inr (inl (p, place, fits)) ↦
                  inr (inl (p, rw (place_in_blocks, block, is_full) place, fits))
              | inr (inr (m, place, from, to, before, null)) ↦ inr (
                  inr (
                    m,
                    rw (place_in_blocks, block, is_full) place,
                    omega arith,
                    omega arith,
                    (λ k low high. elim (ℕ_discrete n k) [
                      | yes same ↦ subst (λ (x : ℕ). (i_block x == 0) ≡ false) same block
                      | no other ↦ before k (omega arith) high
                    ]),
                    (λ h. null (omega arith)),
                  ))
            ]
          ]
  ]
