-- ===== src/Ext2/Restore/Ends.antt =====
-- Assignment4/ext2_restore.c: the scan for a deleted entry ends, whatever the directory holds.
use csc369_operating_systems.Ext2.Restore.{
  no_match, block_fuel, gap_fuel, hidden_by, Recovery, scan_blocks, scan_block, is_named, after_gap,
  match_at, Name, scan_gap, next_in_gap,
}
use csc369_operating_systems.Ext2.Resource.{get_padded_rec_len, get_actual_dir_entry_len}
use csc369_operating_systems.Ext2.Image.{DirEntry, block_size}
use csc369_operating_systems.Base.{
  ℕ, zero, suc, ◌+◌, ◌*◌, ◌^◌, ◌≤◌, ◌<◌, ◌≡◌, refl, arith, ◌==◌, leb, ◌⊎◌, inl, inr, Bool-cases,
}

entry_len-ge : (name_len : ℕ) → 8 ≤ get_actual_dir_entry_len name_len
unfolding get_actual_dir_entry_len get_padded_rec_len
entry_len-ge name_len = ground arith

next_in_gap-gt :
    (entry : DirEntry) (pos gap_end : ℕ) → pos < gap_end → pos < next_in_gap entry pos gap_end
unfolding next_in_gap
next_in_gap-gt entry pos gap_end h = ground (arith, entry_len-ge entry.name_len)

scan_gap_lem :
    (entries : ℕ → DirEntry) (name : Name) (fuel pos gap_end : ℕ)
    → 0 < fuel
    → gap_end < pos + fuel
    → ((entry : ℕ) × (scan_gap entries name fuel pos gap_end ≡ match_at entry))
      ⊎ ((end : ℕ) × (scan_gap entries name fuel pos gap_end ≡ after_gap end) × (pos ≤ end))
unfolding scan_gap
scan_gap_lem entries name zero pos gap_end some_fuel h = absurd (omega arith)
scan_gap_lem entries name (suc fuel) pos gap_end some_fuel h = elim (Bool-cases (leb gap_end pos)) [
  | inl past ↦ inr (pos, rw (scan_gap, past) refl, omega arith)
  | inr within ↦ elim (Bool-cases (is_named name (entries pos))) [
    | inl named ↦ inl (pos, rw (scan_gap, within, named) refl)
    | inr other ↦
        let more : pos < next_in_gap (entries pos) pos gap_end =
          next_in_gap-gt (entries pos) pos gap_end (ground arith) in
        elim (scan_gap_lem entries name fuel (next_in_gap (entries pos) pos gap_end) gap_end
          (ground arith) (omega arith)) [
            | inl (entry, e) ↦ inl (entry, rw (scan_gap, within, other) e)
            | inr (end, e, later) ↦ inr (end, rw (scan_gap, within, other) e, omega arith)
          ]
  ]
]

-- A deleted entry that was found, or none.
abbrev pub Ended : Recovery → Type 0
Ended r = ((entry : ℕ) × (last : ℕ) × (r ≡ hidden_by entry last)) ⊎ (r ≡ no_match)

module _ (entries : ℕ → DirEntry) (short : (pos : ℕ) → (entries pos).rec_len < 2 ^ 16)
    (name : Name) where
  scan_block_lem :
      (fuel pos last block_end : ℕ)
      → 0 < fuel
      → block_end < pos + fuel
      → Ended (scan_block entries name fuel pos last block_end)
  unfolding scan_block
  scan_block_lem zero pos last block_end some_fuel h = absurd (omega arith)
  scan_block_lem (suc fuel) pos last block_end some_fuel h = elim (Bool-cases (leb block_end pos)) [
    | inl past ↦ inr (rw (scan_block, past) refl)
    | inr within ↦
        let start : ℕ = pos + get_actual_dir_entry_len (entries last).name_len in
        let later : 8 ≤ get_actual_dir_entry_len (entries last).name_len =
          entry_len-ge (entries last).name_len in
        elim (scan_gap_lem entries name gap_fuel start (pos + (entries last).rec_len) (omega arith)
          (omega (arith, short last, later))) [
            | inl (entry, e) ↦ inl (entry, last, rw (scan_block, within, e) refl)
            | inr (end, e, after) ↦
                elim (scan_block_lem fuel end (last + (entries last).rec_len) block_end
                  (ground (arith, later)) (omega (arith, later))) [
                    | inl (entry, last1, e1) ↦ inl (entry, last1, rw (scan_block, within, e) e1)
                    | inr e1 ↦ inr (rw (scan_block, within, e) e1)
                  ]
          ]
  ]

  scan_blocks_lem : (i_block : ℕ → ℕ) (left n : ℕ) → Ended (scan_blocks entries name i_block left n)
  unfolding scan_blocks
  scan_blocks_lem i_block zero n = inr refl
  scan_blocks_lem i_block (suc left) n = elim (Bool-cases (i_block n == 0)) [
    | inl null ↦ inr (rw (scan_blocks, null) refl)
    | inr block ↦
        let start : ℕ = i_block n * block_size in
        elim (scan_block_lem block_fuel start start (start + block_size) (omega arith)
          (omega arith)) [
            | inl (entry, last, e) ↦ inl (entry, last, rw (scan_blocks, block, e) refl)
            | inr e ↦ elim (scan_blocks_lem i_block left (n + 1)) [
              | inl (entry, last, e1) ↦ inl (entry, last, rw (scan_blocks, block, e) e1)
              | inr e1 ↦ inr (rw (scan_blocks, block, e) e1)
            ]
          ]
  ]

-- For entries whose `rec_len` has 16 bits, whatever else the directory's blocks hold: the scan for a
-- deleted entry ends, with an entry that was found and the one that hides it, or with none. In
-- particular the fuel of the model is enough.
pub scan_blocks-Ended :
    (entries : ℕ → DirEntry)
    → ((pos : ℕ) → (entries pos).rec_len < 2 ^ 16)
    → (name : Name) (i_block : ℕ → ℕ) → Ended (scan_blocks entries name i_block 12 0)
scan_blocks-Ended entries short name i_block = scan_blocks_lem entries short name i_block 12 0
