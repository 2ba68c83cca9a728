-- ===== src/Ext2/Reclaim/Checks.antt =====
-- Assignment4/ext2_restore.c: the loops that check and take the blocks of a deleted file.
use csc369_operating_systems.Ext2.Alloc.Steps.{is_block_in_use_lem}
use csc369_operating_systems.Ext2.Reclaim.Loops.{pointed_null, pointed_more, pointed}
use csc369_operating_systems.Ext2.Alloc.{set_block_in_use, is_block_in_use}
use csc369_operating_systems.Ext2.Reclaim.Lists.{set_list, AllAre}
use csc369_operating_systems.Ext2.Reclaim.{reclaim_direct, direct_free, indirect_free}
use csc369_operating_systems.Ext2.Image.{Disk, done, ◌>>=◌, return, bind_inv, bind_done}
use csc369_operating_systems.Base.{
  ℕ, zero, suc, ◌+◌, ◌≡◌, refl, sym, ◌∙◌, ap, subst, arith, Bool, true, false, none, some, List, [],
  ◌∷◌, if◌then◌else◌, ◌==◌, ltb, length, inl, inr, Bool-cases,
}

-- Whether the loop ended at a null pointer.
abbrev pub ended_early : ℕ → List ℕ → Bool
ended_early left list = ltb (length list) left

module _ (ps : ℕ → ℕ) where
  pub reclaim_direct_lem :
      (left n : ℕ) (d d2 : Disk)
      → set_list (pointed ps left n) d ≡ done d2 tt
      → reclaim_direct ps left n d ≡ done d2 (ended_early left (pointed ps left n))
  unfolding reclaim_direct set_list pointed
  reclaim_direct_lem zero n d d2 e = bind_done (λ _. return false) e
  reclaim_direct_lem (suc left) n d d2 e = elim (Bool-cases (ps n == 0)) [
    | inl null ↦
        let list = pointed_null ps left n null in
        let same : set_list [] d ≡ done d2 tt =
          subst (λ (x : List ℕ). set_list x d ≡ done d2 tt) list e in
        let early : true ≡ ended_early (suc left) (pointed ps (suc left) n) =
          ground (arith, ap length list) in
        rw null (bind_done (λ _. return true) same) ∙ ap (λ (x : Bool). done d2 x) early
    | inr more ↦
        let list = pointed_more ps left n more in
        let later : ended_early left (pointed ps left (n + 1))
            ≡ ended_early (suc left) (pointed ps (suc left) n) =
          ground (arith, ap length list) in
        let (d1, u, one, rest) =
          bind_inv (λ _. set_list (pointed ps left (n + 1))) (set_block_in_use (ps n))
            (subst (λ (x : List ℕ). set_list x d ≡ done d2 tt) list e) in
        rw (reclaim_direct, more) (bind_done (λ _. reclaim_direct ps left (n + 1)) one)
        ∙ reclaim_direct_lem left (n + 1) d1 d2 rest
        ∙ ap (λ (x : Bool). done d2 x) later
  ]

  -- The first block of the list is free.
  first_free :
      (d : Disk) (p : ℕ) (list : List ℕ)
      → AllAre false d.block_bitmap (p ∷ list)
      → (is_block_in_use p d ≡ done d false) × AllAre false d.block_bitmap list
  unfolding AllAre
  first_free d p list ((j, number, inside, bit), all) = (
    ap (λ (x : ℕ). is_block_in_use x d) number
        ∙ is_block_in_use_lem d j inside
        ∙ ap (λ (x : Bool). done d x) bit,
    all,
  )

  pub direct_free_lem :
      (left n : ℕ) (d : Disk)
      → AllAre false d.block_bitmap (pointed ps left n)
      → direct_free ps left n d
        ≡ done d (if ended_early left (pointed ps left n) then some true else none)
  unfolding direct_free pointed
  direct_free_lem zero n d all = refl
  direct_free_lem (suc left) n d all = elim (Bool-cases (ps n == 0)) [
    | inl null ↦
        let list = pointed_null ps left n null in
        let early : ended_early (suc left) (pointed ps (suc left) n) ≡ true =
          ground (arith, ap length list) in
        let first : direct_free ps (suc left) n d ≡ done d (some true) =
          rw (direct_free, null) refl in
        first ∙ ap (λ (x : Bool). done d (if x then some true else none)) (sym early)
    | inr more ↦
        let list = pointed_more ps left n more in
        let later : ended_early left (pointed ps left (n + 1))
            ≡ ended_early (suc left) (pointed ps (suc left) n) =
          ground (arith, ap length list) in
        let (free, rest) =
          first_free d (ps n) (pointed ps left (n + 1))
            (subst (AllAre false d.block_bitmap) list all) in
        let first : direct_free ps (suc left) n d ≡ direct_free ps left (n + 1) d =
          rw (direct_free, more) (rw (◌>>=◌, free) refl) in
        first
        ∙ direct_free_lem left (n + 1) d rest
        ∙ ap (λ (x : Bool). done d (if x then some true else none)) later
  ]

  pub indirect_free_lem :
      (left k : ℕ) (d : Disk)
      → AllAre false d.block_bitmap (pointed ps left k)
      → indirect_free ps left k d ≡ done d true
  unfolding indirect_free pointed
  indirect_free_lem zero k d all = refl
  indirect_free_lem (suc left) k d all = elim (Bool-cases (ps k == 0)) [
    | inl null ↦ rw null refl
    | inr more ↦
        let (free, rest) =
          first_free d (ps k) (pointed ps left (k + 1))
            (subst (AllAre false d.block_bitmap) (pointed_more ps left k more) all) in
        let first : indirect_free ps (suc left) k d ≡ indirect_free ps left (k + 1) d =
          rw (indirect_free, more) (rw (◌>>=◌, free) refl) in
        first ∙ indirect_free_lem left (k + 1) d rest
  ]
