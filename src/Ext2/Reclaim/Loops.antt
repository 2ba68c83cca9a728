-- ===== src/Ext2/Reclaim/Loops.antt =====
-- Assignment4: the loops over block pointers, as lists of blocks.
use csc369_operating_systems.Ext2.Reclaim.Lists.{free_list, set_list}
use csc369_operating_systems.Ext2.Reclaim.{reclaim_indirect}
use csc369_operating_systems.Ext2.Alloc.{free_block, set_block_in_use, free_indirect, free_direct}
use csc369_operating_systems.Ext2.Image.{bind_inv, bind_done, Disk, done, Program, ◌>>◌, return}
use csc369_operating_systems.Base.{
  ℕ, zero, suc, ◌+◌, ◌≤◌, ◌<◌, ◌≡◌, refl, sym, ◌∙◌, ap, subst, fun_ext, arith, true, false, List,
  [], ◌∷◌, if◌then◌else◌, ◌==◌, length, ◌⊎◌, inl, inr, Bool-cases,
}

-- The pointers from `n` on, at most `left` of them, up to the first null one.
unfoldable pub pointed : (ℕ → ℕ) → ℕ → ℕ → List ℕ
pointed ps zero n = []
pointed ps (suc left) n = if ps n == 0 then [] else ps n ∷ pointed ps left (n + 1)

module _ (ps : ℕ → ℕ) (left n : ℕ) where
  pub pointed_null : (ps n == 0) ≡ true → pointed ps (suc left) n ≡ []
  unfolding pointed
  pointed_null null = rw null refl

  pub pointed_more : (ps n == 0) ≡ false → pointed ps (suc left) n ≡ ps n ∷ pointed ps left (n + 1)
  unfolding pointed
  pointed_more more = rw more refl

-- The list ends at its length, or at a null pointer.
abbrev pub IsStop : (ℕ → ℕ) → ℕ → ℕ → List ℕ → Type 0
IsStop ps left n list =
    (length list ≤ left)
    × ((length list ≡ left) ⊎ ((length list < left) × (ps (n + length list) ≡ 0)))

pub pointed-IsStop : (ps : ℕ → ℕ) (left n : ℕ) → IsStop ps left n (pointed ps left n)
unfolding pointed
pointed-IsStop ps zero n = (omega arith, inl refl)
pointed-IsStop ps (suc left) n = elim (Bool-cases (ps n == 0)) [
  | inl null ↦
      let here : n + 0 ≡ n = omega arith in
      let zero_here : ps n ≡ 0 = ground arith in
      subst (IsStop ps (suc left) n) (sym (pointed_null ps left n null))
        (omega arith, inr (omega arith, ap ps here ∙ zero_here))
  | inr more ↦
      let (le, end) = pointed-IsStop ps left (n + 1) in
      let len : ℕ = length (pointed ps left (n + 1)) in
      let shift : n + suc len ≡ n + 1 + len = omega arith in
      subst (IsStop ps (suc left) n) (sym (pointed_more ps left n more)) (
        omega (arith, le),
        elim end [
          | inl full ↦ inl (omega (arith, full))
          | inr (short, null) ↦ inr (omega (arith, short), ap ps shift ∙ null)
        ],
      )
]

module _ (ps : ℕ → ℕ) where
  pub free_direct_lem :
      (left n : ℕ) (d d2 : Disk)
      → free_list (pointed ps left n) d ≡ done d2 tt
      → free_direct ps left n d ≡ done d2 (n + length (pointed ps left n))
  unfolding free_direct free_list pointed
  free_direct_lem zero n d d2 e =
      let none_more : n ≡ n + 0 = omega arith in
      bind_done (λ _. return n) e ∙ ap (λ (x : ℕ). done d2 x) none_more
  free_direct_lem (suc left) n d d2 e = elim (Bool-cases (ps n == 0)) [
    | inl null ↦
        let list = pointed_null ps left n null in
        let none_more : n ≡ n + length (pointed ps (suc left) n) = omega (arith, ap length list) in
        let same : free_list [] d ≡ done d2 tt =
          subst (λ (x : List ℕ). free_list x d ≡ done d2 tt) list e in
        rw null (bind_done (λ _. return n) same) ∙ ap (λ (x : ℕ). done d2 x) none_more
    | inr more ↦
        let list = pointed_more ps left n more in
        let len : ℕ = length (pointed ps left (n + 1)) in
        let one_more : n + 1 + len ≡ n + length (pointed ps (suc left) n) =
          omega (arith, ap length list) in
        let (d1, u, one, rest) =
          bind_inv (λ _. free_list (pointed ps left (n + 1))) (free_block (ps n))
            (subst (λ (x : List ℕ). free_list x d ≡ done d2 tt) list e) in
        rw (free_direct, more) (bind_done (λ _. free_direct ps left (n + 1)) one)
        ∙ free_direct_lem left (n + 1) d1 d2 rest
        ∙ ap (λ (x : ℕ). done d2 x) one_more
  ]

  pub free_indirect_lem :
      (left k : ℕ) (d : Disk) → free_indirect ps left k d ≡ free_list (pointed ps left k) d
  unfolding pointed free_indirect free_list
  free_indirect_lem zero k d = refl
  free_indirect_lem (suc left) k d = elim (Bool-cases (ps k == 0)) [
    | inl null ↦ rw null refl
    | inr more ↦ rw more (
        ap (λ (next : Program (Unit {0})). (free_block (ps k) >> next) d)
          (fun_ext (λ d1. free_indirect_lem left (k + 1) d1)))
  ]

  pub reclaim_indirect_lem :
      (left k : ℕ) (d : Disk) → reclaim_indirect ps left k d ≡ set_list (pointed ps left k) d
  unfolding pointed reclaim_indirect set_list
  reclaim_indirect_lem zero k d = refl
  reclaim_indirect_lem (suc left) k d = elim (Bool-cases (ps k == 0)) [
    | inl null ↦ rw null refl
    | inr more ↦ rw more (
        ap (λ (next : Program (Unit {0})). (set_block_in_use (ps k) >> next) d)
          (fun_ext (λ d1. reclaim_indirect_lem left (k + 1) d1)))
  ]
