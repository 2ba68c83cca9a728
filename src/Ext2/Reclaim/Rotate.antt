-- ===== src/Ext2/Reclaim/Rotate.antt =====
-- Assignment4: the blocks of a file in the two orders, with the indirect block last and before the
-- blocks that it points to.
use csc369_operating_systems.Ext2.Resource.{in_use}
use csc369_operating_systems.Base.{
  ℕ_discrete, ℕ, suc, ◌≡◌, refl, sym, ◌∙◌, subst, arith, Bool, true, List, [], ◌∷◌, ◌++◌,
}
use csc369_operating_systems.Ext2.Reclaim.Lists.{IsSwitched, IsDistinct, AllAre, member}

member_last : (x q : ℕ) (ps : List ℕ) → member x (ps ++ (q ∷ [])) ≡ member x (q ∷ ps)
member_last x q [] = refl
member_last x q (p ∷ ps) = ground (arith, member_last x q ps)

pub member_rotate :
    (x q : ℕ) (front ps : List ℕ)
    → member x (front ++ (ps ++ (q ∷ []))) ≡ member x (front ++ (q ∷ ps))
member_rotate x q [] ps = member_last x q ps
member_rotate x q (p ∷ front) ps = ground (arith, member_rotate x q front ps)

IsDistinct-last : (q : ℕ) (ps : List ℕ) → IsDistinct (ps ++ (q ∷ [])) → IsDistinct (q ∷ ps)
unfolding IsDistinct
IsDistinct-last q [] h = h
IsDistinct-last q (p ∷ ps) (apart, h) =
    let (apart_q, rest) = IsDistinct-last q ps h in
    (
      ground (arith, apart, member_last p q ps, apart_q),
      (ground (arith, apart, member_last p q ps), rest),
    )

pub IsDistinct-rotate :
    (q : ℕ) (front ps : List ℕ)
    → IsDistinct (front ++ (ps ++ (q ∷ [])))
    → IsDistinct (front ++ (q ∷ ps))
unfolding IsDistinct
IsDistinct-rotate q [] ps h = IsDistinct-last q ps h
IsDistinct-rotate q (p ∷ front) ps (apart, h) =
    (sym (member_rotate p q front ps) ∙ apart, IsDistinct-rotate q front ps h)

all_last :
    (value : Bool) (a : List ℕ) (q : ℕ) (ps : List ℕ)
    → AllAre value a (ps ++ (q ∷ []))
    → AllAre value a (q ∷ ps)
unfolding AllAre
all_last value a q [] h = h
all_last value a q (p ∷ ps) (first, h) =
    let (last, rest) = all_last value a q ps h in (last, (first, rest))

pub all_rotate :
    (value : Bool) (a : List ℕ) (q : ℕ) (front ps : List ℕ)
    → AllAre value a (front ++ (ps ++ (q ∷ [])))
    → AllAre value a (front ++ (q ∷ ps))
unfolding AllAre
all_rotate value a q [] ps h = all_last value a q ps h
all_rotate value a q (p ∷ front) ps (first, h) = (first, all_rotate value a q front ps h)

pub all_append :
    (value : Bool) (a : List ℕ) (front ps : List ℕ)
    → AllAre value a (front ++ ps)
    → AllAre value a front × AllAre value a ps
unfolding AllAre
all_append value a [] ps h = (tt, h)
all_append value a (p ∷ front) ps (first, h) =
    let (before, after) = all_append value a front ps h in ((first, before), after)

-- The listed blocks after a switch of these and more.
pub all_switched :
    (old value : Bool) (qs a b : List ℕ) (ps : List ℕ)
    → IsSwitched value qs a b
    → ((x : ℕ) → member x ps ≡ true → member x qs ≡ true)
    → AllAre old a ps
    → AllAre value b ps
unfolding AllAre
all_switched old value qs a b [] s within all = tt
all_switched old value qs a b (p ∷ ps) s within ((j, number, inside, bit), all) =
    let here : member (suc j) (p ∷ ps) ≡ true = ground (arith, number) in
    let listed : member (suc j) qs ≡ true = within (suc j) here in
    let more : (x : ℕ) → member x ps ≡ true → member x qs ≡ true =
      λ x h. within x (ground (arith, h)) in
    (
      (j, number, omega (arith, inside, s.same_length), s.switched j ∙ rw listed refl),
      all_switched old value qs a b ps s more all,
    )

pub used_member :
    (value : Bool) (a : List ℕ) (ps : List ℕ) (j : ℕ)
    → AllAre value a ps
    → member (suc j) ps ≡ true
    → in_use a j ≡ value
unfolding AllAre
used_member value a [] j all h = cc
used_member value a (p ∷ ps) j ((i, number, inside, bit), all) h = elim (ℕ_discrete i j) [
  | yes same ↦ subst (λ (x : ℕ). in_use a x ≡ value) same bit
  | no other ↦ used_member value a ps j all (ground (arith, number, h))
]
