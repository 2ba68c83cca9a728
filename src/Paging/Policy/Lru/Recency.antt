-- ===== src/Paging/Policy/Lru/Recency.antt =====
-- Assignment3/lru.c: what a reference does to the order of the queue.
use csc369_operating_systems.Base.{
  ℕ_discrete, ℕ, ◌<◌, ◌≡◌, refl, arith, Bool, true, false, some, List, [], ◌∷◌, ◌++◌, if◌then◌else◌,
  ◌==◌, update, inl, inr, Bool-cases,
}
use csc369_operating_systems.Paging.Policy.Lru.{Lru, drop_first, lru_ref}
use csc369_operating_systems.Paging.Policy.Lru.Queue.{IsQueue, count, again_lem, enter_lem}

-- The queue without a frame.
abbrev pub remove : ℕ → List ℕ → List ℕ
remove frame [] = []
remove frame (x ∷ queue) = if x == frame then remove frame queue else x ∷ remove frame queue

remove_absent : (frame : ℕ) (q : List ℕ) → count frame q ≡ 0 → remove frame q ≡ q
remove_absent frame [] h = refl
remove_absent frame (x ∷ q) h = ground (arith, remove_absent frame q)

drop_first_once :
    (frame : ℕ) (q r : List ℕ)
    → count frame q ≡ 1
    → drop_first frame (q ++ r) ≡ some (remove frame q ++ r)
unfolding drop_first
drop_first_once frame [] r h = absurd (omega arith)
drop_first_once frame (x ∷ q) r h = elim (ℕ_discrete x frame) [
  | yes here ↦ ground (arith, remove_absent frame q)
  | no later ↦ ground (arith, drop_first_once frame q r)
]

ordered_again :
    (memsize frame : ℕ) (used : ℕ → Bool) (s s' : Lru)
    → IsQueue memsize used s
    → frame < memsize
    → used frame ≡ true
    → lru_ref frame s ≡ some s'
    → s'.queue ≡ remove frame s.queue ++ (frame ∷ [])
unfolding lru_ref
ordered_again memsize frame used s s' v low busy e = ground (
  arith,
  v.flags frame low,
  drop_first_once frame s.queue (frame ∷ []) (ground (arith, v.once frame low)),
)

ordered_new :
    (memsize frame : ℕ) (used : ℕ → Bool) (s s' : Lru)
    → IsQueue memsize used s
    → frame < memsize
    → used frame ≡ false
    → lru_ref frame s ≡ some s'
    → s'.queue ≡ remove frame s.queue ++ (frame ∷ [])
unfolding lru_ref
ordered_new memsize frame used s s' v low free e =
    ground
      (arith, v.flags frame low, remove_absent frame s.queue (ground (arith, v.once frame low)))

-- In a state that agrees with the frames in use, a reference to a frame passes the assertions and puts
-- the frame at the tail of the queue; the other frames keep their order.
pub lru_ref-remove :
    (memsize frame : ℕ) (used : ℕ → Bool) (s : Lru)
    → IsQueue memsize used s
    → frame < memsize
    → (s' : Lru) × (lru_ref frame s ≡ some s')
      × (s'.queue ≡ remove frame s.queue ++ (frame ∷ []))
      × IsQueue memsize (update used frame true) s'
lru_ref-remove memsize frame used s v low = elim (Bool-cases (used frame)) [
  | inl busy ↦
      let (s', e, v') = again_lem memsize frame used s v low busy in
      (s', e, ordered_again memsize frame used s s' v low busy e, v')
  | inr free ↦
      let (s', e, v') = enter_lem memsize frame used s v low free in
      (s', e, ordered_new memsize frame used s s' v low free e, v')
]
