-- ===== src/Paging/Policy/Lru/Queue.antt =====
-- Assignment3/lru.c: the queue holds the frames in use, each once, and the assertions hold.
use csc369_operating_systems.Base.{
  length-set, get_or-set_ne, get_or-set_self, ℕ_discrete, dec_lt, ℕ, suc, ◌+◌, ◌≤◌, ◌<◌, ◌≡◌, ◌≢◌,
  refl, sym, ◌∙◌, ap, subst, arith, Bool, true, false, some, List, [], ◌∷◌, ◌++◌, if◌then◌else◌,
  ◌==◌, set, get_or, length, update, ◌⊎◌, inl, inr, Bool-cases, get_or-replicate, length-replicate,
  update_self,
}
use csc369_operating_systems.Paging.Policy.{Policy}
use csc369_operating_systems.Paging.Policy.Lru.{Lru, lru_evict, drop_first, lru_ref, lru_init}

-- How often a frame stands in the queue.
abbrev pub count : ℕ → List ℕ → ℕ
count frame [] = 0
count frame (x ∷ queue) = if x == frame then suc (count frame queue) else count frame queue

-- A frame stands in the queue once if it is in use, and else it does not; `referenced` says the same.
pub record IsQueue (memsize : ℕ) (used : ℕ → Bool) (s : Lru) : Type 0 where
  pub size : length s.referenced ≡ memsize
  pub inside : (f : ℕ) → memsize ≤ f → count f s.queue ≡ 0
  pub flags : (f : ℕ) → f < memsize → get_or s.referenced f false ≡ used f
  pub once : (f : ℕ) → f < memsize → count f s.queue ≡ (if used f then 1 else 0)

count-append : (f : ℕ) (q r : List ℕ) → count f (q ++ r) ≡ count f q + count f r
count-append f [] r = omega arith
count-append f (x ∷ q) r = ground (arith, count-append f q r)

-- The walk ends at a frame that is in the queue, and takes one node.
drop_first_lem :
    (frame : ℕ) (queue : List ℕ)
    → 0 < count frame queue
    → (q : List ℕ) × (drop_first frame queue ≡ some q)
      × (count frame queue ≡ count frame q + 1)
      × ((f : ℕ) → frame ≢ f → count f q ≡ count f queue)
unfolding drop_first
drop_first_lem frame [] h = absurd (omega arith)
drop_first_lem frame (x ∷ queue) h = elim (ℕ_discrete x frame) [
  | yes here ↦ (queue, ground arith, ground arith, λ f n. ground arith)
  | no later ↦
      let (q, e, one, rest) = drop_first_lem frame queue (ground arith) in
      (x ∷ q, ground arith, ground arith, λ f n. ground (arith, rest f n))
]

count_last :
    (f frame : ℕ) (q : List ℕ)
    → count f (q ++ (frame ∷ [])) ≡ count f q + (if frame == f then 1 else 0)
count_last f frame q = count-append f q (frame ∷ []) ∙ ground arith

pub List-cases : (q : List ℕ) → (q ≡ []) ⊎ ((x : ℕ) × (rest : List ℕ) × (q ≡ x ∷ rest))
List-cases [] = inl refl
List-cases (x ∷ rest) = inr (x, rest, refl)

lru_ref_again :
    (frame : ℕ) (s : Lru) (q : List ℕ)
    → get_or s.referenced frame false ≡ true
    → 0 < count frame s.queue
    → drop_first frame (s.queue ++ (frame ∷ [])) ≡ some q
    → lru_ref frame s ≡ some (record s { queue = q })
unfolding lru_ref
lru_ref_again frame s q flag held dropped = elim (List-cases s.queue) [
  | inl empty ↦ let counted = ap (count frame) empty in absurd (omega arith)
  | inr (x, rest, at) ↦ rw flag (ground arith)
]

-- The state after a reference to a frame that is in the queue.
pub again_lem :
    (memsize frame : ℕ) (used : ℕ → Bool) (s : Lru)
    → IsQueue memsize used s
    → frame < memsize
    → used frame ≡ true
    → (s' : Lru) × (lru_ref frame s ≡ some s') × IsQueue memsize (update used frame true) s'
again_lem memsize frame used s v low busy =
    let queue = s.queue ++ (frame ∷ []) in
    let (q, e, one, rest) =
      drop_first_lem frame queue (ground (arith, count_last frame frame s.queue)) in
    (
      record s { queue = q },
      lru_ref_again frame s q (v.flags frame low ∙ busy) (ground (arith, v.once frame low)) e,
      record {
        size = v.size;
        inside = λ f h. ground (arith, v.inside f h, rest f, count_last f frame s.queue);
        flags = λ f h. ground (arith, v.flags f h);
        once = λ f h. elim (ℕ_discrete frame f) [
          | yes same ↦
              subst (λ (g : ℕ). count g q ≡ (if update used frame true g then 1 else 0)) same
                (ground (arith, one, v.once frame low, count_last frame frame s.queue))
          | no other ↦ ground (arith, v.once f h, rest f other, count_last f frame s.queue)
        ];
      },
    )

pub enter_lem :
    (memsize frame : ℕ) (used : ℕ → Bool) (s : Lru)
    → IsQueue memsize used s
    → frame < memsize
    → used frame ≡ false
    → (s' : Lru) × (lru_ref frame s ≡ some s') × IsQueue memsize (update used frame true) s'
unfolding lru_ref
enter_lem memsize frame used s v low free = (
  record { queue = s.queue ++ (frame ∷ []); referenced = set s.referenced frame true },
  ground (arith, v.flags frame low),
  record {
    size = length-set s.referenced frame true ∙ v.size;
    inside = λ f h. ground (arith, v.inside f h, count_last f frame s.queue);
    flags = λ f h. elim (ℕ_discrete frame f) [
      | yes same ↦
          subst (λ (g : ℕ). get_or (set s.referenced frame true) g false ≡ update used frame true g)
            same
            (get_or-set_self s.referenced frame true false (omega (arith, v.size))
              ∙ sym (update_self used frame true))
      | no other ↦
          ground
            (arith, v.flags f h, get_or-set_ne s.referenced {i = frame} {j = f} true false other)
    ];
    once = λ f h. ground (arith, v.once f h, count_last f frame s.queue);
  },
)

module _ (memsize : ℕ) (used : ℕ → Bool) (s : Lru) (v : IsQueue memsize used s) where
  pub head_low : (frame : ℕ) (rest : List ℕ) → s.queue ≡ frame ∷ rest → frame < memsize
  head_low frame rest at = elim (dec_lt frame memsize) [
    | yes low ↦ low
    | no high ↦ let counted = ap (count frame) at in ground (arith, v.inside frame (omega arith))
  ]

  head_IsQueue :
      (frame : ℕ) (rest : List ℕ)
      → s.queue ≡ frame ∷ rest
      → IsQueue memsize
          (update used frame false)
          (record { queue = rest; referenced = set s.referenced frame false })
  head_IsQueue frame rest at =
      let low = head_low frame rest at in
      record {
        size = length-set s.referenced frame false ∙ v.size;
        inside = λ f h. let counted = ap (count f) at in ground (arith, v.inside f h);
        flags = λ f h. elim (ℕ_discrete frame f) [
          | yes same ↦
              subst
                (λ (g : ℕ).
                  get_or (set s.referenced frame false) g false ≡ update used frame false g)
                same
                (get_or-set_self s.referenced frame false false (omega (arith, v.size))
                  ∙ sym (update_self used frame false))
          | no other ↦
              ground (
                arith,
                v.flags f h,
                get_or-set_ne s.referenced {i = frame} {j = f} false false other,
              )
        ];
        once = λ f h. let counted = ap (count f) at in ground (arith, v.once f h);
      }

  -- With a frame in use, the head of the queue is evicted.
  pub evict_lem :
      (g : ℕ)
      → g < memsize
      → used g ≡ true
      → (frame : ℕ) × (rest : List ℕ) × (s' : Lru) × (lru_evict s ≡ some (frame, s'))
        × (frame < memsize)
        × (used frame ≡ true)
        × (s.queue ≡ frame ∷ rest)
        × (s'.queue ≡ rest)
        × IsQueue memsize (update used frame false) s'
  unfolding lru_evict
  evict_lem g g_low busy = elim (List-cases s.queue) [
    | inl empty ↦ let counted = ap (count g) empty in ground (arith, v.once g g_low)
    | inr (frame, rest, at) ↦
        let low = head_low frame rest at in
        let counted = ap (count frame) at in
        let held : used frame ≡ true = ground (arith, v.once frame low) in
        (
          frame,
          rest,
          record { queue = rest; referenced = set s.referenced frame false },
          ground (arith, v.flags frame low),
          low,
          held,
          at,
          refl,
          head_IsQueue frame rest at,
        )
  ]

pub init_lem : (memsize : ℕ) → IsQueue memsize (λ f. false) (lru_init memsize)
unfolding lru_init
init_lem memsize = record {
  size = length-replicate memsize false;
  inside = λ f h. refl;
  flags = λ f h. get_or-replicate memsize f false;
  once = λ f h. refl;
}

-- `lru` as a replacement algorithm: its assertions hold, and its walk never passes the tail.
pub lru_policy : Policy
lru_policy = record {
  State = Lru;
  init = lru_init;
  ref = λ memsize frame s. lru_ref frame s;
  evict = λ memsize random s. lru_evict s;
  Tracks = IsQueue;
  init_tracks = λ memsize positive. init_lem memsize;
  ref_tracks = λ memsize frame used s v low. elim (Bool-cases (used frame)) [
    | inl busy ↦ again_lem memsize frame used s v low busy
    | inr free ↦ enter_lem memsize frame used s v low free
  ];
  evict_tracks = λ memsize random used s v all positive.
      let (frame, rest, s', e, low, held, at, same, v') =
        evict_lem memsize used s v 0 positive (all 0 positive) in
      (frame, s', e, low, v');
}
