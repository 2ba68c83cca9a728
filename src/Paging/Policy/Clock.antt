-- ===== src/Paging/Policy/Clock.antt =====
-- Assignment3/clock.c. `referenced` has an element for each frame.
use csc369_operating_systems.Base.{
  length-set, length-replicate, dec_le, dec_lt, ◌∙◌, sym, get_or-set_ne, get_or-set_self,
  ℕ_discrete, inl, inr, Bool-cases, ◌≢◌, ◌⊎◌, ℕ, zero, suc, ◌+◌, ◌%◌, ◌≤◌, ◌<◌, ◌≡◌, refl, arith,
  Bool, true, false, Option, none, some, List, replicate, get_or, set, length, if◌then◌else◌, ltb,
}
use csc369_operating_systems.Paging.Policy.{Policy}
use mathlib.Core.Bool.{true≢false}
use native.Mathlib.Nat.{mod-eq_of_lt, mod_self}

pub record Clock : Type 0 where
  pub clockhand : ℕ
  pub referenced : List Bool

-- The loop of `clock_evict` from the frame `i`, on fuel: an unreferenced frame is chosen, and the
-- others on the way become unreferenced. `none`: the fuel has run out, or `assert(0)`.
unfoldable pub clock_loop : ℕ → ℕ → ℕ → Clock → Option (ℕ × Clock)
clock_loop zero memsize i c = none
clock_loop (suc fuel) memsize i c =
    let rest =
      clock_loop fuel memsize ((i + 1) % memsize)
        (record c { referenced = set c.referenced i false }) in
    if ltb i memsize
    then if get_or c.referenced i false
      then rest
      else some (i, record { clockhand = i; referenced = set c.referenced i true })
    else none

-- One round and one step are enough.
unfoldable pub clock_evict : ℕ → Clock → Option (ℕ × Clock)
unfolding clock_loop
clock_evict memsize c = clock_loop (memsize + 1) memsize c.clockhand c

unfoldable pub clock_ref : ℕ → Clock → Clock
clock_ref frame c = record c { referenced = set c.referenced frame true }

unfoldable pub clock_init : ℕ → Clock
clock_init memsize = record { clockhand = 0; referenced = replicate memsize false }

pub record IsSound (memsize : ℕ) (c : Clock) : Type 0 where
  pub hand : c.clockhand < memsize
  pub size : length c.referenced ≡ memsize

-- The `d` frames before `i`, going round, are unreferenced.
abbrev Cleared : ℕ → ℕ → ℕ → List Bool → Type 0
Cleared memsize d i refs =
    (j : ℕ)
    → j < memsize
    → ((j < i) × (i ≤ j + d)) ⊎ ((i ≤ j) × (i + memsize ≤ j + d))
    → get_or refs j false ≡ false

next_frame :
    (memsize i : ℕ)
    → i < memsize
    → ((i + 1 < memsize) × ((i + 1) % memsize ≡ i + 1))
      ⊎ ((i + 1 ≡ memsize) × ((i + 1) % memsize ≡ 0))
next_frame memsize i h = elim (dec_lt (i + 1) memsize) [
  | yes l ↦ inl (l, mod-eq_of_lt l)
  | no n ↦ last (omega arith)
]
  where
    last :
        i + 1 ≡ memsize
        → ((i + 1 < memsize) × ((i + 1) % memsize ≡ i + 1))
          ⊎ ((i + 1 ≡ memsize) × ((i + 1) % memsize ≡ 0))
    last e = inr (e, rw e (mod_self memsize))

Cleared-step :
    (memsize d i : ℕ) (refs : List Bool)
    → i < memsize
    → length refs ≡ memsize
    → Cleared memsize d i refs
    → Cleared memsize (d + 1) ((i + 1) % memsize) (set refs i false)
Cleared-step memsize d i refs h size cleared j low behind = elim (ℕ_discrete j i) [
  | yes e ↦ rw e (get_or-set_self refs i false false (omega (arith, size, h)))
  | no n ↦ get_or-set_ne refs false false (λ e. n (sym e)) ∙ cleared j low (nearer n)
]
  where
    nearer : j ≢ i → ((j < i) × (i ≤ j + d)) ⊎ ((i ≤ j) × (i + memsize ≤ j + d))
    nearer n = elim (next_frame memsize i h) [
      | inl (more, at) ↦ elim behind [
        | inl b ↦ inl (omega (arith, b, n, at), omega (arith, b, at))
        | inr b ↦ inr (omega (arith, b, at), omega (arith, b, at))
      ]
      | inr (last, at) ↦ elim behind [
        | inl b ↦ absurd (omega (arith, b, at))
        | inr b ↦ inl (omega (arith, b, n, at, last, low), omega (arith, b, at, last))
      ]
    ]

clock_loop_pass :
    (fuel memsize i : ℕ) (c : Clock)
    → i < memsize
    → get_or c.referenced i false ≡ true
    → clock_loop (suc fuel) memsize i c
      ≡ clock_loop fuel memsize
          ((i + 1) % memsize)
          (record c { referenced = set c.referenced i false })
unfolding clock_loop
clock_loop_pass fuel memsize i c h seen = ground arith

clock_loop_stop :
    (fuel memsize i : ℕ) (c : Clock)
    → i < memsize
    → get_or c.referenced i false ≡ false
    → clock_loop (suc fuel) memsize i c
      ≡ some (i, record { clockhand = i; referenced = set c.referenced i true })
unfolding clock_loop
clock_loop_stop fuel memsize i c h clear = ground arith

-- From there, with as many steps as frames are left and one more, the loop returns.
clock_loop_total :
    (fuel memsize d i : ℕ) (c : Clock)
    → d + fuel ≡ memsize + 1
    → d ≤ memsize
    → i < memsize
    → length c.referenced ≡ memsize
    → Cleared memsize d i c.referenced
    → (f : ℕ) × (c' : Clock) × (clock_loop fuel memsize i c ≡ some (f, c'))
      × (f < memsize)
      × IsSound memsize c'
clock_loop_total zero memsize d i c fuel_eq few h size cleared = absurd (omega arith)
clock_loop_total (suc fuel) memsize d i c fuel_eq few h size cleared =
    elim (Bool-cases (get_or c.referenced i false)) [
      | inl seen ↦
          turn
            (clock_loop_total fuel memsize (d + 1) ((i + 1) % memsize)
              (record c { referenced = set c.referenced i false }) (omega arith) (further seen)
              (omega arith) (length-set c.referenced i false ∙ size)
              (Cleared-step memsize d i c.referenced h size cleared))
            seen
      | inr clear ↦ (
        i,
        record { clockhand = i; referenced = set c.referenced i true },
        clock_loop_stop fuel memsize i c h clear,
        h,
        record { hand = h; size = length-set c.referenced i true ∙ size },
      )
    ]
  where
    further : get_or c.referenced i false ≡ true → d + 1 ≤ memsize
    further seen = elim (dec_le (d + 1) memsize) [
      | yes le ↦ le
      | no full ↦ absurd (true≢false (sym seen ∙ cleared i h (inr (omega arith, omega arith))))
    ]

    turn :
        ((f : ℕ) × (c' : Clock) × (clock_loop fuel memsize
              ((i + 1) % memsize)
              (record c { referenced = set c.referenced i false })
            ≡ some (f, c'))
          × (f < memsize)
          × IsSound memsize c')
        → get_or c.referenced i false ≡ true
        → (f : ℕ) × (c' : Clock) × (clock_loop (suc fuel) memsize i c ≡ some (f, c'))
          × (f < memsize)
          × IsSound memsize c'
    turn (f, c', e, low, sound) seen =
        (f, c', clock_loop_pass fuel memsize i c h seen ∙ e, low, sound)

-- From a state whose clockhand is a frame and whose list has one entry for each of the `memsize`
-- frames, with any reference bits, `clock_evict` returns: it never reaches `assert(0)`, its victim is
-- a frame, and the state it leaves is such a state again.
pub clock_evict_total :
    (memsize : ℕ) (c : Clock)
    → IsSound memsize c
    → (f : ℕ) × (c' : Clock) × (clock_evict memsize c ≡ some (f, c'))
      × (f < memsize)
      × IsSound memsize c'
unfolding clock_evict
clock_evict_total memsize c sound =
    clock_loop_total (memsize + 1) memsize 0 c.clockhand c (omega arith) (omega arith) sound.hand
      sound.size nothing
  where
    nothing : Cleared memsize 0 c.clockhand c.referenced
    nothing j low behind =
        absurd (elim behind [ inl b ↦ omega (arith, b) | inr b ↦ omega (arith, b, sound.hand) ])

-- `clock` as a replacement algorithm: `assert(0)` after the loop is never reached, whatever the
-- references.
pub clock_policy : Policy
unfolding clock_evict clock_ref clock_init
clock_policy = record {
  State = Clock;
  init = clock_init;
  ref = λ memsize frame s. some (clock_ref frame s);
  evict = λ memsize random s. clock_evict memsize s;
  Tracks = λ memsize used s. IsSound memsize s;
  init_tracks = λ memsize h. record { hand = h; size = length-replicate memsize false };
  ref_tracks = λ memsize frame used s t h. (
    clock_ref frame s,
    refl,
    record { hand = t.hand; size = length-set s.referenced frame true ∙ t.size },
  );
  evict_tracks = λ memsize random used s t all h. clock_evict_total memsize s t;
}
