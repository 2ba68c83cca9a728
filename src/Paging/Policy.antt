-- ===== src/Paging/Policy.antt =====
-- Assignment3: what a page replacement algorithm gives the page table (`struct functions` of sim.h),
-- and what the page table relies on.
pub mod Rand
pub mod Fifo
pub mod Clock
pub mod Lru
pub mod Opt
use csc369_operating_systems.Base.{ℕ, ◌<◌, ◌≡◌, Bool, true, false, Option, some, update}

-- `ref` is given the frame of the page, `evict` a number from `random()`. `none` is a failed `assert`
-- or a null pointer. `Tracks memsize used s`: in the state `s` the algorithm knows that exactly the
-- frames in `used` hold a page that has been referenced.
pub record Policy : Type 1 where
  pub State : Type 0
  pub init : ℕ → State
  pub ref : ℕ → ℕ → State → Option State
  pub evict : ℕ → ℕ → State → Option (ℕ × State)
  pub Tracks : ℕ → (ℕ → Bool) → State → Type 0
  pub init_tracks : (memsize : ℕ) → 0 < memsize → Tracks memsize (λ _. false) (init memsize)
  pub ref_tracks :
      (memsize frame : ℕ) (used : ℕ → Bool) (s : State)
      → Tracks memsize used s
      → frame < memsize
      → (s' : State) × (ref memsize frame s ≡ some s') × Tracks memsize (update used frame true) s'
  pub evict_tracks :
      (memsize random : ℕ) (used : ℕ → Bool) (s : State)
      → Tracks memsize used s
      → ((i : ℕ) → i < memsize → used i ≡ true)
      → 0 < memsize
      → (frame : ℕ) × (s' : State) × (evict memsize random s ≡ some (frame, s'))
        × (frame < memsize)
        × Tracks memsize (update used frame false) s'
