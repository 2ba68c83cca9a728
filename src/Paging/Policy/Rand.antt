-- ===== src/Paging/Policy/Rand.antt =====
-- Assignment3/rand.c. The value of `random()` is an argument.
use csc369_operating_systems.Base.{ℕ, ◌%◌, refl, arith, some}
use csc369_operating_systems.Paging.Policy.{Policy}

unfoldable pub rand_evict : ℕ → ℕ → ℕ
rand_evict memsize random = random % memsize

unfoldable pub rand_ref : ℕ → Unit {0} → Unit {0}
rand_ref frame s = s

unfoldable pub rand_init : Unit {0}
rand_init = tt

-- `rand` as a replacement algorithm: it has no state.
pub rand_policy : Policy
unfolding rand_evict rand_ref rand_init
rand_policy = record {
  State = Unit {0};
  init = λ memsize. rand_init;
  ref = λ memsize frame s. some (rand_ref frame s);
  evict = λ memsize random s. some (rand_evict memsize random, s);
  Tracks = λ memsize used s. Unit {0};
  init_tracks = λ memsize h. tt;
  ref_tracks = λ memsize frame used s t h. (tt, refl, tt);
  evict_tracks =
      λ memsize random used s t all h. (rand_evict memsize random, tt, refl, omega arith, tt);
}
