-- ===== src/Paging/Policy/Fifo.antt =====
-- Assignment3/fifo.c. The state is `head_of_fifo`.
use csc369_operating_systems.Base.{
  ap, sym, ◌∙◌, ℕ, zero, suc, ◌+◌, ◌%◌, ◌<◌, ◌≡◌, refl, arith, some,
}
use csc369_operating_systems.Paging.Policy.{Policy}
use native.Mathlib.Numerals.{unary_clauses}
use native.Mathlib.Nat.{mod-eq_of_lt, mod-add-mod}

unfoldable pub fifo_evict : ℕ → ℕ → ℕ × ℕ
fifo_evict memsize head_of_fifo = (head_of_fifo, (head_of_fifo + 1) % memsize)

unfoldable pub fifo_ref : ℕ → ℕ → ℕ
fifo_ref frame head_of_fifo = head_of_fifo

unfoldable pub fifo_init : ℕ
fifo_init = 0

pub fifo_policy : Policy
unfolding fifo_evict fifo_ref fifo_init
fifo_policy = record {
  State = ℕ;
  init = λ memsize. fifo_init;
  ref = λ memsize frame s. some (fifo_ref frame s);
  evict = λ memsize random s. some (fifo_evict memsize s);
  Tracks = λ memsize used s. s < memsize;
  init_tracks = λ memsize h. h;
  ref_tracks = λ memsize frame used s t h. (s, refl, t);
  evict_tracks = λ memsize random used s t all h. (s, (s + 1) % memsize, refl, t, omega arith);
}

-- The state after `n` evictions.
abbrev pub evict_times : ℕ → ℕ → ℕ → ℕ
evict_times memsize zero s = s
evict_times memsize (suc n) s = evict_times memsize n (fifo_evict memsize s).1

mod_start : (memsize s : ℕ) → s < memsize → s ≡ (s + 0) % memsize
mod_start memsize s h = simp unary_clauses (sym (mod-eq_of_lt h))

shift : (s n : ℕ) → s + 1 + n ≡ s + suc n
shift s n = omega arith

-- The head after `n` evictions has gone `n` places round the frames: the victims are taken in turn,
-- and a frame is chosen again after `memsize` evictions, never before.
pub fifo_round :
    (memsize n s : ℕ)
    → s < memsize
    → (fifo_evict memsize (evict_times memsize n s)).0 ≡ (s + n) % memsize
unfolding fifo_evict
fifo_round memsize zero s h = mod_start memsize s h
fifo_round memsize (suc n) s h =
    fifo_round memsize n ((s + 1) % memsize) (omega arith)
    ∙ mod-add-mod (s + 1) memsize n
    ∙ ap (λ x. x % memsize) (shift s n)
