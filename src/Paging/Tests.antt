-- ===== src/Paging/Tests.antt =====
-- The theorems on the paging system at concrete states.
use csc369_operating_systems.Paging.Policy.Opt.{opt_evict_last, opt_evict}
use csc369_operating_systems.Paging.Bitmap.Marks.{bitmap_unmark-mark}
use csc369_operating_systems.Paging.Bitmap.Create.{partial-IsValid, partial, bitmap_create_lem}
use csc369_operating_systems.Paging.Policy.Clock.{clock_evict_total, clock_evict, Clock}
use csc369_operating_systems.Paging.Bitmap.Laws.{used, bitmap_alloc_lem, IsValid, Allocated}
use csc369_operating_systems.Paging.Policy.Fifo.{fifo_round, evict_times, fifo_evict}
use csc369_operating_systems.Paging.Bitmap.{
  bitmap_unmark, bitmap_isset, bitmap_mark, returned, bitmap_create, bitmap_alloc, Bitmap,
}
use csc369_operating_systems.Paging.Policy.Clock.{IsSound}
use csc369_operating_systems.Base.{
  ◌^◌, ◌*◌, if◌then◌else◌, ◌==◌, ℕ, ◌+◌, ◌%◌, ◌<◌, ◌≡◌, refl, true, false, some, [], ◌∷◌, arith,
}

-- Forty indices, none in use.
bitmap_create_lem_example :
    (b : Bitmap) × (bitmap_create true 40 ≡ returned b)
    × (b.nbits ≡ 40)
    × IsValid b
    × ((i : ℕ) → i < 40 → used b i ≡ false)
bitmap_create_lem_example = bitmap_create_lem 40 (omega arith)

forty-IsValid : IsValid (partial 40)
forty-IsValid = partial-IsValid 40 (omega arith) (omega arith)

bitmap_alloc_lem_example : Allocated (partial 40) (bitmap_alloc (partial 40))
bitmap_alloc_lem_example = bitmap_alloc_lem (partial 40) forty-IsValid

fifo_round_example : (fifo_evict 3 (evict_times 3 5 1)).0 ≡ (1 + 5) % 3
fifo_round_example = fifo_round 3 5 1 (omega arith)

abbrev all_referenced : Clock
all_referenced = record { clockhand = 1; referenced = true ∷ true ∷ [] }

clock_evict_total_example :
    (f : ℕ) × (c' : Clock) × (clock_evict 2 all_referenced ≡ some (f, c')) × (f < 2) × IsSound 2 c'
clock_evict_total_example =
    clock_evict_total 2 all_referenced (record { hand = omega arith; size = refl })

bitmap_unmark-mark_example :
    (b1 : Bitmap) × (b2 : Bitmap) × (bitmap_mark (partial 40) 5 ≡ returned b1)
    × (bitmap_isset b1 5 ≡ returned true)
    × (bitmap_unmark b1 5 ≡ returned b2)
    × ((j : ℕ) → used b1 j ≡ (if 5 == j then true else used (partial 40) j))
    × IsValid b2
    × ((j : ℕ) → used b2 j ≡ used (partial 40) j)
bitmap_unmark-mark_example = bitmap_unmark-mark (partial 40) 5 forty-IsValid (omega arith) refl

small_words : (i : ℕ) → i < 3 → i * 4096 + 15 < 2 ^ 30
small_words i h = omega arith

opt_evict_last_example :
    (opt_evict (λ i. i * 4096 + 15) 3 (λ i. record { placeholder = i; ceiling = 1 })).0 ≡ some 2
opt_evict_last_example =
    opt_evict_last (λ i. i * 4096 + 15) 2 (λ i. record { placeholder = i; ceiling = 1 }) small_words
