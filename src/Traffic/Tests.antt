-- ===== src/Traffic/Tests.antt =====
-- The theorems on the intersection at one car in a lane of two places, and at concrete directions.
use csc369_operating_systems.Traffic.Lane.Order.{IsOrdered}
use csc369_operating_systems.Traffic.Lane.Run.{
  stepped, begun, stepped, start_monitor, Run, Run-IsOrdered, all_cross, schedule_all,
}
use csc369_operating_systems.Traffic.Lane.Ending.{Settles, Run-ends, work}
use csc369_operating_systems.Base.{
  ℕ, ◌+◌, ◌<◌, ◌≡◌, refl, arith, none, some, List, [], ◌∷◌, ◌⊎◌, inl, inr,
}
use csc369_operating_systems.Traffic.Path.{
  locked-compute_path, compute_path_garbage, locked, compute_path, north, west, south, east,
}
use csc369_operating_systems.Traffic.Lane.{
  cross_waits, cross_passes, signal, Wakes, take_car, put_car, init_lane, schedule, Car, Lane,
  Monitor, Step, returned, arrive_returns, arrive_puts, cross_returns, cross_takes,
}

abbrev one_car : Car
one_car = record { id = 7; in_dir = north; out_dir = south }

abbrev crossed_lane : Lane
crossed_lane = record {
  in_cars = [];
  out_cars = [];
  inc = 0;
  passed = 0;
  buffer = some one_car ∷ none ∷ [];
  head = 1;
  tail = 1;
  capacity = 2;
  in_buf = 0;
}

abbrev finished : Monitor
finished = record {
  lane = crossed_lane;
  arriving = returned;
  crossing = returned;
  crossed = one_car ∷ [];
}

-- The crossing thread waits, the car arrives and wakes it, it crosses, and both threads return.
one-Run : Run (start_monitor 2 (one_car ∷ [])) finished
unfolding schedule_all schedule init_lane put_car take_car signal
one-Run =
    let asleep = stepped begun (cross_waits (inr (refl, refl)) refl) in
    let arrived = stepped asleep (arrive_puts (inr (refl, refl)) refl refl) in
    let taken = stepped arrived (cross_takes (inl refl) refl refl) in
    let passed = stepped taken (cross_passes refl) in
    stepped (stepped passed (arrive_returns refl refl)) (cross_returns refl refl)

Run-IsOrdered_example : IsOrdered (one_car ∷ []) finished
Run-IsOrdered_example = Run-IsOrdered 2 (one_car ∷ []) (omega arith) one-Run

all_cross_example : one_car ∷ [] ≡ one_car ∷ []
all_cross_example = all_cross 2 (one_car ∷ []) (omega arith) finished one-Run refl refl

Run-ends_example :
    (Step finished finished → work finished < work finished)
    × (Wakes finished finished → work finished ≡ work finished + 1)
    × ((finished.arriving ≡ returned) × (finished.crossing ≡ returned)
        ⊎ ((n : Monitor) × Step finished n))
    × Settles finished
Run-ends_example = Run-ends 2 (one_car ∷ []) (omega arith) finished finished one-Run

locked-compute_path_example :
    (path : List ℕ) × (compute_path 3 1 (9 ∷ 9 ∷ 9 ∷ 9 ∷ []) ≡ some path)
    × (locked path ≡ (some 2, some 3))
locked-compute_path_example = locked-compute_path east west 9 9 9 9 refl

compute_path_garbage_example :
    (path : List ℕ) × (compute_path 1 2 (5 ∷ 6 ∷ 7 ∷ 8 ∷ []) ≡ some path)
    × (locked path ≡ (some 2, some 6))
compute_path_garbage_example = compute_path_garbage 5 6 7 8
