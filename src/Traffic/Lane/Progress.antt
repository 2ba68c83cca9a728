-- ===== src/Traffic/Lane/Progress.antt =====
-- The two threads of a lane never wait for each other for ever, and every car crosses.
use csc369_operating_systems.Base.{
  ◌<◌, ◌≡◌, refl, ap, arith, some, List, ◌∷◌, length, ◌⊎◌, inl, inr, Bool-cases,
}
use csc369_operating_systems.Traffic.Lane.{
  IsTesting, cross_passes, woken, passing, Car, Lane, put_car, Monitor, Step, Place, arrive_done,
  cross_done, is_full, is_empty, arrive_returns, arrive_waits, arrive_puts, cross_returns,
  cross_waits, cross_takes, looping, waiting, returned,
}
use csc369_operating_systems.Traffic.Lane.Order.{IsOrdered}
use csc369_operating_systems.Traffic.Lane.Steps.{
  arrive_left, List-cases, first-IsOrdered, take_car_lem, with_put,
}

put_car-some :
    (l : Lane) (car : Car) (rest : List Car)
    → l.in_cars ≡ car ∷ rest
    → put_car l ≡ some (with_put l car rest)
unfolding put_car
put_car-some l car rest at = ground arith

module _ (start : List Car) (m : Monitor) (v : IsOrdered start m)
    (positive : 0 < m.lane.capacity) where
  abbrev Going : Type 0
  Going = (n : Monitor) × Step m n

  cross_tests : IsTesting m.crossing (cross_done m.lane) → Going
  cross_tests p = elim (Bool-cases (is_empty m.lane)) [
    | inl empty ↦ (_, cross_waits p empty)
    | inr left ↦ elim (List-cases v.cars) [
      | inl none_held ↦ ground (arith, v.count, ap length none_held)
      | inr (x, rest, at) ↦
          let (here, w) = first-IsOrdered start m v x rest at in
          (_, cross_takes p left (take_car_lem m.lane x here))
    ]
  ]

  arrive_tests : IsTesting m.arriving (arrive_done m.lane) → Going
  arrive_tests p = elim (Bool-cases (is_full m.lane)) [
    | inl full ↦ (_, arrive_waits p full)
    | inr room ↦ elim (List-cases m.lane.in_cars) [
      | inl none_left ↦ absurd (arrive_left start m v p none_left)
      | inr (x, rest, at) ↦ (_, arrive_puts p room (put_car-some m.lane x rest at))
    ]
  ]

  cross_loops : m.crossing ≡ looping → Going
  cross_loops p = elim (Bool-cases (cross_done m.lane)) [
    | inl end ↦ (_, cross_returns p end)
    | inr go ↦ cross_tests (inr (p, go))
  ]

  arrive_loops : m.arriving ≡ looping → Going
  arrive_loops p = elim (Bool-cases (arrive_done m.lane)) [
    | inl end ↦ (_, arrive_returns p end)
    | inr go ↦ arrive_tests (inr (p, go))
  ]

  -- With the other thread asleep or returned, the crossing thread is not: the buffer cannot be full
  -- and empty, and a full one is not at an end.
  cross_awake : (place : Place) → m.crossing ≡ place → m.arriving ≡ waiting → Going
  cross_awake looping p q = cross_loops p
  cross_awake woken p q = cross_tests (inl p)
  cross_awake passing p q = (_, cross_passes p)
  cross_awake waiting p q =
      let full = (v.arrive_waiting q).1 in let empty = (v.cross_waiting p).1 in ground arith
  cross_awake returned p q =
      let full = (v.arrive_waiting q).1 in
      let none_left = v.cross_returned p in ground (arith, v.pending, v.count)

  -- With all cars in the buffer, and one left, the buffer is not empty.
  cross_alone :
      (place : Place) → m.crossing ≡ place → m.arriving ≡ returned → (m.crossing ≡ returned) ⊎ Going
  cross_alone looping p q = inr (cross_loops p)
  cross_alone woken p q = inr (cross_tests (inl p))
  cross_alone passing p q = inr (_, cross_passes p)
  cross_alone waiting p q =
      let (some_left, empty) = v.cross_waiting p in
      absurd (some_left (ground (arith, v.count, v.pending, ap length (v.arrive_returned q))))
  cross_alone returned p q = inl p

  -- While the lane is in order and its buffer has a place, the threads do not wait for each other for
  -- ever: both have returned, or one can go on.
  going :
      (place : Place)
      → m.arriving ≡ place
      → (m.arriving ≡ returned) × (m.crossing ≡ returned) ⊎ Going
  going looping p = inr (arrive_loops p)
  going woken p = inr (arrive_tests (inl p))
  going waiting p = inr (cross_awake m.crossing refl p)
  going returned p = elim (cross_alone m.crossing refl p) [
    | inl q ↦ inl (p, q)
    | inr step ↦ inr step
  ]
  going passing p = absurd (v.arrive_stays p)

  pub progress : (m.arriving ≡ returned) × (m.crossing ≡ returned) ⊎ ((n : Monitor) × Step m n)
  progress = going m.arriving refl
