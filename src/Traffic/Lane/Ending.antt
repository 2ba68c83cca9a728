-- ===== src/Traffic/Lane/Ending.antt =====
-- Every run of a lane ends: the work that is left falls at each step.
use csc369_operating_systems.Traffic.Lane.Progress.{progress}
use csc369_operating_systems.Base.{
  ℕ, zero, suc, ◌+◌, ◌*◌, ◌≤◌, ◌<◌, ◌≡◌, refl, ap, arith, Bool, false, some, List, length, ◌⊎◌, inl,
  inr,
}
use csc369_operating_systems.Traffic.Lane.{
  IsTesting, cross_passes, woken, passing, signal, Wakes, arrive_wakes, cross_wakes, arrive_done,
  cross_done, is_empty, Car, Lane, take_car, Monitor, Step, Place, arrive_returns, arrive_waits,
  arrive_puts, cross_returns, cross_waits, cross_takes, looping, waiting, returned,
}
use csc369_operating_systems.Traffic.Lane.Order.{reverse, IsOrdered}
use csc369_operating_systems.Traffic.Lane.Steps.{
  Step-IsOrdered, List-cases, first-IsOrdered, take_car_lem, with_take, put_car_lem,
}
use csc369_operating_systems.Traffic.Lane.Run.{
  Onward, arrived, onward, Run, start_monitor, Run-IsOrdered, no_deadlock,
}

abbrev pub rank : Place → ℕ
rank looping = 1
rank waiting = 0
rank woken = 1
rank passing = 2
rank returned = 0

-- Three for each car that is pending, three for each that has not crossed, and for each thread how far
-- it is from waiting or its end.
abbrev pub work : Monitor → ℕ
work m = 3 * length m.lane.in_cars + rank m.arriving + (3 * m.lane.inc + rank m.crossing)

rank-signal : (p : Place) → rank (signal p) ≤ rank p + 1
unfolding signal
rank-signal looping = omega arith
rank-signal waiting = omega arith
rank-signal woken = omega arith
rank-signal passing = omega arith
rank-signal returned = omega arith

rank-IsTesting : (p : Place) (is_done : Bool) → IsTesting p is_done → rank p ≡ 1
rank-IsTesting p is_done (inl e) = ap rank e
rank-IsTesting p is_done (inr (e, go)) = ap rank e

take_work :
    (start : List Car) (m : Monitor) (car : Car) (l : Lane)
    → IsOrdered start m
    → is_empty m.lane ≡ false
    → take_car m.lane ≡ some (car, l)
    → (l.in_cars ≡ m.lane.in_cars) × (l.inc + 1 ≡ m.lane.inc)
take_work start m car l v left e = elim (List-cases v.cars) [
  | inl none_held ↦ ground (arith, v.count, ap length none_held)
  | inr (x, rest, at) ↦
      let (here, w) = first-IsOrdered start m v x rest at in
      let same : l ≡ with_take m.lane = ground (arith, take_car_lem m.lane x here) in
      rw same (refl, omega (arith, v.pending, ap length at))
]

Step-work : (start : List Car) (m n : Monitor) → IsOrdered start m → Step m n → work n < work m
Step-work start m n v (arrive_returns p e) = rw p (omega arith)
Step-work start m n v (arrive_waits p full) =
    omega (arith, rank-IsTesting m.arriving (arrive_done m.lane) p)
Step-work start m n v (arrive_puts {l} p room e) =
    let (car, rest, at, same) = put_car_lem m.lane l e in
    rw (same, at)
      (omega (arith, rank-IsTesting m.arriving (arrive_done m.lane) p, rank-signal m.crossing))
Step-work start m n v (cross_returns p e) = rw p (omega arith)
Step-work start m n v (cross_waits p empty) =
    omega (arith, rank-IsTesting m.crossing (cross_done m.lane) p)
Step-work start m n v (cross_takes {car} {l} p left e) =
    let (kept, one) = take_work start m car l v left e in
    rw kept
      (omega (arith, one, rank-IsTesting m.crossing (cross_done m.lane) p, rank-signal m.arriving))
Step-work start m n v (cross_passes p) = rw p (omega arith)

Wakes-work : (m n : Monitor) → Wakes m n → work n ≡ work m + 1
Wakes-work m n (arrive_wakes p) = rw p (omega arith)
Wakes-work m n (cross_wakes p) = rw p (omega arith)

-- The threads return, if they go on as long as one of them can make a step.
abbrev pub Settles : Monitor → Type 0
Settles m = (n : Monitor) × Onward m n × (n.arriving ≡ returned) × (n.crossing ≡ returned)

finish_within :
    (start : List Car) (steps : ℕ) (m : Monitor) → IsOrdered start m → work m < steps → Settles m
finish_within start zero m v few = absurd (omega arith)
finish_within start (suc steps) m v few = elim (progress start m v (omega (arith, v.low))) [
  | inl (p, q) ↦ (m, arrived, p, q)
  | inr (n, step) ↦
      let less = Step-work start m n v step in
      let (o, rest, p, q) =
        finish_within start steps n (Step-IsOrdered start m v step) (omega arith) in
      (o, onward step rest, p, q)
]

module _ (lane_length : ℕ) (cars : List Car) (positive : 0 < lane_length) where
  -- In a run from the schedule of a lane with a place in its buffer, each step of either thread makes
  -- the work that is left smaller, whatever the interleaving, and a wake-up without a signal makes it
  -- larger by one, so that no run with finitely many of these goes on for ever. And unless both threads
  -- have returned, one of them can make a step without such a wake-up: no signal is lost, so that the
  -- two are never asleep together, nor one of them after the other has returned; from every state of
  -- the run such steps lead to one in which both have returned. A car that has been taken is assumed to
  -- get through the intersection.
  pub Run-ends :
      (m n : Monitor)
      → Run (start_monitor lane_length cars) m
      → (Step m n → work n < work m)
        × (Wakes m n → work n ≡ work m + 1)
        × ((m.arriving ≡ returned) × (m.crossing ≡ returned) ⊎ ((n' : Monitor) × Step m n'))
        × Settles m
  Run-ends m n r =
      let v = Run-IsOrdered lane_length cars positive r in
      (
        Step-work (reverse cars) m n v,
        Wakes-work m n,
        no_deadlock lane_length cars positive m r,
        finish_within (reverse cars) (work m + 1) m v (omega arith),
      )
