-- ===== src/Traffic/Lane/Run.antt =====
-- All runs of a lane from its schedule on.
use csc369_operating_systems.Base.{
  ℕ, ◌<◌, ◌≡◌, refl, sym, ◌∙◌, ap, subst, arith, none, List, [], ◌∷◌, ◌++◌, length, ◌⊎◌, inl,
  length-replicate,
}
use csc369_operating_systems.Traffic.Lane.{
  Wakes, Car, Lane, init_lane, schedule, Monitor, Step, looping, returned,
}
use csc369_operating_systems.Traffic.Lane.Order.{reverse, IsOrdered}
use csc369_operating_systems.Traffic.Lane.Steps.{Wakes-IsOrdered, Step-IsOrdered, append_assoc}
use csc369_operating_systems.Traffic.Lane.Progress.{progress}

-- The schedule of one lane, in the order of the file.
unfoldable pub schedule_all : List Car → Lane → Lane
schedule_all [] l = l
schedule_all (car ∷ cars) l = schedule_all cars (schedule car l)

abbrev pub start_monitor : ℕ → List Car → Monitor
start_monitor lane_length cars = record {
  lane = schedule_all cars (init_lane lane_length);
  arriving = looping;
  crossing = looping;
  crossed = [];
}

-- The states after any steps of the two threads, and any wake-ups without a signal.
pub data Run (m : Monitor) : Monitor → Type 0 where
  begun : Run m m
  stepped : {n n' : Monitor} → Run m n → Step n n' → Run m n'
  unprompted : {n n' : Monitor} → Run m n → Wakes n n' → Run m n'

-- Some steps of the two threads, with no wake-up without a signal.
pub data Onward : Monitor → Monitor → Type 0 where
  arrived : {m : Monitor} → Onward m m
  onward : {m n o : Monitor} → Step m n → Onward n o → Onward m o

-- Scheduling touches the pending list and its count alone.
schedule_all_lem :
    (cars : List Car) (l : Lane)
    → l.inc ≡ length l.in_cars
    → (pending : List Car) × (schedule_all cars l
        ≡ record l { in_cars = pending; inc = length pending })
      × (pending ≡ reverse cars ++ l.in_cars)
unfolding schedule_all schedule
schedule_all_lem [] l counted = (l.in_cars, ground arith, refl)
schedule_all_lem (car ∷ cars) l counted =
    let (pending, e, order) = schedule_all_lem cars (schedule car l) (omega (arith, counted)) in
    (pending, e, order ∙ sym (append_assoc (reverse cars) (car ∷ []) l.in_cars))

append-nil : (xs : List Car) → xs ++ [] ≡ xs
append-nil [] = refl
append-nil (x ∷ xs) = ap (λ (l : List Car). x ∷ l) (append-nil xs)

start-IsOrdered :
    (lane_length : ℕ) (cars : List Car)
    → 0 < lane_length
    → IsOrdered (reverse cars) (start_monitor lane_length cars)
unfolding init_lane
start-IsOrdered lane_length cars positive =
    let (pending, e, order) = schedule_all_lem cars (init_lane lane_length) refl in
    subst
      (λ (l : Lane).
        IsOrdered (reverse cars)
          (record { lane = l; arriving = looping; crossing = looping; crossed = [] }))
      (sym e)
      (record {
        cars = [];
        held = tt;
        size = length-replicate lane_length none;
        low = positive;
        count = refl;
        fits = omega arith;
        last = inl (omega arith, refl);
        order = order ∙ append-nil (reverse cars);
        pending = omega arith;
        arrive_returned = λ q. cc;
        arrive_waiting = λ q. cc;
        cross_returned = λ q. cc;
        cross_waiting = λ q. cc;
        arrive_woken = λ q. cc;
        cross_woken = λ q. cc;
        arrive_stays = cc;
      })

no_cars : (l : List Car) → length l ≡ 0 → l ≡ []
no_cars [] h = refl
no_cars (x ∷ l) h = absurd (omega arith)

module _ (lane_length : ℕ) (cars : List Car) (positive : 0 < lane_length) where
  -- In every run from the schedule of a lane that has a place in its buffer, the cars that have
  -- crossed, those in the buffer and those that are pending are the scheduled ones, the last of the
  -- file first, and none is lost or passed by another; the buffer keeps to its bounds and `inc` counts
  -- the cars that have not crossed.
  pub Run-IsOrdered :
      {m : Monitor} → Run (start_monitor lane_length cars) m → IsOrdered (reverse cars) m
  Run-IsOrdered begun = start-IsOrdered lane_length cars positive
  Run-IsOrdered (stepped {n} r s) = Step-IsOrdered (reverse cars) n (Run-IsOrdered r) s
  Run-IsOrdered (unprompted {n} r w) = Wakes-IsOrdered (reverse cars) n (Run-IsOrdered r) w

  -- When, in a run from the schedule of a lane that has a place in its buffer, both threads have
  -- returned, every scheduled car has crossed, the last of the file first.
  pub all_cross :
      (m : Monitor)
      → Run (start_monitor lane_length cars) m
      → m.arriving ≡ returned
      → m.crossing ≡ returned
      → reverse m.crossed ≡ reverse cars
  all_cross m r p q =
      let v = Run-IsOrdered r in
      let none_held = no_cars v.cars (omega (arith, v.pending, v.cross_returned q)) in
      let none_left : [] ≡ v.cars ++ m.lane.in_cars = rw (none_held, v.arrive_returned p) refl in
      sym (append-nil (reverse m.crossed))
      ∙ ap (λ (l : List Car). reverse m.crossed ++ l) none_left
      ∙ v.order

  -- In every state of a run, both threads have returned, or one of them can make a step: the lane does
  -- not deadlock.
  pub no_deadlock :
      (m : Monitor)
      → Run (start_monitor lane_length cars) m
      → (m.arriving ≡ returned) × (m.crossing ≡ returned) ⊎ ((n : Monitor) × Step m n)
  no_deadlock m r = let v = Run-IsOrdered r in progress (reverse cars) m v (omega (arith, v.low))
