-- ===== src/Traffic/Lane.antt =====
-- Assignment2: a lane of traffic.h, and what `car_arrive` and `car_cross` of cars.c do under its lock.
pub mod Order
pub mod Signals
pub mod Steps
pub mod Progress
pub mod Run
pub mod Ending
use csc369_operating_systems.Base.{
  has_bit-clear_bit, has_bit-set_bit, length-set, get_or_of_get_elem?, get_or-set_ne,
  get_or-set_self, lt_of_get_elem?, ℕ_discrete, dec_lt, dec_le, get_elem?_of_lt, ℕ, zero, suc, ◌+◌,
  ◌-◌, ◌*◌, ◌/◌, ◌%◌, ◌^◌, ◌≤◌, ◌<◌, ◌≡◌, ◌≢◌, refl, sym, ◌∙◌, ap, subst, fun_ext, arith, Bool,
  true, false, Option, none, some, List, [], ◌∷◌, ◌++◌, if◌then◌else◌, ◌==◌, ◌&&◌, ◌||◌, not, ltb,
  leb, has_bit, set_bit, clear_bit, get_elem?, set, get_or, length, take, drop, update, ◌⊎◌, inl,
  inr, ◌↔◌, Bool-cases, Option-cases, replicate,
}
use csc369_operating_systems.Traffic.Path.{Direction}

pub record Car : Type 0 where
  pub id : ℕ
  pub in_dir : Direction
  pub out_dir : Direction

-- `struct lane`. A place of the buffer is `none` until it is written.
pub record Lane : Type 0 where
  pub in_cars : List Car
  pub out_cars : List Car
  pub inc : ℕ
  pub passed : ℕ
  pub buffer : List (Option Car)
  pub head : ℕ
  pub tail : ℕ
  pub capacity : ℕ
  pub in_buf : ℕ

-- One lane of `init_intersection`; LANE_LENGTH is an argument.
unfoldable pub init_lane : ℕ → Lane
init_lane lane_length = record {
  in_cars = [];
  out_cars = [];
  inc = 0;
  passed = 0;
  buffer = replicate lane_length none;
  head = 0;
  tail = 0;
  capacity = lane_length;
  in_buf = 0;
}

-- What `parse_schedule` does to the lane of a car.
unfoldable pub schedule : Car → Lane → Lane
schedule car l = record l { in_cars = car ∷ l.in_cars; inc = l.inc + 1 }

-- An index after it has been moved on by one.
abbrev pub next_index : ℕ → ℕ → ℕ
next_index capacity i = if leb capacity (i + 1) then 0 else i + 1

-- The end of the loop of `car_arrive`, and of `car_cross`.
abbrev pub arrive_done : Lane → Bool
arrive_done l = (l.inc == 0) || (elim l.in_cars [ [] ↦ true | car ∷ rest ↦ false ])

abbrev pub cross_done : Lane → Bool
cross_done l = l.inc == 0

-- Whether the threads have to wait at their condition variables.
abbrev pub is_full : Lane → Bool
is_full l = l.in_buf == l.capacity

abbrev pub is_empty : Lane → Bool
is_empty l = l.in_buf == 0

-- A car goes from the pending list to the buffer. With no pending car it would be a null pointer.
unfoldable pub put_car : Lane → Option Lane
put_car l = elim l.in_cars [
  | [] ↦ none
  | car ∷ rest ↦ some (record l {
    buffer = set l.buffer l.tail (some car);
    tail = next_index l.capacity l.tail;
    in_buf = l.in_buf + 1;
    in_cars = rest;
  })
]

-- A car is taken from the buffer. `none`: the place has not been written.
unfoldable pub take_car : Lane → Option (Car × Lane)
take_car l = elim (get_elem? l.buffer l.head) [
  | none ↦ none
  | some place ↦ elim place [
    | none ↦ none
    | some car ↦ some (
      car,
      record l { head = next_index l.capacity l.head; in_buf = l.in_buf - 1; inc = l.inc - 1 },
    )
  ]
]

-- A car that has crossed, in the lane of its `out_dir`.
unfoldable pub leave : Car → Lane → Lane
leave car exit = record exit { out_cars = car ∷ exit.out_cars; passed = exit.passed + 1 }

-- Where a thread is: before its loop takes the lock; asleep at its condition variable; awake again, in
-- `pthread_cond_wait` for the lock; on its way through the intersection, with no lock of its own lane;
-- or returned.
pub data Place : Type 0 where
  looping waiting woken passing returned : Place

-- `pthread_cond_signal`: the thread that waits at the variable, if it does, is woken. Only `car_arrive`
-- of the lane waits at `consumer_cv`, and only `car_cross` at `producer_cv`.
unfoldable pub signal : Place → Place
signal waiting = woken
signal looping = looping
signal woken = woken
signal passing = passing
signal returned = returned

-- A lane with its two threads, and the cars that have been taken so far, the last one first.
pub record Monitor : Type 0 where
  pub lane : Lane
  pub arriving : Place
  pub crossing : Place
  pub crossed : List Car

-- The thread holds the lock where it tests whether it has to wait: at the start of its loop, which it
-- does not leave, or after it has been woken.
abbrev pub IsTesting : Place → Bool → Type 0
IsTesting place is_done = (place ≡ woken) ⊎ (place ≡ looping) × (is_done ≡ false)

-- What happens under the lock, from one release of it to the next; `signal` alone ends a wait. The
-- signal to `consumer_cv` before `car_arrive` returns finds no thread that waits there. A thread that
-- has taken a car comes back to its loop when it has let go of the quadrants and the lane of the exit.
pub data Step (m : Monitor) : Monitor → Type 0 where
  arrive_returns :
      m.arriving ≡ looping → arrive_done m.lane ≡ true → Step m (record m { arriving = returned })
  arrive_waits :
      IsTesting m.arriving (arrive_done m.lane)
      → is_full m.lane ≡ true
      → Step m (record m { arriving = waiting })
  arrive_puts :
      {l : Lane}
      → IsTesting m.arriving (arrive_done m.lane)
      → is_full m.lane ≡ false
      → put_car m.lane ≡ some l
      → Step m (record m { lane = l; arriving = looping; crossing = signal m.crossing })
  cross_returns :
      m.crossing ≡ looping → cross_done m.lane ≡ true → Step m (record m { crossing = returned })
  cross_waits :
      IsTesting m.crossing (cross_done m.lane)
      → is_empty m.lane ≡ true
      → Step m (record m { crossing = waiting })
  cross_takes :
      {car : Car} {l : Lane}
      → IsTesting m.crossing (cross_done m.lane)
      → is_empty m.lane ≡ false
      → take_car m.lane ≡ some (car, l)
      → Step m (record m {
        lane = l;
        arriving = signal m.arriving;
        crossing = passing;
        crossed = car ∷ m.crossed;
      })
  cross_passes : m.crossing ≡ passing → Step m (record m { crossing = looping })

-- A wait that ends without a signal, as POSIX allows.
pub data Wakes (m : Monitor) : Monitor → Type 0 where
  arrive_wakes : m.arriving ≡ waiting → Wakes m (record m { arriving = woken })
  cross_wakes : m.crossing ≡ waiting → Wakes m (record m { crossing = woken })
