-- ===== src/Traffic/Lane/Steps.antt =====
-- Every step of the two threads keeps the order of the cars.
use csc369_operating_systems.Traffic.Lane.Signals.{
  signal_waits, signal_returned, signal_passing, arrive_signalled, cross_signalled,
}
use csc369_operating_systems.Base.{
  length-set, ℕ, suc, ◌+◌, ◌-◌, ◌<◌, ◌≡◌, ◌≢◌, refl, sym, ◌∙◌, ap, subst, arith, true, false, some,
  List, [], ◌∷◌, ◌++◌, get_elem?, set, length, ◌⊎◌, inl, inr, length-append,
}
use csc369_operating_systems.Traffic.Lane.{
  cross_passes, woken, passing, signal, IsTesting, Wakes, arrive_wakes, cross_wakes, cross_done,
  Place, Car, Lane, next_index, put_car, take_car, Monitor, Step, arrive_done, is_full, is_empty,
  arrive_returns, arrive_waits, arrive_puts, cross_returns, cross_waits, cross_takes, looping,
  waiting, returned,
}
use csc369_operating_systems.Traffic.Lane.Order.{
  IsTail-next, Holds, IsTail, put-Holds, reverse, IsOrdered,
}

pub append_assoc : (xs ys zs : List Car) → (xs ++ ys) ++ zs ≡ xs ++ (ys ++ zs)
append_assoc [] ys zs = refl
append_assoc (x ∷ xs) ys zs = ap (λ (l : List Car). x ∷ l) (append_assoc xs ys zs)

abbrev pub with_put : Lane → Car → List Car → Lane
with_put l car rest = record l {
  buffer = set l.buffer l.tail (some car);
  tail = next_index l.capacity l.tail;
  in_buf = l.in_buf + 1;
  in_cars = rest;
}

pub put_car_lem :
    (l l' : Lane)
    → put_car l ≡ some l'
    → (car : Car) × (rest : List Car) × (l.in_cars ≡ car ∷ rest) × (l' ≡ with_put l car rest)
unfolding put_car
put_car_lem l l' e = ground arith

abbrev pub with_take : Lane → Lane
with_take l = record l {
  head = next_index l.capacity l.head;
  in_buf = l.in_buf - 1;
  inc = l.inc - 1;
}

pub take_car_lem :
    (l : Lane) (car : Car)
    → get_elem? l.buffer l.head ≡ some (some car)
    → take_car l ≡ some (car, with_take l)
unfolding take_car
take_car_lem l car e = ground arith

put-IsOrdered :
    (start : List Car) (m : Monitor) (car : Car) (rest : List Car)
    → IsOrdered start m
    → m.lane.in_cars ≡ car ∷ rest
    → is_full m.lane ≡ false
    → IsOrdered start (record m {
      lane = with_put m.lane car rest;
      arriving = looping;
      crossing = signal m.crossing;
    })
put-IsOrdered start m car rest v at room =
    let few : length v.cars < m.lane.capacity = ground (arith, v.fits, v.count) in
    record {
      cars = v.cars ++ (car ∷ []);
      held =
          put-Holds m.lane.buffer m.lane.capacity m.lane.head m.lane.tail v.cars car v.size v.low
            few v.last v.held;
      size = length-set m.lane.buffer m.lane.tail (some car) ∙ v.size;
      low = v.low;
      count = omega (arith, v.count, length-append v.cars (car ∷ []));
      fits = omega (arith, few, length-append v.cars (car ∷ []));
      last = ground (arith, v.last, v.low, few, length-append v.cars (car ∷ []));
      order =
          ap (λ (q : List Car). reverse m.crossed ++ q)
            (append_assoc v.cars (car ∷ []) rest ∙ ap (λ (q : List Car). v.cars ++ q) (sym at))
          ∙ v.order;
      pending = omega (arith, v.pending, length-append v.cars (car ∷ []), ap length at);
      arrive_returned = λ e. cc;
      arrive_waiting = λ e. cc;
      arrive_woken = λ e. cc;
      arrive_stays = λ e. cc;
      cross_returned = λ e. v.cross_returned (signal_returned m.crossing e);
      cross_waiting = λ e. absurd (signal_waits m.crossing e);
      cross_woken = cross_signalled start m v;
    }

pub List-cases : (q : List Car) → (q ≡ []) ⊎ ((x : Car) × (rest : List Car) × (q ≡ x ∷ rest))
List-cases [] = inl refl
List-cases (x ∷ rest) = inr (x, rest, refl)

module _ (start : List Car) (m : Monitor) (v : IsOrdered start m) where
  pub first-IsOrdered :
      (x : Car) (rest : List Car)
      → v.cars ≡ x ∷ rest
      → (get_elem? m.lane.buffer m.lane.head ≡ some (some x))
        × IsOrdered start (record m {
          lane = with_take m.lane;
          arriving = signal m.arriving;
          crossing = passing;
          crossed = x ∷ m.crossed;
        })
  first-IsOrdered x rest at =
      let (here, held) =
        subst (λ (q : List Car). Holds m.lane.buffer m.lane.capacity m.lane.head q) at v.held in
      let long : length v.cars ≡ suc (length rest) = ap length at in
      let t : IsTail m.lane.capacity m.lane.head (suc (length rest)) m.lane.tail =
        subst (λ (n : ℕ). IsTail m.lane.capacity m.lane.head n m.lane.tail) long v.last in
      let (low, last) =
        IsTail-next m.lane.capacity m.lane.head (length rest) m.lane.tail v.low
          (omega (arith, long, v.fits)) t in
      (
        here,
        record {
          cars = rest;
          held = held;
          size = v.size;
          low = low;
          count = omega (arith, v.count, long);
          fits = omega (arith, v.fits, long);
          last = last;
          order =
              append_assoc (reverse m.crossed) (x ∷ []) (rest ++ m.lane.in_cars)
              ∙ ap (λ (q : List Car). reverse m.crossed ++ (q ++ m.lane.in_cars)) (sym at)
              ∙ v.order;
          pending = omega (arith, v.pending, long);
          arrive_returned = λ e. v.arrive_returned (signal_returned m.arriving e);
          arrive_waiting = λ e. absurd (signal_waits m.arriving e);
          arrive_woken = arrive_signalled start m v;
          arrive_stays = λ e. v.arrive_stays (signal_passing m.arriving e);
          cross_returned = λ e. cc;
          cross_waiting = λ e. cc;
          cross_woken = λ e. cc;
        },
      )

  take-IsOrdered :
      (car : Car) (l : Lane)
      → is_empty m.lane ≡ false
      → take_car m.lane ≡ some (car, l)
      → IsOrdered start (record m {
        lane = l;
        arriving = signal m.arriving;
        crossing = passing;
        crossed = car ∷ m.crossed;
      })
  take-IsOrdered car l some_left done_take = elim (List-cases v.cars) [
    | inl none_held ↦ let none = ap length none_held in ground (arith, v.count)
    | inr (x, rest, at) ↦
        let (here, w) = first-IsOrdered x rest at in
        let same : (car ≡ x) × (l ≡ with_take m.lane) =
          ground (arith, take_car_lem m.lane x here) in
        rw (same.0, same.1) w
  ]

  placed-IsOrdered :
      (a c : Place)
      → (a ≡ returned → m.lane.in_cars ≡ [])
      → (a ≡ waiting → (m.lane.in_cars ≢ []) × (is_full m.lane ≡ true))
      → (a ≡ woken → m.lane.in_cars ≢ [])
      → a ≢ passing
      → (c ≡ returned → m.lane.inc ≡ 0)
      → (c ≡ waiting → (m.lane.inc ≢ 0) × (is_empty m.lane ≡ true))
      → (c ≡ woken → m.lane.inc ≢ 0)
      → IsOrdered start (record m { arriving = a; crossing = c })
  placed-IsOrdered a c ar aw ak stays cr cw ck = record {
    cars = v.cars;
    held = v.held;
    size = v.size;
    low = v.low;
    count = v.count;
    fits = v.fits;
    last = v.last;
    order = v.order;
    pending = v.pending;
    arrive_returned = ar;
    arrive_waiting = aw;
    arrive_woken = ak;
    arrive_stays = stays;
    cross_returned = cr;
    cross_waiting = cw;
    cross_woken = ck;
  }

  arriving-IsOrdered :
      (a : Place)
      → (a ≡ returned → m.lane.in_cars ≡ [])
      → (a ≡ waiting → (m.lane.in_cars ≢ []) × (is_full m.lane ≡ true))
      → (a ≡ woken → m.lane.in_cars ≢ [])
      → a ≢ passing
      → IsOrdered start (record m { arriving = a })
  arriving-IsOrdered a ar aw ak stays =
      placed-IsOrdered a m.crossing ar aw ak stays v.cross_returned v.cross_waiting v.cross_woken

  crossing-IsOrdered :
      (c : Place)
      → (c ≡ returned → m.lane.inc ≡ 0)
      → (c ≡ waiting → (m.lane.inc ≢ 0) × (is_empty m.lane ≡ true))
      → (c ≡ woken → m.lane.inc ≢ 0)
      → IsOrdered start (record m { crossing = c })
  crossing-IsOrdered c =
      placed-IsOrdered m.arriving c v.arrive_returned v.arrive_waiting v.arrive_woken v.arrive_stays

  no_more : arrive_done m.lane ≡ true → m.lane.in_cars ≡ []
  no_more e = elim (List-cases m.lane.in_cars) [
    | inl none_left ↦ none_left
    | inr (x, rest, at) ↦ ground (arith, v.pending, ap length at)
  ]

  -- A thread that tests whether it has to wait has something left to do.
  pub arrive_left : IsTesting m.arriving (arrive_done m.lane) → m.lane.in_cars ≢ []
  arrive_left (inl p) none_left = v.arrive_woken p none_left
  arrive_left (inr (p, go)) none_left = ground (arith, none_left)

  pub cross_left : IsTesting m.crossing (cross_done m.lane) → m.lane.inc ≢ 0
  cross_left (inl p) = v.cross_woken p
  cross_left (inr (p, go)) = λ e. ground arith

  -- A step of either thread, at any interleaving, keeps the lane in order: `crossed`, the buffer and
  -- the pending list hold the cars of the pending list at the start, in its order; `inc` counts those
  -- that have not crossed; the buffer keeps to its bounds; and a thread waits only while it has to.
  pub Step-IsOrdered : {n : Monitor} → Step m n → IsOrdered start n
  Step-IsOrdered (arrive_returns p e) =
      arriving-IsOrdered returned (λ q. no_more e) (λ q. cc) (λ q. cc) (λ q. cc)
  Step-IsOrdered (arrive_waits p full) =
      arriving-IsOrdered waiting (λ q. cc) (λ q. (arrive_left p, full)) (λ q. cc) (λ q. cc)
  Step-IsOrdered (arrive_puts {l} p room e) =
      let (car, rest, at, same) = put_car_lem m.lane l e in
      rw same (put-IsOrdered start m car rest v at room)
  Step-IsOrdered (cross_returns p e) =
      crossing-IsOrdered returned (λ q. ground arith) (λ q. cc) (λ q. cc)
  Step-IsOrdered (cross_waits p empty) =
      crossing-IsOrdered waiting (λ q. cc) (λ q. (cross_left p, empty)) (λ q. cc)
  Step-IsOrdered (cross_takes {car} {l} p left e) = take-IsOrdered car l left e
  Step-IsOrdered (cross_passes p) = crossing-IsOrdered looping (λ q. cc) (λ q. cc) (λ q. cc)

  pub Wakes-IsOrdered : {n : Monitor} → Wakes m n → IsOrdered start n
  Wakes-IsOrdered (arrive_wakes p) =
      arriving-IsOrdered woken (λ q. cc) (λ q. cc) (λ q. (v.arrive_waiting p).0) (λ q. cc)
  Wakes-IsOrdered (cross_wakes p) =
      crossing-IsOrdered woken (λ q. cc) (λ q. cc) (λ q. (v.cross_waiting p).0)
