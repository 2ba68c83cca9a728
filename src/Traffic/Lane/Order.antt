-- ===== src/Traffic/Lane/Order.antt =====
-- The lane is a queue: the cars cross in the order of the pending list, and none is lost.
use csc369_operating_systems.Base.{
  ℕ, zero, suc, ◌+◌, ◌≤◌, ◌<◌, ◌≡◌, ◌≢◌, refl, ◌∙◌, ap, arith, true, Option, some, List, [], ◌∷◌,
  ◌++◌, get_elem?, set, length, ◌⊎◌,
}
use csc369_operating_systems.Traffic.Lane.{
  passing, waiting, woken, is_full, is_empty, returned, Car, next_index, Monitor,
}

get_elem?-set_self :
    {A : Type 0} (xs : List A) (i : ℕ) (v : A) → i < length xs → get_elem? (set xs i v) i ≡ some v
get_elem?-set_self [] i v h = absurd (omega arith)
get_elem?-set_self (x ∷ xs) zero v h = refl
get_elem?-set_self (x ∷ xs) (suc i) v h = get_elem?-set_self xs i v (omega arith)

get_elem?-set_ne :
    {A : Type 0} (xs : List A) (i j : ℕ) (v : A) → i ≢ j → get_elem? (set xs i v) j ≡ get_elem? xs j
get_elem?-set_ne [] i j v h = refl
get_elem?-set_ne (x ∷ xs) zero zero v h = absurd (h refl)
get_elem?-set_ne (x ∷ xs) zero (suc j) v h = refl
get_elem?-set_ne (x ∷ xs) (suc i) zero v h = refl
get_elem?-set_ne (x ∷ xs) (suc i) (suc j) v h = get_elem?-set_ne xs i j v (λ e. h (ap suc e))

-- The buffer holds the cars from the index `i` on, going round.
abbrev pub Holds : List (Option Car) → ℕ → ℕ → List Car → Type 0
Holds buffer capacity i [] = Unit {0}
Holds buffer capacity i (car ∷ cars) =
    (get_elem? buffer i ≡ some (some car)) × Holds buffer capacity (next_index capacity i) cars

-- `tail` is `n` places after `head`, going round.
abbrev pub IsTail : ℕ → ℕ → ℕ → ℕ → Type 0
IsTail capacity head n tail =
    (head + n < capacity) × (tail ≡ head + n) ⊎ (capacity ≤ head + n) × (tail + capacity ≡ head + n)

pub IsTail-next :
    (capacity head n tail : ℕ)
    → head < capacity
    → n < capacity
    → IsTail capacity head (suc n) tail
    → (next_index capacity head < capacity) × IsTail capacity (next_index capacity head) n tail
IsTail-next capacity head n tail low few t = ground arith

pub put-Holds :
    (buffer : List (Option Car)) (capacity head tail : ℕ) (cars : List Car) (car : Car)
    → length buffer ≡ capacity
    → head < capacity
    → length cars < capacity
    → IsTail capacity head (length cars) tail
    → Holds buffer capacity head cars
    → Holds (set buffer tail (some car)) capacity head (cars ++ (car ∷ []))
put-Holds buffer capacity head tail [] car size low few t held =
    let same : tail ≡ head = ground arith in
    (rw same (get_elem?-set_self buffer head (some car) (omega arith)), tt)
put-Holds buffer capacity head tail (x ∷ cars) car size low few t (here, held) =
    let other : tail ≢ head = ground arith in
    let (low', t') = IsTail-next capacity head (length cars) tail low (omega arith) t in
    (
      get_elem?-set_ne buffer tail head (some car) other ∙ here,
      put-Holds buffer capacity (next_index capacity head) tail cars car size low' (omega arith) t'
          held,
    )

abbrev pub reverse : List Car → List Car
reverse [] = []
reverse (x ∷ xs) = reverse xs ++ (x ∷ [])

-- The cars `cars` stand in the buffer of a lane, between those that have crossed and those that are
-- pending, in the order of `start`. A thread waits only while it has to, and has something left to do.
pub record IsOrdered (start : List Car) (m : Monitor) : Type 0 where
  pub cars : List Car
  pub held : Holds m.lane.buffer m.lane.capacity m.lane.head cars
  pub size : length m.lane.buffer ≡ m.lane.capacity
  pub low : m.lane.head < m.lane.capacity
  pub count : m.lane.in_buf ≡ length cars
  pub fits : length cars ≤ m.lane.capacity
  pub last : IsTail m.lane.capacity m.lane.head (length cars) m.lane.tail
  pub order : reverse m.crossed ++ (cars ++ m.lane.in_cars) ≡ start
  pub pending : m.lane.inc ≡ length cars + length m.lane.in_cars
  pub arrive_returned : m.arriving ≡ returned → m.lane.in_cars ≡ []
  pub arrive_waiting : m.arriving ≡ waiting → (m.lane.in_cars ≢ []) × (is_full m.lane ≡ true)
  pub arrive_woken : m.arriving ≡ woken → m.lane.in_cars ≢ []
  pub arrive_stays : m.arriving ≢ passing
  pub cross_returned : m.crossing ≡ returned → m.lane.inc ≡ 0
  pub cross_waiting : m.crossing ≡ waiting → (m.lane.inc ≢ 0) × (is_empty m.lane ≡ true)
  pub cross_woken : m.crossing ≡ woken → m.lane.inc ≢ 0
