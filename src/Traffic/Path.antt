-- ===== src/Traffic/Path.antt =====
-- Assignment2/cars.c: `compute_path`, and the quadrants that `car_cross` locks.
use csc369_operating_systems.Base.{
  ℕ, ◌+◌, ◌≡◌, refl, Bool, false, ◌&&◌, Option, none, some, List, [], ◌∷◌, if◌then◌else◌, ◌==◌, set,
  get_elem?,
}

-- `enum direction`, as its numbers in an `int`.
pub data Direction : Type 0 where
  north west south east : Direction

abbrev pub direction_number : Direction → ℕ
direction_number north = 0
direction_number west = 1
direction_number south = 2
direction_number east = 3

abbrev pub direction : ℕ → Option Direction
direction n =
    if n == 0
    then some north
    else if n == 1
    then some west
    else if n == 2
    then some south
    else if n == 3
    then some east
    else none

abbrev pub same_direction : Direction → Direction → Bool
same_direction a b = direction_number a == direction_number b

-- `route[0] = ..`, `route[1] = ..` and so on.
abbrev pub assign : ℕ → List ℕ → List ℕ → List ℕ
assign i [] route = route
assign i (q ∷ quads) route = assign (i + 1) quads (set route i q)

-- A `switch` with no `break`: the bodies from the label of `d` on.
abbrev pub all_bodies : List (Direction × List ℕ) → List ℕ → List ℕ
all_bodies [] route = route
all_bodies (c ∷ cases) route = all_bodies cases (assign 0 c.1 route)

abbrev pub fall_through : Direction → List (Direction × List ℕ) → List ℕ → List ℕ
fall_through d [] route = route
fall_through d (c ∷ cases) route =
    if same_direction d c.0 then all_bodies (c ∷ cases) route else fall_through d cases route

abbrev pub case_north : Direction → List ℕ → List ℕ
case_north out = fall_through out (
    (north, 0 ∷ 1 ∷ 2 ∷ 3 ∷ [])
    ∷ (east, 1 ∷ 2 ∷ 3 ∷ [])
    ∷ (south, 1 ∷ 2 ∷ [])
    ∷ (west, 1 ∷ [])
    ∷ [])

abbrev pub case_east : Direction → List ℕ → List ℕ
case_east out = fall_through out (
    (east, 0 ∷ 1 ∷ 2 ∷ 3 ∷ [])
    ∷ (south, 0 ∷ 1 ∷ 2 ∷ [])
    ∷ (west, 0 ∷ 1 ∷ [])
    ∷ (north, 0 ∷ [])
    ∷ [])

abbrev pub case_south : Direction → List ℕ → List ℕ
case_south out = fall_through out (
    (south, 0 ∷ 1 ∷ 2 ∷ 3 ∷ [])
    ∷ (west, 0 ∷ 1 ∷ 3 ∷ [])
    ∷ (north, 0 ∷ 3 ∷ [])
    ∷ (east, 3 ∷ [])
    ∷ [])

abbrev pub case_west : Direction → List ℕ → List ℕ
case_west out = fall_through out (
    (west, 0 ∷ 1 ∷ 2 ∷ 3 ∷ [])
    ∷ (north, 0 ∷ 2 ∷ 3 ∷ [])
    ∷ (east, 2 ∷ 3 ∷ [])
    ∷ (south, 2 ∷ [])
    ∷ [])

-- The outer `switch` has no `break` either.
abbrev pub route_for : Direction → Direction → List ℕ → List ℕ
route_for north out route = case_west out (case_south out (case_east out (case_north out route)))
route_for east out route = case_west out (case_south out (case_east out route))
route_for south out route = case_west out (case_south out route)
route_for west out route = case_west out route

-- `none` is `exit(1)`. `memory` is what `malloc` leaves in the four entries.
unfoldable pub compute_path : ℕ → ℕ → List ℕ → Option (List ℕ)
compute_path in_dir out_dir memory = elim (direction in_dir) [
  | none ↦ none
  | some i ↦ elim (direction out_dir) [ none ↦ none | some o ↦ some (route_for i o memory) ]
]

-- `sizeof(path) / sizeof(int)` with 8 bytes for the pointer: the quadrants that are locked, in order.
abbrev pub locked : List ℕ → Option ℕ × Option ℕ
locked path = (get_elem? path 0, get_elem? path 1)

-- Of the path of any car but one from the west to the south, `car_cross` locks the quadrants 2 and 3,
-- in this order, whatever the car's directions and whatever `malloc` left in its four entries.
pub locked-compute_path :
    (i o : Direction) (a b c d : ℕ)
    → same_direction i west && same_direction o south ≡ false
    → (path : List ℕ) × (compute_path (direction_number i) (direction_number o) (a ∷ b ∷ c ∷ d ∷ [])
        ≡ some path)
      × (locked path ≡ (some 2, some 3))
unfolding compute_path
locked-compute_path north north a b c d n = (_, refl, refl)
locked-compute_path north west a b c d n = (_, refl, refl)
locked-compute_path north south a b c d n = (_, refl, refl)
locked-compute_path north east a b c d n = (_, refl, refl)
locked-compute_path west north a b c d n = (_, refl, refl)
locked-compute_path west west a b c d n = (_, refl, refl)
locked-compute_path west south a b c d n = cc
locked-compute_path west east a b c d n = (_, refl, refl)
locked-compute_path south north a b c d n = (_, refl, refl)
locked-compute_path south west a b c d n = (_, refl, refl)
locked-compute_path south south a b c d n = (_, refl, refl)
locked-compute_path south east a b c d n = (_, refl, refl)
locked-compute_path east north a b c d n = (_, refl, refl)
locked-compute_path east west a b c d n = (_, refl, refl)
locked-compute_path east south a b c d n = (_, refl, refl)
locked-compute_path east east a b c d n = (_, refl, refl)

-- For a car from the west to the south, the second quadrant that is locked is whatever `malloc` left
-- in the second entry.
pub compute_path_garbage :
    (a b c d : ℕ)
    → (path : List ℕ) × (compute_path 1 2 (a ∷ b ∷ c ∷ d ∷ []) ≡ some path)
      × (locked path ≡ (some 2, some b))
unfolding compute_path
compute_path_garbage a b c d = (_, refl, refl)
