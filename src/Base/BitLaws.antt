-- ===== src/Base/BitLaws.antt =====
-- The bits of a word after one of them is set or cleared.
use Prim.Native.Nat.{ℕ, zero, suc, ◌+◌, ◌*◌, ◌/◌, ◌%◌, ◌^◌, ◌≤◌, ◌<◌}
use mathlib.Core.Path.{◌≡◌, sym, ◌∙◌, ap}
use mathlib.Core.Logic.{inl, inr}
use mathlib.Core.Bool.{true, false}
use native.Mathlib.Omega.{arith}
use native.Mathlib.Nat.{pow-succ', div-div-eq-div-mul, div-eq_of_lt}
use native.Mathlib.Decide.{dec_lt}
use csc369_operating_systems.Base.Tests.{◌==◌, if◌then◌else◌, Bool-cases}
use csc369_operating_systems.Base.Bits.{has_bit, set_bit, clear_bit}

half_pow : (w k : ℕ) → w / 2 ^ suc k ≡ w / 2 / 2 ^ k
half_pow w k = ap (λ (x : ℕ). w / x) (pow-succ' 2 k) ∙ sym (div-div-eq-div-mul w 2 (2 ^ k))

pub has_bit-suc : (w k : ℕ) → has_bit w (suc k) ≡ has_bit (w / 2) k
has_bit-suc w k = ap (λ (x : ℕ). x % 2 == 1) (half_pow w k)

-- Setting a higher bit is setting it in the half.
pub set_bit-suc : (w k : ℕ) → set_bit w (suc k) ≡ w % 2 + 2 * set_bit (w / 2) k
set_bit-suc w k = elim (Bool-cases (has_bit (w / 2) k)) [
  | inl high ↦ rw (has_bit-suc w k, high) (omega arith)
  | inr low ↦ rw (has_bit-suc w k, low) (omega (arith, pow-succ' 2 k))
]

pub has_bit-set_bit : (w k j : ℕ) → has_bit (set_bit w k) j ≡ (if k == j then true else has_bit w j)
has_bit-set_bit w zero zero = ground arith
has_bit-set_bit w zero (suc j) =
    let half : set_bit w 0 / 2 ≡ w / 2 = ground arith in
    has_bit-suc (set_bit w 0) j ∙ ap (λ (x : ℕ). has_bit x j) half ∙ ground (arith, has_bit-suc w j)
has_bit-set_bit w (suc k) zero = rw (set_bit-suc w k) (ground arith)
has_bit-set_bit w (suc k) (suc j) =
    let half : set_bit w (suc k) / 2 ≡ set_bit (w / 2) k = omega (arith, set_bit-suc w k) in
    has_bit-suc (set_bit w (suc k)) j
    ∙ ap (λ (x : ℕ). has_bit x j) half
    ∙ has_bit-set_bit (w / 2) k j
    ∙ ground (arith, has_bit-suc w j)

pow_le_of_has_bit : (w k : ℕ) → has_bit w k ≡ true → 2 ^ k ≤ w
pow_le_of_has_bit w k h = elim (dec_lt w (2 ^ k)) [
  | yes below ↦ ground (arith, div-eq_of_lt below)
  | no above ↦ omega arith
]

pub clear_bit-suc : (w k : ℕ) → clear_bit w (suc k) ≡ w % 2 + 2 * clear_bit (w / 2) k
clear_bit-suc w k = elim (Bool-cases (has_bit (w / 2) k)) [
  | inl high ↦
      rw (has_bit-suc w k, high) (omega (arith, pow-succ' 2 k, pow_le_of_has_bit (w / 2) k high))
  | inr low ↦ rw (has_bit-suc w k, low) (omega arith)
]

pub has_bit-clear_bit :
    (w k j : ℕ) → has_bit (clear_bit w k) j ≡ (if k == j then false else has_bit w j)
has_bit-clear_bit w zero zero = ground arith
has_bit-clear_bit w zero (suc j) =
    let half : clear_bit w 0 / 2 ≡ w / 2 = ground arith in
    has_bit-suc (clear_bit w 0) j
    ∙ ap (λ (x : ℕ). has_bit x j) half
    ∙ ground (arith, has_bit-suc w j)
has_bit-clear_bit w (suc k) zero = rw (clear_bit-suc w k) (ground arith)
has_bit-clear_bit w (suc k) (suc j) =
    let half : clear_bit w (suc k) / 2 ≡ clear_bit (w / 2) k = omega (arith, clear_bit-suc w k) in
    has_bit-suc (clear_bit w (suc k)) j
    ∙ ap (λ (x : ℕ). has_bit x j) half
    ∙ has_bit-clear_bit (w / 2) k j
    ∙ ground (arith, has_bit-suc w j)

-- A word below 2 ^ n stays below when one of its n bits is set.
pub set_bit-lt : (n w k : ℕ) → k < n → w < 2 ^ n → set_bit w k < 2 ^ n
set_bit-lt zero w k h lt = absurd (omega arith)
set_bit-lt (suc n) w zero h lt = ground (arith, pow-succ' 2 n)
set_bit-lt (suc n) w (suc k) h lt = omega (
  arith,
  set_bit-suc w k,
  pow-succ' 2 n,
  set_bit-lt n (w / 2) k (omega arith) (omega (arith, pow-succ' 2 n)),
)

-- A word below 2 ^ n with its n bits high is 2 ^ n - 1.
pub all_bits_high : (n w : ℕ) → w < 2 ^ n → ((j : ℕ) → j < n → has_bit w j ≡ true) → w + 1 ≡ 2 ^ n
all_bits_high zero w lt h = omega arith
all_bits_high (suc n) w lt h =
    let low : w % 2 ≡ 1 = ground (arith, h 0 (omega arith)) in
    omega (
      arith,
      pow-succ' 2 n,
      low,
      all_bits_high n (w / 2) (omega (arith, pow-succ' 2 n))
          (λ j below. sym (has_bit-suc w j) ∙ h (suc j) (omega arith)),
    )

pub bits_of_ones : (n w j : ℕ) → w + 1 ≡ 2 ^ n → j < n → has_bit w j ≡ true
bits_of_ones zero w j e h = absurd (omega arith)
bits_of_ones (suc n) w zero e h = let odd : w % 2 ≡ 1 = omega (arith, pow-succ' 2 n) in ground arith
bits_of_ones (suc n) w (suc j) e h =
    has_bit-suc w j ∙ bits_of_ones n (w / 2) j (omega (arith, pow-succ' 2 n)) (omega arith)
