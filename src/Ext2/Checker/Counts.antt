-- ===== src/Ext2/Checker/Counts.antt =====
-- Assignment4/ext2_checker.c: the low bits of a bitmap, counted, and the counters of free blocks.
use csc369_operating_systems.Ext2.Resource.{in_use}
use csc369_operating_systems.Ext2.Checker.{low_bits, count_low}
use csc369_operating_systems.Base.{
  get_or_of_get_elem?, ℕ_discrete, get_elem?_of_lt, ℕ, zero, suc, ◌+◌, ◌*◌, ◌/◌, ◌%◌, ◌≤◌, ◌<◌, ◌≡◌,
  refl, sym, ◌∙◌, ap, subst, arith, Bool, true, false, some, List, if◌then◌else◌, ◌==◌, has_bit,
  get_elem?, length,
}

-- The resources below `m` that are not in use.
unfoldable pub free_count : List ℕ → ℕ → ℕ
free_count bitmap zero = 0
free_count bitmap (suc j) = (if in_use bitmap j then 0 else 1) + free_count bitmap j

module _ (bitmap : List ℕ) (i byte : ℕ) (at : get_elem? bitmap i ≡ some byte) where
  byte_bit : (bit : ℕ) → bit < 8 → in_use bitmap (i * 8 + bit) ≡ has_bit byte bit
  byte_bit bit small =
      let quotient : (i * 8 + bit) / 8 ≡ i = omega arith in
      let remainder : (i * 8 + bit) % 8 ≡ bit = omega arith in
      ap (λ (x : ℕ). has_bit x ((i * 8 + bit) % 8))
        (get_or_of_get_elem? bitmap ((i * 8 + bit) / 8) 0
          (subst (λ x. get_elem? bitmap x ≡ some byte) (sym quotient) at))
      ∙ ap (λ (x : ℕ). has_bit byte x) remainder

  count_step :
      (bit : ℕ)
      → bit < 8
      → free_count bitmap (i * 8 + (bit + 1))
        ≡ (if has_bit byte bit then 0 else 1) + free_count bitmap (i * 8 + bit)
  unfolding free_count
  count_step bit small =
      let next : i * 8 + (bit + 1) ≡ suc (i * 8 + bit) = omega arith in
      ap (free_count bitmap) next
      ∙ ap (λ (x : Bool). (if x then 0 else 1) + free_count bitmap (i * 8 + bit))
          (byte_bit bit small)

  low_bits_lem :
      (left bit : ℕ)
      → bit + left ≡ 8
      → low_bits left bit byte + free_count bitmap (i * 8 + bit) ≡ free_count bitmap (i * 8 + 8)
  unfolding low_bits
  low_bits_lem zero bit e =
      let same : i * 8 + bit ≡ i * 8 + 8 = omega arith in
      ground (arith, ap (free_count bitmap) same)
  low_bits_lem (suc left) bit e =
      let one : free_count bitmap (i * 8 + (bit + 1))
          ≡ (if has_bit byte bit then 0 else 1) + free_count bitmap (i * 8 + bit) =
        count_step bit (omega arith) in
      ground (arith, low_bits_lem left (bit + 1) (omega arith), one)

-- The loop counts the resources of its bytes that are free.
pub count_low_lem :
    (bitmap : List ℕ) (left i : ℕ)
    → i + left ≤ length bitmap
    → (n : ℕ) × (count_low left i bitmap ≡ some n)
      × (n + free_count bitmap (i * 8) ≡ free_count bitmap ((i + left) * 8))
unfolding count_low
count_low_lem bitmap zero i inside =
    let same : i * 8 ≡ (i + 0) * 8 = omega arith in
    (0, refl, ground (arith, ap (free_count bitmap) same))
count_low_lem bitmap (suc left) i inside =
    let (byte, at) = get_elem?_of_lt bitmap i (omega arith) in
    let (n, counted, sum) = count_low_lem bitmap left (i + 1) (omega arith) in
    let first = low_bits_lem bitmap i byte at 8 0 refl in
    let same : (i + 1 + left) * 8 ≡ (i + suc left) * 8 = omega arith in
    let next : (i + 1) * 8 ≡ i * 8 + 8 = omega arith in
    let start : i * 8 + 0 ≡ i * 8 = omega arith in
    (
      low_bits 8 0 byte + n,
      rw (count_low, at, counted) refl,
      ground (
        arith,
        first,
        sum,
        ap (free_count bitmap) same,
        ap (free_count bitmap) next,
        ap (free_count bitmap) start,
      ),
    )

-- A resource that is taken is one free resource less, if it is counted.
module _ (a b : List ℕ) (i : ℕ) (free : in_use a i ≡ false)
    (taken : (j : ℕ) → in_use b j ≡ (if i == j then true else in_use a j)) where
  above : (m : ℕ) → m ≤ i → free_count b m ≡ free_count a m
  unfolding free_count
  above zero h = refl
  above (suc m) h =
      let other : in_use b m ≡ in_use a m = ground (arith, taken m) in
      rw (free_count, other, above m (omega arith)) refl

  pub free_count_less : (m : ℕ) → i < m → free_count b m + 1 ≡ free_count a m
  unfolding free_count
  free_count_less zero h = absurd (omega arith)
  free_count_less (suc m) h = elim (ℕ_discrete i m) [
    | yes same ↦
        let now : in_use b m ≡ true = ground (arith, taken m) in
        let before : in_use a m ≡ false = subst (λ (x : ℕ). in_use a x ≡ false) same free in
        rw (now, before) (ground (arith, above m (omega arith)))
    | no other ↦
        let kept : in_use b m ≡ in_use a m = ground (arith, taken m) in
        rw kept (omega (arith, free_count_less m (omega arith)))
  ]

pub free_count_le : (a : List ℕ) (m : ℕ) → free_count a m ≤ m
unfolding free_count
free_count_le a zero = omega arith
free_count_le a (suc m) = ground (arith, free_count_le a m)
