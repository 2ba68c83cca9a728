-- ===== src/Ext2/Alloc/Lowest.antt =====
-- Assignment4/ext2_utils.c: which resource `allocate_resource` takes.
use csc369_operating_systems.Ext2.Resource.{
  set_lem, set_resource_in_use, allocate_from, allocate_resource, in_use, free_bit,
}
use csc369_operating_systems.Base.{
  length-set, get_or_of_get_elem?, lt_of_get_elem?, ℕ_discrete, dec_lt, get_elem?_of_lt, ℕ, zero,
  suc, ◌+◌, ◌*◌, ◌/◌, ◌%◌, ◌≤◌, ◌<◌, ◌≡◌, refl, sym, ◌∙◌, ap, subst, arith, true, false, Option,
  none, some, List, if◌then◌else◌, ◌==◌, has_bit, set_bit, get_elem?, set, length, ◌⊎◌, inl, inr,
  Bool-cases,
}

-- The first of the `n` bits from `bit` on that is low.
free_bit_lem :
    (n bit byte : ℕ)
    → ((free_bit n bit byte ≡ none) × ((k : ℕ) → bit ≤ k → k < bit + n → has_bit byte k ≡ true))
      ⊎ ((b : ℕ) × (free_bit n bit byte ≡ some b)
          × (bit ≤ b)
          × (b < bit + n)
          × (has_bit byte b ≡ false)
          × ((k : ℕ) → bit ≤ k → k < b → has_bit byte k ≡ true))
unfolding free_bit
free_bit_lem zero bit byte = inl (refl, λ k low high. absurd (omega arith))
free_bit_lem (suc n) bit byte = elim (Bool-cases (has_bit byte bit)) [
  | inr low ↦
      inr (bit, ground arith, omega arith, omega arith, low, λ k from to. absurd (omega arith))
  | inl high ↦ elim (free_bit_lem n (bit + 1) byte) [
    | inl (none_low, all) ↦ inl (ground arith, λ k from to. from_next high all k from (omega arith))
    | inr (b, yes_b, from, to, low, before) ↦
        inr (b, ground arith, omega arith, omega arith, low, from_next high before)
  ]
]
  where
    from_next :
        {end : ℕ}
        → has_bit byte bit ≡ true
        → ((k : ℕ) → bit + 1 ≤ k → k < end → has_bit byte k ≡ true)
        → (k : ℕ) → bit ≤ k
        → k < end
        → has_bit byte k ≡ true
    from_next high later k from to = elim (ℕ_discrete bit k) [
      | yes same ↦ subst (λ (x : ℕ). has_bit byte x ≡ true) same high
      | no other ↦ later k (omega arith) to
    ]

-- In `bitmap` the resource `i` is the lowest that is free, and in `b` it alone has been taken.
pub record IsTaken (bitmap : List ℕ) (i : ℕ) (b : List ℕ) : Type 0 where
  pub was_free : in_use bitmap i ≡ false
  pub is_lowest : (j : ℕ) → j < i → in_use bitmap j ≡ true
  pub same_length : length b ≡ length bitmap
  pub taken : (j : ℕ) → in_use b j ≡ (if i == j then true else in_use bitmap j)

byte_of : (i bit : ℕ) → bit < 8 → ((i * 8 + bit) / 8 ≡ i) × ((i * 8 + bit) % 8 ≡ bit)
byte_of i bit h = (omega arith, omega arith)

-- The bits of one byte are the resources of the eight numbers from its own on.
module _ (bitmap : List ℕ) (i byte : ℕ) (at : get_elem? bitmap i ≡ some byte) where
  bit_here : (j : ℕ) → j / 8 ≡ i → in_use bitmap j ≡ has_bit byte (j % 8)
  bit_here j same =
      ap (λ (x : ℕ). has_bit x (j % 8))
        (get_or_of_get_elem? bitmap (j / 8) 0
          (subst (λ x. get_elem? bitmap x ≡ some byte) (sym same) at))

  earlier_too :
      {end : ℕ}
      → ((j : ℕ) → j < i * 8 → in_use bitmap j ≡ true)
      → ((k : ℕ) → 0 ≤ k → k < end → has_bit byte k ≡ true)
      → end ≤ 8
      → (j : ℕ) → j < i * 8 + end
      → in_use bitmap j ≡ true
  earlier_too earlier all small j h = elim (dec_lt j (i * 8)) [
    | yes before ↦ earlier j before
    | no here ↦ bit_here j (omega arith) ∙ all (j % 8) (omega arith) (omega arith)
  ]

  set_here :
      (bit : ℕ)
      → bit < 8
      → set_resource_in_use bitmap (suc (i * 8 + bit)) ≡ some (set bitmap i (set_bit byte bit))
  unfolding set_resource_in_use
  set_here bit small =
      let (quotient, remainder) = byte_of i bit small in ground (arith, quotient, remainder, at)

  IsTaken-here :
      (bit : ℕ)
      → bit < 8
      → has_bit byte bit ≡ false
      → ((k : ℕ) → 0 ≤ k → k < bit → has_bit byte k ≡ true)
      → ((j : ℕ) → j < i * 8 → in_use bitmap j ≡ true)
      → IsTaken bitmap (i * 8 + bit) (set bitmap i (set_bit byte bit))
  IsTaken-here bit small low before earlier =
      let (quotient, remainder) = byte_of i bit small in
      let inside : (i * 8 + bit) / 8 < length bitmap = omega (arith, lt_of_get_elem? bitmap i at) in
      let here : in_use bitmap (i * 8 + bit) ≡ has_bit byte bit =
        bit_here (i * 8 + bit) quotient ∙ ap (λ (x : ℕ). has_bit byte x) remainder in
      let (b, written, size, u) = set_lem bitmap (i * 8 + bit) inside in
      let same : b ≡ set bitmap i (set_bit byte bit) = cc (written, set_here bit small) in
      record {
        was_free = here ∙ low;
        is_lowest = earlier_too earlier before (omega arith);
        same_length = length-set bitmap i (set_bit byte bit);
        taken = λ j.
            subst
              (λ (x : List ℕ). in_use x j ≡ (if i * 8 + bit == j then true else in_use bitmap j))
              same (u j);
      }

module _ (bitmap : List ℕ) where
  -- A call that finds no byte with a low bit among the `n` from `i` on, and one that does.
  abbrev pub Taking : ℕ → ℕ → Option (ℕ × List ℕ) → Type 0
  Taking n i result =
      ((result ≡ none) × ((j : ℕ) → j < (i + n) * 8 → in_use bitmap j ≡ true))
      ⊎ ((k : ℕ) × (b : List ℕ) × (result ≡ some (suc k, b))
          × (k < (i + n) * 8)
          × IsTaken bitmap k b)

  allocate_from_lem :
      (n i : ℕ)
      → i + n ≤ length bitmap
      → ((j : ℕ) → j < i * 8 → in_use bitmap j ≡ true)
      → Taking n i (allocate_from n i bitmap)
  unfolding allocate_from
  allocate_from_lem zero i inside earlier = inl (refl, λ j h. earlier j (omega arith))
  allocate_from_lem (suc n) i inside earlier =
      let (byte, at) = get_elem?_of_lt bitmap i (omega arith) in
      elim (free_bit_lem 8 0 byte) [
        | inr (bit, yes_bit, from, to, low, before) ↦ inr (
          i * 8 + bit,
          set bitmap i (set_bit byte bit),
          rw (allocate_from, at, yes_bit) (ground arith),
          omega arith,
          IsTaken-here bitmap i byte at bit to low before earlier,
        )
        | inl (none_low, all) ↦
            elim (allocate_from_lem n (i + 1) (omega arith)
              (λ j h. earlier_too bitmap i byte at earlier all (omega arith) j (omega arith))) [
                | inl (failed, full) ↦
                    inl (rw (allocate_from, at, none_low) failed, λ j h. full j (omega arith))
                | inr (k, b, taking, small, t) ↦
                    inr (k, b, rw (allocate_from, at, none_low) taking, omega arith, t)
              ]
      ]

-- For a bitmap of at least `bitmap_size` bytes: `allocate_resource` takes the lowest free resource
-- and changes no other, and it fails exactly if the bytes have no low bit.
pub allocate_resource_lem :
    (bitmap : List ℕ) (bitmap_size : ℕ)
    → bitmap_size ≤ length bitmap
    → Taking bitmap bitmap_size 0 (allocate_resource bitmap bitmap_size)
unfolding allocate_resource
allocate_resource_lem bitmap bitmap_size inside =
    allocate_from_lem bitmap bitmap_size 0 (omega arith) (λ j h. absurd (omega arith))
