-- ===== src/Ext2/Resource.antt =====
-- Assignment4/ext2_utils.c: the bitmaps of inodes and blocks, and the lengths of directory entries.
-- `none` is an access out of bounds, a shift by a negative number, or `exit`.
use csc369_operating_systems.Base.{
  has_bit-clear_bit, has_bit-set_bit, length-set, get_or_of_get_elem?, get_or-set_ne,
  get_or-set_self, ℕ_discrete, get_elem?_of_lt, ℕ, zero, suc, ◌+◌, ◌*◌, ◌/◌, ◌%◌, ◌≤◌, ◌<◌, ◌≡◌,
  ◌≢◌, refl, ◌∙◌, ap, arith, Bool, true, false, Option, none, some, List, if◌then◌else◌, ◌==◌,
  has_bit, set_bit, clear_bit, get_elem?, set, get_or, length,
}

-- The index of a resource; 0 has none.
abbrev pub index : ℕ → Option ℕ
index zero = none
index (suc i) = some i

-- The inner loop of `allocate_resource`, `n` bits from `bit` on.
unfoldable pub free_bit : ℕ → ℕ → ℕ → Option ℕ
free_bit zero bit byte = none
free_bit (suc n) bit byte =
    let rest = free_bit n (bit + 1) byte in if has_bit byte bit then rest else some bit

-- The outer loop, `n` bytes from `i` on: the number of the resource, and the bitmap.
unfoldable pub allocate_from : ℕ → ℕ → List ℕ → Option (ℕ × List ℕ)
unfolding free_bit
allocate_from zero i bitmap = none
allocate_from (suc n) i bitmap =
    let rest = allocate_from n (i + 1) bitmap in
    elim (get_elem? bitmap i) [
      | none ↦ none
      | some byte ↦ elim (free_bit 8 0 byte) [
        | none ↦ rest
        | some bit ↦ some (i * 8 + bit + 1, set bitmap i (set_bit byte bit))
      ]
    ]

unfoldable pub allocate_resource : List ℕ → ℕ → Option (ℕ × List ℕ)
unfolding allocate_from
allocate_resource bitmap bitmap_size = allocate_from bitmap_size 0 bitmap

unfoldable pub is_resource_in_use : List ℕ → ℕ → Option Bool
is_resource_in_use bitmap resource_num = elim (index resource_num) [
  | none ↦ none
  | some i ↦ elim (get_elem? bitmap (i / 8)) [
    | none ↦ none
    | some byte ↦ some (has_bit byte (i % 8))
  ]
]

unfoldable pub set_resource_in_use : List ℕ → ℕ → Option (List ℕ)
set_resource_in_use bitmap resource_num = elim (index resource_num) [
  | none ↦ none
  | some i ↦ elim (get_elem? bitmap (i / 8)) [
    | none ↦ none
    | some byte ↦ some (set bitmap (i / 8) (set_bit byte (i % 8)))
  ]
]

unfoldable pub free_resource : List ℕ → ℕ → Option (List ℕ)
free_resource bitmap resource_num = elim (index resource_num) [
  | none ↦ none
  | some i ↦ elim (get_elem? bitmap (i / 8)) [
    | none ↦ none
    | some byte ↦ some (set bitmap (i / 8) (clear_bit byte (i % 8)))
  ]
]

unfoldable pub get_padded_rec_len : ℕ → ℕ
get_padded_rec_len rec_len = if rec_len % 4 == 0 then rec_len else 4 * (rec_len / 4 + 1)

-- `sizeof(struct ext2_dir_entry)` is 8; the argument is `name_len`.
unfoldable pub get_actual_dir_entry_len : ℕ → ℕ
unfolding get_padded_rec_len
get_actual_dir_entry_len name_len = get_padded_rec_len (8 + name_len)

-- Whether a resource is in use; past the end none is.
abbrev pub in_use : List ℕ → ℕ → Bool
in_use bitmap i = has_bit (get_or bitmap (i / 8) 0) (i % 8)

written_bit :
    (bitmap : List ℕ) (i j byte : ℕ)
    → i / 8 < length bitmap
    → in_use (set bitmap (i / 8) byte) j
      ≡ (if i / 8 == j / 8 then has_bit byte (j % 8) else in_use bitmap j)
written_bit bitmap i j byte inside = elim (ℕ_discrete (i / 8) (j / 8)) [
  | yes same ↦
      let now : get_or (set bitmap (i / 8) byte) (j / 8) 0 ≡ byte =
        rw (← same) (get_or-set_self bitmap (i / 8) byte 0 inside) in
      ap (λ (x : ℕ). has_bit x (j % 8)) now ∙ ground arith
  | no other ↦
      ap (λ (x : ℕ). has_bit x (j % 8)) (get_or-set_ne bitmap {i = i / 8} {j = j / 8} byte 0 other)
      ∙ ground arith
]

same_place : (i j : ℕ) → i / 8 ≡ j / 8 → i % 8 ≡ j % 8 → i ≡ j
same_place i j a b = omega arith

module _ (bitmap : List ℕ) (i : ℕ) (inside : i / 8 < length bitmap) where
  byte_here : (byte : ℕ) × (get_elem? bitmap (i / 8) ≡ some byte)
  byte_here = get_elem?_of_lt bitmap (i / 8) inside

  old_bit : (j : ℕ) → i / 8 ≡ j / 8 → in_use bitmap j ≡ has_bit byte_here.0 (j % 8)
  old_bit j same =
      ap (λ (x : ℕ). has_bit x (j % 8))
        (get_or_of_get_elem? bitmap (j / 8) 0 (rw same at byte_here.1))

  -- One bit of the byte changes, and with it one resource.
  changed :
      (value : Bool) (byte : ℕ)
      → ((k : ℕ) → has_bit byte k ≡ (if i % 8 == k then value else has_bit byte_here.0 k))
      → (j : ℕ) → in_use (set bitmap (i / 8) byte) j ≡ (if i == j then value else in_use bitmap j)
  changed value byte bits j = elim (ℕ_discrete (i / 8) (j / 8)) [
    | yes same ↦
        written_bit bitmap i j byte inside
        ∙ ground (arith, bits (j % 8), old_bit j same, same_place i j same)
    | no other ↦ written_bit bitmap i j byte inside ∙ ground arith
  ]

  pub set_lem :
      (b : List ℕ) × (set_resource_in_use bitmap (suc i) ≡ some b)
      × (length b ≡ length bitmap)
      × ((j : ℕ) → in_use b j ≡ (if i == j then true else in_use bitmap j))
  unfolding set_resource_in_use
  set_lem =
      let (byte, at) = byte_here in
      (
        set bitmap (i / 8) (set_bit byte (i % 8)),
        ground arith,
        length-set bitmap (i / 8) (set_bit byte (i % 8)),
        changed true (set_bit byte (i % 8)) (has_bit-set_bit byte (i % 8)),
      )

  pub free_lem :
      (b : List ℕ) × (free_resource bitmap (suc i) ≡ some b)
      × (length b ≡ length bitmap)
      × ((j : ℕ) → in_use b j ≡ (if i == j then false else in_use bitmap j))
  unfolding free_resource
  free_lem =
      let (byte, at) = byte_here in
      (
        set bitmap (i / 8) (clear_bit byte (i % 8)),
        ground arith,
        length-set bitmap (i / 8) (clear_bit byte (i % 8)),
        changed false (clear_bit byte (i % 8)) (has_bit-clear_bit byte (i % 8)),
      )

  pub is_lem : is_resource_in_use bitmap (suc i) ≡ some (in_use bitmap i)
  unfolding is_resource_in_use
  is_lem = let (byte, at) = byte_here in ground (arith, old_bit i refl)

-- For a resource number above 0 whose byte lies in the bitmap: after `set_resource_in_use` and after
-- `free_resource`, `is_resource_in_use` finds the resource in use and free, and of the other resources
-- none has changed.
pub is_resource_in_use-set_resource_in_use :
    (bitmap : List ℕ) (i : ℕ)
    → i / 8 < length bitmap
    → (b1 : List ℕ) × (b2 : List ℕ) × (set_resource_in_use bitmap (suc i) ≡ some b1)
      × (is_resource_in_use b1 (suc i) ≡ some true)
      × (free_resource b1 (suc i) ≡ some b2)
      × (is_resource_in_use b2 (suc i) ≡ some false)
      × ((j : ℕ) → i ≢ j → (in_use b1 j ≡ in_use bitmap j) × (in_use b2 j ≡ in_use bitmap j))
is_resource_in_use-set_resource_in_use bitmap i inside =
    let (b1, set_done, size1, u1) = set_lem bitmap i inside in
    let in1 : i / 8 < length b1 = omega (arith, size1, inside) in
    let (b2, free_done, size2, u2) = free_lem b1 i in1 in
    let in2 : i / 8 < length b2 = omega (arith, size2, in1) in
    (
      b1,
      b2,
      set_done,
      is_lem b1 i in1 ∙ ap some (u1 i ∙ ground arith),
      free_done,
      is_lem b2 i in2 ∙ ap some (u2 i ∙ ground arith),
      λ j other. (u1 j ∙ ground arith, u2 j ∙ ground (arith, u1 j)),
    )

-- The padded length of an entry is a multiple of 4, and at most 3 bytes longer than the length given.
pub get_padded_rec_len_lem :
    (rec_len : ℕ)
    → (get_padded_rec_len rec_len % 4 ≡ 0)
      × (rec_len ≤ get_padded_rec_len rec_len)
      × (get_padded_rec_len rec_len < rec_len + 4)
unfolding get_padded_rec_len
get_padded_rec_len_lem rec_len = (ground arith, ground arith, ground arith)
