-- ===== src/Paging/Bitmap/Laws.antt =====
-- The bitmap as a set of used indices.
use csc369_operating_systems.Base.{
  bits_of_ones, get_elem?_of_lt, dec_lt, all_bits_high, ◌≢◌, set_bit-lt, get_or-set_ne,
  has_bit-set_bit, get_or-set_self, get_or_of_get_elem?, ◌∙◌, ap, lt_of_get_elem?, get_elem?, inr,
  ℕ_discrete, inl, Bool-cases, ℕ, zero, suc, ◌+◌, ◌-◌, ◌*◌, ◌/◌, ◌%◌, ◌^◌, ◌≤◌, ◌<◌, ◌≡◌, refl,
  arith, Bool, true, false, Option, none, some, if◌then◌else◌, ◌==◌, has_bit, set_bit, get_or, set,
  length, length-set,
}
use csc369_operating_systems.Paging.Bitmap.{
  word_allbits, Bitmap, words_for, Result, returned, failed, low_bit, alloc_in, alloc_from,
  bitmap_alloc,
}

-- Whether an index is in use; past the last word all are.
abbrev pub used : Bitmap → ℕ → Bool
used b i = has_bit (get_or b.v (i / 32) 0xffff_ffff) (i % 32)

pub record IsValid (b : Bitmap) : Type 0 where
  pub small : b.nbits + 31 < 2 ^ 32
  pub size : length b.v ≡ words_for b.nbits
  pub words : (ix : ℕ) → get_or b.v ix 0 < 2 ^ 32
  pub over : (i : ℕ) → b.nbits ≤ i → used b i ≡ true

-- The search of one word finds its lowest free bit, or that there is none.
pub data Lowest (n offset w : ℕ) : Option ℕ → Type 0 where
  full :
      {o : Option ℕ}
      → o ≡ none
      → ((j : ℕ) → offset ≤ j → j < offset + n → has_bit w j ≡ true)
      → Lowest n offset w o
  first :
      {o : Option ℕ} (k : ℕ)
      → o ≡ some k
      → offset ≤ k
      → k < offset + n
      → has_bit w k ≡ false
      → ((j : ℕ) → offset ≤ j → j < k → has_bit w j ≡ true)
      → Lowest n offset w o

low_bit-Lowest : (n offset w : ℕ) → Lowest n offset w (low_bit n offset w)
unfolding low_bit
low_bit-Lowest zero offset w = full refl (λ j a b. absurd (omega arith))
low_bit-Lowest (suc n) offset w = elim (Bool-cases (has_bit w offset)) [
  | inl high ↦ elim (low_bit-Lowest n (offset + 1) w) [
    | full e all ↦ full (rw (high, e)) (λ j a b. elim (ℕ_discrete j offset) [
      | yes p ↦ rw p high
      | no p ↦ all j (omega arith) (omega arith)
    ])
    | first k e a b free below ↦ first k (rw (high, e)) (omega arith) (omega arith) free (λ j c d.
        elim (ℕ_discrete j offset) [
          | yes p ↦ rw p high
          | no p ↦ below j (omega arith) (omega arith)
        ])
  ]
  | inr low ↦ first offset (rw low) (omega arith) (omega arith) low (λ j a b. absurd (omega arith))
]

pub used_lem :
    (b : Bitmap) (i : ℕ) {w : ℕ} → get_elem? b.v (i / 32) ≡ some w → used b i ≡ has_bit w (i % 32)
used_lem b i at = ap (λ (x : ℕ). has_bit x (i % 32)) (get_or_of_get_elem? b.v (i / 32) _ at)

-- After one bit of the word `ix` is set.
pub used-set :
    (b : Bitmap) (ix k w : ℕ)
    → get_elem? b.v ix ≡ some w
    → k < 32
    → (j : ℕ)
    → used (record b { v = set b.v ix (set_bit w k) }) j
      ≡ (if ix * 32 + k == j then true else used b j)
used-set b ix k w at small j =
    let inside = lt_of_get_elem? b.v ix at in
    elim (ℕ_discrete ix (j / 32)) [
      | yes same ↦
          let at' : get_elem? b.v (j / 32) ≡ some w = rw (← same) at in
          let now : get_or (set b.v ix (set_bit w k)) (j / 32) 0xffff_ffff ≡ set_bit w k =
            rw (← same) (get_or-set_self b.v ix (set_bit w k) _ inside) in
          rw (now, has_bit-set_bit w k (j % 32)) (ground (arith, used_lem b j at'))
      | no other ↦ rw (get_or-set_ne b.v (set_bit w k) 0xffff_ffff other) (ground arith)
    ]

-- What an allocation may return: the lowest free index, now in use, or that there is none.
pub data Allocated (b : Bitmap) (r : Result (ℕ × Bitmap)) : Type 0 where
  no_space : r ≡ failed → ((i : ℕ) → i < b.nbits → used b i ≡ true) → Allocated b r
  taken :
      (index : ℕ) (b' : Bitmap)
      → r ≡ returned (index, b')
      → index < b.nbits
      → used b index ≡ false
      → ((j : ℕ) → j < index → used b j ≡ true)
      → ((j : ℕ) → used b' j ≡ (if index == j then true else used b j))
      → b'.nbits ≡ b.nbits
      → IsValid b'
      → Allocated b r

module _ (b : Bitmap) (v : IsValid b) where
  pub set-IsValid :
      (ix k w : ℕ)
      → get_elem? b.v ix ≡ some w
      → k < 32
      → IsValid (record b { v = set b.v ix (set_bit w k) })
  set-IsValid ix k w at small = record {
    small = v.small;
    size = length-set b.v ix (set_bit w k) ∙ v.size;
    words = λ i. elim (ℕ_discrete ix i) [
      | yes same ↦
          let bound : w < 2 ^ 32 = omega (arith, get_or_of_get_elem? b.v ix 0 at, v.words ix) in
          rw (← same, get_or-set_self b.v ix (set_bit w k) 0 (lt_of_get_elem? b.v ix at))
            (set_bit-lt 32 w k small bound)
      | no other ↦ rw (get_or-set_ne b.v (set_bit w k) 0 other) (v.words i)
    ];
    over = λ i past. used-set b ix k w at small i ∙ ground (arith, v.over i past);
  }

  used_at :
      (ix w : ℕ) → get_elem? b.v ix ≡ some w → (j : ℕ) → j < 32 → used b (ix * 32 + j) ≡ has_bit w j
  used_at ix w at j small =
      let word : (ix * 32 + j) / 32 ≡ ix = omega arith in
      let bit : (ix * 32 + j) % 32 ≡ j = omega arith in
      used_lem b (ix * 32 + j) (rw word at) ∙ ap (has_bit w) bit

  pub word_bound : (ix w : ℕ) → get_elem? b.v ix ≡ some w → w < 2 ^ 32
  word_bound ix w at = omega (arith, get_or_of_get_elem? b.v ix 0 at, v.words ix)

  alloc_in_eq :
      (ix w k : ℕ)
      → low_bit 32 0 w ≡ some k
      → ix * 32 + k < b.nbits
      → alloc_in b ix w ≡ returned (ix * 32 + k, record b { v = set b.v ix (set_bit w k) })
  unfolding alloc_in
  alloc_in_eq ix w k e inside = ground arith

  alloc_in_lem :
      (ix w : ℕ)
      → get_elem? b.v ix ≡ some w
      → w ≢ word_allbits
      → ((j : ℕ) → j < ix * 32 → used b j ≡ true)
      → Allocated b (alloc_in b ix w)
  unfolding alloc_in
  alloc_in_lem ix w at not_full before = elim (low_bit-Lowest 32 0 w) [
    | full e all ↦ absurd (
        not_full (
          omega (
            arith,
            all_bits_high 32 w (word_bound ix w at) (λ j small. all j (omega arith) (omega arith)),
          )))
    | first k e low high free below ↦
        let free_at : used b (ix * 32 + k) ≡ false = used_at ix w at k high ∙ free in
        let inside : ix * 32 + k < b.nbits = elim (dec_lt (ix * 32 + k) b.nbits) [
          | yes p ↦ p
          | no p ↦ absurd (ground (arith, v.over (ix * 32 + k)))
        ] in
        taken (ix * 32 + k) (record b { v = set b.v ix (set_bit w k) })
          (alloc_in_eq ix w k e inside) inside free_at
          (λ j small. elim (dec_lt j (ix * 32)) [
            | yes p ↦ before j p
            | no p ↦
                let d : ix * 32 + (j - ix * 32) ≡ j = omega arith in
                rw (← d) (
                  used_at ix w at (j - ix * 32) (omega arith)
                  ∙ below (j - ix * 32) (omega arith) (omega arith))
          ])
          (used-set b ix k w at high) refl (set-IsValid ix k w at high)
  ]

  alloc_from_zero : (ix : ℕ) → alloc_from 0 ix b ≡ failed
  unfolding alloc_from
  alloc_from_zero ix = refl

  alloc_from_full :
      (n ix w : ℕ)
      → get_elem? b.v ix ≡ some w
      → w ≡ word_allbits
      → alloc_from (suc n) ix b ≡ alloc_from n (ix + 1) b
  unfolding alloc_from
  alloc_from_full n ix w at saturated = ground arith

  alloc_from_free :
      (n ix w : ℕ)
      → get_elem? b.v ix ≡ some w
      → w ≢ word_allbits
      → alloc_from (suc n) ix b ≡ alloc_in b ix w
  unfolding alloc_from
  alloc_from_free n ix w at free = ground arith

  alloc_from_lem :
      (n ix : ℕ)
      → ix + n ≡ words_for b.nbits
      → ((j : ℕ) → j < ix * 32 → used b j ≡ true)
      → Allocated b (alloc_from n ix b)
  alloc_from_lem zero ix end before =
      no_space (alloc_from_zero ix) (λ i inside. before i (omega (arith, v.small)))
  alloc_from_lem (suc n) ix end before =
      let (w, at) = get_elem?_of_lt b.v ix (omega (arith, v.size)) in
      elim (ℕ_discrete w word_allbits) [
        | yes saturated ↦ rw (alloc_from_full n ix w at saturated) (
            alloc_from_lem n (ix + 1) (omega arith) (λ j small. elim (dec_lt j (ix * 32)) [
              | yes p ↦ before j p
              | no p ↦
                  let d : ix * 32 + (j - ix * 32) ≡ j = omega arith in
                  rw (← d) (
                    used_at ix w at (j - ix * 32) (omega arith)
                    ∙ bits_of_ones 32 w (j - ix * 32) (omega (arith, saturated)) (omega arith))
            ]))
        | no free ↦ rw (alloc_from_free n ix w at free) (alloc_in_lem ix w at free before)
      ]

  -- For a valid bitmap: `bitmap_alloc` returns the lowest index that is not in use, with a valid
  -- bitmap in which that index and no other has come into use, or fails if every index is in use. It
  -- never fails an assertion.
  pub bitmap_alloc_lem : Allocated b (bitmap_alloc b)
  unfolding bitmap_alloc
  bitmap_alloc_lem =
      alloc_from_lem (words_for b.nbits) 0 (omega arith) (λ j small. absurd (omega arith))
