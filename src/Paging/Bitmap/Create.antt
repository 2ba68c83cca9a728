-- ===== src/Paging/Bitmap/Create.antt =====
-- `bitmap_create` makes a valid bitmap in which nothing is in use.
use csc369_operating_systems.Base.{
  get_or-set_ne, sym, ◌≢◌, length-set, get_or-set_self, bits_of_ones, get_or-replicate, ap,
  length-replicate, has_bit-set_bit, ℕ_discrete, set_bit-lt, ◌∙◌, set, replicate, get_or, set_bit,
  has_bit, ℕ, zero, suc, ◌+◌, ◌-◌, ◌*◌, ◌/◌, ◌%◌, ◌^◌, ◌≤◌, ◌<◌, ◌≡◌, refl, arith, true, false,
}
use csc369_operating_systems.Paging.Bitmap.{Bitmap, words_for, returned, mark_from, bitmap_create}
use native.Mathlib.Nat.{zero-div}
use csc369_operating_systems.Paging.Bitmap.Laws.{used, IsValid}

has_bit-zero : (k : ℕ) → has_bit 0 k ≡ false
has_bit-zero k = ground (arith, zero-div (2 ^ k))

get_or-replicate_lt : (n i a d : ℕ) → i < n → get_or (replicate n a) i d ≡ a
get_or-replicate_lt zero i a d h = absurd (omega arith)
get_or-replicate_lt (suc n) zero a d h = refl
get_or-replicate_lt (suc n) (suc i) a d h = get_or-replicate_lt n i a d (omega arith)

get_or-replicate_ge : (n i a d : ℕ) → n ≤ i → get_or (replicate n a) i d ≡ d
get_or-replicate_ge zero i a d h = refl
get_or-replicate_ge (suc n) zero a d h = absurd (omega arith)
get_or-replicate_ge (suc n) (suc i) a d h = get_or-replicate_ge n i a d (omega arith)

-- The bits from `j` to `j + n - 1` become 1.
mark_from_low : (n j w i : ℕ) → i < j → has_bit (mark_from n j w) i ≡ has_bit w i
unfolding mark_from
mark_from_low zero j w i h = refl
mark_from_low (suc n) j w i h =
    mark_from_low n (j + 1) (set_bit w j) i (omega arith) ∙ ground (arith, has_bit-set_bit w j i)

mark_from_high : (n j w i : ℕ) → j ≤ i → i < j + n → has_bit (mark_from n j w) i ≡ true
unfolding mark_from
mark_from_high zero j w i low high = absurd (omega arith)
mark_from_high (suc n) j w i low high = elim (ℕ_discrete j i) [
  | yes here ↦
      mark_from_low n (j + 1) (set_bit w j) i (omega arith) ∙ ground (arith, has_bit-set_bit w j i)
  | no later ↦ mark_from_high n (j + 1) (set_bit w j) i (omega arith) (omega arith)
]

mark_from-lt : (n j w : ℕ) → j + n ≤ 32 → w < 2 ^ 32 → mark_from n j w < 2 ^ 32
unfolding mark_from
mark_from-lt zero j w h lt = lt
mark_from-lt (suc n) j w h lt =
    mark_from-lt n (j + 1) (set_bit w j) (omega arith) (set_bit-lt 32 w j (omega arith) lt)

abbrev whole : ℕ → Bitmap
whole nbits = record { nbits = nbits; v = replicate (words_for nbits) 0 }

abbrev tail_word : ℕ → ℕ
tail_word nbits = mark_from (32 - nbits % 32) (nbits % 32) 0

abbrev pub partial : ℕ → Bitmap
partial nbits = record {
  nbits = nbits;
  v = set (replicate (words_for nbits) 0) (nbits / 32) (tail_word nbits);
}

words_whole : (nbits : ℕ) → nbits % 32 ≡ 0 → nbits + 31 < 2 ^ 32 → words_for nbits ≡ nbits / 32
words_whole nbits h small = omega arith

words_partial :
    (nbits : ℕ) → 0 < nbits % 32 → nbits + 31 < 2 ^ 32 → words_for nbits ≡ nbits / 32 + 1
words_partial nbits h small = omega arith

create_whole :
    (nbits : ℕ)
    → nbits % 32 ≡ 0
    → nbits + 31 < 2 ^ 32
    → bitmap_create true nbits ≡ returned (whole nbits)
unfolding bitmap_create
create_whole nbits h small = ground (arith, words_whole nbits h small)

create_partial :
    (nbits : ℕ)
    → 0 < nbits % 32
    → nbits + 31 < 2 ^ 32
    → bitmap_create true nbits ≡ returned (partial nbits)
unfolding bitmap_create
create_partial nbits h small =
    let words = words_partial nbits h small in
    let over : nbits - (words_for nbits - 1) * 32 ≡ nbits % 32 = omega (arith, words) in
    let last : words_for nbits - 1 ≡ nbits / 32 = omega (arith, words) in ground arith

whole-IsValid : (nbits : ℕ) → nbits % 32 ≡ 0 → nbits + 31 < 2 ^ 32 → IsValid (whole nbits)
whole-IsValid nbits h small = record {
  small = small;
  size = length-replicate (words_for nbits) 0;
  words = λ ix. ground (arith, get_or-replicate {A = ℕ} (words_for nbits) ix 0);
  over = λ i past.
      ap (λ (w : ℕ). has_bit w (i % 32))
        (get_or-replicate_ge (words_for nbits) (i / 32) 0 0xffff_ffff
          (omega (arith, words_whole nbits h small)))
      ∙ bits_of_ones 32 0xffff_ffff (i % 32) refl (omega arith);
}

whole_unused :
    (nbits i : ℕ) → nbits % 32 ≡ 0 → nbits + 31 < 2 ^ 32 → i < nbits → used (whole nbits) i ≡ false
whole_unused nbits i h small inside =
    ap (λ (w : ℕ). has_bit w (i % 32))
      (get_or-replicate_lt (words_for nbits) (i / 32) 0 0xffff_ffff
        (omega (arith, words_whole nbits h small)))
    ∙ has_bit-zero (i % 32)

module _ (nbits : ℕ) (h : 0 < nbits % 32) (small : nbits + 31 < 2 ^ 32) where
  partial_last : (d : ℕ) → get_or (partial nbits).v (nbits / 32) d ≡ tail_word nbits
  partial_last d =
      get_or-set_self (replicate (words_for nbits) 0) (nbits / 32) (tail_word nbits) d
        (omega (arith, words_partial nbits h small, length-replicate {A = ℕ} (words_for nbits) 0))

  partial_other :
      (j d : ℕ)
      → nbits / 32 ≢ j
      → get_or (partial nbits).v j d ≡ get_or (replicate (words_for nbits) 0) j d
  partial_other j d n = get_or-set_ne (replicate (words_for nbits) 0) (tail_word nbits) d n

  tail_word-lt : tail_word nbits < 2 ^ 32
  tail_word-lt = mark_from-lt (32 - nbits % 32) (nbits % 32) 0 (omega arith) (omega arith)

  used-partial :
      (i : ℕ) → i / 32 ≡ nbits / 32 → used (partial nbits) i ≡ has_bit (tail_word nbits) (i % 32)
  used-partial i at = ap (λ (w : ℕ). has_bit w (i % 32)) (rw at (partial_last 0xffff_ffff))

  partial_words : (j : ℕ) → get_or (partial nbits).v j 0 < 2 ^ 32
  partial_words j = elim (ℕ_discrete (nbits / 32) j) [
    | yes last ↦ ground (arith, partial_last 0, tail_word-lt)
    | no other ↦
        ground (arith, partial_other j 0 other, get_or-replicate {A = ℕ} (words_for nbits) j 0)
  ]

  partial_over : (i : ℕ) → nbits ≤ i → used (partial nbits) i ≡ true
  partial_over i past = elim (ℕ_discrete (i / 32) (nbits / 32)) [
    | yes last ↦
        used-partial i last
        ∙ mark_from_high (32 - nbits % 32) (nbits % 32) 0 (i % 32) (omega arith) (omega arith)
    | no other ↦
        ap (λ (w : ℕ). has_bit w (i % 32))
          (partial_other (i / 32) 0xffff_ffff (λ e. other (sym e))
            ∙ get_or-replicate_ge (words_for nbits) (i / 32) 0 0xffff_ffff
                (omega (arith, words_partial nbits h small)))
        ∙ bits_of_ones 32 0xffff_ffff (i % 32) refl (omega arith)
  ]

  partial_unused : (i : ℕ) → i < nbits → used (partial nbits) i ≡ false
  partial_unused i inside = elim (ℕ_discrete (i / 32) (nbits / 32)) [
    | yes last ↦
        used-partial i last
        ∙ mark_from_low (32 - nbits % 32) (nbits % 32) 0 (i % 32) (omega arith)
        ∙ has_bit-zero (i % 32)
    | no other ↦
        ap (λ (w : ℕ). has_bit w (i % 32))
          (partial_other (i / 32) 0xffff_ffff (λ e. other (sym e))
            ∙ get_or-replicate_lt (words_for nbits) (i / 32) 0 0xffff_ffff
                (omega (arith, words_partial nbits h small)))
        ∙ has_bit-zero (i % 32)
  ]

  pub partial-IsValid : IsValid (partial nbits)
  partial-IsValid = record {
    small = small;
    size =
        length-set (replicate (words_for nbits) 0) (nbits / 32) (tail_word nbits)
        ∙ length-replicate (words_for nbits) 0;
    words = partial_words;
    over = partial_over;
  }

-- If memory is given and `nbits + 31` is an `unsigned`, `bitmap_create` passes its assertions and
-- returns a valid bitmap of `nbits` indices, none of them in use.
pub bitmap_create_lem :
    (nbits : ℕ)
    → nbits + 31 < 2 ^ 32
    → (b : Bitmap) × (bitmap_create true nbits ≡ returned b)
      × (b.nbits ≡ nbits)
      × IsValid b
      × ((i : ℕ) → i < nbits → used b i ≡ false)
bitmap_create_lem nbits small = elim (ℕ_discrete (nbits % 32) 0) [
  | yes h ↦ (
    whole nbits,
    create_whole nbits h small,
    refl,
    whole-IsValid nbits h small,
    λ i inside. whole_unused nbits i h small inside,
  )
  | no n ↦
      let h : 0 < nbits % 32 = omega arith in
      (
        partial nbits,
        create_partial nbits h small,
        refl,
        partial-IsValid nbits h small,
        partial_unused nbits h small,
      )
]
