-- ===== src/Paging/Bitmap/Marks.antt =====
-- `bitmap_mark`, `bitmap_unmark` and `bitmap_isset` on the bitmap as a set.
use csc369_operating_systems.Base.{
  subst, has_bit-clear_bit, has_bit, get_or-set_ne, get_or, get_or-set_self, ℕ_discrete, length-set,
  lt_of_get_elem?, clear_bit, set_bit, get_elem?_of_lt, get_elem?, set, ℕ, ◌+◌, ◌*◌, ◌/◌, ◌%◌, ◌≤◌,
  ◌<◌, ◌≡◌, refl, arith, Bool, true, false, some, if◌then◌else◌, ◌==◌, ◌∙◌, ap,
}
use csc369_operating_systems.Paging.Bitmap.{
  Bitmap, returned, bitmap_mark, bitmap_unmark, bitmap_isset,
}
use csc369_operating_systems.Paging.Bitmap.Laws.{
  IsValid, used, used_lem, used-set, set-IsValid, word_bound,
}

used-clear :
    (b : Bitmap) (ix k w : ℕ)
    → get_elem? b.v ix ≡ some w
    → k < 32
    → (j : ℕ)
    → used (record b { v = set b.v ix (clear_bit w k) }) j
      ≡ (if ix * 32 + k == j then false else used b j)
used-clear b ix k w at small j =
    let inside = lt_of_get_elem? b.v ix at in
    elim (ℕ_discrete ix (j / 32)) [
      | yes same ↦
          let at' : get_elem? b.v (j / 32) ≡ some w = rw (← same) at in
          let now : get_or (set b.v ix (clear_bit w k)) (j / 32) 0xffff_ffff ≡ clear_bit w k =
            rw (← same) (get_or-set_self b.v ix (clear_bit w k) _ inside) in
          ap (λ (x : ℕ). has_bit x (j % 32)) now
          ∙ has_bit-clear_bit w k (j % 32)
          ∙ ground (arith, used_lem b j at')
      | no other ↦ rw (get_or-set_ne b.v (clear_bit w k) 0xffff_ffff other) (ground arith)
    ]

-- The index `index` has come into the set, or has left it, and no other index has.
abbrev pub Changed : Bitmap → ℕ → Bool → Bitmap → Type 0
Changed b index bit b' =
    IsValid b'
    × (b'.nbits ≡ b.nbits)
    × ((j : ℕ) → used b' j ≡ (if index == j then bit else used b j))

module _ (b : Bitmap) (v : IsValid b) (index : ℕ) (inside : index < b.nbits) where
  word_here : (w : ℕ) × (get_elem? b.v (index / 32) ≡ some w)
  word_here = get_elem?_of_lt b.v (index / 32) (omega (arith, v.size, v.small))

  split : index / 32 * 32 + index % 32 ≡ index
  split = omega arith

  clear-IsValid :
      IsValid (record b { v = set b.v (index / 32) (clear_bit word_here.0 (index % 32)) })
  clear-IsValid =
      let (w, at) = word_here in
      record {
        small = v.small;
        size = length-set b.v (index / 32) (clear_bit w (index % 32)) ∙ v.size;
        words = λ i. elim (ℕ_discrete (index / 32) i) [
          | yes same ↦
              let low : clear_bit w (index % 32) ≤ w = ground arith in
              rw
                (
                  ← same,
                  get_or-set_self b.v (index / 32) (clear_bit w (index % 32)) 0
                      (lt_of_get_elem? b.v (index / 32) at),
                )
                (omega (arith, low, word_bound b v (index / 32) w at))
          | no other ↦ rw (get_or-set_ne b.v (clear_bit w (index % 32)) 0 other) (v.words i)
        ];
        over = λ i past.
            used-clear b (index / 32) (index % 32) w at (omega arith) i
            ∙ ground (arith, v.over i past, split);
      }

  mark_lem :
      used b index ≡ false
      → (b' : Bitmap) × (bitmap_mark b index ≡ returned b') × Changed b index true b'
  unfolding bitmap_mark
  mark_lem free =
      let (w, at) = word_here in
      (
        record b { v = set b.v (index / 32) (set_bit w (index % 32)) },
        ground (arith, used_lem b index at),
        (
          set-IsValid b v (index / 32) (index % 32) w at (omega arith),
          refl,
          λ j. used-set b (index / 32) (index % 32) w at (omega arith) j ∙ ground (arith, split),
        ),
      )

  unmark_lem :
      used b index ≡ true
      → (b' : Bitmap) × (bitmap_unmark b index ≡ returned b') × Changed b index false b'
  unfolding bitmap_unmark
  unmark_lem busy =
      let (w, at) = word_here in
      (
        record b { v = set b.v (index / 32) (clear_bit w (index % 32)) },
        ground (arith, used_lem b index at),
        (
          clear-IsValid,
          refl,
          λ j. used-clear b (index / 32) (index % 32) w at (omega arith) j ∙ ground (arith, split),
        ),
      )

  isset_lem : bitmap_isset b index ≡ returned (used b index)
  unfolding bitmap_isset
  isset_lem = let (w, at) = word_here in ground (arith, used_lem b index at)

-- For a valid bitmap and an index that is not in use: `bitmap_mark` passes its assertions and takes
-- that index and no other; `bitmap_isset` then finds it in use; and `bitmap_unmark` passes its
-- assertions and gives a valid bitmap with the same indices in use as at first.
pub bitmap_unmark-mark :
    (b : Bitmap) (index : ℕ)
    → IsValid b
    → index < b.nbits
    → used b index ≡ false
    → (b1 : Bitmap) × (b2 : Bitmap) × (bitmap_mark b index ≡ returned b1)
      × (bitmap_isset b1 index ≡ returned true)
      × (bitmap_unmark b1 index ≡ returned b2)
      × ((j : ℕ) → used b1 j ≡ (if index == j then true else used b j))
      × IsValid b2
      × ((j : ℕ) → used b2 j ≡ used b j)
bitmap_unmark-mark b index v inside free =
    let (b1, marked, (v1, n1, u1)) = mark_lem b v index inside free in
    let here : used b1 index ≡ true = ground (arith, u1 index) in
    let (b2, unmarked, (v2, n2, u2)) = unmark_lem b1 v1 index (omega (arith, n1)) here in
    (
      b1,
      b2,
      marked,
      isset_lem b1 v1 index (omega (arith, n1)) ∙ ap returned here,
      unmarked,
      u1,
      v2,
      λ j. u2 j ∙ elim (ℕ_discrete index j) [
        | yes same ↦
            subst (λ (i : ℕ). (if index == i then false else used b1 i) ≡ used b i) same
              (ground arith)
        | no other ↦ ground (arith, u1 j)
      ],
    )
