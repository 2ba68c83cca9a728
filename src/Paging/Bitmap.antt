-- ===== src/Paging/Bitmap.antt =====
-- Assignment3/swap.c: the bitmap that manages the space in the swap file. A word is an `unsigned` of
-- 32 bits; `aborted` is a failed `assert`, or a read past the array.
pub mod Laws
pub mod Create
pub mod Marks
use csc369_operating_systems.Base.{
  ℕ, zero, suc, ◌+◌, ◌-◌, ◌*◌, ◌/◌, ◌%◌, ◌^◌, Bool, true, false, List, Option, none, some,
  if◌then◌else◌, ltb, leb, ◌==◌, ◌&&◌, has_bit, set_bit, clear_bit, replicate, get_elem?, set,
}

abbrev pub bits_per_word : ℕ
bits_per_word = 32

abbrev pub word_allbits : ℕ
word_allbits = 0xffff_ffff

-- `DIVROUNDUP(nbits, BITS_PER_WORD)` in `unsigned` arithmetic.
abbrev pub words_for : ℕ → ℕ
words_for nbits = (nbits + bits_per_word - 1) % 2 ^ 32 / bits_per_word

pub record Bitmap : Type 0 where
  pub nbits : ℕ
  pub v : List ℕ

pub data Result (A : Type 0) : Type 0 where
  returned : A → Result A
  failed aborted : Result A

-- `for (j = overbits; j < BITS_PER_WORD; j++)`, `n` rounds.
unfoldable pub mark_from : ℕ → ℕ → ℕ → ℕ
mark_from zero j w = w
mark_from (suc n) j w = mark_from n (j + 1) (set_bit w j)

-- `bitmap_create`; `memory` is whether `malloc` gives memory.
unfoldable pub bitmap_create : Bool → ℕ → Result Bitmap
unfolding mark_from
bitmap_create memory nbits =
    let words = words_for nbits in
    let ix = words - 1 in
    let overbits = nbits - ix * bits_per_word in
    let empty = replicate words 0 in
    if memory
    then if ltb (nbits / bits_per_word) words
      then if (nbits / bits_per_word == ix) && ltb 0 overbits && ltb overbits bits_per_word
        then returned (record {
          nbits = nbits;
          v = set empty ix (mark_from (bits_per_word - overbits) overbits 0);
        })
        else aborted
      else returned (record { nbits = nbits; v = empty })
    else failed

-- The inner loop of `bitmap_alloc`, `n` offsets from `offset` on: the first low bit.
unfoldable pub low_bit : ℕ → ℕ → ℕ → Option ℕ
low_bit zero offset w = none
low_bit (suc n) offset w =
    let rest = low_bit n (offset + 1) w in if has_bit w offset then rest else some offset

-- What `bitmap_alloc` does at a word that is not full.
unfoldable pub alloc_in : Bitmap → ℕ → ℕ → Result (ℕ × Bitmap)
alloc_in b ix w = elim (low_bit bits_per_word 0 w) [
  | none ↦ aborted
  | some offset ↦
      let index = ix * bits_per_word + offset in
      if ltb index b.nbits
      then returned (index, record b { v = set b.v ix (set_bit w offset) })
      else aborted
]

-- The outer loop, `n` words from `ix` on.
unfoldable pub alloc_from : ℕ → ℕ → Bitmap → Result (ℕ × Bitmap)
alloc_from zero ix b = failed
alloc_from (suc n) ix b =
    let rest = alloc_from n (ix + 1) b in
    elim (get_elem? b.v ix) [
      | none ↦ aborted
      | some w ↦ if w == word_allbits then rest else alloc_in b ix w
    ]

unfoldable pub bitmap_alloc : Bitmap → Result (ℕ × Bitmap)
unfolding alloc_from
bitmap_alloc b = alloc_from (words_for b.nbits) 0 b

-- `bitmap_translate`: the word, and the bit whose mask is `1 << offset`.
abbrev pub bitmap_translate : ℕ → ℕ × ℕ
bitmap_translate bitno = (bitno / bits_per_word, bitno % bits_per_word)

unfoldable pub bitmap_mark : Bitmap → ℕ → Result Bitmap
bitmap_mark b index =
    let (ix, bit) = bitmap_translate index in
    if ltb index b.nbits
    then (elim (get_elem? b.v ix) [
      | none ↦ aborted
      | some w ↦
          if has_bit w bit then aborted else returned (record b { v = set b.v ix (set_bit w bit) })
    ])
    else aborted

unfoldable pub bitmap_unmark : Bitmap → ℕ → Result Bitmap
bitmap_unmark b index =
    let (ix, bit) = bitmap_translate index in
    if ltb index b.nbits
    then (elim (get_elem? b.v ix) [
      | none ↦ aborted
      | some w ↦
          if has_bit w bit
          then returned (record b { v = set b.v ix (clear_bit w bit) })
          else aborted
    ])
    else aborted

-- Whether the result, the masked word, is nonzero.
unfoldable pub bitmap_isset : Bitmap → ℕ → Result Bool
bitmap_isset b index =
    let (ix, bit) = bitmap_translate index in
    elim (get_elem? b.v ix) [ none ↦ aborted | some w ↦ returned (has_bit w bit) ]
