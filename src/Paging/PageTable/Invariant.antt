-- ===== src/Paging/PageTable/Invariant.antt =====
-- The invariant of the page table, the coremap and the swap file, and what a machine holds of each
-- virtual page.
use csc369_operating_systems.Base.{
  ℕ, ◌+◌, ◌*◌, ◌/◌, ◌%◌, ◌^◌, ◌≤◌, ◌<◌, ◌≡◌, ◌≢◌, refl, arith, true, false, Option, none, some,
  if◌then◌else◌, ltb, ◌⊎◌, inl, inr,
}
use csc369_operating_systems.Paging.Bitmap.{Bitmap, returned}
use csc369_operating_systems.Paging.Bitmap.Laws.{taken, no_space, bitmap_alloc_lem, IsValid, used}
use csc369_operating_systems.Paging.PageTable.{Pte, Page, Machine, blank, swap_place}

-- The swap map has the indices below `next` in use, and each page that has an offset has its own.
pub record IsPlaced (swapmap : Bitmap) (pgtbl : ℕ → Pte) (next : ℕ) : Type 0 where
  pub valid_map : IsValid swapmap
  pub bound : swapmap.nbits * 16 ≤ 2 ^ 31
  pub full : next ≤ swapmap.nbits
  pub prefix : (i : ℕ) → i < swapmap.nbits → used swapmap i ≡ ltb i next
  pub placed : (k o : ℕ) → (pgtbl k).swap_off ≡ some o → (o % 16 ≡ 0) × (o / 16 < next)
  pub apart : (k j o : ℕ) → (pgtbl k).swap_off ≡ some o → (pgtbl j).swap_off ≡ some o → k ≡ j

-- A page in memory has its frame, which points back to it; a page that is not in memory and that has
-- been seen has an offset. The frame `f` is left out of account.
pub record IsSound {S : Type 0} (m : Machine S) (f next : ℕ) : Type 0 where
  pub small : m.memsize ≤ 2 ^ 20
  pub place : IsPlaced m.swapmap m.pgtbl next
  pub resident :
      (k : ℕ)
      → (m.pgtbl k).valid ≡ true
      → ((m.pgtbl k).frame < m.memsize)
        × ((m.pgtbl k).frame ≢ f)
        × ((m.coremap (m.pgtbl k).frame).in_use ≡ true)
        × ((m.coremap (m.pgtbl k).frame).pte ≡ k)
        × ((m.pgtbl k).onswap ≡ true)
  pub occupied :
      (g : ℕ)
      → g < m.memsize
      → g ≢ f
      → (m.coremap g).in_use ≡ true
      → ((m.pgtbl (m.coremap g).pte).valid ≡ true) × ((m.pgtbl (m.coremap g).pte).frame ≡ g)
  pub stored :
      (k : ℕ)
      → (m.pgtbl k).valid ≡ false
      → (m.pgtbl k).onswap ≡ true
      → (o : ℕ) × ((m.pgtbl k).swap_off ≡ some o)
  pub unborn : (k : ℕ) → m.pgdir (k / 4096) ≡ false → m.pgtbl k ≡ blank

-- The content of a virtual page, if it has ever been touched.
abbrev pub content : {S : Type 0} → Machine S → ℕ → Option Page
content m k =
    if (m.pgtbl k).valid
    then some (m.physmem (m.pgtbl k).frame)
    else if (m.pgtbl k).onswap
    then (elim (m.pgtbl k).swap_off [ none ↦ none | some o ↦ some (m.swapfile o) ])
    else none

-- A free frame can be left out.
pub IsSound-free :
    {S : Type 0} (m : Machine S) (f next : ℕ)
    → IsSound m m.memsize next
    → (m.coremap f).in_use ≡ false
    → IsSound m f next
IsSound-free m f next v free = record {
  small = v.small;
  place = v.place;
  resident = λ k present.
      let (low, n, busy, back, on) = v.resident k present in
      (low, (λ e. ground arith), busy, back, on);
  occupied = λ g low n busy. v.occupied g low (λ e. omega arith) busy;
  stored = v.stored;
  unborn = v.unborn;
}

-- Where `swap_place` puts a page: at the offset it has, or at the next one.
pub record Placement (off : Option ℕ) (swapmap : Bitmap) (next : ℕ) : Type 0 where
  pub offset : ℕ
  pub map : Bitmap
  pub next' : ℕ
  pub result : swap_place off swapmap ≡ returned (offset, map)
  pub valid_map : IsValid map
  pub size : map.nbits ≡ swapmap.nbits
  pub prefix : (i : ℕ) → i < swapmap.nbits → used map i ≡ ltb i next'
  pub full : next' ≤ swapmap.nbits
  pub grows : (next ≤ next') × (next' ≤ next + 1)
  pub aligned : (offset % 16 ≡ 0) × (offset / 16 < next')
  pub whose : (off ≡ some offset) ⊎ (off ≡ none) × (offset / 16 ≡ next)

pub swap_place_lem :
    (off : Option ℕ) (swapmap : Bitmap) (next : ℕ)
    → IsValid swapmap
    → swapmap.nbits * 16 ≤ 2 ^ 31
    → ((i : ℕ) → i < swapmap.nbits → used swapmap i ≡ ltb i next)
    → next < swapmap.nbits
    → ((o : ℕ) → off ≡ some o → (o % 16 ≡ 0) × (o / 16 < next))
    → Placement off swapmap next
unfolding swap_place
swap_place_lem (some o) swapmap next v bound prefix room old = record {
  offset = o;
  map = swapmap;
  next' = next;
  result = refl;
  valid_map = v;
  size = refl;
  prefix = prefix;
  full = omega arith;
  grows = (omega arith, omega arith);
  aligned = old o refl;
  whose = inl refl;
}
swap_place_lem none swapmap next v bound prefix room old = elim (bitmap_alloc_lem swapmap v) [
  | no_space e all ↦ ground (arith, all next room, prefix next room)
  | taken index b' e low free below after same valid ↦
      let at : index ≡ next = ground (arith, prefix index low, prefix next room, below next) in
      record {
        offset = index * 16 % 2 ^ 32;
        map = b';
        next' = next + 1;
        result = ground arith;
        valid_map = valid;
        size = same;
        prefix = λ i h. ground (arith, after i, prefix i h);
        full = omega arith;
        grows = (omega arith, omega arith);
        aligned = (omega (arith, at, bound, low), omega (arith, at, bound, low));
        whose = inr (refl, omega (arith, at, bound, low));
      }
]
