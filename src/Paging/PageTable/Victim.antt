-- ===== src/Paging/PageTable/Victim.antt =====
-- The machine after `allocate_frame` has put a page out: the invariant without its frame, and the
-- content of every page as before.
use csc369_operating_systems.Base.{
  subst, ◌∙◌, ap, sym, Option-cases, update_ne, ℕ_discrete, ℕ, ◌/◌, ◌%◌, ◌<◌, ◌≡◌, ◌≢◌, arith, true,
  false, some, inl, inr,
}
use csc369_operating_systems.Paging.Policy.{Policy}
use csc369_operating_systems.Paging.PageTable.{blank, Disk, Machine}
use csc369_operating_systems.Paging.PageTable.Invariant.{IsPlaced, IsSound, content, Placement}
use csc369_operating_systems.Paging.PageTable.PageOut.{IsWorking, paged_out}

module _ (alg : Policy) (disk : Disk) (works : IsWorking disk) (m : Machine alg.State)
    (frame next c d : ℕ) (v : IsSound m m.memsize next) (low : frame < m.memsize)
    (busy : (m.coremap frame).in_use ≡ true)
    (pl : Placement (m.pgtbl (m.coremap frame).pte).swap_off m.swapmap next) where
  abbrev key : ℕ
  key = (m.coremap frame).pte

  abbrev after : Machine alg.State
  after = paged_out alg disk works frame key pl.offset pl.map c d m

  -- No other page has the offset.
  own_offset : (j o : ℕ) → (m.pgtbl j).swap_off ≡ some o → key ≢ j → o ≢ pl.offset
  own_offset j o at other same = elim pl.whose [
    | inl old ↦ other (v.place.apart key j o (ground arith) at)
    | inr (fresh, last) ↦ ground (arith, v.place.placed j o at)
  ]

  was_present : ((m.pgtbl key).valid ≡ true) × ((m.pgtbl key).frame ≡ frame)
  was_present = v.occupied frame low (λ e. omega arith) busy

  at_other : (k : ℕ) → key ≢ k → after.pgtbl k ≡ m.pgtbl k
  at_other k other = update_ne m.pgtbl key k _ other

  placed_after : (k o : ℕ) → (after.pgtbl k).swap_off ≡ some o → (o % 16 ≡ 0) × (o / 16 < pl.next')
  placed_after k o at = elim (ℕ_discrete key k) [
    | yes same ↦ let e : pl.offset ≡ o = ground arith in rw e at pl.aligned
    | no other ↦
        let (whole, lt) = v.place.placed k o (rw (at_other k other) at at) in
        (whole, omega (arith, lt, pl.grows))
  ]

  apart_after :
      (k j o : ℕ) → (after.pgtbl k).swap_off ≡ some o → (after.pgtbl j).swap_off ≡ some o → k ≡ j
  apart_after k j o at at' = elim (ℕ_discrete key k) [
    | yes k_same ↦ elim (ℕ_discrete key j) [
      | yes j_same ↦ omega arith
      | no j_other ↦ absurd (own_offset j o (rw (at_other j j_other) at at') j_other (ground arith))
    ]
    | no k_other ↦ elim (ℕ_discrete key j) [
      | yes j_same ↦ absurd (own_offset k o (rw (at_other k k_other) at at) k_other (ground arith))
      | no j_other ↦
          v.place.apart k j o (rw (at_other k k_other) at at) (rw (at_other j j_other) at at')
    ]
  ]

  place_after : IsPlaced after.swapmap after.pgtbl pl.next'
  place_after = record {
    valid_map = pl.valid_map;
    bound = ground (arith, v.place.bound, pl.size);
    full = ground (arith, pl.full, pl.size);
    prefix = λ i h. pl.prefix i (ground (arith, pl.size));
    placed = placed_after;
    apart = apart_after;
  }

  other_frame :
      (k : ℕ)
      → key ≢ k
      → (m.pgtbl k).valid ≡ true
      → ((m.pgtbl k).frame < m.memsize)
        × ((m.pgtbl k).frame ≢ frame)
        × ((m.coremap (m.pgtbl k).frame).in_use ≡ true)
        × ((m.coremap (m.pgtbl k).frame).pte ≡ k)
        × ((m.pgtbl k).onswap ≡ true)
  other_frame k other present =
      let (lt, inside, used, back, on) = v.resident k present in
      (lt, (λ e. other (ap (λ (i : ℕ). (m.coremap i).pte) (sym e) ∙ back)), used, back, on)

  resident_after :
      (k : ℕ)
      → (after.pgtbl k).valid ≡ true
      → ((after.pgtbl k).frame < m.memsize)
        × ((after.pgtbl k).frame ≢ frame)
        × ((m.coremap (after.pgtbl k).frame).in_use ≡ true)
        × ((m.coremap (after.pgtbl k).frame).pte ≡ k)
        × ((after.pgtbl k).onswap ≡ true)
  resident_after k present = elim (ℕ_discrete key k) [
    | yes same ↦ ground arith
    | no other ↦ rw (at_other k other) (other_frame k other (rw (at_other k other) at present))
  ]

  occupied_after :
      (g : ℕ)
      → g < m.memsize
      → g ≢ frame
      → (m.coremap g).in_use ≡ true
      → ((after.pgtbl (m.coremap g).pte).valid ≡ true) × ((after.pgtbl (m.coremap g).pte).frame ≡ g)
  occupied_after g lt n used =
      let (present, back) = v.occupied g lt (λ e. omega arith) used in
      let other : key ≢ (m.coremap g).pte =
        λ e. n (sym back ∙ ap (λ (i : ℕ). (m.pgtbl i).frame) (sym e) ∙ was_present.1) in
      rw (at_other (m.coremap g).pte other) (present, back)

  stored_after :
      (k : ℕ)
      → (after.pgtbl k).valid ≡ false
      → (after.pgtbl k).onswap ≡ true
      → (o : ℕ) × ((after.pgtbl k).swap_off ≡ some o)
  stored_after k absent on = elim (ℕ_discrete key k) [
    | yes same ↦ (pl.offset, ground arith)
    | no other ↦ ground (arith, at_other k other, v.stored k)
  ]

  -- The victim's table exists, since the entry is not blank.
  unborn_after : (k : ℕ) → m.pgdir (k / 4096) ≡ false → after.pgtbl k ≡ blank
  unborn_after k gone = elim (ℕ_discrete key k) [
    | yes same ↦ ground (arith, v.unborn k gone, was_present)
    | no other ↦ at_other k other ∙ v.unborn k gone
  ]

  pub after-IsSound : IsSound after frame pl.next'
  after-IsSound = record {
    small = v.small;
    place = place_after;
    resident = resident_after;
    occupied = occupied_after;
    stored = stored_after;
    unborn = unborn_after;
  }

  key-content : content after key ≡ content m key
  key-content = ground (arith, was_present, v.resident key was_present.0)

  pub content-after : (k : ℕ) → content after k ≡ content m k
  content-after k = elim (ℕ_discrete key k) [
    | yes same ↦ subst (λ (i : ℕ). content after i ≡ content m i) same key-content
    | no other ↦ elim (Option-cases (m.pgtbl k).swap_off) [
      | inl no_place ↦ ground (arith, at_other k other)
      | inr (o, at) ↦ ground (arith, at_other k other, own_offset k o at other)
    ]
  ]
