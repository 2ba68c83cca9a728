-- ===== src/Paging/PageTable/Choose.antt =====
-- `allocate_frame` finds a frame, and no page loses its content.
use csc369_operating_systems.Base.{
  ap, ◌∙◌, update_ne, Option-cases, sym, subst, Bool-cases, ℕ_discrete, ℕ, zero, suc, ◌+◌, ◌^◌, ◌≤◌,
  ◌<◌, ◌≡◌, refl, arith, Bool, true, false, none, some, update, inl, inr,
}
use mathlib.Core.Bool.{true≢false}
use csc369_operating_systems.Paging.Policy.{Policy}
use csc369_operating_systems.Paging.PageTable.{
  page_out, Disk, Frame, Machine, free_frame, evict_frame, choose_frame,
}
use csc369_operating_systems.Paging.PageTable.Invariant.{
  IsSound, content, IsSound-free, swap_place_lem, Placement,
}
use csc369_operating_systems.Paging.PageTable.PageOut.{
  update_same, IsWorking, paged_out, page_out_lem,
}
use csc369_operating_systems.Paging.PageTable.Victim.{after-IsSound, content-after}

free_frame-none :
    (n i : ℕ) (c : ℕ → Frame)
    → free_frame n i c ≡ none
    → (j : ℕ) → i ≤ j
    → j < i + n
    → (c j).in_use ≡ true
unfolding free_frame
free_frame-none zero i c h j a b = absurd (omega arith)
free_frame-none (suc n) i c h j a b = elim (ℕ_discrete i j) [
  | yes same ↦ ground arith
  | no other ↦ free_frame-none n (i + 1) c (ground arith) j (omega arith) (omega arith)
]

free_frame-some :
    (n i : ℕ) (c : ℕ → Frame) (f : ℕ)
    → free_frame n i c ≡ some f
    → (f < i + n) × ((c f).in_use ≡ false)
unfolding free_frame
free_frame-some zero i c f h = cc
free_frame-some (suc n) i c f h = elim (Bool-cases (c i).in_use) [
  | inl busy ↦
      let (lt, free) = free_frame-some n (i + 1) c f (ground arith) in (omega (arith, lt), free)
  | inr free ↦ ground arith
]

abbrev pub frames : {S : Type 0} → Machine S → ℕ → Bool
frames m i = (m.coremap i).in_use

-- The machine `n` after a frame has been chosen in the machine `m`.
pub record Chosen (alg : Policy) (m n : Machine alg.State) (f next : ℕ) : Type 0 where
  pub next' : ℕ
  pub sound : IsSound n f next'
  pub grows : (next ≤ next') × (next' ≤ next + 1)
  pub low : f < m.memsize
  pub tracks : alg.Tracks m.memsize (update (frames m) f false) n.alg
  pub keeps : (k : ℕ) → content n k ≡ content m k
  pub absent : (k : ℕ) → (m.pgtbl k).valid ≡ false → n.pgtbl k ≡ m.pgtbl k
  pub memsize : n.memsize ≡ m.memsize
  pub pgdir : n.pgdir ≡ m.pgdir
  pub coremap : n.coremap ≡ m.coremap
  pub nbits : n.swapmap.nbits ≡ m.swapmap.nbits
  pub counts :
      (n.hit_count ≡ m.hit_count) × (n.miss_count ≡ m.miss_count) × (n.ref_count ≡ m.ref_count)

module _ (alg : Policy) (disk : Disk) (works : IsWorking disk) (random next : ℕ)
    (m : Machine alg.State) (v : IsSound m m.memsize next)
    (t : alg.Tracks m.memsize (frames m) m.alg) (positive : 0 < m.memsize)
    (room : next < m.swapmap.nbits) where
  Chosen-free :
      (f : ℕ)
      → free_frame m.memsize 0 m.coremap ≡ some f
      → (choose_frame alg disk random m ≡ some (f, m)) × Chosen alg m m f next
  unfolding choose_frame
  Chosen-free f found =
      let (lt, free) = free_frame-some m.memsize 0 m.coremap f found in
      (
        ground arith,
        record {
          next' = next;
          sound = IsSound-free m f next v free;
          grows = (omega arith, omega arith);
          low = omega arith;
          tracks =
              subst (λ (u : ℕ → Bool). alg.Tracks m.memsize u m.alg)
                (sym (update_same (frames m) f false free)) t;
          keeps = λ k. refl;
          absent = λ k h. refl;
          memsize = refl;
          pgdir = refl;
          coremap = refl;
          nbits = refl;
          counts = (refl, refl, refl);
        },
      )

  -- The machine in which the algorithm has chosen a victim.
  abbrev asked : alg.State → Machine alg.State
  asked s = record m { alg = s }

  asked-IsSound : (s : alg.State) → IsSound (asked s) m.memsize next
  asked-IsSound s = record {
    small = v.small;
    place = v.place;
    resident = v.resident;
    occupied = v.occupied;
    stored = v.stored;
    unborn = v.unborn;
  }

  abbrev victim : ℕ → ℕ
  victim f = (m.coremap f).pte

  placement : (f : ℕ) → Placement (m.pgtbl (victim f)).swap_off m.swapmap next
  placement f =
      swap_place_lem (m.pgtbl (victim f)).swap_off m.swapmap next v.place.valid_map v.place.bound
        v.place.prefix room (v.place.placed (victim f))

  offset_low : (f : ℕ) → (placement f).offset < 2 ^ 31
  offset_low f =
      let (whole, lt) = (placement f).aligned in
      omega (arith, whole, lt, (placement f).full, v.place.bound)

  abbrev without : ℕ → alg.State → ℕ → ℕ → Machine alg.State
  without f s c d =
      paged_out alg disk works f (victim f) (placement f).offset (placement f).map c d (asked s)

  victim_out :
      (f : ℕ) (s : alg.State)
      → f < m.memsize
      → (m.coremap f).in_use ≡ true
      → (c d : ℕ) × (page_out alg disk f (asked s) ≡ some (without f s c d))
  victim_out f s lt busy =
      let (present, back) = v.occupied f lt (λ e. omega arith) busy in
      let (low, apart, used, here, on) = v.resident (victim f) present in
      page_out_lem alg disk works f next (asked s) (placement f) (offset_low f) on

  victim-Chosen :
      (f : ℕ) (s : alg.State) (c d : ℕ)
      → f < m.memsize
      → (m.coremap f).in_use ≡ true
      → alg.Tracks m.memsize (update (frames m) f false) s
      → Chosen alg m (without f s c d) f next
  victim-Chosen f s c d lt busy tracks = record {
    next' = (placement f).next';
    sound =
        after-IsSound alg disk works (asked s) f next c d (asked-IsSound s) lt busy (placement f);
    grows = (placement f).grows;
    low = lt;
    tracks = tracks;
    keeps =
        content-after alg disk works (asked s) f next c d (asked-IsSound s) lt busy (placement f);
    absent = λ k h. update_ne m.pgtbl (victim f) k _ (λ e. true≢false (
        sym (v.occupied f lt (λ q. omega arith) busy).0 ∙ ap (λ (i : ℕ). (m.pgtbl i).valid) e ∙ h));
    memsize = refl;
    pgdir = refl;
    coremap = refl;
    nbits = (placement f).size;
    counts = (refl, refl, refl);
  }

  evicted :
      (f : ℕ) (s : alg.State) (n : Machine alg.State)
      → free_frame m.memsize 0 m.coremap ≡ none
      → alg.evict m.memsize random m.alg ≡ some (f, s)
      → page_out alg disk f (asked s) ≡ some n
      → choose_frame alg disk random m ≡ some (f, n)
  unfolding choose_frame evict_frame
  evicted f s n full chosen out = ground arith

  Chosen-victim :
      free_frame m.memsize 0 m.coremap ≡ none
      → (f : ℕ) × (n : Machine alg.State) × (choose_frame alg disk random m ≡ some (f, n))
        × Chosen alg m n f next
  Chosen-victim full =
      let all : (i : ℕ) → i < m.memsize → frames m i ≡ true =
        λ i lt. free_frame-none m.memsize 0 m.coremap full i (omega arith) (omega arith) in
      let (f, s, chosen, lt, tracks) =
        alg.evict_tracks m.memsize random (frames m) m.alg t all positive in
      let (c, d, out) = victim_out f s lt (all f lt) in
      (
        f,
        without f s c d,
        evicted f s (without f s c d) full chosen out,
        victim-Chosen f s c d lt (all f lt) tracks,
      )

  -- With room in the swap map for one more page, a frame is found, free or made free.
  pub choose_frame_lem :
      (f : ℕ) × (n : Machine alg.State) × (choose_frame alg disk random m ≡ some (f, n))
      × Chosen alg m n f next
  choose_frame_lem = elim (Option-cases (free_frame m.memsize 0 m.coremap)) [
    | inl full ↦ Chosen-victim full
    | inr (f, found) ↦ let (chosen, c) = Chosen-free f found in (f, m, chosen, c)
  ]
