-- ===== src/Paging/PageTable/Install.antt =====
-- The last steps of `find_physpage`: the entry of a page gets a frame with some content.
use csc369_operating_systems.Base.{
  Bool-cases, ap, subst, ◌∙◌, sym, ℕ_discrete, update_self, update_ne, ℕ, ◌/◌, ◌^◌, ◌≤◌, ◌<◌, ◌≡◌,
  ◌≢◌, refl, arith, true, false, some, update, inl, inr,
}
use mathlib.Core.Bool.{true≢false}
use csc369_operating_systems.Paging.PageTable.{Pte, Page, Machine, blank}
use csc369_operating_systems.Paging.PageTable.Invariant.{IsPlaced, IsSound, content}

-- The invariant at every page but `key` and every frame but `f`.
pub record IsAround {S : Type 0} (m : Machine S) (f key next : ℕ) : Type 0 where
  pub small : m.memsize ≤ 2 ^ 20
  pub place : IsPlaced m.swapmap m.pgtbl next
  pub resident :
      (k : ℕ)
      → key ≢ k
      → (m.pgtbl k).valid ≡ true
      → ((m.pgtbl k).frame < m.memsize)
        × ((m.pgtbl k).frame ≢ f)
        × ((m.coremap (m.pgtbl k).frame).in_use ≡ true)
        × ((m.coremap (m.pgtbl k).frame).pte ≡ k)
        × ((m.pgtbl k).onswap ≡ true)
  pub occupied :
      (g : ℕ)
      → g < m.memsize
      → g ≢ f
      → (m.coremap g).in_use ≡ true
      → (key ≢ (m.coremap g).pte)
        × ((m.pgtbl (m.coremap g).pte).valid ≡ true)
        × ((m.pgtbl (m.coremap g).pte).frame ≡ g)
  pub stored :
      (k : ℕ)
      → key ≢ k
      → (m.pgtbl k).valid ≡ false
      → (m.pgtbl k).onswap ≡ true
      → (o : ℕ) × ((m.pgtbl k).swap_off ≡ some o)
  pub unborn : (k : ℕ) → m.pgdir (k / 4096) ≡ false → m.pgtbl k ≡ blank

pub absent-IsAround :
    {S : Type 0} (m : Machine S) (f key next : ℕ)
    → IsSound m f next
    → (m.pgtbl key).valid ≡ false
    → IsAround m f key next
absent-IsAround m f key next v absent = record {
  small = v.small;
  place = v.place;
  resident = λ k n present. v.resident k present;
  occupied = λ g lt n busy.
      let (present, back) = v.occupied g lt n busy in
      (
        (λ e. true≢false (sym present ∙ ap (λ (i : ℕ). (m.pgtbl i).valid) (sym e) ∙ absent)),
        present,
        back,
      );
  stored = λ k n. v.stored k;
  unborn = v.unborn;
}

pub present-IsAround :
    {S : Type 0} (m : Machine S) (key next : ℕ)
    → IsSound m m.memsize next
    → (m.pgtbl key).valid ≡ true
    → IsAround m (m.pgtbl key).frame key next
present-IsAround m key next v here = record {
  small = v.small;
  place = v.place;
  resident = λ k n present.
      let (lt, inside, busy, back, on) = v.resident k present in
      let (lt', inside', busy', back', on') = v.resident key here in
      (lt, (λ e. n (sym back' ∙ ap (λ (i : ℕ). (m.coremap i).pte) (sym e) ∙ back)), busy, back, on);
  occupied = λ g lt n busy.
      let (present, back) = v.occupied g lt (λ e. omega arith) busy in
      ((λ e. n (sym back ∙ ap (λ (i : ℕ). (m.pgtbl i).frame) (sym e))), present, back);
  stored = λ k n. v.stored k;
  unborn = v.unborn;
}

-- `n` is `m` with the page `key` in the frame `f`, its entry `p` and its content `x`.
pub record Installed {S : Type 0} (m n : Machine S) (f key : ℕ) (p : Pte) (x : Page) : Type 0 where
  pub memsize : n.memsize ≡ m.memsize
  pub pgdir : n.pgdir ≡ m.pgdir
  pub pgtbl : n.pgtbl ≡ update m.pgtbl key p
  pub coremap : n.coremap ≡ update m.coremap f (record { in_use = true; pte = key })
  pub physmem : n.physmem ≡ update m.physmem f x
  pub swapmap : n.swapmap ≡ m.swapmap
  pub swapfile : n.swapfile ≡ m.swapfile

module _ {S : Type 0} (m n : Machine S) (f key next : ℕ) (p : Pte) (x : Page)
    (v : IsAround m f key next) (low : f < m.memsize) (born : m.pgdir (key / 4096) ≡ true)
    (valid : p.valid ≡ true) (on : p.onswap ≡ true) (frame : p.frame ≡ f)
    (off : p.swap_off ≡ (m.pgtbl key).swap_off) (i : Installed m n f key p x) where
  at_key : n.pgtbl key ≡ p
  at_key = rw i.pgtbl (update_self m.pgtbl key p)

  at_other : (k : ℕ) → key ≢ k → n.pgtbl k ≡ m.pgtbl k
  at_other k other = rw i.pgtbl (update_ne m.pgtbl key k p other)

  same_off : (k : ℕ) → (n.pgtbl k).swap_off ≡ (m.pgtbl k).swap_off
  same_off k = elim (ℕ_discrete key k) [
    | yes same ↦
        subst (λ (j : ℕ). (n.pgtbl j).swap_off ≡ (m.pgtbl j).swap_off) same
          (ap (λ (q : Pte). q.swap_off) at_key ∙ off)
    | no other ↦ ap (λ (q : Pte). q.swap_off) (at_other k other)
  ]

  core_at : n.coremap f ≡ record { in_use = true; pte = key }
  core_at = rw i.coremap (update_self m.coremap f _)

  core_other : (g : ℕ) → f ≢ g → n.coremap g ≡ m.coremap g
  core_other g other = rw i.coremap (update_ne m.coremap f g _ other)

  IsPlaced-in : IsPlaced m.swapmap n.pgtbl next
  IsPlaced-in = record {
    valid_map = v.place.valid_map;
    bound = v.place.bound;
    full = v.place.full;
    prefix = v.place.prefix;
    placed = λ k o at. v.place.placed k o (sym (same_off k) ∙ at);
    apart = λ k j o at at'. v.place.apart k j o (sym (same_off k) ∙ at) (sym (same_off j) ∙ at');
  }

  resident_in :
      (k : ℕ)
      → (n.pgtbl k).valid ≡ true
      → ((n.pgtbl k).frame < n.memsize)
        × ((n.pgtbl k).frame ≢ n.memsize)
        × ((n.coremap (n.pgtbl k).frame).in_use ≡ true)
        × ((n.coremap (n.pgtbl k).frame).pte ≡ k)
        × ((n.pgtbl k).onswap ≡ true)
  resident_in k present = elim (ℕ_discrete key k) [
    | yes same ↦
        let e : n.pgtbl k ≡ p = ap n.pgtbl (sym same) ∙ at_key in
        let c : n.coremap p.frame ≡ record { in_use = true; pte = key } =
          ap n.coremap frame ∙ core_at in
        rw (e, i.memsize, c) (omega arith, (λ q. omega arith), refl, same, on)
    | no other ↦
        let (lt, inside, busy, back, swapped) =
          v.resident k other (rw (at_other k other) at present) in
        let c = core_other (m.pgtbl k).frame (λ q. inside (sym q)) in
        rw (at_other k other, i.memsize, c) (lt, (λ q. omega arith), busy, back, swapped)
  ]

  occupied_in :
      (g : ℕ)
      → g < n.memsize
      → g ≢ n.memsize
      → (n.coremap g).in_use ≡ true
      → ((n.pgtbl (n.coremap g).pte).valid ≡ true) × ((n.pgtbl (n.coremap g).pte).frame ≡ g)
  occupied_in g lt inside busy = elim (ℕ_discrete f g) [
    | yes same ↦
        let c : n.coremap g ≡ record { in_use = true; pte = key } =
          ap n.coremap (sym same) ∙ core_at in
        rw (c, at_key) (valid, frame ∙ same)
    | no other ↦
        let c = core_other g other in
        let (apart, present, back) =
          v.occupied g (omega (arith, lt, i.memsize)) (λ q. other (sym q)) (rw c at busy) in
        rw (c, at_other (m.coremap g).pte apart) (present, back)
  ]

  stored_in :
      (k : ℕ)
      → (n.pgtbl k).valid ≡ false
      → (n.pgtbl k).onswap ≡ true
      → (o : ℕ) × ((n.pgtbl k).swap_off ≡ some o)
  stored_in k absent swapped = elim (ℕ_discrete key k) [
    | yes same ↦ let e : n.pgtbl k ≡ p = ap n.pgtbl (sym same) ∙ at_key in ground arith
    | no other ↦ ground (arith, at_other k other, v.stored k other)
  ]

  unborn_in : (k : ℕ) → n.pgdir (k / 4096) ≡ false → n.pgtbl k ≡ blank
  unborn_in k gone = elim (ℕ_discrete key k) [
    | yes same ↦
        absurd
          (true≢false (sym born ∙ ap (λ (j : ℕ). m.pgdir (j / 4096)) same ∙ rw i.pgdir at gone))
    | no other ↦ at_other k other ∙ v.unborn k (rw i.pgdir at gone)
  ]

  pub Installed-IsSound : IsSound n n.memsize next
  Installed-IsSound = record {
    small = rw i.memsize v.small;
    place = subst (λ b. IsPlaced b n.pgtbl next) (sym i.swapmap) IsPlaced-in;
    resident = resident_in;
    occupied = occupied_in;
    stored = stored_in;
    unborn = unborn_in;
  }

  pub content_self : content n key ≡ some x
  content_self = rw (at_key, i.physmem) (ground (arith, update_self m.physmem f x))

  pub content_other : (k : ℕ) → key ≢ k → content n k ≡ content m k
  content_other k other = elim (Bool-cases (m.pgtbl k).valid) [
    | inl present ↦
        let (lt, inside, busy, back, swapped) = v.resident k other present in
        let far : n.physmem (m.pgtbl k).frame ≡ m.physmem (m.pgtbl k).frame =
          rw i.physmem (update_ne m.physmem f (m.pgtbl k).frame x (λ q. inside (sym q))) in
        ground (arith, at_other k other)
    | inr absent ↦ ground (arith, at_other k other, i.swapfile)
  ]
