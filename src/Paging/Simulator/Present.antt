-- ===== src/Paging/Simulator/Present.antt =====
-- The page of an address is brought into memory: its content is what it was, or that of a new page.
use csc369_operating_systems.Base.{
  ◌∙◌, Bool-cases, ap, sym, fun_ext, ℕ, ◌+◌, ◌%◌, ◌^◌, ◌≤◌, ◌<◌, ◌≡◌, refl, arith, Bool, true,
  false, none, some, update, ◌⊎◌, inl, inr,
}
use csc369_operating_systems.Paging.Policy.{Policy}
use csc369_operating_systems.Paging.PageTable.{
  Disk, Pte, Page, Frame, Machine, blank, claim, allocate_frame, choose_frame, swap_pagein,
  from_swap, first_touch, init_frame,
}
use csc369_operating_systems.Paging.PageTable.Invariant.{IsSound, content}
use csc369_operating_systems.Paging.PageTable.PageOut.{IsWorking, update_same}
use csc369_operating_systems.Paging.PageTable.Install.{
  IsAround, Installed, absent-IsAround, present-IsAround,
}
use csc369_operating_systems.Paging.PageTable.Choose.{Chosen, choose_frame_lem, frames}
use csc369_operating_systems.Paging.Simulator.{make_present}

abbrev pub fresh_page : ℕ → Page
fresh_page vaddr = record { version = 0; vaddr = vaddr }

-- The machine `m2` has the page `key` in the frame `f` with the content `x`, which is its content in
-- `m` or that of a new page; `base` is `m2` without the page.
pub record IsPresent (alg : Policy) (m m2 : Machine alg.State) (key next vaddr : ℕ) : Type 0 where
  pub f : ℕ
  pub x : Page
  pub p : Pte
  pub base : Machine alg.State
  pub next' : ℕ
  pub grows : (next ≤ next') × (next' ≤ next + 1)
  pub around : IsAround base f key next'
  pub low : f < base.memsize
  pub installed : Installed base m2 f key p x
  pub frame : p.frame ≡ f
  pub on : p.onswap ≡ true
  pub off : p.swap_off ≡ (base.pgtbl key).swap_off
  pub used : ℕ → Bool
  pub tracks : alg.Tracks m.memsize used m2.alg
  pub busy : update used f true ≡ frames m2
  pub keeps : (k : ℕ) → content base k ≡ content m k
  pub was : (content m key ≡ some x) ⊎ (content m key ≡ none) × (x ≡ fresh_page vaddr)
  pub memsize : base.memsize ≡ m.memsize
  pub pgdir : base.pgdir ≡ m.pgdir
  pub nbits : base.swapmap.nbits ≡ m.swapmap.nbits
  pub counts :
      (m2.hit_count + m2.miss_count ≡ m.hit_count + m.miss_count + 1) × (m2.ref_count ≡ m.ref_count)

refilled :
    (h : ℕ → Frame) (f key : ℕ)
    → update (update (λ i. (h i).in_use) f false) f true
      ≡ (λ i. (update h f (record { in_use = true; pte = key }) i).in_use)
refilled h f key = fun_ext (λ i. ground arith)

module _ (alg : Policy) (disk : Disk) (works : IsWorking disk) (random key vaddr next : ℕ)
    (m : Machine alg.State) (v : IsSound m m.memsize next)
    (t : alg.Tracks m.memsize (frames m) m.alg) (positive : 0 < m.memsize)
    (room : next < m.swapmap.nbits) where
  hit-IsPresent :
      (m.pgtbl key).valid ≡ true
      → IsPresent alg m (record m { hit_count = m.hit_count + 1 }) key next vaddr
  hit-IsPresent here =
      let (low, apart, used, back, on) = v.resident key here in
      record {
        f = (m.pgtbl key).frame;
        x = m.physmem (m.pgtbl key).frame;
        p = m.pgtbl key;
        base = m;
        next' = next;
        grows = (omega arith, omega arith);
        around = present-IsAround m key next v here;
        low = low;
        installed = record {
          memsize = refl;
          pgdir = refl;
          pgtbl = sym (update_same m.pgtbl key (m.pgtbl key) refl);
          coremap = sym (update_same m.coremap (m.pgtbl key).frame _ (ground arith));
          physmem = sym (update_same m.physmem (m.pgtbl key).frame _ refl);
          swapmap = refl;
          swapfile = refl;
        };
        frame = refl;
        on = on;
        off = refl;
        used = frames m;
        tracks = t;
        busy = update_same (frames m) (m.pgtbl key).frame true used;
        keeps = λ k. refl;
        was = inl (ground arith);
        memsize = refl;
        pgdir = refl;
        nbits = refl;
        counts = (omega arith, refl);
      }

  -- The machine after a miss, with the entry `p` and the content `x`.
  abbrev missed : Machine alg.State → ℕ → Pte → Page → Machine alg.State
  missed n f p x = record (claim alg disk f key n) {
    physmem = update n.physmem f x;
    pgtbl = update n.pgtbl key p;
    miss_count = n.miss_count + 1;
  }

  abbrev entry : Machine alg.State → ℕ → Bool → Pte
  entry n f dirty = record blank {
    frame = f % 2 ^ 20;
    dirty = dirty;
    onswap = true;
    swap_off = (n.pgtbl key).swap_off;
  }

  missed-IsPresent :
      (n : Machine alg.State) (f : ℕ) (dirty : Bool) (x : Page)
      → (m.pgtbl key).valid ≡ false
      → Chosen alg m n f next
      → (content m key ≡ some x) ⊎ (content m key ≡ none) × (x ≡ fresh_page vaddr)
      → IsPresent alg m (missed n f (entry n f dirty) x) key next vaddr
  missed-IsPresent n f dirty x absent c was = record {
    f = f;
    x = x;
    p = entry n f dirty;
    base = n;
    next' = c.next';
    grows = c.grows;
    around =
        absent-IsAround n f key c.next' c.sound
          (ap (λ (q : Pte). q.valid) (c.absent key absent) ∙ absent);
    low = omega (arith, c.low, c.memsize);
    installed = record {
      memsize = refl;
      pgdir = refl;
      pgtbl = refl;
      coremap = refl;
      physmem = refl;
      swapmap = refl;
      swapfile = refl;
    };
    frame = omega (arith, c.low, c.sound.small, c.memsize);
    on = refl;
    off = refl;
    used = update (frames m) f false;
    tracks = c.tracks;
    busy =
        refilled m.coremap f key
        ∙ ap
            (λ (h : ℕ → Frame).
              λ (i : ℕ). (update h f (record { in_use = true; pte = key }) i).in_use)
            (sym c.coremap);
    keeps = c.keeps;
    was = was;
    memsize = c.memsize;
    pgdir = c.pgdir;
    nbits = c.nbits;
    counts = (ground (arith, c.counts), ground (arith, c.counts));
  }

  hit_lem :
      (m.pgtbl key).valid ≡ true
      → make_present alg disk random key vaddr m ≡ some (record m { hit_count = m.hit_count + 1 })
  unfolding make_present
  hit_lem here = ground arith

  swap_lem :
      (f o : ℕ) (n : Machine alg.State)
      → (m.pgtbl key).valid ≡ false
      → (m.pgtbl key).onswap ≡ true
      → choose_frame alg disk random m ≡ some (f, n)
      → (n.pgtbl key).swap_off ≡ some o
      → o < 2 ^ 31
      → make_present alg disk random key vaddr m
        ≡ some (missed n f (entry n f false) (n.swapfile o))
  unfolding make_present from_swap allocate_frame swap_pagein
  swap_lem f o n absent stored found at low = ground (arith, works o low)

  first_lem :
      (f : ℕ) (n : Machine alg.State)
      → (m.pgtbl key).valid ≡ false
      → (m.pgtbl key).onswap ≡ false
      → choose_frame alg disk random m ≡ some (f, n)
      → make_present alg disk random key vaddr m
        ≡ some (missed n f (entry n f true) (fresh_page vaddr))
  unfolding make_present first_touch allocate_frame init_frame
  first_lem f n absent new found = ground arith

  from_swap-IsPresent :
      (m.pgtbl key).valid ≡ false
      → (m.pgtbl key).onswap ≡ true
      → (m2 : Machine alg.State) × (make_present alg disk random key vaddr m ≡ some m2)
        × IsPresent alg m m2 key next vaddr
  from_swap-IsPresent absent stored =
      let (f, n, found, c) = choose_frame_lem alg disk works random next m v t positive room in
      let (o, at) = v.stored key absent stored in
      let at' : (n.pgtbl key).swap_off ≡ some o =
        ap (λ (q : Pte). q.swap_off) (c.absent key absent) ∙ at in
      let (whole, lt) = c.sound.place.placed key o at' in
      let held : content m key ≡ some (n.swapfile o) =
        sym (c.keeps key) ∙ ground (arith, c.absent key absent) in
      (
        missed n f (entry n f false) (n.swapfile o),
        swap_lem f o n absent stored found at'
            (omega (arith, whole, lt, c.sound.place.full, c.sound.place.bound)),
        missed-IsPresent n f false (n.swapfile o) absent c (inl held),
      )

  first_touch-IsPresent :
      (m.pgtbl key).valid ≡ false
      → (m.pgtbl key).onswap ≡ false
      → (m2 : Machine alg.State) × (make_present alg disk random key vaddr m ≡ some m2)
        × IsPresent alg m m2 key next vaddr
  first_touch-IsPresent absent new =
      let (f, n, found, c) = choose_frame_lem alg disk works random next m v t positive room in
      (
        missed n f (entry n f true) (fresh_page vaddr),
        first_lem f n absent new found,
        missed-IsPresent n f true (fresh_page vaddr) absent c (inr (ground arith, refl)),
      )

  -- With room in the swap map for one more page, `find_physpage` brings the page into memory.
  pub make_present_lem :
      (m2 : Machine alg.State) × (make_present alg disk random key vaddr m ≡ some m2)
      × IsPresent alg m m2 key next vaddr
  make_present_lem = elim (Bool-cases (m.pgtbl key).valid) [
    | inl here ↦ (record m { hit_count = m.hit_count + 1 }, hit_lem here, hit-IsPresent here)
    | inr absent ↦ elim (Bool-cases (m.pgtbl key).onswap) [
      | inl stored ↦ from_swap-IsPresent absent stored
      | inr new ↦ first_touch-IsPresent absent new
    ]
  ]
