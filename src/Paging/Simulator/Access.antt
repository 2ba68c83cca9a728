-- ===== src/Paging/Simulator/Access.antt =====
-- One access of the simulator refines one access to a memory in which no page ever leaves.
use csc369_operating_systems.Base.{
  ◌∙◌, ap, update_self, lt→ltb, fun_ext, Bool-cases, ℕ, ◌+◌, ◌/◌, ◌%◌, ◌^◌, ◌<◌, ◌≡◌, refl, arith,
  true, Option, none, some, if◌then◌else◌, ◌==◌, update, inl, inr,
}
use csc369_operating_systems.Paging.Policy.{Policy}
use csc369_operating_systems.Paging.PageTable.{
  Disk, Pte, Page, Machine, blank, page, pgdir_index, pgtbl_index, init_second_level,
}
use csc369_operating_systems.Paging.PageTable.Invariant.{IsSound}
use csc369_operating_systems.Paging.PageTable.PageOut.{update_same}
use csc369_operating_systems.Paging.PageTable.Install.{Installed}
use csc369_operating_systems.Paging.PageTable.Choose.{frames}
use csc369_operating_systems.Paging.Simulator.{
  is_write, touched, make_present, finish, with_table, find_physpage, access_mem,
}
use csc369_operating_systems.Paging.Simulator.Present.{fresh_page, IsPresent}

-- The machine is sound, the algorithm knows its frames, and every reference is a hit or a miss.
pub record IsRunning (alg : Policy) (m : Machine alg.State) (next : ℕ) : Type 0 where
  pub sound : IsSound m m.memsize next
  pub tracks : alg.Tracks m.memsize (frames m) m.alg
  pub positive : 0 < m.memsize
  pub counted : m.ref_count ≡ m.hit_count + m.miss_count

-- The number of the page of an address, as the two indices give it.
abbrev pub page_number : ℕ → ℕ
page_number vaddr = page (pgdir_index vaddr) (pgtbl_index vaddr)

-- What an access does to the memory: the page it finds, and the page it leaves.
abbrev pub found_page : Option Page → ℕ → Page
found_page none vaddr = fresh_page vaddr
found_page (some x) vaddr = x

abbrev pub written : ℕ → Page → Page
written type x = if is_write type then record x { version = (x.version + 1) % 2 ^ 32 } else x

update-update {ℓ} :
    {A : Type ℓ} (h : ℕ → A) (i : ℕ) (a b : A) → update (update h i a) i b ≡ update h i b
update-update h i a b = fun_ext (λ j. ground arith)

module _ (alg : Policy) (disk : Disk) where
  pub with_table_lem :
      (d next : ℕ) (m : Machine alg.State)
      → IsSound m m.memsize next
      → with_table alg disk d m ≡ record m { pgdir = update m.pgdir d true }
  unfolding init_second_level
  with_table_lem d next m v = elim (Bool-cases (m.pgdir d)) [
    | inl there ↦ ground (arith, update_same m.pgdir d true there)
    | inr gone ↦
        let e : (λ (key : ℕ). if key / 4096 == d then blank else m.pgtbl key) ≡ m.pgtbl =
          fun_ext (λ key. ground (arith, v.unborn key)) in
        ground arith
  ]

  pub table-IsSound :
      (d next : ℕ) (m : Machine alg.State)
      → IsSound m m.memsize next
      → IsSound (record m { pgdir = update m.pgdir d true }) m.memsize next
  table-IsSound d next m v = record {
    small = v.small;
    place = v.place;
    resident = v.resident;
    occupied = v.occupied;
    stored = v.stored;
    unborn = λ k gone. v.unborn k (ground arith);
  }

  -- The machine after the access, from the machine that has the page.
  abbrev pub landed : ℕ → ℕ → alg.State → Machine alg.State → Machine alg.State
  landed type key s m2 =
      let f = (m2.pgtbl key).frame in
      record m2 {
        pgtbl = update m2.pgtbl key (touched alg disk type (m2.pgtbl key));
        ref_count = m2.ref_count + 1;
        alg = s;
        physmem = update m2.physmem f (written type (m2.physmem f));
      }

  abbrev pub noted : ℕ → ℕ → alg.State → Machine alg.State → Machine alg.State
  noted type key s m2 = record m2 {
    pgtbl = update m2.pgtbl key (touched alg disk type (m2.pgtbl key));
    ref_count = m2.ref_count + 1;
    alg = s;
  }

  pub find_eq :
      (random type vaddr : ℕ) (m mt m2 : Machine alg.State) (s : alg.State)
      → pgdir_index vaddr < 4096
      → with_table alg disk (pgdir_index vaddr) m ≡ mt
      → make_present alg disk random (page_number vaddr) vaddr mt ≡ some m2
      → alg.ref m2.memsize (m2.pgtbl (page_number vaddr)).frame m2.alg ≡ some s
      → find_physpage alg disk random vaddr type m
        ≡ some ((m2.pgtbl (page_number vaddr)).frame, noted type (page_number vaddr) s m2)
  unfolding find_physpage finish
  find_eq random type vaddr m mt m2 s low table present seen =
      rw (lt→ltb (pgdir_index vaddr) 4096 low, table, present, finish, seen) refl

  pub access_eq :
      (random type vaddr f : ℕ) (m n : Machine alg.State)
      → find_physpage alg disk random vaddr type m ≡ some (f, n)
      → access_mem alg disk random type vaddr m
        ≡ some (
          (n.physmem f).vaddr == vaddr,
          record n { physmem = update n.physmem f (written type (n.physmem f)) },
        )
  unfolding access_mem
  access_eq random type vaddr f m n found = elim (Bool-cases (is_write type)) [
    | inl writes ↦ ground arith
    | inr reads ↦ ground (arith, update_same n.physmem f (n.physmem f) refl)
  ]

  -- The machine after the access has the page, with what the access leaves in it.
  pub landed_lem :
      (type vaddr key next : ℕ) (m m2 : Machine alg.State) (s : alg.State)
      (i : IsPresent alg m m2 key next vaddr)
      → Installed i.base
          (landed type key s m2)
          i.f
          key
          (touched alg disk type i.p)
          (written type i.x)
        × ((m2.pgtbl key).frame ≡ i.f)
        × (m2.physmem i.f ≡ i.x)
  landed_lem type vaddr key next m m2 s i =
      let at : m2.pgtbl key ≡ i.p = rw i.installed.pgtbl (update_self i.base.pgtbl key i.p) in
      let frame : (m2.pgtbl key).frame ≡ i.f = ap (λ (q : Pte). q.frame) at ∙ i.frame in
      let here : m2.physmem i.f ≡ i.x =
        rw i.installed.physmem (update_self i.base.physmem i.f i.x) in
      (
        record {
          memsize = i.installed.memsize;
          pgdir = i.installed.pgdir;
          pgtbl = rw (at, i.installed.pgtbl) (update-update i.base.pgtbl key i.p _);
          coremap = i.installed.coremap;
          physmem = rw (frame, here, i.installed.physmem) (update-update i.base.physmem i.f i.x _);
          swapmap = i.installed.swapmap;
          swapfile = i.installed.swapfile;
        },
        frame,
        here,
      )
