-- ===== src/Paging/Simulator/Refine.antt =====
-- The simulator as a memory in which no page ever leaves: one access, and a whole trace.
use csc369_operating_systems.Base.{
  subst, ap, update_self, ◌∙◌, sym, ℕ, ◌+◌, ◌/◌, ◌^◌, ◌≤◌, ◌<◌, ◌≡◌, ◌≢◌, refl, arith, Bool, true,
  none, some, ◌==◌, update, ◌⊎◌, inl, inr,
}
use csc369_operating_systems.Paging.Policy.{Policy}
use csc369_operating_systems.Paging.PageTable.{Disk, Page, Machine, pgdir_index}
use csc369_operating_systems.Paging.PageTable.Invariant.{content}
use csc369_operating_systems.Paging.PageTable.PageOut.{IsWorking}
use csc369_operating_systems.Paging.PageTable.Install.{
  Installed-IsSound, content_self, content_other,
}
use csc369_operating_systems.Paging.Simulator.{Bitmap, access_mem, make_present}
use csc369_operating_systems.Paging.Simulator.Present.{IsPresent, make_present_lem}
use csc369_operating_systems.Paging.Simulator.Access.{
  IsRunning, page_number, found_page, written, landed, noted, find_eq, access_eq, landed_lem,
  with_table_lem, table-IsSound,
}

-- What an access returns, in terms of the contents of the pages alone.
pub record Accessed (alg : Policy) (m m' : Machine alg.State) (type vaddr next : ℕ) : Type 0 where
  pub next' : ℕ
  pub running : IsRunning alg m' next'
  pub grows : next' ≤ next + 1
  pub nbits : m'.swapmap.nbits ≡ m.swapmap.nbits
  pub memsize : m'.memsize ≡ m.memsize
  pub counted : m'.ref_count ≡ m.ref_count + 1
  pub written_page :
      content m' (page_number vaddr)
      ≡ some (written type (found_page (content m (page_number vaddr)) vaddr))
  pub other_pages : (k : ℕ) → page_number vaddr ≢ k → content m' k ≡ content m k

module _ (alg : Policy) (disk : Disk) (works : IsWorking disk) (random type vaddr next : ℕ)
    (m : Machine alg.State) (v : IsRunning alg m next) (room : next < m.swapmap.nbits)
    (user : vaddr < 2 ^ 36) where
  abbrev key : ℕ
  key = page_number vaddr

  abbrev tabled : Machine alg.State
  tabled = record m { pgdir = update m.pgdir (pgdir_index vaddr) true }

  directory : key / 4096 ≡ pgdir_index vaddr
  directory = omega arith

  was_lem :
      (x : Page)
      → (content m key ≡ some x)
        ⊎ (content m key ≡ none) × (x ≡ record { version = 0; vaddr = vaddr })
      → found_page (content m key) vaddr ≡ x
  was_lem x (inl here) = rw here refl
  was_lem x (inr (new, e)) = rw new (sym e)

  landed-Accessed :
      (m2 : Machine alg.State) (s : alg.State) (i : IsPresent alg tabled m2 key next vaddr)
      → alg.Tracks m.memsize (update i.used i.f true) s
      → Accessed alg m (landed alg disk type key s m2) type vaddr next
  landed-Accessed m2 s i tracks =
      let (inst, frame, here) = landed_lem alg disk type vaddr key next tabled m2 s i in
      let born : i.base.pgdir (key / 4096) ≡ true =
        rw (i.pgdir, directory) (update_self m.pgdir (pgdir_index vaddr) true) in
      record {
        next' = i.next';
        running = record {
          sound =
              Installed-IsSound i.base (landed alg disk type key s m2) i.f key i.next' _ _ i.around
                i.low born refl i.on i.frame i.off inst;
          tracks =
              subst (λ (u : ℕ → Bool). alg.Tracks m2.memsize u s) i.busy
                (subst (λ (q : ℕ). alg.Tracks q (update i.used i.f true) s)
                  (sym (inst.memsize ∙ i.memsize)) tracks);
          positive = omega (arith, v.positive, inst.memsize, i.memsize);
          counted = omega (arith, i.counts, v.counted);
        };
        grows = i.grows.1;
        nbits = ap (λ (b : Bitmap). b.nbits) inst.swapmap ∙ i.nbits;
        memsize = inst.memsize ∙ i.memsize;
        counted = omega (arith, i.counts);
        written_page =
            content_self i.base (landed alg disk type key s m2) i.f key i.next' _ _ i.around i.low
              born refl i.on i.frame i.off inst
            ∙ ap (λ (x : Page). some (written type x)) (sym (was_lem i.x i.was));
        other_pages = λ k other.
            content_other i.base (landed alg disk type key s m2) i.f key i.next' _ _ i.around i.low
              born refl i.on i.frame i.off inst k other
            ∙ i.keeps k;
      }

  access_result :
      (m2 : Machine alg.State) (s : alg.State) (i : IsPresent alg tabled m2 key next vaddr)
      → make_present alg disk random key vaddr tabled ≡ some m2
      → alg.ref m.memsize i.f m2.alg ≡ some s
      → access_mem alg disk random type vaddr m
        ≡ some ((found_page (content m key) vaddr).vaddr == vaddr, landed alg disk type key s m2)
  access_result m2 s i present seen =
      let (inst, frame, here) = landed_lem alg disk type vaddr key next tabled m2 s i in
      let table = with_table_lem alg disk (pgdir_index vaddr) next m v.sound in
      let seen' : alg.ref m2.memsize (m2.pgtbl key).frame m2.alg ≡ some s =
        rw (frame, inst.memsize, i.memsize) seen in
      let found =
        find_eq alg disk random type vaddr m tabled m2 s (omega arith) table present seen' in
      access_eq alg disk random type vaddr (m2.pgtbl key).frame m (noted alg disk type key s m2)
        found
      ∙ ap (λ (x : Page). some (x.vaddr == vaddr, landed alg disk type key s m2))
          (ap m2.physmem frame ∙ here ∙ sym (was_lem i.x i.was))

  -- With an algorithm that keeps the laws of `Policy`, a swap file that can be read and written, room
  -- in it for one more page, and a user address below 2^36, an access returns. It finds the page with
  -- the content that was last left there, or a new page if there is none; it leaves what the access
  -- writes, and no other page changes, whatever is evicted. The machine stays sound, and the access
  -- counts as one reference, which is a hit or a miss.
  pub access_mem_lem :
      (m' : Machine alg.State) × (access_mem alg disk random type vaddr m
        ≡ some ((found_page (content m key) vaddr).vaddr == vaddr, m'))
      × Accessed alg m m' type vaddr next
  access_mem_lem =
      let (m2, present, i) =
        make_present_lem alg disk works random key vaddr next tabled
          (table-IsSound alg disk (pgdir_index vaddr) next m v.sound) v.tracks v.positive room in
      let (s, seen, tracks) =
        alg.ref_tracks m.memsize i.f i.used m2.alg i.tracks (omega (arith, i.low, i.memsize)) in
      (
        landed alg disk type key s m2,
        access_result m2 s i present seen,
        landed-Accessed m2 s i tracks,
      )
