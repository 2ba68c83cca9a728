-- ===== src/Paging/Simulator/Tests.antt =====
-- The theorems on the simulator and on lru at a machine with two frames and a short trace.
use csc369_operating_systems.Paging.Simulator.Aligned.{simulate-IsAligned}
use csc369_operating_systems.Paging.Policy.Lru.Oldest.{
  History, no_history, with_ref, Calls, initial, refs, lru_evict_oldest,
}
use csc369_operating_systems.Paging.PageTable.Invariant.{content}
use csc369_operating_systems.Paging.Simulator.Replay.{
  simulate_lem, boot-IsRunning, IsUser, expected,
}
use csc369_operating_systems.Paging.Bitmap.Create.{bitmap_create_lem}
use csc369_operating_systems.Paging.Policy.Lru.{lru_ref, lru_evict, lru_init, drop_first, Lru}
use csc369_operating_systems.Paging.Simulator.Access.{page_number, found_page, IsRunning}
use csc369_operating_systems.Paging.Simulator.{access_mem, boot, simulate, skipped, reference, Line}
use csc369_operating_systems.Paging.PageTable.PageOut.{IsWorking}
use csc369_operating_systems.Paging.PageTable.{init_pagetable, Disk, Machine}
use csc369_operating_systems.Paging.Bitmap.Laws.{used, IsValid}
use csc369_operating_systems.Base.{
  ℕ, ◌+◌, ◌<◌, ◌≡◌, ◌≢◌, refl, arith, true, false, none, some, List, [], ◌∷◌, ◌==◌,
}
use csc369_operating_systems.Paging.Bitmap.{Bitmap}
use csc369_operating_systems.Paging.Policy.Lru.Queue.{lru_policy}
use csc369_operating_systems.Paging.Policy.Clock.{clock_policy}
use csc369_operating_systems.Paging.Simulator.Refine.{access_mem_lem, Accessed}

abbrev good_disk : Disk
good_disk = record { readable = λ o. true; writable = λ o. true }

good_disk-IsWorking : IsWorking good_disk
good_disk-IsWorking o low = (refl, refl)

-- Three pages in two frames: a store to the first page, loads of the others, and a load of the first.
abbrev trace : List Line
trace =
    reference 83 0x1000
    ∷ reference 76 0x2000
    ∷ skipped
    ∷ reference 76 0x3000
    ∷ reference 76 0x1000
    ∷ []

trace-IsUser : IsUser trace
trace-IsUser = (omega arith, (omega arith, (omega arith, (omega arith, tt))))

simulate_lem_example :
    (m' : Machine lru_policy.State) × (simulate lru_policy good_disk (λ n. n) 2 8 trace
      ≡ some ((expected trace (λ k. none)).0, m'))
    × (content m' ≡ (expected trace (λ k. none)).1)
    × (m'.ref_count ≡ m'.hit_count + m'.miss_count)
simulate_lem_example =
    simulate_lem lru_policy good_disk good_disk-IsWorking (λ n. n) 2 8 trace (omega arith)
      (omega arith) (omega arith) (omega arith) trace-IsUser

simulate-IsAligned_example :
    (m : Machine clock_policy.State) × (simulate clock_policy good_disk (λ n. n) 2 8 trace
      ≡ some (true, m))
simulate-IsAligned_example =
    simulate-IsAligned clock_policy good_disk good_disk-IsWorking (λ n. n) 2 8 trace (omega arith)
      (omega arith) (omega arith) (omega arith) trace-IsUser (refl, (refl, (refl, (refl, tt))))

empty_map : (b : Bitmap) × (b.nbits ≡ 32) × IsValid b × ((i : ℕ) → i < 32 → used b i ≡ false)
empty_map =
    let (b, made, size, valid, empty) = bitmap_create_lem 32 (omega arith) in
    (b, size, valid, empty)

abbrev booted : Machine lru_policy.State
booted = boot lru_policy good_disk 2 empty_map.0

booted-IsRunning : IsRunning lru_policy booted 0
booted-IsRunning =
    boot-IsRunning lru_policy good_disk good_disk-IsWorking (λ n. n) 2 32 [] (omega arith)
      (omega arith) (omega arith) (omega arith) tt empty_map.0 empty_map.1 empty_map.2 empty_map.3

booted_room : 0 < booted.swapmap.nbits
unfolding boot init_pagetable
booted_room = omega (arith, empty_map.1)

access_mem_lem_example :
    (m' : Machine lru_policy.State) × (access_mem lru_policy good_disk 5 83 0x1000 booted
      ≡ some ((found_page (content booted (page_number 0x1000)) 0x1000).vaddr == 0x1000, m'))
    × Accessed lru_policy booted m' 83 0x1000 0
access_mem_lem_example =
    access_mem_lem lru_policy good_disk good_disk-IsWorking 5 83 0x1000 0 booted booted-IsRunning
      booted_room (omega arith)

-- Frames 0 and 1 have been referenced, then 0 again.
abbrev after_three : History
after_three = with_ref 0 (with_ref 1 (with_ref 0 no_history))

abbrev two_queued : Lru
two_queued = record { queue = 1 ∷ 0 ∷ []; referenced = true ∷ true ∷ [] }

three_Calls : Calls 2 after_three two_queued
unfolding lru_init lru_ref drop_first
three_Calls = refs (refs (refs initial (omega arith) refl) (omega arith) refl) (omega arith) refl

lru_evict_oldest_example :
    ((frame : ℕ) → frame < 2 → (s' : Lru) × (lru_ref frame two_queued ≡ some s'))
    × ((g : ℕ)
        → g < 2
        → after_three.used g ≡ true
        → (frame : ℕ) × (s' : Lru) × (lru_evict two_queued ≡ some (frame, s'))
          × (after_three.used frame ≡ true)
          × ((j : ℕ)
              → j < 2
              → after_three.used j ≡ true
              → j ≢ frame
              → after_three.last frame < after_three.last j))
lru_evict_oldest_example = lru_evict_oldest 2 after_three two_queued three_Calls
