-- ===== src/Paging/Simulator.antt =====
-- Assignment3: `find_physpage` of pagetable.c, and the accesses of sim.c.
pub mod Present
pub mod Access
pub mod Refine
pub mod Replay
pub mod Aligned
mod Tests
use csc369_operating_systems.Paging.Bitmap.{bitmap_create, Bitmap}
use csc369_operating_systems.Base.{
  ℕ, zero, suc, ◌+◌, ◌*◌, ◌/◌, ◌%◌, ◌^◌, Bool, true, false, ◌&&◌, ◌||◌, not, List, [], ◌∷◌, Option,
  none, some, if◌then◌else◌, ltb, ◌==◌, update,
}
use csc369_operating_systems.Paging.Policy.{Policy}
use csc369_operating_systems.Paging.Bitmap.{failed, aborted, returned}
use csc369_operating_systems.Paging.PageTable.{
  pgtbl_index, blank, init_pagetable, page, first_touch, init_second_level, pgdir_index, from_swap,
  Disk, Machine, Page, Pte,
}

-- The types 'S' (83) and 'M' (77) of a reference write to the page.
abbrev pub is_write : ℕ → Bool
is_write type = (type == 77) || (type == 83)

-- A line of the trace: one that begins with `=`, or a reference.
pub data Line : Type 0 where
  skipped : Line
  reference : ℕ → ℕ → Line

module _ (alg : Policy) (disk : Disk) where
  -- The entry `p` is found, and its page is brought into memory if it is not there.
  unfoldable pub make_present : ℕ → ℕ → ℕ → Machine alg.State → Option (Machine alg.State)
  make_present random key vaddr m =
      if (m.pgtbl key).valid
      then some (record m { hit_count = m.hit_count + 1 })
      else elim (if (m.pgtbl key).onswap
          then from_swap alg disk random key m
          else first_touch alg disk random key vaddr m) [
            | none ↦ none
            | some m' ↦ some (record m' { miss_count = m'.miss_count + 1 })
          ]

  abbrev pub touched : ℕ → Pte → Pte
  touched type p = record p {
    valid = true;
    referenced = true;
    dirty = if is_write type then true else p.dirty;
  }

  -- The last part of `find_physpage`: the result is the frame.
  unfoldable pub finish : ℕ → ℕ → Machine alg.State → Option (ℕ × Machine alg.State)
  finish key type m =
      let p = touched type (m.pgtbl key) in
      elim (alg.ref m.memsize p.frame m.alg) [
        | none ↦ none
        | some s ↦ some (
          p.frame,
          record m { pgtbl = update m.pgtbl key p; ref_count = m.ref_count + 1; alg = s },
        )
      ]

  abbrev pub with_table : ℕ → Machine alg.State → Machine alg.State
  with_table d m = if m.pgdir d then m else init_second_level alg disk d m

  -- An address past the directory ends the program.
  unfoldable pub find_physpage : ℕ → ℕ → ℕ → Machine alg.State → Option (ℕ × Machine alg.State)
  find_physpage random vaddr type m =
      let d = pgdir_index vaddr in
      let key = page d (pgtbl_index vaddr) in
      if ltb d 4096
      then elim (make_present random key vaddr (with_table d m)) [
        | none ↦ none
        | some m' ↦ finish key type m'
      ]
      else none

  -- Whether the page has the expected content, and the machine after the access.
  unfoldable pub access_mem : ℕ → ℕ → ℕ → Machine alg.State → Option (Bool × Machine alg.State)
  access_mem random type vaddr m = elim (find_physpage random vaddr type m) [
    | none ↦ none
    | some r ↦
        let content = r.1.physmem r.0 in
        some (
          content.vaddr == vaddr,
          if is_write type
              then record r.1 {
                physmem =
                    update r.1.physmem r.0
                      (record content { version = (content.version + 1) % 2 ^ 32 });
              }
              else r.1,
        )
  ]

  -- Whether every page had the expected content. `random` gives the numbers of `random()` in turn.
  unfoldable pub replay_trace :
      (ℕ → ℕ) → ℕ → List Line → Machine alg.State → Option (Bool × Machine alg.State)
  replay_trace random n [] m = some (true, m)
  replay_trace random n (skipped ∷ lines) m = replay_trace random n lines m
  replay_trace random n (reference type vaddr ∷ lines) m =
      elim (access_mem (random n) type vaddr m) [
        | none ↦ none
        | some r ↦ elim (replay_trace random (n + 1) lines r.1) [
          | none ↦ none
          | some q ↦ some (r.0 && q.0, q.1)
        ]
      ]

  -- What `main` sets up before the trace, and the replay of the trace.
  unfoldable pub boot : ℕ → Bitmap → Machine alg.State
  boot memsize swapmap = init_pagetable alg disk (record {
    memsize = memsize;
    pgdir = λ i. false;
    pgtbl = λ key. blank;
    coremap = λ i. record { in_use = false; pte = 0 };
    physmem = λ i. record { version = 0; vaddr = 0 };
    swapmap = swapmap;
    swapfile = λ i. record { version = 0; vaddr = 0 };
    hit_count = 0;
    miss_count = 0;
    ref_count = 0;
    evict_clean_count = 0;
    evict_dirty_count = 0;
    alg = alg.init memsize;
  })

  unfoldable pub simulate : (ℕ → ℕ) → ℕ → ℕ → List Line → Option (Bool × Machine alg.State)
  simulate random memsize swapsize lines = elim (bitmap_create true swapsize) [
    | failed ↦ none
    | aborted ↦ none
    | returned swapmap ↦ replay_trace random 0 lines (boot memsize swapmap)
  ]
