-- ===== src/Paging/PageTable.antt =====
-- Assignment3/pagetable.c, the swap file of swap.c, and the simulator of sim.c, over any replacement
-- algorithm. `none` is the end of the program: a failed `assert`, or `exit(1)`.
pub mod Invariant
pub mod PageOut
pub mod Victim
pub mod Install
pub mod Choose
use csc369_operating_systems.Base.{
  ℕ, zero, suc, ◌+◌, ◌-◌, ◌*◌, ◌/◌, ◌%◌, ◌^◌, Bool, true, false, ◌&&◌, ◌||◌, not, List, [], ◌∷◌,
  Option, none, some, if◌then◌else◌, ltb, ◌==◌, update,
}
use csc369_operating_systems.Paging.Bitmap.{
  Bitmap, Result, returned, failed, aborted, bitmap_alloc, bitmap_create,
}
use csc369_operating_systems.Paging.Policy.{Policy}

-- `pgtbl_entry_t`. The word `frame` is the bits PG_VALID, PG_DIRTY, PG_REF and PG_ONSWAP, and the 20
-- bits above PAGE_SHIFT. `swap_off` is `none` for INVALID_SWAP.
pub record Pte : Type 0 where
  pub valid : Bool
  pub dirty : Bool
  pub referenced : Bool
  pub onswap : Bool
  pub frame : ℕ
  pub swap_off : Option ℕ

-- A page of SIMPAGESIZE bytes: a version, an `int`, and the address that `init_frame` leaves in it.
pub record Page : Type 0 where
  pub version : ℕ
  pub vaddr : ℕ

-- `struct frame`. `pte` points to the entry of the page with this number.
pub record Frame : Type 0 where
  pub in_use : Bool
  pub pte : ℕ

-- `pgdir` holds PG_VALID of each entry of the directory. `pgtbl` holds the second-level tables one
-- after the other: the page `page d t` has the entry `t` of the table `d`. `swapfile` holds the page
-- at each offset.
pub record Machine (S : Type 0) : Type 0 where
  pub memsize : ℕ
  pub pgdir : ℕ → Bool
  pub pgtbl : ℕ → Pte
  pub coremap : ℕ → Frame
  pub physmem : ℕ → Page
  pub swapmap : Bitmap
  pub swapfile : ℕ → Page
  pub hit_count : ℕ
  pub miss_count : ℕ
  pub ref_count : ℕ
  pub evict_clean_count : ℕ
  pub evict_dirty_count : ℕ
  pub alg : S

-- Whether `lseek` with `read`, and with `write`, transfer the whole page at an offset.
pub record Disk : Type 0 where
  pub readable : ℕ → Bool
  pub writable : ℕ → Bool

abbrev pub simpagesize : ℕ
simpagesize = 16

abbrev pub pgdir_index : ℕ → ℕ
pgdir_index vaddr = vaddr / 2 ^ 24 % 2 ^ 32

abbrev pub pgtbl_index : ℕ → ℕ
pgtbl_index vaddr = vaddr / 2 ^ 12 % 4096

abbrev pub page : ℕ → ℕ → ℕ
page d t = d * 4096 + t

abbrev pub blank : Pte
blank = record {
  valid = false;
  dirty = false;
  referenced = false;
  onswap = false;
  frame = 0;
  swap_off = none;
}

-- The loop of `allocate_frame`, `n` frames from `i` on.
unfoldable pub free_frame : ℕ → ℕ → (ℕ → Frame) → Option ℕ
free_frame zero i coremap = none
free_frame (suc n) i coremap =
    let rest = free_frame n (i + 1) coremap in if (coremap i).in_use then rest else some i

-- The offset at which a page goes to the swap file, as the bits of an `int`.
unfoldable pub swap_place : Option ℕ → Bitmap → Result (ℕ × Bitmap)
swap_place (some offset) swapmap = returned (offset, swapmap)
swap_place none swapmap = elim (bitmap_alloc swapmap) [
  | failed ↦ failed
  | aborted ↦ aborted
  | returned r ↦ returned (r.0 * simpagesize % 2 ^ 32, r.1)
]

-- `lseek` refuses a negative offset.
abbrev pub seekable : ℕ → Bool
seekable offset = ltb offset (2 ^ 31)

module _ (alg : Policy) (disk : Disk) where
  -- The result is INVALID_SWAP, `none`, or the offset.
  unfoldable pub swap_pageout :
      ℕ → Option ℕ → Machine alg.State → Option (Option ℕ × Machine alg.State)
  swap_pageout frame swap_offset m = elim (swap_place swap_offset m.swapmap) [
    | failed ↦ some (none, m)
    | aborted ↦ none
    | returned r ↦
        if seekable r.0 && disk.writable r.0
        then some (
          some r.0,
          record m { swapmap = r.1; swapfile = update m.swapfile r.0 (m.physmem frame) },
        )
        else some (none, record m { swapmap = r.1 })
  ]

  -- Whether the result is 0.
  unfoldable pub swap_pagein : ℕ → Option ℕ → Machine alg.State → Option (Bool × Machine alg.State)
  swap_pagein frame none m = none
  swap_pagein frame (some offset) m =
      if seekable offset && disk.readable offset
      then some (true, record m { physmem = update m.physmem frame (m.swapfile offset) })
      else some (false, m)

  -- What `allocate_frame` notes of the victim before it is written to swap.
  unfoldable pub count_victim : ℕ → Machine alg.State → Machine alg.State
  count_victim key m =
      if (m.pgtbl key).dirty
      then record m {
        pgtbl = update m.pgtbl key (record (m.pgtbl key) { onswap = true });
        evict_dirty_count = m.evict_dirty_count + 1;
      }
      else record m { evict_clean_count = m.evict_clean_count + 1 }

  -- The page of the frame that `evict_fcn` has chosen goes to swap.
  unfoldable pub page_out : ℕ → Machine alg.State → Option (Machine alg.State)
  page_out frame m0 =
      let key = (m0.coremap frame).pte in
      let m = count_victim key m0 in
      elim (swap_pageout frame (m.pgtbl key).swap_off m) [
        | none ↦ none
        | some r ↦ elim r.0 [
          | none ↦ none
          | some offset ↦
              let m' = r.1 in
              some (record m' {
                pgtbl = update m'.pgtbl key (record (m'.pgtbl key) {
                  swap_off = some offset;
                  valid = false;
                  dirty = false;
                });
              })
        ]
      ]

  unfoldable pub evict_frame : ℕ → Machine alg.State → Option (ℕ × Machine alg.State)
  evict_frame random m = elim (alg.evict m.memsize random m.alg) [
    | none ↦ none
    | some r ↦ elim (page_out r.0 (record m { alg = r.1 })) [
      | none ↦ none
      | some m' ↦ some (r.0, m')
    ]
  ]

  -- A free frame if there is one.
  unfoldable pub choose_frame : ℕ → Machine alg.State → Option (ℕ × Machine alg.State)
  choose_frame random m = elim (free_frame m.memsize 0 m.coremap) [
    | some frame ↦ some (frame, m)
    | none ↦ evict_frame random m
  ]

  abbrev pub claim : ℕ → ℕ → Machine alg.State → Machine alg.State
  claim frame key m = record m {
    coremap = update m.coremap frame (record { in_use = true; pte = key });
  }

  unfoldable pub allocate_frame : ℕ → ℕ → Machine alg.State → Option (ℕ × Machine alg.State)
  allocate_frame random key m = elim (choose_frame random m) [
    | none ↦ none
    | some r ↦ some (r.0, claim r.0 key r.1)
  ]

  unfoldable pub init_pagetable : Machine alg.State → Machine alg.State
  init_pagetable m = record m { pgdir = λ i. false }

  -- The new table is blank, and its entry of the directory valid.
  unfoldable pub init_second_level : ℕ → Machine alg.State → Machine alg.State
  init_second_level d m = record m {
    pgdir = update m.pgdir d true;
    pgtbl = λ key. if key / 4096 == d then blank else m.pgtbl key;
  }

  unfoldable pub init_frame : ℕ → ℕ → Machine alg.State → Machine alg.State
  init_frame frame vaddr m = record m {
    physmem = update m.physmem frame (record { version = 0; vaddr = vaddr });
  }

  abbrev pub put_pte : ℕ → Pte → Machine alg.State → Machine alg.State
  put_pte key p m = record m { pgtbl = update m.pgtbl key p }

  -- A page that is not in memory gets a frame: from swap, or a new one.
  unfoldable pub from_swap : ℕ → ℕ → Machine alg.State → Option (Machine alg.State)
  from_swap random key m = elim (allocate_frame random key m) [
    | none ↦ none
    | some r ↦ elim (swap_pagein r.0 (r.1.pgtbl key).swap_off r.1) [
      | none ↦ none
      | some q ↦
          if q.0
          then some (
              put_pte key
                (record blank {
                  frame = r.0 % 2 ^ 20;
                  onswap = true;
                  swap_off = (q.1.pgtbl key).swap_off;
                })
                q.1)
          else none
    ]
  ]

  unfoldable pub first_touch : ℕ → ℕ → ℕ → Machine alg.State → Option (Machine alg.State)
  first_touch random key vaddr m = elim (allocate_frame random key m) [
    | none ↦ none
    | some r ↦
        let m' = init_frame r.0 vaddr r.1 in
        some (
          put_pte key
            (record blank {
              frame = r.0 % 2 ^ 20;
              dirty = true;
              onswap = true;
              swap_off = (m'.pgtbl key).swap_off;
            })
            m')
  ]
