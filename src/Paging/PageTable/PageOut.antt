-- ===== src/Paging/PageTable/PageOut.antt =====
-- `allocate_frame`: a page that goes to swap keeps its content.
use csc369_operating_systems.Base.{
  Bool-cases, fun_ext, ℕ, ◌+◌, ◌^◌, ◌<◌, ◌≡◌, arith, true, false, some, update, inl, inr,
}
use csc369_operating_systems.Paging.Bitmap.{Bitmap}
use csc369_operating_systems.Paging.Policy.{Policy}
use csc369_operating_systems.Paging.PageTable.{
  Disk, Pte, Machine, count_victim, swap_pageout, page_out,
}
use csc369_operating_systems.Paging.PageTable.Invariant.{Placement}

-- The whole swap file can be read and written, below the offset 2^31.
abbrev pub IsWorking : Disk → Type 0
IsWorking disk = (o : ℕ) → o < 2 ^ 31 → (disk.readable o ≡ true) × (disk.writable o ≡ true)

pub update_same {ℓ} : {A : Type ℓ} (h : ℕ → A) (i : ℕ) (a : A) → h i ≡ a → update h i a ≡ h
update_same h i a e = fun_ext (λ j. ground arith)

already_on : (p : Pte) → p.onswap ≡ true → p ≡ record p { onswap = true }
already_on p on = ground arith

module _ (alg : Policy) (disk : Disk) (works : IsWorking disk) where
  -- A victim has been on swap since it was first touched: only the counters change.
  count_victim_lem :
      (key : ℕ) (m : Machine alg.State)
      → (m.pgtbl key).onswap ≡ true
      → (c d : ℕ) × (count_victim alg disk key m
          ≡ record m { evict_clean_count = c; evict_dirty_count = d })
  unfolding count_victim
  count_victim_lem key m on = elim (Bool-cases (m.pgtbl key).dirty) [
    | inl dirty ↦ (
      m.evict_clean_count,
      m.evict_dirty_count + 1,
      ground (
        arith,
        update_same m.pgtbl key (record (m.pgtbl key) { onswap = true })
            (already_on (m.pgtbl key) on),
      ),
    )
    | inr clean ↦ (m.evict_clean_count + 1, m.evict_dirty_count, ground arith)
  ]

  -- The machine after the victim has gone to the offset `o`.
  abbrev pub paged_out : ℕ → ℕ → ℕ → Bitmap → ℕ → ℕ → Machine alg.State → Machine alg.State
  paged_out frame key o map c d m = record m {
    swapmap = map;
    swapfile = update m.swapfile o (m.physmem frame);
    pgtbl =
        update m.pgtbl key
          (record (m.pgtbl key) { swap_off = some o; valid = false; dirty = false });
    evict_clean_count = c;
    evict_dirty_count = d;
  }

  pub page_out_lem :
      (frame next : ℕ) (m : Machine alg.State)
      → (pl : Placement (m.pgtbl (m.coremap frame).pte).swap_off m.swapmap next)
      → pl.offset < 2 ^ 31
      → (m.pgtbl (m.coremap frame).pte).onswap ≡ true
      → (c d : ℕ) × (page_out alg disk frame m
          ≡ some (paged_out frame (m.coremap frame).pte pl.offset pl.map c d m))
  unfolding page_out swap_pageout
  page_out_lem frame next m pl low on =
      let (c, d, counted) = count_victim_lem (m.coremap frame).pte m on in
      (c, d, ground (arith, pl.result, works pl.offset low, counted))
