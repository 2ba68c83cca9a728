-- ===== src/Paging/Simulator/Aligned.antt =====
-- A trace of page addresses: every page has the expected content.
use csc369_operating_systems.Base.{
  ap, ℕ_discrete, sym, ◌∙◌, Option-cases, ℕ, ◌*◌, ◌%◌, ◌^◌, ◌≤◌, ◌<◌, ◌≡◌, refl, arith, Bool, true,
  Option, none, some, List, [], ◌∷◌, update, inl, inr, length,
}
use csc369_operating_systems.Paging.Policy.{Policy}
use csc369_operating_systems.Paging.PageTable.{Disk, Page, Machine}
use csc369_operating_systems.Paging.PageTable.PageOut.{IsWorking}
use csc369_operating_systems.Paging.Simulator.{Line, skipped, reference, simulate}
use csc369_operating_systems.Paging.Simulator.Access.{page_number, found_page, written}
use csc369_operating_systems.Paging.Simulator.Replay.{expected, IsUser, simulate_lem}

-- Every address is the first of its page.
abbrev pub IsAligned : List Line → Type 0
IsAligned [] = Unit {0}
IsAligned (skipped ∷ lines) = IsAligned lines
IsAligned (reference type vaddr ∷ lines) = (vaddr % 4096 ≡ 0) × IsAligned lines

-- Each page holds its own address.
abbrev IsLabelled : (ℕ → Option Page) → Type 0
IsLabelled h = (k : ℕ) (x : Page) → h k ≡ some x → x.vaddr ≡ k * 4096

page_number_aligned :
    (vaddr : ℕ) → vaddr < 2 ^ 36 → vaddr % 4096 ≡ 0 → page_number vaddr * 4096 ≡ vaddr
page_number_aligned vaddr user at = omega arith

found_vaddr :
    (h : ℕ → Option Page) (vaddr : ℕ)
    → IsLabelled h
    → vaddr < 2 ^ 36
    → vaddr % 4096 ≡ 0
    → (found_page (h (page_number vaddr)) vaddr).vaddr ≡ vaddr
found_vaddr h vaddr v user at = elim (Option-cases (h (page_number vaddr))) [
  | inl new ↦ ground arith
  | inr (x, old) ↦ rw old (v (page_number vaddr) x old ∙ page_number_aligned vaddr user at)
]

written_vaddr : (type : ℕ) (x : Page) → (written type x).vaddr ≡ x.vaddr
written_vaddr type x = ground arith

update-IsLabelled :
    (h : ℕ → Option Page) (key : ℕ) (x : Page)
    → IsLabelled h
    → x.vaddr ≡ key * 4096
    → IsLabelled (update h key (some x))
update-IsLabelled h key x v label k y at = elim (ℕ_discrete key k) [
  | yes same ↦
      let e : x ≡ y = ground arith in
      ap (λ (q : Page). q.vaddr) (sym e) ∙ label ∙ ap (λ (i : ℕ). i * 4096) same
  | no other ↦ v k y (ground arith)
]

expected_aligned :
    (lines : List Line) (h : ℕ → Option Page)
    → IsLabelled h
    → IsUser lines
    → IsAligned lines
    → (expected lines h).0 ≡ true
expected_aligned [] h v user at = refl
expected_aligned (skipped ∷ lines) h v user at = expected_aligned lines h v user at
expected_aligned (reference type vaddr ∷ lines) h v (low, user) (first, at) =
    let x = found_page (h (page_number vaddr)) vaddr in
    let e = found_vaddr h vaddr v low first in
    let rest =
      expected_aligned lines (update h (page_number vaddr) (some (written type x)))
        (update-IsLabelled h (page_number vaddr) (written type x) v
          (written_vaddr type x ∙ e ∙ sym (page_number_aligned vaddr low first)))
        user at in
    ground arith

-- The simulation with an algorithm that keeps the laws of `Policy`, from 1 to 2^20 frames, a swap file
-- that can be read and written, of at most 2^27 pages and of no fewer than the trace has lines, and
-- addresses below 2^36 that are each the first of its page: it returns and reports no page with an
-- unexpected content.
pub simulate-IsAligned :
    (alg : Policy) (disk : Disk) (works : IsWorking disk) (random : ℕ → ℕ) (memsize swapsize : ℕ)
    (lines : List Line)
    → 0 < memsize
    → memsize ≤ 2 ^ 20
    → swapsize * 16 ≤ 2 ^ 31
    → length lines ≤ swapsize
    → IsUser lines
    → IsAligned lines
    → (m : Machine alg.State) × (simulate alg disk random memsize swapsize lines ≡ some (true, m))
simulate-IsAligned alg disk works random memsize swapsize lines positive small fits room user at =
    let (m, result, contents, counted) =
      simulate_lem alg disk works random memsize swapsize lines positive small fits room user in
    let ok = expected_aligned lines (λ k. none) (λ k x e. cc) user at in
    (m, result ∙ ap (λ (b : Bool). some (b, m)) ok)
