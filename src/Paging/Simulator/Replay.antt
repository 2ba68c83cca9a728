-- ===== src/Paging/Simulator/Replay.antt =====
-- A whole trace, and the whole simulation.
use csc369_operating_systems.Base.{
  update_self, subst, update_ne, sym, ap, ℕ_discrete, ◌∙◌, fun_ext, ℕ, ◌+◌, ◌*◌, ◌^◌, ◌≤◌, ◌<◌, ◌≡◌,
  refl, arith, Bool, true, false, ◌&&◌, Option, none, some, List, [], ◌∷◌, ◌==◌, update, length,
}
use csc369_operating_systems.Paging.Policy.{Policy}
use csc369_operating_systems.Paging.Bitmap.{returned, Bitmap, bitmap_create}
use csc369_operating_systems.Paging.Bitmap.Laws.{IsValid, used}
use csc369_operating_systems.Paging.Bitmap.Create.{bitmap_create_lem}
use csc369_operating_systems.Paging.PageTable.{init_pagetable, Disk, Page, Machine}
use csc369_operating_systems.Paging.PageTable.Invariant.{content}
use csc369_operating_systems.Paging.PageTable.PageOut.{IsWorking}
use csc369_operating_systems.Paging.Simulator.{
  Line, skipped, reference, access_mem, replay_trace, boot, simulate,
}
use csc369_operating_systems.Paging.Simulator.Access.{IsRunning, page_number, found_page, written}
use csc369_operating_systems.Paging.Simulator.Refine.{Accessed, access_mem_lem}

-- The trace as accesses to a memory in which no page ever leaves: whether every page had the expected
-- content, and the contents at the end.
abbrev pub expected : List Line → (ℕ → Option Page) → Bool × (ℕ → Option Page)
expected [] h = (true, h)
expected (skipped ∷ lines) h = expected lines h
expected (reference type vaddr ∷ lines) h =
    let x = found_page (h (page_number vaddr)) vaddr in
    let r = expected lines (update h (page_number vaddr) (some (written type x))) in
    ((x.vaddr == vaddr) && r.0, r.1)

-- Every address lies below 2^36.
abbrev pub IsUser : List Line → Type 0
IsUser [] = Unit {0}
IsUser (skipped ∷ lines) = IsUser lines
IsUser (reference type vaddr ∷ lines) = (vaddr < 2 ^ 36) × IsUser lines

-- The replay of a trace returns what the memory model says.
pub record Replayed (alg : Policy) (disk : Disk) (random : ℕ → ℕ) (n : ℕ) (lines : List Line)
    (m : Machine alg.State) : Type 0 where
  pub m' : Machine alg.State
  pub next' : ℕ
  pub result : replay_trace alg disk random n lines m ≡ some ((expected lines (content m)).0, m')
  pub running : IsRunning alg m' next'
  pub contents : content m' ≡ (expected lines (content m)).1

module _ (alg : Policy) (disk : Disk) (works : IsWorking disk) (random : ℕ → ℕ) where
  after_access :
      (type vaddr next : ℕ) (m m' : Machine alg.State)
      → Accessed alg m m' type vaddr next
      → content m'
        ≡ update
            (content m)
            (page_number vaddr)
            (some (written type (found_page (content m (page_number vaddr)) vaddr)))
  after_access type vaddr next m m' a = fun_ext (λ k. elim (ℕ_discrete (page_number vaddr) k) [
    | yes same ↦
        subst
          (λ (j : ℕ).
            content m' j
            ≡ update (content m) (page_number vaddr)
                (some (written type (found_page (content m (page_number vaddr)) vaddr))) j)
          same (a.written_page ∙ sym (update_self (content m) (page_number vaddr) _))
    | no other ↦ a.other_pages k other ∙ sym (update_ne (content m) (page_number vaddr) k _ other)
  ])

  replay_nil :
      (n : ℕ) (m : Machine alg.State) → replay_trace alg disk random n [] m ≡ some (true, m)
  unfolding replay_trace
  replay_nil n m = refl

  replay_skipped :
      (n : ℕ) (lines : List Line) (m : Machine alg.State)
      → replay_trace alg disk random n (skipped ∷ lines) m ≡ replay_trace alg disk random n lines m
  unfolding replay_trace
  replay_skipped n lines m = refl

  replay_step :
      (n type vaddr : ℕ) (lines : List Line) (ok : Bool) (m m1 : Machine alg.State)
      → access_mem alg disk (random n) type vaddr m ≡ some (ok, m1)
      → (r : Replayed alg disk random (n + 1) lines m1)
      → replay_trace alg disk random n (reference type vaddr ∷ lines) m
        ≡ some (ok && (expected lines (content m1)).0, r.m')
  unfolding replay_trace
  replay_step n type vaddr lines ok m m1 here r = ground (arith, r.result)

  -- With an algorithm that keeps the laws of `Policy`, a swap file that can be read and written, a
  -- swap map with an index free for each line of the trace, and addresses below 2^36, the replay
  -- returns: whether every page had the expected content, and the contents of all pages at the end,
  -- are those of a memory in which no page ever leaves, for any numbers from `random()`.
  pub replay_trace_lem :
      (lines : List Line) (n next : ℕ) (m : Machine alg.State)
      → IsRunning alg m next
      → next + length lines ≤ m.swapmap.nbits
      → IsUser lines
      → Replayed alg disk random n lines m
  replay_trace_lem [] n next m v room user = record {
    m' = m;
    next' = next;
    result = replay_nil n m;
    running = v;
    contents = refl;
  }
  replay_trace_lem (skipped ∷ lines) n next m v room user =
      let r = replay_trace_lem lines n next m v (omega arith) user in
      record {
        m' = r.m';
        next' = r.next';
        result = replay_skipped n lines m ∙ r.result;
        running = r.running;
        contents = r.contents;
      }
  replay_trace_lem (reference type vaddr ∷ lines) n next m v room (low, user) =
      let (m1, here, a) =
        access_mem_lem alg disk works (random n) type vaddr next m v (omega arith) low in
      let r =
        replay_trace_lem lines (n + 1) a.next' m1 a.running (omega (arith, a.grows, a.nbits))
          user in
      let same = after_access type vaddr next m m1 a in
      record {
        m' = r.m';
        next' = r.next';
        result =
            replay_step n type vaddr lines _ m m1 here r
            ∙ ap
                (λ (h : ℕ → Option Page). some (
                  ((found_page (content m (page_number vaddr)) vaddr).vaddr == vaddr)
                      && (expected lines h).0,
                  r.m',
                ))
                same;
        running = r.running;
        contents = r.contents ∙ ap (λ (h : ℕ → Option Page). (expected lines h).1) same;
      }

module _ (alg : Policy) (disk : Disk) (works : IsWorking disk) (random : ℕ → ℕ)
    (memsize swapsize : ℕ) (lines : List Line) (positive : 0 < memsize) (small : memsize ≤ 2 ^ 20)
    (fits : swapsize * 16 ≤ 2 ^ 31) (room : length lines ≤ swapsize) (user : IsUser lines) where
  pub boot-IsRunning :
      (b : Bitmap)
      → b.nbits ≡ swapsize
      → IsValid b
      → ((i : ℕ) → i < swapsize → used b i ≡ false)
      → IsRunning alg (boot alg disk memsize b) 0
  unfolding boot init_pagetable
  boot-IsRunning b size valid empty = record {
    sound = record {
      small = small;
      place = record {
        valid_map = valid;
        bound = omega arith;
        full = omega arith;
        prefix = λ i h. ground (arith, empty i (omega arith));
        placed = λ k o at. cc;
        apart = λ k j o at at'. cc;
      };
      resident = λ k present. cc;
      occupied = λ g lt n busy. cc;
      stored = λ k absent on. cc;
      unborn = λ k gone. refl;
    };
    tracks = alg.init_tracks memsize positive;
    positive = positive;
    counted = refl;
  }

  simulate_eq :
      (b : Bitmap)
      → bitmap_create true swapsize ≡ returned b
      → simulate alg disk random memsize swapsize lines
        ≡ replay_trace alg disk random 0 lines (boot alg disk memsize b)
  unfolding simulate
  simulate_eq b made = rw (simulate, made) refl

  content-boot : (b : Bitmap) → content (boot alg disk memsize b) ≡ (λ k. none)
  unfolding boot init_pagetable
  content-boot b = refl

  boot_nbits : (b : Bitmap) → (boot alg disk memsize b).swapmap.nbits ≡ b.nbits
  unfolding boot init_pagetable
  boot_nbits b = refl

  -- The simulation with an algorithm that keeps the laws of `Policy`, from 1 to 2^20 frames, a swap
  -- file that can be read and written, of at most 2^27 pages and of no fewer than the trace has lines,
  -- and addresses below 2^36: it returns, whatever `random()` gives. Whether every page had the
  -- expected content, and the contents of all pages at the end, are those of a memory in which no page
  -- ever leaves, empty at first; and every reference has been counted as a hit or a miss.
  pub simulate_lem :
      (m' : Machine alg.State) × (simulate alg disk random memsize swapsize lines
        ≡ some ((expected lines (λ k. none)).0, m'))
      × (content m' ≡ (expected lines (λ k. none)).1)
      × (m'.ref_count ≡ m'.hit_count + m'.miss_count)
  simulate_lem =
      let (b, made, size, valid, empty) = bitmap_create_lem swapsize (omega arith) in
      let r =
        replay_trace_lem alg disk works random lines 0 0 (boot alg disk memsize b)
          (boot-IsRunning b size valid empty) (omega (arith, boot_nbits b, size)) user in
      let start = content-boot b in
      (
        r.m',
        simulate_eq b made
            ∙ r.result
            ∙ ap (λ (h : ℕ → Option Page). some ((expected lines h).0, r.m')) start,
        r.contents ∙ ap (λ (h : ℕ → Option Page). (expected lines h).1) start,
        r.running.counted,
      )
