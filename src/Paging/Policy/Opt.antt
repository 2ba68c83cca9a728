-- ===== src/Paging/Policy/Opt.antt =====
-- Assignment3/opt.c. The fields that it adds to a frame of the coremap are the bits of an `int`; the
-- words `frame` of the entries that the coremap points to are an argument.
use csc369_operating_systems.Base.{
  ap, ◌∙◌, ℕ, zero, suc, ◌+◌, ◌-◌, ◌/◌, ◌%◌, ◌^◌, ◌<◌, ◌≡◌, refl, arith, Bool, true, false, ◌&&◌,
  Option, none, some, if◌then◌else◌, ltb, ◌==◌, update,
}

pub record Slot : Type 0 where
  pub placeholder : ℕ
  pub ceiling : ℕ

abbrev minus_one : ℕ → ℕ
minus_one i = (i + (2 ^ 32 - 1)) % 2 ^ 32

-- Whether an `int` is above 1.
abbrev above_one : ℕ → Bool
above_one i = ltb 1 i && ltb i (2 ^ 31)

-- The local variables of `opt_evict`. `victim` is `none` while `page_to_be_evicted` has no value.
pub record Search : Type 0 where
  pub slots : ℕ → Slot
  pub victim : Option ℕ
  pub outdated : ℕ
  pub switch_class : Bool

-- The frame `x` is of the class that is looked for. `current` is -1 throughout, so that the first
-- branch is taken.
abbrev pub choose : ℕ → Search → Search
choose x s = record {
  slots = update s.slots x (record (s.slots x) { placeholder = 0 });
  victim = some x;
  outdated = (s.slots x).placeholder;
  switch_class = true;
}

abbrev pub look : (ℕ → ℕ) → ℕ → ℕ → Search → Search
look word class x s = if word x / 2 ^ 30 == class then choose x s else s

abbrev pub age : ℕ → Search → Search
age x s = record s {
  slots = update s.slots x (record {
    placeholder =
        if above_one (s.slots x).placeholder
        then minus_one (s.slots x).placeholder
        else (s.slots x).placeholder;
    ceiling = minus_one (s.slots x).ceiling;
  });
}

-- The first loop, and the loop of one class, `n` frames from `x` on.
unfoldable pub first_scan : (ℕ → ℕ) → ℕ → ℕ → Search → Search
first_scan word zero x s = s
first_scan word (suc n) x s = first_scan word n (x + 1) (age x (look word 0 x s))

unfoldable pub scan : (ℕ → ℕ) → ℕ → ℕ → ℕ → Search → Search
scan word class zero x s = s
scan word class (suc n) x s = scan word class n (x + 1) (look word class x s)

-- The `for` loop over the classes.
unfoldable pub rounds : (ℕ → ℕ) → ℕ → ℕ → ℕ → Search → Search
unfolding scan
rounds word memsize zero class s = s
rounds word memsize (suc n) class s =
    let next = rounds word memsize n (if class == 2 then 1 else 3) (scan word class memsize 0 s) in
    let same = rounds word memsize n class s in if s.switch_class then same else next

abbrev begin : (ℕ → Slot) → Search
begin slots = record { slots = slots; victim = none; outdated = 0; switch_class = false }

unfoldable pub opt_evict : (ℕ → ℕ) → ℕ → (ℕ → Slot) → Option ℕ × (ℕ → Slot)
unfolding first_scan rounds
opt_evict word memsize slots =
    let s = rounds word memsize 3 2 (first_scan word memsize 0 (begin slots)) in (s.victim, s.slots)

-- The loop of `opt_ref`; `pte` says which frames hold the entry `p`.
unfoldable pub ref_from : (ℕ → Bool) → ℕ → ℕ → (ℕ → Slot) → ℕ → Slot
ref_from pte zero i slots = slots
ref_from pte (suc n) i slots = ref_from pte n (i + 1) (
    update slots i (record {
      placeholder =
          if pte i && ((slots i).placeholder == 0)
          then (slots i).ceiling
          else (slots i).placeholder;
      ceiling = ((slots i).ceiling + 1) % 2 ^ 32;
    }))

unfoldable pub opt_ref : ℕ → (ℕ → Bool) → ℕ → (ℕ → Slot) → ℕ → Slot
unfolding ref_from
opt_ref word pte memsize slots =
    if word / 2 ^ 29 % 2 == 1 then ref_from pte memsize 0 slots else slots

unfoldable pub opt_init : ℕ → (ℕ → Slot) → ℕ → Slot
opt_init zero slots = slots
opt_init (suc n) slots = update (opt_init n slots) n (record { placeholder = 0; ceiling = 1 })

first_scan_lem :
    (word : ℕ → ℕ) (n x : ℕ) (s : Search)
    → ((i : ℕ) → i < x + suc n → word i < 2 ^ 30)
    → ((first_scan word (suc n) x s).victim ≡ some (x + n))
      × ((first_scan word (suc n) x s).switch_class ≡ true)
unfolding first_scan
first_scan_lem word zero x s small =
    let zero_class : word x / 2 ^ 30 ≡ 0 = omega (arith, small x (omega arith)) in
    (ground arith, ground arith)
first_scan_lem word (suc n) x s small =
    let (v, c) =
      first_scan_lem word n (x + 1) (age x (look word 0 x s)) (λ i h. small i (omega arith)) in
    (ground (arith, v), c)

rounds_lem :
    (word : ℕ → ℕ) (memsize n class : ℕ) (s : Search)
    → s.switch_class ≡ true
    → rounds word memsize n class s ≡ s
unfolding rounds
rounds_lem word memsize zero class s done_one = refl
rounds_lem word memsize (suc n) class s done_one =
    ground (arith, rounds_lem word memsize n class s done_one)

zero_add : (n : ℕ) → 0 + n ≡ n
zero_add n = omega arith

-- If the words of all entries lie below 2^30, as they do with at most 2^18 frames, `opt_evict` chooses
-- the last frame, whatever has been referenced and whatever the trace holds.
pub opt_evict_last :
    (word : ℕ → ℕ) (n : ℕ) (slots : ℕ → Slot)
    → ((i : ℕ) → i < suc n → word i < 2 ^ 30)
    → (opt_evict word (suc n) slots).0 ≡ some n
unfolding opt_evict
opt_evict_last word n slots small =
    let (v, c) = first_scan_lem word n 0 (begin slots) (λ i h. small i (omega arith)) in
    ap (λ (r : Search). r.victim)
      (rounds_lem word (suc n) 3 2 (first_scan word (suc n) 0 (begin slots)) c)
    ∙ v
    ∙ ap some (zero_add n)
