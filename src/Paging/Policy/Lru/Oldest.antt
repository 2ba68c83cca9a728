-- ===== src/Paging/Policy/Lru/Oldest.antt =====
-- Assignment3/lru.c: the frame that is evicted, against a record of the times of all references.
use csc369_operating_systems.Base.{
  ℕ_discrete, ℕ, ◌+◌, ◌≤◌, ◌<◌, ◌≡◌, ◌≢◌, refl, sym, ap, subst, arith, Bool, true, false, some,
  List, [], ◌∷◌, ◌++◌, if◌then◌else◌, ◌==◌, update, inl, inr,
}
use csc369_operating_systems.Paging.Policy.Lru.{Lru, lru_evict, lru_ref, lru_init}
use csc369_operating_systems.Paging.Policy.Lru.Queue.{
  IsQueue, count, evict_lem, init_lem, head_low, List-cases,
}
use csc369_operating_systems.Paging.Policy.Lru.Recency.{remove, lru_ref-remove}

-- The number of references so far, the number of the last one to each frame, and the frames in use.
pub record History : Type 0 where
  pub now : ℕ
  pub last : ℕ → ℕ
  pub used : ℕ → Bool

abbrev pub no_history : History
no_history = record { now = 0; last = λ f. 0; used = λ f. false }

abbrev pub with_ref : ℕ → History → History
with_ref frame h = record {
  now = h.now + 1;
  last = update h.last frame (h.now + 1);
  used = update h.used frame true;
}

abbrev pub with_evict : ℕ → History → History
with_evict frame h = record h { used = update h.used frame false }

-- The calls of `lru_ref` and `lru_evict` since `lru_init`, in any order.
pub data Calls (memsize : ℕ) : History → Lru → Type 0 where
  initial : Calls memsize no_history (lru_init memsize)
  refs :
      {h : History} {s s' : Lru} {frame : ℕ}
      → Calls memsize h s
      → frame < memsize
      → lru_ref frame s ≡ some s'
      → Calls memsize (with_ref frame h) s'
  evicts :
      {h : History} {s s' : Lru} {frame : ℕ}
      → Calls memsize h s
      → lru_evict s ≡ some (frame, s')
      → Calls memsize (with_evict frame h) s'

-- The last references to the frames of a queue, from the head on, are later and later.
abbrev IsByAge : (ℕ → ℕ) → List ℕ → Type 0
IsByAge last [] = Unit {0}
IsByAge last (x ∷ q) = ((y : ℕ) → 0 < count y q → last x < last y) × IsByAge last q

record IsAged (memsize : ℕ) (h : History) (s : Lru) : Type 0 where
  tracked : IsQueue memsize h.used s
  by_age : IsByAge h.last s.queue
  not_later : (f : ℕ) → h.last f ≤ h.now

count_moved :
    (frame y : ℕ) (q : List ℕ)
    → count y (remove frame q ++ (frame ∷ [])) ≡ (if frame == y then 1 else count y q)
count_moved frame y [] = refl
count_moved frame y (x ∷ q) = ground (arith, count_moved frame y q)

-- A frame that is moved to the tail at a new time.
moved-IsByAge :
    (frame now : ℕ) (last : ℕ → ℕ) (q : List ℕ)
    → ((f : ℕ) → last f ≤ now)
    → IsByAge last q
    → IsByAge (update last frame (now + 1)) (remove frame q ++ (frame ∷ []))
moved-IsByAge frame now last [] before aged = ((λ y h. absurd (omega arith)), tt)
moved-IsByAge frame now last (x ∷ q) before (first, aged) =
    let later = moved-IsByAge frame now last q before aged in
    elim (ℕ_discrete x frame) [
      | yes same ↦ let here : (x == frame) ≡ true = ground arith in rw here later
      | no other ↦
          let apart : (x == frame) ≡ false = ground arith in
          rw apart ((λ y h. ground (arith, count_moved frame y q, before x, first y)), later)
    ]

ref-IsAged :
    (memsize frame : ℕ) (h : History) (s s' : Lru)
    → IsAged memsize h s
    → frame < memsize
    → lru_ref frame s ≡ some s'
    → IsAged memsize (with_ref frame h) s'
ref-IsAged memsize frame h s s' v low e =
    let (t, e', order, tracked) = lru_ref-remove memsize frame h.used s v.tracked low in
    let same : t ≡ s' = ground (arith, e, e') in
    subst (IsAged memsize (with_ref frame h)) same (record {
      tracked = tracked;
      by_age =
          subst (IsByAge (update h.last frame (h.now + 1))) (sym order)
            (moved-IsByAge frame h.now h.last s.queue v.not_later v.by_age);
      not_later = λ f. ground (arith, v.not_later f);
    })

evict-IsAged :
    (memsize frame : ℕ) (h : History) (s s' : Lru)
    → IsAged memsize h s
    → lru_evict s ≡ some (frame, s')
    → IsAged memsize (with_evict frame h) s'
unfolding lru_evict
evict-IsAged memsize frame h s s' v e = elim (List-cases s.queue) [
  | inl empty ↦ ground (arith, e, empty)
  | inr (x, more, at) ↦
      let low = head_low memsize h.used s v.tracked x more at in
      let counted = ap (count x) at in
      let (f, rest, t, e', f_low, held, head, tail, tracked) =
        evict_lem memsize h.used s v.tracked x low (ground (arith, v.tracked.once x low)) in
      let same : (f ≡ frame) × (t ≡ s') = ground (arith, e, e') in
      let aged = subst (IsByAge h.last) head v.by_age in
      rw (sym same.0, sym same.1)
        (record {
          tracked = tracked;
          by_age = subst (IsByAge h.last) (sym tail) aged.1;
          not_later = v.not_later;
        })
]

Calls-IsAged : (memsize : ℕ) {h : History} {s : Lru} → Calls memsize h s → IsAged memsize h s
unfolding lru_init
Calls-IsAged memsize initial = record {
  tracked = init_lem memsize;
  by_age = tt;
  not_later = λ f. omega arith;
}
Calls-IsAged memsize (refs {h} {s} {s'} {frame} calls low e) =
    ref-IsAged memsize frame h s s' (Calls-IsAged memsize calls) low e
Calls-IsAged memsize (evicts {h} {s} {s'} {frame} calls e) =
    evict-IsAged memsize frame h s s' (Calls-IsAged memsize calls) e

-- After any calls of `lru_ref`, for frames below `memsize`, and of `lru_evict` since `lru_init`: a
-- reference to a frame below `memsize` fails no assertion; and if one of these frames is in use,
-- `lru_evict` returns a frame in use whose last reference is earlier than that of every other frame in
-- use.
pub lru_evict_oldest :
    (memsize : ℕ) (h : History) (s : Lru)
    → Calls memsize h s
    → ((frame : ℕ) → frame < memsize → (s' : Lru) × (lru_ref frame s ≡ some s'))
      × ((g : ℕ)
          → g < memsize
          → h.used g ≡ true
          → (frame : ℕ) × (s' : Lru) × (lru_evict s ≡ some (frame, s'))
            × (h.used frame ≡ true)
            × ((j : ℕ) → j < memsize → h.used j ≡ true → j ≢ frame → h.last frame < h.last j))
lru_evict_oldest memsize h s calls =
    let v = Calls-IsAged memsize calls in
    (
      (λ frame low.
          let (s', e, order, t) = lru_ref-remove memsize frame h.used s v.tracked low in (s', e)),
      (λ g g_low busy.
          let (frame, rest, s', e, low, held, at, same, t) =
            evict_lem memsize h.used s v.tracked g g_low busy in
          let (first, others) = subst (IsByAge h.last) at v.by_age in
          (
            frame,
            s',
            e,
            held,
            λ j j_low j_busy other.
                let counted = ap (count j) at in first j (ground (arith, v.tracked.once j j_low)),
          )),
    )
