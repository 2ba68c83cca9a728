-- ===== src/Interceptor/Metadata.antt =====
-- The invariant of an entry of the metadata table, and that the operations on the pid lists keep it.
use csc369_operating_systems.Interceptor.Effect.Calls.{my_syscall-Returns}
use csc369_operating_systems.Base.{
  sym, ap, subst, Option-cases, inr, inl, ◌⊎◌, ℕ, ◌+◌, ◌%◌, ◌^◌, ◌≤◌, ◌<◌, ◌≡◌, ◌≢◌, refl, false,
  List, [], ◌∷◌, some, ℤ, pos, arith, ℕ_discrete, length, Bool-cases, ◌==ℤ◌, ==ℤ_iff,
}
use csc369_operating_systems.Interceptor.Kernel.{MyTable, Kernel, done, Env}
use csc369_operating_systems.Interceptor.PidList.{has_pid, unlink, add_pid, del_entry, clear_list}
use csc369_operating_systems.Interceptor.Syscall.{my_syscall}
use csc369_operating_systems.Interceptor.Effect.{
  IsReady, IsQuiet, Effect, refused, intercepted, released, relisted, Relisted, watch_all, watch,
  unwatch_all, mute, unwatch,
}

-- No pid stands in the list twice.
abbrev pub Distinct : List ℤ → Type 0
Distinct [] = Unit {0}
Distinct (x ∷ l) = (has_pid x l ≡ false) × Distinct l

-- `l` is the list of an entry: as long as its count says, without repetition and without pid 0;
-- `monitored` is 0 only at an empty list, 1 only at one that is not, and at most 2.
pub record IsListed (l : List ℤ) (t : MyTable) : Type 0 where
  pub here : t.my_list ≡ some l
  pub counted : t.listcount ≡ length l % 2 ^ 32
  pub distinct : Distinct l
  pub real : has_pid (pos 0) l ≡ false
  pub mode : t.monitored ≤ 2
  pub none_watched : t.monitored ≡ 0 → l ≡ []
  pub some_watched : t.monitored ≡ 1 → l ≢ []

-- The first node of the list is unlinked, or it stays.
pub unlink-cons :
    (pid x : ℤ) (l r : List ℤ)
    → unlink pid (x ∷ l) ≡ some r
    → ((x ≡ pid) × (r ≡ l)) ⊎ ((rest : List ℤ) × (unlink pid l ≡ some rest) × (r ≡ x ∷ rest))
unfolding unlink
unlink-cons pid x l r h = elim (Bool-cases (x ==ℤ pid)) [
  | inl here ↦ inl ((==ℤ_iff x pid).0 here, ground arith)
  | inr later ↦ elim (Option-cases (unlink pid l)) [
    | inl missing ↦ ground arith
    | inr (rest, found) ↦ inr (rest, found, ground arith)
  ]
]

pub length-unlink : (pid : ℤ) (l r : List ℤ) → unlink pid l ≡ some r → length l ≡ length r + 1
unfolding unlink
length-unlink pid [] r h = cc
length-unlink pid (x ∷ l) r h = elim (unlink-cons pid x l r h) [
  | inl (same, e) ↦ rw e (omega arith)
  | inr (rest, found, e) ↦ rw e (omega (arith, length-unlink pid l rest found))
]

pub has_pid-unlink :
    (pid x : ℤ) (l r : List ℤ) → unlink pid l ≡ some r → has_pid x l ≡ false → has_pid x r ≡ false
unfolding unlink
has_pid-unlink pid x [] r h f = cc
has_pid-unlink pid x (y ∷ l) r h f = elim (unlink-cons pid y l r h) [
  | inl (same, e) ↦ rw e (ground arith)
  | inr (rest, found, e) ↦ rw e (ground (arith, has_pid-unlink pid x l rest found))
]

pub Distinct-unlink : (pid : ℤ) (l r : List ℤ) → unlink pid l ≡ some r → Distinct l → Distinct r
unfolding unlink
Distinct-unlink pid [] r h d = cc
Distinct-unlink pid (x ∷ l) r h d = elim (unlink-cons pid x l r h) [
  | inl (same, e) ↦ rw e d.1
  | inr (rest, found, e) ↦
      rw e (has_pid-unlink pid x l rest found d.0, Distinct-unlink pid l rest found d.1)
]

-- Where no pid stands twice, the pid is gone, and the others are as they were.
pub unlink_gone :
    (pid : ℤ) (l r : List ℤ) → unlink pid l ≡ some r → Distinct l → has_pid pid r ≡ false
unfolding unlink
unlink_gone pid [] r h d = cc
unlink_gone pid (x ∷ l) r h d = elim (Bool-cases (x ==ℤ pid)) [
  | inl hit ↦
      let same : x ≡ pid = (==ℤ_iff x pid).0 hit in
      let at : r ≡ l = ground arith in rw at (rw same at (d.0))
  | inr other ↦ elim (unlink-cons pid x l r h) [
    | inl (same, e) ↦ ground arith
    | inr (rest, found, e) ↦ rw (e, other) (unlink_gone pid l rest found d.1)
  ]
]

pub unlink_keeps :
    (pid other : ℤ) (l r : List ℤ)
    → unlink pid l ≡ some r
    → other ≢ pid
    → has_pid other r ≡ has_pid other l
unfolding unlink
unlink_keeps pid other [] r h n = cc
unlink_keeps pid other (x ∷ l) r h n = elim (unlink-cons pid x l r h) [
  | inl (same, e) ↦ ground (arith, ==ℤ_iff x other)
  | inr (rest, found, e) ↦ rw (e, unlink_keeps pid other l rest found n)
]

pub nil_of_length : {A : Type 0} (l : List A) → length l ≡ 0 → l ≡ []
nil_of_length [] h = refl
nil_of_length (x ∷ l) h = absurd (omega arith)

-- Taking one pid off a list keeps its entry sound, in every mode.
pub del_entry-IsListed :
    (pid : ℤ) {l r : List ℤ} {t : MyTable}
    → unlink pid l ≡ some r
    → IsListed l t
    → length l < 2 ^ 32
    → IsListed r (del_entry r t)
unfolding del_entry
del_entry-IsListed pid {l} {r} h v small =
    let len = length-unlink pid l r h in
    let empty : length r ≡ 0 → r ≡ [] = nil_of_length r in
    let full : r ≡ [] → length r ≡ 0 = λ z. rw z in
    let some_l : length l ≡ 0 → l ≡ [] = nil_of_length l in
    let none_l : l ≡ [] → length l ≡ 0 = λ z. rw z in
    record {
      here = ground arith;
      counted = ground arith;
      distinct = Distinct-unlink pid l r h v.distinct;
      real = has_pid-unlink pid (pos 0) l r h v.real;
      mode = ground arith;
      none_watched = ground arith;
      some_watched = ground arith;
    }

Relisted-IsListed :
    {pid : ℤ} {l : List ℤ} {t u : MyTable}
    → Relisted pid l t u
    → IsListed l t
    → length l < 2 ^ 32
    → (m : List ℤ) × IsListed m u
unfolding clear_list add_pid del_entry
Relisted-IsListed (watch_all m e) v small = ([], ground arith)
Relisted-IsListed (unwatch_all m e) v small = ([], ground arith)
Relisted-IsListed {pid} {l} (watch m h n e) v small = (
  pid ∷ l,
  record {
    here = ground arith;
    counted = ground arith;
    distinct = (h, v.distinct);
    real = ground (arith, ==ℤ_iff pid (pos 0));
    mode = ground arith;
    none_watched = ground arith;
    some_watched = ground arith;
  },
)
Relisted-IsListed {pid} {l} (mute m h n e) v small = (
  pid ∷ l,
  record {
    here = ground arith;
    counted = ground arith;
    distinct = (h, v.distinct);
    real = ground (arith, ==ℤ_iff pid (pos 0));
    mode = ground arith;
    none_watched = ground arith;
    some_watched = ground arith;
  },
)
Relisted-IsListed {pid} {l} {t} (unwatch r m h e) v small =
    (r, subst (IsListed r) (sym e) (del_entry-IsListed pid h v small))

-- An entry is sound if it has such a list.
abbrev pub IsSound : MyTable → Type 0
IsSound t = (l : List ℤ) × IsListed l t

-- The list holds fewer than 2^32 pids.
abbrev pub IsShort : MyTable → Type 0
IsShort t = (l : List ℤ) → t.my_list ≡ some l → length l < 2 ^ 32

IsSound-tables :
    {t u : MyTable}
    → u.my_list ≡ t.my_list
    → u.listcount ≡ t.listcount
    → u.monitored ≡ t.monitored
    → IsSound t
    → IsSound u
IsSound-tables a b c (l, v) = (l, ground arith)

pub IsListed-subst : {j l : List ℤ} {t u : MyTable} → j ≡ l → t ≡ u → IsListed j t → IsListed l u
IsListed-subst {j} {u} p q v = subst (λ x. IsListed x u) p (subst (λ y. IsListed j y) q v)

Effect-IsSound :
    {s : ℕ} {pid : ℤ} {k : Kernel} {r : ℤ} {k' : Kernel} (i : ℕ)
    → Effect s pid k r k'
    → IsSound (k.table i)
    → IsShort (k.table i)
    → IsSound (k'.table i)
Effect-IsSound i (refused p e) v short = rw e v
Effect-IsSound {s} i (intercepted p g e) v short =
    IsSound-tables (ground arith) (ground arith) (ground arith) v
Effect-IsSound {s} i (released p g e) v short =
    IsSound-tables (ground arith) (ground arith) (ground arith) v
Effect-IsSound {s} {k} {k'} i (relisted l t p g m c e) (j, v) short = elim (ℕ_discrete s i) [
  | yes same ↦
      let at : k.table i ≡ k.table s = ap k.table (sym same) in
      let eq : j ≡ l = ground (arith, v.here) in
      let (n, w) = Relisted-IsListed c (IsListed-subst eq at v) (short l (ground arith)) in
      let new : t ≡ k'.table i = ground arith in (n, IsListed-subst refl new w)
  | no other ↦ IsSound-tables (ground arith) (ground arith) (ground arith) (j, v)
]

module _ (nr_syscalls : ℕ) (e : Env) (cmd syscall pid : ℤ) (k : Kernel) (q : IsQuiet k) (u : ℕ)
    (live : e.pid_task e.current_pid ≡ some u) (ready : IsReady nr_syscalls k)
    (inside : syscall ≢ pos nr_syscalls) where
  -- From a state in which no lock is held and the lists below `nr_syscalls` are initialised, a call by
  -- a live process with a system call other than `nr_syscalls` that returns keeps each entry of the
  -- metadata table sound, if the entry's list is shorter than 2^32: the count stays the length of the list, no pid stands
  -- twice, pid 0 never stands, `monitored` is at most 2, and it is 0 only at an empty list and 1
  -- only at one that is not empty.
  pub my_syscall-IsSound :
      (r : ℤ) (k' : Kernel) (i : ℕ)
      → my_syscall nr_syscalls e cmd syscall pid k ≡ done r k'
      → IsSound (k.table i)
      → IsShort (k.table i)
      → IsSound (k'.table i)
  my_syscall-IsSound r k' i ret v short =
      let (r2, k2, ret2, eff) =
        my_syscall-Returns nr_syscalls e cmd syscall pid k q u live ready inside in
      let same : k2 ≡ k' = ground arith in rw same at (Effect-IsSound i eff v short)
