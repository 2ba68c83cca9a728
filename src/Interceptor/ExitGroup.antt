-- ===== src/Interceptor/ExitGroup.antt =====
-- `del_pid`, which `my_exit_group` calls: an exiting process leaves every list, and nothing else
-- changes.
use csc369_operating_systems.Base.{
  Option-cases, sym, subst, ◌^◌, length, ◌≢◌, negsuc, ℕ, zero, suc, ◌+◌, ◌-◌, ◌≤◌, ◌<◌, ◌≡◌, refl,
  ◌∙◌, ap, fun_ext, Bool, true, false, ◌&&◌, List, [], ◌∷◌, none, some, ℤ, pos, arith,
  if◌then◌else◌, leb, ltb, update, Bool-cases, ◌==ℤ◌, ==ℤ_iff, inl, inr,
}
use csc369_operating_systems.Interceptor.Kernel.{MyTable, Kernel, done, Env}
use csc369_operating_systems.Interceptor.PidList.{
  walk, settle, count_down, has_pid, unlink, del_entry, purge, del_pid_from,
}
use csc369_operating_systems.Interceptor.Syscall.{my_exit_group}
use csc369_operating_systems.Interceptor.Effect.{IsReady}
use csc369_operating_systems.Interceptor.Metadata.{
  unlink_keeps, unlink_gone, del_entry-IsListed, Distinct, IsListed,
}
use csc369_operating_systems.Interceptor.Safety.{HasList}

-- An entry after the inner loop of `del_pid`.
abbrev pub purged : ℤ → MyTable → MyTable
purged pid t = elim t.my_list [
  | none ↦ t
  | some l ↦ let (rest, t', found) = purge pid l t in record t' { my_list = some rest }
]

purge_missing :
    (pid : ℤ) (l : List ℤ) (t : MyTable) → has_pid pid l ≡ false → purge pid l t ≡ (l, t, false)
unfolding purge
purge_missing pid [] t h = refl
purge_missing pid (x ∷ l) t h = elim (Bool-cases (x ==ℤ pid)) [
  | inl hit ↦ ground arith
  | inr other ↦ rw (other, purge_missing pid l t (rw other at h))
]

abbrev dropped : MyTable → MyTable
dropped t = record t {
  listcount = count_down t.listcount;
  monitored = settle (count_down t.listcount) t.monitored;
}

purge-Distinct :
    (pid : ℤ) (l : List ℤ) (t : MyTable)
    → Distinct l
    → has_pid pid l ≡ true
    → (r : List ℤ) × (unlink pid l ≡ some r) × (purge pid l t ≡ (r, dropped t, true))
unfolding purge unlink
purge-Distinct pid [] t d h = cc
purge-Distinct pid (x ∷ l) t d h = elim (Bool-cases (x ==ℤ pid)) [
  | inl hit ↦
      let same : x ≡ pid = (==ℤ_iff x pid).0 hit in
      (l, rw hit, rw (hit, purge_missing pid l (dropped t) (rw same at (d.0))))
  | inr other ↦
      let (r, gone, eq) = purge-Distinct pid l t d.1 (rw other at h) in
      (x ∷ r, rw (other, gone), rw (other, eq))
]

pub purge_hooks :
    (pid : ℤ) (l : List ℤ) (t : MyTable)
    → ((purge pid l t).1.intercepted ≡ t.intercepted) × ((purge pid l t).1.f ≡ t.f)
unfolding purge
purge_hooks pid [] t = ground arith
purge_hooks pid (x ∷ l) t = elim (Bool-cases (x ==ℤ pid)) [
  | inl hit ↦ rw hit (purge_hooks pid l (dropped t))
  | inr other ↦ rw other (purge_hooks pid l t)
]

abbrev pub purged_table : ℤ → ℕ → ℕ → (ℕ → MyTable) → ℕ → MyTable
purged_table pid n s t i = if leb s i && ltb i (s + n) then purged pid (t i) else t i

abbrev pub with_table : Kernel → (ℕ → MyTable) → Kernel
with_table k t = record k { table = t }

del_pid_step :
    (n s : ℕ) (pid : ℤ) (b : Bool) (k : Kernel) (l : List ℤ)
    → (k.table s).my_list ≡ some l
    → del_pid_from (suc n) s pid b k
      ≡ del_pid_from n
          (s + 1)
          pid
          (if (purge pid l (k.table s)).2 then true else b)
          (with_table k (update k.table s (purged pid (k.table s))))
unfolding del_pid_from
del_pid_step n s pid b k l here = rw (here, walk) (rw here)

del_pid_from_lem :
    (n s : ℕ) (pid : ℤ) (b : Bool) (k : Kernel)
    → ((i : ℕ) → s ≤ i → i < s + n → HasList (k.table i))
    → (r : ℤ) × (del_pid_from n s pid b k ≡ done r (with_table k (purged_table pid n s k.table)))
unfolding del_pid_from
del_pid_from_lem zero s pid b k ready =
    let r : ℤ = if b then pos 0 else negsuc 0 in
    let same : k.table ≡ purged_table pid 0 s k.table = fun_ext λ i. ground arith in
    (r, ap (λ (t : ℕ → MyTable). done r (with_table k t)) same)
del_pid_from_lem (suc n) s pid b k ready =
    let (l, here) = ready s (omega arith) (omega arith) in
    let found = (purge pid l (k.table s)).2 in
    let k1 = with_table k (update k.table s (purged pid (k.table s))) in
    let (r, eq) = del_pid_from_lem n (s + 1) pid (if found then true else b) k1 (λ i above below.
      let (m, there) = ready i (omega arith) (omega arith) in (m, ground arith)) in
    let same : purged_table pid n (s + 1) k1.table ≡ purged_table pid (suc n) s k.table =
      fun_ext λ i. ground arith in
    (
      r,
      del_pid_step n s pid b k l here ∙ eq ∙ ap (λ (t : ℕ → MyTable). done r (with_table k t)) same,
    )

-- An entry whose list is `l` and what is left of it: the pid is gone, the others stand as before.
abbrev pub IsWithout : ℤ → List ℤ → List ℤ → Type 0
IsWithout pid l m =
    (has_pid pid m ≡ false) × ((other : ℤ) → other ≢ pid → has_pid other m ≡ has_pid other l)

purged_lem :
    (pid : ℤ) (l : List ℤ) (t u : MyTable) (r : List ℤ) (b : Bool)
    → t.my_list ≡ some l
    → purge pid l t ≡ (r, u, b)
    → purged pid t ≡ record u { my_list = some r }
purged_lem pid l t u r b here eq = ground arith

purged-IsListed :
    (pid : ℤ) (l : List ℤ) (t : MyTable)
    → IsListed l t
    → length l < 2 ^ 32
    → (m : List ℤ) × IsListed m (purged pid t) × IsWithout pid l m
unfolding del_entry
purged-IsListed pid l t v small = elim (Bool-cases (has_pid pid l)) [
  | inl there ↦
      let (r, gone, eq) = purge-Distinct pid l t v.distinct there in
      let new : del_entry r t ≡ purged pid t =
        sym (purged_lem pid l t (dropped t) r true v.here eq) in
      (
        r,
        subst (IsListed r) new (del_entry-IsListed pid gone v small),
        (unlink_gone pid l r gone v.distinct, λ other n. unlink_keeps pid other l r gone n),
      )
  | inr missing ↦
      let same : t ≡ purged pid t =
        ground (arith, purged_lem pid l t t l false v.here (purge_missing pid l t missing)) in
      (l, subst (IsListed l) same v, (missing, λ other n. refl))
]

-- The hooks of an entry have no part in `del_pid`.
pub purged_hooks :
    (pid : ℤ) (t : MyTable)
    → ((purged pid t).intercepted ≡ t.intercepted) × ((purged pid t).f ≡ t.f)
purged_hooks pid t = elim (Option-cases t.my_list) [
  | inl none_yet ↦ ground arith
  | inr (l, here) ↦ ground (arith, purge_hooks pid l t)
]

pub purged-HasList : (pid : ℤ) (t : MyTable) → HasList t → HasList (purged pid t)
purged-HasList pid t (l, here) = ((purge pid l t).0, ground arith)

module _ (nr_syscalls : ℕ) (e : Env) (k : Kernel) (ready : IsReady nr_syscalls k) where
  -- The state after `my_exit_group`, which goes on to the original call.
  pub my_exit_group_lem :
      my_exit_group nr_syscalls e k
      ≡ done k.orig_exit_group
          (with_table k (purged_table e.current_pid (nr_syscalls - 1) 1 k.table))
  unfolding my_exit_group
  my_exit_group_lem =
      let (r, eq) =
        del_pid_from_lem (nr_syscalls - 1) 1 e.current_pid false k
          (λ i above below. ready i (omega arith)) in
      rw eq

  -- When a process exits with the lists of the system calls below `nr_syscalls` initialised, the
  -- original `exit_group` is called, and in every entry from 1 to `nr_syscalls` - 1 that is sound,
  -- with fewer than 2^32 pids in its list, the pid of the process is gone from the list, every other
  -- pid is in the list exactly if it was, and the entry is sound.
  pub exit_group_clears :
      (i : ℕ) (l : List ℤ)
      → 0 < i
      → i < nr_syscalls
      → IsListed l (k.table i)
      → length l < 2 ^ 32
      → (k' : Kernel) × (my_exit_group nr_syscalls e k ≡ done k.orig_exit_group k')
        × ((m : List ℤ) × IsListed m (k'.table i) × IsWithout e.current_pid l m)
  exit_group_clears i l positive below v small =
      let k' = with_table k (purged_table e.current_pid (nr_syscalls - 1) 1 k.table) in
      let (m, w, gone) = purged-IsListed e.current_pid l (k.table i) v small in
      let at : purged e.current_pid (k.table i) ≡ k'.table i = ground arith in
      (k', my_exit_group_lem, (m, subst (IsListed m) at w, gone))
