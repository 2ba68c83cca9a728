-- ===== src/Interceptor/Safety.antt =====
-- What a caller of `my_syscall` may rely on: it returns, it leaves no lock taken, a refused call
-- changes nothing.
use csc369_operating_systems.Base.{
  ◌∷◌, [], to_index, ℕ, ◌≡◌, ◌≢◌, List, some, ℤ, pos, arith, ℕ_discrete,
}
use csc369_operating_systems.Interceptor.Kernel.{MyTable, Kernel, done, Env}
use csc369_operating_systems.Interceptor.Syscall.{my_syscall}
use csc369_operating_systems.Interceptor.PidList.{clear_list, add_pid, del_entry}
use csc369_operating_systems.Interceptor.Effect.{
  Relisted, IsQuiet, IsReady, Effect, refused, intercepted, released, relisted, watch_all, watch,
  unwatch_all, mute, unwatch,
}
use csc369_operating_systems.Interceptor.Effect.Calls.{my_syscall-Returns}

pub Effect-IsQuiet :
    {s : ℕ} {pid : ℤ} {k : Kernel} {r : ℤ} {k' : Kernel}
    → Effect s pid k r k'
    → IsQuiet k
    → IsQuiet k'
Effect-IsQuiet (refused p e) q = ground arith
Effect-IsQuiet (intercepted p g e) q = ground arith
Effect-IsQuiet (released p g e) q = ground arith
Effect-IsQuiet (relisted l t p g m c e) q = ground arith

abbrev pub HasList : MyTable → Type 0
HasList t = (l : List ℤ) × (t.my_list ≡ some l)

Relisted-HasList : {pid : ℤ} {l : List ℤ} {t u : MyTable} → Relisted pid l t u → HasList u
unfolding clear_list add_pid del_entry
Relisted-HasList (watch_all m e) = ([], ground arith)
Relisted-HasList {pid} {l} (watch m h n e) = (pid ∷ l, ground arith)
Relisted-HasList (unwatch_all m e) = ([], ground arith)
Relisted-HasList {pid} {l} (mute m h n e) = (pid ∷ l, ground arith)
Relisted-HasList (unwatch r m h e) = (r, ground arith)

pub Effect-IsReady :
    {s : ℕ} {pid : ℤ} {k : Kernel} {r : ℤ} {k' : Kernel} (n : ℕ)
    → Effect s pid k r k'
    → IsReady n k
    → IsReady n k'
Effect-IsReady n (refused p e) ready i lt = rw e (ready i lt)
Effect-IsReady n (intercepted p g e) ready i lt = let (l, eq) = ready i lt in (l, ground arith)
Effect-IsReady n (released p g e) ready i lt = let (l, eq) = ready i lt in (l, ground arith)
Effect-IsReady {s} n (relisted l t p g m c e) ready i lt = elim (ℕ_discrete s i) [
  | yes same ↦ let (r, eq) = Relisted-HasList c in (r, ground arith)
  | no other ↦ let (r, eq) = ready i lt in (r, ground arith)
]

module _ (nr_syscalls : ℕ) (e : Env) (cmd syscall pid : ℤ) (k : Kernel) (q : IsQuiet k) (u : ℕ)
    (live : e.pid_task e.current_pid ≡ some u) (ready : IsReady nr_syscalls k)
    (inside : syscall ≢ pos nr_syscalls) where
  -- From a state in which no lock is held and the lists below `nr_syscalls` are initialised, a call
  -- by a live process with a system call other than `nr_syscalls` returns: it never waits for a lock
  -- that it holds, never releases a free one, follows no null pointer and writes no protected page.
  -- In the state that it leaves no lock is held and the lists are initialised.
  pub my_syscall_total :
      (r : ℤ) × (k' : Kernel) × (my_syscall nr_syscalls e cmd syscall pid k ≡ done r k')
      × IsQuiet k'
      × IsReady nr_syscalls k'
  my_syscall_total =
      let (r, k', ret, eff) =
        my_syscall-Returns nr_syscalls e cmd syscall pid k q u live ready inside in
      (r, k', ret, Effect-IsQuiet eff q, Effect-IsReady nr_syscalls eff ready)

  refused_lem : {r : ℤ} {k' : Kernel} → Effect (to_index syscall) pid k r k' → r ≢ pos 0 → k' ≡ k
  refused_lem (refused p e) h = e
  refused_lem (intercepted p g e) h = absurd (h p)
  refused_lem (released p g e) h = absurd (h p)
  refused_lem (relisted l t p g m c e) h = absurd (h p)

  -- From a state in which no lock is held and the lists below `nr_syscalls` are initialised, a call by
  -- a live process with a system call other than `nr_syscalls` that returns an error code leaves the
  -- state as it was.
  pub my_syscall_atomic :
      (r : ℤ) (k' : Kernel)
      → my_syscall nr_syscalls e cmd syscall pid k ≡ done r k'
      → r ≢ pos 0
      → k' ≡ k
  my_syscall_atomic r k' ret h =
      let (r2, k2, ret2, eff) =
        my_syscall-Returns nr_syscalls e cmd syscall pid k q u live ready inside in
      let unchanged : (r2 ≢ pos 0) → k2 ≡ k = refused_lem eff in ground arith
