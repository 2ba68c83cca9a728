-- ===== src/Interceptor/Restore/Session.antt =====
-- From loading the module to unloading it, with any calls in between.
use csc369_operating_systems.Base.{
  refl, subst, arith, subst, arith, ℕ, ◌<◌, ◌≡◌, ◌≢◌, some, List, ℤ, pos,
}
use csc369_operating_systems.Interceptor.Kernel.{Handler, Kernel, done, Env}
use csc369_operating_systems.Interceptor.Syscall.{my_syscall, interceptor, my_exit_group}
use csc369_operating_systems.Interceptor.Lifecycle.{init_function, exit_function}
use csc369_operating_systems.Interceptor.Effect.{IsQuiet}
use csc369_operating_systems.Interceptor.Restore.{IsLoaded}
use csc369_operating_systems.Interceptor.Restore.Load.{init-IsLoaded}
use csc369_operating_systems.Interceptor.Restore.Calls.{
  call-IsLoaded, interceptor-IsLoaded, exit_group-IsLoaded,
}
use csc369_operating_systems.Interceptor.Restore.Unload.{unload_restores}

-- The states after `init_function` in the state `start`, and after calls of the module's three entry
-- points by live processes, none of them `my_syscall` at the index `nr_syscalls`.
pub data Session (nr_syscalls nr_exit_group : ℕ) (start : Kernel) : Kernel → Type 0 where
  loaded :
      {k : Kernel} (r : ℤ)
      → init_function nr_syscalls nr_exit_group start ≡ done r k
      → Session nr_syscalls nr_exit_group start k
  called :
      {k k' : Kernel} (e : Env) (cmd syscall pid r : ℤ) (u : ℕ)
      → Session nr_syscalls nr_exit_group start k
      → e.pid_task e.current_pid ≡ some u
      → syscall ≢ pos nr_syscalls
      → my_syscall nr_syscalls e cmd syscall pid k ≡ done r k'
      → Session nr_syscalls nr_exit_group start k'
  intercepted :
      {k k' : Kernel} (e : Env) (ax : ℕ) (args : List ℕ) (h : Handler)
      → Session nr_syscalls nr_exit_group start k
      → interceptor e ax args k ≡ done h k'
      → Session nr_syscalls nr_exit_group start k'
  exited :
      {k k' : Kernel} (e : Env) (h : Handler)
      → Session nr_syscalls nr_exit_group start k
      → my_exit_group nr_syscalls e k ≡ done h k'
      → Session nr_syscalls nr_exit_group start k'

module _ {nr_syscalls nr_exit_group : ℕ} {start : Kernel} (q : IsQuiet start)
    (positive : 0 < nr_exit_group) (inside : nr_exit_group < nr_syscalls) where
  Session-IsLoaded :
      {k : Kernel}
      → Session nr_syscalls nr_exit_group start k
      → IsLoaded nr_syscalls nr_exit_group start.sys_call_table k
  Session-IsLoaded (loaded r ret) =
      let (k', ret', v) =
        init-IsLoaded nr_syscalls nr_exit_group start.sys_call_table start q positive inside
          (λ i. refl) in
      let same : k' ≡ _ = ground arith in
      subst (IsLoaded nr_syscalls nr_exit_group start.sys_call_table) same v
  Session-IsLoaded (called {k} {k'} e cmd syscall pid r u s live n ret) =
      call-IsLoaded nr_syscalls nr_exit_group start.sys_call_table e cmd syscall pid k u live n r k'
        ret (Session-IsLoaded s)
  Session-IsLoaded (intercepted {k} {k'} e ax args h s ret) =
      interceptor-IsLoaded nr_syscalls nr_exit_group start.sys_call_table e ax args k h k' ret
        (Session-IsLoaded s)
  Session-IsLoaded (exited {k} {k'} e h s ret) =
      exit_group-IsLoaded nr_syscalls nr_exit_group start.sys_call_table e k h k' ret
        (Session-IsLoaded s)

  -- Load the module with no lock held and the system call table read-only, with `exit_group` between
  -- 0 and `nr_syscalls`; make any calls of it by live processes, none at the index `nr_syscalls`;
  -- then let root unload it. The unloading returns with no lock held, and below `nr_syscalls` every
  -- entry of the system call table is what it was before the module was loaded.
  pub Session-restores :
      (k : Kernel) (e : Env)
      → Session nr_syscalls nr_exit_group start k
      → e.current_uid ≡ 0
      → (k' : Kernel) × (exit_function nr_syscalls nr_exit_group e k ≡ done tt k')
        × IsQuiet k'
        × ((i : ℕ) → i < nr_syscalls → k'.sys_call_table i ≡ start.sys_call_table i)
  Session-restores k e s root =
      unload_restores nr_syscalls nr_exit_group start.sys_call_table e k root (Session-IsLoaded s)
