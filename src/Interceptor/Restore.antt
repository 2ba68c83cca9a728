-- ===== src/Interceptor/Restore.antt =====
-- The life of the module: loading it, the calls that are made while it is loaded, unloading it.
pub mod Load
pub mod Calls
pub mod Unload
pub mod Session
use csc369_operating_systems.Interceptor.Safety.{Effect-IsReady, Effect-IsQuiet}
use csc369_operating_systems.Interceptor.Effect.Calls.{valid_syscall-some, my_syscall-Returns}
use csc369_operating_systems.Interceptor.PidList.{einval, del_entry, add_pid, clear_list}
use csc369_operating_systems.Base.{
  to_index, subst, none, Option-cases, [], ◌∙◌, fun_ext, ap, ltb, ◌&&◌, leb, ℕ, zero, suc, ◌+◌, ◌≤◌,
  ◌<◌, ◌≡◌, ◌≢◌, refl, Bool, true, false, List, some, ℤ, pos, arith, ℕ_discrete, ◌==◌,
  if◌then◌else◌, update, ◌⊎◌, inl, inr,
}
use csc369_operating_systems.Interceptor.Kernel.{
  Handler, interceptor_entry, my_syscall_entry, my_exit_group_entry, MyTable, Kernel, done, Env,
}
use csc369_operating_systems.Interceptor.Syscall.{
  command, valid_syscall, my_syscall, interceptor, my_exit_group,
}
use csc369_operating_systems.Interceptor.Lifecycle.{
  init_function, exit_function, reset_from, reset, release_one, release_from, hook, unhook,
}
use csc369_operating_systems.Interceptor.Effect.{
  mute, unwatch_all, watch, watch_all, Relisted, IsQuiet, IsReady, held, with_release, Effect,
  refused, intercepted, released, relisted,
}

module _ (nr_syscalls nr_exit_group : ℕ) (orig : ℕ → Handler) where
  -- What stands in the system call table for a call that is not intercepted.
  abbrev pub base : ℕ → Handler
  base i =
      if i == 0
      then my_syscall_entry
      else if i == nr_exit_group
      then my_exit_group_entry
      else orig i

  -- One entry of the two tables: free, or intercepted with its function saved.
  abbrev pub IsLinked : Kernel → ℕ → Type 0
  IsLinked k i =
      ((k.table i).intercepted ≡ 0) × (k.sys_call_table i ≡ base i)
      ⊎ ((k.table i).intercepted ≡ 1)
        × (k.sys_call_table i ≡ interceptor_entry)
        × ((k.table i).f ≡ base i)
        × (i ≢ 0)

  pub record IsLoaded (k : Kernel) : Type 0 where
    pub quiet : IsQuiet k
    pub ready : IsReady nr_syscalls k
    pub custom : k.orig_custom_syscall ≡ orig 0
    pub exit : k.orig_exit_group ≡ orig nr_exit_group
    pub linked : (i : ℕ) → i < nr_syscalls → IsLinked k i
