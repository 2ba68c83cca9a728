-- ===== src/Interceptor/Effect.antt =====
-- What a call of `my_syscall` may do, as a relation between the kernels before and after it.
mod Tables
mod Context
mod Lists
pub mod Calls
use csc369_operating_systems.Base.{
  negsuc, subst, suc, ◌≤◌, to_index, Option-cases, ◌||◌, not, ==ℤ_iff, inr, inl, ◌&&◌, Bool-cases,
  ◌⊎◌, ℕ, ◌+◌, ◌<◌, ◌≡◌, refl, ◌≢◌, Bool, true, false, List, [], ◌∷◌, Option, none, some, ℤ, pos,
  has_bit, ℕ_discrete, update, arith, if◌then◌else◌, ◌==◌, ◌==ℤ◌,
}
use csc369_operating_systems.Interceptor.Kernel.{
  interceptor_entry, MyTable, Kernel, done, M, set_addr_rw, set_addr_ro, write_sys_call_table,
  lock_my_table, unlock_my_table, lock_sys_call_table, unlock_sys_call_table, put_entry, Env,
}
use csc369_operating_systems.Interceptor.PidList.{
  check_pids_same_owner, eperm, ebusy, enomem, einval, count_up, walk, add_pid, add_pid_sysc,
  unlink, del_entry, del_pid_sysc, clear_list, destroy_list, has_pid, check_pid_monitored,
}
use csc369_operating_systems.Interceptor.Syscall.{
  command, my_syscall, valid_syscall, bad_pid, monitors, permitted, request, Command, intercept,
  release, start_monitoring, stop_monitoring, do_intercept, do_release, start_body, stop_body,
  context, start_context, stop_context, perform, guarded,
}

-- No lock is held, and the system call table lies in a present page that is read-only.
pub record IsQuiet (k : Kernel) : Type 0 where
  pub table_free : k.my_table_lock ≡ false
  pub calls_free : k.sys_call_table_lock ≡ false
  pub present : has_bit k.pte 0 ≡ true
  pub protected : has_bit k.pte 1 ≡ false

abbrev pub held : Kernel → Kernel
held k = record k { my_table_lock = true }

-- The kernel after a system call is intercepted, and after it is released.
abbrev pub with_intercept : ℕ → Kernel → Kernel
with_intercept s k = record k {
  sys_call_table = update k.sys_call_table s interceptor_entry;
  table = update k.table s (record (k.table s) { f = k.sys_call_table s; intercepted = 1 });
}

abbrev pub with_release : ℕ → Kernel → Kernel
with_release s k = record k {
  sys_call_table = update k.sys_call_table s (k.table s).f;
  table = update k.table s (record (k.table s) { intercepted = 0 });
}

abbrev pub with_entry : ℕ → MyTable → Kernel → Kernel
with_entry s t k = record k { table = update k.table s t }

-- How START_MONITORING and STOP_MONITORING may change an entry whose list is `l`.
pub data Relisted (pid : ℤ) (l : List ℤ) (t : MyTable) : MyTable → Type 0 where
  watch_all :
      {u : MyTable}
      → t.monitored ≢ 2
      → u ≡ record (clear_list t) { monitored = 2 }
      → Relisted pid l t u
  watch :
      {u : MyTable}
      → t.monitored ≢ 2
      → has_pid pid l ≡ false
      → pid ≢ pos 0
      → u ≡ record (add_pid pid l t) { monitored = 1 }
      → Relisted pid l t u
  unwatch_all : {u : MyTable} → t.monitored ≢ 0 → u ≡ clear_list t → Relisted pid l t u
  mute :
      {u : MyTable}
      → t.monitored ≡ 2
      → has_pid pid l ≡ false
      → pid ≢ pos 0
      → u ≡ add_pid pid l t
      → Relisted pid l t u
  unwatch :
      {u : MyTable} (r : List ℤ)
      → t.monitored ≢ 2
      → unlink pid l ≡ some r
      → u ≡ del_entry r t
      → Relisted pid l t u

-- What a call that returns `r` and leaves `k'` has done to `k`.
pub data Effect (s : ℕ) (pid : ℤ) (k : Kernel) (r : ℤ) (k' : Kernel) : Type 0 where
  refused : r ≢ pos 0 → k' ≡ k → Effect s pid k r k'
  intercepted :
      r ≡ pos 0 → (k.table s).intercepted ≡ 0 → k' ≡ with_intercept s k → Effect s pid k r k'
  released : r ≡ pos 0 → (k.table s).intercepted ≢ 0 → k' ≡ with_release s k → Effect s pid k r k'
  relisted :
      (l : List ℤ) (t : MyTable)
      → r ≡ pos 0
      → (k.table s).intercepted ≢ 0
      → (k.table s).my_list ≡ some l
      → Relisted pid l (k.table s) t
      → k' ≡ with_entry s t k
      → Effect s pid k r k'

-- The call returns, with an effect.
abbrev pub Returns : ℕ → ℤ → Kernel → M ℤ → Type 0
Returns s pid k m = (r : ℤ) × (k' : Kernel) × (m k ≡ done r k') × Effect s pid k r k'

-- The lists of the metadata table are initialised below the bound.
abbrev pub IsReady : ℕ → Kernel → Type 0
IsReady n k = (s : ℕ) → s < n → (l : List ℤ) × ((k.table s).my_list ≡ some l)
