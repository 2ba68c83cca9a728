-- ===== src/Interceptor/Syscall.antt =====
-- Assignment1/interceptor.c: `my_syscall`, `interceptor` and `my_exit_group`, with the commands of
-- interceptor.h. `spin_unlock` before each error return is one call in `guarded`.
use csc369_operating_systems.Base.{
  ℕ, Bool, true, false, not, ◌&&◌, ◌||◌, List, ◌∷◌, Option, none, some, ℤ, pos, is_neg, ◌==ℤ◌,
  to_index, if◌then◌else◌, ltb, ◌==◌,
}
use csc369_operating_systems.Interceptor.Kernel.{
  Handler, interceptor_entry, MyTable, done, M, pure, ◌>>=◌, ◌>>◌, put_entry, set_addr_rw,
  set_addr_ro, write_sys_call_table, lock_my_table, unlock_my_table, lock_sys_call_table,
  unlock_sys_call_table, Env,
}
use csc369_operating_systems.Interceptor.PidList.{
  eperm, enomem, ebusy, einval, add_pid_sysc, del_pid_sysc, del_pid, destroy_list,
  check_pids_same_owner, check_pid_monitored,
}

-- REQUEST_SYSCALL_INTERCEPT, REQUEST_SYSCALL_RELEASE, REQUEST_START_MONITORING and
-- REQUEST_STOP_MONITORING.
pub data Command : Type 0 where
  intercept release start_monitoring stop_monitoring : Command

unfoldable pub command : ℤ → Option Command
command cmd =
    if cmd ==ℤ pos 1
    then some intercept
    else if cmd ==ℤ pos 2
    then some release
    else if cmd ==ℤ pos 3
    then some start_monitoring
    else if cmd ==ℤ pos 4
    then some stop_monitoring
    else none

-- The index of a system call that is neither negative, nor above `NR_syscalls`, nor
-- MY_CUSTOM_SYSCALL.
unfoldable pub valid_syscall : ℕ → ℤ → Option ℕ
valid_syscall nr_syscalls syscall =
    if is_neg syscall || ltb nr_syscalls (to_index syscall) || (syscall ==ℤ pos 0)
    then none
    else some (to_index syscall)

abbrev pub monitors : Command → Bool
monitors intercept = false
monitors release = false
monitors start_monitoring = true
monitors stop_monitoring = true

unfoldable pub bad_pid : Env → Command → ℤ → Bool
bad_pid e c pid =
    monitors c
    && not (pid ==ℤ pos 0)
    && (is_neg pid || (elim (e.pid_task pid) [ none ↦ true | some u ↦ false ]))

-- Whether the caller has the rights that the command needs.
unfoldable pub permitted : Env → Command → ℤ → M Bool
unfolding check_pids_same_owner
permitted e c pid =
    if e.current_uid == 0
    then pure true
    else if not (monitors c) || (pid ==ℤ pos 0)
    then pure false
    else (do r ← check_pids_same_owner e e.current_pid pid; pure (r ==ℤ pos 0))

abbrev pub entry : ℕ → M MyTable
entry s k = done (k.table s) k

-- The tests before a pid is taken off: `none` if all is well.
unfoldable pub stop_context : ℕ → ℤ → M (Option ℤ)
unfolding check_pid_monitored
stop_context s pid = entry s >>= λ t.
    if (pid ==ℤ pos 0) && (t.monitored == 0)
    then pure (some einval)
    else (check_pid_monitored s pid >>= λ listed.
        if (listed ==ℤ pos 0) && not (t.monitored == 2)
        then pure (some einval)
        else if (listed ==ℤ pos 1) && (t.monitored == 2)
        then pure (some einval)
        else pure none)

unfoldable pub start_context : ℕ → ℤ → M (Option ℤ)
unfolding check_pid_monitored
start_context s pid = entry s >>= λ t.
    if (pid ==ℤ pos 0) && (t.monitored == 2) && (t.listcount == 0)
    then pure (some ebusy)
    else (check_pid_monitored s pid >>= λ listed.
        if (listed ==ℤ pos 1) && (t.monitored == 2)
        then pure (some einval)
        else if ((listed ==ℤ pos 1) && not (t.monitored == 2))
            || ((listed ==ℤ pos 0) && (t.monitored == 2))
        then pure (some ebusy)
        else pure none)

-- The tests that are made under the lock: the error, if there is one.
unfoldable pub context : Command → ℕ → ℤ → M (Option ℤ)
unfolding stop_context start_context
context intercept s pid =
    entry s >>= λ t. if t.intercepted == 0 then pure none else pure (some ebusy)
context release s pid =
    entry s >>= λ t. if t.intercepted == 0 then pure (some einval) else pure none
context stop_monitoring s pid =
    entry s >>= λ t. if t.intercepted == 0 then pure (some einval) else stop_context s pid
context start_monitoring s pid =
    entry s >>= λ t. if t.intercepted == 0 then pure (some einval) else start_context s pid

abbrev pub modify : ℕ → (MyTable → MyTable) → M (Unit {0})
modify s g k = put_entry s (g (k.table s)) k

unfoldable pub do_intercept : ℕ → M ℤ
unfolding lock_sys_call_table unlock_my_table set_addr_rw write_sys_call_table set_addr_ro put_entry
    unlock_sys_call_table
do_intercept s = do
  lock_sys_call_table
  λ k. put_entry s (record (k.table s) { f = k.sys_call_table s; intercepted = 1 }) k
  unlock_my_table
  set_addr_rw
  write_sys_call_table s interceptor_entry
  set_addr_ro
  unlock_sys_call_table
  pure (pos 0)

unfoldable pub do_release : ℕ → M ℤ
unfolding lock_sys_call_table unlock_my_table set_addr_rw write_sys_call_table set_addr_ro put_entry
    unlock_sys_call_table
do_release s = do
  lock_sys_call_table
  set_addr_rw
  modify s (λ t. record t { intercepted = 0 })
  λ k. write_sys_call_table s (k.table s).f k
  unlock_my_table
  set_addr_ro
  unlock_sys_call_table
  pure (pos 0)

-- The bodies of the last two commands: 0, or the error code.
unfoldable pub start_body : Env → ℕ → ℤ → M ℤ
unfolding destroy_list add_pid_sysc del_pid_sysc put_entry
start_body e s pid =
    if pid ==ℤ pos 0
    then (do destroy_list s; modify s (λ t. record t { monitored = 2 }); pure (pos 0))
    else (entry s >>= λ t.
        if not (t.monitored == 2)
        then (add_pid_sysc e pid s >>= λ r.
            if r ==ℤ pos 0
            then (do modify s (λ t. record t { monitored = 1 }); pure (pos 0))
            else pure enomem)
        else (del_pid_sysc pid s >>= λ r. if r ==ℤ pos 0 then pure (pos 0) else pure einval))

unfoldable pub stop_body : Env → ℕ → ℤ → M ℤ
unfolding destroy_list add_pid_sysc del_pid_sysc
stop_body e s pid =
    if pid ==ℤ pos 0
    then (do destroy_list s; pure (pos 0))
    else (entry s >>= λ t.
        if t.monitored == 2
        then (add_pid_sysc e pid s >>= λ r. if r ==ℤ pos 0 then pure (pos 0) else pure enomem)
        else (del_pid_sysc pid s >>= λ r. if r ==ℤ pos 0 then pure (pos 0) else pure einval))

unfoldable pub perform : Env → Command → ℕ → ℤ → M ℤ
unfolding do_intercept do_release start_body stop_body unlock_my_table
perform e intercept s pid = do_intercept s
perform e release s pid = do_release s
perform e start_monitoring s pid = do r ← start_body e s pid; unlock_my_table; pure r
perform e stop_monitoring s pid = do r ← stop_body e s pid; unlock_my_table; pure r

-- What is done under `my_table_lock`.
unfoldable pub guarded : Env → Command → ℕ → ℤ → M ℤ
unfolding lock_my_table context unlock_my_table perform
guarded e c s pid = do
  lock_my_table
  problem ← context c s pid
  elim problem [ some code ↦ (do unlock_my_table; pure code) | none ↦ perform e c s pid ]

unfoldable pub request : Env → Command → ℕ → ℤ → M ℤ
unfolding bad_pid permitted
request e c s pid =
    if bad_pid e c pid
    then pure einval
    else (permitted e c pid >>= λ allowed. if allowed then guarded e c s pid else pure eperm)

unfoldable pub my_syscall : ℕ → Env → ℤ → ℤ → ℤ → M ℤ
unfolding command valid_syscall request
my_syscall nr_syscalls e cmd syscall pid = elim (command cmd) [
  | none ↦ pure einval
  | some c ↦ elim (valid_syscall nr_syscalls syscall) [
    | none ↦ pure einval
    | some s ↦ request e c s pid
  ]
]

-- `interceptor`: log the call if its process is monitored; the result is the original call.
unfoldable pub interceptor : Env → ℕ → List ℕ → M Handler
unfolding lock_my_table unlock_my_table check_pid_monitored
interceptor e ax args = do
  lock_my_table
  t ← entry ax
  logs ←
      if t.monitored == 2
      then pure true
      else (do listed ← check_pid_monitored ax e.current_pid; pure (listed ==ℤ pos 1))
  λ k. done tt (record k {
    log = if logs then record { pid = e.current_pid; sysc = ax; args = args } ∷ k.log else k.log;
  })
  unlock_my_table
  λ k. done (k.table ax).f k

-- `my_exit_group`: the exiting process leaves every list; the result is the original call.
unfoldable pub my_exit_group : ℕ → Env → M Handler
unfolding del_pid
my_exit_group nr_syscalls e = do
  _ ← del_pid nr_syscalls e.current_pid
  λ k. done k.orig_exit_group k
