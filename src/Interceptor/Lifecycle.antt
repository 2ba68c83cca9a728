-- ===== src/Interceptor/Lifecycle.antt =====
-- Assignment1/interceptor.c: `init_function` and `exit_function`, which load and unload the module.
use csc369_operating_systems.Base.{ℕ, zero, suc, ◌+◌, [], some, ℤ, pos, if◌then◌else◌, ◌==◌}
use csc369_operating_systems.Interceptor.Kernel.{
  my_syscall_entry, my_exit_group_entry, MyTable, done, M, pure, ◌>>=◌, ◌>>◌, put_entry,
  set_addr_rw, set_addr_ro, write_sys_call_table, lock_my_table, unlock_my_table,
  lock_sys_call_table, unlock_sys_call_table, Env,
}
use csc369_operating_systems.Interceptor.Syscall.{my_syscall}

abbrev pub reset : MyTable → MyTable
reset t = record t { intercepted = 0; monitored = 0; listcount = 0; my_list = some [] }

-- The loop over the metadata table, `rounds` entries from `x` on.
unfoldable pub reset_from : ℕ → ℕ → M (Unit {0})
unfolding put_entry
reset_from zero x = pure tt
reset_from (suc n) x = do (λ k. put_entry x (reset (k.table x)) k); reset_from n (x + 1)

-- MY_CUSTOM_SYSCALL is 0.
unfoldable pub hook : ℕ → M (Unit {0})
unfolding lock_sys_call_table set_addr_rw write_sys_call_table set_addr_ro unlock_sys_call_table
hook nr_exit_group = do
  lock_sys_call_table
  λ k. done tt (record k {
    orig_custom_syscall = k.sys_call_table 0;
    orig_exit_group = k.sys_call_table nr_exit_group;
  })
  set_addr_rw
  write_sys_call_table 0 my_syscall_entry
  write_sys_call_table nr_exit_group my_exit_group_entry
  set_addr_ro
  unlock_sys_call_table

unfoldable pub init_function : ℕ → ℕ → M ℤ
unfolding hook reset_from lock_my_table unlock_my_table
init_function nr_syscalls nr_exit_group = do
  hook nr_exit_group
  lock_my_table
  reset_from nr_syscalls 0
  unlock_my_table
  pure (pos 0)

-- The lock is given up round each call, which takes it itself.
unfoldable pub release_one : ℕ → Env → ℕ → M (Unit {0})
unfolding my_syscall lock_my_table unlock_my_table
release_one nr_syscalls e y k =
    if (k.table y).intercepted == 1
    then (do unlock_my_table; _ ← my_syscall nr_syscalls e (pos 2) (pos y) (pos y); lock_my_table) k
    else done tt k

-- The loop over the metadata table, `rounds` entries from `y` on.
unfoldable pub release_from : ℕ → Env → ℕ → ℕ → M (Unit {0})
unfolding release_one
release_from nr_syscalls e zero y = pure tt
release_from nr_syscalls e (suc n) y = do
  release_one nr_syscalls e y
  release_from nr_syscalls e n (y + 1)

unfoldable pub unhook : ℕ → M (Unit {0})
unfolding lock_sys_call_table set_addr_rw write_sys_call_table set_addr_ro unlock_sys_call_table
unhook nr_exit_group = do
  lock_sys_call_table
  set_addr_rw
  λ k. write_sys_call_table 0 k.orig_custom_syscall k
  λ k. write_sys_call_table nr_exit_group k.orig_exit_group k
  set_addr_ro
  unlock_sys_call_table

unfoldable pub exit_function : ℕ → ℕ → Env → M (Unit {0})
unfolding release_from unhook lock_my_table unlock_my_table
exit_function nr_syscalls nr_exit_group e = do
  lock_my_table
  release_from nr_syscalls e nr_syscalls 0
  unlock_my_table
  unhook nr_exit_group
