-- ===== src/Interceptor/Kernel.antt =====
-- Assignment1/interceptor.c: the module's data structures, and what it uses of the kernel: the
-- system call table behind a page protection, and two spinlocks.
use csc369_operating_systems.Base.{
  ℕ, Bool, true, false, List, Option, ℤ, if◌then◌else◌, has_bit, set_bit, clear_bit, ◌==◌, update,
}

-- What an entry of the system call table points to: a function of the kernel, or one of this module.
pub data Handler : Type 0 where
  kernel : ℕ → Handler
  interceptor_entry my_syscall_entry my_exit_group_entry : Handler

-- `mytable`. `listcount` is the bit pattern of an `int`. `my_list` is `none` while the list head has
-- not been initialised.
pub record MyTable : Type 0 where
  pub f : Handler
  pub intercepted : ℕ
  pub monitored : ℕ
  pub listcount : ℕ
  pub my_list : Option (List ℤ)

-- One line of `log_message`: the pid, the system call and its arguments.
pub record LogLine : Type 0 where
  pub pid : ℤ
  pub sysc : ℕ
  pub args : List ℕ

-- `pte` is the page table entry of the page that holds `sys_call_table`.
pub record Kernel : Type 0 where
  pub sys_call_table : ℕ → Handler
  pub pte : ℕ
  pub table : ℕ → MyTable
  pub my_table_lock : Bool
  pub sys_call_table_lock : Bool
  pub orig_custom_syscall : Handler
  pub orig_exit_group : Handler
  pub log : List LogLine

-- What stops the kernel: a spinlock taken twice, one released that is free, a null pointer that is
-- followed, a write to a read-only page.
pub data Fault : Type 0 where
  deadlock bad_unlock null_pointer read_only : Fault

pub data Outcome (A : Type 0) : Type 0 where
  done : A → Kernel → Outcome A
  fault : Fault → Outcome A

abbrev pub M : Type 0 → Type 0
M A = Kernel → Outcome A

abbrev pub pure : {A : Type 0} → A → M A
pure a k = done a k

abbrev pub crash : {A : Type 0} → Fault → M A
crash e k = fault e

abbrev pub bind : {A B : Type 0} → Outcome A → (A → M B) → Outcome B
bind (done a k) g = g a k
bind (fault e) g = fault e

infixl 5 ◌>>=◌ ◌>>◌
abbrev pub ◌>>=◌ : {A B : Type 0} → M A → (A → M B) → M B
◌>>=◌ m g k = bind (m k) g

abbrev pub ◌>>◌ : {B : Type 0} → M (Unit {0}) → M B → M B
m >> g = m >>= λ _. g

-- Bit 1 of a page table entry, `_PAGE_RW` in asm/pgtable_types.h.
abbrev pub page_rw : ℕ
page_rw = 1

-- The entry is marked only if it has some other bit set.
unfoldable pub set_addr_rw : M (Unit {0})
set_addr_rw k =
    done tt
      (record k { pte = if clear_bit k.pte page_rw == 0 then k.pte else set_bit k.pte page_rw })

unfoldable pub set_addr_ro : M (Unit {0})
set_addr_ro k = done tt (record k { pte = clear_bit k.pte page_rw })

unfoldable pub write_sys_call_table : ℕ → Handler → M (Unit {0})
write_sys_call_table i h k =
    if has_bit k.pte page_rw
    then done tt (record k { sys_call_table = update k.sys_call_table i h })
    else fault read_only

-- `spin_lock` on a lock that this processor holds waits for ever.
unfoldable pub lock_my_table : M (Unit {0})
lock_my_table k =
    if k.my_table_lock then fault deadlock else done tt (record k { my_table_lock = true })

unfoldable pub unlock_my_table : M (Unit {0})
unlock_my_table k =
    if k.my_table_lock then done tt (record k { my_table_lock = false }) else fault bad_unlock

unfoldable pub lock_sys_call_table : M (Unit {0})
lock_sys_call_table k =
    if k.sys_call_table_lock
    then fault deadlock
    else done tt (record k { sys_call_table_lock = true })

unfoldable pub unlock_sys_call_table : M (Unit {0})
unlock_sys_call_table k =
    if k.sys_call_table_lock
    then done tt (record k { sys_call_table_lock = false })
    else fault bad_unlock

unfoldable pub put_entry : ℕ → MyTable → M (Unit {0})
put_entry s t k = done tt (record k { table = update k.table s t })

-- What a call finds of the rest of the kernel: `current`, its user, the tasks by pid with their
-- owners, and whether `kmalloc` gives memory.
pub record Env : Type 0 where
  pub current_pid : ℤ
  pub current_uid : ℕ
  pub pid_task : ℤ → Option ℕ
  pub kmalloc : Bool
