-- ===== src/Interceptor/Monitoring.antt =====
-- Which calls are logged, and where the monitoring commands do not do what interceptor.c says.
use csc369_operating_systems.Interceptor.Restore.Load.{init-last_entry}
use csc369_operating_systems.Interceptor.Lifecycle.{init_function}
use csc369_operating_systems.Ext2.Image.{done}
use csc369_operating_systems.Interceptor.Effect.Calls.{
  my_syscall_known, my_syscall_outside, my_syscall_unknown, valid_syscall-some,
}
use csc369_operating_systems.Base.{
  ℕ, zero, suc, ◌<◌, ◌≡◌, ◌≢◌, refl, sym, ◌∙◌, ap, arith, none, some, List, ◌∷◌, if◌then◌else◌,
  ◌==◌, ◌||◌, update, inl, inr, Option-cases, ==ℤ_iff, ℤ, pos,
}
use csc369_operating_systems.Interceptor.Kernel.{
  interceptor_entry, MyTable, LogLine, Kernel, done, fault, null_pointer, Env,
}
use csc369_operating_systems.Interceptor.PidList.{has_pid, add_pid}
use csc369_operating_systems.Interceptor.Syscall.{
  valid_syscall, command, Command, request, start_monitoring, stop_monitoring, guarded, my_syscall,
  interceptor,
}
use csc369_operating_systems.Interceptor.Effect.{IsQuiet}

-- The line that `interceptor` logs for the current process.
abbrev pub line_of : Env → ℕ → List ℕ → LogLine
line_of e ax args = record { pid = e.current_pid; sysc = ax; args = args }

-- `interceptor` with no lock held and the list of the system call initialised: it returns the call
-- of the saved function and changes only the log, which gets one line exactly if all processes are
-- monitored or the list holds the current one.
pub interceptor_lem :
    (e : Env) (ax : ℕ) (args : List ℕ) (k : Kernel) (l : List ℤ)
    → IsQuiet k
    → (k.table ax).my_list ≡ some l
    → interceptor e ax args k
      ≡ done (k.table ax).f (record k {
        log =
            if ((k.table ax).monitored == 2) || has_pid e.current_pid l
            then line_of e ax args ∷ k.log
            else k.log;
      })
unfolding interceptor
interceptor_lem e ax args k l q ready = ground arith

guarded_start_refused :
    (e : Env) (s : ℕ) (pid : ℤ) (k : Kernel) (l : List ℤ) (r : ℤ) (k' : Kernel)
    → IsQuiet k
    → (k.table s).my_list ≡ some l
    → (k.table s).monitored ≡ 2
    → guarded e start_monitoring s pid k ≡ done r k'
    → r ≢ pos 0
unfolding guarded
guarded_start_refused e s pid k l r k' q ready all ret = ground arith

stop_keeps_all :
    (e : Env) (s : ℕ) (pid : ℤ) (k : Kernel) (l : List ℤ) (k' : Kernel)
    → IsQuiet k
    → (k.table s).my_list ≡ some l
    → (k.table s).monitored ≡ 2
    → pid ≢ pos 0
    → guarded e stop_monitoring s pid k ≡ done (pos 0) k'
    → (k' ≡ record k { table = update k.table s (add_pid pid l (k.table s)) })
unfolding guarded
stop_keeps_all e s pid k l k' q ready all one ret = ground (arith, ==ℤ_iff pid (pos 0))

request_done :
    (e : Env) (c : Command) (s : ℕ) (pid : ℤ) (k k' : Kernel)
    → request e c s pid k ≡ done (pos 0) k'
    → guarded e c s pid k ≡ done (pos 0) k'
unfolding request
request_done e c s pid k k' ret = ground arith

-- A call that returns 0 has passed every test before the lock is taken.
my_syscall_done :
    (nr_syscalls : ℕ) (e : Env) (cmd syscall pid : ℤ) (k k' : Kernel)
    → my_syscall nr_syscalls e cmd syscall pid k ≡ done (pos 0) k'
    → (c : Command) × (s : ℕ) × (command cmd ≡ some c)
      × (syscall ≡ pos s)
      × (guarded e c s pid k ≡ done (pos 0) k')
my_syscall_done nr_syscalls e cmd syscall pid k k' ret = elim (Option-cases (command cmd)) [
  | inl unknown ↦ ground (arith, my_syscall_unknown nr_syscalls e cmd syscall pid k unknown)
  | inr (c, known) ↦ elim (Option-cases (valid_syscall nr_syscalls syscall)) [
    | inl outside ↦ ground (arith, my_syscall_outside nr_syscalls e cmd syscall pid k outside)
    | inr (s, valid) ↦ (
      c,
      s,
      known,
      (valid_syscall-some nr_syscalls syscall valid).0,
      request_done e c s pid k k'
          (sym (my_syscall_known nr_syscalls e cmd syscall pid k c s known valid) ∙ ret),
    )
  ]
]

-- While all processes are monitored for a system call, REQUEST_START_MONITORING (3) for it never
-- returns 0, whatever the pid: one that was taken off cannot be put back.
pub start_never_resumes :
    (nr_syscalls : ℕ) (e : Env) (s : ℕ) (pid : ℤ) (k : Kernel) (l : List ℤ) (k' : Kernel)
    → IsQuiet k
    → (k.table s).my_list ≡ some l
    → (k.table s).monitored ≡ 2
    → my_syscall nr_syscalls e (pos 3) (pos s) pid k ≢ done (pos 0) k'
unfolding command
start_never_resumes nr_syscalls e s pid k l k' q ready all ret =
    let (c, s', known, named, run) = my_syscall_done nr_syscalls e (pos 3) (pos s) pid k k' ret in
    let same : guarded e start_monitoring s pid k ≡ done (pos 0) k' = ground arith in
    guarded_start_refused e s pid k l (pos 0) k' q ready all same refl

-- Where REQUEST_STOP_MONITORING (4) for one pid returns 0 while all processes are monitored, the calls
-- of that process are logged as before.
pub stop_does_not_mute :
    (nr_syscalls : ℕ) (e e' : Env) (s : ℕ) (pid : ℤ) (args : List ℕ) (k : Kernel) (l : List ℤ)
    (k' : Kernel)
    → IsQuiet k
    → (k.table s).my_list ≡ some l
    → (k.table s).monitored ≡ 2
    → pid ≢ pos 0
    → e'.current_pid ≡ pid
    → my_syscall nr_syscalls e (pos 4) (pos s) pid k ≡ done (pos 0) k'
    → interceptor e' s args k' ≡ done (k.table s).f (record k' { log = line_of e' s args ∷ k.log })
unfolding command add_pid
stop_does_not_mute nr_syscalls e e' s pid args k l k' q ready all one mine ret =
    let (c, s', known, named, run) = my_syscall_done nr_syscalls e (pos 4) (pos s) pid k k' ret in
    let same : guarded e stop_monitoring s pid k ≡ done (pos 0) k' = ground arith in
    let after = stop_keeps_all e s pid k l k' q ready all one same in
    ground (arith, interceptor_lem e' s args k' (pid ∷ l))

-- A list that is not initialised is a null pointer for a request to monitor all processes.
null_list_crashes :
    (nr_syscalls : ℕ) (e : Env) (k : Kernel)
    → IsQuiet k
    → 0 < nr_syscalls
    → e.current_uid ≡ 0
    → (k.table nr_syscalls).intercepted ≢ 0
    → (k.table nr_syscalls).monitored ≢ 2
    → (k.table nr_syscalls).my_list ≡ none
    → my_syscall nr_syscalls e (pos 3) (pos nr_syscalls) (pos 0) k ≡ fault null_pointer
unfolding my_syscall guarded
null_list_crashes (suc n) e k q positive root caught not_all no_list = ground arith
null_list_crashes zero e k q positive root caught not_all no_list = absurd (omega arith)

intercept_last :
    (nr_syscalls : ℕ) (e : Env) (pid : ℤ) (k : Kernel)
    → IsQuiet k
    → 0 < nr_syscalls
    → e.current_uid ≡ 0
    → (k.table nr_syscalls).intercepted ≡ 0
    → (k' : Kernel) × (my_syscall nr_syscalls e (pos 1) (pos nr_syscalls) pid k ≡ done (pos 0) k')
      × IsQuiet k'
      × ((k'.table nr_syscalls).intercepted ≡ 1)
      × ((k'.table nr_syscalls).monitored ≡ (k.table nr_syscalls).monitored)
      × ((k'.table nr_syscalls).my_list ≡ (k.table nr_syscalls).my_list)
unfolding my_syscall guarded
intercept_last (suc n) e pid k q positive root unused =
    let t : MyTable = k.table (suc n) in
    (
      record k {
        table = update k.table (suc n) (record t { f = k.sys_call_table (suc n); intercepted = 1 });
        sys_call_table = update k.sys_call_table (suc n) interceptor_entry;
      },
      ground arith,
      ground arith,
      ground arith,
      ground arith,
      ground arith,
    )
intercept_last zero e pid k q positive root unused = absurd (omega arith)

-- The off-by-one in the test of the system call number: `nr_syscalls` itself passes it, though
-- `init_function` leaves the metadata of this index as it is. Where it is zero, with a null list,
-- before the module is loaded: `init_function` returns 0, a request by root to intercept
-- `nr_syscalls` returns 0 too, and a request by root to monitor all processes for it then follows a
-- null pointer.
pub last_index_crashes :
    (nr_syscalls nr_exit_group : ℕ) (e : Env) (pid : ℤ) (k : Kernel)
    → IsQuiet k
    → 0 < nr_exit_group
    → nr_exit_group < nr_syscalls
    → e.current_uid ≡ 0
    → (k.table nr_syscalls).intercepted ≡ 0
    → (k.table nr_syscalls).monitored ≡ 0
    → (k.table nr_syscalls).my_list ≡ none
    → (k1 : Kernel) × (k2 : Kernel) × (init_function nr_syscalls nr_exit_group k ≡ done (pos 0) k1)
      × (my_syscall nr_syscalls e (pos 1) (pos nr_syscalls) pid k1 ≡ done (pos 0) k2)
      × (my_syscall nr_syscalls e (pos 3) (pos nr_syscalls) (pos 0) k2 ≡ fault null_pointer)
last_index_crashes nr_syscalls nr_exit_group e pid k q positive inside root unused unmonitored
      no_list =
    let (k1, loading, q1, kept) = init-last_entry nr_syscalls nr_exit_group k q positive in
    let (k2, intercepting, q2, caught, mode, list) =
      intercept_last nr_syscalls e pid k1 q1 (omega arith) root
        (ap (λ (t : MyTable). t.intercepted) kept ∙ unused) in
    let mode0 = mode ∙ ap (λ (t : MyTable). t.monitored) kept ∙ unmonitored in
    (
      k1,
      k2,
      loading,
      intercepting,
      null_list_crashes nr_syscalls e k2 q2 (omega arith) root (λ z. omega arith) (λ z. omega arith)
          (list ∙ ap (λ (t : MyTable). t.my_list) kept ∙ no_list),
    )
