-- ===== src/Interceptor/Tests.antt =====
-- The theorems on the module of Assignment1 at concrete states: a kernel with four system calls, of
-- which number 2 is `exit_group`.
use csc369_operating_systems.Ext2.Image.{done}
use csc369_operating_systems.Interceptor.ExitGroup.{exit_group_clears, IsWithout}
use csc369_operating_systems.Interceptor.Metadata.{IsShort, my_syscall-IsSound, IsSound, IsListed}
use csc369_operating_systems.Interceptor.Monitoring.{
  stop_does_not_mute, interceptor_lem, line_of, start_never_resumes, last_index_crashes,
}
use csc369_operating_systems.Interceptor.Restore.Session.{loaded, called, Session-restores}
use csc369_operating_systems.Interceptor.Safety.{my_syscall_total, my_syscall_atomic}
use csc369_operating_systems.Interceptor.Syscall.{interceptor, my_exit_group, guarded, my_syscall}
use csc369_operating_systems.Interceptor.Lifecycle.{init_function, exit_function}
use csc369_operating_systems.Interceptor.Effect.{IsReady, IsQuiet}
use csc369_operating_systems.Base.{
  ℕ, ◌<◌, ◌≡◌, ◌≢◌, refl, arith, true, false, none, some, List, [], ◌∷◌, ℤ, pos, negsuc,
}
use csc369_operating_systems.Interceptor.Kernel.{
  kernel, MyTable, Kernel, Env, Outcome, done, fault, null_pointer,
}

abbrev unused : MyTable
unused = record { f = kernel 0; intercepted = 0; monitored = 0; listcount = 0; my_list = none }

abbrev kernel_with : (ℕ → MyTable) → Kernel
kernel_with t = record {
  sys_call_table = kernel;
  pte = 1;
  table = t;
  my_table_lock = false;
  sys_call_table_lock = false;
  orig_custom_syscall = kernel 0;
  orig_exit_group = kernel 2;
  log = [];
}

-- Before the module is loaded; with initialised lists; with system calls that are intercepted and
-- monitored, for pid 10 and for all.
abbrev fresh : Kernel
fresh = kernel_with (λ i. unused)

abbrev idle : Kernel
idle = kernel_with (λ i. record unused { my_list = some [] })

abbrev watched : MyTable
watched = record {
  f = kernel 1;
  intercepted = 1;
  monitored = 1;
  listcount = 1;
  my_list = some (pos 10 ∷ []);
}

abbrev watching : Kernel
watching = kernel_with (λ i. watched)

abbrev watching_all : Kernel
watching_all = kernel_with (λ i. record watched { monitored = 2; listcount = 0; my_list = some [] })

abbrev root : Env
root = record { current_pid = pos 10; current_uid = 0; pid_task = λ pid. some 0; kmalloc = true }

abbrev after : {A : Type 0} → Outcome A → Kernel
after (done a k) = k
after (fault e) = fresh

IsQuiet-with : (t : ℕ → MyTable) → IsQuiet (kernel_with t)
IsQuiet-with t = record { table_free = refl; calls_free = refl; present = refl; protected = refl }

abbrev loaded_kernel : Kernel
loaded_kernel = after (init_function 4 2 fresh)

loaded_done : init_function 4 2 fresh ≡ done (pos 0) loaded_kernel
unfolding init_function
loaded_done = refl

abbrev intercepting : Kernel
intercepting = after (my_syscall 4 root (pos 1) (pos 1) (pos 0) loaded_kernel)

intercepting_done :
    my_syscall 4 root (pos 1) (pos 1) (pos 0) loaded_kernel ≡ done (pos 0) intercepting
unfolding init_function my_syscall guarded
intercepting_done = refl

one≢four : pos 1 ≢ pos 4
one≢four e = cc

Session-restores_example :
    (k' : Kernel) × (exit_function 4 2 root intercepting ≡ done tt k')
    × IsQuiet k'
    × ((i : ℕ) → i < 4 → k'.sys_call_table i ≡ kernel i)
Session-restores_example =
    Session-restores (IsQuiet-with (λ i. unused)) (omega arith) (omega arith) intercepting root
      (called root (pos 1) (pos 1) (pos 0) (pos 0) 0 (loaded (pos 0) loaded_done) refl one≢four
        intercepting_done)
      refl

my_syscall_total_example :
    (r : ℤ) × (k' : Kernel) × (my_syscall 4 root (pos 3) (pos 1) (pos 0) watching ≡ done r k')
    × IsQuiet k'
    × IsReady 4 k'
my_syscall_total_example =
    my_syscall_total 4 root (pos 3) (pos 1) (pos 0) watching (IsQuiet-with (λ i. watched)) 0 refl
      (λ i h. (_, refl)) one≢four

abbrev refused_kernel : Kernel
refused_kernel = after (my_syscall 4 root (pos 2) (pos 1) (pos 0) idle)

refused_done : my_syscall 4 root (pos 2) (pos 1) (pos 0) idle ≡ done (negsuc 21) refused_kernel
unfolding my_syscall guarded
refused_done = refl

refused_code : negsuc 21 ≢ pos 0
refused_code e = cc

my_syscall_atomic_example : refused_kernel ≡ idle
my_syscall_atomic_example =
    my_syscall_atomic 4 root (pos 2) (pos 1) (pos 0) idle
      (IsQuiet-with (λ i. record unused { my_list = some [] })) 0 refl (λ i h. (_, refl)) one≢four
      (negsuc 21) refused_kernel refused_done refused_code

abbrev started : Kernel
started = after (my_syscall 4 root (pos 3) (pos 1) (pos 11) watching)

started_done : my_syscall 4 root (pos 3) (pos 1) (pos 11) watching ≡ done (pos 0) started
unfolding my_syscall guarded
started_done = refl

watched-IsListed : IsListed (pos 10 ∷ []) watched
watched-IsListed = record {
  here = refl;
  counted = refl;
  distinct = (refl, tt);
  real = refl;
  mode = omega arith;
  none_watched = λ e. cc;
  some_watched = λ e n. cc;
}

watched-IsShort : IsShort watched
watched-IsShort l e = ground arith

my_syscall-IsSound_example : IsSound (started.table 1)
my_syscall-IsSound_example =
    my_syscall-IsSound 4 root (pos 3) (pos 1) (pos 11) watching (IsQuiet-with (λ i. watched)) 0 refl
      (λ i h. (_, refl)) one≢four (pos 0) started 1 started_done (pos 10 ∷ [], watched-IsListed)
      watched-IsShort

exit_group_clears_example :
    (k' : Kernel) × (my_exit_group 4 root watching ≡ done (kernel 2) k')
    × ((m : List ℤ) × IsListed m (k'.table 1) × IsWithout (pos 10) (pos 10 ∷ []) m)
exit_group_clears_example =
    exit_group_clears 4 root watching (λ i h. (_, refl)) 1 (pos 10 ∷ []) (omega arith) (omega arith)
      watched-IsListed (omega arith)

interceptor_lem_example :
    interceptor root 1 (7 ∷ []) watching
    ≡ done (kernel 1) (record watching { log = line_of root 1 (7 ∷ []) ∷ [] })
interceptor_lem_example =
    interceptor_lem root 1 (7 ∷ []) watching (pos 10 ∷ []) (IsQuiet-with (λ i. watched)) refl

start_never_resumes_example :
    my_syscall 4 root (pos 3) (pos 1) (pos 10) watching_all ≢ done (pos 0) watching
start_never_resumes_example =
    start_never_resumes 4 root 1 (pos 10) watching_all [] watching
      (IsQuiet-with (λ i. watching_all.table i)) refl refl

abbrev stopped : Kernel
stopped = after (my_syscall 4 root (pos 4) (pos 1) (pos 10) watching_all)

stopped_done : my_syscall 4 root (pos 4) (pos 1) (pos 10) watching_all ≡ done (pos 0) stopped
unfolding my_syscall guarded
stopped_done = refl

ten≢zero : pos 10 ≢ pos 0
ten≢zero e = cc

stop_does_not_mute_example :
    interceptor root 1 [] stopped
    ≡ done (kernel 1) (record stopped { log = line_of root 1 [] ∷ [] })
stop_does_not_mute_example =
    stop_does_not_mute 4 root root 1 (pos 10) [] watching_all [] stopped
      (IsQuiet-with (λ i. watching_all.table i)) refl refl ten≢zero refl stopped_done

last_index_crashes_example :
    (k1 : Kernel) × (k2 : Kernel) × (init_function 4 2 fresh ≡ done (pos 0) k1)
    × (my_syscall 4 root (pos 1) (pos 4) (pos 10) k1 ≡ done (pos 0) k2)
    × (my_syscall 4 root (pos 3) (pos 4) (pos 0) k2 ≡ fault null_pointer)
last_index_crashes_example =
    last_index_crashes 4 2 root (pos 10) fresh (IsQuiet-with (λ i. fresh.table i)) (omega arith)
      (omega arith) refl refl refl refl
