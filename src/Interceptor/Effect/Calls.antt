-- ===== src/Interceptor/Effect/Calls.antt =====
-- Every call of `my_syscall` returns, and has one of the effects of `Effect`.
use csc369_operating_systems.Interceptor.Effect.Context.{start-Finds, stop-Finds}
use csc369_operating_systems.Interceptor.Effect.Lists.{start_lem, stop_lem}
use csc369_operating_systems.Interceptor.Effect.Tables.{intercept-Returns, release-Returns}
use csc369_operating_systems.Base.{
  zero, negsuc, suc, ◌≤◌, to_index, Option-cases, ◌||◌, not, inr, inl, Bool-cases, ℕ, ◌≡◌, refl,
  ◌≢◌, Bool, true, false, List, Option, none, some, ℤ, pos, ℕ_discrete, arith, if◌then◌else◌, ◌==◌,
  ◌==ℤ◌,
}
use csc369_operating_systems.Interceptor.Kernel.{Kernel, done, Env}
use csc369_operating_systems.Interceptor.PidList.{check_pids_same_owner, eperm, einval}
use csc369_operating_systems.Interceptor.Syscall.{
  command, my_syscall, valid_syscall, bad_pid, monitors, permitted, request, Command, intercept,
  release, start_monitoring, stop_monitoring, guarded,
}
use csc369_operating_systems.Interceptor.Effect.{IsQuiet, held, refused, Returns, IsReady}

module _ (e : Env) (s : ℕ) (pid : ℤ) (k : Kernel) (q : IsQuiet k) where
  start-Returns :
      (l : List ℤ)
      → (k.table s).my_list ≡ some l
      → Returns s pid k (guarded e start_monitoring s pid)
  unfolding guarded
  start-Returns l ready = elim (ℕ_discrete (k.table s).intercepted 0) [
    | yes p ↦ (einval, k, ground arith, refused (ground arith) refl)
    | no p ↦
        let (o, eq, facts) = start-Finds s pid (held k) l ready in
        start_lem e s pid k q l ready p o eq facts
  ]

  stop-Returns :
      (l : List ℤ)
      → (k.table s).my_list ≡ some l
      → Returns s pid k (guarded e stop_monitoring s pid)
  unfolding guarded
  stop-Returns l ready = elim (ℕ_discrete (k.table s).intercepted 0) [
    | yes p ↦ (einval, k, ground arith, refused (ground arith) refl)
    | no p ↦
        let (o, eq, facts) = stop-Finds s pid (held k) l ready in
        stop_lem e s pid k q l ready p o eq facts
  ]

  -- What a command does under the lock, if its list is initialised where it needs one.
  pub guarded-Returns :
      (c : Command)
      → (monitors c ≡ true → (l : List ℤ) × ((k.table s).my_list ≡ some l))
      → Returns s pid k (guarded e c s pid)
  guarded-Returns intercept ready = intercept-Returns e s pid k q
  guarded-Returns release ready = release-Returns e s pid k q
  guarded-Returns start_monitoring ready = let (l, eq) = ready refl in start-Returns l eq
  guarded-Returns stop_monitoring ready = let (l, eq) = ready refl in stop-Returns l eq

  pub permitted_returns :
      (c : Command) (u : ℕ)
      → e.pid_task e.current_pid ≡ some u
      → bad_pid e c pid ≡ false
      → (b : Bool) × (permitted e c pid k ≡ done b k)
  unfolding permitted bad_pid check_pids_same_owner
  permitted_returns c u live fine = elim (Bool-cases (e.current_uid == 0)) [
    | inl root ↦ (true, rw root)
    | inr user ↦ elim (Bool-cases (not (monitors c) || (pid ==ℤ pos 0))) [
      | inl denied ↦ (false, rw (user, denied))
      | inr asks ↦ elim (Option-cases (e.pid_task pid)) [
        | inl gone ↦ (false, ground arith)
        | inr (owner, eq) ↦ ((if u == owner then pos 0 else eperm) ==ℤ pos 0, ground arith)
      ]
    ]
  ]

  pub request-Returns :
      (c : Command) (u : ℕ)
      → e.pid_task e.current_pid ≡ some u
      → (monitors c ≡ true → (l : List ℤ) × ((k.table s).my_list ≡ some l))
      → Returns s pid k (request e c s pid)
  unfolding request
  request-Returns c u live ready = elim (Bool-cases (bad_pid e c pid)) [
    | inl bad ↦ (einval, k, ground arith, refused (ground arith) refl)
    | inr fine ↦
        let (b, eq) = permitted_returns c u live fine in
        elim (Bool-cases b) [
          | inl allowed ↦
              let (r, k', ret, eff) = guarded-Returns c ready in (r, k', ground arith, eff)
          | inr denied ↦ (eperm, k, ground arith, refused (ground arith) refl)
        ]
  ]

pub valid_syscall-some :
    (nr_syscalls : ℕ) (syscall : ℤ) {s : ℕ}
    → valid_syscall nr_syscalls syscall ≡ some s
    → (syscall ≡ pos s) × (s ≢ 0) × (s ≤ nr_syscalls)
unfolding valid_syscall
valid_syscall-some nr_syscalls (pos zero) h = ground arith
valid_syscall-some nr_syscalls (pos (suc n)) h = ground arith
valid_syscall-some nr_syscalls (negsuc n) h = ground arith

module _ (nr_syscalls : ℕ) (e : Env) (cmd syscall pid : ℤ) (k : Kernel) (q : IsQuiet k) (u : ℕ)
    (live : e.pid_task e.current_pid ≡ some u) where
  my_syscall_go :
      (c : Command) (o : Option ℕ)
      → command cmd ≡ some c
      → valid_syscall nr_syscalls syscall ≡ o
      → IsReady nr_syscalls k
      → syscall ≢ pos nr_syscalls
      → Returns (to_index syscall) pid k (my_syscall nr_syscalls e cmd syscall pid)
  unfolding my_syscall
  my_syscall_go c none eqc eqs ready inside =
      (einval, k, rw (eqc, eqs, my_syscall), refused (ground arith) refl)
  my_syscall_go c (some s) eqc eqs ready inside =
      let (named, positive, below) = valid_syscall-some nr_syscalls syscall eqs in
      let (r, k', ret, eff) = request-Returns e s pid k q c u live (λ _. ready s (ground arith)) in
      (r, k', rw (eqc, eqs, my_syscall) ret, rw named eff)

  -- With the lists initialised, and off the index `NR_syscalls`, every call returns.
  pub my_syscall-Returns :
      IsReady nr_syscalls k
      → syscall ≢ pos nr_syscalls
      → Returns (to_index syscall) pid k (my_syscall nr_syscalls e cmd syscall pid)
  unfolding my_syscall
  my_syscall-Returns ready inside = elim (Option-cases (command cmd)) [
    | inl unknown ↦ (einval, k, rw (unknown, my_syscall), refused (ground arith) refl)
    | inr (c, known) ↦ my_syscall_go c (valid_syscall nr_syscalls syscall) known refl ready inside
  ]

-- A call that names no system call, or MY_CUSTOM_SYSCALL, is refused.
pub my_syscall_outside :
    (nr_syscalls : ℕ) (e : Env) (cmd syscall pid : ℤ) (k : Kernel)
    → valid_syscall nr_syscalls syscall ≡ none
    → my_syscall nr_syscalls e cmd syscall pid k ≡ done einval k
unfolding my_syscall
my_syscall_outside nr_syscalls e cmd syscall pid k h = elim (Option-cases (command cmd)) [
  | inl unknown ↦ rw (unknown, my_syscall)
  | inr (c, known) ↦ rw (known, h, my_syscall)
]

-- One that names no command is refused too.
pub my_syscall_unknown :
    (nr_syscalls : ℕ) (e : Env) (cmd syscall pid : ℤ) (k : Kernel)
    → command cmd ≡ none
    → my_syscall nr_syscalls e cmd syscall pid k ≡ done einval k
unfolding my_syscall
my_syscall_unknown nr_syscalls e cmd syscall pid k unknown = rw (unknown, my_syscall)

pub my_syscall_known :
    (nr_syscalls : ℕ) (e : Env) (cmd syscall pid : ℤ) (k : Kernel) (c : Command) (s : ℕ)
    → command cmd ≡ some c
    → valid_syscall nr_syscalls syscall ≡ some s
    → my_syscall nr_syscalls e cmd syscall pid k ≡ request e c s pid k
unfolding my_syscall
my_syscall_known nr_syscalls e cmd syscall pid k c s known valid = rw (known, valid, my_syscall)
