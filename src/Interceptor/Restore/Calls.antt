-- ===== src/Interceptor/Restore/Calls.antt =====
-- The calls that are made while the module is loaded.
use csc369_operating_systems.Interceptor.ExitGroup.{
  purged_hooks, my_exit_group_lem, with_table, purged-HasList, purged_table,
}
use csc369_operating_systems.Interceptor.Safety.{HasList, Effect-IsReady, Effect-IsQuiet}
use csc369_operating_systems.Interceptor.Effect.Calls.{
  my_syscall_outside, valid_syscall-some, my_syscall-Returns,
}
use csc369_operating_systems.Interceptor.PidList.{del_entry, add_pid, clear_list}
use csc369_operating_systems.Base.{
  ◌-◌, Bool-cases, sym, to_index, subst, Option-cases, ◌∙◌, ltb, ◌&&◌, leb, ℕ, ◌+◌, ◌<◌, ◌≡◌, ◌≢◌,
  List, some, ℤ, pos, arith, inl, inr,
}
use csc369_operating_systems.Interceptor.Kernel.{LogLine, Handler, MyTable, Kernel, done, Env}
use csc369_operating_systems.Interceptor.Syscall.{
  valid_syscall, my_syscall, interceptor, my_exit_group,
}
use csc369_operating_systems.Interceptor.Effect.{
  unwatch, mute, unwatch_all, watch, watch_all, Relisted, IsQuiet, Effect, refused, intercepted,
  released, relisted,
}
use csc369_operating_systems.Interceptor.Restore.{IsLinked, IsLoaded}

-- The pid lists have no part in what is intercepted.
Relisted-hooks :
    {pid : ℤ} {l : List ℤ} {t u : MyTable}
    → Relisted pid l t u
    → (u.intercepted ≡ t.intercepted) × (u.f ≡ t.f)
unfolding clear_list add_pid del_entry
Relisted-hooks (watch_all m e) = ground arith
Relisted-hooks (watch m h n e) = ground arith
Relisted-hooks (unwatch_all m e) = ground arith
Relisted-hooks (mute m h n e) = ground arith
Relisted-hooks (unwatch r m h e) = ground arith

Effect-saved :
    {s : ℕ} {pid : ℤ} {k : Kernel} {r : ℤ} {k' : Kernel}
    → Effect s pid k r k'
    → (k'.orig_custom_syscall ≡ k.orig_custom_syscall) × (k'.orig_exit_group ≡ k.orig_exit_group)
Effect-saved (refused p e) = ground arith
Effect-saved (intercepted p g e) = ground arith
Effect-saved (released p g e) = ground arith
Effect-saved (relisted l t p g m c e) = ground arith

interceptor_log :
    (e : Env) (ax : ℕ) (args : List ℕ) (k : Kernel) (h : Handler) (k' : Kernel)
    → IsQuiet k
    → interceptor e ax args k ≡ done h k'
    → (lines : List LogLine) × (k' ≡ record k { log = lines })
unfolding interceptor
interceptor_log e ax args k h k' q ret = (k'.log, ground arith)

purged_table-HasList :
    (pid : ℤ) (n s : ℕ) (t : ℕ → MyTable) (i : ℕ)
    → HasList (t i)
    → HasList (purged_table pid n s t i)
purged_table-HasList pid n s t i (l, here) = elim (Bool-cases (leb s i && ltb i (s + n))) [
  | inl inside ↦ let (m, there) = purged-HasList pid (t i) (l, here) in (m, rw inside there)
  | inr outside ↦ (l, rw outside here)
]

module _ (nr_syscalls nr_exit_group : ℕ) (orig : ℕ → Handler) where
  Effect-IsLinked :
      {s : ℕ} {pid : ℤ} {k : Kernel} {r : ℤ} {k' : Kernel}
      → Effect s pid k r k'
      → s ≢ 0
      → (i : ℕ) → IsLinked nr_syscalls nr_exit_group orig k s
      → IsLinked nr_syscalls nr_exit_group orig k i
      → IsLinked nr_syscalls nr_exit_group orig k' i
  Effect-IsLinked (refused p e) n i at v = rw e v
  Effect-IsLinked {s} (intercepted p g e) n i at v = ground arith
  Effect-IsLinked {s} (released p g e) n i at v = ground arith
  Effect-IsLinked {s} (relisted l t p g m c e) n i at v = ground (arith, Relisted-hooks c)

  pub call-IsLoaded :
      (e : Env) (cmd syscall pid : ℤ) (k : Kernel) (u : ℕ)
      → e.pid_task e.current_pid ≡ some u
      → syscall ≢ pos nr_syscalls
      → (r : ℤ) (k' : Kernel) → my_syscall nr_syscalls e cmd syscall pid k ≡ done r k'
      → IsLoaded nr_syscalls nr_exit_group orig k
      → IsLoaded nr_syscalls nr_exit_group orig k'
  call-IsLoaded e cmd syscall pid k u live inside r k' ret v =
      let (r2, k2, ret2, eff) =
        my_syscall-Returns nr_syscalls e cmd syscall pid k v.quiet u live v.ready inside in
      let same : k2 ≡ k' = ground arith in
      elim (Option-cases (valid_syscall nr_syscalls syscall)) [
        | inl outside ↦
            let stays : k ≡ k' =
              ground (arith, my_syscall_outside nr_syscalls e cmd syscall pid k outside) in
            subst (IsLoaded nr_syscalls nr_exit_group orig) stays v
        | inr (s, valid) ↦
            let (named, positive, below) = valid_syscall-some nr_syscalls syscall valid in
            let s_eq : to_index syscall ≡ s = rw named in
            let lt : s < nr_syscalls = ground arith in
            let eff' = subst (λ j. Effect j pid k r2 k2) s_eq eff in
            subst (IsLoaded nr_syscalls nr_exit_group orig) same (record {
              quiet = Effect-IsQuiet eff v.quiet;
              ready = Effect-IsReady nr_syscalls eff v.ready;
              custom = (Effect-saved eff).0 ∙ v.custom;
              exit = (Effect-saved eff).1 ∙ v.exit;
              linked =
                  λ i below_i. Effect-IsLinked eff' positive i (v.linked s lt) (v.linked i below_i);
            })
      ]

  -- `interceptor` writes only the log.
  pub interceptor-IsLoaded :
      (e : Env) (ax : ℕ) (args : List ℕ) (k : Kernel) (h : Handler) (k' : Kernel)
      → interceptor e ax args k ≡ done h k'
      → IsLoaded nr_syscalls nr_exit_group orig k
      → IsLoaded nr_syscalls nr_exit_group orig k'
  interceptor-IsLoaded e ax args k h k' ret v =
      let (lines, eq) = interceptor_log e ax args k h k' v.quiet ret in
      subst (IsLoaded nr_syscalls nr_exit_group orig) (sym eq) (record {
        quiet = ground arith;
        ready = v.ready;
        custom = v.custom;
        exit = v.exit;
        linked = v.linked;
      })

  -- `my_exit_group` writes only the pid lists.
  pub exit_group-IsLoaded :
      (e : Env) (k : Kernel) (h : Handler) (k' : Kernel)
      → my_exit_group nr_syscalls e k ≡ done h k'
      → IsLoaded nr_syscalls nr_exit_group orig k
      → IsLoaded nr_syscalls nr_exit_group orig k'
  exit_group-IsLoaded e k h k' ret v =
      let pid = e.current_pid in
      let t = purged_table pid (nr_syscalls - 1) 1 k.table in
      let same : with_table k t ≡ k' = ground (arith, my_exit_group_lem nr_syscalls e k v.ready) in
      subst (IsLoaded nr_syscalls nr_exit_group orig) same (record {
        quiet = ground arith;
        ready = λ i lt. purged_table-HasList pid (nr_syscalls - 1) 1 k.table i (v.ready i lt);
        custom = v.custom;
        exit = v.exit;
        linked = λ i lt. ground (arith, v.linked i lt, purged_hooks pid (k.table i));
      })
