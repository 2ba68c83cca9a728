-- ===== src/Interceptor/Restore/Unload.antt =====
-- `exit_function`.
use csc369_operating_systems.Base.{
  ◌∙◌, ap, ℕ, zero, suc, ◌+◌, ◌<◌, ◌≡◌, ◌≢◌, refl, arith, ℕ_discrete, update,
}
use csc369_operating_systems.Interceptor.Kernel.{bind, ◌>>◌, Outcome, M, Handler, Kernel, done, Env}
use csc369_operating_systems.Interceptor.Syscall.{guarded}
use csc369_operating_systems.Interceptor.Lifecycle.{
  exit_function, release_one, release_from, unhook,
}
use csc369_operating_systems.Interceptor.Effect.{IsQuiet, held, with_release}
use csc369_operating_systems.Interceptor.Restore.{IsLoaded}

-- One step that returns, then the rest.
then_lem :
    {B : Type 0} (m : M (Unit {0})) (g : M B) (k k1 : Kernel) (o : Outcome B)
    → m k ≡ done tt k1
    → g k1 ≡ o
    → (m >> g) k ≡ o
then_lem m g k k1 o p q = ap (λ x. bind x (λ _. g)) p ∙ q

module _ (nr_syscalls nr_exit_group : ℕ) (orig : ℕ → Handler) where
  unhook_lem :
      (k : Kernel)
      → IsQuiet k
      → unhook nr_exit_group k
        ≡ done tt (record k {
          sys_call_table =
              update
                (update k.sys_call_table 0 k.orig_custom_syscall)
                nr_exit_group
                k.orig_exit_group;
        })
  unfolding unhook
  unhook_lem k q = ground arith

  release_one_lem :
      (e : Env) (y : ℕ) (k : Kernel)
      → IsQuiet k
      → e.current_uid ≡ 0
      → 0 < y
      → y < nr_syscalls
      → (k.table y).intercepted ≡ 1
      → release_one nr_syscalls e y (held k) ≡ done tt (held (with_release y k))
  unfolding release_one guarded
  release_one_lem e zero k q root positive below caught = absurd (omega arith)
  release_one_lem e (suc y) k q root positive below caught = ground arith

  release_one_skip :
      (e : Env) (y : ℕ) (k : Kernel)
      → (k.table y).intercepted ≢ 1
      → release_one nr_syscalls e y (held k) ≡ done tt (held k)
  unfolding release_one
  release_one_skip e y k h = ground arith

  -- Releasing keeps the module loaded, and frees the entry.
  release-IsLoaded :
      (y : ℕ) (k : Kernel)
      → y < nr_syscalls
      → (k.table y).intercepted ≡ 1
      → IsLoaded nr_syscalls nr_exit_group orig k
      → IsLoaded nr_syscalls nr_exit_group orig (with_release y k)
  release-IsLoaded y k below caught v = record {
    quiet = ground arith;
    ready = λ i lt. let (l, here) = v.ready i lt in (l, ground arith);
    custom = v.custom;
    exit = v.exit;
    linked = λ i lt. ground (arith, v.linked i lt, v.linked y below);
  }

  -- The loop of `exit_function`, from a state in which the entries below `y` are free.
  release_from_lem :
      (e : Env) (n y : ℕ) (k : Kernel)
      → e.current_uid ≡ 0
      → y + n ≡ nr_syscalls
      → IsLoaded nr_syscalls nr_exit_group orig k
      → ((i : ℕ) → i < y → (k.table i).intercepted ≡ 0)
      → (k' : Kernel) × (release_from nr_syscalls e n y (held k) ≡ done tt (held k'))
        × IsLoaded nr_syscalls nr_exit_group orig k'
        × ((i : ℕ) → i < nr_syscalls → (k'.table i).intercepted ≡ 0)
  unfolding release_from
  release_from_lem e zero y k root end v free = (k, refl, v, λ i lt. free i (omega arith))
  release_from_lem e (suc n) y k root end v free = elim (ℕ_discrete (k.table y).intercepted 1) [
    | yes caught ↦
        let positive : 0 < y = ground (arith, v.linked y (omega arith)) in
        let (k', ret, v', free') =
          release_from_lem e n (y + 1) (with_release y k) root (omega arith)
            (release-IsLoaded y k (omega arith) caught v) (λ i lt. ground (arith, free i)) in
        (
          k',
          then_lem (release_one nr_syscalls e y) (release_from nr_syscalls e n (y + 1)) (held k)
              (held (with_release y k)) _
              (release_one_lem e y k v.quiet root positive (omega arith) caught) ret,
          v',
          free',
        )
    | no other ↦
        let (k', ret, v', free') =
          release_from_lem e n (y + 1) k root (omega arith) v
            (λ i lt. ground (arith, free i, v.linked y)) in
        (
          k',
          then_lem (release_one nr_syscalls e y) (release_from nr_syscalls e n (y + 1)) (held k)
              (held k) _ (release_one_skip e y k other) ret,
          v',
          free',
        )
  ]

  -- The table after `exit_function`.
  abbrev restored : Kernel → Kernel
  restored k = record k {
    sys_call_table =
        update (update k.sys_call_table 0 k.orig_custom_syscall) nr_exit_group k.orig_exit_group;
  }

  exit_function_eq :
      (e : Env) (k k' : Kernel)
      → IsQuiet k
      → release_from nr_syscalls e nr_syscalls 0 (held k) ≡ done tt (held k')
      → IsQuiet k'
      → exit_function nr_syscalls nr_exit_group e k ≡ done tt (restored k')
  unfolding exit_function
  exit_function_eq e k k' q ret q' = ground (arith, unhook_lem k' q')

  -- Unloading by root puts the original functions back.
  pub unload_restores :
      (e : Env) (k : Kernel)
      → e.current_uid ≡ 0
      → IsLoaded nr_syscalls nr_exit_group orig k
      → (k' : Kernel) × (exit_function nr_syscalls nr_exit_group e k ≡ done tt k')
        × IsQuiet k'
        × ((i : ℕ) → i < nr_syscalls → k'.sys_call_table i ≡ orig i)
  unload_restores e k root v =
      let (k', ret, v', free) =
        release_from_lem e nr_syscalls 0 k root (omega arith) v (λ i lt. absurd (omega arith)) in
      (
        restored k',
        exit_function_eq e k k' v.quiet ret v'.quiet,
        ground arith,
        λ i lt. ground (arith, v'.linked i lt, free i lt, v'.custom, v'.exit),
      )
