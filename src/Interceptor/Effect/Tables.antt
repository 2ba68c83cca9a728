-- ===== src/Interceptor/Effect/Tables.antt =====
-- REQUEST_SYSCALL_INTERCEPT and REQUEST_SYSCALL_RELEASE, under the lock.
use csc369_operating_systems.Base.{ℕ, ◌≡◌, refl, ℤ, pos, ℕ_discrete, arith}
use csc369_operating_systems.Interceptor.Kernel.{Kernel, done, Env}
use csc369_operating_systems.Interceptor.PidList.{ebusy, einval}
use csc369_operating_systems.Interceptor.Syscall.{
  intercept, release, do_intercept, do_release, guarded,
}
use csc369_operating_systems.Interceptor.Effect.{
  IsQuiet, held, with_intercept, with_release, refused, intercepted, released, Returns,
}

do_intercept_lem :
    (s : ℕ) (k : Kernel) → IsQuiet k → do_intercept s (held k) ≡ done (pos 0) (with_intercept s k)
unfolding do_intercept
do_intercept_lem s k q = ground arith

do_release_lem :
    (s : ℕ) (k : Kernel) → IsQuiet k → do_release s (held k) ≡ done (pos 0) (with_release s k)
unfolding do_release
do_release_lem s k q = ground arith

module _ (e : Env) (s : ℕ) (pid : ℤ) (k : Kernel) (q : IsQuiet k) where
  pub intercept-Returns : Returns s pid k (guarded e intercept s pid)
  unfolding guarded
  intercept-Returns = elim (ℕ_discrete (k.table s).intercepted 0) [
    | yes p ↦
        (pos 0, with_intercept s k, ground (arith, do_intercept_lem s k q), intercepted refl p refl)
    | no p ↦ (ebusy, k, ground arith, refused (ground arith) refl)
  ]

  pub release-Returns : Returns s pid k (guarded e release s pid)
  unfolding guarded
  release-Returns = elim (ℕ_discrete (k.table s).intercepted 0) [
    | yes p ↦ (einval, k, ground arith, refused (ground arith) refl)
    | no p ↦ (pos 0, with_release s k, ground (arith, do_release_lem s k q), released refl p refl)
  ]
