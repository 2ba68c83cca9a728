-- ===== src/Interceptor/Effect/Context.antt =====
-- The tests that are made under the lock before the pid lists are changed.
use csc369_operating_systems.Base.{
  inr, inl, ◌&&◌, Bool-cases, ◌⊎◌, ℕ, ◌≡◌, ◌≢◌, true, false, List, Option, none, some, ℤ, pos,
  ℕ_discrete, arith, ◌==◌, ◌==ℤ◌,
}
use csc369_operating_systems.Interceptor.Kernel.{MyTable, Kernel, done, M}
use csc369_operating_systems.Interceptor.PidList.{ebusy, einval, has_pid}
use csc369_operating_systems.Interceptor.Syscall.{start_context, stop_context}

-- What the tests under the lock find: an error, or the facts that the command relies on.
abbrev pub Passed : Type 0 → Option ℤ → Type 0
Passed facts none = facts
Passed facts (some r) = r ≢ pos 0

abbrev pub Finds : Type 0 → Kernel → M (Option ℤ) → Type 0
Finds facts k m = (p : Option ℤ) × (m k ≡ done p k) × Passed facts p

module _ (s : ℕ) (pid : ℤ) (k : Kernel) (l : List ℤ) (ready : (k.table s).my_list ≡ some l) where
  abbrev pub t : MyTable
  t = k.table s

  pub start-Finds : Finds ((t.monitored ≢ 2) × (has_pid pid l ≡ false)) k (start_context s pid)
  unfolding start_context
  start-Finds = elim (Bool-cases ((pid ==ℤ pos 0) && (t.monitored == 2) && (t.listcount == 0))) [
    | inl all ↦ (some ebusy, rw all, ground arith)
    | inr not_all ↦ elim (ℕ_discrete t.monitored 2) [
      | yes m ↦ elim (Bool-cases (has_pid pid l)) [
        | inl h ↦ (some einval, ground arith, ground arith)
        | inr h ↦ (some ebusy, ground arith, ground arith)
      ]
      | no m ↦ elim (Bool-cases (has_pid pid l)) [
        | inl h ↦ (some ebusy, ground arith, ground arith)
        | inr h ↦ (none, ground arith, (m, h))
      ]
    ]
  ]

  pub stop-Finds :
      Finds
        (((t.monitored ≡ 2) × (has_pid pid l ≡ false) ⊎ (t.monitored ≢ 2) × (has_pid pid l ≡ true))
          × ((pid ≡ pos 0) → t.monitored ≢ 0))
        k
        (stop_context s pid)
  unfolding stop_context
  stop-Finds = elim (Bool-cases ((pid ==ℤ pos 0) && (t.monitored == 0))) [
    | inl idle ↦ (some einval, rw idle, ground arith)
    | inr busy ↦ elim (ℕ_discrete t.monitored 2) [
      | yes m ↦ elim (Bool-cases (has_pid pid l)) [
        | inl h ↦ (some einval, ground arith, ground arith)
        | inr h ↦ (none, ground arith, (ground arith, ground arith))
      ]
      | no m ↦ elim (Bool-cases (has_pid pid l)) [
        | inl h ↦ (none, ground arith, (ground arith, ground arith))
        | inr h ↦ (some einval, ground arith, ground arith)
      ]
    ]
  ]
