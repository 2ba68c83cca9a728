-- ===== src/Interceptor/Effect/Lists.antt =====
-- REQUEST_START_MONITORING and REQUEST_STOP_MONITORING, once their tests are passed.
use csc369_operating_systems.Interceptor.Effect.Context.{Passed}
use csc369_operating_systems.Base.{
  ==ℤ_iff, inr, inl, Bool-cases, ◌⊎◌, ℕ, ◌≡◌, refl, ◌≢◌, true, false, List, [], ◌∷◌, Option, none,
  some, ℤ, pos, arith, ◌==ℤ◌,
}
use csc369_operating_systems.Interceptor.Kernel.{Kernel, done, Env}
use csc369_operating_systems.Interceptor.PidList.{
  enomem, add_pid, unlink, del_entry, clear_list, has_pid,
}
use csc369_operating_systems.Interceptor.Syscall.{
  start_monitoring, stop_monitoring, start_context, stop_context, guarded,
}
use csc369_operating_systems.Interceptor.Effect.{
  IsQuiet, held, with_entry, watch_all, watch, unwatch_all, mute, unwatch, refused, relisted,
  Returns,
}

module _ (e : Env) (s : ℕ) (pid : ℤ) (k : Kernel) (q : IsQuiet k) (l : List ℤ)
    (ready : (k.table s).my_list ≡ some l) (caught : (k.table s).intercepted ≢ 0) where
  pub start_lem :
      (p : Option ℤ)
      → start_context s pid (held k) ≡ done p (held k)
      → Passed (((k.table s).monitored ≢ 2) × (has_pid pid l ≡ false)) p
      → Returns s pid k (guarded e start_monitoring s pid)
  unfolding guarded
  start_lem (some r) eq bad = (r, k, ground arith, refused bad refl)
  start_lem none eq (m, h) = elim (Bool-cases (pid ==ℤ pos 0)) [
    | inl all ↦ (
      pos 0,
      with_entry s (record (clear_list (k.table s)) { monitored = 2 }) k,
      ground arith,
      relisted l _ refl caught ready (watch_all m refl) refl,
    )
    | inr one ↦ elim (Bool-cases e.kmalloc) [
      | inl memory ↦ (
        pos 0,
        with_entry s (record (add_pid pid l (k.table s)) { monitored = 1 }) k,
        ground arith,
        relisted l _ refl caught ready (watch m h (ground (arith, ==ℤ_iff pid (pos 0))) refl) refl,
      )
      | inr none_left ↦ (enomem, k, ground arith, refused (ground arith) refl)
    ]
  ]

  -- A pid that the list holds can be unlinked from it.
  unlink_of_has_pid : (m : List ℤ) → has_pid pid m ≡ true → (r : List ℤ) × (unlink pid m ≡ some r)
  unfolding unlink
  unlink_of_has_pid [] h = cc
  unlink_of_has_pid (x ∷ m) h = elim (Bool-cases (x ==ℤ pid)) [
    | inl here ↦ (m, rw here)
    | inr later ↦ let (r, eq) = unlink_of_has_pid m (rw later at h) in (x ∷ r, rw (later, eq))
  ]

  pub stop_lem :
      (p : Option ℤ)
      → stop_context s pid (held k) ≡ done p (held k)
      → Passed
          ((((k.table s).monitored ≡ 2) × (has_pid pid l ≡ false)
              ⊎ ((k.table s).monitored ≢ 2) × (has_pid pid l ≡ true))
            × ((pid ≡ pos 0) → (k.table s).monitored ≢ 0))
          p
      → Returns s pid k (guarded e stop_monitoring s pid)
  unfolding guarded
  stop_lem (some r) eq bad = (r, k, ground arith, refused bad refl)
  stop_lem none eq (mode, busy) = elim (Bool-cases (pid ==ℤ pos 0)) [
    | inl all ↦ (
      pos 0,
      with_entry s (clear_list (k.table s)) k,
      ground arith,
      relisted l _ refl caught ready (unwatch_all (busy ((==ℤ_iff pid (pos 0)).0 all)) refl) refl,
    )
    | inr one ↦ elim mode [
      | inl (m, h) ↦ elim (Bool-cases e.kmalloc) [
        | inl memory ↦ (
          pos 0,
          with_entry s (add_pid pid l (k.table s)) k,
          ground arith,
          relisted l _ refl caught ready (mute m h (ground (arith, ==ℤ_iff pid (pos 0))) refl) refl,
        )
        | inr none_left ↦ (enomem, k, ground arith, refused (ground arith) refl)
      ]
      | inr (m, h) ↦
          let (r, gone) = unlink_of_has_pid l h in
          (
            pos 0,
            with_entry s (del_entry r (k.table s)) k,
            ground arith,
            relisted l _ refl caught ready (unwatch r m gone refl) refl,
          )
    ]
  ]
