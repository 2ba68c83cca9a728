-- ===== src/Interceptor/Restore/Load.antt =====
-- `init_function`.
use csc369_operating_systems.Ext2.Image.{done}
use csc369_operating_systems.Base.{
  ℕ, zero, suc, ◌+◌, ◌<◌, ◌≡◌, ◌∙◌, ap, fun_ext, arith, [], if◌then◌else◌, ◌&&◌, ltb, leb, update,
  inl, pos,
}
use csc369_operating_systems.Interceptor.Kernel.{
  Handler, my_syscall_entry, my_exit_group_entry, MyTable, Kernel, done,
}
use csc369_operating_systems.Interceptor.Lifecycle.{init_function, reset_from, reset, hook}
use csc369_operating_systems.Interceptor.Effect.{IsQuiet, held}
use csc369_operating_systems.Interceptor.Restore.{IsLoaded}

module _ (nr_syscalls nr_exit_group : ℕ) where
  hook_lem :
      (k : Kernel)
      → IsQuiet k
      → 0 < nr_exit_group
      → hook nr_exit_group k
        ≡ done tt (record k {
          orig_custom_syscall = k.sys_call_table 0;
          orig_exit_group = k.sys_call_table nr_exit_group;
          sys_call_table =
              update (update k.sys_call_table 0 my_syscall_entry) nr_exit_group my_exit_group_entry;
        })
  unfolding hook
  hook_lem k q h = ground arith

  -- The metadata table after the loop of `init_function`.
  abbrev reset_table : ℕ → ℕ → (ℕ → MyTable) → ℕ → MyTable
  reset_table n x t i = if leb x i && ltb i (x + n) then reset (t i) else t i

  reset_from_lem :
      (n x : ℕ) (k : Kernel)
      → reset_from n x k ≡ done tt (record k { table = reset_table n x k.table })
  unfolding reset_from
  reset_from_lem zero x k =
      ap (λ (t : ℕ → MyTable). done tt (record k { table = t })) (fun_ext λ i. ground arith)
  reset_from_lem (suc n) x k =
      reset_from_lem n (x + 1) (record k { table = update k.table x (reset (k.table x)) })
      ∙ ap (λ (t : ℕ → MyTable). done tt (record k { table = t })) (fun_ext λ i. ground arith)

  -- Loading the module over the original table.
  pub init-IsLoaded :
      (orig : ℕ → Handler) (k : Kernel)
      → IsQuiet k
      → 0 < nr_exit_group
      → nr_exit_group < nr_syscalls
      → ((i : ℕ) → k.sys_call_table i ≡ orig i)
      → (k' : Kernel) × (init_function nr_syscalls nr_exit_group k ≡ done (pos 0) k')
        × IsLoaded nr_syscalls nr_exit_group orig k'
  unfolding init_function
  init-IsLoaded orig k q positive inside original =
      let k1 : Kernel = record k {
        orig_custom_syscall = k.sys_call_table 0;
        orig_exit_group = k.sys_call_table nr_exit_group;
        sys_call_table =
            update (update k.sys_call_table 0 my_syscall_entry) nr_exit_group my_exit_group_entry;
      } in
      (
        record k1 { table = reset_table nr_syscalls 0 k1.table },
        ground (arith, hook_lem k q positive, reset_from_lem nr_syscalls 0 (held k1)),
        record {
          quiet = ground arith;
          ready = λ i lt. ([], ground arith);
          custom = original 0;
          exit = original nr_exit_group;
          linked = λ i lt. inl (ground arith, ground (arith, original i));
        },
      )

  -- Loading the module returns 0 and does not touch the entry `nr_syscalls` of the metadata table.
  pub init-last_entry :
      (k : Kernel)
      → IsQuiet k
      → 0 < nr_exit_group
      → (k' : Kernel) × (init_function nr_syscalls nr_exit_group k ≡ done (pos 0) k')
        × IsQuiet k'
        × (k'.table nr_syscalls ≡ k.table nr_syscalls)
  unfolding init_function
  init-last_entry k q positive =
      let k1 : Kernel = record k {
        orig_custom_syscall = k.sys_call_table 0;
        orig_exit_group = k.sys_call_table nr_exit_group;
        sys_call_table =
            update (update k.sys_call_table 0 my_syscall_entry) nr_exit_group my_exit_group_entry;
      } in
      (
        record k1 { table = reset_table nr_syscalls 0 k1.table },
        ground (arith, hook_lem k q positive, reset_from_lem nr_syscalls 0 (held k1)),
        ground arith,
        ground arith,
      )
