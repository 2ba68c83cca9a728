-- ===== src/Interceptor/PidList.antt =====
-- Assignment1/interceptor.c: the lists of monitored pids.
use csc369_operating_systems.Base.{
  ℕ, zero, suc, ◌+◌, ◌-◌, ◌%◌, ◌^◌, Bool, true, false, ◌&&◌, List, [], ◌∷◌, Option, none, some, ℤ,
  pos, negsuc, ◌==ℤ◌, if◌then◌else◌, ◌==◌,
}
use csc369_operating_systems.Interceptor.Kernel.{
  MyTable, null_pointer, done, fault, M, pure, crash, bind, ◌>>=◌, ◌>>◌, put_entry, Env,
}

-- Error codes of asm/errno.h, negated.
abbrev pub eperm : ℤ
eperm = negsuc 0

abbrev pub enomem : ℤ
enomem = negsuc 11

abbrev pub ebusy : ℤ
ebusy = negsuc 15

abbrev pub einval : ℤ
einval = negsuc 21

-- `listcount++` and `listcount--` on an `int`.
abbrev pub count_up : ℕ → ℕ
count_up c = (c + 1) % 2 ^ 32

abbrev pub count_down : ℕ → ℕ
count_down c = (c + (2 ^ 32 - 1)) % 2 ^ 32

-- `monitored` falls from 1 to 0 when the list has become empty.
abbrev pub settle : ℕ → ℕ → ℕ
settle count monitored = if (count == 0) && (monitored == 1) then 0 else monitored

-- To walk a list from a head that is not initialised is to follow a null pointer.
unfoldable pub walk : ℕ → M (List ℤ)
walk s k = elim (k.table s).my_list [ none ↦ fault null_pointer | some l ↦ done l k ]

unfoldable pub add_pid : ℤ → List ℤ → MyTable → MyTable
add_pid pid l t = record t { my_list = some (pid ∷ l); listcount = count_up t.listcount }

unfoldable pub add_pid_sysc : Env → ℤ → ℕ → M ℤ
unfolding walk add_pid put_entry
add_pid_sysc e pid s =
    if e.kmalloc
    then (do l ← walk s; (λ k. put_entry s (add_pid pid l (k.table s)) k); pure (pos 0))
    else pure enomem

-- The list without the first node that holds the pid.
unfoldable pub unlink : ℤ → List ℤ → Option (List ℤ)
unlink pid [] = none
unlink pid (x ∷ l) =
    let rest = unlink pid l in
    if x ==ℤ pid then some l else (elim rest [ none ↦ none | some r ↦ some (x ∷ r) ])

unfoldable pub del_entry : List ℤ → MyTable → MyTable
del_entry l t = record t {
  my_list = some l;
  listcount = count_down t.listcount;
  monitored = settle (count_down t.listcount) t.monitored;
}

unfoldable pub del_pid_sysc : ℤ → ℕ → M ℤ
unfolding walk unlink del_entry put_entry
del_pid_sysc pid s = walk s >>= λ l. elim (unlink pid l) [
  | none ↦ pure einval
  | some r ↦ do (λ k. put_entry s (del_entry r (k.table s)) k); pure (pos 0)
]

-- The inner loop of `del_pid`: the entry after the nodes of the list that hold the pid are unlinked,
-- and whether there was one.
unfoldable pub purge : ℤ → List ℤ → MyTable → List ℤ × MyTable × Bool
purge pid [] t = ([], t, false)
purge pid (x ∷ l) t =
    let hit = x ==ℤ pid in
    let c = if hit then count_down t.listcount else t.listcount in
    let m = if hit then settle c t.monitored else t.monitored in
    let (rest, t', found) = purge pid l (record t { listcount = c; monitored = m }) in
    if hit then (rest, t', true) else (x ∷ rest, t', found)

-- The outer loop, `rounds` system calls from `s` on.
unfoldable pub del_pid_from : ℕ → ℕ → ℤ → Bool → M ℤ
unfolding walk purge put_entry
del_pid_from zero s pid ispid = pure (if ispid then pos 0 else negsuc 0)
del_pid_from (suc n) s pid ispid = walk s >>= λ l. λ k.
    let (rest, t, found) = purge pid l (k.table s) in
    let kept = record t { my_list = some rest } in
    let go = del_pid_from n (s + 1) pid (if found then true else ispid) in
    bind (put_entry s kept k) (λ _. go)

unfoldable pub del_pid : ℕ → ℤ → M ℤ
unfolding del_pid_from
del_pid nr_syscalls pid = del_pid_from (nr_syscalls - 1) 1 pid false

unfoldable pub clear_list : MyTable → MyTable
clear_list t = record t { my_list = some []; listcount = 0; monitored = 0 }

unfoldable pub destroy_list : ℕ → M (Unit {0})
unfolding walk clear_list put_entry
destroy_list s = walk s >>= λ l. λ k. put_entry s (clear_list (k.table s)) k

-- Whether the two pids have one owner. A pid with no task is a null pointer.
unfoldable pub check_pids_same_owner : Env → ℤ → ℤ → M ℤ
check_pids_same_owner e pid1 pid2 = elim (e.pid_task pid1) [
  | none ↦ crash null_pointer
  | some u1 ↦ elim (e.pid_task pid2) [
    | none ↦ crash null_pointer
    | some u2 ↦ if u1 == u2 then pure (pos 0) else pure eperm
  ]
]

-- Whether the list holds the pid.
abbrev pub has_pid : ℤ → List ℤ → Bool
has_pid pid [] = false
has_pid pid (x ∷ l) = if x ==ℤ pid then true else has_pid pid l

unfoldable pub check_pid_monitored : ℕ → ℤ → M ℤ
unfolding walk
check_pid_monitored s pid = do l ← walk s; pure (if has_pid pid l then pos 1 else pos 0)
