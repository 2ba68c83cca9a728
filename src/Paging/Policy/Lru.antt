-- ===== src/Paging/Policy/Lru.antt =====
-- Assignment3/lru.c. `queue` is the list from `head_of_lru` to `tail_of_lru`.
pub mod Queue
pub mod Recency
pub mod Oldest
use csc369_operating_systems.Ext2.Image.{
  SuperBlock, GroupDesc, Inode, DirEntry, Disk, Result, done, exited, undefined, Program, ◌>>=◌,
  ◌>>◌, return, exit, crash, reading, writing, inode_index, put_inode, put_entry, block_size,
  enoent, enomem, eexist, eisdir,
}
use csc369_operating_systems.Base.{
  has_bit-clear_bit, has_bit-set_bit, length-set, get_or_of_get_elem?, get_or-set_ne,
  get_or-set_self, lt_of_get_elem?, ℕ_discrete, dec_lt, dec_le, get_elem?_of_lt, ℕ, zero, suc, ◌+◌,
  ◌-◌, ◌*◌, ◌/◌, ◌%◌, ◌^◌, ◌≤◌, ◌<◌, ◌≡◌, ◌≢◌, refl, sym, ◌∙◌, ap, subst, fun_ext, arith, Bool,
  true, false, Option, none, some, List, [], ◌∷◌, ◌++◌, if◌then◌else◌, ◌==◌, ◌&&◌, ◌||◌, not, ltb,
  leb, has_bit, set_bit, clear_bit, get_elem?, set, get_or, length, take, drop, update, ◌⊎◌, inl,
  inr, ◌↔◌, Bool-cases, Option-cases, tests, get_or-replicate, length-replicate, update_self,
  replicate,
}
use csc369_operating_systems.Paging.Policy.{Policy}

pub record Lru : Type 0 where
  pub queue : List ℕ
  pub referenced : List Bool

-- The node at the head holds the victim. `none`: the queue is empty, or `referenced` does not agree.
unfoldable pub lru_evict : Lru → Option (ℕ × Lru)
lru_evict s = elim s.queue [
  | [] ↦ none
  | frame ∷ rest ↦
      if get_or s.referenced frame false
      then some (frame, record { queue = rest; referenced = set s.referenced frame false })
      else none
]

-- The walk from the head to the first node of the frame, which is unlinked. Past the end is a null
-- pointer.
unfoldable pub drop_first : ℕ → List ℕ → Option (List ℕ)
drop_first frame [] = none
drop_first frame (x ∷ queue) =
    let rest = drop_first frame queue in
    if x == frame then some queue else (elim rest [ none ↦ none | some q ↦ some (x ∷ q) ])

-- A frame that is referenced gets a new node at the tail before its first node is unlinked. With an
-- empty queue `tail_of_lru` is a null pointer.
unfoldable pub lru_ref : ℕ → Lru → Option Lru
unfolding drop_first
lru_ref frame s =
    let queue = s.queue ++ (frame ∷ []) in
    if get_or s.referenced frame false
    then (elim s.queue [
      | [] ↦ none
      | x ∷ rest ↦ elim (drop_first frame queue) [
        | none ↦ none
        | some q ↦ some (record s { queue = q })
      ]
    ])
    else some (record { queue = queue; referenced = set s.referenced frame true })

unfoldable pub lru_init : ℕ → Lru
lru_init memsize = record { queue = []; referenced = replicate memsize false }
