-- ===== src/Ext2/Restore/Undelete.antt =====
-- Assignment4: the entry of a file that ext2_rm has deleted is recovered by ext2_restore.
use csc369_operating_systems.Ext2.Reclaim.RoundTrip.{reclaim-unlink_inode, IsRestored, IsLastLink}
use csc369_operating_systems.Ext2.Alloc.{unlink_inode}
use csc369_operating_systems.Ext2.Reclaim.{reclaim_inode_and_data_blocks}
use csc369_operating_systems.Ext2.Restore.{hidden_by, unhide_deleted_entry, recover}
use csc369_operating_systems.Ext2.Remove.{entry_after, hide_entry, delete_at}
use csc369_operating_systems.Ext2.Image.{DirEntry, Disk, done, ◌>>◌, return, bind_done, ft_dir}
use csc369_operating_systems.Base.{
  ℕ_discrete, ℕ, suc, ◌+◌, ◌-◌, ◌*◌, ◌%◌, ◌^◌, ◌<◌, ◌≡◌, ◌≢◌, refl, sym, ◌∙◌, ap, subst, arith,
  false, some, if◌then◌else◌, ◌==◌, update, update_self, update_ne,
}

-- An entry of a file, behind another in its block.
pub record IsBehind (d : Disk) (prev pos i : ℕ) : Type 0 where
  pub has_inode : (d.entries pos).inode ≡ suc i
  pub is_file : (d.entries pos).file_type ≢ ft_dir
  pub is_next : prev + (d.entries prev).rec_len ≡ pos
  pub some_len : 0 < (d.entries prev).rec_len
  pub short : (d.entries prev).rec_len + (d.entries pos).rec_len < 2 ^ 16

module _ (d : Disk) (prev pos i : ℕ) (h : IsBehind d prev pos i) where
  abbrev longer : DirEntry
  longer = record (d.entries prev) {
    rec_len = ((d.entries prev).rec_len + (d.entries pos).rec_len) % 2 ^ 16;
  }

  -- The entries while the file is deleted.
  abbrev hidden : ℕ → DirEntry
  hidden = update d.entries prev longer

  apart : prev ≢ pos
  apart e = omega (arith, e, h.is_next, h.some_len)

  still_there : hidden pos ≡ d.entries pos
  still_there = update_ne d.entries prev pos longer apart

  is_no_dir : ((d.entries pos).file_type == ft_dir) ≡ false
  is_no_dir = ground (arith, h.is_file)

  delete_lem :
      (now : ℕ) (d1 : Disk)
      → unlink_inode now (suc i) d ≡ done d1 tt
      → d1.entries ≡ d.entries
      → delete_at now (entry_after (some prev) pos) d ≡ done (record d1 { entries = hidden }) 0
  unfolding delete_at hide_entry
  delete_lem now d1 unlinking same =
      let first : unlink_inode now (d.entries pos).inode d ≡ done d1 tt =
        ap (λ (n : ℕ). unlink_inode now n d) h.has_inode ∙ unlinking in
      rw is_no_dir (
        bind_done (λ _. hide_entry (some prev) pos >> return 0) first
        ∙ ap
            (λ (f : ℕ → DirEntry).
              done
                (record d1 {
                  entries =
                      update f prev (record (f prev) {
                        rec_len = ((f prev).rec_len + (f pos).rec_len) % 2 ^ 16;
                      });
                })
                0)
            same)

  -- The entries after the recovery.
  abbrev shown : (ℕ → DirEntry) → ℕ → DirEntry
  shown f =
      let with_pos : ℕ → DirEntry =
        update f pos
          (record (f pos) { rec_len = ((f prev).rec_len + 65535 * (pos - prev)) % 2 ^ 16 }) in
      update with_pos prev (record (with_pos prev) { rec_len = (pos - prev) % 2 ^ 16 })

  recover_lem :
      (d1 d2 : Disk)
      → d1.entries ≡ hidden
      → reclaim_inode_and_data_blocks (suc i) d1 ≡ done d2 0
      → d2.entries ≡ hidden
      → recover (hidden_by pos prev) d1 ≡ done (record d2 { entries = shown hidden }) 0
  unfolding recover unhide_deleted_entry
  recover_lem d1 d2 same reclaiming same2 =
      let here : d1.entries pos ≡ d.entries pos =
        ap (λ (f : ℕ → DirEntry). f pos) same ∙ still_there in
      let no_dir : ((d1.entries pos).file_type == ft_dir) ≡ false =
        ap (λ (e : DirEntry). e.file_type == ft_dir) here ∙ is_no_dir in
      let first : reclaim_inode_and_data_blocks (d1.entries pos).inode d1 ≡ done d2 0 =
        ap (λ (e : DirEntry). reclaim_inode_and_data_blocks e.inode d1) here
        ∙ ap (λ (n : ℕ). reclaim_inode_and_data_blocks n d1) h.has_inode
        ∙ reclaiming in
      rw no_dir (
        bind_done
          (λ result.
            if result == 0 then (unhide_deleted_entry pos prev >> return result) else return result)
          first
        ∙ ap (λ (f : ℕ → DirEntry). done (record d2 { entries = shown f }) 0) same2)

  shown_lem : (x : ℕ) → shown hidden x ≡ d.entries x
  shown_lem x =
      let prev_now : hidden prev ≡ longer = update_self d.entries prev longer in
      let r1 : ℕ = (d.entries prev).rec_len in
      let r2 : ℕ = (d.entries pos).rec_len in
      let fixed : DirEntry = record (hidden pos) {
        rec_len = ((hidden prev).rec_len + 65535 * (pos - prev)) % 2 ^ 16;
      } in
      let with_pos : ℕ → DirEntry = update hidden pos fixed in
      let last : DirEntry = record (with_pos prev) { rec_len = (pos - prev) % 2 ^ 16 } in
      elim (ℕ_discrete prev x) [
        | yes at_prev ↦
            let old : with_pos prev ≡ longer =
              update_ne hidden pos prev fixed (λ e. apart (sym e)) ∙ prev_now in
            let len : (pos - prev) % 2 ^ 16 ≡ r1 = omega (arith, h.is_next, h.short) in
            subst (λ (y : ℕ). shown hidden y ≡ d.entries y) at_prev
              (update_self with_pos prev last
                ∙ ap (λ (e : DirEntry). record e { rec_len = (pos - prev) % 2 ^ 16 }) old
                ∙ ap (λ (n : ℕ). record (d.entries prev) { rec_len = n }) len)
        | no off_prev ↦ update_ne with_pos prev x last off_prev ∙ elim (ℕ_discrete pos x) [
          | yes at_pos ↦
              let len : ((hidden prev).rec_len + 65535 * (pos - prev)) % 2 ^ 16 ≡ r2 =
                omega (arith, ap (λ (e : DirEntry). e.rec_len) prev_now, h.is_next, h.short) in
              subst (λ (y : ℕ). with_pos y ≡ d.entries y) at_pos
                (update_self hidden pos fixed
                  ∙ ap (λ (n : ℕ). record (hidden pos) { rec_len = n }) len
                  ∙ ap (λ (e : DirEntry). record e { rec_len = r2 }) still_there)
          | no off_pos ↦
              update_ne hidden pos x fixed off_pos ∙ update_ne d.entries prev x longer off_prev
        ]
      ]

-- For the entry of a file behind another entry, whose inode has one link, is in use, and has blocks in
-- use and all different: `delete_at` deletes the file and returns 0, and `recover` at this entry then
-- returns 0 and leaves every directory entry, both bitmaps, the four counters and the inode as they
-- were, but for one link and no deletion time.
pub recover-delete_at :
    (now : ℕ) (d : Disk) (prev pos i : ℕ)
    → IsBehind d prev pos i
    → IsLastLink d i
    → (d1 : Disk) × (d2 : Disk) × (delete_at now (entry_after (some prev) pos) d ≡ done d1 0)
      × (recover (hidden_by pos prev) d1 ≡ done d2 0)
      × ((x : ℕ) → d2.entries x ≡ d.entries x)
      × IsRestored d d2
      × (d2.inode_table i ≡ record (d.inode_table i) { i_links_count = 1; i_dtime = 0 })
recover-delete_at now d prev pos i h last =
    let (d1, d2, unlinking, same, free, blocks_free, reclaiming, same2, r, node) =
      reclaim-unlink_inode now i d (hidden d prev pos i h) last in
    (
      record d1 { entries = hidden d prev pos i h },
      record d2 { entries = shown d prev pos i h (hidden d prev pos i h) },
      delete_lem d prev pos i h now d1 unlinking same,
      recover_lem d prev pos i h (record d1 { entries = hidden d prev pos i h }) d2 refl reclaiming
          same2,
      shown_lem d prev pos i h,
      record {
        same_inode_bits = r.same_inode_bits;
        same_block_bits = r.same_block_bits;
        same_free_inodes = r.same_free_inodes;
        same_group_inodes = r.same_group_inodes;
        same_free_blocks = r.same_free_blocks;
        same_group_blocks = r.same_group_blocks;
      },
      node,
    )
