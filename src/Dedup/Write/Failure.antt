-- ===== src/Dedup/Write/Failure.antt =====
-- write_dedup where a transfer to the master file may fail.
use dedup_block_fs.Base.{
  ℕ, ◌+◌, ◌*◌, ◌^◌, ◌≤◌, ◌<◌, ◌≡◌, refl, sym, ap, ◌∙◌, subst, inl, inr, ◌⊎◌, true, Bool-cases,
  Option-cases, some, List, [], count, length, arith,
}
use dedup_block_fs.Base.Int.{ℤ, is_neg, to_int}
use dedup_block_fs.Keys.{FilePath, BlockIndice, block_indice_key, bytes_key}
use dedup_block_fs.Table.{lookup, holders}
use dedup_block_fs.Index.{Index, Ptr, indice, lookup_by_file_block}
use dedup_block_fs.Index.Inv.{Inv, Published, live-lt-next, rewrite_slots}
use dedup_block_fs.System.{System, Block, Buffer, block_size}
use dedup_block_fs.View.{block_behind, content}
use dedup_block_fs.Dedup.Plan.{PlanEntry}
use dedup_block_fs.Dedup.Plan.Entries.{slots_of, pend_of, Fresh-Unlisted}
use dedup_block_fs.Dedup.Flush.Runs.{max_slot}
use dedup_block_fs.Dedup.Rollback.{rollback_allocations}
use dedup_block_fs.Dedup.Rollback.Undo.{Undone}
use dedup_block_fs.Dedup.Rollback.Whole.{Anchored, rollback-Undone}
use dedup_block_fs.Dedup.Write.{Store, flush_and_commit, write_dedup}
use dedup_block_fs.Dedup.Write.Lay.{Laid, lay-Laid}
use dedup_block_fs.Dedup.Write.Slots.{SlotsKept, laid-SlotsKept}
use dedup_block_fs.Index.Slots.{Stays-NoLeak}
use dedup_block_fs.Dedup.Write.Correct.{
  Wrote, flushed, flushed-frame, commit-Wrote, write_dedup-runs,
}

module _ (os : System) (U : Block → Type 0) (path : FilePath) (buf : Buffer) (start n : ℕ) where
  open os use {Disk, block}

  -- The store after a write that failed.
  pub record Restored (st st' : Store Disk) : Type 0 where
    pub inv : Inv os U st'.disk st'.next_block_index [] [] [] st'.index
    pub contents :
        (path' : FilePath) (b : ℕ)
        → content os st'.disk st'.index path' b ≡ content os st.disk st.index path' b
    pub sizes : st'.index.file_to_sizes ≡ st.index.file_to_sizes
    pub slots : SlotsKept st st'

  module _ (st st1 : Store Disk) (plan : List PlanEntry)
      (v : Inv os U st.disk st.next_block_index [] [] [] st.index)
      (l : Laid os U buf start n st plan st1) where
    anchored : Anchored st1.index (pend_of plan)
    anchored p m live = elim (l.inv.owned p m live) [
      | inr pending ↦ omega arith
      | inl listed ↦
          let (m0, s0, same) =
            v.hashed m.hash p (subst (λ t. lookup m.hash t ≡ some p) l.hash_same listed) in
          subst (λ t. 0 < holders p t + count p (pend_of plan)) (sym l.file_same)
            (omega (arith, v.counted p m0 s0.live, v.positive p m0 s0.live))
    ]

    module _ (d' : Disk) (ix' : Index)
        (same : (s : ℕ) → count s (slots_of plan) ≡ 0 → block d' s ≡ block st1.disk s)
        (w : Inv os U d' st1.next_block_index [] [] [] ix') (u : Undone st1.index ix') where
      kept_block :
          (path' : FilePath) (b : ℕ) (p : Ptr)
          → lookup (indice path' b) st.index.file_to_master ≡ some p
          → lookup (indice path' b) ix'.file_to_master ≡ some p
          → content os d' ix' path' b ≡ content os st.disk st.index path' b
      unfolding content block_behind lookup_by_file_block
      kept_block path' b p e e' =
          let (m0, s0) = v.linked (indice path' b) p e in
          let below = live-lt-next os U p m0 v s0.live in
          let (m', s') = w.linked (indice path' b) p e' in
          let (m1, live1, slot1, hash1) = u.keeps st.index.next_info p m' below s'.live in
          let (m2, live2, slot2, hash2) = l.keeps p m1 below live1 in
          let shown : Published st1.index p m1 = record {
            live = live1;
            listed = ground (arith, l.hash_same, s0.listed, s0.live, live2, hash2);
          } in
          let used = l.inv.slot_used p m1 shown in
          let kept : block d' m1.master_block_index ≡ block st.disk m1.master_block_index =
            same m1.master_block_index (omega (arith, used))
            ∙ ap (λ d. block d m1.master_block_index) l.disk_same in
          ground (arith, e, e', s'.live, slot1, slot2, s0.live, live2, kept)

      kept_content :
          (path' : FilePath) (b : ℕ)
          → content os d' ix' path' b ≡ content os st.disk st.index path' b
      unfolding content block_behind lookup_by_file_block
      kept_content path' b =
          let k : BlockIndice = indice path' b in
          let untouched : lookup k ix'.file_to_master ≡ lookup k st.index.file_to_master =
            ap (lookup k) (u.file_same ∙ l.file_same) in
          elim (Option-cases (lookup k st.index.file_to_master)) [
            | inl e ↦ rw (untouched, e) refl
            | inr (p, e) ↦ kept_block path' b p e (untouched ∙ e)
          ]

    failed-runs :
        (ix' : Index)
        → is_neg (flushed os U path buf start n st1.disk plan).0 ≡ true
        → rollback_allocations plan st1.index ≡ some ix'
        → flush_and_commit os path buf start n plan st1
          ≡ some (
            (flushed os U path buf start n st1.disk plan).0,
            record st1 { index = ix'; disk = (flushed os U path buf start n st1.disk plan).1 },
          )
    unfolding flush_and_commit
    failed-runs ix' bad run = rw (bad, run) refl

    failed-Restored :
        is_neg (flushed os U path buf start n st1.disk plan).0 ≡ true
        → st.next_block_index + n ≤ max_slot
        → (rc : ℤ) × (st' : Store Disk) × (flush_and_commit os path buf start n plan st1
            ≡ some (rc, st'))
          × (is_neg rc ≡ true)
          × Restored st st'
    failed-Restored bad bound =
        let (rc, d') = flushed os U path buf start n st1.disk plan in
        let same = flushed-frame os U path buf start n st st1 plan l bound in
        let w = rewrite_slots os U d' (λ s z. same s z ∙ ap (λ d. block d s) l.disk_same) l.inv in
        let (ix', run, v', u, back) =
          rollback-Undone os U d' st1.next_block_index st.index.next_info plan st1.index w anchored
            l.rising (Fresh-Unlisted st1.index.hash_to_master plan l.fresh) l.places in
        (
          rc,
          record st1 { index = ix'; disk = d' },
          failed-runs ix' bad run,
          bad,
          record {
            inv = v';
            contents = kept_content d' ix' same v' u;
            sizes = u.sizes_same ∙ l.sizes_same;
            slots =
                laid-SlotsKept os U buf start n st st1 plan v l
                  (record st1 { index = ix'; disk = d' }) refl
                  (Stays-NoLeak st1.index ix' (slots_of plan) [] (λ s. omega (arith, back s))
                    u.stays);
          },
        )

  -- On a well-formed index, a write of `n` whole blocks at a block boundary, where no other call is
  -- under way and no count and no index runs out of range, does not fault, whatever the transfers
  -- to the master file do. Either it returns the size and the blocks are written, or it returns an
  -- error: then the index is well formed, and every block and every size of every file is as
  -- before. Either way no slot is lost: a slot of the master file, as it has grown, is on the free
  -- list or has the block of a published MasterInfo, if that held of it before or it is new.
  pub write_dedup-Restored :
      (st : Store Disk)
      → Inv os U st.disk st.next_block_index [] [] [] st.index
      → ((i : ℕ) → i < n → U (buf i))
      → 0 < n
      → length st.index.file_to_master + n < 2 ^ 32
      → st.next_block_index + n ≤ max_slot
      → (start + n) * block_size < 2 ^ 64
      → (rc : ℤ) × (st' : Store Disk) × (write_dedup os st path buf
            (n * block_size)
            (start * block_size)
          ≡ some (rc, st'))
        × ((rc ≡ to_int (n * block_size)) × Wrote os U path buf start n st st'
            ⊎ (is_neg rc ≡ true) × Restored st st')
  write_dedup-Restored st v u some_blocks count slots room =
      let (plan, st1, run, l) = lay-Laid os U buf start n st v count (omega arith) in
      let runs = write_dedup-runs os U path buf start n st st1 plan some_blocks run in
      elim (Bool-cases (is_neg (flushed os U path buf start n st1.disk plan).0)) [
        | inl bad ↦
            let (rc, st', run', neg, r) = failed-Restored st st1 plan v l bad slots in
            (rc, st', runs ∙ run', inr (neg, r))
        | inr fine ↦
            let (st', run', w) =
              commit-Wrote os U path buf start n st st1 plan v fine l u slots room in
            (to_int (n * block_size), st', runs ∙ run', inl (refl, w))
      ]
