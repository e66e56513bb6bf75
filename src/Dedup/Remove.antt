-- ===== src/Dedup/Remove.antt =====
-- src/dedup.c, remove_block_dedup and remove_blocks_dedup_batch. The locks that the code takes are
-- not part of the state: each function below is what runs under them.
pub mod Drop
pub mod Batch
pub mod Unlink
pub mod Effect
use dedup_block_fs.Base.{
  ℕ, zero, suc, ◌+◌, ◌-◌, Option, none, some, List, [], ◌∷◌, ◌++◌, ◌==◌, leb, if◌then◌else◌, ◌>>=◌,
}
use dedup_block_fs.Keys.{FilePath}
use dedup_block_fs.Index.{
  Index, Ptr, MasterInfo, lookup_by_file_block, remove_file_block, remove_hash, store, free, sub32,
}

-- `if (__atomic_fetch_sub(&info->refcount, 1, ...) == 1) { ... }`, which remove_block_dedup,
-- remove_blocks_dedup_batch, rollback_allocations and write_dedup share: the last reference takes
-- the digest out of hash_to_master, frees the object and gives up its slot. The list is the slot
-- that the caller has to put on a free list, if any.
unfoldable pub drop_ref : Index → Ptr → Option (List ℕ × Index)
unfolding remove_hash
drop_ref ix p = do
  info ← ix.infos p
  let ix' = store ix p (record info { refcount = sub32 info.refcount 1 })
  some (
      if info.refcount == 1
      then (info.master_block_index ∷ [], free (remove_hash ix' info.hash) p)
      else ([], ix'))

-- g_slist_concat(slots, free_block_list), and g_slist_prepend for a single slot.
abbrev pub release_slots : List ℕ → Index → Index
release_slots slots ix = record ix { free_block_list = slots ++ ix.free_block_list }

-- remove_file_block, then the decrement, for a block whose entry holds `p`.
unfoldable pub unlink_block : Index → FilePath → ℕ → Ptr → Option (List ℕ × Index)
unfolding drop_ref remove_file_block
unlink_block ix path b p = drop_ref (remove_file_block ix path b) p

unfoldable pub remove_block_dedup : Index → FilePath → ℕ → Option Index
unfolding unlink_block
remove_block_dedup ix path b = elim (lookup_by_file_block ix path b) [
  | none ↦ some ix
  | some p ↦ do (slots, ix') ← unlink_block ix path b p; some (release_slots slots ix')
]

-- The body of the loop of remove_blocks_dedup_batch at block `b`.
unfoldable pub batch_step : Index → FilePath → ℕ → List ℕ → Option (List ℕ × Index)
unfolding unlink_block
batch_step ix path b to_release = elim (lookup_by_file_block ix path b) [
  | none ↦ some (to_release, ix)
  | some p ↦ do (slots, ix') ← unlink_block ix path b p; some (slots ++ to_release, ix')
]

-- The loop, with `n` blocks left from `b` on.
unfoldable pub batch_loop : ℕ → Index → FilePath → ℕ → List ℕ → Option (List ℕ × Index)
unfolding batch_step
batch_loop zero ix path b to_release = some (to_release, ix)
batch_loop (suc n) ix path b to_release = do
  (to_release', ix') ← batch_step ix path b to_release
  batch_loop n ix' path (b + 1) to_release'

unfoldable pub remove_blocks_dedup_batch : Index → FilePath → ℕ → ℕ → Option Index
unfolding batch_loop
remove_blocks_dedup_batch ix path start_block end_block =
    if leb end_block start_block then some ix else (do
      (to_release, ix') ← batch_loop (end_block - start_block) ix path start_block []
      some (release_slots to_release ix'))
