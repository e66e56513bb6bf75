-- ===== src/Dedup/Write.antt =====
-- src/dedup.c, write_dedup: the passes one after the other, as one caller runs them.
pub mod Prepare
pub mod Finish
pub mod Cover
pub mod Lay
pub mod Slots
pub mod Correct
pub mod Failure
use dedup_block_fs.Base.{
  ℕ, ◌+◌, ◌*◌, ◌/◌, ◌%◌, Bool, true, ◌||◌, Option, none, some, List, [], ◌==◌, ltb, if◌then◌else◌,
  ◌>>=◌,
}
use dedup_block_fs.Base.Int.{ℤ, pos, to_int, is_neg}
use mathlib.Core.Bool.{not}
use dedup_block_fs.Keys.{FilePath}
use dedup_block_fs.Index.{Index}
use dedup_block_fs.System.{System, Buffer, block_size, add64, mul64}
use dedup_block_fs.Dedup.Plan.{PlanEntry, miss_count, decide}
use dedup_block_fs.Dedup.Alloc.{allocate_batch_storage_first, assign_slots}
use dedup_block_fs.Dedup.Flush.{flush_plan}
use dedup_block_fs.Dedup.Rollback.{rollback_allocations}
use dedup_block_fs.Dedup.Commit.{consolidate}
use dedup_block_fs.Dedup.Read.{eopnotsupp}

-- What the calls share: the index, nextBlockIndex, and the master file.
pub record Store (D : Type 0) : Type 0 where
  pub index : Index
  pub next_block_index : ℕ
  pub disk : D

module _ (os : System) where
  open os use {Disk}

  -- Pass 1.5: the plan with its slots.
  unfoldable pub allocate : List PlanEntry → Store Disk → Option (List PlanEntry × Store Disk)
  unfolding miss_count allocate_batch_storage_first assign_slots
  allocate plan st =
      let (slots, free', next) =
        allocate_batch_storage_first st.index.free_block_list (miss_count plan)
          st.next_block_index in
      let allocated = (do
        (plan', ix') ← assign_slots plan slots (record st.index { free_block_list = free' })
        some (plan', record st { index = ix'; next_block_index = next })) in
      if ltb 0 (miss_count plan) then allocated else some (plan, st)

  -- Passes 2 and 3.
  unfoldable pub flush_and_commit :
      FilePath → Buffer → ℕ → ℕ → List PlanEntry → Store Disk → Option (ℤ × Store Disk)
  unfolding miss_count flush_plan rollback_allocations consolidate
  flush_and_commit path buf start_block num_blocks plan st =
      let flushed = flush_plan os buf st.disk plan in
      let (rc, d') = (if ltb 0 (miss_count plan) then flushed else (pos 0, st.disk)) in
      let failed = (do
        ix' ← rollback_allocations plan st.index
        some (rc, record st { index = ix'; disk = d' })) in
      let done = (do
        ix' ← consolidate path plan (mul64 (add64 start_block num_blocks) block_size) st.index
        some (to_int (num_blocks * block_size), record st { index = ix'; disk = d' })) in
      if is_neg rc then failed else done

  unfoldable pub write_dedup : Store Disk → FilePath → Buffer → ℕ → ℕ → Option (ℤ × Store Disk)
  unfolding decide miss_count allocate flush_and_commit
  write_dedup st path buf size offset =
      let num_blocks = size / block_size in
      let start_block = offset / block_size in
      if size == 0
      then some (pos 0, st)
      else (if (num_blocks == 0) || not (size % block_size == 0) then some (eopnotsupp, st) else (do
        (plan, ix) ← decide os buf start_block num_blocks 0 st.index []
        (plan', st') ← allocate plan (record st { index = ix })
        flush_and_commit path buf start_block num_blocks plan' st'))
