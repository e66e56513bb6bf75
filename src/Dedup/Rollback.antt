-- ===== src/Dedup/Rollback.antt =====
-- src/dedup.c, rollback_allocations.
pub mod Undo
pub mod Whole
use dedup_block_fs.Base.{ℕ, Option, some, List, [], ◌∷◌, ◌++◌, ◌>>=◌}
use dedup_block_fs.Index.{Index, free_info}
use dedup_block_fs.Dedup.Plan.{PlanEntry, hit, miss}
use dedup_block_fs.Dedup.Remove.{drop_ref, release_slots}

-- The first loop: every HIT gives its reference back.
unfoldable pub rollback_hits : List PlanEntry → List ℕ → Index → Option (List ℕ × Index)
unfolding drop_ref
rollback_hits [] slots ix = some (slots, ix)
rollback_hits (e ∷ rest) slots ix = elim e.kind [
  | miss ↦ rollback_hits rest slots ix
  | hit ↦ do (more, ix') ← drop_ref ix e.info; rollback_hits rest (more ++ slots) ix'
]

-- The second loop: every MISS gives its slot back and frees its pending MasterInfo.
unfoldable pub rollback_misses : List PlanEntry → Index → Option Index
unfolding free_info
rollback_misses [] ix = some ix
rollback_misses (e ∷ rest) ix = elim e.kind [
  | hit ↦ rollback_misses rest ix
  | miss ↦ do
    ix' ← free_info (release_slots (e.master_blk ∷ []) ix) e.info
    rollback_misses rest ix'
]

unfoldable pub rollback_allocations : List PlanEntry → Index → Option Index
unfolding rollback_hits rollback_misses
rollback_allocations plan ix = do
  (slots, ix') ← rollback_hits plan [] ix
  rollback_misses plan (release_slots slots ix')
