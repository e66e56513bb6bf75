-- ===== src/Dedup/Remove/Batch.antt =====
-- The batch removal is the loop of single removals, with one concatenation at its end.
use dedup_block_fs.Base.{
  ℕ, zero, suc, ◌+◌, ◌-◌, ◌≡◌, refl, ◌≤◌, inl, inr, Option, Option-cases, Bool-cases, some, List,
  [], leb, ◌>>=◌, arith,
}
use dedup_block_fs.Keys.{FilePath}
use dedup_block_fs.Index.{Index, lookup_by_file_block}
use dedup_block_fs.Dedup.Remove.{
  release_slots, remove_block_dedup, batch_step, batch_loop, remove_blocks_dedup_batch,
}

-- The loop that the batch replaces: `n` single removals from block `b` on.
unfoldable pub remove_each : ℕ → Index → FilePath → ℕ → Option Index
remove_each zero ix path b = some ix
remove_each (suc n) ix path b = do
  ix' ← remove_block_dedup ix path b
  remove_each n ix' path (b + 1)

abbrev finish : Option (List ℕ × Index) → Option Index
finish r = do (slots, ix) ← r; some (release_slots slots ix)

step-remove :
    (ix : Index) (path : FilePath) (b : ℕ) (slots : List ℕ)
    → finish (batch_step ix path b slots) ≡ remove_block_dedup (release_slots slots ix) path b
unfolding batch_step remove_block_dedup lookup_by_file_block
step-remove ix path b slots = ground arith

loop-each :
    (n : ℕ) (ix : Index) (path : FilePath) (b : ℕ) (slots : List ℕ)
    → finish (batch_loop n ix path b slots) ≡ remove_each n (release_slots slots ix) path b
unfolding batch_loop remove_each
loop-each zero ix path b slots = refl
loop-each (suc n) ix path b slots = elim (Option-cases (batch_step ix path b slots)) [
  | inl e ↦ rw (← step-remove ix path b slots, e)
  | inr ((slots', ix'), e) ↦
      rw (← step-remove ix path b slots, e) (loop-each n ix' path (b + 1) slots')
]

remove_none :
    (ix : Index) (path : FilePath) (a b : ℕ) → b ≤ a → remove_each (b - a) ix path a ≡ some ix
unfolding remove_each
remove_none ix path a b h = let e : b - a ≡ 0 = omega arith in rw e

-- remove_blocks_dedup_batch leaves exactly the index that single removals of the blocks
-- start_block, ..., end_block - 1 leave, free list and its order included, and it faults exactly
-- when they do; with end_block not above start_block both do nothing.
pub batch-remove_each :
    (ix : Index) (path : FilePath) (start_block end_block : ℕ)
    → remove_blocks_dedup_batch ix path start_block end_block
      ≡ remove_each (end_block - start_block) ix path start_block
unfolding remove_blocks_dedup_batch
batch-remove_each ix path a b = elim (Bool-cases (leb b a)) [
  | inl le ↦ rw (le, remove_none ix path a b (ground arith))
  | inr gt ↦ rw gt (loop-each (b - a) ix path a [])
]
