-- ===== src/Dedup/Commit.antt =====
-- src/dedup.c, pass 3 of write_dedup.
pub mod Publish
pub mod Link
use dedup_block_fs.Base.{
  ℕ, ◌+◌, ◌*◌, Option, none, some, List, [], ◌∷◌, ◌++◌, ltb, if◌then◌else◌, ◌>>=◌,
}
use dedup_block_fs.Keys.{FilePath, bytes_key}
use dedup_block_fs.Table.{lookup, insert}
use dedup_block_fs.Index.{
  Index, Ptr, MasterInfo, lookup_by_hash, insert_hash, lookup_by_file_block, insert_file_block,
  fetch_add, free,
}
use dedup_block_fs.System.{block_size, add64, mul64}
use dedup_block_fs.Dedup.Plan.{PlanEntry, PlanKind, hit, miss}
use dedup_block_fs.Dedup.Remove.{drop_ref}

-- The double check of one MISS: the entry, the slots to release and the index after it.
unfoldable pub publish_entry : PlanEntry → List ℕ → Index → Option (PlanEntry × List ℕ × Index)
unfolding lookup_by_hash insert_hash fetch_add
publish_entry e slots ix = do
  info ← ix.infos e.info
  elim (lookup_by_hash ix info.hash) [
    | some winner ↦ do
      ix' ← fetch_add (free ix e.info) winner
      some (record e { info = winner }, e.master_blk ∷ slots, ix')
    | none ↦ some (e, slots, insert_hash ix info.hash e.info)
  ]

-- The first loop.
unfoldable pub publish : List PlanEntry → List ℕ → Index → Option (List PlanEntry × List ℕ × Index)
unfolding publish_entry
publish [] slots ix = some ([], slots, ix)
publish (e ∷ rest) slots ix = elim e.kind [
  | hit ↦ do (rest', slots', ix') ← publish rest slots ix; some (e ∷ rest', slots', ix')
  | miss ↦ do
    (e', slots', ix') ← publish_entry e slots ix
    (rest', slots'', ix'') ← publish rest slots' ix'
    some (e' ∷ rest', slots'', ix'')
]

-- The reference that the old entry of an overwritten block gives up.
unfoldable pub drop_old : FilePath → PlanEntry → List ℕ → Index → Option (List ℕ × Index)
unfolding lookup_by_file_block drop_ref
drop_old path e slots ix = elim (lookup_by_file_block ix path e.logical_blk) [
  | none ↦ some (slots, ix)
  | some old ↦ do (more, ix') ← drop_ref ix old; some (more ++ slots, ix')
]

-- The second loop: (path, logical block) goes to the entry's MasterInfo.
unfoldable pub link_blocks : FilePath → List PlanEntry → List ℕ → Index → Option (List ℕ × Index)
unfolding drop_old insert_file_block
link_blocks path [] slots ix = some (slots, ix)
link_blocks path (e ∷ rest) slots ix = do
  (slots', ix') ← drop_old path e slots ix
  link_blocks path rest slots' (insert_file_block ix' path e.logical_blk e.info)

-- The logical size grows to `new_end` and never shrinks here.
unfoldable pub grow_size : FilePath → ℕ → Index → Index
grow_size path new_end ix = elim (lookup path ix.file_to_sizes) [
  | none ↦ record ix { file_to_sizes = insert path new_end ix.file_to_sizes }
  | some logical_size ↦
      if ltb logical_size new_end
      then record ix { file_to_sizes = insert path new_end ix.file_to_sizes }
      else ix
]

-- Pass 3 as a whole; the released slots go to the free list at its end.
unfoldable pub consolidate : FilePath → List PlanEntry → ℕ → Index → Option Index
unfolding publish link_blocks grow_size
consolidate path plan new_end ix = do
  (plan', slots, ix') ← publish plan [] ix
  (slots', ix'') ← link_blocks path plan' slots ix'
  let sized = grow_size path new_end ix''
  some (record sized { free_block_list = slots' ++ sized.free_block_list })
