-- ===== src/Tests/Witnesses.antt =====
-- The theorems at concrete inputs.
use dedup_block_fs.Base.{
  ℕ, ◌+◌, ◌≤◌, count, ◌*◌, ◌<◌, ◌≡◌, ◌⊎◌, refl, some, none, List, [], ◌∷◌, ◌++◌, ltb, if◌then◌else◌,
  arith, ◌↔◌, true,
}
use mathlib.Core.Option.{map}
use dedup_block_fs.Base.Int.{ℤ, negsuc, is_neg, to_int}
use dedup_block_fs.Keys.{Digest, bytes_equal, block_indice_equal, block_indice_equal_iff}
use dedup_block_fs.Table.{Table, lookup, insert}
use dedup_block_fs.Dedup.Plan.{find_existing, hit, miss_count}
use dedup_block_fs.Dedup.Remove.{drop_ref}
use dedup_block_fs.Dedup.Remove.Drop.{Dropped, drop_ref-Inv}
use dedup_block_fs.Dedup.Alloc.{assign_slots}
use dedup_block_fs.Dedup.Alloc.Assign.{Assigned, assign-Assigned}
use dedup_block_fs.Table.{holders}
use dedup_block_fs.Index.{lookup_by_hash}
use dedup_block_fs.Index.{Index, Ptr, indice}
use dedup_block_fs.System.{Buffer, BlockPair}
use dedup_block_fs.Dedup.Remove.{remove_block_dedup, remove_blocks_dedup_batch}
use dedup_block_fs.Dedup.Remove.Batch.{remove_each, batch-remove_each}
use dedup_block_fs.Dedup.Remove.Effect.{Removed, remove_block_dedup-Removed, remove_batch-Removed}
use dedup_block_fs.Dedup.Alloc.{allocate_batch_storage_first}
use dedup_block_fs.Dedup.Alloc.Slots.{Allocated, allocate-Allocated}
use dedup_block_fs.Index.Inv.{Inv}
use dedup_block_fs.Index.Slots.{NoLeak}
use dedup_block_fs.Index.Recount.{recounted}
use dedup_block_fs.Dedup.Plan.{decide}
use dedup_block_fs.Dedup.Plan.Decide.{Decided, decide-Decided}
use dedup_block_fs.Dedup.Plan.Step.{fetch_add-Inv}
use dedup_block_fs.Dedup.Plan.{PlanEntry}
use dedup_block_fs.Dedup.Flush.{flush_plan}
use dedup_block_fs.Dedup.Flush.Runs.{Flushed, flush_plan-Flushed}
use dedup_block_fs.Dedup.Commit.{publish, link_blocks, consolidate}
use dedup_block_fs.Dedup.Commit.Publish.{PublishDone, publish-Done}
use dedup_block_fs.Dedup.Commit.Link.{Linked, link_blocks-Linked}
use dedup_block_fs.Dedup.Write.Finish.{Committed, consolidate-Committed}
use dedup_block_fs.Dedup.Write.Lay.{Laid, lay, lay-Laid}
use dedup_block_fs.Dedup.Read.{read_dedup}
use dedup_block_fs.Dedup.Sort.{insertion_sort}
use dedup_block_fs.Dedup.Read.Order.{weight}
use dedup_block_fs.Dedup.Read.Sorted.{Ascending, insertion_sort-Ascending}
use dedup_block_fs.Dedup.Read.Correct.{ReadBlocks, read_dedup-Blocks}
use dedup_block_fs.Dedup.RoundTrip.{write_then_read}
use dedup_block_fs.Dedup.Rollback.{rollback_allocations}
use dedup_block_fs.Dedup.Rollback.Undo.{Undone}
use dedup_block_fs.Dedup.Rollback.Whole.{Returned, rollback-Undone}
use dedup_block_fs.Dedup.Write.Failure.{Restored, write_dedup-Restored}
use dedup_block_fs.Dedup.Write.{Store, write_dedup}
use dedup_block_fs.Dedup.Write.Correct.{Wrote, write_dedup-Wrote}
use dedup_block_fs.Tests.Fixture.{
  two_infos, Blocks, test_system, full_system, full_system-Inv, Any, file, one, two, test_disk,
  test_index, test_index-Inv, info_one, info_two, pending_disk, pending_index, pending_plan,
  pending_index-Inv,
}

batch-remove_each_example :
    remove_blocks_dedup_batch test_index file 0 2 ≡ remove_each 2 test_index file 0
batch-remove_each_example = batch-remove_each test_index file 0 2

remove_block_dedup-Removed_example :
    (ix' : Index) × (remove_block_dedup test_index file 1 ≡ some ix')
    × Removed test_system Any test_disk 2 [] [] [] file 1 1 test_index ix'
remove_block_dedup-Removed_example =
    remove_block_dedup-Removed test_system Any test_index file 1 test_index-Inv

remove_batch-Removed_example :
    (ix' : Index) × (remove_blocks_dedup_batch test_index file 0 5 ≡ some ix')
    × Removed test_system Any test_disk 2 [] [] [] file 0 5 test_index ix'
remove_batch-Removed_example =
    remove_batch-Removed test_system Any test_index file 0 5 test_index-Inv

-- One slot is free, and two more are needed.
allocate-Allocated_example :
    Allocated (4 ∷ []) 3 9 (allocate_batch_storage_first (4 ∷ []) 3 9)
    × ((s : ℕ)
        → count s (allocate_batch_storage_first (4 ∷ []) 3 9).0
            + count s (allocate_batch_storage_first (4 ∷ []) 3 9).1
          ≤ 1)
    × ((s : ℕ)
        → 0
          < count s (allocate_batch_storage_first (4 ∷ []) 3 9).0
            + count s (allocate_batch_storage_first (4 ∷ []) 3 9).1
        → s < (allocate_batch_storage_first (4 ∷ []) 3 9).2)
allocate-Allocated_example =
    allocate-Allocated (4 ∷ []) 3 9 (omega arith) (λ s. ground arith) (λ s h. ground (arith, h))

abbrev test_store : Store Blocks
test_store = record { index = test_index; next_block_index = 2; disk = test_disk }

-- One known block and two new ones of the same content, over a mapped and two unmapped blocks.
abbrev test_buffer : Buffer
test_buffer i = if ltb i 1 then one else two

write_dedup-Wrote_example :
    (st' : Store Blocks) × (write_dedup test_system test_store file test_buffer
        (3 * 4096)
        (1 * 4096)
      ≡ some (to_int (3 * 4096), st'))
    × Wrote test_system Any file test_buffer 1 3 test_store st'
write_dedup-Wrote_example =
    write_dedup-Wrote test_system Any file test_buffer 1 3 test_store test_index-Inv
      (λ d src n k. refl) (λ i h. tt) (omega arith) (omega arith) (omega arith) (omega arith)

block_indice_equal_iff_example :
    (block_indice_equal (indice file 1) (indice file 2) ≡ true) ↔ (indice file 1 ≡ indice file 2)
block_indice_equal_iff_example = block_indice_equal_iff (indice file 1) (indice file 2)

lay-Laid_example :
    (plan : List PlanEntry) × (st' : Store Blocks) × (lay test_system Any test_buffer 1 3 test_store
      ≡ some (plan, st'))
    × Laid test_system Any test_buffer 1 3 test_store plan st'
lay-Laid_example =
    lay-Laid test_system Any test_buffer 1 3 test_store test_index-Inv (omega arith) (omega arith)

decide-Decided_example :
    (plan : List PlanEntry) × (ix' : Index) × (decide test_system test_buffer 1 3 0 test_index []
      ≡ some (plan, ix'))
    × Decided test_system Any test_buffer 1 test_disk 2 [] [] [] test_index.hash_to_master 0 3
        test_index plan ix'
unfolding find_existing lookup_by_hash lookup bytes_equal
decide-Decided_example =
    decide-Decided test_system Any test_buffer 1 test_disk 2 [] 3 0 test_index []
      test_index.hash_to_master [] [] test_index-Inv (omega arith) (λ h p e. absurd (ground arith))
      (λ h e. ground arith)

flush_plan-Flushed_example :
    Flushed test_system
      (λ i. two)
      test_disk
      none
      pending_plan
      (flush_plan test_system (λ i. two) test_disk pending_plan)
flush_plan-Flushed_example =
    flush_plan-Flushed test_system (λ i. two) test_disk 0 pending_plan (refl, tt)
      (λ s. (ground arith, λ h. ground arith))

publish-Done_example :
    (ix' : Index) × (publish pending_plan [] pending_index ≡ some (pending_plan, [], ix'))
    × PublishDone test_system Any pending_disk 2 (1 ∷ []) [] [] pending_index ix'
    × NoLeak pending_index (1 ∷ []) ix' []
unfolding lookup bytes_equal
publish-Done_example =
    publish-Done test_system Any pending_disk 2 (1 ∷ []) [] [] pending_plan [] pending_index
      pending_index-Inv (refl, tt)
      ((info_two, refl, refl, refl, record { digest = refl; known = tt }), tt)

consolidate-Committed_example :
    (ix' : Index) × (consolidate file pending_plan 8192 pending_index ≡ some ix')
    × Committed test_system Any pending_disk 2 file pending_plan 8192 pending_index ix'
unfolding lookup bytes_equal
consolidate-Committed_example =
    consolidate-Committed test_system Any pending_disk 2 file pending_plan 8192 pending_index
      pending_index-Inv (refl, tt)
      ((info_two, refl, refl, refl, record { digest = refl; known = tt }), tt)

-- After a HIT on the known block, whose count is 3 then.
abbrev counted_index : Index
counted_index = recounted test_index 0 info_one 3

counted_index-Inv : Inv test_system Any test_disk 2 (0 ∷ []) [] [] counted_index
unfolding holders
counted_index-Inv = (fetch_add-Inv test_system Any test_index-Inv 0 info_one refl (omega arith)).1

drop_ref-Inv_example :
    (slots : List ℕ) × (ix' : Index) × (drop_ref counted_index 0 ≡ some (slots, ix'))
    × Inv test_system Any test_disk 2 [] [] (slots ++ []) ix'
    × Dropped counted_index ix'
    × NoLeak counted_index [] ix' (slots ++ [])
unfolding lookup bytes_equal
drop_ref-Inv_example =
    drop_ref-Inv test_system Any 0 (record info_one { refcount = 3 }) counted_index-Inv
      (record { live = refl; listed = refl })

abbrev hit_plan : List PlanEntry
hit_plan =
    record { kind = hit; logical_blk = 1; master_blk = 0; payload = 0; hash = one; info = 0 } ∷ []

link_blocks-Linked_example :
    (slots : List ℕ) × (ix' : Index) × (link_blocks file hit_plan [] counted_index
      ≡ some (slots, ix'))
    × Linked test_system Any test_disk 2 [] (slots ++ []) file hit_plan counted_index ix'
    × NoLeak counted_index [] ix' (slots ++ [])
link_blocks-Linked_example =
    link_blocks-Linked test_system Any test_disk 2 [] file hit_plan [] [] counted_index
      counted_index-Inv

-- The slot 7 goes to a MISS that is pending.
assign-Assigned_example :
    (plan' : List PlanEntry) × (ix' : Index) × (assign_slots pending_plan (7 ∷ []) pending_index
      ≡ some (plan', ix'))
    × Assigned test_system Any pending_disk 2
        (1 ∷ [])
        (1 ∷ [])
        (1 ∷ [])
        pending_plan
        (7 ∷ [])
        pending_index
        plan'
        ix'
unfolding lookup bytes_equal miss_count
assign-Assigned_example =
    assign-Assigned test_system Any pending_disk 2 (1 ∷ []) (1 ∷ []) (1 ∷ []) 1 pending_plan
      (7 ∷ []) pending_index pending_index-Inv refl (refl, tt) (omega arith, tt)
      ((info_two, refl, refl), tt)

read_dedup-Blocks_example :
    (k : ℕ) × (buf' : Buffer) × (read_dedup test_system test_index file
        (λ i. [])
        (4 * 4096)
        (1 * 4096)
        test_disk
      ≡ some (to_int (k * 4096), buf'))
    × ReadBlocks test_system Any test_index file 1 test_index-Inv (omega arith) 4 k (λ i. []) buf'
read_dedup-Blocks_example =
    read_dedup-Blocks test_system Any test_index file 1 test_index-Inv (omega arith) 4 (λ i. [])
      (λ d n k. refl) (λ m. refl) (omega arith) (omega arith)

write_then_read_example :
    (st' : Store Blocks) × (got : Buffer) × (write_dedup test_system test_store file test_buffer
        (3 * 4096)
        (1 * 4096)
      ≡ some (to_int (3 * 4096), st'))
    × (read_dedup test_system st'.index file (λ i. []) (3 * 4096) (1 * 4096) st'.disk
        ≡ some (to_int (3 * 4096), got))
    × ((j : ℕ) → j < 3 → (got j ≡ test_buffer j) × Any (got j))
write_then_read_example =
    write_then_read test_system Any file test_buffer 1 3 test_store (λ i. []) test_index-Inv
      (λ d src n k. refl) (λ d n k. refl) (λ m. refl) (λ i h. tt) (omega arith) (omega arith)
      (omega arith) (omega arith)

-- The write whose flush fails returns -ENOSPC. The slot that it was given is free again, and no
-- digest is listed that was not.
abbrev seen : ℤ × Store Blocks → ℤ × List ℕ × Table Digest Ptr
seen (rc, st) = (rc, st.index.free_block_list, st.index.hash_to_master)

failing_write :
    map seen (write_dedup full_system test_store file test_buffer (3 * 4096) (1 * 4096))
    ≡ some (negsuc 27, 1 ∷ [], (one, 0) ∷ [])
unfolding write_dedup find_existing lookup_by_hash lookup bytes_equal insert
failing_write = refl

-- Where every pwrite writes and then fails with ENOSPC.
write_dedup-Restored_example :
    (rc : ℤ) × (st' : Store Blocks) × (write_dedup full_system test_store file test_buffer
        (3 * 4096)
        (1 * 4096)
      ≡ some (rc, st'))
    × ((rc ≡ to_int (3 * 4096)) × Wrote full_system Any file test_buffer 1 3 test_store st'
        ⊎ (is_neg rc ≡ true) × Restored full_system Any file test_buffer 1 3 test_store st')
write_dedup-Restored_example =
    write_dedup-Restored full_system Any file test_buffer 1 3 test_store full_system-Inv (λ i h. tt)
      (omega arith) (omega arith) (omega arith) (omega arith)

rollback-Undone_example :
    (ix' : Index) × (rollback_allocations pending_plan pending_index ≡ some ix')
    × Inv test_system Any pending_disk 2 [] [] [] ix'
    × Undone pending_index ix'
    × Returned pending_index pending_plan ix'
unfolding lookup bytes_equal holders
rollback-Undone_example =
    rollback-Undone test_system Any pending_disk 2 1 pending_plan pending_index pending_index-Inv
      (λ p m h. ground (arith, two_infos p m h)) (omega arith, tt) (refl, tt)
      ((info_two, refl, refl, refl), tt)

abbrev three_pairs : List BlockPair
three_pairs =
    record { logical_idx = 0; master_block_index = 5 }
    ∷ record { logical_idx = 1; master_block_index = 2 }
    ∷ record { logical_idx = 2; master_block_index = 5 }
    ∷ []

insertion_sort-Ascending_example :
    Ascending (insertion_sort three_pairs)
    × ((w : BlockPair → ℕ) → weight w (insertion_sort three_pairs) ≡ weight w three_pairs)
insertion_sort-Ascending_example = insertion_sort-Ascending three_pairs
