-- ===== src/Lib.antt =====
-- The deduplicating file system: the index of blocks by digest and by file position, the operations
-- that write, read and remove whole blocks through it, the FUSE handlers over them, and the saving
-- and loading of the index.
--
-- Parts and files. Paths on the right are from the repository's root.
--   Base, Table           helpers: Boolean tests, lists, C's int, association lists for GHashTable
--   Keys                  src/metaindex.c: hash512_equal, blockIndice_equal, BlockIndice
--   Index                 src/metaindex.c, includes/metaindex.h: MasterInfo, Index, the lookups,
--                         insertions and removals of the tables. The shared MasterInfo objects are
--                         a heap (`infos`), where a freed object is none; a use of one is a fault,
--                         the result none of every function that can meet it.
--   Index.Slots           where a slot of the master file is: free, in the hands of a write under
--                         way, or with a published MasterInfo; a slot that is nowhere is leaked
--   Index.Inv             when index, heap and master file agree, also while a write is under way
--   System                what is called and not part of the repository: pread, pwrite and the
--                         master file, SHA512, malloc, qsort, with the documented laws that are used
--   View                  the block that a file has at a position, read through index and file
--   Dedup.Sort, .Read     src/dedup.c: cmp_master_idx, read_dedup; includes/dedup.h: insertion_sort
--   Dedup.Remove          src/dedup.c: remove_block_dedup, remove_blocks_dedup_batch
--   Dedup.Plan            src/dedup.c: PlanEntry and pass 1 of write_dedup
--   Dedup.Alloc           src/dedup.c: allocate_batch_storage_first and pass 1.5
--   Dedup.Flush           src/dedup.c: flush_plan, pass 2
--   Dedup.Rollback        src/dedup.c: rollback_allocations
--   Dedup.Commit          src/dedup.c: pass 3
--   Dedup.Write           src/dedup.c: write_dedup, the passes in their order
--   Dedup.RoundTrip       a read after a write
--   Fuse                  src/passthrough.c: the context and what the handlers share
--   Fuse.Pass, .Nodes     src/passthrough.c: the handlers that hand the request on;
--                         includes/passthrough_helpers.h: mknod_wrapper
--   Fuse.Handlers         src/passthrough.c: xmp_getattr, xmp_unlink, xmp_truncate, xmp_create,
--                         xmp_open, xmp_release, xmp_read, xmp_write
--   Fuse.Spec             the files that a user sees, and what the requests mean on them
--   Fuse.Ok to .Sessions  sizes and blocks in agreement, the refinement, sequences of requests
--   Persist.Io, .Elem     src/persistence.c: buffered reads and writes, elements behind a length
--   Persist.Codec         src/metaindex.c: the encoders and decoders
--   Persist.Tables, .Pair src/persistence.c: lists, tables, and two tables with shared values
--   Persist.Mount         src/metaindex.c: index_init, index_destroy; src/passthrough.c: xmp_init,
--                         xmp_destroy
--   Persist.Working       what the round trips ask of the files below
--   Tests                 a concrete system and store, and the theorems applied to them
--
-- How they interact. A write decides for each block whether its digest is known (HIT) or new
-- (MISS), takes a reference for it, reserves slots for the MISSes, writes them to the master file,
-- and then publishes the new digests and maps the blocks. What is held between the passes (counted
-- references, pending MasterInfos, reserved slots) are parameters of the invariant `Inv`, so that
-- each pass has a theorem of its own and write_dedup composes them. The removals and the loops of
-- pass 3 give references up through the same step, `drop_ref`. The handlers work on the store and on
-- the backing file system, a parameter (`Host`). `StoreOk` is what holds between two requests, `view`
-- the files that a user sees, and `meaning` what a request does to them. At unmount the MasterInfo
-- objects are numbered, written once, and the tables hold the numbers (`places`); at mount the
-- number of an object is its new address.
--
-- Numbers. uint64_t, size_t and uint32_t are natural numbers with the wrap-around written out; the
-- results of the calls are C's int. Loops are structural on the number of blocks or on the plan, so
-- no fuel is used; the loops of buffered_write and buffered_read take the number of bytes for fuel,
-- since every turn moves one at least. The theorems on write_dedup assume that the references fit
-- in 32 bits and the slots in 51 (byte offsets in 63).
--
-- Not modelled: the locks (each function is what runs under them, and write_dedup is run by one
-- caller), the debug log, xmp_statfs and main of src/passthrough.c, the freeing of memory at unmount
-- and the hash functions of the tables, which only choose buckets; the order of a table's list
-- stands for the order in which GLib iterates; SHA512 (src/hashing.c) is a call of a library;
-- bpf_programs holds tracing tools.
pub mod Base
pub mod Table
pub mod Keys
pub mod Index
pub mod System
pub mod Dedup
pub mod View
pub mod Fuse
pub mod Persist
pub mod Tests
