-- ===== src/Dedup/Read.antt =====
-- src/dedup.c, read_dedup. The result is the return value with what the buffer then holds; none is
-- a use of a freed MasterInfo.
pub mod Groups
pub mod Order
pub mod Sorted
pub mod Correct
use dedup_block_fs.Base.{
  ℕ, zero, suc, ◌+◌, ◌*◌, ◌/◌, ◌%◌, Bool, true, false, ◌||◌, Option, none, some, List, [], ◌∷◌,
  ◌++◌, ◌==◌, leb, if◌then◌else◌, ◌>>=◌, length,
}
use dedup_block_fs.Base.Int.{ℤ, pos, negsuc, to_int}
use mathlib.Core.Bool.{not}
use dedup_block_fs.Keys.{FilePath}
use dedup_block_fs.Index.{Index, lookup_by_file_block}
use dedup_block_fs.System.{
  System, BlockPair, Block, Buffer, Ssize, moved, failed, block_size, add64, sub64, mul64,
}
use dedup_block_fs.Dedup.Sort.{insertion_sort, cmp_master_idx}

-- -EOPNOTSUPP, -EIO, -ENOMEM
abbrev pub eopnotsupp : ℤ
eopnotsupp = negsuc 94

abbrev pub eio : ℤ
eio = negsuc 4

abbrev pub enomem : ℤ
enomem = negsuc 11

abbrev pub insertion_sort_threshold : ℕ
insertion_sort_threshold = 32

-- res == (ssize_t)n
abbrev pub is_full : Ssize → ℕ → Bool
is_full (moved m) n = m == n
is_full (failed e) n = false

-- memcpy of one block to buf + i * BLOCK_SIZE
abbrev pub set_block : Buffer → ℕ → Block → Buffer
set_block buf i b j = if i == j then b else buf j

-- Phase 1: the master index of each block from `start_block + i` on, up to the first that has no
-- mapping; `n` blocks are left to look up.
unfoldable pub lookup_pairs : ℕ → ℕ → Index → FilePath → ℕ → Option (List BlockPair)
lookup_pairs zero i ix path start_block = some []
lookup_pairs (suc n) i ix path start_block =
    elim (lookup_by_file_block ix path (add64 start_block i)) [
      | none ↦ some []
      | some p ↦ do
        info ← ix.infos p
        rest ← lookup_pairs n (i + 1) ix path start_block
        some (record { logical_idx = i; master_block_index = info.master_block_index } ∷ rest)
    ]

-- Phase 5: the blocks of a group, from master_buf to their places.
unfoldable pub copy_group : Buffer → Buffer → ℕ → List BlockPair → Buffer
copy_group buf master_buf min_master [] = buf
copy_group buf master_buf min_master (x ∷ rest) =
    copy_group (set_block buf x.logical_idx (master_buf (sub64 x.master_block_index min_master)))
      master_buf min_master rest

module _ (os : System) where
  open os use {Disk, pread, malloc_fails, qsort}

  -- Phase 4: one pread for the group `start ∷ more`; a single block goes to its place directly.
  unfoldable pub read_group : Disk → Buffer → BlockPair → List BlockPair → Bool × Buffer
  unfolding copy_group
  read_group d buf start [] =
      let (res, got) = pread d block_size (mul64 start.master_block_index block_size) in
      (is_full res block_size, set_block buf start.logical_idx (got 0))
  read_group d buf start (x ∷ more) =
      let min_master = start.master_block_index in
      let read_size = length (start ∷ x ∷ more) * block_size in
      let (res, master_buf) = pread d read_size (mul64 min_master block_size) in
      if is_full res read_size
      then (true, copy_group buf master_buf min_master (start ∷ x ∷ more))
      else (false, buf)

  -- Phases 3 and 4: `start ∷ more` is the group so far and `prev` its last pair; the group ends
  -- where the next pair is not the next master block. False is the return of -EIO.
  unfoldable pub read_groups :
      Disk → Buffer → BlockPair → List BlockPair → BlockPair → List BlockPair → Bool × Buffer
  unfolding read_group
  read_groups d buf start more prev [] = read_group d buf start more
  read_groups d buf start more prev (x ∷ rest) =
      let longer = read_groups d buf start (more ++ (x ∷ [])) x rest in
      let (done, buf') = read_group d buf start more in
      let next = read_groups d buf' x [] x rest in
      if x.master_block_index == add64 prev.master_block_index 1
      then longer
      else (if done then next else (false, buf'))

  -- Phase 2
  unfoldable pub sort_pairs : List BlockPair → List BlockPair
  unfolding insertion_sort cmp_master_idx
  sort_pairs pairs =
      if leb (length pairs) insertion_sort_threshold
      then insertion_sort pairs
      else qsort cmp_master_idx pairs

  -- From the sorted pairs on.
  unfoldable pub read_sorted : Disk → Buffer → List BlockPair → ℤ × Buffer
  unfolding read_groups
  read_sorted d buf [] = (pos 0, buf)
  read_sorted d buf (x ∷ rest) =
      let (done, buf') = read_groups d buf x [] x rest in
      if done then (to_int (length (x ∷ rest) * block_size), buf') else (eio, buf')

  -- After phase 1. With no block found the call returns 0 before it allocates anything.
  unfoldable pub read_found : Disk → Buffer → List BlockPair → ℤ × Buffer
  unfolding sort_pairs read_sorted
  read_found d buf [] = (pos 0, buf)
  read_found d buf (x ∷ rest) =
      if malloc_fails (length (x ∷ rest) * block_size)
      then (enomem, buf)
      else read_sorted d buf (sort_pairs (x ∷ rest))

  unfoldable pub read_dedup : Index → FilePath → Buffer → ℕ → ℕ → Disk → Option (ℤ × Buffer)
  unfolding lookup_pairs read_found
  read_dedup ix path buf size offset d =
      let num_blocks = size / block_size in
      let start_block = offset / block_size in
      if (num_blocks == 0) || not (size % block_size == 0)
      then some (eopnotsupp, buf)
      else (do pairs ← lookup_pairs num_blocks 0 ix path start_block; some (read_found d buf pairs))
