-- ===== src/Fuse/Spec.antt =====
-- The files that a user of the mounted file system sees, the requests that change them, and what
-- each request means on the files alone: no digests, no slots, no reference counts.
use dedup_block_fs.Base.{
  ℕ, ◌+◌, ◌*◌, ◌-◌, ◌≤◌, ◌<◌, ◌^◌, ◌%◌, Option, none, some, ◌&&◌, ◌==◌, leb, if◌then◌else◌, length,
}
use dedup_block_fs.Base.Int.{ℤ, pos}
use dedup_block_fs.Keys.{FilePath, bytes_key, bytes_equal}
use dedup_block_fs.Table.{lookup}
use dedup_block_fs.System.{System, Block, Buffer, block_size}
use dedup_block_fs.View.{content}
use dedup_block_fs.Dedup.Flush.Runs.{max_slot}
use dedup_block_fs.Dedup.Remove.Effect.{in_range}
use dedup_block_fs.Dedup.Write.{Store}
use dedup_block_fs.Dedup.Write.Finish.{grown_size}
use dedup_block_fs.Fuse.{FileInfo, Host, Mount}
use dedup_block_fs.Fuse.Handlers.{blocks_of, xmp_write, xmp_truncate, xmp_unlink}
use dedup_block_fs.Fuse.Forget.{cut_size}

-- The size of each file, and its blocks.
pub record Files : Type 0 where
  pub size : FilePath → Option ℕ
  pub block : FilePath → ℕ → Option Block

-- A write of `n` blocks from block `start` on; the truncation to a size; the removal of a file.
pub data Request : Type 0 where
  write : FilePath → Buffer → ℕ → ℕ → Option FileInfo → Request
  shorten : FilePath → ℕ → Option FileInfo → Request
  unlink : FilePath → Request

unfoldable pub files_write : FilePath → Buffer → ℕ → ℕ → Files → Files
files_write path buf start n f = record {
  size = λ path'.
      if bytes_equal path path'
      then some (grown_size (f.size path) ((start + n) * block_size))
      else f.size path';
  block =
      λ path' b. if in_range path start n path' b then some (buf (b - start)) else f.block path' b;
}

unfoldable pub files_shorten : FilePath → ℕ → Files → Files
files_shorten path size f = record {
  size = λ path'. if bytes_equal path path' then cut_size size (f.size path) else f.size path';
  block =
      λ path' b. if bytes_equal path path' && leb (blocks_of size) b then none else f.block path' b;
}

unfoldable pub files_unlink : FilePath → Files → Files
files_unlink path f = record {
  size = λ path'. if bytes_equal path path' then none else f.size path';
  block = λ path' b. if bytes_equal path path' then none else f.block path' b;
}

-- What a request that succeeds means. A size that is not a whole number of blocks is refused.
unfoldable pub meaning : Request → Files → Files
unfolding files_write files_shorten files_unlink
meaning (write path buf start n fi) f = files_write path buf start n f
meaning (shorten path size fi) f = if size % block_size == 0 then files_shorten path size f else f
meaning (unlink path) f = files_unlink path f

module _ (os : System) where
  -- The files of a store.
  abbrev pub view : Store os.Disk → Files
  view st = record {
    size = λ path. lookup path st.index.file_to_sizes;
    block = λ path b. content os st.disk st.index path b;
  }

module _ (os : System) (host : Host) where
  -- The handler of a request, with the result that the kernel gets.
  unfoldable pub serve : Request → Mount os host → Option (ℤ × Mount os host)
  unfolding xmp_write xmp_truncate xmp_unlink
  serve (write path buf start n fi) m =
      xmp_write os host path buf (n * block_size) (start * block_size) fi m
  serve (shorten path size fi) m = xmp_truncate os host path (pos size) fi m
  serve (unlink path) m = xmp_unlink os host path m

  -- A request within the machine's numbers: counts, indices and ends of files are not exceeded, and
  -- `U` holds of the blocks that are written.
  abbrev pub Fits : (Block → Type 0) → Request → Mount os host → Type 0
  Fits U (write path buf start n fi) m =
      ((i : ℕ) → i < n → U (buf i))
      × (0 < n)
      × (length m.store.index.file_to_master + n < 2 ^ 32)
      × (m.store.next_block_index + n ≤ max_slot)
      × ((start + n) * block_size < 2 ^ 64)
  Fits U (shorten path size fi) m = size < 2 ^ 64
  Fits U (unlink path) m = Unit
