-- ===== src/Fuse/Handlers.antt =====
-- src/passthrough.c: the handlers that work on the index and the master file. `none` is a use of a
-- freed MasterInfo, as in the functions that they call.
use dedup_block_fs.Base.{ℕ, ◌/◌, ◌%◌, Option, none, some, ◌==◌, ltb, if◌then◌else◌, ◌>>=◌}
use dedup_block_fs.Base.Int.{ℤ, pos, negsuc}
use dedup_block_fs.Keys.{FilePath, bytes_key}
use dedup_block_fs.Table.{lookup, insert, remove}
use dedup_block_fs.Index.{Index}
use dedup_block_fs.System.{System, Buffer, block_size, add64, sub64}
use dedup_block_fs.Dedup.Read.{eopnotsupp, read_dedup}
use dedup_block_fs.Dedup.Remove.{remove_blocks_dedup_batch}
use dedup_block_fs.Dedup.Write.{write_dedup}
use dedup_block_fs.Fuse.{
  ok, err, open_file, close, unlink, truncate, ftruncate, Stat, FileInfo, Host, Counters, Mount,
  zero_or_error, value_or_minus_one, o_rdonly, o_wronly,
}
use dedup_block_fs.Fuse.Pass.{with_file, end_file}

-- (size + BLOCK_SIZE - 1) / BLOCK_SIZE
abbrev pub blocks_of : ℕ → ℕ
blocks_of size = sub64 (add64 size block_size) 1 / block_size

-- The blocks and the size of a file that is going.
unfoldable pub forget_file : FilePath → Index → Option Index
unfolding remove_blocks_dedup_batch
forget_file path ix = elim (lookup path ix.file_to_sizes) [
  | none ↦ some ix
  | some logical_size ↦ do
    ix' ← remove_blocks_dedup_batch ix path 0 (blocks_of logical_size)
    some (record ix' { file_to_sizes = remove path ix'.file_to_sizes })
]

-- The blocks from the new size on go, and the size with them; a file that does not shrink is left
-- as it is. The size is looked at again before it is stored.
unfoldable pub cut_file : FilePath → ℕ → Index → Option Index
unfolding remove_blocks_dedup_batch
cut_file path size ix = elim (lookup path ix.file_to_sizes) [
  | none ↦ some ix
  | some logical_size ↦
      if ltb size logical_size
      then (do
        ix' ← remove_blocks_dedup_batch ix path (blocks_of size) (blocks_of logical_size)
        some (elim (lookup path ix'.file_to_sizes) [
          | none ↦ ix'
          | some ls ↦
              if ltb size ls
              then record ix' { file_to_sizes = insert path size ix'.file_to_sizes }
              else ix'
        ]))
      else some ix
]

module _ (os : System) (host : Host) where
  open host use {Fs, call, lstat}

  -- `p_ctx->...++` of a uint64_t, for each counter.
  abbrev pub counted : (Counters → Counters) → Mount os host → Mount os host
  counted f m = record m { counters = f m.counters }

  -- `if (has_size) stbuf->st_size = logical_size;`
  abbrev pub with_size : Option ℕ → Stat → Stat
  with_size none s = s
  with_size (some logical_size) s = record s { st_size = logical_size }

  -- The size of the backing file gives way to the logical size.
  pub xmp_getattr : FilePath → Stat → Mount os host → ℤ × Stat × Mount os host
  xmp_getattr path stbuf m =
      let m' = counted (λ c. record c { getattr = add64 c.getattr 1 }) m in
      elim (lstat m.fs path) [
        | ok st ↦ (pos 0, with_size (lookup path m.store.index.file_to_sizes) st, m')
        | err e ↦ (negsuc e, with_size (lookup path m.store.index.file_to_sizes) stbuf, m')
      ]

  unfoldable pub xmp_unlink : FilePath → Mount os host → Option (ℤ × Mount os host)
  unfolding forget_file
  xmp_unlink path m = do
    ix' ← forget_file path m.store.index
    let (res, fs') = zero_or_error (call m.fs (unlink path))
    some (
      res,
      record m {
        store = record m.store { index = ix' };
        counters = record m.counters { unlinked = add64 m.counters.unlinked 1 };
        fs = fs';
      },
    )

  -- ftruncate on the open file, truncate on the path where there is none.
  abbrev pub truncate_backing : FilePath → ℤ → Option FileInfo → Fs → ℤ × Fs
  truncate_backing path size none fs = zero_or_error (call fs (truncate path size))
  truncate_backing path size (some fi) fs = zero_or_error (call fs (ftruncate fi.fh size))

  unfoldable pub xmp_truncate :
      FilePath → ℤ → Option FileInfo → Mount os host → Option (ℤ × Mount os host)
  unfolding cut_file
  xmp_truncate path (negsuc k) fi m = some (eopnotsupp, m)
  xmp_truncate path (pos size) fi m =
      if size % block_size == 0
      then (do
        ix' ← cut_file path size m.store.index
        let (res, fs') = truncate_backing path (pos size) fi m.fs
        some (res, record m { store = record m.store { index = ix' }; fs = fs' }))
      else some (eopnotsupp, m)

  -- The result with the `fi` that the kernel keeps.
  pub xmp_create : FilePath → ℕ → FileInfo → Mount os host → ℤ × FileInfo × Mount os host
  xmp_create path mode fi m =
      let m' = counted (λ c. record c { create = add64 c.create 1 }) m in
      let (r, fs') = call m.fs (open_file path fi.flags (some mode)) in
      elim r [
        | ok fd ↦ (pos 0, record fi { fh = fd }, record m' { fs = fs' })
        | err e ↦ (negsuc e, fi, record m' { fs = fs' })
      ]

  pub xmp_open : FilePath → FileInfo → Mount os host → ℤ × FileInfo × Mount os host
  xmp_open path fi m =
      let m' = counted (λ c. record c { opened = add64 c.opened 1 }) m in
      let (r, fs') = call m.fs (open_file path fi.flags none) in
      elim r [
        | ok fd ↦ (pos 0, record fi { fh = fd }, record m' { fs = fs' })
        | err e ↦ (negsuc e, fi, record m' { fs = fs' })
      ]

  pub xmp_release : FileInfo → Mount os host → ℤ × Mount os host
  xmp_release fi m =
      let (res, fs') = value_or_minus_one (call m.fs (close fi.fh)) in
      (
        res,
        record m { counters = record m.counters { closed = add64 m.counters.closed 1 }; fs = fs' },
      )

  unfoldable pub xmp_read :
      FilePath
      → Buffer
      → ℕ
      → ℕ
      → Option FileInfo
      → Mount os host
      → Option (ℤ × Buffer × Mount os host)
  unfolding read_dedup
  xmp_read path buf size offset fi m =
      let m' = counted (λ c. record c { read = add64 c.read 1 }) m in
      let (r, fs') = with_file host fi path o_rdonly m.fs in
      elim r [
        | err e ↦ some (negsuc e, buf, record m' { fs = fs' })
        | ok fd ↦ do
          (total_read, buf') ← read_dedup os m.store.index path buf size offset m.store.disk
          some (total_read, buf', record m' { fs = end_file host fi fd fs' })
      ]

  unfoldable pub xmp_write :
      FilePath → Buffer → ℕ → ℕ → Option FileInfo → Mount os host → Option (ℤ × Mount os host)
  unfolding write_dedup
  xmp_write path buf size offset fi m =
      let m' = counted (λ c. record c { write = add64 c.write 1 }) m in
      let (r, fs') = with_file host fi path o_wronly m.fs in
      elim r [
        | err e ↦ some (negsuc e, record m' { fs = fs' })
        | ok fd ↦ do
          (res, store') ← write_dedup os m.store path buf size offset
          some (res, record m' { store = store'; fs = end_file host fi fd fs' })
      ]
