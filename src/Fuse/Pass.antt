-- ===== src/Fuse/Pass.antt =====
-- src/passthrough.c: the handlers that hand the request on to the backing file system.
use dedup_block_fs.Base.{
  ℕ, ◌*◌, ◌^◌, ◌%◌, Bool, Option, none, some, List, [], ◌∷◌, ◌++◌, ◌==◌, if◌then◌else◌, length,
}
use dedup_block_fs.Base.Int.{ℤ, pos, negsuc}
use dedup_block_fs.Keys.{FilePath}
use dedup_block_fs.System.{sub64}
use dedup_block_fs.Dedup.Read.{eopnotsupp}
use dedup_block_fs.Fuse.{
  Outcome, ok, err, access, open_file, close, fsync, fdatasync, mkdir, rmdir, symlink, rename, link,
  chmod, lchown, utimens, posix_fallocate, lsetxattr, lremovexattr, copy_file_range, lseek, Stat,
  Dirent, FileInfo, Host, zero_or_error, value_or_error, value_or_minus_one, o_rdonly, o_wronly,
}

-- -EINVAL
abbrev pub einval : ℤ
einval = negsuc 21

module _ (host : Host) where
  open host use {Fs, call, readlink, read_dir, lgetxattr, llistxattr}

  pub xmp_access : FilePath → ℕ → Fs → ℤ × Fs
  xmp_access path mask fs = zero_or_error (call fs (access path mask))

  -- The buffer gets the text and a 0 behind it.
  pub xmp_readlink : FilePath → List ℕ → ℕ → Fs → ℤ × List ℕ
  xmp_readlink path buf size fs = elim (readlink fs path (sub64 size 1)) [
    | ok text ↦ (pos 0, text ++ (0 ∷ []))
    | err e ↦ (negsuc e, buf)
  ]

  -- memset of the struct, then the inode and the type of the entry.
  abbrev pub entry_stat : Dirent → Stat
  entry_stat de = record {
    st_size = 0;
    st_ino = de.d_ino;
    st_mode = de.d_type * 2 ^ 12 % 2 ^ 32;
    st_rest = [];
  }

  module _ {B : Type 0} (filler : B → List ℕ → Stat → Bool × B) where
    -- The loop, which stops where the filler says that the buffer is full.
    pub fill_entries : List Dirent → B → B
    fill_entries [] buf = buf
    fill_entries (de ∷ rest) buf =
        let (full, buf') = filler buf de.d_name (entry_stat de) in
        let more = fill_entries rest buf' in if full then buf' else more

    pub xmp_readdir : FilePath → B → Fs → ℤ × B
    unfolding fill_entries
    xmp_readdir path buf fs = elim (read_dir fs path) [
      | err e ↦ (negsuc e, buf)
      | ok entries ↦ (pos 0, fill_entries entries buf)
    ]

  pub xmp_mkdir : FilePath → ℕ → Fs → ℤ × Fs
  xmp_mkdir path mode fs = zero_or_error (call fs (mkdir path mode))

  pub xmp_rmdir : FilePath → Fs → ℤ × Fs
  xmp_rmdir path fs = zero_or_error (call fs (rmdir path))

  pub xmp_symlink : FilePath → FilePath → Fs → ℤ × Fs
  xmp_symlink from to fs = zero_or_error (call fs (symlink from to))

  pub xmp_rename : FilePath → FilePath → ℕ → Fs → ℤ × Fs
  xmp_rename from to flags fs =
      if flags == 0 then zero_or_error (call fs (rename from to)) else (einval, fs)

  pub xmp_link : FilePath → FilePath → Fs → ℤ × Fs
  xmp_link from to fs = zero_or_error (call fs (link from to))

  pub xmp_chmod : FilePath → ℕ → Fs → ℤ × Fs
  xmp_chmod path mode fs = zero_or_error (call fs (chmod path mode))

  pub xmp_chown : FilePath → ℕ → ℕ → Fs → ℤ × Fs
  xmp_chown path uid gid fs = zero_or_error (call fs (lchown path uid gid))

  pub xmp_utimens : FilePath → List ℕ → Fs → ℤ × Fs
  xmp_utimens path ts fs = zero_or_error (call fs (utimens path ts))

  pub xmp_fsync : ℕ → FileInfo → Fs → ℤ × Fs
  xmp_fsync isdatasync fi fs =
      if isdatasync == 0
      then value_or_minus_one (call fs (fsync fi.fh))
      else value_or_minus_one (call fs (fdatasync fi.fh))

  -- The descriptor of the request: a file of its own where the request has none.
  abbrev pub with_file : Option FileInfo → FilePath → ℕ → Fs → Outcome ℕ × Fs
  with_file none path flags fs = call fs (open_file path flags none)
  with_file (some fi) path flags fs = (ok fi.fh, fs)

  -- `if (fi == NULL) close(fd);`
  abbrev pub end_file : Option FileInfo → ℕ → Fs → Fs
  end_file none fd fs = (call fs (close fd)).1
  end_file (some fi) fd fs = fs

  -- posix_fallocate returns the error number itself.
  pub xmp_fallocate : FilePath → ℕ → ℤ → ℤ → Option FileInfo → Fs → ℤ × Fs
  xmp_fallocate path mode offset len fi fs =
      if mode == 0
      then (let (r, fs') = with_file fi path o_wronly fs in
          elim r [
            | err e ↦ (negsuc e, fs')
            | ok fd ↦
                let (res, fs'') = zero_or_error (call fs' (posix_fallocate fd offset len)) in
                (res, end_file fi fd fs'')
          ])
      else (eopnotsupp, fs)

  pub xmp_setxattr : FilePath → List ℕ → List ℕ → ℕ → ℕ → Fs → ℤ × Fs
  xmp_setxattr path name value size flags fs =
      zero_or_error (call fs (lsetxattr path name value size flags))

  -- The buffer gets the value, or stays.
  pub xmp_getxattr : FilePath → List ℕ → List ℕ → ℕ → Fs → ℤ × List ℕ
  xmp_getxattr path name value size fs = elim (lgetxattr fs path name size) [
    | ok got ↦ (pos (length got), got)
    | err e ↦ (negsuc e, value)
  ]

  pub xmp_listxattr : FilePath → List ℕ → ℕ → Fs → ℤ × List ℕ
  xmp_listxattr path names size fs = elim (llistxattr fs path size) [
    | ok got ↦ (pos (length got), got)
    | err e ↦ (negsuc e, names)
  ]

  pub xmp_removexattr : FilePath → List ℕ → Fs → ℤ × Fs
  xmp_removexattr path name fs = zero_or_error (call fs (lremovexattr path name))

  -- Both descriptors are closed where they were opened here; where the second cannot be opened, the
  -- first is closed in any case.
  pub xmp_copy_file_range :
      FilePath → Option FileInfo → ℤ → FilePath → Option FileInfo → ℤ → ℕ → ℕ → Fs → ℤ × Fs
  xmp_copy_file_range path_in fi_in offset_in path_out fi_out offset_out len flags fs =
      let (r1, fs1) = with_file fi_in path_in o_rdonly fs in
      elim r1 [
        | err e ↦ (negsuc e, fs1)
        | ok fd_in ↦
            let (r2, fs2) = with_file fi_out path_out o_wronly fs1 in
            elim r2 [
              | err e ↦ (negsuc e, (call fs2 (close fd_in)).1)
              | ok fd_out ↦
                  let (res, fs3) =
                    value_or_error
                      (call fs2 (copy_file_range fd_in offset_in fd_out offset_out len flags)) in
                  (res, end_file fi_in fd_in (end_file fi_out fd_out fs3))
            ]
      ]

  pub xmp_lseek : FilePath → ℤ → ℕ → Option FileInfo → Fs → ℤ × Fs
  xmp_lseek path off whence fi fs =
      let (r, fs1) = with_file fi path o_rdonly fs in
      elim r [
        | err e ↦ (negsuc e, fs1)
        | ok fd ↦
            let (res, fs2) = value_or_error (call fs1 (lseek fd off whence)) in
            (res, end_file fi fd fs2)
      ]
