-- ===== src/Fuse/Nodes.antt =====
-- mknod_wrapper of includes/passthrough_helpers.h, and xmp_mknod.
use Prim.Native.Nat.{bit_and}
use dedup_block_fs.Base.{ℕ, Option, none, some, ◌==◌, if◌then◌else◌}
use dedup_block_fs.Base.Int.{ℤ, negsuc}
use dedup_block_fs.Keys.{FilePath}
use dedup_block_fs.Fuse.{
  Outcome, ok, err, openat, close, mkdirat, symlinkat, mkfifoat, mknodat, Host, zero_or_error,
}

-- S_IFMT and the types of a mode, and O_CREAT | O_EXCL | O_WRONLY.
abbrev pub file_type : ℕ → ℕ
file_type mode = bit_and mode 0xf000

abbrev pub s_ifreg : ℕ
s_ifreg = 0x8000

abbrev pub s_ifdir : ℕ
s_ifdir = 0x4000

abbrev pub s_iflnk : ℕ
s_iflnk = 0xa000

abbrev pub s_ififo : ℕ
s_ififo = 0x1000

abbrev pub create_flags : ℕ
create_flags = 0xc1

-- AT_FDCWD
abbrev pub at_fdcwd : ℤ
at_fdcwd = negsuc 99

module _ (host : Host) where
  open host use {Fs, call}

  -- A regular file is made by opening it, and closed again.
  pub make_regular : ℤ → FilePath → ℕ → Fs → Outcome ℕ × Fs
  make_regular dirfd path mode fs =
      let (r, fs') = call fs (openat dirfd path create_flags mode) in
      elim r [ ok fd ↦ call fs' (close fd) | err e ↦ (err e, fs') ]

  -- The branches that are left once the mode is neither a regular file's nor a directory's.
  pub make_special : ℤ → FilePath → Option FilePath → ℕ → ℕ → Fs → Outcome ℕ × Fs
  make_special dirfd path (some target) mode rdev fs =
      if file_type mode == s_iflnk
      then call fs (symlinkat target dirfd path)
      else (if file_type mode == s_ififo
          then call fs (mkfifoat dirfd path mode)
          else call fs (mknodat dirfd path mode rdev))
  make_special dirfd path none mode rdev fs =
      if file_type mode == s_ififo
      then call fs (mkfifoat dirfd path mode)
      else call fs (mknodat dirfd path mode rdev)

  pub mknod_wrapper : ℤ → FilePath → Option FilePath → ℕ → ℕ → Fs → Outcome ℕ × Fs
  unfolding make_regular make_special
  mknod_wrapper dirfd path link mode rdev fs =
      if file_type mode == s_ifreg
      then make_regular dirfd path mode fs
      else (if file_type mode == s_ifdir
          then call fs (mkdirat dirfd path mode)
          else make_special dirfd path link mode rdev fs)

  pub xmp_mknod : FilePath → ℕ → ℕ → Fs → ℤ × Fs
  unfolding mknod_wrapper
  xmp_mknod path mode rdev fs = zero_or_error (mknod_wrapper at_fdcwd path none mode rdev fs)
