-- ===== src/Fuse.antt =====
-- src/passthrough.c: what its handlers share. The backing file system is a parameter: the handlers
-- hand most requests on to it. The debug log and the lock around it are not part of the state.
pub mod Pass
pub mod Nodes
pub mod Handlers
pub mod Ok
pub mod Forget
pub mod Spec
pub mod Put
pub mod Refine
pub mod Sessions
use dedup_block_fs.Base.{ℕ, Option, List}
use dedup_block_fs.Base.Int.{ℤ, pos, negsuc}
use dedup_block_fs.Keys.{FilePath}
use dedup_block_fs.System.{System}
use dedup_block_fs.Dedup.Write.{Store}

-- The result of a system call: a value, or -1 with errno = e + 1.
pub data Outcome (A : Type 0) : Type 0 where
  ok : A → Outcome A
  err : ℕ → Outcome A

-- The system calls that return a number, with their arguments.
pub data Call : Type 0 where
  access : FilePath → ℕ → Call
  open_file : FilePath → ℕ → Option ℕ → Call
  close fsync fdatasync : ℕ → Call
  mkdir : FilePath → ℕ → Call
  rmdir unlink : FilePath → Call
  symlink rename link : FilePath → FilePath → Call
  chmod : FilePath → ℕ → Call
  lchown : FilePath → ℕ → ℕ → Call
  truncate : FilePath → ℤ → Call
  ftruncate : ℕ → ℤ → Call
  utimens : FilePath → List ℕ → Call
  openat : ℤ → FilePath → ℕ → ℕ → Call
  mkdirat mkfifoat : ℤ → FilePath → ℕ → Call
  mknodat : ℤ → FilePath → ℕ → ℕ → Call
  symlinkat : FilePath → ℤ → FilePath → Call
  posix_fallocate : ℕ → ℤ → ℤ → Call
  lsetxattr : FilePath → List ℕ → List ℕ → ℕ → ℕ → Call
  lremovexattr : FilePath → List ℕ → Call
  copy_file_range : ℕ → ℤ → ℕ → ℤ → ℕ → ℕ → Call
  lseek : ℕ → ℤ → ℕ → Call

-- `struct stat`: the field that the handlers write, and the rest.
pub record Stat : Type 0 where
  pub st_size : ℕ
  pub st_ino : ℕ
  pub st_mode : ℕ
  pub st_rest : List ℕ

-- `struct dirent`
pub record Dirent : Type 0 where
  pub d_name : List ℕ
  pub d_ino : ℕ
  pub d_type : ℕ

-- `struct fuse_file_info`
pub record FileInfo : Type 0 where
  pub flags : ℕ
  pub fh : ℕ

-- The backing file system.
pub record Host : Type 1 where
  pub Fs : Type 0
  pub call : Fs → Call → Outcome ℕ × Fs
  pub lstat : Fs → FilePath → Outcome Stat
  pub readlink : Fs → FilePath → ℕ → Outcome (List ℕ)
  pub read_dir : Fs → FilePath → Outcome (List Dirent)
  pub lgetxattr : Fs → FilePath → List ℕ → ℕ → Outcome (List ℕ)
  pub llistxattr : Fs → FilePath → ℕ → Outcome (List ℕ)

-- The counters of `Context`.
pub record Counters : Type 0 where
  pub create : ℕ
  pub opened : ℕ
  pub closed : ℕ
  pub write : ℕ
  pub read : ℕ
  pub getattr : ℕ
  pub unlinked : ℕ

-- `Context`, with the backing file system.
pub record Mount (os : System) (host : Host) : Type 0 where
  pub store : Store os.Disk
  pub counters : Counters
  pub fs : host.Fs

-- `if (res == -1) return -errno; return 0;`
abbrev pub zero_or_error : {S : Type 0} → Outcome ℕ × S → ℤ × S
zero_or_error (ok n, s) = (pos 0, s)
zero_or_error (err e, s) = (negsuc e, s)

-- `if (res == -1) res = -errno; return res;`
abbrev pub value_or_error : {S : Type 0} → Outcome ℕ × S → ℤ × S
value_or_error (ok n, s) = (pos n, s)
value_or_error (err e, s) = (negsuc e, s)

-- The result of the call itself: -1 for a failure.
abbrev pub value_or_minus_one : {S : Type 0} → Outcome ℕ × S → ℤ × S
value_or_minus_one (ok n, s) = (pos n, s)
value_or_minus_one (err e, s) = (negsuc 0, s)

-- O_RDONLY and O_WRONLY
abbrev pub o_rdonly : ℕ
o_rdonly = 0

abbrev pub o_wronly : ℕ
o_wronly = 1
