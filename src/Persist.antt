-- ===== src/Persist.antt =====
-- src/persistence.c and the parts of src/metaindex.c and src/passthrough.c that save the index when
-- the file system is unmounted and load it when it is mounted. `none` is an access outside an
-- object. The allocations that the code does not check are taken to succeed.
pub mod Memory
pub mod Working
pub mod Io
pub mod Elem
pub mod Codec
pub mod Tables
pub mod Pair
pub mod Mount
use dedup_block_fs.Base.{ℕ, zero, suc, ◌+◌, Option, List, [], ◌∷◌, ◌==◌, if◌then◌else◌}
use dedup_block_fs.Keys.{FilePath}
use dedup_block_fs.System.{Ssize}
use dedup_block_fs.Fuse.{Outcome}

-- The calls on the files of the index, with the allocator: `malloc` gives the memory that it
-- returns.
pub record FileSystem : Type 1 where
  pub Fs : Type 0
  pub open_file : Fs → FilePath → ℕ → ℕ → Outcome ℕ × Fs
  pub close : Fs → ℕ → Fs
  -- st_size of lstat.
  pub file_size : Fs → FilePath → Outcome ℕ
  pub pwrite : Fs → ℕ → List ℕ → ℕ → Ssize × Fs
  pub pread : Fs → ℕ → ℕ → ℕ → Ssize × List ℕ
  pub malloc : Fs → ℕ → Option (ℕ → ℕ) × Fs

-- The bytes of a memory from an address on.
abbrev pub bytes_at : (ℕ → ℕ) → ℕ → ℕ → List ℕ
bytes_at memory a zero = []
bytes_at memory a (suc n) = memory a ∷ bytes_at memory (a + 1) n

-- memcpy to an address.
abbrev pub put_at : (ℕ → ℕ) → ℕ → List ℕ → ℕ → ℕ
put_at memory a [] i = memory i
put_at memory a (x ∷ xs) i = if i == a then x else put_at memory (a + 1) xs i

-- O_WRONLY | O_CREAT | O_TRUNC | O_SYNC, O_RDONLY | O_CREAT and 0644
abbrev pub save_flags : ℕ
save_flags = 0x101241

abbrev pub load_flags : ℕ
load_flags = 0x40

abbrev pub mode_644 : ℕ
mode_644 = 420
