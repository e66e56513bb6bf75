-- ===== src/System.antt =====
-- What the file system calls and does not implement: the master file behind its descriptor
-- (pread, pwrite), SHA512 of OpenSSL, malloc and qsort. Each law states documented behaviour.
-- The code addresses its buffers and the master file in whole blocks only, so a buffer is given
-- by its blocks: `buf i` are the BLOCK_SIZE bytes from byte i * BLOCK_SIZE on.
use dedup_block_fs.Base.{ℕ, ◌+◌, ◌*◌, ◌%◌, ◌^◌, ◌-◌, ◌≤◌, ◌<◌, ◌≡◌, ◌⊎◌, Bool, List}
use dedup_block_fs.Base.Int.{ℤ}
use dedup_block_fs.Keys.{Digest}
use mathlib.Core.List.{Perm}

-- BLOCK_SIZE of includes/passthrough_helpers.h
abbrev pub block_size : ℕ
block_size = 4096

abbrev pub Block : Type 0
Block = List ℕ

abbrev pub Buffer : Type 0
Buffer = ℕ → Block

-- uint64_t and size_t arithmetic.
abbrev pub add64 : ℕ → ℕ → ℕ
add64 a b = (a + b) % 2 ^ 64

abbrev pub sub64 : ℕ → ℕ → ℕ
sub64 a b = (a + 2 ^ 64 - b) % 2 ^ 64

abbrev pub mul64 : ℕ → ℕ → ℕ
mul64 a b = a * b % 2 ^ 64

-- The result of a transfer: the bytes moved, or -1 with errno = e + 1 (errno is never 0 then).
pub data Ssize : Type 0 where
  moved : ℕ → Ssize
  failed : ℕ → Ssize

-- `BlockPair` of includes/dedup.h
pub record BlockPair : Type 0 where
  pub logical_idx : ℕ
  pub master_block_index : ℕ

pub record System : Type 1 where
  pub Disk : Type 0
  -- The bytes of the master file at a block index.
  pub block : Disk → ℕ → Block
  pub sha512 : Block → Digest
  -- pwrite(fd, src, size, offset) and pread(fd, dst, size, offset), with what dst then holds.
  pub pwrite : Disk → Buffer → ℕ → ℕ → Ssize × Disk
  pub pread : Disk → ℕ → ℕ → Ssize × Buffer
  pub malloc_fails : ℕ → Bool
  pub qsort : (BlockPair → BlockPair → ℤ) → List BlockPair → List BlockPair
  -- A full write puts the bytes there.
  pub pwrite_data :
      (d : Disk) (src : Buffer) (n k i : ℕ)
      → (pwrite d src (n * block_size) (k * block_size)).0 ≡ moved (n * block_size)
      → i < n
      → block (pwrite d src (n * block_size) (k * block_size)).1 (k + i) ≡ src i
  -- A write, full or not, leaves the rest of the file alone.
  pub pwrite_frame :
      (d : Disk) (src : Buffer) (n k j : ℕ)
      → (j < k) ⊎ (k + n ≤ j)
      → block (pwrite d src (n * block_size) (k * block_size)).1 j ≡ block d j
  -- A full read delivers the bytes of the file.
  pub pread_data :
      (d : Disk) (n k i : ℕ)
      → (pread d (n * block_size) (k * block_size)).0 ≡ moved (n * block_size)
      → i < n
      → (pread d (n * block_size) (k * block_size)).1 i ≡ block d (k + i)
  -- Sorting permutes the array.
  pub qsort_perm : (cmp : BlockPair → BlockPair → ℤ) (l : List BlockPair) → Perm (qsort cmp l) l
