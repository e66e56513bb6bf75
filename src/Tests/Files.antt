-- ===== src/Tests/Files.antt =====
-- Files in memory, which deliver a byte per read, and an index that fits the format of the files.
use dedup_block_fs.Base.{
  ℕ, zero, suc, ◌≤◌, ◌<◌, ◌≡◌, refl, ap, true, ◌&&◌, Option, none, some, List, [], ◌∷◌, ◌++◌, ◌==◌,
  if◌then◌else◌, length, take, drop, arith,
}
use dedup_block_fs.Keys.{FilePath, bytes_equal, block_indice_equal, bytes_key, block_indice_key}
use dedup_block_fs.Table.{lookup, Distinct}
use dedup_block_fs.Index.{Index, MasterInfo, indice}
use dedup_block_fs.System.{Ssize, moved, failed}
use dedup_block_fs.Fuse.{ok}
use dedup_block_fs.Persist.{FileSystem, save_flags}
use dedup_block_fs.Persist.Working.{Working}
use dedup_block_fs.Persist.Mount.RoundTrip.{Savable}
use dedup_block_fs.Tests.Fixture.{file}

-- The bytes of each file, and the file of each descriptor.
abbrev pub Memory : Type 0
Memory = (FilePath → List ℕ) × List (Option FilePath)

abbrev pub target_of : List (Option FilePath) → ℕ → Option FilePath
target_of [] fd = none
target_of (t ∷ l) zero = t
target_of (t ∷ l) (suc fd) = target_of l fd

abbrev pub close_at : List (Option FilePath) → ℕ → List (Option FilePath)
close_at [] fd = []
close_at (t ∷ l) zero = none ∷ l
close_at (t ∷ l) (suc fd) = t ∷ close_at l fd

abbrev pub put_file : (FilePath → List ℕ) → FilePath → List ℕ → FilePath → List ℕ
put_file c path bytes path' = if bytes_equal path path' then bytes else c path'

abbrev pub write_file : Option FilePath → Memory → List ℕ → ℕ → Ssize × Memory
write_file none (c, l) bs offset = (failed 8, (c, l))
write_file (some path) (c, l) bs offset =
    (moved (length bs), (put_file c path (take offset (c path) ++ bs), l))

-- A byte, if there is one and if it is asked for.
abbrev pub one_byte : ℕ → List ℕ → ℕ
one_byte zero bytes = 0
one_byte (suc n) [] = 0
one_byte (suc n) (b ∷ bytes) = 1

abbrev pub read_file : Option FilePath → Memory → ℕ → ℕ → Ssize × List ℕ
read_file none (c, l) size offset = (failed 8, [])
read_file (some path) (c, l) size offset =
    (moved (one_byte size (drop offset (c path))), drop offset (c path))

abbrev pub memory_files : FileSystem
memory_files = record {
  Fs = Memory;
  open_file = λ fs path flags mode. (
    ok (length fs.1),
    (
      (λ path'. if (flags == save_flags) && bytes_equal path path' then [] else fs.0 path'),
      fs.1 ++ (some path ∷ []),
    ),
  );
  close = λ fs fd. (fs.0, close_at fs.1 fd);
  file_size = λ fs path. ok (length (fs.0 path));
  pwrite = λ fs fd bs offset. write_file (target_of fs.1 fd) fs bs offset;
  pread = λ fs fd size offset. read_file (target_of fs.1 fd) fs size offset;
  malloc = λ fs size. (some (λ i. 0), fs);
}

pub target_of-length : (l : List (Option FilePath)) → target_of l (length l) ≡ none
target_of-length [] = refl
target_of-length (t ∷ l) = target_of-length l

pub target_of-append :
    (l : List (Option FilePath)) (path : FilePath) (fd : ℕ)
    → target_of (l ++ (some path ∷ [])) fd ≡ (if length l == fd then some path else target_of l fd)
target_of-append [] path zero = refl
target_of-append [] path (suc fd) = ground arith
target_of-append (t ∷ l) path zero = ground arith
target_of-append (t ∷ l) path (suc fd) = ground (arith, target_of-append l path fd)

pub target_of-close :
    (l : List (Option FilePath)) (fd fd' : ℕ)
    → target_of (close_at l fd) fd' ≡ (if fd == fd' then none else target_of l fd')
target_of-close [] fd fd' = ground arith
target_of-close (t ∷ l) zero zero = refl
target_of-close (t ∷ l) zero (suc fd') = ground arith
target_of-close (t ∷ l) (suc fd) zero = ground arith
target_of-close (t ∷ l) (suc fd) (suc fd') = ground (arith, target_of-close l fd fd')

pub take_all : (l : List ℕ) → take (length l) l ≡ l
take_all [] = refl
take_all (x ∷ l) = ap (λ m. x ∷ m) (take_all l)

pub self : (path : FilePath) → bytes_equal path path ≡ true
self path = (bytes_key.equal_iff path path).1 refl

pub one_byte-le :
    (n : ℕ) (bytes : List ℕ)
    → (one_byte n bytes ≤ n)
      × (one_byte n bytes ≤ length bytes)
      × (0 < n → 0 < length bytes → 0 < one_byte n bytes)
one_byte-le zero bytes = (omega arith, omega arith, λ h h'. absurd (omega arith))
one_byte-le (suc n) [] = (omega arith, omega arith, λ h h'. absurd (omega arith))
one_byte-le (suc n) (b ∷ bytes) = (omega arith, omega arith, λ h h'. omega arith)

abbrev pub memory_working : Working memory_files
memory_working = record {
  contents = λ fs path. fs.0 path;
  target = λ fs fd. target_of fs.1 fd;
  opens = λ fs path flags mode. (
    length fs.1,
    (
      (λ path'. if (flags == save_flags) && bytes_equal path path' then [] else fs.0 path'),
      fs.1 ++ (some path ∷ []),
    ),
    refl,
    target_of-length fs.1,
    (λ fd'. target_of-append fs.1 path fd'),
    (λ path'. refl),
  );
  closes = λ fs fd fd'. target_of-close fs.1 fd fd';
  close_keeps = λ fs fd path. refl;
  appends = λ fs fd path bs here. (
    (put_file fs.0 path (take (length (fs.0 path)) (fs.0 path) ++ bs), fs.1),
    rw here refl,
    rw (self path) (ap (λ l. l ++ bs) (take_all (fs.0 path))),
    (λ fd'. refl),
    (λ path' ne. rw ne refl),
  );
  delivers = λ fs fd path size offset here.
      let bytes = drop offset (fs.0 path) in
      let le = one_byte-le size bytes in
      (one_byte size bytes, bytes, rw here refl, refl, le.1, le.0, le.1, le.2);
  allocates = λ fs size. ((λ i. 0), fs, refl, (λ fd. refl), (λ path. refl));
}

abbrev ones : ℕ → List ℕ
ones zero = []
ones (suc n) = 1 ∷ ones n

-- An index with one object for two blocks.
abbrev pub saved_info : MasterInfo
saved_info = record { hash = ones 64; master_block_index = 0; refcount = 2 }

abbrev pub saved_index : Index
saved_index = record {
  hash_to_master = (ones 64, 5) ∷ [];
  file_to_master = (indice file 0, 5) ∷ (indice file 1, 5) ∷ [];
  free_block_list = 1 ∷ [];
  file_to_sizes = (file, 8192) ∷ [];
  infos = λ p. if p == 5 then some saved_info else none;
  next_info = 6;
}

pub saved_index-Savable : Savable saved_index
unfolding lookup bytes_equal block_indice_equal Distinct
saved_index-Savable = record {
  digests = (refl, tt);
  indices = (
    (((omega arith, (omega arith, tt)), omega arith), omega arith),
    ((((omega arith, (omega arith, tt)), omega arith), omega arith), tt),
  );
  sizes = ((((omega arith, (omega arith, tt)), omega arith), omega arith), tt);
  slots = (omega arith, tt);
  infos = λ p m h.
      let is : m ≡ saved_info = ground (arith, h) in
      rw is (record { hash = refl; slot = omega arith; refs = omega arith });
  hash_live = ((saved_info, refl), tt);
  file_live = ((saved_info, refl), ((saved_info, refl), tt));
  distinct_hash = (refl, tt);
  distinct_file = (refl, (refl, tt));
  distinct_sizes = (refl, tt);
  short = omega arith;
  short_sizes = omega arith;
  short_slots = omega arith;
}

abbrev pub no_padding : MasterInfo → List ℕ
no_padding m = 0 ∷ 0 ∷ 0 ∷ 0 ∷ []

abbrev pub no_files : Memory
no_files = ((λ path. []), [])
