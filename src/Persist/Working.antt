-- ===== src/Persist/Working.antt =====
-- What the proofs of the round trips ask of the files below: documented behaviour, on a machine
-- where no call fails. A read may still deliver less than it was asked for.
use dedup_block_fs.Base.{
  ℕ, ◌≤◌, ◌<◌, ◌≡◌, refl, ◌∙◌, false, Option, none, some, List, [], ◌++◌, ◌&&◌, ◌==◌, if◌then◌else◌,
  length, take, drop,
}
use dedup_block_fs.Keys.{FilePath, bytes_equal}
use dedup_block_fs.System.{moved}
use dedup_block_fs.Fuse.{ok}
use dedup_block_fs.Persist.{FileSystem, save_flags}

module _ (files : FileSystem) where
  open files use {Fs, open_file, close, pwrite, pread, malloc}

  -- `contents` are the bytes of a file, none where there is no file, `target` the file behind a
  -- descriptor.
  pub record Working : Type 0 where
    pub contents : Fs → FilePath → List ℕ
    pub target : Fs → ℕ → Option FilePath
    -- open gives an unused descriptor, and O_TRUNC empties the file.
    pub opens :
        (fs : Fs) (path : FilePath) (flags mode : ℕ)
        → (fd : ℕ) × (fs' : Fs) × (open_file fs path flags mode ≡ (ok fd, fs'))
          × (target fs fd ≡ none)
          × ((fd' : ℕ) → target fs' fd' ≡ (if fd == fd' then some path else target fs fd'))
          × ((path' : FilePath)
              → contents fs' path' ≡ (
                  if (flags == save_flags) && bytes_equal path path'
                  then []
                  else contents fs path'))
    pub closes :
        (fs : Fs) (fd fd' : ℕ)
        → target (close fs fd) fd' ≡ (if fd == fd' then none else target fs fd')
    pub close_keeps :
        (fs : Fs) (fd : ℕ) (path : FilePath) → contents (close fs fd) path ≡ contents fs path
    -- A write at the end of a file appends.
    pub appends :
        (fs : Fs) (fd : ℕ) (path : FilePath) (bs : List ℕ)
        → target fs fd ≡ some path
        → (fs' : Fs) × (pwrite fs fd bs (length (contents fs path)) ≡ (moved (length bs), fs'))
          × (contents fs' path ≡ contents fs path ++ bs)
          × ((fd' : ℕ) → target fs' fd' ≡ target fs fd')
          × ((path' : FilePath)
              → bytes_equal path path' ≡ false
              → contents fs' path' ≡ contents fs path')
    -- A read delivers bytes from the offset on, and some where there are any.
    pub delivers :
        (fs : Fs) (fd : ℕ) (path : FilePath) (size offset : ℕ)
        → target fs fd ≡ some path
        → (n : ℕ) × (got : List ℕ) × (pread fs fd size offset ≡ (moved n, got))
          × (take n got ≡ take n (drop offset (contents fs path)))
          × (n ≤ length got)
          × (n ≤ size)
          × (n ≤ length (drop offset (contents fs path)))
          × (0 < size → 0 < length (drop offset (contents fs path)) → 0 < n)
    pub allocates :
        (fs : Fs) (size : ℕ)
        → (memory : ℕ → ℕ) × (fs' : Fs) × (malloc fs size ≡ (some memory, fs'))
          × ((fd : ℕ) → target fs' fd ≡ target fs fd)
          × ((path : FilePath) → contents fs' path ≡ contents fs path)

module _ {files : FileSystem} (w : Working files) where
  open files use {Fs}

  -- Only the file `path` may have changed.
  pub record Others (path : FilePath) (fs fs' : Fs) : Type 0 where
    pub targets : (fd : ℕ) → w.target fs' fd ≡ w.target fs fd
    pub rest :
        (path' : FilePath)
        → bytes_equal path path' ≡ false
        → w.contents fs' path' ≡ w.contents fs path'

  pub Others-refl : (path : FilePath) (fs : Fs) → Others path fs fs
  Others-refl path fs = record { targets = λ fd. refl; rest = λ path' h. refl }

  pub Others-trans :
      (path : FilePath) (fs fs' fs'' : Fs)
      → Others path fs fs'
      → Others path fs' fs''
      → Others path fs fs''
  Others-trans path fs fs' fs'' a b = record {
    targets = λ fd. b.targets fd ∙ a.targets fd;
    rest = λ path' h. b.rest path' h ∙ a.rest path' h;
  }
