-- ===== src/Persist/Tables.antt =====
-- src/persistence.c: lists, arrays and tables as files. A table is saved in the order of its list,
-- which stands for the order of g_hash_table_foreach. A file of more than 2^31 - 1 elements is read
-- as one of none, since the code counts with an int.
pub mod RoundTrip
pub mod Saved
pub mod Entries
use dedup_block_fs.Base.{
  ℕ, zero, suc, ◌+◌, Option, none, some, List, [], ◌∷◌, ◌++◌, if◌then◌else◌, ◌>>=◌, length,
}
use dedup_block_fs.Base.Int.{ℤ, pos, negsuc, to_int}
use dedup_block_fs.Keys.{FilePath}
use dedup_block_fs.Table.{Key, Table, insert}
use dedup_block_fs.Fuse.{Outcome, ok, err}
use dedup_block_fs.Persist.{FileSystem, save_flags, load_flags, mode_644}
use dedup_block_fs.Persist.Io.{
  BufferedIo, io_buffer_size, buffered_io_init, buffered_write, buffered_read, flush_write_buffer,
}
use dedup_block_fs.Persist.Elem.{
  word_bytes, word_of, Encode, Decode, write_elem_buffered, read_elem_buffered,
}

-- The number of turns of `for (int i = 0; i < n; i++)`.
abbrev pub turns : ℤ → ℕ
turns (pos n) = n
turns (negsuc n) = 0

module _ (files : FileSystem) where
  open files use {Fs, open_file, close}

  -- The context is there: the header with the number of elements, the elements, the last flush, the
  -- close.
  abbrev pub save_with :
      ℕ → ℕ → (BufferedIo → Fs → Option (BufferedIo × Fs)) → Option BufferedIo × Fs → Option Fs
  save_with fd n elements (none, fs) = some (close fs fd)
  save_with fd n elements (some io, fs) = do
    (io1, fs1) ← buffered_write files io (word_bytes 4 n) fs
    (io2, fs2) ← elements io1 fs1
    some (close (flush_write_buffer files io2 fs2).1 fd)

  -- What goes to a file, once it is open.
  abbrev pub save_open :
      ℕ → (BufferedIo → Fs → Option (BufferedIo × Fs)) → Outcome ℕ × Fs → Option Fs
  save_open n elements (err e, fs) = some fs
  save_open n elements (ok fd, fs) =
      save_with fd n elements (buffered_io_init files fd io_buffer_size fs)

  unfoldable pub save_file :
      FilePath → ℕ → (BufferedIo → Fs → Option (BufferedIo × Fs)) → Fs → Option Fs
  unfolding buffered_io_init buffered_write word_bytes flush_write_buffer
  save_file path n elements fs = save_open n elements (open_file fs path save_flags mode_644)

  -- The header was read: the elements; `nothing` where the file ends before it.
  abbrev pub load_elements :
      {A : Type 0}
      → ℕ
      → A
      → (ℕ → BufferedIo → Fs → Option A)
      → Fs
      → Option (List ℕ) × BufferedIo
      → Option (A × Fs)
  load_elements fd nothing elements fs (none, io) = some (nothing, close fs fd)
  load_elements fd nothing elements fs (some n, io) = do
    a ← elements (turns (to_int (word_of n))) io fs
    some (a, close fs fd)

  abbrev pub load_with :
      {A : Type 0}
      → ℕ
      → A
      → (ℕ → BufferedIo → Fs → Option A)
      → Option BufferedIo × Fs
      → Option (A × Fs)
  load_with fd nothing elements (none, fs) = some (nothing, close fs fd)
  load_with fd nothing elements (some io, fs) =
      load_elements fd nothing elements fs (buffered_read files 4 io fs)

  -- What comes from a file, once it is open.
  abbrev pub load_open :
      {A : Type 0} → A → (ℕ → BufferedIo → Fs → Option A) → Outcome ℕ × Fs → Option (A × Fs)
  load_open nothing elements (err e, fs) = some (nothing, fs)
  load_open nothing elements (ok fd, fs) =
      load_with fd nothing elements (buffered_io_init files fd io_buffer_size fs)

  unfoldable pub load_file :
      {A : Type 0} → FilePath → A → (ℕ → BufferedIo → Fs → Option A) → Fs → Option (A × Fs)
  unfolding buffered_io_init buffered_read word_of
  load_file path nothing elements fs =
      load_open nothing elements (open_file fs path load_flags mode_644)

  module _ {A : Type 0} where
    unfoldable pub write_list : Encode A → List A → BufferedIo → Fs → Option (BufferedIo × Fs)
    unfolding write_elem_buffered
    write_list encode [] io fs = some (io, fs)
    write_list encode (a ∷ rest) io fs = do
      (io1, fs1) ← write_elem_buffered files io (encode a) fs
      write_list encode rest io1 fs1

    -- At most `n` elements, and none from the first NULL on.
    unfoldable pub read_list : Decode A → ℕ → BufferedIo → Fs → Option (List A)
    unfolding read_elem_buffered
    read_list decode zero io fs = some []
    read_list decode (suc n) io fs = do
      (elem, io1) ← read_elem_buffered files io decode fs
      let rest = read_list decode n io1 fs
      elim elem [ none ↦ some [] | some a ↦ (do others ← rest; some (a ∷ others)) ]

    unfoldable pub save_values_array : FilePath → List A → Encode A → Fs → Option Fs
    unfolding save_file write_list
    save_values_array path values encode fs =
        save_file path (length values) (write_list encode values) fs

    unfoldable pub load_values_array : FilePath → Decode A → Fs → Option (List A × Fs)
    unfolding load_file read_list
    load_values_array path decode fs = load_file path [] (read_list decode) fs

    unfoldable pub gslist_save : FilePath → List A → Encode A → Fs → Option Fs
    unfolding save_file write_list
    gslist_save path list encode fs = save_file path (length list) (write_list encode list) fs

    unfoldable pub gslist_load : FilePath → Decode A → Fs → Option (List A × Fs)
    unfolding load_file read_list
    gslist_load path decode fs = load_file path [] (read_list decode) fs

  module _ {K V : Type 0} where
    -- `save_entry`, for each entry.
    unfoldable pub save_entries :
        Encode K → Encode V → Table K V → BufferedIo → Fs → Option (BufferedIo × Fs)
    unfolding write_elem_buffered
    save_entries key val [] io fs = some (io, fs)
    save_entries key val ((k, v) ∷ rest) io fs = do
      (io1, fs1) ← write_elem_buffered files io (key k) fs
      (io2, fs2) ← write_elem_buffered files io1 (val v) fs1
      save_entries key val rest io2 fs2

    unfoldable pub ghash_save : FilePath → Table K V → Encode K → Encode V → Fs → Option Fs
    unfolding save_file save_entries
    ghash_save path ht key val fs = save_file path (length ht) (save_entries key val ht) fs

    module _ ⦃e : Key K⦄ where
      -- At most `n` entries, and none from the first NULL on.
      unfoldable pub load_entries :
          Decode K → Decode V → ℕ → Table K V → BufferedIo → Fs → Option (Table K V)
      unfolding read_elem_buffered
      load_entries key val zero ht io fs = some ht
      load_entries key val (suc n) ht io fs = do
        (k, io1) ← read_elem_buffered files io key fs
        (v, io2) ← read_elem_buffered files io1 val fs
        elim k [
          | none ↦ some ht
          | some k' ↦ elim v [
            | none ↦ some ht
            | some v' ↦ load_entries key val n (insert k' v' ht) io2 fs
          ]
        ]

      unfoldable pub ghash_load : FilePath → Decode K → Decode V → Fs → Option (Table K V × Fs)
      unfolding load_file load_entries
      ghash_load path key val fs =
          load_file path [] (λ n io fs'. load_entries key val n [] io fs') fs
