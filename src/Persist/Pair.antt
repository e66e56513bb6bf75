-- ===== src/Persist/Pair.antt =====
-- src/persistence.c: two tables that share their values. A value is written once, and the tables
-- hold its place in the array of values.
pub mod Places
pub mod Shared
pub mod Saved
pub mod Loaded
use dedup_block_fs.Base.{
  ℕ, ◌+◌, ◌-◌, ◌≡◌, ◌↔◌, Option, none, some, List, [], ◌∷◌, ◌++◌, ◌==◌, ==_iff, ltb, if◌then◌else◌,
  ◌>>=◌, length,
}
use dedup_block_fs.Keys.{FilePath}
use dedup_block_fs.Table.{Key, Table, lookup, insert}
use dedup_block_fs.Index.{Ptr, MasterInfo}
use dedup_block_fs.Fuse.{Outcome, ok, err}
use dedup_block_fs.Persist.{FileSystem, save_flags, mode_644}
use dedup_block_fs.Persist.Io.{
  BufferedIo, io_buffer_size, buffered_io_init, buffered_write, flush_write_buffer,
}
use dedup_block_fs.Persist.Elem.{
  word_bytes, Encode, Decode, encode_size_elem, decode_size_elem, write_elem_buffered,
}
use dedup_block_fs.Persist.Tables.{save_values_array, load_values_array, ghash_load}

-- g_direct_equal
instance abbrev pub pointer_key : Key ℕ
pointer_key = record { equal = ◌==◌; equal_iff = ==_iff }

-- `value_to_index` and `values`; an index is stored with 1 added, so that it is not NULL.
pub record IndexedValues : Type 0 where
  pub value_to_index : Table Ptr ℕ
  pub values : List Ptr

-- The index of the value, with the values after the call.
unfoldable pub get_or_create_value_index : IndexedValues → Ptr → ℕ × IndexedValues
get_or_create_value_index c value = elim (lookup value c.value_to_index) [
  | some existing ↦ (existing - 1, c)
  | none ↦ (
    length c.values,
    record {
      value_to_index = insert value (length c.values + 1) c.value_to_index;
      values = c.values ++ (value ∷ []);
    },
  )
]

-- `collect_value_index`, for each entry.
unfoldable pub collect_values : {K : Type 0} → Table K Ptr → IndexedValues → IndexedValues
unfolding get_or_create_value_index
collect_values [] c = c
collect_values ((k, p) ∷ rest) c = collect_values rest (get_or_create_value_index c p).1

-- The objects behind the pointers: `none` where one was freed.
unfoldable pub objects : (Ptr → Option MasterInfo) → List Ptr → Option (List MasterInfo)
objects infos [] = some []
objects infos (p ∷ rest) = do m ← infos p; others ← objects infos rest; some (m ∷ others)

-- The entries whose place lies in the array, with the object at that place: the object at place `i`
-- of the array that was loaded has the address `i`.
unfoldable pub share_values : {K : Type 0} ⦃e : Key K⦄ → ℕ → Table K ℕ → Table K Ptr → Table K Ptr
share_values len [] t = t
share_values len ((k, idx) ∷ rest) t =
    share_values len rest (if ltb idx len then insert k idx t else t)

module _ (files : FileSystem) where
  open files use {Fs, open_file, close}

  -- `save_indexed_entry`, for each entry.
  unfoldable pub save_indexed_entries :
      {K : Type 0}
      → Encode K
      → Table Ptr ℕ
      → Table K Ptr
      → BufferedIo
      → Fs
      → Option (BufferedIo × Fs)
  unfolding write_elem_buffered encode_size_elem
  save_indexed_entries key v2i [] io fs = some (io, fs)
  save_indexed_entries key v2i ((k, p) ∷ rest) io fs = elim (lookup p v2i) [
    | none ↦ save_indexed_entries key v2i rest io fs
    | some stored ↦ do
      (io1, fs1) ← write_elem_buffered files io (key k) fs
      (io2, fs2) ← write_elem_buffered files io1 (encode_size_elem (stored - 1)) fs1
      save_indexed_entries key v2i rest io2 fs2
  ]

  -- The header and the entries of one table, and the flush.
  unfoldable pub save_indexed_table :
      {K : Type 0} → Encode K → Table Ptr ℕ → Table K Ptr → BufferedIo → Fs → Option Fs
  unfolding buffered_write word_bytes save_indexed_entries flush_write_buffer
  save_indexed_table key v2i t io fs = do
    (io1, fs1) ← buffered_write files io (word_bytes 4 (length t)) fs
    (io2, fs2) ← save_indexed_entries key v2i t io1 fs1
    some (flush_write_buffer files io2 fs2).1

  module _ {K L : Type 0} (path2 values_path : FilePath) (table1 : Table K Ptr)
      (table2 : Table L Ptr) (key1 : Encode K) (key2 : Encode L) (val : Encode MasterInfo)
      (infos : Ptr → Option MasterInfo) where
    module _ (c : IndexedValues) (fd1 fd2 : ℕ) where
      -- The second context is there, or one is missing: the values, then the two tables.
      abbrev pub save_tables : Option BufferedIo → Option BufferedIo × Fs → Option Fs
      save_tables none (ctx2, fs) = some (close (close fs fd1) fd2)
      save_tables (some io1) (none, fs) = some (close (close fs fd1) fd2)
      save_tables (some io1) (some io2, fs) = do
        values ← objects infos c.values
        fs1 ← save_values_array files values_path values val fs
        fs2 ← save_indexed_table key1 c.value_to_index table1 io1 fs1
        fs3 ← save_indexed_table key2 c.value_to_index table2 io2 fs2
        some (close (close fs3 fd1) fd2)

      -- The first context.
      abbrev pub save_contexts : Option BufferedIo × Fs → Option Fs
      save_contexts (ctx1, fs) = save_tables ctx1 (buffered_io_init files fd2 io_buffer_size fs)

    -- The second file is open, or not.
    abbrev pub save_second : IndexedValues → ℕ → Outcome ℕ × Fs → Option Fs
    save_second c fd1 (err e, fs) = some (close fs fd1)
    save_second c fd1 (ok fd2, fs) =
        save_contexts c fd1 fd2 (buffered_io_init files fd1 io_buffer_size fs)

    -- The first file is open, or not.
    abbrev pub save_first : IndexedValues → Outcome ℕ × Fs → Option Fs
    save_first c (err e, fs) = some fs
    save_first c (ok fd1, fs) = save_second c fd1 (open_file fs path2 save_flags mode_644)

    -- The values of both tables with their places.
    abbrev pub all_values : IndexedValues
    all_values =
        collect_values table2 (collect_values table1 (record { value_to_index = []; values = [] }))

    unfoldable pub ghash_save_indexed_pair : FilePath → Fs → Option Fs
    unfolding collect_values objects save_values_array save_indexed_table buffered_io_init
    ghash_save_indexed_pair path1 fs =
        save_first all_values (open_file fs path1 save_flags mode_644)

  module _ {K L : Type 0} where
    module _ ⦃e1 : Key K⦄ ⦃e2 : Key L⦄ where
      -- The two tables with the array of their values.
      unfoldable pub ghash_load_indexed_pair :
          FilePath
          → FilePath
          → FilePath
          → Decode K
          → Decode L
          → Decode MasterInfo
          → Fs
          → Option (Table K Ptr × Table L Ptr × List MasterInfo × Fs)
      unfolding load_values_array ghash_load decode_size_elem share_values
      ghash_load_indexed_pair path1 path2 values_path key1 key2 val fs = do
        (values, fs1) ← load_values_array files values_path val fs
        (table1_idx, fs2) ← ghash_load files path1 key1 decode_size_elem fs1
        (table2_idx, fs3) ← ghash_load files path2 key2 decode_size_elem fs2
        some (
          share_values (length values) table1_idx [],
          share_values (length values) table2_idx [],
          values,
          fs3,
        )
