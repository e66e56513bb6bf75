-- ===== src/Persist/Tables/Entries.antt =====
-- A table that was saved is loaded again.
use dedup_block_fs.Base.{
  ℕ, ◌^◌, ◌<◌, ◌≡◌, refl, sym, ap, ◌∙◌, subst, some, List, [], ◌∷◌, ◌++◌, All, length,
}
use mathlib.Core.List.{append_assoc, append-nil}
use dedup_block_fs.Keys.{FilePath}
use dedup_block_fs.Table.{Key, Table, insert, Distinct}
use dedup_block_fs.Table.Build.{insert_next}
use dedup_block_fs.Persist.{FileSystem}
use dedup_block_fs.Persist.Working.{Working, Others, Others-refl, Others-trans}
use dedup_block_fs.Persist.Io.{BufferedIo}
use dedup_block_fs.Persist.Io.Writes.{Writes}
use dedup_block_fs.Persist.Io.Reads.{Reads}
use dedup_block_fs.Persist.Elem.{word_bytes, Encode, Decode, write_elem_buffered}
use dedup_block_fs.Persist.Elem.RoundTrip.{Decodes, frame, write_elem-Writes, read_elem-Reads}
use dedup_block_fs.Persist.Tables.{save_entries, load_entries, ghash_save, ghash_load}
use dedup_block_fs.Persist.Tables.Saved.{Unchanged, save_file-bytes, load_file-value}

module _ {K V : Type 0} (key : Encode K) (val : Encode V) where
  -- The bytes of the entries of a table, and of its file.
  abbrev pub entry_bytes : K × V → List ℕ
  entry_bytes (k, v) = frame (key k) ++ frame (val v)

  abbrev pub entries_bytes : Table K V → List ℕ
  entries_bytes [] = []
  entries_bytes (entry ∷ rest) = entry_bytes entry ++ entries_bytes rest

  abbrev pub table_bytes : Table K V → List ℕ
  table_bytes t = word_bytes 4 (length t) ++ entries_bytes t

  -- Every key and every value of the table can be decoded.
  abbrev pub Entries : Decode K → Decode V → Table K V → Type 0
  Entries key' val' t =
      All (λ (entry : K × V). Decodes key key' entry.0 × Decodes val val' entry.1) t

  module _ {files : FileSystem} (w : Working files) where
    open files use {Fs}

    -- An entry is its key, then its value.
    pub write_entry-Writes :
        (k : K) (v : V) (fs : Fs) (io : BufferedIo) (path : FilePath) (sofar : List ℕ)
        → Writes w fs io path sofar
        → (io1 : BufferedIo) × (fs1 : Fs) × (io2 : BufferedIo) × (fs2 : Fs) × (write_elem_buffered
              files io
              (key k)
              fs
            ≡ some (io1, fs1))
          × (write_elem_buffered files io1 (val v) fs1 ≡ some (io2, fs2))
          × Writes w fs2 io2 path (sofar ++ entry_bytes (k, v))
          × Others w path fs fs2
    write_entry-Writes k v fs io path sofar h =
        let (io1, fs1, run, v1, o) = write_elem-Writes w fs io path sofar (key k) h in
        let (io2, fs2, run', v2, o') =
          write_elem-Writes w fs1 io1 path (sofar ++ frame (key k)) (val v) v1 in
        (
          io1,
          fs1,
          io2,
          fs2,
          run,
          run',
          subst (λ s. Writes w fs2 io2 path s) (append_assoc sofar (frame (key k)) (frame (val v)))
              v2,
          Others-trans w path fs fs1 fs2 o o',
        )

    save_entries-Writes :
        (t : Table K V) (fs : Fs) (io : BufferedIo) (path : FilePath) (sofar : List ℕ)
        → Writes w fs io path sofar
        → (io' : BufferedIo) × (fs' : Fs) × (save_entries files key val t io fs ≡ some (io', fs'))
          × Writes w fs' io' path (sofar ++ entries_bytes t)
          × Others w path fs fs'
    unfolding save_entries
    save_entries-Writes [] fs io path sofar h = (
      io,
      fs,
      refl,
      subst (λ s. Writes w fs io path s) (sym (append-nil sofar)) h,
      Others-refl w path fs,
    )
    save_entries-Writes ((k, v) ∷ rest) fs io path sofar h =
        let (io1, fs1, io2, fs2, run, run', h2, o) = write_entry-Writes k v fs io path sofar h in
        let (io3, fs3, more, h3, o') =
          save_entries-Writes rest fs2 io2 path (sofar ++ entry_bytes (k, v)) h2 in
        (
          io3,
          fs3,
          rw (save_entries, run, run') more,
          subst (λ s. Writes w fs3 io3 path s)
              (append_assoc sofar (entry_bytes (k, v)) (entries_bytes rest)) h3,
          Others-trans w path fs fs2 fs3 o o',
        )

    -- The file of a saved table; no other file changes.
    pub ghash_save-bytes :
        (fs : Fs) (path : FilePath) (t : Table K V)
        → (fs' : Fs) × (ghash_save files path t key val fs ≡ some fs')
          × (w.contents fs' path ≡ table_bytes t)
          × Others w path fs fs'
    unfolding ghash_save
    ghash_save-bytes fs path t =
        save_file-bytes w fs path (length t) (entries_bytes t) (save_entries files key val t)
          (λ fs1 io sofar h. save_entries-Writes t fs1 io path sofar h)

    module _ ⦃e : Key K⦄ (key' : Decode K) (val' : Decode V) where
      load_entries-Reads :
          (t before : Table K V) (fs : Fs) (io : BufferedIo) (path : FilePath)
          → Entries key' val' t
          → Distinct (before ++ t)
          → Reads w fs path io (entries_bytes t)
          → load_entries files key' val' (length t) before io fs ≡ some (before ++ t)
      unfolding load_entries
      load_entries-Reads [] before fs io path c d h = ap some (sym (append-nil before))
      load_entries-Reads ((k, v) ∷ rest) before fs io path ((ck, cv), more) d h =
          let parts = append_assoc (frame (key k)) (frame (val v)) (entries_bytes rest) in
          let (io1, run, h1) =
            read_elem-Reads w key key' fs path io k (frame (val v) ++ entries_bytes rest) ck
              (subst (λ s. Reads w fs path io s) parts h) in
          let (io2, run', h2) =
            read_elem-Reads w val val' fs path io1 v (entries_bytes rest) cv h1 in
          let next = insert_next k v before rest d in
          rw (load_entries, run, run')
            (load_entries-Reads rest (insert k v before) fs io2 path more
                (subst (λ s. Distinct s) (sym next) d) h2
              ∙ ap some next)

      -- The table of a file; no file changes.
      pub ghash_load-table :
          (fs : Fs) (path : FilePath) (t : Table K V)
          → Entries key' val' t
          → Distinct t
          → length t < 2 ^ 31
          → w.contents fs path ≡ table_bytes t
          → (fs' : Fs) × (ghash_load files path key' val' fs ≡ some (t, fs')) × Unchanged w fs fs'
      unfolding ghash_load
      ghash_load-table fs path t c d small bytes =
          load_file-value w fs path (length t) (entries_bytes t) [] t
            (λ n io fs'. load_entries files key' val' n [] io fs') small bytes
            (λ fs1 io h. load_entries-Reads t [] fs1 io path c d h)
