-- ===== src/Persist/Tables/RoundTrip.antt =====
-- What was saved is loaded again.
use dedup_block_fs.Base.{ℕ, ◌^◌, ◌<◌, ◌≡◌, refl, sym, subst, some, List, [], ◌∷◌, ◌++◌, All, length}
use mathlib.Core.List.{append_assoc, append-nil}
use dedup_block_fs.Keys.{FilePath}
use dedup_block_fs.Persist.{FileSystem}
use dedup_block_fs.Persist.Working.{Working, Others, Others-refl, Others-trans}
use dedup_block_fs.Persist.Io.{BufferedIo}
use dedup_block_fs.Persist.Io.Writes.{Writes}
use dedup_block_fs.Persist.Io.Reads.{Reads}
use dedup_block_fs.Persist.Elem.{word_bytes, Encode, Decode}
use dedup_block_fs.Persist.Elem.RoundTrip.{Decodes, frame, write_elem-Writes, read_elem-Reads}
use dedup_block_fs.Persist.Tables.{
  write_list, read_list, gslist_save, gslist_load, save_values_array, load_values_array,
}
use dedup_block_fs.Persist.Tables.Saved.{Unchanged, save_file-bytes, load_file-value}

-- The bytes of a list.
abbrev pub list_bytes : {A : Type 0} → Encode A → List A → List ℕ
list_bytes encode [] = []
list_bytes encode (a ∷ rest) = frame (encode a) ++ list_bytes encode rest

module _ {files : FileSystem} (w : Working files) where
  open files use {Fs}

  module _ {A : Type 0} (encode : Encode A) where
    pub write_list-Writes :
        (l : List A) (fs : Fs) (io : BufferedIo) (path : FilePath) (sofar : List ℕ)
        → Writes w fs io path sofar
        → (io' : BufferedIo) × (fs' : Fs) × (write_list files encode l io fs ≡ some (io', fs'))
          × Writes w fs' io' path (sofar ++ list_bytes encode l)
          × Others w path fs fs'
    unfolding write_list
    write_list-Writes [] fs io path sofar v = (
      io,
      fs,
      refl,
      subst (λ s. Writes w fs io path s) (sym (append-nil sofar)) v,
      Others-refl w path fs,
    )
    write_list-Writes (a ∷ rest) fs io path sofar v =
        let (io1, fs1, run, v1, o) = write_elem-Writes w fs io path sofar (encode a) v in
        let (io2, fs2, run', v2, o') =
          write_list-Writes rest fs1 io1 path (sofar ++ frame (encode a)) v1 in
        (
          io2,
          fs2,
          rw (write_list, run) run',
          subst (λ s. Writes w fs2 io2 path s)
              (append_assoc sofar (frame (encode a)) (list_bytes encode rest)) v2,
          Others-trans w path fs fs1 fs2 o o',
        )

    pub read_list-Reads :
        (decode : Decode A) (l : List A) (fs : Fs) (path : FilePath) (io : BufferedIo)
        → All (Decodes encode decode) l
        → Reads w fs path io (list_bytes encode l)
        → read_list files decode (length l) io fs ≡ some l
    unfolding read_list
    read_list-Reads decode [] fs path io h v = refl
    read_list-Reads decode (a ∷ rest) fs path io h v =
        let (io1, run, v1) =
          read_elem-Reads w encode decode fs path io a (list_bytes encode rest) h.0 v in
        rw (read_list, run, read_list-Reads decode rest fs path io1 h.1 v1) refl

    -- The bytes of the file of a list.
    abbrev pub list_file : List A → List ℕ
    list_file l = word_bytes 4 (length l) ++ list_bytes encode l

    -- The file of a saved list; no other file changes.
    pub gslist_save-bytes :
        (fs : Fs) (path : FilePath) (l : List A)
        → (fs' : Fs) × (gslist_save files path l encode fs ≡ some fs')
          × (w.contents fs' path ≡ list_file l)
          × Others w path fs fs'
    unfolding gslist_save
    gslist_save-bytes fs path l =
        save_file-bytes w fs path (length l) (list_bytes encode l) (write_list files encode l)
          (λ fs1 io sofar h. write_list-Writes l fs1 io path sofar h)

    -- The list of a file; no file changes.
    pub gslist_load-list :
        (decode : Decode A) (fs : Fs) (path : FilePath) (l : List A)
        → All (Decodes encode decode) l
        → length l < 2 ^ 31
        → w.contents fs path ≡ list_file l
        → (fs' : Fs) × (gslist_load files path decode fs ≡ some (l, fs')) × Unchanged w fs fs'
    unfolding gslist_load
    gslist_load-list decode fs path l c small bytes =
        load_file-value w fs path (length l) (list_bytes encode l) [] l (read_list files decode)
          small bytes (λ fs1 io h. read_list-Reads decode l fs1 path io c h)

    pub save_values_array-bytes :
        (fs : Fs) (path : FilePath) (l : List A)
        → (fs' : Fs) × (save_values_array files path l encode fs ≡ some fs')
          × (w.contents fs' path ≡ list_file l)
          × Others w path fs fs'
    unfolding save_values_array gslist_save
    save_values_array-bytes fs path l = gslist_save-bytes fs path l

    pub load_values_array-list :
        (decode : Decode A) (fs : Fs) (path : FilePath) (l : List A)
        → All (Decodes encode decode) l
        → length l < 2 ^ 31
        → w.contents fs path ≡ list_file l
        → (fs' : Fs) × (load_values_array files path decode fs ≡ some (l, fs')) × Unchanged w fs fs'
    unfolding load_values_array gslist_load
    load_values_array-list decode fs path l c small bytes =
        gslist_load-list decode fs path l c small bytes
