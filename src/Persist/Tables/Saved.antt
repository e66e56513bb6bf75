-- ===== src/Persist/Tables/Saved.antt =====
-- A file that is saved, and a file that is loaded.
use dedup_block_fs.Base.{
  ℕ, ◌^◌, ◌<◌, ◌≡◌, refl, sym, ap, ◌∙◌, true, Option, some, List, [], ◌++◌, length, arith,
}
use dedup_block_fs.Base.Int.{to_int, to_int-pos}
use dedup_block_fs.Keys.{FilePath, bytes_equal, bytes_equal_iff}
use mathlib.Core.List.{append-nil}
use dedup_block_fs.Persist.{FileSystem, bytes_at, save_flags, load_flags, mode_644}
use dedup_block_fs.Persist.Working.{Working, Others}
use dedup_block_fs.Persist.Io.{BufferedIo, io_buffer_size, buffered_io_init, buffered_read}
use dedup_block_fs.Persist.Io.Writes.{Writes, buffered_write-Writes, flush-Writes}
use dedup_block_fs.Persist.Io.Reads.{Reads}
use dedup_block_fs.Persist.Elem.{word_bytes, word_of}
use dedup_block_fs.Persist.Elem.RoundTrip.{length-word_bytes, word_of-word_bytes, front-Reads}
use dedup_block_fs.Persist.Tables.{turns, save_file, load_file}

module _ {files : FileSystem} (w : Working files) where
  open files use {Fs, open_file, close}

  -- No file changes and no descriptor.
  pub record Unchanged (fs fs' : Fs) : Type 0 where
    pub targets : (fd : ℕ) → w.target fs' fd ≡ w.target fs fd
    pub contents : (path : FilePath) → w.contents fs' path ≡ w.contents fs path

  -- A context on an open file.
  pub init-fresh :
      (fs : Fs) (fd : ℕ)
      → (io : BufferedIo) × (fs' : Fs) × (buffered_io_init files fd io_buffer_size fs
          ≡ (some io, fs'))
        × Unchanged fs fs'
        × (io.fd ≡ fd)
        × (io.buffer_pos ≡ 0)
        × (io.buffer_end ≡ 0)
        × (io.file_offset ≡ 0)
        × (io.buffer_size ≡ io_buffer_size)
  unfolding buffered_io_init
  init-fresh fs fd =
      let (unused, fs1, run, t, c) = w.allocates fs 48 in
      let (memory, fs2, run', t', c') = w.allocates fs1 io_buffer_size in
      (
        record {
          fd = fd;
          buffer = memory;
          buffer_size = io_buffer_size;
          buffer_pos = 0;
          buffer_end = 0;
          file_offset = 0;
        },
        fs2,
        rw (buffered_io_init, run, run') refl,
        record { targets = λ fd'. t' fd' ∙ t fd'; contents = λ path. c' path ∙ c path },
        refl,
        refl,
        refl,
        refl,
        refl,
      )

  same_path : (path : FilePath) → bytes_equal path path ≡ true
  same_path path = (bytes_equal_iff path path).1 refl

  -- Saving empties the file and puts the header and the payload there; no other file changes.
  pub save_file-bytes :
      (fs : Fs) (path : FilePath) (n : ℕ) (payload : List ℕ)
      (elements : BufferedIo → Fs → Option (BufferedIo × Fs))
      → ((fs1 : Fs) (io : BufferedIo) (sofar : List ℕ)
          → Writes w fs1 io path sofar
          → (io' : BufferedIo) × (fs' : Fs) × (elements io fs1 ≡ some (io', fs'))
            × Writes w fs' io' path (sofar ++ payload)
            × Others w path fs1 fs')
      → (fs' : Fs) × (save_file files path n elements fs ≡ some fs')
        × (w.contents fs' path ≡ word_bytes 4 n ++ payload)
        × Others w path fs fs'
  unfolding save_file
  save_file-bytes fs path n payload elements put =
      let (fd, fs1, opened, unused, t1, c1) = w.opens fs path save_flags mode_644 in
      let (io, fs2, init, u, e_fd, e_pos, e_end, e_off, e_size) = init-fresh fs1 fd in
      let here : w.target fs2 fd ≡ some path = u.targets fd ∙ ground (arith, t1 fd) in
      let empty : w.contents fs2 path ≡ [] =
        u.contents path ∙ ground (arith, c1 path, same_path path) in
      let v : Writes w fs2 io path [] = record {
        opened = ap (λ k. w.target fs2 k) e_fd ∙ here;
        bytes =
            ap (λ k. w.contents fs2 path ++ bytes_at io.buffer 0 k) e_pos
            ∙ append-nil (w.contents fs2 path)
            ∙ empty;
        offset = e_off ∙ ap (λ l. length l) (sym empty);
        fits = omega (arith, e_pos);
        size = (omega (arith, e_size), omega (arith, e_size));
      } in
      let (io3, fs3, header, v3, o3) = buffered_write-Writes w fs2 io path [] (word_bytes 4 n) v in
      let (io4, fs4, run, v4, o4) = put fs3 io3 (word_bytes 4 n) v3 in
      let (io5, fs5, flush, v5, z, same, all, o5) =
        flush-Writes w fs4 io4 path (word_bytes 4 n ++ payload) v4 in
      (
        close fs5 fd,
        rw (save_file, opened, init, header, run, flush) refl,
        w.close_keeps fs5 fd path ∙ all,
        record {
          targets = λ fd'. ground (
            arith,
            w.closes fs5 fd fd',
            o5.targets fd',
            o4.targets fd',
            o3.targets fd',
            u.targets fd',
            t1 fd',
            unused,
          );
          rest = λ path' h.
              w.close_keeps fs5 fd path'
              ∙ o5.rest path' h
              ∙ o4.rest path' h
              ∙ o3.rest path' h
              ∙ u.contents path'
              ∙ ground (arith, h, c1 path');
        },
      )

  -- Loading reads the number of elements and the elements; no file changes.
  pub load_file-value :
      {A : Type 0} (fs : Fs) (path : FilePath) (n : ℕ) (payload : List ℕ) (nothing a : A)
      (elements : ℕ → BufferedIo → Fs → Option A)
      → n < 2 ^ 31
      → w.contents fs path ≡ word_bytes 4 n ++ payload
      → ((fs1 : Fs) (io : BufferedIo) → Reads w fs1 path io payload → elements n io fs1 ≡ some a)
      → (fs' : Fs) × (load_file files path nothing elements fs ≡ some (a, fs')) × Unchanged fs fs'
  unfolding load_file
  load_file-value fs path n payload nothing a elements small bytes get =
      let (fd, fs1, opened, unused, t1, c1) = w.opens fs path load_flags mode_644 in
      let (io, fs2, init, u, e_fd, e_pos, e_end, e_off, e_size) = init-fresh fs1 fd in
      let header = word_bytes 4 n in
      let here : w.target fs2 fd ≡ some path = u.targets fd ∙ ground (arith, t1 fd) in
      let v : Reads w fs2 path io (header ++ payload) = record {
        opened = ap (λ k. w.target fs2 k) e_fd ∙ here;
        bytes = rw (e_off, e_end, e_pos) (u.contents path ∙ c1 path ∙ bytes);
        order = omega (arith, e_pos);
        fits = omega (arith, e_end);
        size = (omega (arith, e_size), omega (arith, e_size));
      } in
      let (io3, run, v3) = front-Reads w fs2 path io header payload v in
      let first : buffered_read files 4 io fs2 ≡ (some header, io3) =
        ap (λ k. buffered_read files k io fs2) (sym (length-word_bytes 4 n)) ∙ run in
      let number : word_of header ≡ n = word_of-word_bytes 4 n (omega (arith, small)) in
      let count : elements (turns (to_int (word_of header))) io3 fs2 ≡ some a =
        ap (λ k. elements (turns (to_int k)) io3 fs2) number
        ∙ ap (λ k. elements (turns k) io3 fs2) (to_int-pos n small)
        ∙ get fs2 io3 v3 in
      (
        close fs2 fd,
        rw (load_file, opened, init, first, count) refl,
        record {
          targets = λ fd'. ground (arith, w.closes fs2 fd fd', u.targets fd', t1 fd', unused);
          contents = λ path'. w.close_keeps fs2 fd path' ∙ u.contents path' ∙ c1 path';
        },
      )
