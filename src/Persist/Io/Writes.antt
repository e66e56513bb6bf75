-- ===== src/Persist/Io/Writes.antt =====
-- What was written is what the file and the buffer hold together.
use dedup_block_fs.Base.{
  ℕ, zero, suc, ◌+◌, ◌^◌, ◌≤◌, ◌<◌, ◌≡◌, refl, sym, ap, ◌∙◌, subst, inl, inr, true, Bool-cases,
  some, List, [], ◌∷◌, ◌++◌, ◌==◌, ltb, leb, if◌then◌else◌, length, take, drop, take-append-drop,
  length-take, length-drop, length-append, arith,
}
use mathlib.Core.List.{append-nil, append_assoc}
use dedup_block_fs.Keys.{FilePath}
use dedup_block_fs.System.{sub64, moved}
use dedup_block_fs.Persist.{FileSystem, bytes_at, put_at}
use dedup_block_fs.Persist.Memory.{length-bytes_at, bytes_at-grow}
use dedup_block_fs.Persist.Working.{Working, Others, Others-refl, Others-trans}
use dedup_block_fs.Persist.Io.{
  BufferedIo, flush_write_buffer, make_room, write_loop, buffered_write,
}

module _ {files : FileSystem} (w : Working files) where
  open files use {Fs, pwrite}

  -- `sofar` was written to `path` through the context.
  pub record Writes (fs : Fs) (io : BufferedIo) (path : FilePath) (sofar : List ℕ) : Type 0 where
    pub opened : w.target fs io.fd ≡ some path
    pub bytes : w.contents fs path ++ bytes_at io.buffer 0 io.buffer_pos ≡ sofar
    pub offset : io.file_offset ≡ length (w.contents fs path)
    pub fits : io.buffer_pos ≤ io.buffer_size
    pub size : (0 < io.buffer_size) × (io.buffer_size < 2 ^ 64)

  -- The flush empties the buffer into the file.
  pub flush-Writes :
      (fs : Fs) (io : BufferedIo) (path : FilePath) (sofar : List ℕ)
      → Writes fs io path sofar
      → (io' : BufferedIo) × (fs' : Fs) × (flush_write_buffer files io fs ≡ (io', fs'))
        × Writes fs' io' path sofar
        × (io'.buffer_pos ≡ 0)
        × (io'.buffer_size ≡ io.buffer_size)
        × (w.contents fs' path ≡ sofar)
        × Others w path fs fs'
  unfolding flush_write_buffer
  flush-Writes fs io path sofar v = elim (Bool-cases (io.buffer_pos == 0)) [
    | inl e ↦
        let empty : io.buffer_pos ≡ 0 = ground (arith, e) in
        (
          io,
          fs,
          rw (flush_write_buffer, e) refl,
          v,
          empty,
          refl,
          sym (append-nil (w.contents fs path))
              ∙ ap (λ k. w.contents fs path ++ bytes_at io.buffer 0 k) (sym empty)
              ∙ v.bytes,
          Others-refl w path fs,
        )
    | inr e ↦
        let bs = bytes_at io.buffer 0 io.buffer_pos in
        let len : length bs ≡ io.buffer_pos = length-bytes_at io.buffer 0 io.buffer_pos in
        let whole : (length bs == io.buffer_pos) ≡ true = ground (arith, len) in
        let (fs', run, appended, targets, rest) = w.appends fs io.fd path bs v.opened in
        let run' : pwrite fs io.fd bs io.file_offset ≡ (moved (length bs), fs') =
          ap (λ k. pwrite fs io.fd bs k) v.offset ∙ run in
        (
          record io { file_offset = io.file_offset + length bs; buffer_pos = 0 },
          fs',
          rw (flush_write_buffer, e, run', run', whole) refl,
          record {
            opened = targets io.fd ∙ v.opened;
            bytes = append-nil (w.contents fs' path) ∙ appended ∙ v.bytes;
            offset =
                ap (λ k. k + length bs) v.offset
                ∙ sym (length-append (w.contents fs path) bs)
                ∙ ap (λ l. length l) (sym appended);
            fits = omega arith;
            size = v.size;
          },
          refl,
          refl,
          appended ∙ v.bytes,
          record { targets = targets; rest = rest },
        )
  ]

  -- Room for the next bytes.
  make_room-Writes :
      (fs : Fs) (io : BufferedIo) (path : FilePath) (sofar : List ℕ)
      → Writes fs io path sofar
      → (n : ℕ) × (io' : BufferedIo) × (fs' : Fs) × (make_room files io fs ≡ (n, io', fs'))
        × Writes fs' io' path sofar
        × (0 < n)
        × (io'.buffer_pos + n ≤ io'.buffer_size)
        × Others w path fs fs'
  make_room-Writes fs io path sofar v =
      elim (Bool-cases (sub64 io.buffer_size io.buffer_pos == 0)) [
        | inl e ↦
            let (io', fs', run, v', empty, same, all, o) = flush-Writes fs io path sofar v in
            (
              io.buffer_size,
              io',
              fs',
              rw (e, run) refl,
              v',
              v.size.0,
              omega (arith, empty, same),
              o,
            )
        | inr e ↦ (
          sub64 io.buffer_size io.buffer_pos,
          io,
          fs,
          rw e refl,
          v,
          ground arith,
          omega (arith, v.fits, v.size),
          Others-refl w path fs,
        )
      ]

  -- Bytes that are copied behind those in the buffer.
  copied :
      (fs : Fs) (io : BufferedIo) (path : FilePath) (sofar xs : List ℕ) (k : ℕ)
      → length xs ≡ k
      → io.buffer_pos + k ≤ io.buffer_size
      → Writes fs io path sofar
      → Writes fs
          (record io { buffer = put_at io.buffer io.buffer_pos xs; buffer_pos = io.buffer_pos + k })
          path
          (sofar ++ xs)
  copied fs io path sofar xs k len room v = record {
    opened = v.opened;
    bytes =
        ap (λ l. w.contents fs path ++ l)
          (ap (λ j. bytes_at (put_at io.buffer io.buffer_pos xs) 0 (io.buffer_pos + j)) (sym len)
            ∙ bytes_at-grow io.buffer io.buffer_pos xs)
        ∙ sym (append_assoc (w.contents fs path) (bytes_at io.buffer 0 io.buffer_pos) xs)
        ∙ ap (λ l. l ++ xs) v.bytes;
    offset = v.offset;
    fits = room;
    size = v.size;
  }

  write_loop-Writes :
      (fuel : ℕ) (fs : Fs) (io : BufferedIo) (path : FilePath) (sofar src : List ℕ)
      → length src ≤ fuel
      → Writes fs io path sofar
      → (io' : BufferedIo) × (fs' : Fs) × (write_loop files fuel io src fs ≡ some (io', fs'))
        × Writes fs' io' path (sofar ++ src)
        × Others w path fs fs'
  unfolding write_loop
  write_loop-Writes fuel fs io path sofar [] h v = (
    io,
    fs,
    refl,
    subst (λ l. Writes fs io path l) (sym (append-nil sofar)) v,
    Others-refl w path fs,
  )
  write_loop-Writes zero fs io path sofar (x ∷ xs) h v = absurd (omega arith)
  write_loop-Writes (suc fuel) fs io path sofar (x ∷ xs) h v =
      let src = x ∷ xs in
      let (n, io1, fs1, run, v1, some_room, room, o) = make_room-Writes fs io path sofar v in
      let c = if ltb (length src) n then length src else n in
      let len : length (take c src) ≡ c = length-take c src (ground arith) in
      let v2 = copied fs1 io1 path sofar (take c src) c len (ground (arith, room)) v1 in
      let (io', fs', more, v', o') =
        write_loop-Writes fuel fs1
          (record io1 {
            buffer = put_at io1.buffer io1.buffer_pos (take c src);
            buffer_pos = io1.buffer_pos + c;
          })
          path (sofar ++ take c src) (drop c src) (ground (arith, length-drop c src, some_room))
          v2 in
      let all : (sofar ++ take c src) ++ drop c src ≡ sofar ++ src =
        append_assoc sofar (take c src) (drop c src)
        ∙ ap (λ l. sofar ++ l) (take-append-drop c src) in
      let fits : leb (io1.buffer_pos + c) io1.buffer_size ≡ true = ground (arith, room) in
      (
        io',
        fs',
        rw (write_loop, run, fits) more,
        subst (λ l. Writes fs' io' path l) all v',
        Others-trans w path fs fs1 fs' o o',
      )

  -- A write goes through, and adds its bytes to those that were written.
  pub buffered_write-Writes :
      (fs : Fs) (io : BufferedIo) (path : FilePath) (sofar src : List ℕ)
      → Writes fs io path sofar
      → (io' : BufferedIo) × (fs' : Fs) × (buffered_write files io src fs ≡ some (io', fs'))
        × Writes fs' io' path (sofar ++ src)
        × Others w path fs fs'
  unfolding buffered_write
  buffered_write-Writes fs io path sofar src v =
      write_loop-Writes (length src) fs io path sofar src (omega arith) v
