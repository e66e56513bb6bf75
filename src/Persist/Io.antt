-- ===== src/Persist/Io.antt =====
-- src/persistence.c: the buffered reads and writes.
pub mod Writes
pub mod Reads
pub mod Overrun
use dedup_block_fs.Base.{
  ℕ, zero, suc, ◌+◌, ◌-◌, Option, none, some, List, [], ◌∷◌, ◌++◌, ◌==◌, ltb, leb, if◌then◌else◌,
  ◌>>=◌, length, take, drop,
}
use dedup_block_fs.System.{Ssize, moved, failed, sub64, add64}
use dedup_block_fs.Persist.{FileSystem, bytes_at, put_at}

-- `BufferedIOCtx`
pub record BufferedIo : Type 0 where
  pub fd : ℕ
  pub buffer : ℕ → ℕ
  pub buffer_size : ℕ
  pub buffer_pos : ℕ
  pub buffer_end : ℕ
  pub file_offset : ℕ

-- BUFFER_SIZE
abbrev pub io_buffer_size : ℕ
io_buffer_size = 10485760

module _ (files : FileSystem) where
  open files use {Fs, pwrite, pread, malloc}

  -- The second allocation is over.
  abbrev pub with_buffer : ℕ → ℕ → Option (ℕ → ℕ) × Fs → Option BufferedIo × Fs
  with_buffer fd buffer_size (none, fs) = (none, fs)
  with_buffer fd buffer_size (some memory, fs) = (
    some (record {
      fd = fd;
      buffer = memory;
      buffer_size = buffer_size;
      buffer_pos = 0;
      buffer_end = 0;
      file_offset = 0;
    }),
    fs,
  )

  -- The first allocation, of the struct, is over.
  abbrev pub with_struct : ℕ → ℕ → Option (ℕ → ℕ) × Fs → Option BufferedIo × Fs
  with_struct fd buffer_size (none, fs) = (none, fs)
  with_struct fd buffer_size (some unused, fs) = with_buffer fd buffer_size (malloc fs buffer_size)

  unfoldable pub buffered_io_init : ℕ → ℕ → Fs → Option BufferedIo × Fs
  buffered_io_init fd buffer_size fs = with_struct fd buffer_size (malloc fs 48)

  -- The buffer after a write of `written` of its bytes: what is left moves to the front.
  abbrev pub flushed_part : ℕ → BufferedIo → BufferedIo
  flushed_part written ctx =
      if written == ctx.buffer_pos
      then record ctx { file_offset = ctx.file_offset + written; buffer_pos = 0 }
      else (if ltb 0 written
          then record ctx {
            file_offset = ctx.file_offset + written;
            buffer = put_at ctx.buffer 0 (bytes_at ctx.buffer written (ctx.buffer_pos - written));
            buffer_pos = ctx.buffer_pos - written;
          }
          else ctx)

  unfoldable pub flush_write_buffer : BufferedIo → Fs → BufferedIo × Fs
  flush_write_buffer ctx fs =
      let (r, fs') = pwrite fs ctx.fd (bytes_at ctx.buffer 0 ctx.buffer_pos) ctx.file_offset in
      let done : BufferedIo × Fs = elim r [
        | moved written ↦ (flushed_part written ctx, fs')
        | failed e ↦ (ctx, fs')
      ] in
      if ctx.buffer_pos == 0 then (ctx, fs) else done

  -- FALSE is none.
  unfoldable pub refill_read_buffer : BufferedIo → Fs → Option BufferedIo
  refill_read_buffer ctx fs =
      let (r, got) = pread fs ctx.fd ctx.buffer_size ctx.file_offset in
      elim r [
        | failed e ↦ none
        | moved nread ↦
            if nread == 0
            then none
            else some (record ctx {
              buffer = put_at ctx.buffer 0 (take nread got);
              buffer_end = nread;
              buffer_pos = 0;
              file_offset = ctx.file_offset + nread;
            })
      ]

  -- Room for the next bytes: the buffer is flushed where it is full, and taken to be empty then.
  abbrev pub make_room : BufferedIo → Fs → ℕ × BufferedIo × Fs
  make_room ctx fs =
      let available = sub64 ctx.buffer_size ctx.buffer_pos in
      let (ctx1, fs1) = flush_write_buffer ctx fs in
      if available == 0 then (ctx.buffer_size, ctx1, fs1) else (available, ctx, fs)

  -- The loop. Every turn copies at least a byte into a buffer that has any, so the length of the
  -- data is enough fuel.
  unfoldable pub write_loop : ℕ → BufferedIo → List ℕ → Fs → Option (BufferedIo × Fs)
  unfolding flush_write_buffer
  write_loop fuel ctx [] fs = some (ctx, fs)
  write_loop zero ctx (x ∷ xs) fs = none
  write_loop (suc fuel) ctx (x ∷ xs) fs =
      let (available, ctx1, fs1) = make_room ctx fs in
      let to_copy = if ltb (length (x ∷ xs)) available then length (x ∷ xs) else available in
      let more =
        write_loop fuel
          (record ctx1 {
            buffer = put_at ctx1.buffer ctx1.buffer_pos (take to_copy (x ∷ xs));
            buffer_pos = ctx1.buffer_pos + to_copy;
          })
          (drop to_copy (x ∷ xs)) fs1 in
      if leb (ctx1.buffer_pos + to_copy) ctx1.buffer_size then more else none

  unfoldable pub buffered_write : BufferedIo → List ℕ → Fs → Option (BufferedIo × Fs)
  unfolding write_loop
  buffered_write ctx src fs = write_loop (length src) ctx src fs

  -- The next bytes: `none` where the file ends.
  abbrev pub next_bytes : BufferedIo → Fs → Option BufferedIo
  next_bytes ctx fs =
      if sub64 ctx.buffer_end ctx.buffer_pos == 0 then refill_read_buffer ctx fs else some ctx

  abbrev pub before_rest : List ℕ → Option (List ℕ) × BufferedIo → Option (List ℕ) × BufferedIo
  before_rest chunk (none, ctx) = (none, ctx)
  before_rest chunk (some rest, ctx) = (some (chunk ++ rest), ctx)

  -- The loop for `size` bytes. Every turn takes at least one, so `size` is enough fuel.
  unfoldable pub read_loop : ℕ → ℕ → BufferedIo → Fs → Option (List ℕ) × BufferedIo
  unfolding refill_read_buffer
  read_loop fuel zero ctx fs = (some [], ctx)
  read_loop zero (suc size) ctx fs = (none, ctx)
  read_loop (suc fuel) (suc size) ctx fs = elim (next_bytes ctx fs) [
    | none ↦ (none, ctx)
    | some ctx1 ↦
        let available = sub64 ctx1.buffer_end ctx1.buffer_pos in
        let to_copy = if ltb (suc size) available then suc size else available in
        let more =
          read_loop fuel (suc size - to_copy)
            (record ctx1 { buffer_pos = ctx1.buffer_pos + to_copy }) fs in
        if available == 0
        then (none, ctx1)
        else before_rest (bytes_at ctx1.buffer ctx1.buffer_pos to_copy) more
  ]

  unfoldable pub buffered_read : ℕ → BufferedIo → Fs → Option (List ℕ) × BufferedIo
  unfolding read_loop
  buffered_read size ctx fs = read_loop size size ctx fs
