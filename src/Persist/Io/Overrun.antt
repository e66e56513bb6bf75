-- ===== src/Persist/Io/Overrun.antt =====
-- What happens after a flush that failed.
use dedup_block_fs.Base.{
  ℕ, ◌+◌, ◌^◌, ◌<◌, ◌≡◌, refl, true, false, none, List, ◌∷◌, ◌==◌, ltb, leb, if◌then◌else◌, length,
  arith,
}
use dedup_block_fs.System.{failed, sub64}
use dedup_block_fs.Persist.{FileSystem, bytes_at}
use dedup_block_fs.Persist.Io.{BufferedIo, flush_write_buffer, write_loop, buffered_write}

module _ (files : FileSystem) where
  open files use {Fs, pwrite}

  -- Where the buffer is full and the write of its bytes fails, the next write copies behind the end
  -- of the buffer.
  pub buffered_write-overrun :
      (io : BufferedIo) (x : ℕ) (xs : List ℕ) (fs : Fs) (e : ℕ)
      → io.buffer_pos ≡ io.buffer_size
      → (0 < io.buffer_size) × (io.buffer_size < 2 ^ 64)
      → (pwrite fs io.fd (bytes_at io.buffer 0 io.buffer_pos) io.file_offset).0 ≡ failed e
      → buffered_write files io (x ∷ xs) fs ≡ none
  unfolding buffered_write write_loop flush_write_buffer
  buffered_write-overrun io x xs fs e full (some_room, small) h =
      let no_room : (sub64 io.buffer_size io.buffer_pos == 0) ≡ true =
        ground (arith, full, some_room, small) in
      let any : (io.buffer_pos == 0) ≡ false = ground (arith, full, some_room) in
      let beyond : leb
            (io.buffer_pos
              + (if ltb (length (x ∷ xs)) io.buffer_size then length (x ∷ xs) else io.buffer_size))
            io.buffer_size
          ≡ false =
        ground (arith, full, some_room) in
      rw (buffered_write, write_loop, no_room, any, h, beyond) refl
