-- ===== src/Persist/Io/Reads.antt =====
-- What is still to be read is what the buffer and the rest of the file hold together.
use dedup_block_fs.Base.{
  ℕ, zero, suc, ◌+◌, ◌-◌, ◌^◌, ◌≤◌, ◌<◌, ◌≡◌, refl, sym, ap, ◌∙◌, subst, inl, inr, false,
  Bool-cases, some, List, ◌++◌, ◌==◌, ltb, if◌then◌else◌, length, take, drop, take_add, drop_add,
  take-append-drop, take-append, drop-append, length-take, length-drop, arith,
}
use mathlib.Core.List.{append_assoc}
use dedup_block_fs.Keys.{FilePath}
use dedup_block_fs.System.{sub64}
use dedup_block_fs.Persist.{FileSystem, bytes_at, put_at}
use dedup_block_fs.Persist.Memory.{length-bytes_at, bytes_at-append, bytes_at-put}
use dedup_block_fs.Persist.Working.{Working}
use dedup_block_fs.Persist.Io.{BufferedIo, refill_read_buffer, next_bytes, read_loop, buffered_read}

split_take : (l : List ℕ) (c n : ℕ) → c ≤ n → take c l ++ take (n - c) (drop c l) ≡ take n l
split_take l c n h =
    let sum : c + (n - c) ≡ n = omega (arith, h) in
    sym (take_add c (n - c) l) ∙ ap (λ k. take k l) sum

split_drop : (l : List ℕ) (c n : ℕ) → c ≤ n → drop (n - c) (drop c l) ≡ drop n l
split_drop l c n h =
    let sum : c + (n - c) ≡ n = omega (arith, h) in
    sym (drop_add c (n - c) l) ∙ ap (λ k. drop k l) sum

module _ {files : FileSystem} (w : Working files) (fs : files.Fs) (path : FilePath) where
  open files use {Fs, pread}

  -- `rest` is still to be read.
  pub record Reads (io : BufferedIo) (rest : List ℕ) : Type 0 where
    pub opened : w.target fs io.fd ≡ some path
    pub bytes :
        bytes_at io.buffer io.buffer_pos (io.buffer_end - io.buffer_pos)
          ++ drop io.file_offset (w.contents fs path)
        ≡ rest
    pub order : io.buffer_pos ≤ io.buffer_end
    pub fits : io.buffer_end ≤ io.buffer_size
    pub size : (0 < io.buffer_size) × (io.buffer_size < 2 ^ 64)

  -- Where the buffer is used up, it is filled again.
  refill-Reads :
      (io : BufferedIo) (rest : List ℕ)
      → Reads io rest
      → io.buffer_pos ≡ io.buffer_end
      → 0 < length rest
      → (io' : BufferedIo) × (refill_read_buffer files io fs ≡ some io')
        × Reads io' rest
        × (io'.buffer_pos < io'.buffer_end)
  unfolding refill_read_buffer
  refill-Reads io rest v e more =
      let behind = drop io.file_offset (w.contents fs path) in
      let none_left : io.buffer_end - io.buffer_pos ≡ 0 = omega (arith, e) in
      let all : behind ≡ rest =
        ap (λ k. bytes_at io.buffer io.buffer_pos k ++ behind) (sym none_left) ∙ v.bytes in
      let (n, got, run, same, n_got, n_size, n_rest, some_bytes) =
        w.delivers fs io.fd path io.buffer_size io.file_offset v.opened in
      let positive : 0 < n = some_bytes v.size.0 (ground (arith, all, more)) in
      let test : (n == 0) ≡ false = ground (arith, positive) in
      let len : length (take n got) ≡ n = length-take n got n_got in
      let read : bytes_at (put_at io.buffer 0 (take n got)) 0 n ≡ take n behind =
        ap (λ k. bytes_at (put_at io.buffer 0 (take n got)) 0 k) (sym len)
        ∙ bytes_at-put io.buffer 0 (take n got)
        ∙ same in
      let n_same : n - 0 ≡ n = omega arith in
      (
        record io {
          buffer = put_at io.buffer 0 (take n got);
          buffer_end = n;
          buffer_pos = 0;
          file_offset = io.file_offset + n;
        },
        rw (refill_read_buffer, run, run, test) refl,
        record {
          opened = v.opened;
          bytes =
              rw (n_same, read, drop_add io.file_offset n (w.contents fs path))
                (take-append-drop n behind ∙ all);
          order = omega arith;
          fits = n_size;
          size = v.size;
        },
        positive,
      )

  next_bytes-Reads :
      (io : BufferedIo) (rest : List ℕ)
      → Reads io rest
      → 0 < length rest
      → (io' : BufferedIo) × (next_bytes files io fs ≡ some io')
        × Reads io' rest
        × (io'.buffer_pos < io'.buffer_end)
  next_bytes-Reads io rest v more = elim (Bool-cases (sub64 io.buffer_end io.buffer_pos == 0)) [
    | inl e ↦
        let (io', run, v', some_left) =
          refill-Reads io rest v (ground (arith, e, v.order, v.fits, v.size)) more in
        (io', rw (e, run) refl, v', some_left)
    | inr e ↦ (io, rw e refl, v, ground (arith, e, v.order, v.fits, v.size))
  ]

  -- The next `c` bytes, where the buffer holds them.
  taken :
      (io : BufferedIo) (rest : List ℕ) (c : ℕ)
      → io.buffer_pos + c ≤ io.buffer_end
      → Reads io rest
      → (take c rest ≡ bytes_at io.buffer io.buffer_pos c)
        × Reads (record io { buffer_pos = io.buffer_pos + c }) (drop c rest)
  taken io rest c h v =
      let left = io.buffer_end - (io.buffer_pos + c) in
      let chunk = bytes_at io.buffer io.buffer_pos c in
      let behind =
        bytes_at io.buffer (io.buffer_pos + c) left ++ drop io.file_offset (w.contents fs path) in
      let sum : io.buffer_end - io.buffer_pos ≡ c + left = omega (arith, h) in
      let parts : rest ≡ chunk ++ behind =
        sym v.bytes
        ∙ ap (λ k. bytes_at io.buffer io.buffer_pos k ++ drop io.file_offset (w.contents fs path))
            sum
        ∙ ap (λ l. l ++ drop io.file_offset (w.contents fs path))
            (bytes_at-append io.buffer io.buffer_pos c left)
        ∙ append_assoc chunk (bytes_at io.buffer (io.buffer_pos + c) left)
            (drop io.file_offset (w.contents fs path)) in
      let len : length chunk ≡ c = length-bytes_at io.buffer io.buffer_pos c in
      (
        ap (λ k. take k rest) (sym len)
            ∙ ap (λ l. take (length chunk) l) parts
            ∙ take-append chunk behind,
        record {
          opened = v.opened;
          bytes = sym (
              ap (λ k. drop k rest) (sym len)
              ∙ ap (λ l. drop (length chunk) l) parts
              ∙ drop-append chunk behind);
          order = h;
          fits = v.fits;
          size = v.size;
        },
      )

  read_loop-Reads :
      (fuel size : ℕ) (io : BufferedIo) (rest : List ℕ)
      → size ≤ fuel
      → size ≤ length rest
      → Reads io rest
      → (io' : BufferedIo) × (read_loop files fuel size io fs ≡ (some (take size rest), io'))
        × Reads io' (drop size rest)
  unfolding read_loop
  read_loop-Reads fuel zero io rest h h' v = (io, refl, v)
  read_loop-Reads zero (suc size) io rest h h' v = absurd (omega arith)
  read_loop-Reads (suc fuel) (suc size) io rest h h' v =
      let (io1, run, v1, some_left) = next_bytes-Reads io rest v (omega arith) in
      let available = sub64 io1.buffer_end io1.buffer_pos in
      let exact : available ≡ io1.buffer_end - io1.buffer_pos =
        omega (arith, some_left, v1.fits, v1.size) in
      let c = if ltb (suc size) available then suc size else available in
      let test : (available == 0) ≡ false = ground (arith, exact, some_left) in
      let inside : io1.buffer_pos + c ≤ io1.buffer_end = ground (arith, exact, some_left) in
      let small : c ≤ suc size = ground arith in
      let positive : 0 < c = ground (arith, exact, some_left) in
      let (chunk, v2) = taken io1 rest c inside v1 in
      let (io', more, v') =
        read_loop-Reads fuel (suc size - c) (record io1 { buffer_pos = io1.buffer_pos + c })
          (drop c rest) (omega (arith, positive)) (omega (arith, length-drop c rest)) v2 in
      (
        io',
        rw (read_loop, run, test, more)
            (ap (λ l. (some l, io'))
              (ap (λ l. l ++ take (suc size - c) (drop c rest)) (sym chunk)
                ∙ split_take rest c (suc size) small)),
        subst (λ l. Reads io' l) (split_drop rest c (suc size) small) v',
      )

  -- A read of `size` bytes delivers them where the rest has as many, whatever the length of the
  -- transfers below it.
  pub buffered_read-Reads :
      (size : ℕ) (io : BufferedIo) (rest : List ℕ)
      → size ≤ length rest
      → Reads io rest
      → (io' : BufferedIo) × (buffered_read files size io fs ≡ (some (take size rest), io'))
        × Reads io' (drop size rest)
  unfolding buffered_read
  buffered_read-Reads size io rest h v = read_loop-Reads size size io rest (omega arith) h v
