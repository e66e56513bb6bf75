-- ===== src/Persist/Elem/RoundTrip.antt =====
-- An element that was written is read again.
use dedup_block_fs.Base.{
  ℕ, zero, suc, ◌*◌, ◌/◌, ◌^◌, ◌<◌, ◌≡◌, refl, sym, ap, ◌∙◌, subst, some, List, ◌++◌, length,
  length-append, take-append, drop-append, arith,
}
use mathlib.Core.List.{append_assoc}
use dedup_block_fs.Base.Int.{to_int}
use dedup_block_fs.Keys.{FilePath}
use dedup_block_fs.Persist.{FileSystem}
use dedup_block_fs.Persist.Working.{Working, Others, Others-trans}
use dedup_block_fs.Persist.Io.{BufferedIo, buffered_read}
use dedup_block_fs.Persist.Io.Writes.{Writes, buffered_write-Writes}
use dedup_block_fs.Persist.Io.Reads.{Reads, buffered_read-Reads}
use dedup_block_fs.Persist.Elem.{
  word_bytes, word_of, Encode, Decode, write_elem_buffered, read_elem_buffered,
}

-- 256 ^ k
abbrev pub word_limit : ℕ → ℕ
word_limit zero = 1
word_limit (suc k) = 256 * word_limit k

pub length-word_bytes : (k n : ℕ) → length (word_bytes k n) ≡ k
unfolding word_bytes
length-word_bytes zero n = refl
length-word_bytes (suc k) n = omega (arith, length-word_bytes k (n / 256))

-- The bytes of a word give the word back.
pub word_of-word_bytes : (k n : ℕ) → n < word_limit k → word_of (word_bytes k n) ≡ n
unfolding word_bytes word_of
word_of-word_bytes zero n h = omega (arith, h)
word_of-word_bytes (suc k) n h = omega (arith, word_of-word_bytes k (n / 256) (omega (arith, h)))

-- The decoder gives back what the encoder was given.
abbrev pub Decodes : {A : Type 0} → Encode A → Decode A → A → Type 0
Decodes encode decode a =
    (length (encode a) < 2 ^ 64) × (decode (encode a) (to_int (length (encode a))) ≡ some (some a))

-- The bytes of an element behind its length.
abbrev pub frame : List ℕ → List ℕ
frame b = word_bytes 8 (length b) ++ b

module _ {files : FileSystem} (w : Working files) where
  open files use {Fs}

  pub write_elem-Writes :
      (fs : Fs) (io : BufferedIo) (path : FilePath) (sofar b : List ℕ)
      → Writes w fs io path sofar
      → (io' : BufferedIo) × (fs' : Fs) × (write_elem_buffered files io b fs ≡ some (io', fs'))
        × Writes w fs' io' path (sofar ++ frame b)
        × Others w path fs fs'
  unfolding write_elem_buffered
  write_elem-Writes fs io path sofar b v =
      let (io1, fs1, run, v1, o) =
        buffered_write-Writes w fs io path sofar (word_bytes 8 (length b)) v in
      let (io2, fs2, run', v2, o') =
        buffered_write-Writes w fs1 io1 path (sofar ++ word_bytes 8 (length b)) b v1 in
      (
        io2,
        fs2,
        rw (write_elem_buffered, run) run',
        subst (λ l. Writes w fs2 io2 path l) (append_assoc sofar (word_bytes 8 (length b)) b) v2,
        Others-trans w path fs fs1 fs2 o o',
      )

  -- The bytes at the front of what is left.
  pub front-Reads :
      (fs : Fs) (path : FilePath) (io : BufferedIo) (xs rest : List ℕ)
      → Reads w fs path io (xs ++ rest)
      → (io' : BufferedIo) × (buffered_read files (length xs) io fs ≡ (some xs, io'))
        × Reads w fs path io' rest
  front-Reads fs path io xs rest v =
      let (io', run, v') =
        buffered_read-Reads w fs path (length xs) io (xs ++ rest)
          (omega (arith, length-append xs rest)) v in
      (
        io',
        run ∙ ap (λ l. (some l, io')) (take-append xs rest),
        subst (λ l. Reads w fs path io' l) (drop-append xs rest) v',
      )

  pub read_elem-Reads :
      {A : Type 0} (encode : Encode A) (decode : Decode A) (fs : Fs) (path : FilePath)
      (io : BufferedIo) (a : A) (rest : List ℕ)
      → Decodes encode decode a
      → Reads w fs path io (frame (encode a) ++ rest)
      → (io' : BufferedIo) × (read_elem_buffered files io decode fs ≡ some (some a, io'))
        × Reads w fs path io' rest
  unfolding read_elem_buffered
  read_elem-Reads encode decode fs path io a rest (short, back) v =
      let b = encode a in
      let header = word_bytes 8 (length b) in
      let (io1, run, v1) =
        front-Reads fs path io header (b ++ rest)
          (subst (λ l. Reads w fs path io l) (append_assoc header b rest) v) in
      let (io2, run', v2) = front-Reads fs path io1 b rest v1 in
      let eight : length header ≡ 8 = length-word_bytes 8 (length b) in
      let size : word_of header ≡ length b =
        word_of-word_bytes 8 (length b) (omega (arith, short)) in
      let first : buffered_read files 8 io fs ≡ (some header, io1) =
        ap (λ k. buffered_read files k io fs) (sym eight) ∙ run in
      let second : buffered_read files (word_of header) io1 fs ≡ (some b, io2) =
        ap (λ k. buffered_read files k io1 fs) size ∙ run' in
      let back' : decode b (to_int (word_of header)) ≡ some (some a) =
        ap (λ k. decode b (to_int k)) size ∙ back in
      (io2, rw (read_elem_buffered, first, second, back') refl, v2)
