-- ===== src/Persist/Elem.antt =====
-- src/persistence.c: one element behind its length. Words lie in memory with the low byte first.
pub mod RoundTrip
use dedup_block_fs.Base.{
  ℕ, zero, suc, ◌+◌, ◌*◌, ◌/◌, ◌%◌, ◌^◌, Option, none, some, List, [], ◌∷◌, ◌++◌, ◌==◌,
  if◌then◌else◌, ◌>>=◌, length, take, drop, leb, Bool, false,
}
use dedup_block_fs.Base.Int.{ℤ, pos, negsuc, to_int}
use dedup_block_fs.System.{Ssize, moved, failed}
use dedup_block_fs.Persist.{FileSystem}
use dedup_block_fs.Persist.Io.{BufferedIo, buffered_write, buffered_read}

-- The `k` bytes of a word, and the word of a list of bytes.
unfoldable pub word_bytes : ℕ → ℕ → List ℕ
word_bytes zero n = []
word_bytes (suc k) n = n % 256 ∷ word_bytes k (n / 256)

unfoldable pub word_of : List ℕ → ℕ
word_of [] = 0
word_of (b ∷ bs) = b + 256 * word_of bs

-- `EncodeFunc`: the bytes of an element.
abbrev pub Encode : Type 0 → Type 0
Encode A = A → List ℕ

-- `DecodeFunc`, on the bytes of the buffer and its size as an int: `none` is an access beyond the
-- buffer, `some none` is NULL.
abbrev pub Decode : Type 0 → Type 0
Decode A = List ℕ → ℤ → Option (Option A)

-- `size == n` of an int.
abbrev pub is_size : ℤ → ℕ → Bool
is_size (pos m) n = m == n
is_size (negsuc m) n = false

-- `n` bytes from an address of the buffer: `none` where they are not all there.
unfoldable pub bytes_of : ℕ → ℕ → List ℕ → Option (List ℕ)
bytes_of a n bytes = if leb (a + n) (length bytes) then some (take n (drop a bytes)) else none

-- `encode_size_elem` and `decode_size_elem`
unfoldable pub encode_size_elem : Encode ℕ
unfolding word_bytes
encode_size_elem n = word_bytes 8 n

unfoldable pub decode_size_elem : Decode ℕ
unfolding bytes_of word_of
decode_size_elem bytes size =
    let read = (do n ← bytes_of 0 8 bytes; some (some (word_of n))) in
    if is_size size 8 then read else some none

module _ (files : FileSystem) where
  open files use {Fs, pwrite, pread}

  unfoldable pub write_elem_buffered : BufferedIo → List ℕ → Fs → Option (BufferedIo × Fs)
  unfolding buffered_write word_bytes
  write_elem_buffered io b fs = do
    (io1, fs1) ← buffered_write files io (word_bytes 8 (length b)) fs
    buffered_write files io1 b fs1

  -- The second read is over: the element, or NULL.
  abbrev pub after_bytes :
      {A : Type 0} → Decode A → ℕ → Option (List ℕ) × BufferedIo → Option (Option A × BufferedIo)
  after_bytes decode size (none, io) = some (none, io)
  after_bytes decode size (some bytes, io) = do elem ← decode bytes (to_int size); some (elem, io)

  -- The first read is over: the length of the element, or NULL.
  abbrev pub after_header :
      {A : Type 0} → Decode A → Fs → Option (List ℕ) × BufferedIo → Option (Option A × BufferedIo)
  after_header decode fs (none, io) = some (none, io)
  after_header decode fs (some header, io) =
      after_bytes decode (word_of header) (buffered_read files (word_of header) io fs)

  -- The element, with NULL where the file ends before it does.
  unfoldable pub read_elem_buffered :
      {A : Type 0} → BufferedIo → Decode A → Fs → Option (Option A × BufferedIo)
  unfolding buffered_read word_of
  read_elem_buffered io decode fs = after_header decode fs (buffered_read files 8 io fs)

  -- `!= size` of a transfer.
  abbrev pub whole_transfer : ℕ → Ssize → Option ℕ
  whole_transfer size (moved n) = if n == size then some n else none
  whole_transfer size (failed e) = none

  -- The result is `*offset`, which stays where the transfer is not whole.
  pub write_elem : ℕ → List ℕ → ℕ → Fs → ℕ × Fs
  unfolding word_bytes
  write_elem fd b offset fs =
      let (r, fs1) = pwrite fs fd (word_bytes 8 (length b)) offset in
      let (r', fs2) = pwrite fs1 fd b (offset + 8) in
      elim (whole_transfer 8 r) [
        | none ↦ (offset, fs1)
        | some header ↦ elim (whole_transfer (length b) r') [
          | none ↦ (offset + 8, fs2)
          | some n ↦ (offset + 8 + length b, fs2)
        ]
      ]

  pub read_elem : {A : Type 0} → ℕ → Decode A → ℕ → Fs → Option (Option A × ℕ)
  unfolding word_of
  read_elem fd decode offset fs =
      let (r, header) = pread fs fd 8 offset in
      elim (whole_transfer 8 r) [
        | none ↦ some (none, offset)
        | some eight ↦
            let size = word_of header in
            let (r', bytes) = pread fs fd size (offset + 8) in
            elim (whole_transfer size r') [
              | none ↦ some (none, offset + 8)
              | some n ↦ do elem ← decode bytes (to_int size); some (elem, offset + 8 + size)
            ]
      ]
