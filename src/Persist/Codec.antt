-- ===== src/Persist/Codec.antt =====
-- src/metaindex.c: the bytes of the elements that the index consists of. A C string ends at its
-- first 0, which the lists of this model do not hold.
pub mod RoundTrip
use dedup_block_fs.Base.{
  ℕ, zero, suc, ◌+◌, ◌-◌, ◌*◌, ◌^◌, Bool, true, false, Option, none, some, List, [], ◌∷◌, ◌++◌,
  ◌==◌, leb, if◌then◌else◌, ◌>>=◌, length, take, drop,
}
use dedup_block_fs.Base.Int.{ℤ, pos, negsuc, to_int}
use dedup_block_fs.Keys.{Digest, FilePath, BlockIndice}
use dedup_block_fs.Index.{MasterInfo, indice}
use dedup_block_fs.Persist.Elem.{word_bytes, word_of, bytes_of, is_size, Encode, Decode}

-- HASH_SIZE and sizeof(MasterInfo): the digest, two words of 8 and 4 bytes, 4 bytes of padding.
abbrev pub hash_size : ℕ
hash_size = 64

abbrev pub master_info_size : ℕ
master_info_size = 80

-- The string at the start of the bytes: `none` where no 0 ends it.
unfoldable pub string_of : List ℕ → Option (List ℕ)
string_of [] = none
string_of (b ∷ bs) =
    let rest = (do s ← string_of bs; some (b ∷ s)) in if b == 0 then some [] else rest

module _ (padding : MasterInfo → List ℕ) where
  unfoldable pub encode_master_info : Encode MasterInfo
  unfolding word_bytes
  encode_master_info m =
      m.hash ++ (word_bytes 8 m.master_block_index ++ (word_bytes 4 m.refcount ++ padding m))

unfoldable pub decode_master_info : Decode MasterInfo
unfolding bytes_of word_of
decode_master_info bytes size =
    let read = (do
      hash ← bytes_of 0 hash_size bytes
      slot ← bytes_of 64 8 bytes
      count ← bytes_of 72 4 bytes
      some (
          some (record {
            hash = hash;
            master_block_index = word_of slot;
            refcount = word_of count;
          }))) in
    if is_size size master_info_size then read else some none

unfoldable pub encode_hash : Encode Digest
encode_hash h = take hash_size h

unfoldable pub decode_hash : Decode Digest
unfolding bytes_of
decode_hash bytes size =
    let read = (do hash ← bytes_of 0 hash_size bytes; some (some hash)) in
    if is_size size hash_size then read else some none

-- The length of the path with its 0, the path, the index of the block.
unfoldable pub encode_block_indice : Encode BlockIndice
unfolding word_bytes
encode_block_indice b =
    word_bytes 4 (length b.path + 1) ++ (b.path ++ (0 ∷ [])) ++ word_bytes 8 b.offset

-- The size is not looked at: the length of the path is taken from the bytes.
unfoldable pub decode_block_indice : Decode BlockIndice
unfolding bytes_of word_of string_of
decode_block_indice bytes size = do
  path_len ← bytes_of 0 4 bytes
  path ← bytes_of 4 (word_of path_len) bytes
  path' ← string_of path
  offset ← bytes_of (4 + word_of path_len) 8 bytes
  some (some (indice path' (word_of offset)))

unfoldable pub encode_free_block : Encode ℕ
unfolding word_bytes
encode_free_block slot = word_bytes 8 slot

unfoldable pub decode_free_block : Decode ℕ
unfolding bytes_of word_of
decode_free_block bytes size =
    let read = (do slot ← bytes_of 0 8 bytes; some (some (word_of slot))) in
    if is_size size 8 then read else some none

unfoldable pub encode_size : Encode ℕ
unfolding word_bytes
encode_size n = word_bytes 8 n

-- The size is not looked at.
unfoldable pub decode_size : Decode ℕ
unfolding bytes_of word_of
decode_size bytes size = do n ← bytes_of 0 8 bytes; some (some (word_of n))

unfoldable pub encode_str : Encode FilePath
encode_str s = s ++ (0 ∷ [])

unfoldable pub decode_str : Decode FilePath
unfolding string_of
decode_str bytes size = do s ← string_of bytes; some (some s)
