-- ===== src/Persist/Codec/RoundTrip.antt =====
-- Every decoder gives back what its encoder was given.
use dedup_block_fs.Base.{
  ℕ, ◌+◌, ◌^◌, ◌<◌, ◌≡◌, refl, sym, ap, ◌∙◌, subst, true, false, some, List, [], ◌∷◌, ◌++◌, ◌==◌,
  leb, All, length, take, drop, length-append, take-append, drop-append, arith,
}
use mathlib.Core.List.{append-nil, append_assoc}
use dedup_block_fs.Base.Int.{pos, to_int, to_int-pos}
use dedup_block_fs.Keys.{Digest, FilePath, BlockIndice}
use dedup_block_fs.Index.{MasterInfo, indice}
use dedup_block_fs.Persist.Elem.{word_bytes, word_of, bytes_of, encode_size_elem, decode_size_elem}
use dedup_block_fs.Persist.Elem.RoundTrip.{Decodes, length-word_bytes, word_of-word_bytes}
use dedup_block_fs.Persist.Codec.{
  string_of, encode_master_info, decode_master_info, encode_hash, decode_hash, encode_block_indice,
  decode_block_indice, encode_free_block, decode_free_block, encode_size, decode_size, encode_str,
  decode_str,
}

-- The bytes between a front and a back.
bytes_of-part :
    (front part back : List ℕ) (a n : ℕ)
    → length front ≡ a
    → length part ≡ n
    → bytes_of a n (front ++ (part ++ back)) ≡ some part
unfolding bytes_of
bytes_of-part front part back a n e e' =
    let all = front ++ (part ++ back) in
    let inside : leb (a + n) (length all) ≡ true =
      ground (arith, e, e', length-append front (part ++ back), length-append part back) in
    let behind : drop a all ≡ part ++ back =
      ap (λ k. drop k all) (sym e) ∙ drop-append front (part ++ back) in
    let cut : take n (part ++ back) ≡ part =
      ap (λ k. take k (part ++ back)) (sym e') ∙ take-append part back in
    rw (bytes_of, inside, behind, cut) refl

bytes_of-all : (part : List ℕ) (n : ℕ) → length part ≡ n → bytes_of 0 n part ≡ some part
bytes_of-all part n e =
    ap (λ l. bytes_of 0 n l) (sym (append-nil part)) ∙ bytes_of-part [] part [] 0 n refl e

string_of-str : (s rest : List ℕ) → All (λ b. 0 < b) s → string_of (s ++ (0 ∷ rest)) ≡ some s
unfolding string_of
string_of-str [] rest h = refl
string_of-str (b ∷ s) rest (h, more) =
    let test : (b == 0) ≡ false = ground (arith, h) in
    rw (string_of, test, string_of-str s rest more) refl

size_is : (b : List ℕ) (n : ℕ) → length b ≡ n → n < 2 ^ 31 → to_int (length b) ≡ pos n
size_is b n e h = ap to_int e ∙ to_int-pos n h

size_elem_of_word :
    (b : List ℕ) (n : ℕ)
    → length b ≡ 8
    → word_of b ≡ n
    → decode_size_elem b (to_int (length b)) ≡ some (some n)
unfolding decode_size_elem
size_elem_of_word b n len value =
    rw (size_is b 8 len (omega arith), bytes_of-all b 8 len, value) refl

pub size_elem-Decodes : (n : ℕ) → n < 2 ^ 64 → Decodes encode_size_elem decode_size_elem n
unfolding encode_size_elem
size_elem-Decodes n h =
    let len = length-word_bytes 8 n in
    (omega arith, size_elem_of_word (word_bytes 8 n) n len (word_of-word_bytes 8 n h))

free_block_of_word :
    (b : List ℕ) (n : ℕ)
    → length b ≡ 8
    → word_of b ≡ n
    → decode_free_block b (to_int (length b)) ≡ some (some n)
unfolding decode_free_block
free_block_of_word b n len value =
    rw (size_is b 8 len (omega arith), bytes_of-all b 8 len, value) refl

pub free_block-Decodes : (n : ℕ) → n < 2 ^ 64 → Decodes encode_free_block decode_free_block n
unfolding encode_free_block
free_block-Decodes n h =
    let len = length-word_bytes 8 n in
    (omega arith, free_block_of_word (word_bytes 8 n) n len (word_of-word_bytes 8 n h))

size_of_word :
    (b : List ℕ) (n : ℕ)
    → length b ≡ 8
    → word_of b ≡ n
    → decode_size b (to_int (length b)) ≡ some (some n)
unfolding decode_size
size_of_word b n len value = rw (bytes_of-all b 8 len, value) refl

pub size-Decodes : (n : ℕ) → n < 2 ^ 64 → Decodes encode_size decode_size n
unfolding encode_size
size-Decodes n h =
    let len = length-word_bytes 8 n in
    (omega arith, size_of_word (word_bytes 8 n) n len (word_of-word_bytes 8 n h))

pub hash-Decodes : (h : Digest) → length h ≡ 64 → Decodes encode_hash decode_hash h
unfolding encode_hash decode_hash
hash-Decodes h e =
    let whole : take 64 h ≡ h =
      ap (λ k. take k h) (sym e)
      ∙ ap (λ l. take (length h) l) (sym (append-nil h))
      ∙ take-append h [] in
    (
      rw whole (omega (arith, e)),
      rw (whole, size_is h 64 e (omega arith), bytes_of-all h 64 e) refl,
    )

-- A path without a 0 byte.
abbrev pub IsString : List ℕ → Type 0
IsString s = All (λ b. 0 < b) s × (length s + 1 < 2 ^ 31)

pub str-Decodes : (s : FilePath) → IsString s → Decodes encode_str decode_str s
unfolding encode_str decode_str
str-Decodes s (h, short) = (omega (arith, length-append s (0 ∷ [])), rw (string_of-str s [] h) refl)

block_indice_parts :
    (header path number : List ℕ) (n offset : ℕ)
    → length header ≡ 4
    → word_of header ≡ n
    → length path + 1 ≡ n
    → All (λ b. 0 < b) path
    → length number ≡ 8
    → word_of number ≡ offset
    → (length (header ++ ((path ++ (0 ∷ [])) ++ number)) ≡ n + 12)
      × (decode_block_indice
            (header ++ ((path ++ (0 ∷ [])) ++ number))
            (to_int (length (header ++ ((path ++ (0 ∷ [])) ++ number))))
          ≡ some (some (indice path offset)))
unfolding decode_block_indice
block_indice_parts header path number n offset header_len word path_len h number_len value =
    let text = path ++ (0 ∷ []) in
    let all = header ++ (text ++ number) in
    let text_len : length text ≡ n = omega (arith, length-append path (0 ∷ []), path_len) in
    let front_len : length (header ++ text) ≡ 4 + n =
      omega (arith, length-append header text, header_len, text_len) in
    let first : bytes_of 0 4 all ≡ some header =
      bytes_of-part [] header (text ++ number) 0 4 refl header_len in
    let second : bytes_of 4 n all ≡ some text =
      bytes_of-part header text number 4 n header_len text_len in
    let parts : all ≡ (header ++ text) ++ (number ++ []) =
      ap (λ l. header ++ (text ++ l)) (sym (append-nil number))
      ∙ sym (append_assoc header text (number ++ [])) in
    let last : bytes_of (4 + n) 8 all ≡ some number =
      ap (λ l. bytes_of (4 + n) 8 l) parts
      ∙ bytes_of-part (header ++ text) number [] (4 + n) 8 front_len number_len in
    (
      omega (
        arith,
        length-append header (text ++ number),
        length-append text number,
        header_len,
        text_len,
        number_len,
      ),
      rw (decode_block_indice, first, word, second, string_of-str path [] h, last, value) refl,
    )

pub block_indice-Decodes :
    (k : BlockIndice)
    → IsString k.path
    → k.offset < 2 ^ 64
    → Decodes encode_block_indice decode_block_indice k
unfolding encode_block_indice
block_indice-Decodes k (h, short) small =
    let n = length k.path + 1 in
    let (len, back) =
      block_indice_parts (word_bytes 4 n) k.path (word_bytes 8 k.offset) n k.offset
        (length-word_bytes 4 n) (word_of-word_bytes 4 n (omega (arith, short))) refl h
        (length-word_bytes 8 k.offset) (word_of-word_bytes 8 k.offset small) in
    (subst (λ j. j < 2 ^ 64) (sym len) (omega (arith, short)), back)

-- A MasterInfo whose fields have the widths of the struct.
pub record IsMasterInfo (m : MasterInfo) : Type 0 where
  pub hash : length m.hash ≡ 64
  pub slot : m.master_block_index < 2 ^ 64
  pub refs : m.refcount < 2 ^ 32

master_info_parts :
    (m : MasterInfo) (slot refs padding : List ℕ)
    → length m.hash ≡ 64
    → length slot ≡ 8
    → word_of slot ≡ m.master_block_index
    → length refs ≡ 4
    → word_of refs ≡ m.refcount
    → length padding ≡ 4
    → (length (m.hash ++ (slot ++ (refs ++ padding))) ≡ 80)
      × (decode_master_info
            (m.hash ++ (slot ++ (refs ++ padding)))
            (to_int (length (m.hash ++ (slot ++ (refs ++ padding)))))
          ≡ some (some m))
unfolding decode_master_info
master_info_parts m slot refs padding hash_len slot_len slot_value refs_len refs_value pad_len =
    let all = m.hash ++ (slot ++ (refs ++ padding)) in
    let front_len : length (m.hash ++ slot) ≡ 72 =
      omega (arith, length-append m.hash slot, hash_len, slot_len) in
    let whole : length all ≡ 80 = omega (
      arith,
      length-append m.hash (slot ++ (refs ++ padding)),
      length-append slot (refs ++ padding),
      length-append refs padding,
      hash_len,
      slot_len,
      refs_len,
      pad_len,
    ) in
    let first : bytes_of 0 64 all ≡ some m.hash =
      bytes_of-part [] m.hash (slot ++ (refs ++ padding)) 0 64 refl hash_len in
    let second : bytes_of 64 8 all ≡ some slot =
      bytes_of-part m.hash slot (refs ++ padding) 64 8 hash_len slot_len in
    let third : bytes_of 72 4 all ≡ some refs =
      ap (λ l. bytes_of 72 4 l) (sym (append_assoc m.hash slot (refs ++ padding)))
      ∙ bytes_of-part (m.hash ++ slot) refs padding 72 4 front_len refs_len in
    (
      whole,
      rw
          (
            decode_master_info,
            size_is all 80 whole (omega arith),
            first,
            second,
            third,
            slot_value,
            refs_value,
          )
          refl,
    )

pub master_info-Decodes :
    (padding : MasterInfo → List ℕ) (m : MasterInfo)
    → length (padding m) ≡ 4
    → IsMasterInfo m
    → Decodes (encode_master_info padding) decode_master_info m
unfolding encode_master_info
master_info-Decodes padding m pad v =
    let (len, back) =
      master_info_parts m (word_bytes 8 m.master_block_index) (word_bytes 4 m.refcount) (padding m)
        v.hash (length-word_bytes 8 m.master_block_index)
        (word_of-word_bytes 8 m.master_block_index v.slot) (length-word_bytes 4 m.refcount)
        (word_of-word_bytes 4 m.refcount v.refs) pad in
    (omega (arith, len), back)
