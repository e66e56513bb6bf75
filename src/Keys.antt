-- ===== src/Keys.antt =====
-- src/metaindex.c: the keys of the three tables and the equality each table is created with.
-- A C string is the list of its bytes; a SHA-512 digest is the list of its 64 bytes.
use dedup_block_fs.Base.{ℕ, ◌≡◌, refl, ◌↔◌, Bool, true, false, ◌&&◌, List, [], ◌∷◌, ◌==◌, arith}
use dedup_block_fs.Table.{Key}

abbrev pub Digest : Type 0
Digest = List ℕ

abbrev pub FilePath : Type 0
FilePath = List ℕ

-- `BlockIndice`: a path with the index of a logical block.
pub record BlockIndice : Type 0 where
  pub path : FilePath
  pub offset : ℕ

-- `memcmp(a, b, n) == 0` on two byte sequences, and `g_str_equal` on two strings.
unfoldable pub bytes_equal : List ℕ → List ℕ → Bool
bytes_equal [] [] = true
bytes_equal [] (b ∷ bs) = false
bytes_equal (a ∷ as') [] = false
bytes_equal (a ∷ as') (b ∷ bs) = (a == b) && bytes_equal as' bs

bytes_equal_sound : (xs ys : List ℕ) → bytes_equal xs ys ≡ true → xs ≡ ys
unfolding bytes_equal
bytes_equal_sound [] [] h = refl
bytes_equal_sound [] (b ∷ bs) h = ground arith
bytes_equal_sound (a ∷ as') [] h = ground arith
bytes_equal_sound (a ∷ as') (b ∷ bs) h = ground (arith, bytes_equal_sound as' bs)

bytes_equal_refl : (xs : List ℕ) → bytes_equal xs xs ≡ true
unfolding bytes_equal
bytes_equal_refl [] = refl
bytes_equal_refl (x ∷ xs) = ground (arith, bytes_equal_refl xs)

pub bytes_equal_iff : (xs ys : List ℕ) → (bytes_equal xs ys ≡ true) ↔ (xs ≡ ys)
bytes_equal_iff xs ys = (bytes_equal_sound xs ys, λ p. ground (arith, bytes_equal_refl xs))

-- Digests are compared as a whole, and so are paths.
instance abbrev pub bytes_key : Key (List ℕ)
bytes_key = record { equal = bytes_equal; equal_iff = bytes_equal_iff }

-- `blockIndice_equal`
unfoldable pub block_indice_equal : BlockIndice → BlockIndice → Bool
block_indice_equal x y = (x.offset == y.offset) && bytes_equal x.path y.path

-- Two keys of `file_to_master` are one key exactly when path and block index agree.
pub block_indice_equal_iff : (x y : BlockIndice) → (block_indice_equal x y ≡ true) ↔ (x ≡ y)
unfolding block_indice_equal
block_indice_equal_iff x y = ground (arith, bytes_equal_iff x.path y.path)

instance abbrev pub block_indice_key : Key BlockIndice
block_indice_key = record { equal = block_indice_equal; equal_iff = block_indice_equal_iff }
