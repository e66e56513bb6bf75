-- ===== src/Persist/Memory.antt =====
-- The bytes of a memory, and what memcpy changes of them.
use dedup_block_fs.Base.{
  ℕ, zero, suc, ◌+◌, ◌≤◌, ◌≡◌, refl, ap, ◌∙◌, List, [], ◌∷◌, ◌++◌, length, arith, suc_plus,
}
use dedup_block_fs.Persist.{bytes_at, put_at}

pub length-bytes_at : (m : ℕ → ℕ) (a n : ℕ) → length (bytes_at m a n) ≡ n
length-bytes_at m a zero = refl
length-bytes_at m a (suc n) = omega (arith, length-bytes_at m (a + 1) n)

pub bytes_at-append :
    (m : ℕ → ℕ) (a n k : ℕ) → bytes_at m a (n + k) ≡ bytes_at m a n ++ bytes_at m (a + n) k
bytes_at-append m a zero k =
    let n_same : 0 + k ≡ k = omega arith in
    let a_same : a + 0 ≡ a = omega arith in rw (n_same, a_same) refl
bytes_at-append m a (suc n) k =
    let later : a + 1 + n ≡ a + suc n = omega arith in
    rw (suc_plus n k, ← later) (ap (λ l. m a ∷ l) (bytes_at-append m (a + 1) n k))

-- Bytes before the copy stay.
put_before : (m : ℕ → ℕ) (a : ℕ) (xs : List ℕ) (i : ℕ) → suc i ≤ a → put_at m a xs i ≡ m i
put_before m a [] i h = refl
put_before m a (x ∷ xs) i h = ground (arith, put_before m (a + 1) xs i (omega arith))

pub bytes_at-put_before :
    (m : ℕ → ℕ) (b : ℕ) (xs : List ℕ) (a n : ℕ)
    → a + n ≤ b
    → bytes_at (put_at m b xs) a n ≡ bytes_at m a n
bytes_at-put_before m b xs a zero h = refl
bytes_at-put_before m b xs a (suc n) h =
    let e = put_before m b xs a (omega arith) in
    let e' = bytes_at-put_before m b xs (a + 1) n (omega arith) in rw (e, e') refl

-- Only the values at the addresses matter.
same_bytes :
    (m m' : ℕ → ℕ) (a n : ℕ) → ((i : ℕ) → a ≤ i → m i ≡ m' i) → bytes_at m a n ≡ bytes_at m' a n
same_bytes m m' a zero f = refl
same_bytes m m' a (suc n) f =
    let e = f a (omega arith) in
    let e' = same_bytes m m' (a + 1) n (λ i h. f i (omega arith)) in rw (e, e') refl

-- The copied bytes are there.
pub bytes_at-put : (m : ℕ → ℕ) (a : ℕ) (xs : List ℕ) → bytes_at (put_at m a xs) a (length xs) ≡ xs
bytes_at-put m a [] = refl
bytes_at-put m a (x ∷ xs) =
    let first : put_at m a (x ∷ xs) a ≡ x = ground arith in
    let others : bytes_at (put_at m a (x ∷ xs)) (a + 1) (length xs) ≡ xs =
      same_bytes (put_at m a (x ∷ xs)) (put_at m (a + 1) xs) (a + 1) (length xs)
        (λ i h. ground arith)
      ∙ bytes_at-put m (a + 1) xs in
    rw (first, others) refl

-- What was there, and the copied bytes behind it.
pub bytes_at-grow :
    (m : ℕ → ℕ) (n : ℕ) (xs : List ℕ)
    → bytes_at (put_at m n xs) 0 (n + length xs) ≡ bytes_at m 0 n ++ xs
bytes_at-grow m n xs =
    bytes_at-append (put_at m n xs) 0 n (length xs)
    ∙ ap (λ l. l ++ bytes_at (put_at m n xs) (0 + n) (length xs))
        (bytes_at-put_before m n xs 0 n (omega arith))
    ∙ ap (λ l. bytes_at m 0 n ++ l)
        (ap (λ b. bytes_at (put_at m n xs) b (length xs)) (omega arith) ∙ bytes_at-put m n xs)
