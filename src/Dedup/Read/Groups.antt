-- ===== src/Dedup/Read/Groups.antt =====
-- Phases 3 to 5 of read_dedup: reading by groups of consecutive slots is reading block by block.
use dedup_block_fs.Base.{
  ℕ, ◌+◌, ◌-◌, ◌*◌, ◌^◌, ◌≤◌, ◌<◌, ◌≡◌, refl, sym, ap, ◌∙◌, inl, inr, true, Bool-cases, List, [],
  ◌∷◌, ◌++◌, ◌==◌, All, length, length-append, arith,
}
use mathlib.Core.List.{append-nil, append_assoc}
use dedup_block_fs.Base.Int.{to_int}
use dedup_block_fs.System.{System, Buffer, BlockPair, moved, block_size, add64, sub64, mul64}
use dedup_block_fs.Dedup.Flush.Runs.{max_slot}
use dedup_block_fs.Dedup.Read.{is_full, set_block, copy_group, read_group, read_groups, read_sorted}

-- The pairs stand for the master blocks m, m + 1, ...
abbrev Follows : ℕ → List BlockPair → Type 0
Follows m [] = Unit
Follows m (x ∷ rest) = (x.master_block_index ≡ m) × Follows (m + 1) rest

Follows-snoc :
    (m : ℕ) (l : List BlockPair) (x : BlockPair)
    → Follows m l
    → x.master_block_index ≡ m + length l
    → Follows m (l ++ (x ∷ []))
Follows-snoc m [] x f e = (omega arith, tt)
Follows-snoc m (y ∷ rest) x (a, f) e = (a, Follows-snoc (m + 1) rest x f (omega arith))

-- Slots whose byte offsets are below 2^63.
abbrev pub Small : BlockPair → Type 0
Small x = x.master_block_index < max_slot

module _ (os : System) where
  open os use {Disk, block, pread, pread_data}

  -- The master file delivers every read in full.
  abbrev pub ReadsFully : Type 0
  ReadsFully = (d : Disk) (n k : ℕ) → (pread d n k).0 ≡ moved n

  -- Each block from its slot to its place, one after the other.
  abbrev pub read_each : Disk → List BlockPair → Buffer → Buffer
  read_each d [] buf = buf
  read_each d (x ∷ rest) buf =
      read_each d rest (set_block buf x.logical_idx (block d x.master_block_index))

  read_each-append :
      (d : Disk) (front back : List BlockPair) (buf : Buffer)
      → read_each d (front ++ back) buf ≡ read_each d back (read_each d front buf)
  read_each-append d [] back buf = refl
  read_each-append d (x ∷ front) back buf =
      read_each-append d front back (set_block buf x.logical_idx (block d x.master_block_index))

  copy_group-each :
      (d : Disk) (buf master_buf : Buffer) (low m n : ℕ) (l : List BlockPair)
      → ((i : ℕ) → i < n → master_buf i ≡ block d (low + i))
      → Follows m l
      → low ≤ m
      → m + length l ≤ low + n
      → low + n < 2 ^ 64
      → copy_group buf master_buf low l ≡ read_each d l buf
  unfolding copy_group
  copy_group-each d buf master_buf low m n [] got f a b c = refl
  copy_group-each d buf master_buf low m n (x ∷ rest) got (e, f) a b c =
      let at' : sub64 x.master_block_index low ≡ m - low = omega arith in
      let here : low + (m - low) ≡ x.master_block_index = omega arith in
      let data' : master_buf (sub64 x.master_block_index low) ≡ block d x.master_block_index =
        rw at' (got (m - low) (omega arith) ∙ ap (block d) here) in
      rw data' (
        copy_group-each d (set_block buf x.logical_idx (block d x.master_block_index)) master_buf
          low (m + 1) n rest got f (omega arith) (omega arith) c)

  module _ (full : ReadsFully) where
    full_read : (d : Disk) (n k : ℕ) → is_full (pread d n k).0 n ≡ true
    full_read d n k = rw (full d n k) (ground arith)

    read_group-each :
        (d : Disk) (buf : Buffer) (start : BlockPair) (more : List BlockPair)
        → Small start
        → start.master_block_index + length (start ∷ more) ≤ max_slot
        → Follows (start.master_block_index + 1) more
        → read_group os d buf start more ≡ (true, read_each d (start ∷ more) buf)
    unfolding read_group
    read_group-each d buf start [] small room f =
        let at' : mul64 start.master_block_index block_size
            ≡ start.master_block_index * block_size =
          omega arith in
        let data' : (pread d block_size (start.master_block_index * block_size)).1 0
            ≡ block d start.master_block_index =
          pread_data d 1 start.master_block_index 0
            (full d block_size (start.master_block_index * block_size)) (omega arith)
          ∙ ap (block d) (omega arith) in
        rw (at', full_read d block_size (start.master_block_index * block_size), data') refl
    read_group-each d buf start (x ∷ more) small room f =
        let at' : mul64 start.master_block_index block_size
            ≡ start.master_block_index * block_size =
          omega arith in
        let n = length (start ∷ x ∷ more) in
        let ok = full d (n * block_size) (start.master_block_index * block_size) in
        rw (at', full_read d (n * block_size) (start.master_block_index * block_size))
          (ap (λ b. (true, b))
            (copy_group-each d buf
              (pread d (n * block_size) (start.master_block_index * block_size)).1
              start.master_block_index start.master_block_index n (start ∷ x ∷ more)
              (λ i h. pread_data d n start.master_block_index i ok h) (refl, f) (omega arith)
              (omega arith) (omega arith)))

    read_groups-each :
        (d : Disk) (buf : Buffer) (start : BlockPair) (more : List BlockPair) (prev : BlockPair)
        (rest : List BlockPair)
        → start.master_block_index + length (start ∷ more) ≤ max_slot
        → prev.master_block_index + 1 ≡ start.master_block_index + length (start ∷ more)
        → Follows (start.master_block_index + 1) more
        → All Small rest
        → read_groups os d buf start more prev rest
          ≡ (true, read_each d (start ∷ (more ++ rest)) buf)
    unfolding read_groups
    read_groups-each d buf start more prev [] room at' f s =
        read_group-each d buf start more (omega arith) room f ∙ rw append-nil refl
    read_groups-each d buf start more prev (x ∷ rest) room at' f (sx, s) =
        elim (Bool-cases (x.master_block_index == add64 prev.master_block_index 1)) [
          | inl j ↦
              let next : x.master_block_index ≡ start.master_block_index + length (start ∷ more) =
                ground arith in
              rw j (
                read_groups-each d buf start (more ++ (x ∷ [])) x rest
                  (omega (arith, next, length-append more (x ∷ [])))
                  (omega (arith, next, length-append more (x ∷ [])))
                  (Follows-snoc (start.master_block_index + 1) more x f (omega (arith, next))) s
                ∙ rw append_assoc refl)
          | inr j ↦
              rw (j, read_group-each d buf start more (omega arith) room f)
                (read_groups-each d (read_each d (start ∷ more) buf) x [] x rest (omega arith)
                    (omega arith) tt s
                  ∙ sym (
                      ap (λ b. (true, b))
                        (read_each-append d more (x ∷ rest)
                          (set_block buf start.logical_idx (block d start.master_block_index)))))
        ]

    -- Reading by groups never fails then, and puts each block into its place.
    pub read_sorted-each :
        (d : Disk) (buf : Buffer) (l : List BlockPair)
        → All Small l
        → read_sorted os d buf l ≡ (to_int (length l * block_size), read_each d l buf)
    unfolding read_sorted to_int
    read_sorted-each d buf [] s = refl
    read_sorted-each d buf (x ∷ rest) (sx, s) =
        rw (read_groups-each d buf x [] x rest (omega arith) (omega arith) tt s) refl
