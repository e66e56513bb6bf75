-- ===== src/Fuse/Ok.antt =====
-- What the mounted file system keeps true between two requests.
use dedup_block_fs.Base.{
  ℕ, ◌*◌, ◌%◌, ◌^◌, ◌≤◌, ◌<◌, ◌≡◌, refl, inl, inr, Option-cases, none, some, [], arith,
}
use dedup_block_fs.Keys.{FilePath, bytes_key}
use dedup_block_fs.Table.{lookup, Distinct}
use dedup_block_fs.Index.{Index}
use dedup_block_fs.Index.Inv.{Inv}
use dedup_block_fs.System.{System, Block, block_size}
use dedup_block_fs.View.{content}
use dedup_block_fs.Dedup.Write.{Store}
use dedup_block_fs.Fuse.Handlers.{blocks_of}

-- A logical size is a whole number of blocks.
abbrev pub Whole : ℕ → Type 0
Whole size = (size % block_size ≡ 0) × (size < 2 ^ 64)

pub blocks_of-Whole : (size : ℕ) → Whole size → blocks_of size * block_size ≡ size
blocks_of-Whole size (a, b) = omega arith

module _ (os : System) (U : Block → Type 0) where
  open os use {Disk}

  -- The index, the master file and the sizes agree: no block lies beyond the size of its file.
  pub record StoreOk (st : Store Disk) : Type 0 where
    pub inv : Inv os U st.disk st.next_block_index [] [] [] st.index
    pub distinct : Distinct st.index.file_to_sizes
    pub whole :
        (path : FilePath) (size : ℕ) → lookup path st.index.file_to_sizes ≡ some size → Whole size
    pub within :
        (path : FilePath) (b : ℕ) (found : Block)
        → content os st.disk st.index path b ≡ some found
        → (size : ℕ) × (lookup path st.index.file_to_sizes ≡ some size) × (b * block_size < size)

  -- Contents do not depend on the sizes.
  pub content-resized :
      (d : Disk) (ix : Index) (path : FilePath) (b : ℕ)
      → (sizes : _)
      → content os d (record ix { file_to_sizes = sizes }) path b ≡ content os d ix path b
  unfolding content
  content-resized d ix path b sizes = refl

  pub unsized-content :
      (st : Store Disk) (path : FilePath) (b : ℕ)
      → StoreOk st
      → lookup path st.index.file_to_sizes ≡ none
      → content os st.disk st.index path b ≡ none
  unsized-content st path b v e = elim (Option-cases (content os st.disk st.index path b)) [
    | inl gone ↦ gone
    | inr (found, here) ↦
        let (size, e', low) = v.within path b found here in absurd (ground (arith, e, e'))
  ]

  pub beyond-content :
      (st : Store Disk) (path : FilePath) (b size : ℕ)
      → StoreOk st
      → lookup path st.index.file_to_sizes ≡ some size
      → size ≤ b * block_size
      → content os st.disk st.index path b ≡ none
  beyond-content st path b size v e far = elim (Option-cases (content os st.disk st.index path b)) [
    | inl gone ↦ gone
    | inr (found, here) ↦
        let (size', e', low) = v.within path b found here in absurd (ground (arith, e, e'))
  ]
