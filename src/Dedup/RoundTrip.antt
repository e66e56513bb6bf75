-- ===== src/Dedup/RoundTrip.antt =====
-- write_dedup and read_dedup together.
use dedup_block_fs.Base.{
  ℕ, ◌+◌, ◌*◌, ◌^◌, ◌<◌, ◌≤◌, ◌≡◌, ap, ◌∙◌, subst, inl, inr, false, Bool-cases, some, [], ltb,
  length, arith,
}
use dedup_block_fs.Base.Int.{to_int}
use dedup_block_fs.Keys.{FilePath}
use dedup_block_fs.Index.Inv.{Inv}
use dedup_block_fs.System.{System, Block, Buffer, block_size}
use dedup_block_fs.Dedup.Flush.Runs.{max_slot}
use dedup_block_fs.Dedup.Read.{read_dedup}
use dedup_block_fs.Dedup.Read.Groups.{ReadsFully}
use dedup_block_fs.Dedup.Read.Correct.{ReadBlocks, read_dedup-Blocks}
use dedup_block_fs.Dedup.Write.{Store, write_dedup}
use dedup_block_fs.Dedup.Write.Cover.{WritesFully}
use dedup_block_fs.Dedup.Write.Correct.{Wrote, write_dedup-Wrote}

module _ (os : System) (U : Block → Type 0) (path : FilePath) (buf : Buffer) (start n : ℕ) where
  open os use {Disk, sha512, malloc_fails}

  all_blocks :
      (st st' : Store Disk) (k : ℕ) (before got : Buffer) (w : Wrote os U path buf start n st st')
      (small : st'.next_block_index ≤ max_slot)
      → ReadBlocks os U st'.index path start w.inv small n k before got
      → (k ≡ n) × ((j : ℕ) → j < n → (sha512 (got j) ≡ sha512 (buf j)) × U (got j))
  all_blocks st st' k before got w small r = elim (Bool-cases (ltb k n)) [
    | inl short ↦
        let (b, here, same, known) = w.blocks k (ground arith) in
        absurd (ground (arith, here, r.stops (ground arith)))
    | inr long ↦ (ground (arith, at_most), λ j h. got_block j h (ground (arith, at_most)))
  ]
    where
      at_most : k ≤ n
      at_most = r.at_most

      got_block : (j : ℕ) → j < n → j < k → (sha512 (got j) ≡ sha512 (buf j)) × U (got j)
      got_block j h h' =
          let (b, here, same, known) = w.blocks j h in
          let e : b ≡ got j = ground (arith, here, r.blocks j h') in
          (rw (← e) same, subst U e known)

  -- Under the conditions of the theorem on write_dedup, and with a master file that also delivers
  -- every read in full and memory for the read: a read of the range that was just written returns
  -- all of its bytes, and every block of it has the digest of the block that was written.
  pub write_then_read :
      (st : Store Disk) (before : Buffer)
      → Inv os U st.disk st.next_block_index [] [] [] st.index
      → WritesFully os U buf
      → ReadsFully os
      → ((m : ℕ) → malloc_fails m ≡ false)
      → ((i : ℕ) → i < n → U (buf i))
      → 0 < n
      → length st.index.file_to_master + n < 2 ^ 32
      → st.next_block_index + n ≤ max_slot
      → (start + n) * block_size < 2 ^ 64
      → (st' : Store Disk) × (got : Buffer) × (write_dedup os st path buf
            (n * block_size)
            (start * block_size)
          ≡ some (to_int (n * block_size), st'))
        × (read_dedup os st'.index path before (n * block_size) (start * block_size) st'.disk
            ≡ some (to_int (n * block_size), got))
        × ((j : ℕ) → j < n → (sha512 (got j) ≡ sha512 (buf j)) × U (got j))
  write_then_read st before v writes reads memory u some_blocks count slots room =
      let (st', run, w) =
        write_dedup-Wrote os U path buf start n st v writes u some_blocks count slots room in
      let small : st'.next_block_index ≤ max_slot = omega (arith, w.next_bound) in
      let (k, got, run', r) =
        read_dedup-Blocks os U st'.index path start w.inv small n before reads memory room
          some_blocks in
      let (all, same) = all_blocks st st' k before got w small r in
      (st', got, run, run' ∙ ap (λ m. some (to_int (m * block_size), got)) all, same)
