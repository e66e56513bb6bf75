-- ===== src/Fuse/Forget.antt =====
-- What unlink and truncate do to the index.
use dedup_block_fs.Base.{
  ℕ, ◌+◌, ◌*◌, ◌-◌, ◌≤◌, ◌<◌, ◌≡◌, refl, sym, ap, ◌∙◌, subst, inl, inr, true, ◌&&◌, Bool-cases,
  Option, Option-cases, none, some, [], ltb, leb, if◌then◌else◌, arith,
}
use dedup_block_fs.Keys.{FilePath, bytes_key, bytes_equal, bytes_equal_iff}
use dedup_block_fs.Table.{lookup, insert, remove, Distinct}
use dedup_block_fs.Table.Laws.{lookup-insert, lookup-remove, Distinct-insert, Distinct-remove}
use dedup_block_fs.Index.{Index}
use dedup_block_fs.Index.Slots.{NoLeak, NoLeak-trans, Stays-same, Stays-NoLeak}
use dedup_block_fs.System.{System, Block, block_size}
use dedup_block_fs.View.{content}
use dedup_block_fs.Dedup.Remove.Effect.{Removed, remove_batch-Removed}
use dedup_block_fs.Dedup.Write.{Store}
use dedup_block_fs.Dedup.Write.Finish.{resized-Inv}
use dedup_block_fs.Fuse.Handlers.{blocks_of, forget_file, cut_file}
use dedup_block_fs.Fuse.Ok.{
  Whole, blocks_of-Whole, StoreOk, content-resized, unsized-content, beyond-content,
}

-- The size that `truncate` to `size` leaves.
abbrev pub cut_size : ℕ → Option ℕ → Option ℕ
cut_size size none = none
cut_size size (some old) = if ltb size old then some size else some old

resized-NoLeak : (ix : Index) (sizes : _) → NoLeak ix [] (record ix { file_to_sizes = sizes }) []
resized-NoLeak ix sizes =
    Stays-NoLeak ix (record ix { file_to_sizes = sizes }) [] [] (λ s. omega arith)
      (Stays-same ix (record ix { file_to_sizes = sizes }) refl refl)

module _ (os : System) (U : Block → Type 0) (st : Store os.Disk) (path : FilePath) where
  -- The store with the index `ix'`: the path has the size `left`, and the blocks below it.
  pub record Shortened (left : Option ℕ) (first : ℕ) (ix' : Index) : Type 0 where
    pub ok : StoreOk os U (record st { index = ix' })
    pub sizes :
        (path' : FilePath)
        → lookup path' ix'.file_to_sizes
          ≡ (if bytes_equal path path' then left else lookup path' st.index.file_to_sizes)
    pub contents :
        (path' : FilePath) (b : ℕ)
        → content os st.disk ix' path' b ≡ (
            if bytes_equal path path' && leb first b
            then none
            else content os st.disk st.index path' b)
    pub no_leak : NoLeak st.index [] ix' []

  module _ (v : StoreOk os U st) where
    -- A file without a size has no blocks.
    forget_unsized : lookup path st.index.file_to_sizes ≡ none → Shortened none 0 st.index
    forget_unsized e = record {
      ok = v;
      sizes = λ path'. ground (arith, e, bytes_equal_iff path path');
      contents = λ path' b. elim (Bool-cases (bytes_equal path path')) [
        | inl i ↦ ground (
          arith,
          i,
          unsized-content os U st path' b v (
              subst (λ p. lookup p st.index.file_to_sizes ≡ none) ((bytes_equal_iff path path').0 i)
                e),
        )
        | inr o ↦ rw o refl
      ];
      no_leak = λ s a. a;
    }

    module _ (size first : ℕ) (ix1 : Index) (here : lookup path st.index.file_to_sizes ≡ some size)
        (r : Removed os U st.disk st.next_block_index [] [] [] path first
          (blocks_of size - first)
          st.index
          ix1) where
      -- No block of the path is left from `first` on.
      removed-content :
          (path' : FilePath) (b : ℕ)
          → content os st.disk ix1 path' b ≡ (
              if bytes_equal path path' && leb first b
              then none
              else content os st.disk st.index path' b)
      removed-content path' b =
          elim (Bool-cases (bytes_equal path path' && ltb (blocks_of size) (b + 1))) [
            | inl far ↦
                let same : path ≡ path' = (bytes_equal_iff path path').0 (ground (arith, far)) in
                let gone =
                  beyond-content os U st path' b size v
                    (subst (λ p. lookup p st.index.file_to_sizes ≡ some size) same here)
                    (omega (arith, blocks_of-Whole size (v.whole path size here), within far)) in
                ground (arith, gone, r.contents path' b)
            | inr near ↦ ground (arith, near, r.contents path' b)
          ]
        where
          within :
              (bytes_equal path path' && ltb (blocks_of size) (b + 1)) ≡ true → blocks_of size ≤ b
          within far = ground arith

      -- The index with the blocks gone and other sizes.
      resized :
          (left : Option ℕ) (sizes : _)
          → ((path' : FilePath)
              → lookup path' sizes
                ≡ (if bytes_equal path path' then left else lookup path' st.index.file_to_sizes))
          → Distinct sizes
          → ((s : ℕ) → left ≡ some s → Whole s × (first * block_size ≤ s))
          → (left ≡ none → first ≡ 0)
          → Shortened left first (record ix1 { file_to_sizes = sizes })
      resized left sizes at distinct whole none_zero = record {
        ok = record {
          inv = resized-Inv os U ix1 (record ix1 { file_to_sizes = sizes }) refl r.inv;
          distinct = distinct;
          whole = λ path' s e. elim (Bool-cases (bytes_equal path path')) [
            | inl i ↦ (whole s (ground (arith, i, e, at path'))).0
            | inr o ↦ v.whole path' s (ground (arith, o, e, at path'))
          ];
          within = λ path' b found e. elim (Bool-cases (bytes_equal path path')) [
            | inl i ↦
                let below : b < first = ground (
                  arith,
                  i,
                  e,
                  content-resized os U st.disk ix1 path' b sizes,
                  removed-content path' b,
                ) in
                elim (Option-cases left) [
                  | inl z ↦ absurd (omega (arith, none_zero z, below))
                  | inr (s, z) ↦
                      (s, ground (arith, i, z, at path'), omega (arith, below, (whole s z).1))
                ]
            | inr o ↦
                let (s, e', low) = v.within path' b found (
                  ground (
                    arith,
                    o,
                    e,
                    content-resized os U st.disk ix1 path' b sizes,
                    removed-content path' b,
                  )) in
                (s, ground (arith, o, e', at path'), low)
          ];
        };
        sizes = at;
        contents =
            λ path' b. content-resized os U st.disk ix1 path' b sizes ∙ removed-content path' b;
        no_leak =
            NoLeak-trans st.index ix1 (record ix1 { file_to_sizes = sizes }) [] [] [] r.no_leak
              (resized-NoLeak ix1 sizes);
      }

    -- A file that has a size has none afterwards, and no block; every other file is as it was.
    pub forget_file-Shortened :
        (ix' : Index) × (forget_file path st.index ≡ some ix') × Shortened none 0 ix'
    unfolding forget_file
    forget_file-Shortened = elim (Option-cases (lookup path st.index.file_to_sizes)) [
      | inl e ↦ (st.index, rw (forget_file, e) refl, forget_unsized e)
      | inr (size, e) ↦
          let (ix1, run, r) = remove_batch-Removed os U st.index path 0 (blocks_of size) v.inv in
          let old = subst (λ t. Distinct t) (sym r.sizes) v.distinct in
          (
            record ix1 { file_to_sizes = remove path ix1.file_to_sizes },
            rw (forget_file, e, run) refl,
            resized size 0 ix1 e r none (remove path ix1.file_to_sizes)
                (λ path'. rw (← r.sizes) (lookup-remove path' path ix1.file_to_sizes old))
                (Distinct-remove path ix1.file_to_sizes old) (λ s h. absurd (ground (arith, h)))
                (λ h. refl),
          )
    ]

    -- A file without a size has no block to lose.
    unsized_cut :
        {first : ℕ} → lookup path st.index.file_to_sizes ≡ none → Shortened none first st.index
    unsized_cut e =
        let n = forget_unsized e in
        record {
          ok = v;
          sizes = n.sizes;
          contents = λ path' b. ground (arith, n.contents path' b);
          no_leak = λ s a. a;
        }

    -- A size that is not below the old one changes nothing.
    kept :
        (size old : ℕ)
        → Whole size
        → lookup path st.index.file_to_sizes ≡ some old
        → old ≤ size
        → Shortened (some old) (blocks_of size) st.index
    kept size old w e h = record {
      ok = v;
      sizes = λ path'. ground (arith, e, bytes_equal_iff path path');
      contents = λ path' b. elim (Bool-cases (bytes_equal path path' && leb (blocks_of size) b)) [
        | inl i ↦
            let same : path ≡ path' = (bytes_equal_iff path path').0 (ground (arith, i)) in
            let far : blocks_of size ≤ b = ground (arith, i) in
            rw i (
              beyond-content os U st path' b old v
                (subst (λ p. lookup p st.index.file_to_sizes ≡ some old) same e)
                (omega (arith, blocks_of-Whole size w, far)))
        | inr o ↦ rw o refl
      ];
      no_leak = λ s a. a;
    }

    -- On a store that agrees, a file that has a size gets the smaller of its size and the new one,
    -- a whole number of blocks, and loses the blocks from there on; a file without one is left
    -- alone. Every other file is as it was, the store agrees again, and no slot is lost.
    pub cut_file-Shortened :
        (size : ℕ)
        → Whole size
        → (ix' : Index) × (cut_file path size st.index ≡ some ix')
          × Shortened (cut_size size (lookup path st.index.file_to_sizes)) (blocks_of size) ix'
    unfolding cut_file
    cut_file-Shortened size w = elim (Option-cases (lookup path st.index.file_to_sizes)) [
      | inl e ↦ (st.index, rw (cut_file, e) refl, rw e (unsized_cut e))
      | inr (old, e) ↦ elim (Bool-cases (ltb size old)) [
        | inr keep ↦
            (st.index, rw (cut_file, e, keep) refl, rw (e, keep) (kept size old w e (ground arith)))
        | inl less ↦
            let (ix1, run, r) =
              remove_batch-Removed os U st.index path (blocks_of size) (blocks_of old) v.inv in
            let d = subst (λ t. Distinct t) (sym r.sizes) v.distinct in
            (
              record ix1 { file_to_sizes = insert path size ix1.file_to_sizes },
              rw (cut_file, e, less, run, ap (lookup path) r.sizes ∙ e, less) refl,
              rw (e, less)
                  (resized old (blocks_of size) ix1 e r (some size)
                    (insert path size ix1.file_to_sizes)
                    (λ path'. rw (← r.sizes) (lookup-insert path' path size ix1.file_to_sizes))
                    (Distinct-insert path size ix1.file_to_sizes d)
                    (λ s h. (
                      subst Whole (ground (arith, h)) w,
                      omega (arith, blocks_of-Whole size w, same_size s h),
                    ))
                    (λ h. absurd (ground (arith, h)))),
            )
      ]
    ]
      where
        same_size : (s : ℕ) → some size ≡ some s → size ≡ s
        same_size s h = ground (arith, h)
