-- ===== src/Dedup/Remove/Effect.antt =====
-- What the removals do to the files.
use dedup_block_fs.Base.{
  ℕ, zero, suc, ◌+◌, ◌-◌, ◌<◌, ◌≡◌, refl, ◌∙◌, inl, inr, Bool, true, false, ◌&&◌, Bool-cases,
  Option-cases, some, none, List, ◌++◌, leb, ltb, if◌then◌else◌, arith,
}
use dedup_block_fs.Keys.{
  FilePath, block_indice_key, block_indice_equal, bytes_equal, bytes_equal_iff,
}
use dedup_block_fs.Table.{lookup, remove}
use dedup_block_fs.Table.Laws.{lookup-remove}
use dedup_block_fs.Index.{Index, Ptr, indice, lookup_by_file_block, remove_file_block}
use dedup_block_fs.Index.Inv.{Inv, live-lt-next}
use dedup_block_fs.Index.Slots.{NoLeak, NoLeak-trans}
use dedup_block_fs.System.{System, Block}
use dedup_block_fs.View.{content, content-Keeps}
use dedup_block_fs.Dedup.Remove.{release_slots, remove_block_dedup, remove_blocks_dedup_batch}
use dedup_block_fs.Dedup.Remove.Drop.{Dropped}
use dedup_block_fs.Dedup.Remove.Batch.{remove_each, batch-remove_each}
use dedup_block_fs.Dedup.Remove.Unlink.{unlink_block-Inv, release_slots-Inv, release_slots-NoLeak}

-- Is (path', b') one of the blocks a, ..., a + n - 1 of `path`?
abbrev pub in_range : FilePath → ℕ → ℕ → FilePath → ℕ → Bool
in_range path a n path' b' = bytes_equal path path' && (leb a b' && ltb b' (a + n))

pub one-equal :
    (path : FilePath) (b : ℕ) (path' : FilePath) (b' : ℕ)
    → block_indice_equal (indice path b) (indice path' b') ≡ in_range path b 1 path' b'
unfolding block_indice_equal
one-equal path b path' b' = ground arith

module _ (os : System) (U : Block → Type 0) where
  open os use {Disk}

  -- The index after a removal: well formed, sizes as before, and the blocks in the range gone.
  pub record Removed (d : Disk) (next : ℕ) (refs pend : List Ptr) (reserved : List ℕ)
      (path : FilePath) (a n : ℕ) (ix ix' : Index) : Type 0 where
    pub inv : Inv os U d next refs pend reserved ix'
    pub sizes : ix'.file_to_sizes ≡ ix.file_to_sizes
    pub contents :
        (path' : FilePath) (b' : ℕ)
        → content os d ix' path' b'
          ≡ (if in_range path a n path' b' then none else content os d ix path' b')
    pub no_leak : NoLeak ix reserved ix' reserved

  absent-content :
      (d : Disk) (ix : Index) (path : FilePath) (b : ℕ) (path' : FilePath) (b' : ℕ)
      → lookup (indice path b) ix.file_to_master ≡ none
      → content os d ix path' b'
        ≡ (if in_range path b 1 path' b' then none else content os d ix path' b')
  unfolding content
  absent-content d ix path b path' b' e = elim (Bool-cases (in_range path b 1 path' b')) [
    | inl i ↦ rw i (rw (← same-path i, ← same-block i, e))
    | inr o ↦ rw o
  ]
    where
      same-path : in_range path b 1 path' b' ≡ true → path ≡ path'
      same-path i = (bytes_equal_iff path path').0 (ground arith)

      same-block : in_range path b 1 path' b' ≡ true → b ≡ b'
      same-block i = ground arith

  module _ {d : Disk} {next : ℕ} {refs pend : List Ptr} {reserved : List ℕ} where
    unlinked-content :
        {ix : Index} (path : FilePath) (b : ℕ) (slots : List ℕ) (ix' : Index) (path' : FilePath)
        (b' : ℕ)
        → Inv os U d next refs pend reserved ix
        → Inv os U d next refs pend (slots ++ reserved) ix'
        → Dropped (remove_file_block ix path b) ix'
        → content os d (release_slots slots ix') path' b'
          ≡ (if in_range path b 1 path' b' then none else content os d ix path' b')
    unfolding remove_file_block content
    unlinked-content {ix} path b slots ix' path' b' v w s =
        elim (Bool-cases (in_range path b 1 path' b')) [
          | inl e ↦ rw e (rw (lookup-gone e))
          | inr e ↦ rw e (
              content-Keeps os d ix.next_info ix ix' path' b' (s.keeps _) below
                (w.linked (indice path' b')) (rw s.file_same (lookup-kept e)))
        ]
      where
        below : (p : Ptr) → lookup (indice path' b') ix.file_to_master ≡ some p → p < ix.next_info
        below p e = let (m, t) = v.linked (indice path' b') p e in live-lt-next os U p m v t.live

        after : lookup (indice path' b') (remove (indice path b) ix.file_to_master) ≡ (
            if in_range path b 1 path' b' then none else lookup (indice path' b') ix.file_to_master)
        after =
            rw (← one-equal path b path' b')
              (lookup-remove (indice path' b') (indice path b) ix.file_to_master v.distinct_file)

        lookup-gone :
            in_range path b 1 path' b' ≡ true → lookup (indice path' b') ix'.file_to_master ≡ none
        lookup-gone e = rw (s.file_same, after, e)

        lookup-kept :
            in_range path b 1 path' b' ≡ false
            → lookup (indice path' b') (remove (indice path b) ix.file_to_master)
              ≡ lookup (indice path' b') ix.file_to_master
        lookup-kept e = rw (after, e)

    -- On a well-formed index remove_block_dedup does not fault. It takes the mapping of the block
    -- away, and leaves the content of every other block, the sizes and well-formedness as they
    -- were; no slot is lost.
    pub remove_block_dedup-Removed :
        (ix : Index) (path : FilePath) (b : ℕ)
        → Inv os U d next refs pend reserved ix
        → (ix' : Index) × (remove_block_dedup ix path b ≡ some ix')
          × Removed d next refs pend reserved path b 1 ix ix'
    unfolding remove_block_dedup lookup_by_file_block
    remove_block_dedup-Removed ix path b v =
        elim (Option-cases (lookup (indice path b) ix.file_to_master)) [
          | inl e ↦ (
            ix,
            rw (e, remove_block_dedup),
            record {
              inv = v;
              sizes = refl;
              contents = λ path' b'. absent-content d ix path b path' b' e;
              no_leak = λ s a. a;
            },
          )
          | inr (p, e) ↦
              let (slots, ix', run, w, s, safe) = unlink_block-Inv os U path b v p e in
              (
                release_slots slots ix',
                rw (e, remove_block_dedup, run),
                record {
                  inv = release_slots-Inv os U reserved slots w;
                  sizes = s.sizes_same;
                  contents = λ path' b'. unlinked-content path b slots ix' path' b' v w s;
                  no_leak =
                      NoLeak-trans ix ix' (release_slots slots ix') reserved (slots ++ reserved)
                        reserved safe (release_slots-NoLeak slots reserved ix');
                },
              )
        ]

    remove_each-Removed :
        (n : ℕ) (ix : Index) (path : FilePath) (b : ℕ)
        → Inv os U d next refs pend reserved ix
        → (ix' : Index) × (remove_each n ix path b ≡ some ix')
          × Removed d next refs pend reserved path b n ix ix'
    unfolding remove_each
    remove_each-Removed zero ix path b v = (
      ix,
      refl,
      record { inv = v; sizes = refl; contents = λ path' b'. ground arith; no_leak = λ s a. a },
    )
    remove_each-Removed (suc n) ix path b v =
        let (ix1, run, r) = remove_block_dedup-Removed ix path b v in
        let (ix2, more, r') = remove_each-Removed n ix1 path (b + 1) r.inv in
        (
          ix2,
          rw (run, more),
          record {
            inv = r'.inv;
            sizes = r'.sizes ∙ r.sizes;
            contents = λ path' b'. ground (arith, r.contents path' b', r'.contents path' b');
            no_leak = NoLeak-trans ix ix1 ix2 reserved reserved reserved r.no_leak r'.no_leak;
          },
        )

    -- On a well-formed index remove_blocks_dedup_batch does not fault. It takes the mappings of the
    -- blocks start_block, ..., end_block - 1 of the path away, and leaves the content of every
    -- other block, the sizes and well-formedness as they were; no slot is lost.
    pub remove_batch-Removed :
        (ix : Index) (path : FilePath) (start_block end_block : ℕ)
        → Inv os U d next refs pend reserved ix
        → (ix' : Index) × (remove_blocks_dedup_batch ix path start_block end_block ≡ some ix')
          × Removed d next refs pend reserved path start_block (end_block - start_block) ix ix'
    remove_batch-Removed ix path a b v =
        let (ix', run, r) = remove_each-Removed (b - a) ix path a v in
        (ix', batch-remove_each ix path a b ∙ run, r)
