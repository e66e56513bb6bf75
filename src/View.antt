-- ===== src/View.antt =====
-- What the index and the master file say of files: the block stored for each (path, logical block).
use dedup_block_fs.Base.{ℕ, ◌<◌, ◌≡◌, ◌∙◌, sym, inl, inr, Option, Option-cases, some, arith, ◌>>=◌}
use dedup_block_fs.Keys.{FilePath, block_indice_key}
use dedup_block_fs.Table.{lookup}
use dedup_block_fs.Index.{Index, Ptr, MasterInfo, indice, lookup_by_file_block}
use dedup_block_fs.Index.Inv.{Published, Keeps}
use dedup_block_fs.System.{System, Block}

module _ (os : System) where
  open os use {Disk, block}

  -- The block behind a pointer, and behind an entry of file_to_master.
  unfoldable pub block_behind : Disk → Index → Option Ptr → Option Block
  block_behind d ix found = do p ← found; info ← ix.infos p; some (block d info.master_block_index)

  unfoldable pub content : Disk → Index → FilePath → ℕ → Option Block
  unfolding block_behind lookup_by_file_block
  content d ix path b = block_behind d ix (lookup_by_file_block ix path b)

  -- Where the entry is the old one, live, and every live MasterInfo was there before, the content
  -- is the old one too.
  pub content-Keeps :
      (d : Disk) (bound : Ptr) (ix ix' : Index) (path : FilePath) (b : ℕ)
      → Keeps bound ix ix'
      → ((p : Ptr) → lookup (indice path b) ix.file_to_master ≡ some p → p < bound)
      → ((p : Ptr)
          → lookup (indice path b) ix'.file_to_master ≡ some p
          → (m : MasterInfo) × Published ix' p m)
      → lookup (indice path b) ix'.file_to_master ≡ lookup (indice path b) ix.file_to_master
      → content d ix' path b ≡ content d ix path b
  unfolding content
  content-Keeps d bound ix ix' path b keep below live same =
      elim (Option-cases (lookup (indice path b) ix'.file_to_master)) [
        | inl e ↦ rw (e, sym same ∙ e)
        | inr (p, e) ↦
            let (m, s) = live p e in
            let (m', a, c, c') = keep p m (below p (sym same ∙ e)) s.live in
            ground (arith, e, same, s.live, a, c)
      ]
