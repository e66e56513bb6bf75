-- ===== src/Dedup/Remove/Unlink.antt =====
-- A block that is unlinked: its entry goes, the rest of the file table stays, the index stays well
-- formed, and what the remaining blocks hold does not change.
use dedup_block_fs.Base.{
  ℕ, ◌≡◌, refl, inl, inr, Bool-cases, some, List, ◌∷◌, ◌++◌, ◌==◌, arith, count-append,
}
use dedup_block_fs.Keys.{FilePath, bytes_key, block_indice_key}
use dedup_block_fs.Table.{lookup}
use dedup_block_fs.Table.Laws.{lookup-remove, Distinct-remove, holders-remove}
use dedup_block_fs.Index.{Index, Ptr, indice, remove_file_block}
use dedup_block_fs.Index.Inv.{Inv, move_slots}
use dedup_block_fs.Index.Slots.{NoLeak, NoLeak-trans, Stays-same, Stays-NoLeak}
use dedup_block_fs.System.{System, Block}
use dedup_block_fs.Dedup.Remove.{unlink_block, release_slots}
use dedup_block_fs.Dedup.Remove.Drop.{Dropped, drop_ref-Inv}

pub release_slots-NoLeak :
    (slots reserved : List ℕ) (ix : Index)
    → NoLeak ix (slots ++ reserved) (release_slots slots ix) reserved
release_slots-NoLeak slots reserved ix =
    Stays-NoLeak ix (release_slots slots ix) (slots ++ reserved) reserved
      (λ s. omega (arith, count-append s slots ix.free_block_list, count-append s slots reserved))
      (Stays-same ix (release_slots slots ix) refl refl)

module _ (os : System) (U : Block → Type 0) where
  open os use {Disk}

  module _ {d : Disk} {next : ℕ} {refs pend : List Ptr} {reserved : List ℕ} {ix : Index}
      (path : FilePath) (b : ℕ) (v : Inv os U d next refs pend reserved ix) where
    -- The reference of the entry goes over to the caller.
    remove_file_block-Inv :
        (p : Ptr)
        → lookup (indice path b) ix.file_to_master ≡ some p
        → Inv os U d next (p ∷ refs) pend reserved (remove_file_block ix path b)
    unfolding remove_file_block
    remove_file_block-Inv p e = record {
      distinct_hash = v.distinct_hash;
      distinct_file = Distinct-remove (indice path b) ix.file_to_master v.distinct_file;
      fresh = v.fresh;
      hashed = λ h q e'.
          let (n, s, t) = v.hashed h q e' in (n, record { live = s.live; listed = s.listed }, t);
      linked = λ k q e'.
          let (n, s) =
            v.linked k q
              (ground (arith, lookup-remove k (indice path b) ix.file_to_master v.distinct_file)) in
          (n, record { live = s.live; listed = s.listed });
      held = λ q h. elim (Bool-cases (q == p)) [
        | inl same ↦ let (n, s) = v.linked (indice path b) p e in (n, ground (arith, s.live))
        | inr other ↦ v.held q (ground arith)
      ];
      stored = λ q n h. v.stored q n (record { live = h.live; listed = h.listed });
      counted = λ q n h.
          ground (arith, v.counted q n h, holders-remove q (indice path b) ix.file_to_master);
      positive = v.positive;
      owned = v.owned;
      slot_once = v.slot_once;
      slot_below = v.slot_below;
      slot_used = λ q n h. v.slot_used q n (record { live = h.live; listed = h.listed });
      slot_owner = λ q r n o h k.
          v.slot_owner q r n o (record { live = h.live; listed = h.listed })
            (record { live = k.live; listed = k.listed });
    }

    -- The entry of the block goes and its reference with it; the slot, if it comes free, is handed
    -- to the caller, and none is lost.
    pub unlink_block-Inv :
        (p : Ptr)
        → lookup (indice path b) ix.file_to_master ≡ some p
        → (slots : List ℕ) × (ix' : Index) × (unlink_block ix path b p ≡ some (slots, ix'))
          × Inv os U d next refs pend (slots ++ reserved) ix'
          × Dropped (remove_file_block ix path b) ix'
          × NoLeak ix reserved ix' (slots ++ reserved)
    unfolding unlink_block remove_file_block
    unlink_block-Inv p e =
        let (m, s) = v.linked (indice path b) p e in
        let (slots, ix', run, w, dropped, safe) =
          drop_ref-Inv os U p m (remove_file_block-Inv p e)
            (record { live = s.live; listed = s.listed }) in
        (
          slots,
          ix',
          run,
          w,
          dropped,
          NoLeak-trans ix (remove_file_block ix path b) ix' reserved reserved (slots ++ reserved)
              (Stays-NoLeak ix (remove_file_block ix path b) reserved reserved (λ t. omega arith)
                (Stays-same ix (remove_file_block ix path b) refl refl))
              safe,
        )

  -- Slots that a caller collected go to the head of the free list.
  pub release_slots-Inv :
      {d : Disk} {next : ℕ} {refs pend : List Ptr} (reserved : List ℕ) {ix : Index} (slots : List ℕ)
      → Inv os U d next refs pend (slots ++ reserved) ix
      → Inv os U d next refs pend reserved (release_slots slots ix)
  release_slots-Inv reserved {ix} slots v =
      move_slots os U (slots ++ ix.free_block_list) reserved
        (λ s. omega (arith, count-append s slots ix.free_block_list, count-append s slots reserved))
        v
