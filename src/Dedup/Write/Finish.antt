-- ===== src/Dedup/Write/Finish.antt =====
-- Passes 2 and 3 after a flush that went through.
use dedup_block_fs.Base.{
  subst, sym, ◌∙◌, ℕ, ◌≡◌, refl, Option, none, some, List, [], ◌++◌, count-append, ltb,
  if◌then◌else◌, All, arith,
}
use mathlib.Core.List.{append-nil}
use dedup_block_fs.Keys.{
  FilePath, bytes_key, bytes_equal, bytes_equal_iff, BlockIndice, block_indice_key,
}
use dedup_block_fs.Table.{lookup, Distinct}
use dedup_block_fs.Table.Laws.{lookup-insert, Distinct-insert}
use dedup_block_fs.Index.{Index, Ptr}
use dedup_block_fs.Index.Inv.{Inv, Keeps, recount}
use dedup_block_fs.Index.Slots.{NoLeak, NoLeak-trans, Stays-same, Stays-NoLeak}
use dedup_block_fs.System.{System, Block}
use dedup_block_fs.Dedup.Plan.{PlanEntry}
use dedup_block_fs.Dedup.Plan.Entries.{refs_of, pend_of, slots_of, Fresh}
use dedup_block_fs.Dedup.Remove.{release_slots}
use dedup_block_fs.Dedup.Remove.Unlink.{release_slots-Inv}
use dedup_block_fs.Dedup.Commit.{grow_size, consolidate}
use dedup_block_fs.Dedup.Commit.Publish.{Ready, PublishDone, publish-Done}
use dedup_block_fs.Dedup.Commit.Link.{Linked, link_blocks-Linked, target}

-- The sizes have no part in the invariant.
pub resized-Inv :
    (os : System) (U : Block → Type 0) {d : os.Disk} {next : ℕ} {refs pend : List Ptr}
    {reserved : List ℕ} (ix ix' : Index)
    → ix' ≡ record ix { file_to_sizes = ix'.file_to_sizes }
    → Inv os U d next refs pend reserved ix
    → Inv os U d next refs pend reserved ix'
resized-Inv os U ix ix' e v = rw e (record {
  distinct_hash = v.distinct_hash;
  distinct_file = v.distinct_file;
  fresh = v.fresh;
  hashed = λ h q e.
      let (n, s, t) = v.hashed h q e in (n, record { live = s.live; listed = s.listed }, t);
  linked = λ k q e. let (n, s) = v.linked k q e in (n, record { live = s.live; listed = s.listed });
  held = v.held;
  stored = λ q n h. v.stored q n (record { live = h.live; listed = h.listed });
  counted = v.counted;
  positive = v.positive;
  owned = v.owned;
  slot_once = v.slot_once;
  slot_below = v.slot_below;
  slot_used = λ q n h. v.slot_used q n (record { live = h.live; listed = h.listed });
  slot_owner = λ q r n o h k.
      v.slot_owner q r n o (record { live = h.live; listed = h.listed })
        (record { live = k.live; listed = k.listed });
})

grow_size-same :
    (path : FilePath) (new_end : ℕ) (ix : Index)
    → grow_size path new_end ix
      ≡ record ix { file_to_sizes = (grow_size path new_end ix).file_to_sizes }
unfolding grow_size
grow_size-same path new_end ix = ground arith

-- The size of `path` after a write that ends at `new_end`: it grows, and never shrinks.
abbrev pub grown_size : Option ℕ → ℕ → ℕ
grown_size none new_end = new_end
grown_size (some size) new_end = if ltb size new_end then new_end else size

pub lookup-grow_size :
    (path path' : FilePath) (new_end : ℕ) (ix : Index)
    → lookup path' (grow_size path new_end ix).file_to_sizes ≡ (
        if bytes_equal path path'
        then some (grown_size (lookup path ix.file_to_sizes) new_end)
        else lookup path' ix.file_to_sizes)
unfolding grow_size
lookup-grow_size path path' new_end ix =
    ground (arith, lookup-insert path' path new_end ix.file_to_sizes, bytes_equal_iff path path')

grow_size-Distinct :
    (path : FilePath) (new_end : ℕ) (ix : Index)
    → Distinct ix.file_to_sizes
    → Distinct (grow_size path new_end ix).file_to_sizes
unfolding grow_size
grow_size-Distinct path new_end ix d = ground (arith, Distinct-insert path new_end ix.file_to_sizes)

module _ (os : System) (U : Block → Type 0) where
  open os use {Disk}

  -- What pass 3 makes of the index.
  pub record Committed (d : Disk) (next : ℕ) (path : FilePath) (plan : List PlanEntry) (new_end : ℕ)
      (ix ix' : Index) : Type 0 where
    pub inv : Inv os U d next [] [] [] ix'
    pub keeps : (bound : Ptr) → Keeps bound ix ix'
    pub targets :
        (k : BlockIndice)
        → lookup k ix'.file_to_master ≡ target path plan k (lookup k ix.file_to_master)
    pub distinct : Distinct ix.file_to_sizes → Distinct ix'.file_to_sizes
    pub sizes :
        (path' : FilePath)
        → lookup path' ix'.file_to_sizes ≡ (
            if bytes_equal path path'
            then some (grown_size (lookup path ix.file_to_sizes) new_end)
            else lookup path' ix.file_to_sizes)
    pub no_leak : NoLeak ix (slots_of plan) ix' []

  sized :
      (path : FilePath) (new_end : ℕ) (ix : Index)
      → ((grow_size path new_end ix).infos ≡ ix.infos)
        × ((grow_size path new_end ix).file_to_master ≡ ix.file_to_master)
        × ((grow_size path new_end ix).hash_to_master ≡ ix.hash_to_master)
        × ((grow_size path new_end ix).free_block_list ≡ ix.free_block_list)
  unfolding grow_size
  sized path new_end ix = (ground arith, ground arith, ground arith, ground arith)

  -- The slots in hand go to the free list.
  released-NoLeak :
      (path : FilePath) (new_end : ℕ) (ix : Index) (slots : List ℕ)
      → NoLeak ix (slots ++ []) (release_slots slots (grow_size path new_end ix)) []
  released-NoLeak path new_end ix slots =
      let same = sized path new_end ix in
      let ix' = release_slots slots (grow_size path new_end ix) in
      Stays-NoLeak ix ix' (slots ++ []) []
        (λ s. ground (
          arith,
          same.3,
          count-append s slots [],
          count-append s slots (grow_size path new_end ix).free_block_list,
        ))
        (Stays-same ix ix' same.0 same.2)

  commit :
      (d : Disk) (next : ℕ) (path : FilePath) (plan : List PlanEntry) (new_end : ℕ)
      (ix ix1 ix2 : Index) (slots : List ℕ)
      → PublishDone os U d next (refs_of plan) [] [] ix ix1
      → Linked os U d next [] (slots ++ []) path plan ix1 ix2
      → NoLeak ix (slots_of plan) ix2 (slots ++ [])
      → Committed d next path plan new_end ix (release_slots slots (grow_size path new_end ix2))
  commit d next path plan new_end ix ix1 ix2 slots p l safe =
      let same = sized path new_end ix2 in
      record {
        inv = release_slots-Inv os U [] slots (
            resized-Inv os U ix2 (grow_size path new_end ix2) (grow_size-same path new_end ix2)
              l.inv);
        keeps = λ bound q m below h.
            let (n, h', a, b) = l.keeps bound q m below (rw same.0 at h) in
            (n, rw p.infos_same at h', a, b);
        targets = λ k. rw (same.1, l.targets k, p.file_same);
        distinct = λ t.
            grow_size-Distinct path new_end ix2
              (subst (λ s. Distinct s) (sym (l.sizes_same ∙ p.sizes_same)) t);
        sizes = λ path'. rw (lookup-grow_size path path' new_end ix2, l.sizes_same, p.sizes_same);
        no_leak =
            NoLeak-trans ix ix2 (release_slots slots (grow_size path new_end ix2)) (slots_of plan)
              (slots ++ []) [] safe (released-NoLeak path new_end ix2 slots);
      }

  -- After a flush that went through, where no digest of a MISS is in hash_to_master yet and no two
  -- are the same (no other write published one between the passes), pass 3 does not fault. It
  -- leaves a well-formed index with no reference, pending MasterInfo or slot in hand, the entries
  -- of the plan as the mappings of their blocks, every other mapping as it was, and the size grown
  -- to `new_end`. No slot is lost: those of the plan, those of the free list and those of published
  -- MasterInfos are on the free list or have a published MasterInfo.
  pub consolidate-Committed :
      (d : Disk) (next : ℕ) (path : FilePath) (plan : List PlanEntry) (new_end : ℕ) (ix : Index)
      → Inv os U d next (refs_of plan) (pend_of plan) (slots_of plan) ix
      → Fresh ix.hash_to_master plan
      → All (Ready os U d ix) plan
      → (ix' : Index) × (consolidate path plan new_end ix ≡ some ix')
        × Committed d next path plan new_end ix ix'
  unfolding consolidate
  consolidate-Committed d next path plan new_end ix v fresh ready =
      let v1 =
        recount os U (refs_of plan) (pend_of plan ++ []) (slots_of plan ++ []) (λ r. refl)
          (λ r. rw append-nil) (λ s. rw append-nil) v in
      let (ix1, run1, p, safe1) =
        publish-Done os U d next (refs_of plan) [] [] plan [] ix v1 fresh ready in
      let v2 =
        recount os U (refs_of plan ++ []) [] [] (λ r. rw append-nil) (λ r. refl) (λ s. refl)
          p.inv in
      let (slots, ix2, run2, l, safe2) = link_blocks-Linked os U d next [] path plan [] [] ix1 v2 in
      (
        release_slots slots (grow_size path new_end ix2),
        rw (run1, run2),
        commit d next path plan new_end ix ix1 ix2 slots p l (
            NoLeak-trans ix ix1 ix2 (slots_of plan) [] (slots ++ [])
              (subst (λ l. NoLeak ix l ix1 []) (append-nil (slots_of plan)) safe1) safe2),
      )
