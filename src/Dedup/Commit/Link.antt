-- ===== src/Dedup/Commit/Link.antt =====
-- The second loop of pass 3.
use dedup_block_fs.Base.{
  ℕ, ◌+◌, ◌≡◌, refl, sym, ap, ◌∙◌, inl, inr, true, Bool-cases, Option, Option-cases, none, some,
  List, [], ◌∷◌, ◌++◌, ◌==◌, ◌>>=◌, if◌then◌else◌, count, count-append, arith,
}
use dedup_block_fs.Keys.{FilePath, BlockIndice, bytes_key, block_indice_key, block_indice_equal}
use dedup_block_fs.Table.{lookup, found}
use dedup_block_fs.Table.Laws.{lookup-insert, Distinct-insert, holders-insert}
use dedup_block_fs.Index.{Index, Ptr, MasterInfo, indice, lookup_by_file_block, insert_file_block}
use dedup_block_fs.Index.Inv.{Inv, Published, Keeps, Keeps-trans, recount}
use dedup_block_fs.Index.Slots.{NoLeak, NoLeak-trans, Stays-same, Stays-NoLeak}
use dedup_block_fs.System.{System, Block}
use dedup_block_fs.Dedup.Plan.{PlanEntry}
use dedup_block_fs.Dedup.Plan.Entries.{refs_of}
use dedup_block_fs.Dedup.Remove.{drop_ref}
use dedup_block_fs.Dedup.Remove.Drop.{drop_ref-Inv}
use dedup_block_fs.Dedup.Commit.{drop_old, link_blocks}

-- drop_ref does not look at file_to_master.
drop_ref-insert :
    (ix : Index) (path : FilePath) (b : ℕ) (p q : Ptr)
    → drop_ref (insert_file_block ix path b p) q
      ≡ (do (slots, ix1) ← drop_ref ix q; some (slots, insert_file_block ix1 path b p))
unfolding drop_ref insert_file_block
drop_ref-insert ix path b p q = ground arith

inserted :
    (path : FilePath) (b : ℕ) (p : Ptr) (o : Option (List ℕ × Index)) (slots : List ℕ) (ix' : Index)
    → ◌>>=◌ {B = List ℕ × Index} o (λ r. some (r.0, insert_file_block r.1 path b p))
      ≡ some (slots, ix')
    → (ix1 : Index) × (o ≡ some (slots, ix1)) × (insert_file_block ix1 path b p ≡ ix')
inserted path b p none slots ix' e = absurd (ground arith)
inserted path b p (some (slots', ix1)) slots ix' e = (ix1, ground arith, ground arith)

-- The pointer that the entries of a plan leave under a key.
abbrev pub target : FilePath → List PlanEntry → BlockIndice → Option Ptr → Option Ptr
target path [] k old = old
target path (e ∷ rest) k old =
    target path rest k
      (if block_indice_equal (indice path e.logical_blk) k then some e.info else old)

-- Where a slot is does not depend on file_to_master,
inserted-NoLeak :
    (path : FilePath) (b : ℕ) (p : Ptr) (ix : Index) (r : List ℕ)
    → NoLeak ix r (insert_file_block ix path b p) r
unfolding insert_file_block
inserted-NoLeak path b p ix r =
    Stays-NoLeak ix (insert_file_block ix path b p) r r (λ s. omega arith)
      (Stays-same ix (insert_file_block ix path b p) refl refl)

-- nor on how the reserved slots are grouped.
regrouped :
    (more slots reserved : List ℕ) (ix : Index)
    → NoLeak ix (more ++ (slots ++ reserved)) ix ((more ++ slots) ++ reserved)
regrouped more slots reserved ix =
    Stays-NoLeak ix ix (more ++ (slots ++ reserved)) ((more ++ slots) ++ reserved)
      (λ s. omega (
        arith,
        count-append s (more ++ slots) reserved,
        count-append s more slots,
        count-append s more (slots ++ reserved),
        count-append s slots reserved,
      ))
      (Stays-same ix ix refl refl)

module _ (os : System) (U : Block → Type 0) where
  open os use {Disk}

  module _ {d : Disk} {next : ℕ} {refs pend : List Ptr} {reserved : List ℕ} {ix : Index}
      (path : FilePath) (b : ℕ) (p : Ptr) (m : MasterInfo)
      (v : Inv os U d next (p ∷ refs) pend reserved ix) (shown : Published ix p m) where
    now_self :
        (k : BlockIndice) (q : Ptr)
        → lookup k (insert_file_block ix path b p).file_to_master ≡ some q
        → block_indice_equal (indice path b) k ≡ true
        → p ≡ q
    unfolding insert_file_block
    now_self k q e here = ground (arith, e, lookup-insert k (indice path b) p ix.file_to_master)

    -- The entry takes over the reference to `p`; the reference of the old entry is the caller's.
    insert_file_block-Inv :
        (refs' : List Ptr)
        → ((r : Ptr)
            → count r refs' ≡ found r (lookup (indice path b) ix.file_to_master) + count r refs)
        → Inv os U d next refs' pend reserved (insert_file_block ix path b p)
    unfolding insert_file_block
    insert_file_block-Inv refs' same = record {
      distinct_hash = v.distinct_hash;
      distinct_file = Distinct-insert (indice path b) p ix.file_to_master v.distinct_file;
      fresh = v.fresh;
      hashed = λ h q e.
          let (n, s, t) = v.hashed h q e in (n, record { live = s.live; listed = s.listed }, t);
      linked = λ k q e. elim (Bool-cases (block_indice_equal (indice path b) k)) [
        | inl here ↦
            (m, rw (← now_self k q e here) (record { live = shown.live; listed = shown.listed }))
        | inr there ↦
            let (n, s) =
              v.linked k q
                (ground (arith, e, lookup-insert k (indice path b) p ix.file_to_master)) in
            (n, record { live = s.live; listed = s.listed })
      ];
      held = λ q h. elim (Option-cases (lookup (indice path b) ix.file_to_master)) [
        | inl e ↦ v.held q (ground (arith, same q, e, h))
        | inr (o, e) ↦ elim (Bool-cases (q == o)) [
          | inl here ↦ let (n, s) = v.linked (indice path b) o e in (n, ground (arith, s.live))
          | inr there ↦ v.held q (ground (arith, same q, e, h, there))
        ]
      ];
      stored = λ q n h. v.stored q n (record { live = h.live; listed = h.listed });
      counted = λ q n h.
          omega
            (arith, v.counted q n h, same q, holders-insert q (indice path b) p ix.file_to_master);
      positive = v.positive;
      owned = v.owned;
      slot_once = v.slot_once;
      slot_below = v.slot_below;
      slot_used = λ q n h. v.slot_used q n (record { live = h.live; listed = h.listed });
      slot_owner = λ q r n o h k.
          v.slot_owner q r n o (record { live = h.live; listed = h.listed })
            (record { live = k.live; listed = k.listed });
    }

  -- One entry of the plan: the old reference goes and the new mapping comes.
  pub record Linked (d : Disk) (next : ℕ) (refs : List Ptr) (reserved : List ℕ) (path : FilePath)
      (plan : List PlanEntry) (ix ix' : Index) : Type 0 where
    pub inv : Inv os U d next refs [] reserved ix'
    pub keeps : (bound : Ptr) → Keeps bound ix ix'
    pub sizes_same : ix'.file_to_sizes ≡ ix.file_to_sizes
    pub free_same : ix'.free_block_list ≡ ix.free_block_list
    pub targets :
        (k : BlockIndice)
        → lookup k ix'.file_to_master ≡ target path plan k (lookup k ix.file_to_master)

  module _ (d : Disk) (next : ℕ) (reserved : List ℕ) (path : FilePath) where
    abbrev Stepped : PlanEntry → List Ptr → List ℕ → Index → Type 0
    Stepped e refs slots ix =
        (slots' : List ℕ) × (ix1 : Index) × (drop_old path e slots ix ≡ some (slots', ix1))
        × Linked d next refs (slots' ++ reserved) path (e ∷ []) ix
            (insert_file_block ix1 path e.logical_blk e.info)
        × NoLeak ix (slots ++ reserved) (insert_file_block ix1 path e.logical_blk e.info)
            (slots' ++ reserved)

    link_step :
        (e : PlanEntry) (refs : List Ptr) (slots : List ℕ) (ix : Index)
        → Inv os U d next (e.info ∷ refs) [] (slots ++ reserved) ix
        → Stepped e refs slots ix
    unfolding drop_old lookup_by_file_block insert_file_block
    link_step e refs slots ix v =
        let (m, live) = v.held e.info (ground arith) in
        let shown : Published ix e.info m = record {
          live = live;
          listed = ground (arith, v.owned e.info m live);
        } in
        elim (Option-cases (lookup (indice path e.logical_blk) ix.file_to_master)) [
          | inl gone ↦ (
            slots,
            ix,
            ground (arith, gone),
            record {
              inv =
                  insert_file_block-Inv path e.logical_blk e.info m v shown refs
                    (λ r. ground (arith, gone));
              keeps = λ bound q n below h. (n, h, refl, refl);
              sizes_same = refl;
              free_same = refl;
              targets = λ k. lookup-insert k (indice path e.logical_blk) e.info ix.file_to_master;
            },
            inserted-NoLeak path e.logical_blk e.info ix (slots ++ reserved),
          )
          | inr (old, there) ↦
              let (m', shown') = v.linked (indice path e.logical_blk) old there in
              let w =
                insert_file_block-Inv path e.logical_blk e.info m v shown (old ∷ refs)
                  (λ r. ground (arith, there)) in
              let (more, ix3, run, inv3, dropped, safe) =
                drop_ref-Inv os U old m' w
                  (record { live = shown'.live; listed = shown'.listed }) in
              let (ix1, run1, same) =
                inserted path e.logical_blk e.info (drop_ref ix old) more ix3
                  (sym (drop_ref-insert ix path e.logical_blk e.info old) ∙ run) in
              (
                more ++ slots,
                ix1,
                ground (arith, there, run1),
                rw same (record {
                  inv =
                      recount os U refs [] ((more ++ slots) ++ reserved) (λ r. refl) (λ r. refl)
                        (λ s. ground (
                          arith,
                          count-append s (more ++ slots) reserved,
                          count-append s more slots,
                          count-append s more (slots ++ reserved),
                          count-append s slots reserved,
                        ))
                        inv3;
                  keeps = dropped.keeps;
                  sizes_same = dropped.sizes_same;
                  free_same = dropped.free_same;
                  targets = λ k.
                      ap (lookup k) dropped.file_same
                      ∙ lookup-insert k (indice path e.logical_blk) e.info ix.file_to_master;
                }),
                rw same (
                    NoLeak-trans ix (insert_file_block ix path e.logical_blk e.info) ix3
                      (slots ++ reserved) (slots ++ reserved) ((more ++ slots) ++ reserved)
                      (inserted-NoLeak path e.logical_blk e.info ix (slots ++ reserved))
                      (NoLeak-trans (insert_file_block ix path e.logical_blk e.info) ix3 ix3
                        (slots ++ reserved) (more ++ (slots ++ reserved))
                        ((more ++ slots) ++ reserved) safe (regrouped more slots reserved ix3))),
              )
        ]

    -- Where the index is well formed and nothing is pending, the second loop does not fault. Every
    -- entry of the plan becomes the mapping of its block, the references of the old entries are
    -- gone, and no slot is lost: those that come free are in the list.
    pub link_blocks-Linked :
        (plan : List PlanEntry) (refs : List Ptr) (slots : List ℕ) (ix : Index)
        → Inv os U d next (refs_of plan ++ refs) [] (slots ++ reserved) ix
        → (slots' : List ℕ) × (ix' : Index) × (link_blocks path plan slots ix ≡ some (slots', ix'))
          × Linked d next refs (slots' ++ reserved) path plan ix ix'
          × NoLeak ix (slots ++ reserved) ix' (slots' ++ reserved)
    unfolding link_blocks
    link_blocks-Linked [] refs slots ix v = (
      slots,
      ix,
      refl,
      record {
        inv = v;
        keeps = λ bound q n below h. (n, h, refl, refl);
        sizes_same = refl;
        free_same = refl;
        targets = λ k. refl;
      },
      λ s a. a,
    )
    link_blocks-Linked (e ∷ rest) refs slots ix v =
        let (slots1, ix1, run1, l1, safe1) = link_step e (refs_of rest ++ refs) slots ix v in
        let (slots2, ix2, run2, l2, safe2) =
          link_blocks-Linked rest refs slots1 (insert_file_block ix1 path e.logical_blk e.info)
            l1.inv in
        (
          slots2,
          ix2,
          rw (run1, run2),
          record {
            inv = l2.inv;
            keeps = λ bound.
                Keeps-trans bound ix (insert_file_block ix1 path e.logical_blk e.info) ix2
                  (l1.keeps bound) (l2.keeps bound);
            sizes_same = l2.sizes_same ∙ l1.sizes_same;
            free_same = l2.free_same ∙ l1.free_same;
            targets = λ k. l2.targets k ∙ ap (target path rest k) (l1.targets k);
          },
          NoLeak-trans ix (insert_file_block ix1 path e.logical_blk e.info) ix2 (slots ++ reserved)
              (slots1 ++ reserved) (slots2 ++ reserved) safe1 safe2,
        )
