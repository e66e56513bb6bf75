-- ===== src/Dedup/Rollback/Whole.antt =====
-- The two loops of rollback_allocations, one after the other.
use dedup_block_fs.Base.{
  ℕ, suc, ◌+◌, ◌≤◌, ◌<◌, ◌≡◌, refl, sym, ap, ◌∙◌, ◌>>=◌, subst, inl, inr, none, some, List, [], ◌∷◌,
  ◌++◌, All, count, count-append, arith,
}
use dedup_block_fs.Keys.{bytes_key}
use dedup_block_fs.Table.{lookup, holders}
use dedup_block_fs.Index.{Index, Ptr, MasterInfo, free, free_info, sub32}
use dedup_block_fs.Index.Inv.{Inv, recount, move_slots}
use dedup_block_fs.Index.Recount.{recounted, recounted-Keeps, recounted-Stays}
use dedup_block_fs.System.{System, Block}
use dedup_block_fs.Dedup.Plan.{PlanEntry}
use dedup_block_fs.Dedup.Plan.Entries.{
  refs_of, pend_of, slots_of, Unlisted, Rising, Rising-count, Placed, kind_cases,
}
use dedup_block_fs.Dedup.Remove.{release_slots}
use dedup_block_fs.Dedup.Rollback.{rollback_hits, rollback_misses, rollback_allocations}
use dedup_block_fs.Dedup.Rollback.Undo.{
  hits_of, hits-pend, Undone, Undone-trans, Placed-recounted, Placed-free, drop_shared,
  free-Published, free-Inv,
}

-- Every live MasterInfo is held by an entry of file_to_master or is one of `base`.
abbrev pub Anchored : Index → List Ptr → Type 0
Anchored ix base =
    (p : Ptr) (m : MasterInfo)
    → ix.infos p ≡ some m
    → 0 < holders p ix.file_to_master + count p base

Anchored-recounted :
    (ix : Index) (p : Ptr) (m : MasterInfo) (r : ℕ) (base : List Ptr)
    → ix.infos p ≡ some m
    → Anchored ix base
    → Anchored (recounted ix p m r) base
Anchored-recounted ix p m r base live a q n h = ground (arith, a q n, a p m live, h)

Placed_listed :
    (ix : Index) (free' : List ℕ) (plan : List PlanEntry)
    → All (Placed ix) plan
    → All (Placed (record ix { free_block_list = free' })) plan
Placed_listed ix free' [] a = tt
Placed_listed ix free' (e ∷ rest) (a, as') = (
  elim (kind_cases e.kind) [ inl k ↦ rw k tt | inr k ↦ rw k (rw k at a) ],
  Placed_listed ix free' rest as',
)

-- The free list gains the slots of the plan.
abbrev pub Returned : Index → List PlanEntry → Index → Type 0
Returned ix plan ix' =
    (s : ℕ) → count s ix'.free_block_list ≡ count s ix.free_block_list + count s (slots_of plan)

module _ (os : System) (U : Block → Type 0) where
  open os use {Disk}

  module _ (d : Disk) (next : ℕ) where
    hits_back :
        (plan all : List PlanEntry) (base pend : List Ptr) (reserved slots : List ℕ) (ix : Index)
        → Inv os U d next (hits_of plan ++ base) pend reserved ix
        → Anchored ix base
        → All (Placed ix) all
        → (ix' : Index) × (rollback_hits plan slots ix ≡ some (slots, ix'))
          × Inv os U d next base pend reserved ix'
          × All (Placed ix') all
          × Undone ix ix'
          × (ix'.free_block_list ≡ ix.free_block_list)
    unfolding rollback_hits
    hits_back [] all base pend reserved slots ix v a places = (
      ix,
      refl,
      v,
      places,
      record {
        hash_same = refl;
        file_same = refl;
        sizes_same = refl;
        keeps = λ bound q n below h. (n, h, refl, refl);
        stays = λ q n h. (n, h, refl);
      },
      refl,
    )
    hits_back (e ∷ rest) all base pend reserved slots ix v a places = elim (kind_cases e.kind) [
      | inr k ↦
          let (ix', run, w, places', u, f) =
            hits_back rest all base pend reserved slots ix (rw k at v) a places in
          (ix', ground (arith, k, run), w, places', u, f)
      | inl k ↦
          let v' : Inv os U d next (e.info ∷ (hits_of rest ++ base)) pend reserved ix =
            (rw k at v) in
          let (m, live) = v'.held e.info (ground arith) in
          let others : 0 < holders e.info ix.file_to_master + count e.info (hits_of rest ++ base) =
            ground (arith, a e.info m live, count-append e.info (hits_of rest) base) in
          let (step, w) = drop_shared os U e.info m live v' others in
          let ix1 = recounted ix e.info m (sub32 m.refcount 1) in
          let (ix', run, w', places', u, f) =
            hits_back rest all base pend reserved slots ix1 w
              (Anchored-recounted ix e.info m (sub32 m.refcount 1) base live a)
              (Placed-recounted ix e.info m (sub32 m.refcount 1) all live places) in
          (
            ix',
            rw (k, step) run,
            w',
            places',
            Undone-trans ix ix1 ix'
                (record {
                  hash_same = refl;
                  file_same = refl;
                  sizes_same = refl;
                  keeps = recounted-Keeps ix e.info m (sub32 m.refcount 1) live;
                  stays = recounted-Stays ix e.info m (sub32 m.refcount 1) live;
                })
                u,
            f,
          )
    ]

    -- One MISS: its slot goes to the free list, its MasterInfo away.
    miss_back :
        (p : Ptr) (m : MasterInfo) (s : ℕ) (refs pend : List Ptr) (reserved : List ℕ) (ix : Index)
        → ix.infos p ≡ some m
        → count p refs ≡ 0
        → lookup m.hash ix.hash_to_master ≡ none
        → Inv os U d next (p ∷ refs) (p ∷ pend) (s ∷ reserved) ix
        → Inv os U d next refs pend reserved (free (release_slots (s ∷ []) ix) p)
    miss_back p m s refs pend reserved ix live alone unlisted v =
        free-Inv os U p m live
          (move_slots os U (s ∷ ix.free_block_list) reserved (λ t. omega arith) v) alone unlisted

    misses_back :
        (bound : Ptr) (plan : List PlanEntry) (ix : Index)
        → Inv os U d next (pend_of plan) (pend_of plan) (slots_of plan) ix
        → Rising bound plan
        → Unlisted ix.hash_to_master plan
        → All (Placed ix) plan
        → (ix' : Index) × (rollback_misses plan ix ≡ some ix')
          × Inv os U d next [] [] [] ix'
          × Undone ix ix'
          × Returned ix plan ix'
    unfolding rollback_misses free_info
    misses_back bound [] ix v r u places = (
      ix,
      refl,
      v,
      record {
        hash_same = refl;
        file_same = refl;
        sizes_same = refl;
        keeps = λ bound q n below h. (n, h, refl, refl);
        stays = λ q n h. (n, h, refl);
      },
      λ s. omega arith,
    )
    misses_back bound (e ∷ rest) ix v r u (pe, places) = elim (kind_cases e.kind) [
      | inl k ↦
          let (ix', run, v', un, back) =
            misses_back bound rest ix (rw k at v) (rw k at r) (rw k at u) places in
          (ix', rw k run, v', un, λ s. rw k (back s))
      | inr k ↦
          let (m, live, same, slot) = (rw k at pe) in
          let (above, r') : (bound ≤ e.info) × Rising (suc e.info) rest = (rw k at r) in
          let (new, u') : (lookup e.hash ix.hash_to_master ≡ none)
              × Unlisted ix.hash_to_master rest =
            (rw k at u) in
          let ix1 = free (release_slots (e.master_blk ∷ []) ix) e.info in
          let w =
            miss_back e.info m e.master_blk (pend_of rest) (pend_of rest) (slots_of rest) ix live
              (Rising-count (suc e.info) e.info rest r' (omega arith)) (rw same new) (rw k at v) in
          let (ix', run, v', un, back) = misses_back (suc e.info) rest ix1 w r' u' (
            Placed-free (release_slots (e.master_blk ∷ []) ix) e.info rest r'
              (Placed_listed ix (e.master_blk ∷ ix.free_block_list) rest places)) in
          (
            ix',
            rw (k, live, ◌>>=◌) run,
            v',
            Undone-trans ix ix1 ix'
                (record {
                  hash_same = refl;
                  file_same = refl;
                  sizes_same = refl;
                  keeps = λ bound q n below h. (n, ground arith, refl, refl);
                  stays = λ q n h.
                      let shown = free-Published ix e.info m live (rw same new) q n h in
                      (n, record { live = shown.live; listed = shown.listed }, refl);
                })
                un,
            λ s. ground (arith, k, back s),
          )
    ]

    -- Where the plan is laid out, its MISSes have new digests and every live MasterInfo is mapped
    -- or pending, rollback_allocations frees no object twice and does not fault. No reference and
    -- no pending MasterInfo of the plan is left, the free list gains each slot of the plan once and
    -- nothing else, and mappings, digests, sizes and the slots of what is published are as before.
    pub rollback-Undone :
        (bound : Ptr) (plan : List PlanEntry) (ix : Index)
        → Inv os U d next (refs_of plan) (pend_of plan) (slots_of plan) ix
        → Anchored ix (pend_of plan)
        → Rising bound plan
        → Unlisted ix.hash_to_master plan
        → All (Placed ix) plan
        → (ix' : Index) × (rollback_allocations plan ix ≡ some ix')
          × Inv os U d next [] [] [] ix'
          × Undone ix ix'
          × Returned ix plan ix'
    unfolding rollback_allocations
    rollback-Undone bound plan ix v a r u places =
        let v1 =
          recount os U (hits_of plan ++ pend_of plan) (pend_of plan) (slots_of plan)
            (λ q. count-append q (hits_of plan) (pend_of plan) ∙ hits-pend plan q) (λ q. refl)
            (λ s. refl) v in
        let (ix1, run, w, places1, un, same) =
          hits_back plan plan (pend_of plan) (pend_of plan) (slots_of plan) [] ix v1 a places in
        let (ix', run', w', un', back) =
          misses_back bound plan ix1 w r (subst (λ t. Unlisted t plan) (sym un.hash_same) u)
            places1 in
        (
          ix',
          rw (run, ◌>>=◌) run',
          w',
          Undone-trans ix ix1 ix' un un',
          λ s. back s ∙ ap (λ t. count s t + count s (slots_of plan)) same,
        )
