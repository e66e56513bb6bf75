-- ===== src/Dedup/Commit/Publish.antt =====
-- The first loop of pass 3, where no other write published one of the digests meanwhile.
use dedup_block_fs.Base.{
  ℕ, ◌<◌, ◌≡◌, refl, sym, subst, inl, inr, ◌⊎◌, true, false, Bool-cases, none, some, List, [], ◌∷◌,
  ◌++◌, ◌==◌, All, count, arith,
}
use dedup_block_fs.Keys.{Digest, bytes_key, bytes_equal, bytes_equal_iff}
use dedup_block_fs.Table.{lookup, insert}
use dedup_block_fs.Table.Laws.{lookup-insert, Distinct-insert}
use dedup_block_fs.Index.{Index, Ptr, MasterInfo, insert_hash}
use dedup_block_fs.Index.Inv.{Inv, Published, Stored}
use dedup_block_fs.Index.Slots.{NoLeak, NoLeak-trans}
use dedup_block_fs.System.{System, Block}
use dedup_block_fs.Dedup.Plan.{PlanEntry, hit, miss}
use dedup_block_fs.Dedup.Plan.Entries.{pend_of, slots_of, Fresh, kind_cases}
use dedup_block_fs.Dedup.Commit.{publish_entry, publish}

module _ (os : System) (U : Block → Type 0) where
  open os use {Disk}

  module _ {d : Disk} {next : ℕ} {refs pend : List Ptr} {reserved : List ℕ} {ix : Index} (p : Ptr)
      (m : MasterInfo) (v : Inv os U d next refs (p ∷ pend) (m.master_block_index ∷ reserved) ix)
      (live : ix.infos p ≡ some m) (new : lookup m.hash ix.hash_to_master ≡ none) where
    old_or_new :
        (q : Ptr) (n : MasterInfo)
        → Published (insert_hash ix m.hash p) q n
        → ((p == q) ≡ true) × (n ≡ m) ⊎ Published ix q n × ((p == q) ≡ false)
    unfolding insert_hash
    old_or_new q n h = elim (Bool-cases (p == q)) [
      | inl e ↦ inl (e, ground (arith, h.live))
      | inr e ↦ inr (
        record {
          live = h.live;
          listed = ground (arith, h.listed, lookup-insert n.hash m.hash p ix.hash_to_master);
        },
        e,
      )
    ]

    still_there :
        (q : Ptr) (n : MasterInfo) → Published ix q n → Published (insert_hash ix m.hash p) q n
    unfolding insert_hash
    still_there q n h = record {
      live = h.live;
      listed = ground (
        arith,
        h.listed,
        new,
        bytes_equal_iff m.hash n.hash,
        lookup-insert n.hash m.hash p ix.hash_to_master,
      );
    }

    self-Published : Published (insert_hash ix m.hash p) p m
    unfolding insert_hash
    self-Published = record {
      live = live;
      listed =
          ground
            (arith, bytes_equal_iff m.hash m.hash, lookup-insert m.hash m.hash p ix.hash_to_master);
    }

    -- The slot goes from the write under way to the MasterInfo that is published.
    self-NoLeak : (r : List ℕ) → NoLeak ix (m.master_block_index ∷ r) (insert_hash ix m.hash p) r
    unfolding insert_hash
    self-NoLeak r s (inl h) = elim (Bool-cases (m.master_block_index == s)) [
      | inl here ↦ inr (p, m, self-Published, ground arith)
      | inr there ↦ inl (ground (arith, h, there))
    ]
    self-NoLeak r s (inr (q, n, h, e)) = inr (q, n, still_there q n h, e)

    listed_self :
        (h : Digest) (q : Ptr)
        → lookup h (insert_hash ix m.hash p).hash_to_master ≡ some q
        → bytes_equal m.hash h ≡ true
        → p ≡ q
    unfolding insert_hash
    listed_self h q e same = ground (arith, e, lookup-insert h m.hash p ix.hash_to_master)

    published-owned :
        (q : Ptr) (n : MasterInfo)
        → ix.infos q ≡ some n
        → (lookup n.hash ix.hash_to_master ≡ some q) ⊎ (0 < count q (p ∷ pend))
        → (lookup n.hash (insert_hash ix m.hash p).hash_to_master ≡ some q) ⊎ (0 < count q pend)
    unfolding insert_hash
    published-owned q n h (inl e) = inl (still_there q n (record { live = h; listed = e })).listed
    published-owned q n h (inr e) = elim (Bool-cases (p == q)) [
      | inl same ↦ inl (ground (arith, h, live, self-Published.listed))
      | inr other ↦ inr (ground (arith, e, other))
    ]

    two_owners :
        (q r : Ptr) (n o : MasterInfo)
        → ((p == q) ≡ true) × (n ≡ m) ⊎ Published ix q n × ((p == q) ≡ false)
        → ((p == r) ≡ true) × (o ≡ m) ⊎ Published ix r o × ((p == r) ≡ false)
        → n.master_block_index ≡ o.master_block_index
        → q ≡ r
    two_owners q r n o (inl (a, b)) (inl (c, e)) h = ground arith
    two_owners q r n o (inl (a, b)) (inr (s, c)) h =
        absurd (ground (arith, a, b, h, v.slot_used r o s))
    two_owners q r n o (inr (s, c)) (inl (a, b)) h =
        absurd (ground (arith, a, b, h, v.slot_used q n s))
    two_owners q r n o (inr (s, c)) (inr (t, e)) h = v.slot_owner q r n o s t h

    -- The pending MasterInfo goes to hash_to_master, and its slot with it.
    pub insert_hash-Inv :
        Stored os U d m → Inv os U d next refs pend reserved (insert_hash ix m.hash p)
    unfolding insert_hash
    insert_hash-Inv st = record {
      distinct_hash = Distinct-insert m.hash p ix.hash_to_master v.distinct_hash;
      distinct_file = v.distinct_file;
      fresh = v.fresh;
      hashed = λ h q e. elim (Bool-cases (bytes_equal m.hash h)) [
        | inl same ↦
            (m, rw (← listed_self h q e same) self-Published, (bytes_equal_iff m.hash h).0 same)
        | inr other ↦
            let (n, s, t) =
              v.hashed h q (ground (arith, e, lookup-insert h m.hash p ix.hash_to_master)) in
            (n, still_there q n s, t)
      ];
      linked = λ k q e. let (n, s) = v.linked k q e in (n, still_there q n s);
      held = v.held;
      stored = λ q n h. elim (old_or_new q n h) [
        | inl (e, same) ↦ rw same st
        | inr (s, e) ↦ v.stored q n s
      ];
      counted = v.counted;
      positive = v.positive;
      owned = λ q n h. published-owned q n h (v.owned q n h);
      slot_once = λ s. ground (arith, v.slot_once s);
      slot_below = λ s h. v.slot_below s (ground (arith, h));
      slot_used = λ q n h. elim (old_or_new q n h) [
        | inl (e, same) ↦
            rw same
              (ground (arith, v.slot_once m.master_block_index, v.slot_below m.master_block_index))
        | inr (s, e) ↦ ground (arith, v.slot_used q n s)
      ];
      slot_owner = λ q r n o h k e. two_owners q r n o (old_or_new q n h) (old_or_new r o k) e;
    }

  -- A MISS that is flushed: its MasterInfo is live under its digest and slot, and the slot holds a
  -- block of that digest.
  abbrev pub Ready : Disk → Index → PlanEntry → Type 0
  Ready d ix e = elim e.kind [
    | hit ↦ Unit
    | miss ↦
        (m : MasterInfo) × (ix.infos e.info ≡ some m)
        × (m.hash ≡ e.hash)
        × (m.master_block_index ≡ e.master_blk)
        × Stored os U d m
  ]

  -- What the first loop leaves: the plan as it is, and every MISS published.
  pub record PublishDone (d : Disk) (next : ℕ) (refs pend : List Ptr) (reserved : List ℕ)
      (ix ix' : Index) : Type 0 where
    pub inv : Inv os U d next refs pend reserved ix'
    pub infos_same : ix'.infos ≡ ix.infos
    pub next_same : ix'.next_info ≡ ix.next_info
    pub file_same : ix'.file_to_master ≡ ix.file_to_master
    pub sizes_same : ix'.file_to_sizes ≡ ix.file_to_sizes
    pub free_same : ix'.free_block_list ≡ ix.free_block_list

  module _ (d : Disk) (next : ℕ) (refs pend : List Ptr) (reserved : List ℕ) where
    publish_entry-new :
        (e : PlanEntry) (slots : List ℕ) (ix : Index) (m : MasterInfo)
        → ix.infos e.info ≡ some m
        → m.hash ≡ e.hash
        → lookup e.hash ix.hash_to_master ≡ none
        → publish_entry e slots ix ≡ some (e, slots, insert_hash ix e.hash e.info)
    unfolding publish_entry
    publish_entry-new e slots ix m live same new = ground (arith, live, same, new)

    entry-Inv :
        (e : PlanEntry) (ix : Index) (m : MasterInfo) (pend' : List Ptr) (reserved' : List ℕ)
        → Inv os U d next refs (e.info ∷ pend') (e.master_blk ∷ reserved') ix
        → ix.infos e.info ≡ some m
        → m.hash ≡ e.hash
        → m.master_block_index ≡ e.master_blk
        → Stored os U d m
        → lookup e.hash ix.hash_to_master ≡ none
        → Inv os U d next refs pend' reserved' (insert_hash ix e.hash e.info)
    entry-Inv e ix m pend' reserved' v live same slot st new =
        rw same at (insert_hash-Inv e.info m (rw (← slot) at v) live (rw same new) st)

    entry-NoLeak :
        (e : PlanEntry) (ix : Index) (m : MasterInfo) (pend' : List Ptr) (reserved' : List ℕ)
        → Inv os U d next refs (e.info ∷ pend') (e.master_blk ∷ reserved') ix
        → ix.infos e.info ≡ some m
        → m.hash ≡ e.hash
        → m.master_block_index ≡ e.master_blk
        → lookup e.hash ix.hash_to_master ≡ none
        → NoLeak ix (e.master_blk ∷ reserved') (insert_hash ix e.hash e.info) reserved'
    entry-NoLeak e ix m pend' reserved' v live same slot new =
        subst (λ s. NoLeak ix (s ∷ reserved') (insert_hash ix e.hash e.info) reserved') slot
          (subst
            (λ h. NoLeak ix (m.master_block_index ∷ reserved') (insert_hash ix h e.info) reserved')
            same (self-NoLeak e.info m (rw (← slot) at v) live (rw same new) reserved'))

    slots_of-miss :
        (e : PlanEntry) (rest : List PlanEntry)
        → e.kind ≡ miss
        → slots_of (e ∷ rest) ≡ e.master_blk ∷ slots_of rest
    slots_of-miss e rest k = rw k refl

    slots_of-hit :
        (e : PlanEntry) (rest : List PlanEntry) → e.kind ≡ hit → slots_of (e ∷ rest) ≡ slots_of rest
    slots_of-hit e rest k = rw k refl

    -- If no digest of a MISS is in hash_to_master and no two are the same, and the slots of the
    -- MISSes hold blocks of their digests, the double check finds no winner: every MISS is
    -- published, no entry of the plan changes, no slot comes free and none is lost.
    pub publish-Done :
        (plan : List PlanEntry) (slots : List ℕ) (ix : Index)
        → Inv os U d next refs (pend_of plan ++ pend) (slots_of plan ++ reserved) ix
        → Fresh ix.hash_to_master plan
        → All (Ready d ix) plan
        → (ix' : Index) × (publish plan slots ix ≡ some (plan, slots, ix'))
          × PublishDone d next refs pend reserved ix ix'
          × NoLeak ix (slots_of plan ++ reserved) ix' reserved
    unfolding publish insert_hash
    publish-Done [] slots ix v f r = (
      ix,
      refl,
      record {
        inv = v;
        infos_same = refl;
        next_same = refl;
        file_same = refl;
        sizes_same = refl;
        free_same = refl;
      },
      λ s a. a,
    )
    publish-Done (e ∷ rest) slots ix v f (re, r) = elim (kind_cases e.kind) [
      | inl k ↦
          let (ix', run, done, safe) = publish-Done rest slots ix (rw k at v) (rw k at f) r in
          (
            ix',
            ground (arith, run),
            done,
            subst (λ l. NoLeak ix (l ++ reserved) ix' reserved) (sym (slots_of-hit e rest k)) safe,
          )
      | inr k ↦
          let (m, live, same, slot, st) = (rw k at re) in
          let f' : (lookup e.hash ix.hash_to_master ≡ none)
              × Fresh (insert e.hash e.info ix.hash_to_master) rest =
            rw k at f in
          let w = entry-Inv e ix m _ _ (rw k at v) live same slot st f'.0 in
          let (ix', run, done, safe) =
            publish-Done rest slots (insert_hash ix e.hash e.info) w f'.1 r in
          (
            ix',
            ground (arith, publish_entry-new e slots ix m live same f'.0, run),
            record {
              inv = done.inv;
              infos_same = done.infos_same;
              next_same = done.next_same;
              file_same = done.file_same;
              sizes_same = done.sizes_same;
              free_same = done.free_same;
            },
            subst (λ l. NoLeak ix (l ++ reserved) ix' reserved) (sym (slots_of-miss e rest k))
                (NoLeak-trans ix (insert_hash ix e.hash e.info) ix'
                  (e.master_blk ∷ (slots_of rest ++ reserved)) (slots_of rest ++ reserved) reserved
                  (entry-NoLeak e ix m _ _ (rw k at v) live same slot f'.0) safe),
          )
    ]
