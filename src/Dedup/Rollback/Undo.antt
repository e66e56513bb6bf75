-- ===== src/Dedup/Rollback/Undo.antt =====
-- rollback_allocations gives everything back that the passes before it took.
use dedup_block_fs.Base.{
  ℕ, suc, ◌+◌, ◌≤◌, ◌<◌, ◌≡◌, refl, ◌∙◌, inl, inr, false, Bool-cases, none, some, List, [], ◌∷◌,
  ◌==◌, ◌>>=◌, All, count, arith,
}
use dedup_block_fs.Keys.{bytes_key}
use dedup_block_fs.Table.{lookup, holders}
use dedup_block_fs.Index.{Index, Ptr, MasterInfo, free, sub32}
use dedup_block_fs.Index.Inv.{Inv, Published, Keeps, Keeps-trans}
use dedup_block_fs.Index.Slots.{Stays, Stays-trans}
use dedup_block_fs.Index.Recount.{recounted, recounted-Inv}
use dedup_block_fs.System.{System, Block}
use dedup_block_fs.Dedup.Plan.{PlanEntry, hit, miss}
use dedup_block_fs.Dedup.Plan.Entries.{refs_of, pend_of, Rising, Rising-weaken, Placed, kind_cases}
use dedup_block_fs.Dedup.Remove.{drop_ref}

-- The MasterInfos of the HITs.
abbrev pub hits_of : List PlanEntry → List Ptr
hits_of [] = []
hits_of (e ∷ rest) = elim e.kind [ hit ↦ e.info ∷ hits_of rest | miss ↦ hits_of rest ]

pub hits-pend :
    (plan : List PlanEntry) (q : Ptr)
    → count q (hits_of plan) + count q (pend_of plan) ≡ count q (refs_of plan)
hits-pend [] q = refl
hits-pend (e ∷ rest) q = ground (arith, hits-pend rest q)

-- What a rollback leaves as it was.
pub record Undone (ix ix' : Index) : Type 0 where
  pub hash_same : ix'.hash_to_master ≡ ix.hash_to_master
  pub file_same : ix'.file_to_master ≡ ix.file_to_master
  pub sizes_same : ix'.file_to_sizes ≡ ix.file_to_sizes
  pub keeps : (bound : Ptr) → Keeps bound ix ix'
  pub stays : Stays ix ix'

pub Undone-trans : (ix ix' ix'' : Index) → Undone ix ix' → Undone ix' ix'' → Undone ix ix''
Undone-trans ix ix' ix'' a b = record {
  hash_same = b.hash_same ∙ a.hash_same;
  file_same = b.file_same ∙ a.file_same;
  sizes_same = b.sizes_same ∙ a.sizes_same;
  keeps = λ bound. Keeps-trans bound ix ix' ix'' (a.keeps bound) (b.keeps bound);
  stays = Stays-trans ix ix' ix'' a.stays b.stays;
}

-- The MISSes keep their MasterInfos through a recount.
pub Placed-recounted :
    (ix : Index) (p : Ptr) (m : MasterInfo) (r : ℕ) (plan : List PlanEntry)
    → ix.infos p ≡ some m
    → All (Placed ix) plan
    → All (Placed (recounted ix p m r)) plan
Placed-recounted ix p m r [] live a = tt
Placed-recounted ix p m r (e ∷ rest) live (a, as') = (
  elim (kind_cases e.kind) [
    | inl k ↦ rw k tt
    | inr k ↦
        let (n, live', same, slot) = (rw k at a) in
        elim (Bool-cases (p == e.info)) [
          | inl here ↦ rw k (
            record m { refcount = r },
            ground arith,
            ground (arith, live, live', same),
            ground (arith, live, live', slot),
          )
          | inr there ↦ rw k (n, ground arith, same, slot)
        ]
  ],
  Placed-recounted ix p m r rest live as',
)

-- And through a free of an older one.
pub Placed-free :
    (ix : Index) (p : Ptr) (plan : List PlanEntry)
    → Rising (suc p) plan
    → All (Placed ix) plan
    → All (Placed (free ix p)) plan
Placed-free ix p [] r a = tt
Placed-free ix p (e ∷ rest) r (a, as') = elim (kind_cases e.kind) [
  | inl k ↦ (rw k tt, Placed-free ix p rest (rw k at r) as')
  | inr k ↦
      let (n, live, same, slot) = (rw k at a) in
      let (above, r') : (suc p ≤ e.info) × Rising (suc e.info) rest = (rw k at r) in
      (
        rw k (n, ground arith, same, slot),
        Placed-free ix p rest (Rising-weaken (suc p) (suc e.info) rest r' (omega arith)) as',
      )
]

-- What is published is not the MasterInfo that is freed.
pub free-Published :
    (ix : Index) (p : Ptr) (m : MasterInfo)
    → ix.infos p ≡ some m
    → lookup m.hash ix.hash_to_master ≡ none
    → (q : Ptr) (n : MasterInfo) → Published ix q n
    → Published (free ix p) q n
free-Published ix p m live unlisted q n s =
    let other : (p == q) ≡ false = ground (arith, s.live, s.listed, live, unlisted) in
    record { live = ground (arith, other, s.live); listed = s.listed }

module _ (os : System) (U : Block → Type 0) where
  open os use {Disk}

  module _ {d : Disk} {next : ℕ} {refs pend : List Ptr} {reserved : List ℕ} {ix : Index} (p : Ptr)
      (m : MasterInfo) (live : ix.infos p ≡ some m) where
    -- A reference that is not the last one.
    pub drop_shared :
        Inv os U d next (p ∷ refs) pend reserved ix
        → 0 < holders p ix.file_to_master + count p refs
        → (drop_ref ix p ≡ some ([], recounted ix p m (sub32 m.refcount 1)))
          × Inv os U d next refs pend reserved (recounted ix p m (sub32 m.refcount 1))
    unfolding drop_ref
    drop_shared v others =
        let c : m.refcount ≡ holders p ix.file_to_master + count p (p ∷ refs) =
          v.counted p m live in
        let more : (m.refcount == 1) ≡ false = ground (arith, c) in
        (
          rw (live, ◌>>=◌, more) refl,
          recounted-Inv ix p m (sub32 m.refcount 1) live os U refs (λ q e. ground arith)
              (ground (arith, c, v.positive p m live)) (ground (arith, c, v.positive p m live))
              (ground arith) v,
        )

    -- A pending MasterInfo that nothing refers to but its own entry.
    pub free-Inv :
        Inv os U d next (p ∷ refs) (p ∷ pend) reserved ix
        → count p refs ≡ 0
        → lookup m.hash ix.hash_to_master ≡ none
        → Inv os U d next refs pend reserved (free ix p)
    free-Inv v alone unlisted = record {
      distinct_hash = v.distinct_hash;
      distinct_file = v.distinct_file;
      fresh = λ q h. ground (arith, v.fresh q h);
      hashed = λ h q e.
          let (n, s, t) = v.hashed h q e in (n, free-Published ix p m live unlisted q n s, t);
      linked =
          λ k q e. let (n, s) = v.linked k q e in (n, free-Published ix p m live unlisted q n s);
      held = λ q h. let (n, s) = v.held q (ground (arith, h)) in (n, ground (arith, alone, h, s));
      stored = λ q n h. v.stored q n (before q n h);
      counted = λ q n h. ground (arith, v.counted q n, h);
      positive = λ q n h. ground (arith, v.positive q n, h);
      owned = λ q n h. ground (arith, v.owned q n, h);
      slot_once = v.slot_once;
      slot_below = v.slot_below;
      slot_used = λ q n h. v.slot_used q n (before q n h);
      slot_owner = λ q r n o h k. v.slot_owner q r n o (before q n h) (before r o k);
    }
      where
        before : (q : Ptr) (n : MasterInfo) → Published (free ix p) q n → Published ix q n
        before q n h = record { live = ground (arith, h.live); listed = h.listed }
