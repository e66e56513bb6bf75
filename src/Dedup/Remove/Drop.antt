-- ===== src/Dedup/Remove/Drop.antt =====
-- drop_ref keeps the index well formed: the last reference takes the MasterInfo down and hands its
-- slot over, any other only counts down.
use dedup_block_fs.Base.{
  ℕ, ◌<◌, ◌≡◌, refl, ◌⊎◌, inl, inr, false, Bool-cases, some, none, List, [], ◌∷◌, ◌++◌, ◌==◌, ◌>>=◌,
  if◌then◌else◌, count, arith,
}
use dedup_block_fs.Keys.{Digest, bytes_key, block_indice_key, bytes_equal_iff, bytes_equal}
use dedup_block_fs.Table.{lookup, remove}
use dedup_block_fs.Table.Laws.{lookup-remove, Distinct-remove, found-le-holders}
use dedup_block_fs.Index.{Index, Ptr, MasterInfo, update, remove_hash, sub32}
use dedup_block_fs.Index.Inv.{Published, Keeps, Inv}
use dedup_block_fs.Index.Slots.{NoLeak, Stays-NoLeak}
use dedup_block_fs.Index.Recount.{recounted, recounted-Keeps, recounted-Stays, recounted-Inv}
use dedup_block_fs.System.{System, Block}
use dedup_block_fs.Dedup.Remove.{drop_ref}

abbrev lowered : Index → Ptr → MasterInfo → Index
lowered ix p m = recounted ix p m (sub32 m.refcount 1)

-- What drop_ref leaves as it was.
pub record Dropped (ix ix' : Index) : Type 0 where
  pub file_same : ix'.file_to_master ≡ ix.file_to_master
  pub sizes_same : ix'.file_to_sizes ≡ ix.file_to_sizes
  pub free_same : ix'.free_block_list ≡ ix.free_block_list
  pub keeps : (bound : Ptr) → Keeps bound ix ix'

module _ (os : System) (U : Block → Type 0) where
  open os use {Disk}

  module _ {d : Disk} {next : ℕ} {refs pend : List Ptr} {reserved : List ℕ} {ix : Index} (p : Ptr)
      (m : MasterInfo) (v : Inv os U d next (p ∷ refs) pend reserved ix)
      (pub' : Published ix p m) where
    lowered-Inv : 1 < m.refcount → Inv os U d next refs pend reserved (lowered ix p m)
    lowered-Inv more =
        recounted-Inv ix p m (sub32 m.refcount 1) pub'.live os U refs (λ q e. ground arith)
          (ground (arith, v.counted p m pub'.live, v.positive p m pub'.live))
          (ground (arith, v.positive p m pub'.live)) (ground (arith, v.positive p m pub'.live)) v

    -- The index after the last reference to `p` is gone.
    abbrev freed : Index
    freed = record ix {
      hash_to_master = remove m.hash ix.hash_to_master;
      infos = update (update ix.infos p (some (record m { refcount = sub32 m.refcount 1 }))) p none;
    }

    freed-infos : (q : Ptr) → freed.infos q ≡ (if p == q then none else ix.infos q)
    freed-infos q = ground arith

    -- No other MasterInfo is listed under the digest of `p`.
    other-hash :
        (q : Ptr) (n : MasterInfo)
        → Published ix q n
        → (p == q) ≡ false
        → bytes_equal m.hash n.hash ≡ false
    other-hash q n h e = ground (arith, bytes_equal_iff m.hash n.hash, pub'.listed, h.listed)

    freed-Published :
        (q : Ptr) (n : MasterInfo) → Published freed q n → Published ix q n × ((p == q) ≡ false)
    freed-Published q n h =
        ground
          (arith, lookup-remove n.hash m.hash ix.hash_to_master v.distinct_hash, h.live, h.listed)

    Published-freed :
        (q : Ptr) (n : MasterInfo) → Published ix q n → (p == q) ≡ false → Published freed q n
    Published-freed q n h e = ground (
      arith,
      lookup-remove n.hash m.hash ix.hash_to_master v.distinct_hash,
      other-hash q n h e,
      h.live,
      h.listed,
    )

    freed-lookup :
        (h : Digest) (q : Ptr)
        → lookup h freed.hash_to_master ≡ some q
        → (lookup h ix.hash_to_master ≡ some q) × (bytes_equal m.hash h ≡ false)
    freed-lookup h q e = ground (arith, lookup-remove h m.hash ix.hash_to_master v.distinct_hash)

    freed-other :
        (h : Digest) (q : Ptr) (n : MasterInfo)
        → lookup h freed.hash_to_master ≡ some q
        → Published ix q n
        → n.hash ≡ h
        → (p == q) ≡ false
    freed-other h q n e s t =
        ground (arith, freed-lookup h q e, bytes_equal_iff m.hash h, s.live, pub'.live)

    freed-owned :
        (q : Ptr) (n : MasterInfo)
        → freed.infos q ≡ some n
        → (lookup n.hash ix.hash_to_master ≡ some q) ⊎ (0 < count q pend)
        → (lookup n.hash freed.hash_to_master ≡ some q) ⊎ (0 < count q pend)
    freed-owned q n h (inl e) =
        inl (Published-freed q n (record { live = ground arith; listed = e }) (ground arith)).listed
    freed-owned q n h (inr e) = inr e

    freed-Inv : m.refcount ≡ 1 → Inv os U d next refs pend (m.master_block_index ∷ reserved) freed
    freed-Inv one = record {
      distinct_hash = Distinct-remove m.hash ix.hash_to_master v.distinct_hash;
      distinct_file = v.distinct_file;
      fresh = λ q h. ground (arith, v.fresh q h);
      hashed = λ h q e.
          let (n, s, t) = v.hashed h q (freed-lookup h q e).0 in
          (n, Published-freed q n s (freed-other h q n e s t), t);
      linked = λ k q e.
          let (n, s) = v.linked k q e in
          (
            n,
            Published-freed q n s
                (ground (arith, found-le-holders p k ix.file_to_master, v.counted p m pub'.live)),
          );
      held = λ q h.
          let (n, s) = v.held q (omega (arith, h)) in
          (n, rw (freed-infos q) (ground (arith, v.counted p m pub'.live)));
      stored = λ q n h. v.stored q n (freed-Published q n h).0;
      counted = λ q n h. ground (arith, v.counted q n, h);
      positive = λ q n h. ground (arith, v.positive q n, h);
      owned = λ q n h. freed-owned q n h (v.owned q n (ground (arith, h)));
      slot_once = λ s. ground (arith, v.slot_once s, v.slot_used p m pub');
      slot_below = λ s h. ground (arith, v.slot_below s, v.slot_used p m pub');
      slot_used = λ q n h.
          let s = (freed-Published q n h).0 in
          ground (arith, v.slot_used q n s, v.slot_owner p q m n pub' s, (freed-Published q n h).1);
      slot_owner = λ q r n o h k e.
          v.slot_owner q r n o (freed-Published q n h).0 (freed-Published r o k).0 e;
    }

    freed-Keeps : (bound : Ptr) → Keeps bound ix freed
    freed-Keeps bound q n below h = (n, ground arith, refl, refl)

    -- The slot of a MasterInfo that is freed goes to the hands of the caller.
    freed-NoLeak : NoLeak ix reserved freed (m.master_block_index ∷ reserved)
    freed-NoLeak s (inl h) = inl (ground (arith, h))
    freed-NoLeak s (inr (q, n, h, e)) = elim (Bool-cases (p == q)) [
      | inl here ↦ inl (ground (arith, h.live, pub'.live, e))
      | inr there ↦ inr (q, n, Published-freed q n h there, e)
    ]

    -- To give up a held reference to a published MasterInfo does not fault and leaves the index
    -- well formed without that reference. The mappings, sizes and the free list stay, and no slot
    -- is lost: the slot of a MasterInfo that is freed is reserved for the caller.
    pub drop_ref-Inv :
        (slots : List ℕ) × (ix' : Index) × (drop_ref ix p ≡ some (slots, ix'))
        × Inv os U d next refs pend (slots ++ reserved) ix'
        × Dropped ix ix'
        × NoLeak ix reserved ix' (slots ++ reserved)
    unfolding drop_ref remove_hash
    drop_ref-Inv = elim (Bool-cases (m.refcount == 1)) [
      | inl one ↦ (
        m.master_block_index ∷ [],
        freed,
        rw (pub'.live, ◌>>=◌, one),
        freed-Inv (ground arith),
        record { file_same = refl; sizes_same = refl; free_same = refl; keeps = freed-Keeps },
        freed-NoLeak,
      )
      | inr more ↦ (
        [],
        lowered ix p m,
        rw (pub'.live, ◌>>=◌, more),
        lowered-Inv (ground (arith, v.positive p m pub'.live)),
        record {
          file_same = refl;
          sizes_same = refl;
          free_same = refl;
          keeps = recounted-Keeps ix p m (sub32 m.refcount 1) pub'.live;
        },
        Stays-NoLeak ix (lowered ix p m) reserved reserved (λ s. omega arith)
            (recounted-Stays ix p m (sub32 m.refcount 1) pub'.live),
      )
    ]
