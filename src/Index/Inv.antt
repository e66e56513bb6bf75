-- ===== src/Index/Inv.antt =====
-- When an index, its MasterInfo objects and the master file agree, also while writes are under way.
use dedup_block_fs.Base.{
  ℕ, ◌+◌, ◌^◌, ◌≤◌, ◌<◌, ◌≡◌, refl, sym, ap, subst, ◌∙◌, ◌⊎◌, some, none, List, count, ltb,
  Bool-cases, inl, inr, arith,
}
use dedup_block_fs.Keys.{Digest, BlockIndice, bytes_key, block_indice_key}
use dedup_block_fs.Table.{lookup, Distinct, holders}
use dedup_block_fs.Index.{Index, Ptr, MasterInfo}
use dedup_block_fs.System.{System, Block}

-- A live MasterInfo that hash_to_master knows under its digest.
pub record Published (ix : Index) (p : Ptr) (m : MasterInfo) : Type 0 where
  pub live : ix.infos p ≡ some m
  pub listed : lookup m.hash ix.hash_to_master ≡ some p

-- Every MasterInfo below the address `bound` that is live in `ix'` was live in `ix`, with the same
-- digest and slot.
abbrev pub Keeps : Ptr → Index → Index → Type 0
Keeps bound ix ix' =
    (q : Ptr) (n : MasterInfo)
    → q < bound
    → ix'.infos q ≡ some n
    → (n' : MasterInfo) × (ix.infos q ≡ some n')
      × (n'.master_block_index ≡ n.master_block_index)
      × (n'.hash ≡ n.hash)

pub Keeps-trans :
    (bound : Ptr) (ix ix' ix'' : Index)
    → Keeps bound ix ix'
    → Keeps bound ix' ix''
    → Keeps bound ix ix''
Keeps-trans bound ix ix' ix'' f g q n below h =
    let (n', a, b, c) = g q n below h in
    let (n'', a', b', c') = f q n' below a in (n'', a', b' ∙ b, c' ∙ c)

pub Keeps-refl : (bound : Ptr) (ix : Index) → Keeps bound ix ix
Keeps-refl bound ix q n below h = (n, h, refl, refl)

module _ (os : System) (U : Block → Type 0) where
  open os use {Disk, block, sha512}

  -- The master block of a MasterInfo has the digest that the MasterInfo records; `U` is what is
  -- known of every block that is stored.
  pub record Stored (d : Disk) (m : MasterInfo) : Type 0 where
    pub digest : sha512 (block d m.master_block_index) ≡ m.hash
    pub known : U (block d m.master_block_index)

  -- Only the slot and the digest matter.
  pub Stored-same :
      (d : Disk) (m n : MasterInfo)
      → m.master_block_index ≡ n.master_block_index
      → m.hash ≡ n.hash
      → Stored d m
      → Stored d n
  Stored-same d m n e h s = record {
    digest = ap (λ b. sha512 (block d b)) (sym e) ∙ s.digest ∙ h;
    known = subst (λ b. U (block d b)) e s.known;
  }

  -- `refs` are the references that writes under way hold, `pend` the MasterInfos that they have not
  -- published yet, and `reserved` the slots that they were given.
  pub record Inv (d : Disk) (next : ℕ) (refs pend : List Ptr) (reserved : List ℕ) (ix : Index)
      : Type 0 where
    pub distinct_hash : Distinct ix.hash_to_master
    pub distinct_file : Distinct ix.file_to_master
    pub fresh : (p : Ptr) → ix.next_info ≤ p → ix.infos p ≡ none
    pub hashed :
        (h : Digest) (p : Ptr)
        → lookup h ix.hash_to_master ≡ some p
        → (m : MasterInfo) × Published ix p m × (m.hash ≡ h)
    pub linked :
        (k : BlockIndice) (p : Ptr)
        → lookup k ix.file_to_master ≡ some p
        → (m : MasterInfo) × Published ix p m
    pub held : (p : Ptr) → 0 < count p refs → (m : MasterInfo) × (ix.infos p ≡ some m)
    pub stored : (p : Ptr) (m : MasterInfo) → Published ix p m → Stored d m
    pub counted :
        (p : Ptr) (m : MasterInfo)
        → ix.infos p ≡ some m
        → m.refcount ≡ holders p ix.file_to_master + count p refs
    pub positive :
        (p : Ptr) (m : MasterInfo) → ix.infos p ≡ some m → (0 < m.refcount) × (m.refcount < 2 ^ 32)
    pub owned :
        (p : Ptr) (m : MasterInfo)
        → ix.infos p ≡ some m
        → (lookup m.hash ix.hash_to_master ≡ some p) ⊎ (0 < count p pend)
    pub slot_once : (s : ℕ) → count s ix.free_block_list + count s reserved ≤ 1
    pub slot_below : (s : ℕ) → 0 < count s ix.free_block_list + count s reserved → s < next
    pub slot_used :
        (p : Ptr) (m : MasterInfo)
        → Published ix p m
        → (count m.master_block_index ix.free_block_list + count m.master_block_index reserved ≡ 0)
          × (m.master_block_index < next)
    pub slot_owner :
        (p q : Ptr) (m n : MasterInfo)
        → Published ix p m
        → Published ix q n
        → m.master_block_index ≡ n.master_block_index
        → p ≡ q

  -- Slots may go from the writes under way to the free list and back.
  pub move_slots :
      {d : Disk} {next : ℕ} {refs pend : List Ptr} {reserved : List ℕ} {ix : Index}
      (free' reserved' : List ℕ)
      → ((s : ℕ)
          → count s free' + count s reserved' ≡ count s ix.free_block_list + count s reserved)
      → Inv d next refs pend reserved ix
      → Inv d next refs pend reserved' (record ix { free_block_list = free' })
  move_slots {ix} free' reserved' same v = record {
    distinct_hash = v.distinct_hash;
    distinct_file = v.distinct_file;
    fresh = v.fresh;
    hashed = λ h q e.
        let (n, s, t) = v.hashed h q e in (n, record { live = s.live; listed = s.listed }, t);
    linked =
        λ k q e. let (n, s) = v.linked k q e in (n, record { live = s.live; listed = s.listed });
    held = v.held;
    stored = λ q n h. v.stored q n (record { live = h.live; listed = h.listed });
    counted = v.counted;
    positive = v.positive;
    owned = v.owned;
    slot_once = λ s. rw same (v.slot_once s);
    slot_below = λ s h. v.slot_below s (rw same at h);
    slot_used = λ q n h. rw same (v.slot_used q n (record { live = h.live; listed = h.listed }));
    slot_owner = λ q r n o h k.
        v.slot_owner q r n o (record { live = h.live; listed = h.listed })
          (record { live = k.live; listed = k.listed });
  }

  -- Only how often a reference, a pending MasterInfo or a slot is held matters.
  pub recount :
      {d : Disk} {next : ℕ} {refs pend : List Ptr} {reserved : List ℕ} {ix : Index}
      (refs' pend' : List Ptr) (reserved' : List ℕ)
      → ((p : Ptr) → count p refs' ≡ count p refs)
      → ((p : Ptr) → count p pend' ≡ count p pend)
      → ((s : ℕ) → count s reserved' ≡ count s reserved)
      → Inv d next refs pend reserved ix
      → Inv d next refs' pend' reserved' ix
  recount refs' pend' reserved' r p s v = record {
    distinct_hash = v.distinct_hash;
    distinct_file = v.distinct_file;
    fresh = v.fresh;
    hashed = v.hashed;
    linked = v.linked;
    held = λ q h. v.held q (rw r at h);
    stored = v.stored;
    counted = λ q n h. rw r (v.counted q n h);
    positive = v.positive;
    owned = λ q n h. rw p (v.owned q n h);
    slot_once = λ k. rw s (v.slot_once k);
    slot_below = λ k h. v.slot_below k (rw s at h);
    slot_used = λ q n h. rw s (v.slot_used q n h);
    slot_owner = v.slot_owner;
  }

  -- A live MasterInfo lies below the address of the next one.
  pub live-lt-next :
      {d : Disk} {next : ℕ} {refs pend : List Ptr} {reserved : List ℕ} {ix : Index} (p : Ptr)
      (m : MasterInfo)
      → Inv d next refs pend reserved ix
      → ix.infos p ≡ some m
      → p < ix.next_info
  live-lt-next {d} {next} {refs} {pend} {reserved} {ix} p m v h =
      elim (Bool-cases (ltb p ix.next_info)) [
        | inl e ↦ ground arith
        | inr e ↦ absurd (none-some p m v h (ground arith))
      ]
    where
      none-some :
          (p : Ptr) (m : MasterInfo)
          → Inv d next refs pend reserved ix
          → ix.infos p ≡ some m
          → ix.next_info ≤ p
          → ⊥
      none-some p m v h e = cc (v.fresh p e)

  -- Only the reserved slots of the master file may change.
  pub rewrite_slots :
      {d : Disk} {next : ℕ} {refs pend : List Ptr} {reserved : List ℕ} {ix : Index} (d' : Disk)
      → ((s : ℕ) → count s reserved ≡ 0 → block d' s ≡ block d s)
      → Inv d next refs pend reserved ix
      → Inv d' next refs pend reserved ix
  rewrite_slots d' same v = record {
    distinct_hash = v.distinct_hash;
    distinct_file = v.distinct_file;
    fresh = v.fresh;
    hashed = v.hashed;
    linked = v.linked;
    held = v.held;
    stored = λ p m h.
        let e = same m.master_block_index (ground (arith, v.slot_used p m h)) in
        let st = v.stored p m h in
        record { digest = ap sha512 e ∙ st.digest; known = subst U (sym e) st.known };
    counted = v.counted;
    positive = v.positive;
    owned = v.owned;
    slot_once = v.slot_once;
    slot_below = v.slot_below;
    slot_used = v.slot_used;
    slot_owner = v.slot_owner;
  }
