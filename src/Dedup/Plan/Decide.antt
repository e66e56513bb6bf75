-- ===== src/Dedup/Plan/Decide.antt =====
-- Pass 1 as a whole.
use dedup_block_fs.Base.{
  ℕ, zero, suc, ◌+◌, ◌^◌, ◌≤◌, ◌<◌, ◌≡◌, refl, ap, ◌∙◌, inl, inr, Bool-cases, Option-cases, none,
  some, List, [], ◌∷◌, ◌++◌, ◌==◌, count-append, count-le-length, All, arith, length,
}
use dedup_block_fs.Keys.{Digest, bytes_key, bytes_equal, bytes_equal_iff, block_indice_key}
use dedup_block_fs.Table.{Table, lookup, insert}
use dedup_block_fs.Table.Laws.{lookup-insert, holders-le-length}
use dedup_block_fs.Index.{Index, Ptr, MasterInfo, fetch_add, add32, lookup_by_hash}
use dedup_block_fs.Index.Inv.{Inv, Keeps, Keeps-trans, recount}
use dedup_block_fs.Index.Recount.{recounted, recounted-Keeps}
use dedup_block_fs.System.{System, Block, Buffer}
use dedup_block_fs.Dedup.Plan.{PlanEntry, hit, miss, decide, find_existing, new_info, plan_entry}
use dedup_block_fs.Dedup.Plan.Entries.{
  refs_of, pend_of, Fresh, Rising, Live, Covers, Forward, Forward-trans,
}
use dedup_block_fs.Dedup.Plan.Step.{fetch_add-Inv, new_info-Inv}

Forward-recounted :
    (ix : Index) (p : Ptr) (m : MasterInfo) (r : ℕ)
    → ix.infos p ≡ some m
    → Forward ix (recounted ix p m r)
Forward-recounted ix p m r live q n h = elim (Bool-cases (p == q)) [
  | inl e ↦ (record m { refcount = r }, ground arith, ground arith)
  | inr e ↦ (n, ground arith, refl)
]

-- The MasterInfo of a new MISS.
abbrev pending_info : Digest → MasterInfo
pending_info h = record { hash = h; master_block_index = 0; refcount = 1 }

new_info-live :
    (ix : Index) (h : Digest) → (new_info ix h).infos ix.next_info ≡ some (pending_info h)
unfolding new_info
new_info-live ix h = ground arith

new_info-below :
    (ix : Index) (h : Digest) (q : Ptr) (m : MasterInfo)
    → q < ix.next_info
    → (new_info ix h).infos q ≡ some m
    → ix.infos q ≡ some m
unfolding new_info
new_info-below ix h q m below e = ground arith

Forward-new :
    (ix : Index) (h : Digest)
    → ((p : Ptr) → ix.next_info ≤ p → ix.infos p ≡ none)
    → Forward ix (new_info ix h)
unfolding new_info
Forward-new ix h fresh q m e = (m, ground (arith, fresh q), refl)

-- The pending MISSes of the batch are live, under their digests.
abbrev pub Pending : Index → Table Digest Ptr → Type 0
Pending ix pending =
    (h : Digest) (p : Ptr)
    → lookup h pending ≡ some p
    → (m : MasterInfo) × (ix.infos p ≡ some m) × (m.hash ≡ h)

-- A digest that pass 1 does not know is not in `t`.
abbrev Knows : Index → Table Digest Ptr → Table Digest Ptr → Type 0
Knows ix pending t = (h : Digest) → find_existing ix pending h ≡ none → lookup h t ≡ none

module _ (os : System) (U : Block → Type 0) (buf : Buffer) (start_block : ℕ) where
  open os use {Disk, sha512}

  -- What pass 1 makes of the index `ix`, from block `i` on.
  pub record Decided (d : Disk) (next : ℕ) (refs pend : List Ptr) (reserved : List ℕ)
      (t : Table Digest Ptr) (i n : ℕ) (ix : Index) (plan : List PlanEntry) (ix' : Index)
      : Type 0 where
    pub inv : Inv os U d next (refs_of plan ++ refs) (pend_of plan ++ pend) reserved ix'
    pub hash_same : ix'.hash_to_master ≡ ix.hash_to_master
    pub file_same : ix'.file_to_master ≡ ix.file_to_master
    pub sizes_same : ix'.file_to_sizes ≡ ix.file_to_sizes
    pub free_same : ix'.free_block_list ≡ ix.free_block_list
    pub covers : Covers os buf start_block i plan
    pub fresh : Fresh t plan
    pub rising : Rising ix.next_info plan
    pub live : All (Live ix') plan
    pub forward : Forward ix ix'
    pub keeps : Keeps ix.next_info ix ix'
    pub next_le : ix.next_info ≤ ix'.next_info
    pub size : length plan ≡ n

  module _ (d : Disk) (next : ℕ) (reserved : List ℕ) where
    abbrev Result :
        (refs pend : List Ptr) (t : Table Digest Ptr) (i n : ℕ) (ix : Index)
        (pending : Table Digest Ptr)
        → Type 0
    Result refs pend t i n ix pending =
        (plan : List PlanEntry) × (ix' : Index) × (decide os buf start_block n i ix pending
          ≡ some (plan, ix'))
        × Decided d next refs pend reserved t i n ix plan ix'

    decide-hit :
        (n i : ℕ) (ix : Index) (pending t : Table Digest Ptr) (refs pend : List Ptr) (p : Ptr)
        (m : MasterInfo)
        → find_existing ix pending (sha512 (buf i)) ≡ some p
        → ix.infos p ≡ some m
        → m.hash ≡ sha512 (buf i)
        → fetch_add ix p ≡ some (recounted ix p m (add32 m.refcount 1))
        → Result (p ∷ refs) pend t (i + 1) n (recounted ix p m (add32 m.refcount 1)) pending
        → Result refs pend t i (suc n) ix pending
    unfolding decide
    decide-hit n i ix pending t refs pend p m known live same add (plan, ix', run, r) = (
      plan_entry os buf start_block hit i p ∷ plan,
      ix',
      rw (known, decide, add, run),
      record {
        inv =
            recount os U _ _ _
              (λ q. ground (
                arith,
                count-append q (refs_of plan) (p ∷ refs),
                count-append q (refs_of plan) refs,
              ))
              (λ q. refl) (λ s. refl) r.inv;
        hash_same = r.hash_same;
        file_same = r.file_same;
        sizes_same = r.sizes_same;
        free_same = r.free_same;
        covers = (record { payload_is = refl; logical_is = refl; hash_is = refl }, r.covers);
        fresh = r.fresh;
        rising = r.rising;
        live = (
          let (m1, a, b) = Forward-recounted ix p m (add32 m.refcount 1) live p m live in
              let (m2, a', b') = r.forward p m1 a in (m2, a', b' ∙ b ∙ same),
          r.live,
        );
        forward =
            Forward-trans ix (recounted ix p m (add32 m.refcount 1)) ix'
              (Forward-recounted ix p m (add32 m.refcount 1) live) r.forward;
        keeps =
            Keeps-trans ix.next_info ix (recounted ix p m (add32 m.refcount 1)) ix'
              (recounted-Keeps ix p m (add32 m.refcount 1) live ix.next_info) r.keeps;
        next_le = r.next_le;
        size = ap suc r.size;
      },
    )

    decide-miss :
        (n i : ℕ) (ix : Index) (pending t : Table Digest Ptr) (refs pend : List Ptr)
        → Inv os U d next refs pend reserved ix
        → find_existing ix pending (sha512 (buf i)) ≡ none
        → lookup (sha512 (buf i)) t ≡ none
        → Result
            (ix.next_info ∷ refs)
            (ix.next_info ∷ pend)
            (insert (sha512 (buf i)) ix.next_info t)
            (i + 1)
            n
            (new_info ix (sha512 (buf i)))
            (insert (sha512 (buf i)) ix.next_info pending)
        → Result refs pend t i (suc n) ix pending
    unfolding decide new_info
    decide-miss n i ix pending t refs pend v unknown absent (plan, ix', run, r) = (
      plan_entry os buf start_block miss i ix.next_info ∷ plan,
      ix',
      rw (unknown, decide, run),
      record {
        inv =
            recount os U _ _ _
              (λ q. ground (
                arith,
                count-append q (refs_of plan) (ix.next_info ∷ refs),
                count-append q (refs_of plan) refs,
              ))
              (λ q. ground (
                arith,
                count-append q (pend_of plan) (ix.next_info ∷ pend),
                count-append q (pend_of plan) pend,
              ))
              (λ s. refl) r.inv;
        hash_same = r.hash_same;
        file_same = r.file_same;
        sizes_same = r.sizes_same;
        free_same = r.free_same;
        covers = (record { payload_is = refl; logical_is = refl; hash_is = refl }, r.covers);
        fresh = (absent, r.fresh);
        rising = (omega arith, r.rising);
        live = (
          r.forward ix.next_info (pending_info (sha512 (buf i)))
              (new_info-live ix (sha512 (buf i))),
          r.live,
        );
        forward =
            Forward-trans ix (new_info ix (sha512 (buf i))) ix'
              (Forward-new ix (sha512 (buf i)) v.fresh) r.forward;
        keeps = λ q m below h.
            let (m', a, b, c) = r.keeps q m (omega arith) h in
            (m', new_info-below ix (sha512 (buf i)) q m' below a, b, c);
        next_le = omega arith;
        size = ap suc r.size;
      },
    )

    Pending-recounted :
        (ix : Index) (p : Ptr) (m : MasterInfo) (r : ℕ) (pending : Table Digest Ptr)
        → ix.infos p ≡ some m
        → Pending ix pending
        → Pending (recounted ix p m r) pending
    Pending-recounted ix p m r pending live known h q e =
        let (n, a, b) = known h q e in
        let (n', a', b') = Forward-recounted ix p m r live q n a in (n', a', b' ∙ b)

    Pending-new :
        (ix : Index) (h : Digest) (pending : Table Digest Ptr)
        → ((p : Ptr) → ix.next_info ≤ p → ix.infos p ≡ none)
        → Pending ix pending
        → Pending (new_info ix h) (insert h ix.next_info pending)
    Pending-new ix h pending fresh known k q e = elim (Bool-cases (bytes_equal h k)) [
      | inl same ↦ (
        pending_info h,
        ground (arith, new_info-live ix h, lookup-insert k h ix.next_info pending),
        (bytes_equal_iff h k).0 same,
      )
      | inr other ↦
          let (n, a, b) = known k q (ground (arith, lookup-insert k h ix.next_info pending)) in
          let (n', a', b') = Forward-new ix h fresh q n a in (n', a', b' ∙ b)
    ]

    Knows-new :
        (ix : Index) (h : Digest) (p : Ptr) (pending t : Table Digest Ptr)
        → Knows ix pending t
        → Knows (new_info ix h) (insert h p pending) (insert h p t)
    unfolding find_existing new_info
    Knows-new ix h p pending t known k e =
        ground (arith, known k, lookup-insert k h p pending, lookup-insert k h p t)

    -- What a digest is found to, is live and has the digest.
    found-live :
        (refs pend : List Ptr) (ix : Index) (pending : Table Digest Ptr) (h : Digest) (p : Ptr)
        → Inv os U d next refs pend reserved ix
        → Pending ix pending
        → find_existing ix pending h ≡ some p
        → (m : MasterInfo) × (ix.infos p ≡ some m) × (m.hash ≡ h)
    unfolding find_existing lookup_by_hash
    found-live refs pend ix pending h p v known e =
        elim (Option-cases (lookup h ix.hash_to_master)) [
          | inl a ↦ known h p (ground arith)
          | inr (q, a) ↦ let (m, s, t) = v.hashed h p (ground arith) in (m, s.live, t)
        ]

    -- On a well-formed index where no reference count can wrap, pass 1 does not fault. Its plan
    -- covers the blocks i, ..., i + n - 1, holds one reference for each entry and one pending
    -- MasterInfo for each MISS, and no two MISSes have the same digest or one that was known.
    pub decide-Decided :
        (n i : ℕ) (ix : Index) (pending t : Table Digest Ptr) (refs pend : List Ptr)
        → Inv os U d next refs pend reserved ix
        → length ix.file_to_master + length refs + n < 2 ^ 32
        → Pending ix pending
        → Knows ix pending t
        → Result refs pend t i n ix pending
    unfolding decide
    decide-Decided zero i ix pending t refs pend v room known new = (
      [],
      ix,
      refl,
      record {
        inv = v;
        hash_same = refl;
        file_same = refl;
        sizes_same = refl;
        free_same = refl;
        covers = tt;
        fresh = tt;
        rising = tt;
        live = tt;
        forward = λ q m h. (m, h, refl);
        keeps = λ q m below h. (m, h, refl, refl);
        next_le = omega arith;
        size = refl;
      },
    )
    decide-Decided (suc n) i ix pending t refs pend v room known new =
        elim (Option-cases (find_existing ix pending (sha512 (buf i)))) [
          | inl e ↦ decide-miss n i ix pending t refs pend v e (new _ e) (
              decide-Decided n (i + 1) (new_info ix (sha512 (buf i)))
                (insert (sha512 (buf i)) ix.next_info pending)
                (insert (sha512 (buf i)) ix.next_info t) (ix.next_info ∷ refs) (ix.next_info ∷ pend)
                (new_info-Inv os U v (sha512 (buf i))) (omega arith)
                (Pending-new ix (sha512 (buf i)) pending v.fresh known)
                (Knows-new ix (sha512 (buf i)) ix.next_info pending t new))
          | inr (p, e) ↦
              let (m, live, same) = found-live refs pend ix pending (sha512 (buf i)) p v known e in
              let (add, w) =
                fetch_add-Inv os U v p m live
                  (omega (arith, holders-le-length p ix.file_to_master, count-le-length p refs)) in
              decide-hit n i ix pending t refs pend p m e live same add (
                decide-Decided n (i + 1) (recounted ix p m (add32 m.refcount 1)) pending t
                  (p ∷ refs) pend w (omega arith)
                  (Pending-recounted ix p m (add32 m.refcount 1) pending live known) new)
        ]
