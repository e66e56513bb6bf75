-- ===== src/Dedup/Plan/Step.antt =====
-- One round of pass 1: a HIT takes a reference, a MISS makes a pending MasterInfo with one.
use dedup_block_fs.Base.{
  ℕ, ◌+◌, ◌^◌, ◌<◌, ◌≡◌, inl, inr, Bool-cases, some, List, ◌∷◌, ◌==◌, ltb, count, arith,
}
use dedup_block_fs.Keys.{Digest, bytes_key, block_indice_key}
use dedup_block_fs.Table.{holders}
use dedup_block_fs.Table.Laws.{lookup_of_holders}
use dedup_block_fs.Index.{Index, Ptr, MasterInfo, fetch_add, add32}
use dedup_block_fs.Index.Inv.{Published, Inv}
use dedup_block_fs.Index.Recount.{recounted, recounted-Inv}
use dedup_block_fs.System.{System, Block}
use dedup_block_fs.Dedup.Plan.{new_info}

module _ (os : System) (U : Block → Type 0) where
  open os use {Disk}

  module _ {d : Disk} {next : ℕ} {refs pend : List Ptr} {reserved : List ℕ} {ix : Index}
      (v : Inv os U d next refs pend reserved ix) where
    pub fetch_add-Inv :
        (p : Ptr) (m : MasterInfo)
        → ix.infos p ≡ some m
        → holders p ix.file_to_master + count p refs + 1 < 2 ^ 32
        → (fetch_add ix p ≡ some (recounted ix p m (add32 m.refcount 1)))
          × Inv os U d next (p ∷ refs) pend reserved (recounted ix p m (add32 m.refcount 1))
    unfolding fetch_add
    fetch_add-Inv p m live room = (
      rw live,
      recounted-Inv ix p m (add32 m.refcount 1) live os U (p ∷ refs) (λ q e. ground arith)
          (ground (arith, v.counted p m live)) (ground (arith, v.counted p m live))
          (ground (arith, v.counted p m live)) v,
    )

    -- Nothing refers to the address of the next MasterInfo.
    next-unheld : holders ix.next_info ix.file_to_master ≡ 0
    next-unheld = elim (Bool-cases (ltb 0 (holders ix.next_info ix.file_to_master))) [
      | inl h ↦
          let (k, e) =
            lookup_of_holders ix.next_info ix.file_to_master v.distinct_file (ground arith) in
          let (m, s) = v.linked k ix.next_info e in ground (arith, s.live, v.fresh ix.next_info)
      | inr h ↦ ground arith
    ]

    next-uncounted : count ix.next_info refs ≡ 0
    next-uncounted = elim (Bool-cases (ltb 0 (count ix.next_info refs))) [
      | inl h ↦
          let (m, s) = v.held ix.next_info (ground arith) in ground (arith, s, v.fresh ix.next_info)
      | inr h ↦ ground arith
    ]

    module _ (h : Digest) where
      new-Published : (q : Ptr) (n : MasterInfo) → Published (new_info ix h) q n → Published ix q n
      unfolding new_info
      new-Published q n s = elim (Bool-cases (ix.next_info == q)) [
        | inl e ↦ let (n', t, u) = v.hashed n.hash q s.listed in ground (arith, t.live, v.fresh q)
        | inr e ↦ record { live = ground (arith, s.live); listed = s.listed }
      ]

      Published-new : (q : Ptr) (n : MasterInfo) → Published ix q n → Published (new_info ix h) q n
      unfolding new_info
      Published-new q n s = record { live = ground (arith, s.live, v.fresh q); listed = s.listed }

      pub new_info-Inv :
          Inv os U d next (ix.next_info ∷ refs) (ix.next_info ∷ pend) reserved (new_info ix h)
      unfolding new_info
      new_info-Inv = record {
        distinct_hash = v.distinct_hash;
        distinct_file = v.distinct_file;
        fresh = λ q e. ground (arith, v.fresh q);
        hashed = λ k q e. let (n, s, t) = v.hashed k q e in (n, Published-new q n s, t);
        linked = λ k q e. let (n, s) = v.linked k q e in (n, Published-new q n s);
        held = λ q e. elim (Bool-cases (ix.next_info == q)) [
          | inl same ↦ (record { hash = h; master_block_index = 0; refcount = 1 }, ground arith)
          | inr other ↦ let (n, s) = v.held q (ground arith) in (n, ground arith)
        ];
        stored = λ q n e. v.stored q n (new-Published q n e);
        counted = λ q n e. ground (arith, v.counted q n, next-unheld, next-uncounted, e);
        positive = λ q n e. ground (arith, v.positive q n, e);
        owned = λ q n e. ground (arith, v.owned q n, e);
        slot_once = v.slot_once;
        slot_below = v.slot_below;
        slot_used = λ q n e. v.slot_used q n (new-Published q n e);
        slot_owner =
            λ q r n o e k. v.slot_owner q r n o (new-Published q n e) (new-Published r o k);
      }
