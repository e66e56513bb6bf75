-- ===== src/Index/Recount.antt =====
-- A reference count that changes with the references leaves the index well formed.
use dedup_block_fs.Base.{
  ℕ, ◌+◌, ◌^◌, ◌<◌, ◌≡◌, refl, sym, ◌∙◌, inl, inr, false, Bool-cases, some, List, ◌==◌, count,
  arith,
}
use dedup_block_fs.Table.{holders}
use dedup_block_fs.Index.{Index, Ptr, MasterInfo, store}
use dedup_block_fs.Index.Inv.{Published, Keeps, Stored-same, Inv}
use dedup_block_fs.Index.Slots.{Stays}
use dedup_block_fs.System.{System, Block}

abbrev pub recounted : Index → Ptr → MasterInfo → ℕ → Index
recounted ix p m r = store ix p (record m { refcount = r })

module _ (ix : Index) (p : Ptr) (m : MasterInfo) (r : ℕ) (live : ix.infos p ≡ some m) where
  pub recounted-Keeps : (bound : Ptr) → Keeps bound ix (recounted ix p m r)
  recounted-Keeps bound q n below h = elim (Bool-cases (p == q)) [
    | inl e ↦ (m, ground arith, ground arith, ground arith)
    | inr e ↦ (n, ground arith, refl, refl)
  ]

  recounted-Published :
      (q : Ptr) (n : MasterInfo)
      → Published (recounted ix p m r) q n
      → (n' : MasterInfo) × Published ix q n'
        × (n'.master_block_index ≡ n.master_block_index)
        × (n'.hash ≡ n.hash)
  recounted-Published q n h = elim (Bool-cases (p == q)) [
    | inl e ↦ (m, ground (arith, h.live, h.listed), ground (arith, h.live), ground (arith, h.live))
    | inr e ↦ (n, ground (arith, h.live, h.listed), refl, refl)
  ]

  Published-recounted :
      (q : Ptr) (n : MasterInfo)
      → Published ix q n
      → (n' : MasterInfo) × Published (recounted ix p m r) q n' × (n'.hash ≡ n.hash)
  Published-recounted q n h = elim (Bool-cases (p == q)) [
    | inl e ↦ (record m { refcount = r }, ground (arith, h.live, h.listed), ground (arith, h.live))
    | inr e ↦ (n, ground (arith, h.live, h.listed), refl)
  ]

  -- The recounted MasterInfo is published where it was.
  pub recounted-Stays : Stays ix (recounted ix p m r)
  recounted-Stays q n h = elim (Bool-cases (p == q)) [
    | inl e ↦ (record m { refcount = r }, ground (arith, h.live, h.listed), ground (arith, h.live))
    | inr e ↦ (n, ground (arith, h.live, h.listed), refl)
  ]

  recounted-live :
      (q : Ptr)
      → (n : MasterInfo) × (ix.infos q ≡ some n)
      → (n : MasterInfo) × ((recounted ix p m r).infos q ≡ some n)
  recounted-live q (n, h) = elim (Bool-cases (p == q)) [
    | inl e ↦ (record m { refcount = r }, ground arith)
    | inr e ↦ (n, ground arith)
  ]

  module _ (os : System) (U : Block → Type 0) where
    open os use {Disk}

    -- `refs'` differs from `refs` at `p` only, and `r` is its count.
    pub recounted-Inv :
        {d : Disk} {next : ℕ} {refs pend : List Ptr} {reserved : List ℕ} (refs' : List Ptr)
        → ((q : Ptr) → (p == q) ≡ false → count q refs' ≡ count q refs)
        → r ≡ holders p ix.file_to_master + count p refs'
        → 0 < r
        → r < 2 ^ 32
        → Inv os U d next refs pend reserved ix
        → Inv os U d next refs' pend reserved (recounted ix p m r)
    recounted-Inv {d} {next} {refs} {pend} {reserved} refs' same sum low high v = record {
      distinct_hash = v.distinct_hash;
      distinct_file = v.distinct_file;
      fresh = λ q h. ground (arith, v.fresh q h, live);
      hashed = λ h q e.
          let (n, s, t) = v.hashed h q e in
          let (n', s', t') = Published-recounted q n s in (n', s', t' ∙ t);
      linked = λ k q e.
          let (n, s) = v.linked k q e in let (n', s', t') = Published-recounted q n s in (n', s');
      held = λ q h. elim (Bool-cases (p == q)) [
        | inl e ↦ (record m { refcount = r }, ground arith)
        | inr e ↦ recounted-live q (v.held q (ground (arith, same q e)))
      ];
      stored = λ q n h.
          let (n', s, t, t') = recounted-Published q n h in
          Stored-same os U d n' n t t' (v.stored q n' s);
      counted = λ q n h. ground (arith, v.counted q n, same q, h);
      positive = λ q n h. ground (arith, v.positive q n, h);
      owned = λ q n h. ground (arith, v.owned q n, v.owned p m live, h);
      slot_once = v.slot_once;
      slot_below = v.slot_below;
      slot_used = λ q n h.
          let (n', s, t, t') = recounted-Published q n h in ground (arith, v.slot_used q n' s);
      slot_owner = λ q o n n' h k e.
          let (n1, s, t, t') = recounted-Published q n h in
          let (n2, s', u, u') = recounted-Published o n' k in
          v.slot_owner q o n1 n2 s s' (t ∙ e ∙ sym u);
    }
