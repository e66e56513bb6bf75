-- ===== src/Dedup/Write/Slots.antt =====
-- The slots of the master file across a call: what src/dedup.c takes from the free list and from
-- the end of the master file comes back or has a block.
use dedup_block_fs.Base.{
  ℕ, ◌<◌, ◌≡◌, sym, ap, ◌∙◌, inl, inr, Bool-cases, some, List, [], ltb, arith,
}
use mathlib.Core.Option.{some-injective}
use dedup_block_fs.Keys.{bytes_key}
use dedup_block_fs.Table.{lookup}
use dedup_block_fs.Index.{Index, Ptr, MasterInfo}
use dedup_block_fs.Index.Inv.{Inv, Keeps, live-lt-next}
use dedup_block_fs.Index.Slots.{Accounted, NoLeak, Stays}
use dedup_block_fs.System.{System, Block, Buffer}
use dedup_block_fs.Dedup.Plan.{PlanEntry}
use dedup_block_fs.Dedup.Plan.Entries.{slots_of}
use dedup_block_fs.Dedup.Write.{Store}
use dedup_block_fs.Dedup.Write.Lay.{Laid}

-- Slot by slot: if it was accounted for where it lay in the master file, it is so after the call.
abbrev pub SlotsKept : {Disk : Type 0} → Store Disk → Store Disk → Type 0
SlotsKept st st' =
    (s : ℕ)
    → (s < st.next_block_index → Accounted st.index [] s)
    → s < st'.next_block_index
    → Accounted st'.index [] s

module _ (os : System) (U : Block → Type 0) where
  open os use {Disk}

  -- Where no digest goes and no slot changes, what was published still is.
  pub kept_Stays :
      {d : Disk} {next next' : ℕ} {refs pend refs' pend' : List Ptr} {reserved reserved' : List ℕ}
      (ix ix' : Index)
      → Inv os U d next refs pend reserved ix
      → Inv os U d next' refs' pend' reserved' ix'
      → ix'.hash_to_master ≡ ix.hash_to_master
      → Keeps ix.next_info ix ix'
      → Stays ix ix'
  kept_Stays ix ix' v w same keeps p m h =
      let listed : lookup m.hash ix'.hash_to_master ≡ some p = ap (lookup m.hash) same ∙ h.listed in
      let (m', s', t) = w.hashed m.hash p listed in
      let (m0, live, slot, hash) = keeps p m' (live-lt-next os U p m v h.live) s'.live in
      (
        m',
        s',
        sym slot
            ∙ ap (λ (x : MasterInfo). x.master_block_index)
                (some-injective _ _ (sym live ∙ h.live)),
      )

  module _ (buf : Buffer) (start n : ℕ) (st st1 : Store Disk) (plan : List PlanEntry)
      (v : Inv os U st.disk st.next_block_index [] [] [] st.index)
      (l : Laid os U buf start n st plan st1) where
    -- The slots of the plan are the ones that the allocator took.
    pub laid_slots :
        (s : ℕ)
        → (s < st.next_block_index → Accounted st.index [] s)
        → s < st1.next_block_index
        → Accounted st1.index (slots_of plan) s
    laid_slots s before below = elim (Bool-cases (ltb s st.next_block_index)) [
      | inl old ↦ elim (before (ground arith)) [
        | inl h ↦ inl (ground (arith, l.taken s, h))
        | inr (p, m, h, e) ↦
            let (m', h', e') = kept_Stays st.index st1.index v l.inv l.hash_same l.keeps p m h in
            inr (p, m', h', e' ∙ e)
      ]
      | inr new ↦ inl (ground (arith, l.taken s, below, new))
    ]

    pub laid-SlotsKept :
        (st' : Store Disk)
        → st'.next_block_index ≡ st1.next_block_index
        → NoLeak st1.index (slots_of plan) st'.index []
        → SlotsKept st st'
    laid-SlotsKept st' same safe s before below = safe s (laid_slots s before (rw same at below))
