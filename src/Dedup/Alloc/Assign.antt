-- ===== src/Dedup/Alloc/Assign.antt =====
-- The slots go to the MISSes of a plan, one each.
use dedup_block_fs.Base.{
  ℕ, suc, ◌≡◌, refl, inl, inr, Bool-cases, none, some, List, [], ◌∷◌, ◌==◌, All, count, length,
  arith,
}
use dedup_block_fs.Keys.{bytes_key}
use dedup_block_fs.Table.{lookup}
use dedup_block_fs.Index.{Index, Ptr, MasterInfo, store}
use dedup_block_fs.Index.Inv.{Inv, Published}
use dedup_block_fs.System.{System, Block}
use dedup_block_fs.Dedup.Plan.{PlanEntry, hit, miss, miss_count}
use dedup_block_fs.Dedup.Plan.Entries.{
  pend_of, slots_of, Rising, Rising-count, Live, Live-Forward, Unlisted, Slotted, Placed, Forward,
  Forward-trans, kind_cases,
}
use dedup_block_fs.Dedup.Alloc.{assign_slots}

abbrev placed : Index → Ptr → MasterInfo → ℕ → Index
placed ix p m slot = store ix p (record m { master_block_index = slot })

module _ (ix : Index) (p : Ptr) (m : MasterInfo) (slot : ℕ) (live : ix.infos p ≡ some m)
    (pending : lookup m.hash ix.hash_to_master ≡ none) where
  placed-Published :
      (q : Ptr) (n : MasterInfo) → Published (placed ix p m slot) q n → Published ix q n
  placed-Published q n h = elim (Bool-cases (p == q)) [
    | inl e ↦ ground (arith, h.live, h.listed)
    | inr e ↦ record { live = ground (arith, h.live); listed = h.listed }
  ]

  Published-placed :
      (q : Ptr) (n : MasterInfo) → Published ix q n → Published (placed ix p m slot) q n
  Published-placed q n h = elim (Bool-cases (p == q)) [
    | inl e ↦ ground (arith, h.live, h.listed)
    | inr e ↦ record { live = ground (arith, h.live); listed = h.listed }
  ]

  placed-live :
      (q : Ptr)
      → (n : MasterInfo) × (ix.infos q ≡ some n)
      → (n : MasterInfo) × ((placed ix p m slot).infos q ≡ some n)
  placed-live q (n, h) = elim (Bool-cases (p == q)) [
    | inl e ↦ (record m { master_block_index = slot }, ground arith)
    | inr e ↦ (n, ground arith)
  ]

  module _ (os : System) (U : Block → Type 0) where
    -- The slot of a MasterInfo that is not published is nobody else's business.
    pub placed-Inv :
        {d : os.Disk} {next : ℕ} {refs pend : List Ptr} {reserved : List ℕ}
        → Inv os U d next refs pend reserved ix
        → Inv os U d next refs pend reserved (placed ix p m slot)
    placed-Inv v = record {
      distinct_hash = v.distinct_hash;
      distinct_file = v.distinct_file;
      fresh = λ q h. ground (arith, v.fresh q h, live);
      hashed = λ h q e. let (n, s, t) = v.hashed h q e in (n, Published-placed q n s, t);
      linked = λ k q e. let (n, s) = v.linked k q e in (n, Published-placed q n s);
      held = λ q h. placed-live q (v.held q h);
      stored = λ q n h. v.stored q n (placed-Published q n h);
      counted = λ q n h. ground (arith, v.counted q n, v.counted p m live, h);
      positive = λ q n h. ground (arith, v.positive q n, v.positive p m live, h);
      owned = λ q n h. ground (arith, v.owned q n, v.owned p m live, h);
      slot_once = v.slot_once;
      slot_below = v.slot_below;
      slot_used = λ q n h. v.slot_used q n (placed-Published q n h);
      slot_owner =
          λ q o n n' h k. v.slot_owner q o n n' (placed-Published q n h) (placed-Published o n' k);
    }

Forward-placed :
    (ix : Index) (p : Ptr) (m : MasterInfo) (slot : ℕ)
    → ix.infos p ≡ some m
    → Forward ix (placed ix p m slot)
Forward-placed ix p m slot live q n h = elim (Bool-cases (p == q)) [
  | inl e ↦ (record m { master_block_index = slot }, ground arith, ground arith)
  | inr e ↦ (n, ground arith, refl)
]

module _ (os : System) (U : Block → Type 0) where
  open os use {Disk}

  -- What assign_slots makes of a plan.
  pub record Assigned (d : Disk) (next : ℕ) (refs pend : List Ptr) (reserved : List ℕ)
      (plan : List PlanEntry) (slots : List ℕ) (ix : Index) (plan' : List PlanEntry) (ix' : Index)
      : Type 0 where
    pub inv : Inv os U d next refs pend reserved ix'
    pub slotted : Slotted plan plan'
    pub slots_are : slots_of plan' ≡ slots
    pub hash_same : ix'.hash_to_master ≡ ix.hash_to_master
    pub file_same : ix'.file_to_master ≡ ix.file_to_master
    pub sizes_same : ix'.file_to_sizes ≡ ix.file_to_sizes
    pub free_same : ix'.free_block_list ≡ ix.free_block_list
    pub next_same : ix'.next_info ≡ ix.next_info
    pub places : All (Placed ix') plan'
    pub untouched : (q : Ptr) → count q (pend_of plan) ≡ 0 → ix'.infos q ≡ ix.infos q
    pub forward : Forward ix ix'

  module _ (d : Disk) (next : ℕ) (refs pend : List Ptr) (reserved : List ℕ) where
    abbrev Result : List PlanEntry → List ℕ → Index → Type 0
    Result plan slots ix =
        (plan' : List PlanEntry) × (ix' : Index) × (assign_slots plan slots ix ≡ some (plan', ix'))
        × Assigned d next refs pend reserved plan slots ix plan' ix'

    assign-hit :
        (e : PlanEntry) (rest : List PlanEntry) (slots : List ℕ) (ix : Index)
        → e.kind ≡ hit
        → Result rest slots ix
        → Result (e ∷ rest) slots ix
    unfolding assign_slots
    assign-hit e rest slots ix k (plan', ix', run, a) = (
      e ∷ plan',
      ix',
      run_hit slots run,
      record {
        inv = a.inv;
        slotted = ((refl, refl, refl, refl, refl), a.slotted);
        slots_are = ground (arith, a.slots_are);
        hash_same = a.hash_same;
        file_same = a.file_same;
        sizes_same = a.sizes_same;
        free_same = a.free_same;
        next_same = a.next_same;
        places = (ground arith, a.places);
        untouched = λ q h. a.untouched q (ground arith);
        forward = a.forward;
      },
    )
      where
        run_hit :
            (slots : List ℕ)
            → assign_slots rest slots ix ≡ some (plan', ix')
            → assign_slots (e ∷ rest) slots ix ≡ some (e ∷ plan', ix')
        run_hit [] r = ground (arith, r)
        run_hit (slot ∷ slots) r = ground (arith, r)

    assign-miss :
        (e : PlanEntry) (rest : List PlanEntry) (slot : ℕ) (slots : List ℕ) (ix : Index)
        (m : MasterInfo)
        → e.kind ≡ miss
        → ix.infos e.info ≡ some m
        → m.hash ≡ e.hash
        → Rising (suc e.info) rest
        → Result rest slots (placed ix e.info m slot)
        → Result (e ∷ rest) (slot ∷ slots) ix
    unfolding assign_slots
    assign-miss e rest slot slots ix m k live same rising (plan', ix', run, a) = (
      record e { master_blk = slot } ∷ plan',
      ix',
      ground (arith, live, run),
      record {
        inv = a.inv;
        slotted = ((refl, refl, refl, refl, refl), a.slotted);
        slots_are = ground (arith, a.slots_are);
        hash_same = a.hash_same;
        file_same = a.file_same;
        sizes_same = a.sizes_same;
        free_same = a.free_same;
        next_same = a.next_same;
        places = (rw k (record m { master_block_index = slot }, placed_at, same, refl), a.places);
        untouched = λ q h. ground (arith, a.untouched q);
        forward =
            Forward-trans ix (placed ix e.info m slot) ix' (Forward-placed ix e.info m slot live)
              a.forward;
      },
    )
      where
        placed_at : ix'.infos e.info ≡ some (record m { master_block_index = slot })
        placed_at = ground (arith, a.untouched e.info, Rising-count (suc e.info) e.info rest rising)

    -- Where there is one slot for each MISS and the MISSes are pending, assign_slots does not
    -- fault. It puts the slots, in order, into the MISSes and their MasterInfos, and changes
    -- nothing else.
    pub assign-Assigned :
        (bound : Ptr) (plan : List PlanEntry) (slots : List ℕ) (ix : Index)
        → Inv os U d next refs pend reserved ix
        → length slots ≡ miss_count plan
        → Unlisted ix.hash_to_master plan
        → Rising bound plan
        → All (Live ix) plan
        → Result plan slots ix
    unfolding miss_count assign_slots
    assign-Assigned bound [] [] ix v n u r l = (
      [],
      ix,
      refl,
      record {
        inv = v;
        slotted = tt;
        slots_are = refl;
        hash_same = refl;
        file_same = refl;
        sizes_same = refl;
        free_same = refl;
        next_same = refl;
        places = tt;
        untouched = λ q h. refl;
        forward = λ q m h. (m, h, refl);
      },
    )
    assign-Assigned bound [] (s ∷ slots) ix v n u r l = absurd (omega arith)
    assign-Assigned bound (e ∷ rest) [] ix v n u r (le, l) = elim (kind_cases e.kind) [
      | inl k ↦
          assign-hit e rest [] ix k
            (assign-Assigned bound rest [] ix v (ground arith) (ground arith) (ground arith) l)
      | inr k ↦ absurd (ground arith)
    ]
    assign-Assigned bound (e ∷ rest) (s ∷ slots) ix v n u r ((m, live, same), l) =
        elim (kind_cases e.kind) [
          | inl k ↦
              assign-hit e rest (s ∷ slots) ix k (
                assign-Assigned bound rest (s ∷ slots) ix v (ground arith) (rw k at u) (rw k at r)
                  l)
          | inr k ↦
              let rising : Rising (suc e.info) rest = (rw k at r).1 in
              assign-miss e rest s slots ix m k live same rising (
                assign-Assigned (suc e.info) rest slots (placed ix e.info m s)
                  (placed-Inv ix e.info m s live (rw same (rw k at u).0) os U v) (ground arith)
                  (rw k at u).1 rising
                  (Live-Forward ix (placed ix e.info m s) rest (Forward-placed ix e.info m s live)
                    l))
        ]
