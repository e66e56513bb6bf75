-- ===== src/Dedup/Write/Prepare.antt =====
-- Pass 1.5 as a whole: every MISS of the plan gets a slot.
use dedup_block_fs.Base.{
  ℕ, ◌+◌, ◌-◌, ◌^◌, ◌≤◌, ◌<◌, ◌≡◌, refl, inl, inr, true, false, Bool-cases, some, List, [], ◌∷◌,
  ◌++◌, ltb, All, count, arith,
}
use mathlib.Core.List.{append-nil}
use dedup_block_fs.Keys.{bytes_key}
use dedup_block_fs.Index.{Index, Ptr}
use dedup_block_fs.Index.Inv.{Inv, recount}
use dedup_block_fs.System.{System, Block}
use dedup_block_fs.Dedup.Plan.{PlanEntry, miss_count}
use dedup_block_fs.Dedup.Plan.Entries.{
  pend_of, slots_of, Slotted, Placed, Unlisted, Rising, Live, Live-Forward, Forward, kind_cases,
}
use dedup_block_fs.Dedup.Alloc.{allocate_batch_storage_first}
use dedup_block_fs.Dedup.Alloc.Slots.{in_slots, allocate-Conserved, allocate-Inv}
use dedup_block_fs.Dedup.Alloc.Assign.{assign-Assigned}
use dedup_block_fs.Dedup.Write.{Store, allocate}

Slotted-refl : (plan : List PlanEntry) → Slotted plan plan
Slotted-refl [] = tt
Slotted-refl (e ∷ rest) = ((refl, refl, refl, refl, refl), Slotted-refl rest)

-- A plan without MISSes has no slots, and nothing to place.
no_slots : (plan : List PlanEntry) → miss_count plan ≡ 0 → slots_of plan ≡ []
unfolding miss_count
no_slots [] h = refl
no_slots (e ∷ rest) h = ground (arith, no_slots rest)

no_places : (ix : Index) (plan : List PlanEntry) → miss_count plan ≡ 0 → All (Placed ix) plan
unfolding miss_count
no_places ix [] h = tt
no_places ix (e ∷ rest) h = elim (kind_cases e.kind) [
  | inl k ↦ (ground arith, no_places ix rest (ground arith))
  | inr k ↦ absurd (ground arith)
]

module _ (os : System) (U : Block → Type 0) where
  open os use {Disk}

  reserve :
      {d : Disk} {next : ℕ} {refs pend : List Ptr} {ix : Index} (slots given : List ℕ)
      → slots ≡ given
      → Inv os U d next refs pend (given ++ []) ix
      → Inv os U d next refs pend slots ix
  reserve {refs} {pend} slots given same v =
      recount os U refs pend slots (λ r. refl) (λ r. refl) (λ s. rw (append-nil, same)) v

  -- What pass 1.5 makes of a plan and of the store.
  pub record Prepared (refs pend : List Ptr) (plan : List PlanEntry) (st : Store Disk)
      (plan' : List PlanEntry) (st' : Store Disk) : Type 0 where
    pub inv : Inv os U st'.disk st'.next_block_index refs pend (slots_of plan') st'.index
    pub slotted : Slotted plan plan'
    pub places : All (Placed st'.index) plan'
    pub disk_same : st'.disk ≡ st.disk
    pub hash_same : st'.index.hash_to_master ≡ st.index.hash_to_master
    pub file_same : st'.index.file_to_master ≡ st.index.file_to_master
    pub sizes_same : st'.index.file_to_sizes ≡ st.index.file_to_sizes
    pub next_same : st'.index.next_info ≡ st.index.next_info
    pub untouched : (q : Ptr) → count q (pend_of plan) ≡ 0 → st'.index.infos q ≡ st.index.infos q
    pub forward : Forward st.index st'.index
    pub next_bound : st'.next_block_index ≤ st.next_block_index + miss_count plan
    pub taken :
        (s : ℕ)
        → count s st'.index.free_block_list + count s (slots_of plan')
          ≡ count s st.index.free_block_list
            + in_slots st.next_block_index (st'.next_block_index - st.next_block_index) s

  module _ (bound : Ptr) (refs pend : List Ptr) (plan : List PlanEntry) (st : Store Disk)
      (v : Inv os U st.disk st.next_block_index refs pend [] st.index)
      (room : st.next_block_index + miss_count plan < 2 ^ 64)
      (new : Unlisted st.index.hash_to_master plan) (rising : Rising bound plan)
      (live : All (Live st.index) plan) where
    abbrev Result : Type 0
    Result =
        (plan' : List PlanEntry) × (st' : Store Disk) × (allocate os plan st ≡ some (plan', st'))
        × Prepared refs pend plan st plan' st'

    nothing_new : ltb 0 (miss_count plan) ≡ false → Result
    unfolding allocate
    nothing_new e =
        let no_miss : miss_count plan ≡ 0 = ground arith in
        (
          plan,
          st,
          rw e,
          record {
            inv = rw (no_slots plan no_miss) v;
            slotted = Slotted-refl plan;
            places = no_places st.index plan no_miss;
            disk_same = refl;
            hash_same = refl;
            file_same = refl;
            sizes_same = refl;
            next_same = refl;
            untouched = λ q h. refl;
            forward = λ q m h. (m, h, refl);
            next_bound = omega arith;
            taken = λ s. rw (no_slots plan no_miss) (ground arith);
          },
        )

    abbrev given : List ℕ × List ℕ × ℕ
    given =
        allocate_batch_storage_first st.index.free_block_list (miss_count plan) st.next_block_index

    some_new : ltb 0 (miss_count plan) ≡ true → Result
    unfolding allocate
    some_new e =
        let a =
          allocate-Conserved st.index.free_block_list (miss_count plan) st.next_block_index room in
        let w = allocate-Inv os U (miss_count plan) st.next_block_index [] given a v in
        let (plan', ix', run, s) =
          assign-Assigned os U st.disk given.2 refs pend (given.0 ++ []) bound plan given.0
            (record st.index { free_block_list = given.1 }) w a.enough new rising
            (Live-Forward st.index (record st.index { free_block_list = given.1 }) plan
              (λ q m h. (m, h, refl)) live) in
        (
          plan',
          record st { index = ix'; next_block_index = given.2 },
          rw (e, run),
          record {
            inv = reserve (slots_of plan') given.0 s.slots_are s.inv;
            slotted = s.slotted;
            places = s.places;
            disk_same = refl;
            hash_same = s.hash_same;
            file_same = s.file_same;
            sizes_same = s.sizes_same;
            next_same = s.next_same;
            untouched = s.untouched;
            forward = s.forward;
            next_bound = omega (arith, a.grown);
            taken = λ t. rw (s.slots_are, s.free_same) (omega (arith, a.slots t));
          },
        )

    -- Pass 1.5 does not fault.
    pub allocate-Prepared : Result
    allocate-Prepared = elim (Bool-cases (ltb 0 (miss_count plan))) [
      | inl e ↦ some_new e
      | inr e ↦ nothing_new e
    ]
