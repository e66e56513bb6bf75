-- ===== src/Dedup/Write/Lay.antt =====
-- Passes 1 and 1.5 together: the plan of a write, with its slots.
use dedup_block_fs.Base.{
  ℕ, suc, ◌+◌, ◌-◌, count, ◌^◌, ◌≤◌, ◌<◌, ◌≡◌, refl, sym, ap, ◌∙◌, Option, none, some, List, [],
  ◌∷◌, ◌>>=◌, All, length, arith,
}
use mathlib.Core.List.{append-nil}
use dedup_block_fs.Keys.{Digest, bytes_key}
use dedup_block_fs.Table.{lookup}
use dedup_block_fs.Index.{Index, Ptr, lookup_by_hash}
use dedup_block_fs.Index.Inv.{Inv, Keeps, recount}
use dedup_block_fs.System.{System, Block, Buffer}
use dedup_block_fs.Dedup.Plan.{PlanEntry, miss_count, decide, find_existing}
use dedup_block_fs.Dedup.Plan.Entries.{
  refs_of, pend_of, slots_of, Slotted, Slotted-refs, Slotted-pend, Slotted-Covers, Slotted-Fresh,
  Placed, Live, Live-Forward, Covers, Fresh, Fresh-Unlisted, Rising, Rising-count,
}
use dedup_block_fs.Dedup.Plan.Decide.{Decided, decide-Decided, Pending}
use dedup_block_fs.Dedup.Alloc.Slots.{in_slots}
use dedup_block_fs.Dedup.Write.{Store, allocate}
use dedup_block_fs.Dedup.Write.Prepare.{Prepared, allocate-Prepared}

Slotted-length : (es fs : List PlanEntry) → Slotted es fs → length fs ≡ length es
Slotted-length [] [] s = refl
Slotted-length [] (f ∷ fs) s = absurd s
Slotted-length (e ∷ es) [] s = absurd s
Slotted-length (e ∷ es) (f ∷ fs) s = ap suc (Slotted-length es fs s.1)

Slotted-Live :
    (ix : Index) (es fs : List PlanEntry) → Slotted es fs → All (Live ix) es → All (Live ix) fs
Slotted-Live ix [] [] s l = tt
Slotted-Live ix [] (f ∷ fs) s l = absurd s
Slotted-Live ix (e ∷ es) [] s l = absurd s
Slotted-Live ix (e ∷ es) (f ∷ fs) ((k, b, p, h, n), s) ((m, live, same), l) =
    ((m, ap ix.infos n ∙ live, same ∙ sym h), Slotted-Live ix es fs s l)

Slotted-Rising :
    (bound : Ptr) (es fs : List PlanEntry) → Slotted es fs → Rising bound es → Rising bound fs
Slotted-Rising bound [] [] s r = tt
Slotted-Rising bound [] (f ∷ fs) s r = absurd s
Slotted-Rising bound (e ∷ es) [] s r = absurd s
Slotted-Rising bound (e ∷ es) (f ∷ fs) s r =
    ground (arith, Slotted-Rising bound es fs s.1, Slotted-Rising (suc e.info) es fs s.1)

misses-le-length : (plan : List PlanEntry) → miss_count plan ≤ length plan
unfolding miss_count
misses-le-length [] = omega arith
misses-le-length (e ∷ rest) = ground (arith, misses-le-length rest)

nothing_known : (ix : Index) → Pending ix []
unfolding lookup
nothing_known ix h p e = absurd (ground arith)

all_listed :
    (ix : Index) (h : Digest) → find_existing ix [] h ≡ none → lookup h ix.hash_to_master ≡ none
unfolding find_existing lookup_by_hash
all_listed ix h e = ground arith

module _ (os : System) (U : Block → Type 0) (buf : Buffer) (start n : ℕ) where
  open os use {Disk}

  -- A plan for the blocks of the request, with slots, against the store as it was.
  pub record Laid (st : Store Disk) (plan : List PlanEntry) (st' : Store Disk) : Type 0 where
    pub inv :
        Inv os U st.disk st'.next_block_index
          (refs_of plan)
          (pend_of plan)
          (slots_of plan)
          st'.index
    pub covers : Covers os buf start 0 plan
    pub size : length plan ≡ n
    pub fresh : Fresh st'.index.hash_to_master plan
    pub rising : Rising st.index.next_info plan
    pub places : All (Placed st'.index) plan
    pub live : All (Live st'.index) plan
    pub disk_same : st'.disk ≡ st.disk
    pub hash_same : st'.index.hash_to_master ≡ st.index.hash_to_master
    pub file_same : st'.index.file_to_master ≡ st.index.file_to_master
    pub sizes_same : st'.index.file_to_sizes ≡ st.index.file_to_sizes
    pub keeps : Keeps st.index.next_info st.index st'.index
    pub next_bound : st'.next_block_index ≤ st.next_block_index + n
    pub taken :
        (s : ℕ)
        → count s st'.index.free_block_list + count s (slots_of plan)
          ≡ count s st.index.free_block_list
            + in_slots st.next_block_index (st'.next_block_index - st.next_block_index) s

  -- Passes 1 and 1.5.
  unfoldable pub lay : Store Disk → Option (List PlanEntry × Store Disk)
  unfolding decide allocate
  lay st = do
    (plan, ix) ← decide os buf start n 0 st.index []
    allocate os plan (record st { index = ix })

  laid :
      (st st' : Store Disk) (ix : Index) (plan plan' : List PlanEntry)
      → Decided os U buf start st.disk st.next_block_index [] [] [] st.index.hash_to_master 0 n
          st.index plan ix
      → Prepared os U (refs_of plan) (pend_of plan) plan (record st { index = ix }) plan' st'
      → Laid st plan' st'
  laid st st' ix plan plan' d p = record {
    inv = rw (← p.disk_same) (
        recount os U (refs_of plan') (pend_of plan') (slots_of plan')
          (λ r. rw (Slotted-refs plan plan' p.slotted))
          (λ r. rw (Slotted-pend plan plan' p.slotted)) (λ s. refl) p.inv);
    covers = Slotted-Covers os buf start 0 plan plan' p.slotted d.covers;
    size = Slotted-length plan plan' p.slotted ∙ d.size;
    fresh =
        rw (p.hash_same, d.hash_same)
          (Slotted-Fresh st.index.hash_to_master plan plan' p.slotted d.fresh);
    rising = Slotted-Rising st.index.next_info plan plan' p.slotted d.rising;
    places = p.places;
    live =
        Slotted-Live st'.index plan plan' p.slotted
          (Live-Forward ix st'.index plan p.forward d.live);
    disk_same = p.disk_same;
    hash_same = p.hash_same ∙ d.hash_same;
    file_same = p.file_same ∙ d.file_same;
    sizes_same = p.sizes_same ∙ d.sizes_same;
    keeps = λ q m below h.
        d.keeps q m below
          (sym (p.untouched q (Rising-count st.index.next_info q plan d.rising below)) ∙ h);
    next_bound = omega (arith, p.next_bound, misses-le-length plan, d.size);
    taken = λ s.
        p.taken s
        ∙ ap
            (λ l.
              count s l
              + in_slots st.next_block_index (st'.next_block_index - st.next_block_index) s)
            d.free_same;
  }

  -- On a well-formed index that no other call holds, and where no count and no slot runs out of
  -- range, passes 1 and 1.5 do not fault. The plan covers the blocks of the request, every entry
  -- has a live MasterInfo with its digest, the MISSes have new digests and slots of their own, and
  -- the mappings, the sizes and the master file are as before.
  pub lay-Laid :
      (st : Store Disk)
      → Inv os U st.disk st.next_block_index [] [] [] st.index
      → length st.index.file_to_master + n < 2 ^ 32
      → st.next_block_index + n < 2 ^ 64
      → (plan : List PlanEntry) × (st' : Store Disk) × (lay st ≡ some (plan, st'))
        × Laid st plan st'
  unfolding lay
  lay-Laid st v room slots =
      let (plan, ix, run, d) =
        decide-Decided os U buf start st.disk st.next_block_index [] n 0 st.index []
          st.index.hash_to_master [] [] v (omega arith) (nothing_known st.index)
          (λ h e. all_listed st.index h e) in
      let w =
        recount os U (refs_of plan) (pend_of plan) [] (λ r. rw append-nil) (λ r. rw append-nil)
          (λ s. refl) d.inv in
      let (plan', st', run', p) =
        allocate-Prepared os U st.index.next_info (refs_of plan) (pend_of plan) plan
          (record st { index = ix }) w (omega (arith, misses-le-length plan, d.size))
          (rw d.hash_same (Fresh-Unlisted st.index.hash_to_master plan d.fresh)) d.rising d.live in
      (plan', st', rw (run, run'), laid st st' ix plan plan' d p)
