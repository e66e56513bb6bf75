-- ===== src/Dedup/Write/Correct.antt =====
-- write_dedup as a whole, on a store that no other call holds.
use dedup_block_fs.Base.{
  ℕ, suc, ◌+◌, ◌*◌, ◌/◌, ◌%◌, ◌^◌, ◌≤◌, ◌<◌, ◌≡◌, refl, sym, ap, ◌∙◌, subst, inl, inr, false,
  Bool-cases, Option, Option-cases, none, some, List, [], ◌∷◌, ◌==◌, ◌>>=◌, ltb, if◌then◌else◌, All,
  count, length, arith,
}
use dedup_block_fs.Base.Int.{ℤ, pos, is_neg, to_int}
use dedup_block_fs.Keys.{FilePath, BlockIndice, bytes_key, block_indice_key, bytes_equal}
use dedup_block_fs.Table.{lookup, Distinct}
use dedup_block_fs.Index.{Index, Ptr, indice, lookup_by_file_block}
use dedup_block_fs.Index.Inv.{Inv, Published, live-lt-next, rewrite_slots}
use dedup_block_fs.System.{System, Block, Buffer, block_size, add64, mul64}
use dedup_block_fs.View.{block_behind, content}
use dedup_block_fs.Dedup.Plan.{PlanEntry, miss_count, decide}
use dedup_block_fs.Dedup.Plan.Entries.{slots_of, kind_cases}
use dedup_block_fs.Dedup.Remove.Effect.{in_range}
use dedup_block_fs.Dedup.Flush.{flush_plan}
use dedup_block_fs.Dedup.Flush.Runs.{flush_plan-Flushed, SlotsOk, max_slot, Written}
use dedup_block_fs.Dedup.Write.{Store, allocate, flush_and_commit, write_dedup}
use dedup_block_fs.Dedup.Write.Finish.{Committed, consolidate-Committed, grown_size}
use dedup_block_fs.Dedup.Write.Cover.{
  Covers-Consecutive, target-in, target-out, Ready-Written, WritesFully, flush_plan-fine,
}
use dedup_block_fs.Dedup.Commit.{consolidate}
use dedup_block_fs.Dedup.Write.Lay.{Laid, lay, lay-Laid}
use dedup_block_fs.Dedup.Write.Slots.{SlotsKept, laid-SlotsKept}

module _ (os : System) (U : Block → Type 0) (path : FilePath) (buf : Buffer) (start n : ℕ) where
  open os use {Disk, block, sha512}

  -- A block that has the digest of the block `i` of the buffer, and of which `U` holds.
  abbrev pub Like : ℕ → Option Block → Type 0
  Like i found = (b : Block) × (found ≡ some b) × (sha512 b ≡ sha512 (buf i)) × U b

  -- The store after a write of `n` blocks from block `start` on.
  pub record Wrote (st st' : Store Disk) : Type 0 where
    pub inv : Inv os U st'.disk st'.next_block_index [] [] [] st'.index
    pub next_bound : st'.next_block_index ≤ st.next_block_index + n
    pub blocks : (i : ℕ) → i < n → Like i (content os st'.disk st'.index path (start + i))
    pub others :
        (path' : FilePath) (b : ℕ)
        → in_range path start n path' b ≡ false
        → content os st'.disk st'.index path' b ≡ content os st.disk st.index path' b
    pub distinct : Distinct st.index.file_to_sizes → Distinct st'.index.file_to_sizes
    pub sizes :
        (path' : FilePath)
        → lookup path' st'.index.file_to_sizes ≡ (
            if bytes_equal path path'
            then some (grown_size (lookup path st.index.file_to_sizes) ((start + n) * block_size))
            else lookup path' st.index.file_to_sizes)
    pub slots : SlotsKept st st'

  -- The master file after pass 2, or as it was where the plan has no MISS.
  abbrev pub flushed : Disk → List PlanEntry → ℤ × Disk
  flushed d plan = if ltb 0 (miss_count plan) then flush_plan os buf d plan else (pos 0, d)

  module _ (st st1 : Store Disk) (plan : List PlanEntry) (d' : Disk) (ix' : Index)
      (v : Inv os U st.disk st.next_block_index [] [] [] st.index)
      (l : Laid os U buf start n st plan st1)
      (same : (s : ℕ) → count s (slots_of plan) ≡ 0 → block d' s ≡ block st1.disk s)
      (c : Committed os U d' st1.next_block_index path plan
        ((start + n) * block_size)
        st1.index
        ix')
      (room : start + n < 2 ^ 64) where
    written_block : (i : ℕ) → i < n → Like i (content os d' ix' path (start + i))
    unfolding content block_behind lookup_by_file_block
    written_block i h =
        let k : BlockIndice = indice path (start + i) in
        let (p, m, at', live, hash) =
          target-in os buf start 0 i plan path st1.index (lookup k st1.index.file_to_master)
            l.covers l.live (omega (arith, l.size)) (omega arith) (omega (arith, l.size)) in
        let there : lookup k ix'.file_to_master ≡ some p = c.targets k ∙ at' in
        let (m', s) = c.inv.linked k p there in
        let (m0, live0, slot, hash0) = c.keeps (suc p) p m' (omega arith) s.live in
        let stored = c.inv.stored p m' s in
        (
          block d' m'.master_block_index,
          ground (arith, there, s.live),
          ground (arith, stored.digest, live, live0, hash, hash0),
          stored.known,
        )

    other_block :
        (path' : FilePath) (b : ℕ) (p : Ptr)
        → lookup (indice path' b) st.index.file_to_master ≡ some p
        → lookup (indice path' b) ix'.file_to_master ≡ some p
        → content os d' ix' path' b ≡ content os st.disk st.index path' b
    unfolding content block_behind lookup_by_file_block
    other_block path' b p e e' =
        let (m0, s0) = v.linked (indice path' b) p e in
        let below = live-lt-next os U p m0 v s0.live in
        let (m', s') = c.inv.linked (indice path' b) p e' in
        let (m1, live1, slot1, hash1) = c.keeps st.index.next_info p m' below s'.live in
        let (m2, live2, slot2, hash2) = l.keeps p m1 below live1 in
        let shown : Published st1.index p m1 = record {
          live = live1;
          listed = ground (arith, l.hash_same, s0.listed, s0.live, live2, hash2);
        } in
        let used = l.inv.slot_used p m1 shown in
        let kept : block d' m1.master_block_index ≡ block st.disk m1.master_block_index =
          same m1.master_block_index (omega (arith, used))
          ∙ ap (λ d. block d m1.master_block_index) l.disk_same in
        ground (arith, e, e', s'.live, slot1, slot2, s0.live, live2, kept)

    other_content :
        (path' : FilePath) (b : ℕ)
        → in_range path start n path' b ≡ false
        → content os d' ix' path' b ≡ content os st.disk st.index path' b
    unfolding content block_behind lookup_by_file_block
    other_content path' b out =
        let k : BlockIndice = indice path' b in
        let untouched : lookup k ix'.file_to_master ≡ lookup k st.index.file_to_master =
          c.targets k
          ∙ target-out os buf start 0 plan path path' b (lookup k st1.index.file_to_master) l.covers
              (omega (arith, l.size)) (ground (arith, out, l.size))
          ∙ ap (lookup k) l.file_same in
        elim (Option-cases (lookup k st.index.file_to_master)) [
          | inl e ↦ rw (untouched, e) refl
          | inr (p, e) ↦ other_block path' b p e (untouched ∙ e)
        ]

    wrote : Wrote st (record st1 { index = ix'; disk = d' })
    wrote = record {
      inv = c.inv;
      next_bound = l.next_bound;
      blocks = written_block;
      others = other_content;
      distinct = λ t. c.distinct (subst (λ s. Distinct s) (sym l.sizes_same) t);
      sizes = λ path'. rw (← l.sizes_same) (c.sizes path');
      slots =
          laid-SlotsKept os U buf start n st st1 plan v l (record st1 { index = ix'; disk = d' })
            refl c.no_leak;
    }

  SlotsOk-Inv :
      {d : Disk} {next : ℕ} {refs pend : List Ptr} {ix : Index} (plan : List PlanEntry)
      → Inv os U d next refs pend (slots_of plan) ix
      → next ≤ max_slot
      → SlotsOk plan
  SlotsOk-Inv plan v bound s =
      (omega (arith, v.slot_once s), λ h. omega (arith, v.slot_below s (omega arith)))

  module _ (st st1 : Store Disk) (plan : List PlanEntry) (d' : Disk) where
    -- What pass 2 leaves for pass 3.
    record Flush : Type 0 where
      frame : (s : ℕ) → count s (slots_of plan) ≡ 0 → block d' s ≡ block st1.disk s
      written : All (Written os buf d') plan

  no_miss-Written :
      (d : Disk) (plan : List PlanEntry) → miss_count plan ≡ 0 → All (Written os buf d) plan
  unfolding miss_count
  no_miss-Written d [] h = tt
  no_miss-Written d (e ∷ rest) h = elim (kind_cases e.kind) [
    | inl k ↦ (rw k tt, no_miss-Written d rest (ground arith))
    | inr k ↦ absurd (ground arith)
  ]

  -- Outside the slots of the plan the master file stays, whatever the transfers do.
  pub flushed-frame :
      (st st1 : Store Disk) (plan : List PlanEntry)
      → Laid os U buf start n st plan st1
      → st.next_block_index + n ≤ max_slot
      → (s : ℕ) → count s (slots_of plan) ≡ 0
      → block (flushed st1.disk plan).1 s ≡ block st1.disk s
  flushed-frame st st1 plan l bound s z =
      let f =
        flush_plan-Flushed os buf st1.disk 0 plan (Covers-Consecutive os buf start 0 plan l.covers)
          (SlotsOk-Inv plan l.inv (omega (arith, l.next_bound))) in
      elim (Bool-cases (ltb 0 (miss_count plan))) [
        | inl e ↦ rw e (f.frame s (λ h. h) z)
        | inr e ↦ rw e refl
      ]

  flushed-Flush :
      (st st1 : Store Disk) (plan : List PlanEntry)
      → is_neg (flushed st1.disk plan).0 ≡ false
      → Laid os U buf start n st plan st1
      → st.next_block_index + n ≤ max_slot
      → Flush st st1 plan (flushed st1.disk plan).1
  flushed-Flush st st1 plan fine l bound =
      let f =
        flush_plan-Flushed os buf st1.disk 0 plan (Covers-Consecutive os buf start 0 plan l.covers)
          (SlotsOk-Inv plan l.inv (omega (arith, l.next_bound))) in
      record {
        frame = flushed-frame st st1 plan l bound;
        written = elim (Bool-cases (ltb 0 (miss_count plan))) [
          | inl e ↦ rw e (f.plan_data (rw e at fine))
          | inr e ↦ rw e (no_miss-Written st1.disk plan (ground arith))
        ];
      }

  flushed-fine :
      WritesFully os U buf → (d : Disk) (plan : List PlanEntry) → is_neg (flushed d plan).0 ≡ false
  flushed-fine full d plan = elim (Bool-cases (ltb 0 (miss_count plan))) [
    | inl e ↦ rw e (flush_plan-fine os U buf full d plan)
    | inr e ↦ rw e refl
  ]

  pass3-runs :
      (st1 : Store Disk) (plan : List PlanEntry) (ix' : Index)
      → is_neg (flushed st1.disk plan).0 ≡ false
      → consolidate path plan (mul64 (add64 start n) block_size) st1.index ≡ some ix'
      → flush_and_commit os path buf start n plan st1
        ≡ some
            (to_int (n * block_size), record st1 { index = ix'; disk = (flushed st1.disk plan).1 })
  unfolding flush_and_commit
  pass3-runs st1 plan ix' fine run = rw (fine, run) refl

  pub commit-Wrote :
      (st st1 : Store Disk) (plan : List PlanEntry)
      → Inv os U st.disk st.next_block_index [] [] [] st.index
      → is_neg (flushed st1.disk plan).0 ≡ false
      → Laid os U buf start n st plan st1
      → ((i : ℕ) → i < n → U (buf i))
      → st.next_block_index + n ≤ max_slot
      → (start + n) * block_size < 2 ^ 64
      → (st' : Store Disk) × (flush_and_commit os path buf start n plan st1
          ≡ some (to_int (n * block_size), st'))
        × Wrote st st'
  unfolding flush_and_commit
  commit-Wrote st st1 plan v fine l u bound room =
      let f = flushed-Flush st st1 plan fine l bound in
      let d' = (flushed st1.disk plan).1 in
      let w = rewrite_slots os U d' (λ s z. f.frame s z ∙ ap (λ d. block d s) l.disk_same) l.inv in
      let (ix', run, c) =
        consolidate-Committed os U d' st1.next_block_index path plan ((start + n) * block_size)
          st1.index w l.fresh
          (Ready-Written os U buf d' st1.index start 0 plan l.covers
            (λ j low high. u j (omega (arith, l.size))) l.places f.written) in
      let end_is : mul64 (add64 start n) block_size ≡ (start + n) * block_size = omega arith in
      (
        record st1 { index = ix'; disk = d' },
        pass3-runs st1 plan ix' fine (rw end_is run),
        wrote st st1 plan d' ix' v l f.frame c (omega arith),
      )

  chained :
      {A B C : Type 0} (o : Option A) (f : A → Option B) (g : B → Option C) (b : B)
      → ◌>>=◌ o f ≡ some b
      → ◌>>=◌ o (λ a. ◌>>=◌ (f a) g) ≡ g b
  chained none f g b e = absurd (ground (arith, e))
  chained (some a) f g b e = rw e refl

  pub write_dedup-runs :
      (st st1 : Store Disk) (plan : List PlanEntry)
      → 0 < n
      → lay os U buf start n st ≡ some (plan, st1)
      → write_dedup os st path buf (n * block_size) (start * block_size)
        ≡ flush_and_commit os path buf start n plan st1
  unfolding write_dedup lay
  write_dedup-runs st st1 plan some_blocks run =
      let blocks : n * block_size / block_size ≡ n = omega arith in
      let first : start * block_size / block_size ≡ start = omega arith in
      let whole : n * block_size % block_size ≡ 0 = omega arith in
      let any : (n * block_size == 0) ≡ false = ground arith in
      let any' : (n == 0) ≡ false = ground arith in
      rw (any, blocks, first, whole, any')
        (chained (decide os buf start n 0 st.index [])
          (λ r. allocate os r.0 (record st { index = r.1 }))
          (λ r. flush_and_commit os path buf start n r.0 r.1) (plan, st1) run)

  -- On a well-formed index, a write of `n` whole blocks at a block boundary, where no other call is
  -- under way, no count and no index runs out of range and the master file takes every write in
  -- full, returns the size. The index is well formed after it, every block of the range reads as a
  -- block with the digest of the block of the buffer, every other block of every file reads as
  -- before, and the size grows to the end of the write where it was smaller; no slot of the master
  -- file is lost. With `U b` for "no other block has the digest of `b`", the block that is read is
  -- the block that was written.
  pub write_dedup-Wrote :
      (st : Store Disk)
      → Inv os U st.disk st.next_block_index [] [] [] st.index
      → WritesFully os U buf
      → ((i : ℕ) → i < n → U (buf i))
      → 0 < n
      → length st.index.file_to_master + n < 2 ^ 32
      → st.next_block_index + n ≤ max_slot
      → (start + n) * block_size < 2 ^ 64
      → (st' : Store Disk) × (write_dedup os st path buf (n * block_size) (start * block_size)
          ≡ some (to_int (n * block_size), st'))
        × Wrote st st'
  write_dedup-Wrote st v full u some_blocks count slots room =
      let (plan, st1, run, l) = lay-Laid os U buf start n st v count (omega arith) in
      let (st', run', w) =
        commit-Wrote st st1 plan v (flushed-fine full st1.disk plan) l u slots room in
      (st', write_dedup-runs st st1 plan some_blocks run ∙ run', w)
