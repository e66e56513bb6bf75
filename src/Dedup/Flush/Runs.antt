-- ===== src/Dedup/Flush/Runs.antt =====
-- What flush_plan does to the master file.
use dedup_block_fs.Base.{
  ℕ, ◌+◌, ◌*◌, ◌^◌, ◌≤◌, ◌<◌, ◌≡◌, refl, ◌∙◌, inl, inr, true, false, Bool-cases, Option, none, some,
  List, [], ◌∷◌, All, count, arith,
}
use dedup_block_fs.Base.Int.{ℤ, is_neg}
use native.Mathlib.Nat.{add-zero}
use dedup_block_fs.System.{System, Buffer, Ssize, moved, failed, block_size, mul64}
use dedup_block_fs.Dedup.Plan.{PlanEntry, hit, miss}
use dedup_block_fs.Dedup.Plan.Entries.{slots_of, kind_cases}
use dedup_block_fs.Dedup.Flush.{
  Run, emit_run, flush_from, flush_plan, joins, extend, open_run, write_status,
}

-- The payloads of a plan are consecutive blocks of the buffer, from block `i` on.
abbrev pub Consecutive : ℕ → List PlanEntry → Type 0
Consecutive i [] = Unit
Consecutive i (e ∷ rest) = (e.payload ≡ i) × Consecutive (i + 1) rest

-- Slots below this bound have byte offsets below 2^63.
abbrev pub max_slot : ℕ
max_slot = 2 ^ 51

abbrev pub InRun : Run → ℕ → Type 0
InRun r s = (r.start ≤ s) × (s < r.start + r.run_len)

-- A run that ends at block `i` of the buffer.
pub record RunOk (i : ℕ) (r : Run) : Type 0 where
  pub nonempty : 0 < r.run_len
  pub last_is : r.last + 1 ≡ r.start + r.run_len
  pub payload_is : r.payload + r.run_len ≡ i
  pub bounded : r.start + r.run_len ≤ max_slot

full_write : (w : Ssize) (n : ℕ) → is_neg (write_status w n) ≡ false → w ≡ moved n
full_write (moved m) n h = ground arith
full_write (failed e) n h = ground arith

-- Without an open run there is nothing to say.
abbrev pub OptOk : ℕ → Option Run → Type 0
OptOk i none = Unit
OptOk i (some r) = RunOk i r

abbrev pub InOpt : Option Run → ℕ → Type 0
InOpt none s = ⊥
InOpt (some r) s = InRun r s

-- No slot is given to two MISSes, and every slot is below the bound.
abbrev pub SlotsOk : List PlanEntry → Type 0
SlotsOk plan =
    (s : ℕ) → (count s (slots_of plan) ≤ 1) × (0 < count s (slots_of plan) → s < max_slot)

module _ (os : System) (buf : Buffer) where
  open os use {Disk, block, pwrite, pwrite_data, pwrite_frame}

  -- The master file has the block of the buffer at every slot of the run.
  abbrev pub RunWritten : Disk → Run → Type 0
  RunWritten d r = (j : ℕ) → j < r.run_len → block d (r.start + j) ≡ buf (r.payload + j)

  -- The slot of a MISS holds its payload.
  abbrev pub Written : Disk → PlanEntry → Type 0
  Written d e = elim e.kind [ hit ↦ Unit | miss ↦ block d e.master_blk ≡ buf e.payload ]

  offset_is : (r : Run) (i : ℕ) → RunOk i r → mul64 r.start block_size ≡ r.start * block_size
  offset_is r i ok = omega arith

  emit_run-frame :
      (d : Disk) (r : Run) (i s : ℕ)
      → RunOk i r
      → ¬ InRun r s
      → block (emit_run os buf d (some r)).1 s ≡ block d s
  unfolding emit_run
  emit_run-frame d r i s ok out =
      rw (offset_is r i ok)
        (pwrite_frame d (λ i. buf (r.payload + i)) r.run_len r.start s (ground arith))

  emit_run-data :
      (d : Disk) (r : Run) (i : ℕ)
      → RunOk i r
      → is_neg (emit_run os buf d (some r)).0 ≡ false
      → RunWritten (emit_run os buf d (some r)).1 r
  unfolding emit_run
  emit_run-data d r i ok done j h = rw (offset_is r i ok) (
      pwrite_data d (λ i. buf (r.payload + i)) r.run_len r.start j
        (full_write _ _ (rw (offset_is r i ok) at done)) h)

  abbrev OptWritten : Disk → Option Run → Type 0
  OptWritten d none = Unit
  OptWritten d (some r) = RunWritten d r

  -- What the rest of a flush makes of the master file.
  pub record Flushed (d : Disk) (run : Option Run) (plan : List PlanEntry) (res : ℤ × Disk)
      : Type 0 where
    pub frame : (s : ℕ) → ¬ InOpt run s → count s (slots_of plan) ≡ 0 → block res.1 s ≡ block d s
    pub run_data : is_neg res.0 ≡ false → OptWritten res.1 run
    pub plan_data : is_neg res.0 ≡ false → All (Written res.1) plan

  open-Ok :
      (i : ℕ) (e : PlanEntry) (rest : List PlanEntry)
      → e.payload ≡ i
      → SlotsOk (e ∷ rest)
      → OptOk (i + 1) (open_run e)
  open-Ok i e rest p ok = elim (kind_cases e.kind) [
    | inl k ↦ rw k tt
    | inr k ↦ rw k (record {
      nonempty = omega arith;
      last_is = refl;
      payload_is = omega arith;
      bounded = ground (arith, k, ok e.master_blk);
    })
  ]

  open-Written : (d : Disk) (e : PlanEntry) → OptWritten d (open_run e) → Written d e
  open-Written d e w = elim (kind_cases e.kind) [
    | inl k ↦ rw k tt
    | inr k ↦ rw k (simp add-zero at ((rw k at w) 0 (omega arith)))
  ]

  outside :
      (e : PlanEntry) (rest : List PlanEntry) (s : ℕ)
      → count s (slots_of (e ∷ rest)) ≡ 0
      → ¬ InOpt (open_run e) s
  outside e rest s z = elim (kind_cases e.kind) [
    | inl k ↦ rw k (λ h. h)
    | inr k ↦ rw k (λ h. ground (arith, k, z))
  ]

  rest-zero :
      (e : PlanEntry) (rest : List PlanEntry) (s : ℕ)
      → count s (slots_of (e ∷ rest)) ≡ 0
      → count s (slots_of rest) ≡ 0
  rest-zero e rest s z = ground (arith, z)

  module _ (d : Disk) (r : Run) (i : ℕ) (e : PlanEntry) (rest : List PlanEntry) (ok : RunOk i r)
      (payload : e.payload ≡ i) (slots : SlotsOk (e ∷ rest)) where
    joins-is : joins r e ≡ true → (e.kind ≡ miss) × (e.master_blk ≡ r.start + r.run_len)
    joins-is j = ground (arith, ok.last_is, ok.bounded)

    joined-Ok : joins r e ≡ true → RunOk (i + 1) (extend r e)
    joined-Ok j = record {
      nonempty = omega arith;
      last_is = omega (arith, (joins-is j).1);
      payload_is = omega (arith, ok.payload_is);
      bounded = ground (arith, joins-is j, slots e.master_blk);
    }

    joined-Flushed :
        (res : ℤ × Disk)
        → joins r e ≡ true
        → Flushed d (some (extend r e)) rest res
        → Flushed d (some r) (e ∷ rest) res
    joined-Flushed res j f = record {
      frame = λ s out z.
          f.frame s (λ h. out (ground (arith, joins-is j, h, z))) (ground (arith, joins-is j, z));
      run_data = λ fine k h. f.run_data fine k (omega arith);
      plan_data = λ fine. (
        rw (joins-is j).0 (
            rw ((joins-is j).1, payload, ← ok.payload_is)
              (f.run_data fine r.run_len (omega arith))),
        f.plan_data fine,
      );
    }

    -- The slots of the rest lie outside the run.
    abbrev Apart : Type 0
    Apart = (s : ℕ) → InRun r s → count s (slots_of (e ∷ rest)) ≡ 0

    stopped-Flushed :
        Apart
        → is_neg (emit_run os buf d (some r)).0 ≡ true
        → Flushed d (some r) (e ∷ rest) (emit_run os buf d (some r))
    stopped-Flushed apart bad = record {
      frame = λ s out z. emit_run-frame d r i s ok out;
      run_data = λ fine. absurd (ground arith);
      plan_data = λ fine. absurd (ground arith);
    }

    went_on-Flushed :
        (res : ℤ × Disk)
        → Apart
        → is_neg (emit_run os buf d (some r)).0 ≡ false
        → Flushed (emit_run os buf d (some r)).1 (open_run e) rest res
        → Flushed d (some r) (e ∷ rest) res
    went_on-Flushed res apart fine f = record {
      frame = λ s out z.
          f.frame s (outside e rest s z) (rest-zero e rest s z) ∙ emit_run-frame d r i s ok out;
      run_data = λ fine' j h.
          let z = apart (r.start + j) (omega arith, omega arith) in
          f.frame (r.start + j) (outside e rest (r.start + j) z) (rest-zero e rest (r.start + j) z)
          ∙ emit_run-data d r i ok fine j h;
      plan_data = λ fine'. (open-Written res.1 e (f.run_data fine'), f.plan_data fine');
    }

  SlotsOk-rest : (e : PlanEntry) (rest : List PlanEntry) → SlotsOk (e ∷ rest) → SlotsOk rest
  SlotsOk-rest e rest ok s = (ground (arith, ok s), λ h. ground (arith, ok s, h))

  OptApart : Option Run → List PlanEntry → Type 0
  OptApart run plan = (s : ℕ) → InOpt run s → count s (slots_of plan) ≡ 0

  open-Apart :
      (e : PlanEntry) (rest : List PlanEntry) → SlotsOk (e ∷ rest) → OptApart (open_run e) rest
  unfolding OptApart
  open-Apart e rest ok s = elim (kind_cases e.kind) [
    | inl k ↦ rw k (λ h. absurd h)
    | inr k ↦ rw k (λ h. ground (arith, k, ok s, h))
  ]

  extend-Apart :
      (r : Run) (e : PlanEntry) (rest : List PlanEntry)
      → (e.kind ≡ miss) × (e.master_blk ≡ r.start + r.run_len)
      → SlotsOk (e ∷ rest)
      → OptApart (some r) (e ∷ rest)
      → OptApart (some (extend r e)) rest
  unfolding OptApart
  extend-Apart r e rest (k, at') ok apart s h = ground (arith, k, at', ok s, apart s, h)

  flush_from-Flushed :
      (d : Disk) (run : Option Run) (i : ℕ) (plan : List PlanEntry)
      → OptOk i run
      → Consecutive i plan
      → SlotsOk plan
      → OptApart run plan
      → Flushed d run plan (flush_from os buf d run plan)
  unfolding flush_from OptApart
  flush_from-Flushed d none i [] ok c slots apart = record {
    frame = λ s out z. refl;
    run_data = λ fine. tt;
    plan_data = λ fine. tt;
  }
  flush_from-Flushed d (some r) i [] ok c slots apart = record {
    frame = λ s out z. emit_run-frame d r i s ok out;
    run_data = λ fine. emit_run-data d r i ok fine;
    plan_data = λ fine. tt;
  }
  flush_from-Flushed d none i (e ∷ rest) ok (p, c) slots apart =
      let f =
        flush_from-Flushed d (open_run e) (i + 1) rest (open-Ok i e rest p slots) c
          (SlotsOk-rest e rest slots) (open-Apart e rest slots) in
      record {
        frame = λ s out z. f.frame s (outside e rest s z) (rest-zero e rest s z);
        run_data = λ fine. tt;
        plan_data = λ fine. (open-Written _ e (f.run_data fine), f.plan_data fine);
      }
  flush_from-Flushed d (some r) i (e ∷ rest) ok (p, c) slots apart = elim (Bool-cases (joins r e)) [
    | inl j ↦ rw j (
        joined-Flushed d r i e rest ok p slots _ j (
          flush_from-Flushed d (some (extend r e)) (i + 1) rest
            (joined-Ok d r i e rest ok p slots j) c (SlotsOk-rest e rest slots)
            (extend-Apart r e rest (joins-is d r i e rest ok p slots j) slots apart)))
    | inr j ↦ elim (Bool-cases (is_neg (emit_run os buf d (some r)).0)) [
      | inl bad ↦ rw (j, bad) (stopped-Flushed d r i e rest ok p slots apart bad)
      | inr fine ↦
          rw (j, fine)
            (went_on-Flushed d r i e rest ok p slots _ apart fine (
              flush_from-Flushed (emit_run os buf d (some r)).1 (open_run e) (i + 1) rest
                (open-Ok i e rest p slots) c (SlotsOk-rest e rest slots) (open-Apart e rest slots)))
    ]
  ]

  -- Where every slot of the plan is below the bound and given once, and the payloads are
  -- consecutive, flush_plan changes no block of the master file outside the slots of the plan; and
  -- if it returns no error, the slot of every MISS holds the payload of that MISS.
  pub flush_plan-Flushed :
      (d : Disk) (i : ℕ) (plan : List PlanEntry)
      → Consecutive i plan
      → SlotsOk plan
      → Flushed d none plan (flush_plan os buf d plan)
  unfolding flush_plan OptApart
  flush_plan-Flushed d i plan c slots =
      flush_from-Flushed d none i plan tt c slots (λ s h. absurd h)
