-- ===== src/Dedup/Flush.antt =====
-- src/dedup.c, flush_plan.
pub mod Runs
use dedup_block_fs.Base.{
  ℕ, suc, ◌+◌, ◌*◌, Bool, true, false, ◌&&◌, Option, none, some, List, [], ◌∷◌, ◌==◌, if◌then◌else◌,
}
use dedup_block_fs.Base.Int.{ℤ, pos, negsuc, is_neg}
use dedup_block_fs.System.{System, Buffer, Ssize, moved, failed, block_size, add64, mul64}
use dedup_block_fs.Dedup.Plan.{PlanEntry, PlanKind, hit, miss, is_miss}
use dedup_block_fs.Dedup.Read.{eio}

-- A run that is being built: the master block and the payload of its first MISS, run_len, and the
-- master block of its last MISS, plan[i - 1].master_blk.
pub record Run : Type 0 where
  pub start : ℕ
  pub payload : ℕ
  pub run_len : ℕ
  pub last : ℕ

-- The test of the inner while.
abbrev pub joins : Run → PlanEntry → Bool
joins r e = is_miss e && (e.master_blk == add64 r.last 1)

abbrev pub extend : Run → PlanEntry → Run
extend r e = record r { run_len = r.run_len + 1; last = e.master_blk }

-- What the loop goes on with at an entry that joins no run: a HIT is skipped, a MISS starts a run.
abbrev pub open_run : PlanEntry → Option Run
open_run e = elim e.kind [
  | hit ↦ none
  | miss ↦
      some (record { start = e.master_blk; payload = e.payload; run_len = 1; last = e.master_blk })
]

-- `written != bytes` and the error code: -errno for a failed call, -EIO for a short one.
abbrev pub write_status : Ssize → ℕ → ℤ
write_status (moved m) bytes = if m == bytes then pos 0 else eio
write_status (failed e) bytes = negsuc e

module _ (os : System) (buf : Buffer) where
  open os use {Disk, pwrite}

  -- One pwrite for the run; nothing where no run is open.
  unfoldable pub emit_run : Disk → Option Run → ℤ × Disk
  emit_run d none = (pos 0, d)
  emit_run d (some r) =
      let bytes = r.run_len * block_size in
      let (written, d') = pwrite d (λ i. buf (r.payload + i)) bytes (mul64 r.start block_size) in
      (write_status written bytes, d')

  -- `run` is the run that ends at the current entry. Each entry either joins it, or ends it: then
  -- the run goes to the master file, and an error stops the flush.
  unfoldable pub flush_from : Disk → Option Run → List PlanEntry → ℤ × Disk
  unfolding emit_run
  flush_from d run [] = emit_run d run
  flush_from d none (e ∷ rest) = flush_from d (open_run e) rest
  flush_from d (some r) (e ∷ rest) =
      let longer = flush_from d (some (extend r e)) rest in
      let (rc, d') = emit_run d (some r) in
      let next = flush_from d' (open_run e) rest in
      if joins r e then longer else (if is_neg rc then (rc, d') else next)

  -- 0 on success, a negative error code otherwise.
  unfoldable pub flush_plan : Disk → List PlanEntry → ℤ × Disk
  unfolding flush_from
  flush_plan d plan = flush_from d none plan
