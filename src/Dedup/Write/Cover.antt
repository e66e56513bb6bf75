-- ===== src/Dedup/Write/Cover.antt =====
-- What follows for a plan from the blocks that it covers.
use dedup_block_fs.Base.{
  ℕ, ◌+◌, ◌*◌, ◌^◌, ◌≤◌, ◌<◌, ◌≡◌, refl, sym, ap, ◌∙◌, subst, inl, inr, true, false, Bool-cases,
  Option, none, some, List, [], ◌∷◌, ◌==◌, All, length, arith,
}
use dedup_block_fs.Base.Int.{is_neg}
use dedup_block_fs.Keys.{FilePath, block_indice_equal, bytes_equal, bytes_equal_iff}
use dedup_block_fs.Index.{Index, Ptr, MasterInfo, indice}
use dedup_block_fs.System.{System, Block, Buffer, moved, mul64, block_size}
use dedup_block_fs.Dedup.Plan.{PlanEntry}
use dedup_block_fs.Dedup.Plan.Entries.{Placed, Covers, Live, kind_cases}
use dedup_block_fs.Dedup.Remove.Effect.{in_range, one-equal}
use dedup_block_fs.Dedup.Flush.{Run, emit_run, flush_from, flush_plan, joins, extend, open_run}
use dedup_block_fs.Dedup.Flush.Runs.{Consecutive, Written}
use dedup_block_fs.Dedup.Commit.Publish.{Ready}
use dedup_block_fs.Dedup.Commit.Link.{target}

pub Covers-Consecutive :
    (os : System) (buf : Buffer) (start i : ℕ) (plan : List PlanEntry)
    → Covers os buf start i plan
    → Consecutive i plan
Covers-Consecutive os buf start i [] c = tt
Covers-Consecutive os buf start i (e ∷ rest) (d, c) =
    (d.payload_is, Covers-Consecutive os buf start (i + 1) rest c)

-- Outside the blocks of the plan the target is the old one.
pub target-out :
    (os : System) (buf : Buffer) (start i : ℕ) (plan : List PlanEntry) (path path' : FilePath)
    (b : ℕ) (old : Option Ptr)
    → Covers os buf start i plan
    → start + i + length plan < 2 ^ 64
    → in_range path (start + i) (length plan) path' b ≡ false
    → target path plan (indice path' b) old ≡ old
target-out os buf start i [] path path' b old c room out = refl
target-out os buf start i (e ∷ rest) path path' b old (d, c) room out =
    let here : e.logical_blk ≡ start + i = omega (arith, d.logical_is) in
    rw (one-equal path e.logical_blk path' b, here)
      (ground (arith, target-out os buf start (i + 1) rest path path' b old c))

-- The target of a block of the plan is a MasterInfo with the digest of the block of the buffer.
abbrev pub Hits : System → Buffer → ℕ → FilePath → List PlanEntry → Index → ℕ → Option Ptr → Type 0
Hits os buf start path plan ix j old =
    (p : Ptr) × (m : MasterInfo) × (target path plan (indice path (start + j)) old ≡ some p)
    × (ix.infos p ≡ some m)
    × (m.hash ≡ os.sha512 (buf j))

pub target-in :
    (os : System) (buf : Buffer) (start i j : ℕ) (plan : List PlanEntry) (path : FilePath)
    (ix : Index) (old : Option Ptr)
    → Covers os buf start i plan
    → All (Live ix) plan
    → start + i + length plan < 2 ^ 64
    → i ≤ j
    → j < i + length plan
    → Hits os buf start path plan ix j old
target-in os buf start i j [] path ix old c l room low high = absurd (omega arith)
target-in os buf start i j (e ∷ rest) path ix old (d, c) (le, l) room low high =
    elim (Bool-cases (i == j)) [
      | inl here ↦
          let (m, live, same) = le in
          let at' : e.logical_blk ≡ start + i = omega (arith, d.logical_is) in
          let path_equal : bytes_equal path path ≡ true = (bytes_equal_iff path path).1 refl in
          let mine : block_indice_equal (indice path e.logical_blk) (indice path (start + j))
              ≡ true =
            one-equal path e.logical_blk path (start + j) ∙ ground (arith, path_equal, at') in
          (
            e.info,
            m,
            rw mine (
                target-out os buf start (i + 1) rest path path (start + j) (some e.info) c
                  (omega arith) (ground arith)),
            live,
            ground (arith, same, d.hash_is),
          )
      | inr later ↦
          target-in os buf start (i + 1) j rest path ix _ c l (omega arith) (ground arith)
            (omega arith)
    ]

module _ (os : System) (U : Block → Type 0) (buf : Buffer) where
  open os use {Disk, block, sha512}

  pub Ready-Written :
      (d : Disk) (ix : Index) (start i : ℕ) (plan : List PlanEntry)
      → Covers os buf start i plan
      → ((j : ℕ) → i ≤ j → j < i + length plan → U (buf j))
      → All (Placed ix) plan
      → All (Written os buf d) plan
      → All (Ready os U d ix) plan
  Ready-Written d ix start i [] c u p w = tt
  Ready-Written d ix start i (e ∷ rest) (de, c) u (p, ps) (w, ws) = (
    elim (kind_cases e.kind) [
      | inl k ↦ rw k tt
      | inr k ↦
          let (m, live, same, slot) = (rw k at p) in
          let same_block : block d m.master_block_index ≡ buf i =
            ap (block d) slot ∙ (rw k at w) ∙ ap buf de.payload_is in
          rw k (
            m,
            live,
            same,
            slot,
            record {
              digest = ap sha512 same_block ∙ sym de.hash_is ∙ sym same;
              known = subst U (sym same_block) (u i (omega arith) (omega arith));
            },
          )
    ],
    Ready-Written d ix start (i + 1) rest c (λ j low high. u j (omega arith) (omega arith)) ps ws,
  )

  -- The master file takes every write in full.
  abbrev pub WritesFully : Type 0
  WritesFully = (d : Disk) (src : Buffer) (n k : ℕ) → (os.pwrite d src n k).0 ≡ moved n

  emit_run-fine :
      WritesFully → (d : Disk) (run : Option Run) → is_neg (emit_run os buf d run).0 ≡ false
  unfolding emit_run
  emit_run-fine full d none = refl
  emit_run-fine full d (some r) =
      rw (full d (λ i. buf (r.payload + i)) (r.run_len * block_size) (mul64 r.start block_size))
        (ground arith)

  flush_from-fine :
      WritesFully
      → (d : Disk) (run : Option Run) (plan : List PlanEntry)
      → is_neg (flush_from os buf d run plan).0 ≡ false
  unfolding flush_from
  flush_from-fine full d run [] = emit_run-fine full d run
  flush_from-fine full d none (e ∷ rest) = flush_from-fine full d (open_run e) rest
  flush_from-fine full d (some r) (e ∷ rest) =
      let fine = emit_run-fine full d (some r) in
      elim (Bool-cases (joins r e)) [
        | inl j ↦ rw j (flush_from-fine full d (some (extend r e)) rest)
        | inr j ↦
            rw (j, fine) (flush_from-fine full (emit_run os buf d (some r)).1 (open_run e) rest)
      ]

  pub flush_plan-fine :
      WritesFully → (d : Disk) (plan : List PlanEntry) → is_neg (flush_plan os buf d plan).0 ≡ false
  unfolding flush_plan
  flush_plan-fine full d plan = flush_from-fine full d none plan
