-- ===== src/Dedup/Plan.antt =====
-- src/dedup.c, the plan of a write and pass 1 of write_dedup, which decides for each block whether
-- its content is known (HIT) or new (MISS).
pub mod Entries
pub mod Step
pub mod Decide
use dedup_block_fs.Base.{
  ℕ, zero, suc, ◌+◌, Bool, true, false, Option, none, some, List, [], ◌∷◌, ◌>>=◌,
}
use dedup_block_fs.Keys.{Digest, bytes_key}
use dedup_block_fs.Table.{Table, lookup, insert}
use dedup_block_fs.Index.{Index, Ptr, MasterInfo, lookup_by_hash, fetch_add, store}
use dedup_block_fs.System.{System, Buffer, add64}

-- `PlanKind`
pub data PlanKind : Type 0 where
  hit miss : PlanKind

-- `PlanEntry`. `payload` is the block of `buf` that the pointer goes to. A HIT has no master block:
-- the code leaves the field unset and never reads it.
pub record PlanEntry : Type 0 where
  pub kind : PlanKind
  pub logical_blk : ℕ
  pub master_blk : ℕ
  pub payload : ℕ
  pub hash : Digest
  pub info : Ptr

-- plan[i].kind == PLAN_MISS
abbrev pub is_miss : PlanEntry → Bool
is_miss e = elim e.kind [ hit ↦ false | miss ↦ true ]

-- miss_count
unfoldable pub miss_count : List PlanEntry → ℕ
miss_count [] = 0
miss_count (e ∷ rest) = elim e.kind [ hit ↦ miss_count rest | miss ↦ suc (miss_count rest) ]

-- g_new(MasterInfo, 1), with the fields that a pending MasterInfo gets.
unfoldable pub new_info : Index → Digest → Index
new_info ix h =
    store (record ix { next_info = suc ix.next_info }) ix.next_info
      (record { hash = h; master_block_index = 0; refcount = 1 })

-- Look in the official index first, then among the pending MISSes of the batch.
unfoldable pub find_existing : Index → Table Digest Ptr → Digest → Option Ptr
unfolding lookup_by_hash
find_existing ix pending h = elim (lookup_by_hash ix h) [
  | none ↦ lookup h pending
  | some p ↦ some p
]

module _ (os : System) (buf : Buffer) (start_block : ℕ) where
  open os use {sha512}

  abbrev pub plan_entry : PlanKind → ℕ → Ptr → PlanEntry
  plan_entry kind i p = record {
    kind = kind;
    logical_blk = add64 start_block i;
    master_blk = 0;
    payload = i;
    hash = sha512 (buf i);
    info = p;
  }

  -- Pass 1 with `n` blocks left from block `i` of the request on.
  unfoldable pub decide : ℕ → ℕ → Index → Table Digest Ptr → Option (List PlanEntry × Index)
  unfolding find_existing fetch_add new_info
  decide zero i ix pending = some ([], ix)
  decide (suc n) i ix pending = elim (find_existing ix pending (sha512 (buf i))) [
    | some p ↦ do
      ix' ← fetch_add ix p
      (rest, ix'') ← decide n (i + 1) ix' pending
      some (plan_entry hit i p ∷ rest, ix'')
    | none ↦ do
      (rest, ix'') ←
          decide n (i + 1) (new_info ix (sha512 (buf i)))
            (insert (sha512 (buf i)) ix.next_info pending)
      some (plan_entry miss i ix.next_info ∷ rest, ix'')
  ]
