-- ===== src/Dedup/Alloc.antt =====
-- src/dedup.c, allocate_batch_storage_first and the loop of write_dedup that hands the slots out.
pub mod Slots
pub mod Assign
use dedup_block_fs.Base.{
  ℕ, zero, suc, ◌+◌, ◌-◌, ◌<◌, Option, none, some, List, [], ◌∷◌, ◌++◌, ltb, if◌then◌else◌, ◌>>=◌,
  length,
}
use dedup_block_fs.Index.{Index, MasterInfo, store}
use dedup_block_fs.System.{add64}
use dedup_block_fs.Dedup.Plan.{PlanEntry, PlanKind, hit, miss}

-- The while: `taken` slots leave the head of the free list. The lists are out[0..taken) and what
-- stays on the free list.
unfoldable pub drain : ℕ → List ℕ → List ℕ × List ℕ
drain zero free = ([], free)
drain (suc n) [] = ([], [])
drain (suc n) (slot ∷ free) = let (out, rest) = drain n free in (slot ∷ out, rest)

-- The for: base, base + 1, ...
unfoldable pub append_range : ℕ → ℕ → List ℕ
append_range base zero = []
append_range base (suc n) = base ∷ append_range (add64 base 1) n

-- The slots with the free list and the nextBlockIndex that stay.
unfoldable pub allocate_batch_storage_first : List ℕ → ℕ → ℕ → List ℕ × List ℕ × ℕ
unfolding drain append_range
allocate_batch_storage_first free miss_count next_block_index =
    let (taken, free') = drain miss_count free in
    let remaining = miss_count - length taken in
    if ltb 0 remaining
    then (taken ++ append_range next_block_index remaining, free', add64 next_block_index remaining)
    else (taken, free', next_block_index)

-- `plan[i].master_blk = master_blks[m]; plan[i].info->masterBlockIndex = master_blks[m]; m++` for
-- each MISS. To read past the end of `master_blks` is a fault, like a freed `info`.
unfoldable pub assign_slots : List PlanEntry → List ℕ → Index → Option (List PlanEntry × Index)
assign_slots [] slots ix = some ([], ix)
assign_slots (e ∷ rest) [] ix = elim e.kind [
  | hit ↦ do (rest', ix') ← assign_slots rest [] ix; some (e ∷ rest', ix')
  | miss ↦ none
]
assign_slots (e ∷ rest) (slot ∷ slots) ix = elim e.kind [
  | hit ↦ do (rest', ix') ← assign_slots rest (slot ∷ slots) ix; some (e ∷ rest', ix')
  | miss ↦ do
    info ← ix.infos e.info
    (rest', ix') ←
        assign_slots rest slots (store ix e.info (record info { master_block_index = slot }))
    some (record e { master_blk = slot } ∷ rest', ix')
]
