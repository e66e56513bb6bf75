-- ===== src/Dedup/Alloc/Slots.antt =====
-- The slots that the allocator hands out.
use dedup_block_fs.Base.{
  ℕ, zero, suc, ◌+◌, ◌-◌, ◌^◌, ◌≤◌, ◌<◌, ◌≡◌, refl, ap, inl, inr, ◌&&◌, Bool-cases, List, [], ◌∷◌,
  ◌++◌, leb, ltb, if◌then◌else◌, count, count-append, length, length-append, arith,
}
use dedup_block_fs.Index.{Index, Ptr}
use dedup_block_fs.Index.Inv.{Inv}
use dedup_block_fs.System.{System, Block, add64}
use dedup_block_fs.Dedup.Alloc.{drain, append_range, allocate_batch_storage_first}

drain-count :
    (n : ℕ) (free : List ℕ) (s : ℕ)
    → count s (drain n free).0 + count s (drain n free).1 ≡ count s free
unfolding drain
drain-count zero free s = omega arith
drain-count (suc n) [] s = omega arith
drain-count (suc n) (x ∷ free) s = omega (arith, drain-count n free s)

-- All of the free list is taken if it does not suffice.
drain-length :
    (n : ℕ) (free : List ℕ)
    → (length (drain n free).0 ≤ n)
      × (length (drain n free).0 + length (drain n free).1 ≡ length free)
      × (length (drain n free).0 < n → (drain n free).1 ≡ [])
unfolding drain
drain-length zero free = (omega arith, omega arith, λ h. absurd (omega arith))
drain-length (suc n) [] = (omega arith, omega arith, λ h. refl)
drain-length (suc n) (x ∷ free) =
    let (a, b, c) = drain-length n free in (omega arith, omega arith, λ h. c (omega arith))

-- 1 for the slots base, ..., base + n - 1.
abbrev pub in_slots : ℕ → ℕ → ℕ → ℕ
in_slots base n s = if leb base s && ltb s (base + n) then 1 else 0

append_range-count :
    (n base s : ℕ) → base + n < 2 ^ 64 → count s (append_range base n) ≡ in_slots base n s
unfolding append_range
append_range-count zero base s h = ground arith
append_range-count (suc n) base s h = ground (arith, append_range-count n (add64 base 1) s)

append_range-length : (n base : ℕ) → length (append_range base n) ≡ n
unfolding append_range
append_range-length zero base = refl
append_range-length (suc n) base = omega (arith, append_range-length n (add64 base 1))

-- What allocate_batch_storage_first returns for `n` blocks.
pub record Allocated (free : List ℕ) (n next : ℕ) (r : List ℕ × List ℕ × ℕ) : Type 0 where
  -- One slot for each block.
  pub enough : length r.0 ≡ n
  -- The master file grows by what the free list lacks.
  pub grown : r.2 ≡ next + (n - length free)
  -- It grows only when the free list is used up.
  pub storage_first : next < r.2 → r.1 ≡ []
  -- The slots come off the free list, or are the new ones at the end of the master file.
  pub slots : (s : ℕ) → count s r.0 + count s r.1 ≡ count s free + in_slots next (r.2 - next) s

-- Slots are neither made nor lost, whatever the free list is.
pub allocate-Conserved :
    (free : List ℕ) (n next : ℕ)
    → next + n < 2 ^ 64
    → Allocated free n next (allocate_batch_storage_first free n next)
unfolding allocate_batch_storage_first
allocate-Conserved free n next h =
    let (a, b, c) = drain-length n free in
    elim (Bool-cases (ltb 0 (n - length (drain n free).0))) [
      | inl grows ↦ rw grows (record {
        enough = omega (
          arith,
          length-append (drain n free).0 (append_range next (n - length (drain n free).0)),
          append_range-length (n - length (drain n free).0) next,
        );
        grown = ground (arith, ap length (c (ground arith)));
        storage_first = λ g. c (ground arith);
        slots = λ s. ground (
          arith,
          drain-count n free s,
          count-append s (drain n free).0 (append_range next (n - length (drain n free).0)),
          append_range-count (n - length (drain n free).0) next s,
        );
      })
      | inr fits ↦ rw fits (record {
        enough = ground arith;
        grown = ground arith;
        storage_first = λ g. absurd (omega arith);
        slots = λ s. ground (arith, drain-count n free s);
      })
    ]

-- Where nextBlockIndex does not wrap, the free list names no slot twice and every slot on it lies
-- below nextBlockIndex, allocate_batch_storage_first returns one slot for each of the `n` blocks,
-- and every slot is handed out once or stays on the free list once, never both. The slots come off
-- the free list, and nextBlockIndex moves only when that is used up and only by what it lacks; it
-- lies above every slot again.
pub allocate-Allocated :
    (free : List ℕ) (n next : ℕ)
    → next + n < 2 ^ 64
    → ((s : ℕ) → count s free ≤ 1)
    → ((s : ℕ) → 0 < count s free → s < next)
    → (let r = allocate_batch_storage_first free n next in
        Allocated free n next r
        × ((s : ℕ) → count s r.0 + count s r.1 ≤ 1)
        × ((s : ℕ) → 0 < count s r.0 + count s r.1 → s < r.2))
allocate-Allocated free n next room once below =
    let a = allocate-Conserved free n next room in
    (
      a,
      λ s. ground (arith, a.slots s, once s, below s),
      λ s h. ground (arith, a.slots s, a.grown, below s, h),
    )

module _ (os : System) (U : Block → Type 0) where
  open os use {Disk}

  -- The slots are reserved from then on, and nextBlockIndex lies above them.
  pub allocate-Inv :
      {d : Disk} {refs pend : List Ptr} {ix : Index} (n next : ℕ) (reserved : List ℕ)
      (r : List ℕ × List ℕ × ℕ)
      → Allocated ix.free_block_list n next r
      → Inv os U d next refs pend reserved ix
      → Inv os U d r.2 refs pend (r.0 ++ reserved) (record ix { free_block_list = r.1 })
  allocate-Inv {ix} n next reserved r a v = record {
    distinct_hash = v.distinct_hash;
    distinct_file = v.distinct_file;
    fresh = v.fresh;
    hashed = λ h q e.
        let (m, s, t) = v.hashed h q e in (m, record { live = s.live; listed = s.listed }, t);
    linked =
        λ k q e. let (m, s) = v.linked k q e in (m, record { live = s.live; listed = s.listed });
    held = v.held;
    stored = λ q m h. v.stored q m (record { live = h.live; listed = h.listed });
    counted = v.counted;
    positive = v.positive;
    owned = v.owned;
    slot_once =
        λ s. ground (arith, a.slots s, count-append s r.0 reserved, v.slot_once s, v.slot_below s);
    slot_below =
        λ s h. ground (arith, a.slots s, a.grown, count-append s r.0 reserved, v.slot_below s);
    slot_used = λ q m h.
        let s = m.master_block_index in
        ground (
          arith,
          a.slots s,
          a.grown,
          count-append s r.0 reserved,
          v.slot_used q m (record { live = h.live; listed = h.listed }),
        );
    slot_owner = λ q o m m' h k.
        v.slot_owner q o m m' (record { live = h.live; listed = h.listed })
          (record { live = k.live; listed = k.listed });
  }
