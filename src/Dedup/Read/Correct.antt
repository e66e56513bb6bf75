-- ===== src/Dedup/Read/Correct.antt =====
-- read_dedup as a whole, against the content of the file.
use dedup_block_fs.Base.{
  ℕ, zero, suc, ◌+◌, ◌*◌, ◌/◌, ◌%◌, ◌^◌, ◌<◌, ◌≤◌, ◌≡◌, refl, sym, ap, ◌∙◌, inl, inr, false,
  Bool-cases, Option, Option-cases, some, none, List, [], ◌∷◌, ◌==◌, All, count, length, arith,
}
use dedup_block_fs.Base.Int.{to_int}
use dedup_block_fs.Keys.{FilePath, block_indice_key}
use dedup_block_fs.Table.{lookup}
use dedup_block_fs.Index.{Index, Ptr, MasterInfo, indice, lookup_by_file_block}
use dedup_block_fs.Index.Inv.{Inv}
use dedup_block_fs.System.{System, Block, Buffer, BlockPair, block_size, add64}
use dedup_block_fs.View.{content, block_behind}
use dedup_block_fs.Dedup.Alloc.Slots.{in_slots}
use dedup_block_fs.Dedup.Flush.Runs.{max_slot}
use dedup_block_fs.Dedup.Read.{lookup_pairs, sort_pairs, read_found, read_dedup}
use dedup_block_fs.Dedup.Read.Groups.{Small, ReadsFully, read_each, read_sorted-each}
use dedup_block_fs.Dedup.Read.Order.{places, From, read_each-at, Kept, sort_pairs-Kept}

-- The slot behind a block of a file, 0 for a block without one.
abbrev slot_behind : Index → Option Ptr → ℕ
slot_behind ix none = 0
slot_behind ix (some p) = elim (ix.infos p) [ none ↦ 0 | some m ↦ m.master_block_index ]

abbrev slot_at : Index → FilePath → ℕ → ℕ → ℕ
slot_at ix path start j = slot_behind ix (lookup (indice path (start + j)) ix.file_to_master)

module _ (os : System) (U : Block → Type 0) where
  open os use {Disk, block, malloc_fails}

  module _ {d : Disk} {next : ℕ} {refs pend : List Ptr} {reserved : List ℕ} (ix : Index)
      (path : FilePath) (start : ℕ) (v : Inv os U d next refs pend reserved ix)
      (small : next ≤ max_slot) where
    -- What phase 1 finds from block `i` on, with `n` blocks left.
    record Found (i n : ℕ) (l : List BlockPair) : Type 0 where
      from : All (From (slot_at ix path start)) l
      below : All Small l
      at_most : length l ≤ n
      where_to : (j : ℕ) → count j (places l) ≡ in_slots i (length l) j
      mapped :
          (j : ℕ)
          → i ≤ j
          → j < i + length l
          → content os d ix path (start + j) ≡ some (block d (slot_at ix path start j))
      stops : length l < n → content os d ix path (start + (i + length l)) ≡ none

    stopped :
        (n i : ℕ)
        → start + i < 2 ^ 64
        → lookup (indice path (start + i)) ix.file_to_master ≡ none
        → lookup_pairs (suc n) i ix path start ≡ some []
    unfolding lookup_pairs lookup_by_file_block
    stopped n i room e =
        let here : add64 start i ≡ start + i = omega arith in rw (here, e, lookup_pairs) refl

    went_on :
        (n i : ℕ) (p : Ptr) (m : MasterInfo) (l : List BlockPair)
        → start + i < 2 ^ 64
        → lookup (indice path (start + i)) ix.file_to_master ≡ some p
        → ix.infos p ≡ some m
        → lookup_pairs n (i + 1) ix path start ≡ some l
        → lookup_pairs (suc n) i ix path start
          ≡ some (record { logical_idx = i; master_block_index = m.master_block_index } ∷ l)
    unfolding lookup_pairs lookup_by_file_block
    went_on n i p m l room e live run =
        let here : add64 start i ≡ start + i = omega arith in
        rw (here, e, lookup_pairs, live, run) refl

    unmapped_content :
        (b : ℕ) → lookup (indice path b) ix.file_to_master ≡ none → content os d ix path b ≡ none
    unfolding content lookup_by_file_block block_behind
    unmapped_content b e = rw e refl

    mapped_content :
        (j : ℕ) (p : Ptr) (m : MasterInfo)
        → lookup (indice path (start + j)) ix.file_to_master ≡ some p
        → ix.infos p ≡ some m
        → (m.master_block_index ≡ slot_at ix path start j)
          × (content os d ix path (start + j) ≡ some (block d (slot_at ix path start j)))
    unfolding content lookup_by_file_block block_behind
    mapped_content j p m e live = (ground (arith, e, live), ground (arith, e, live))

    stop_here : (n i : ℕ) → content os d ix path (start + i) ≡ none → Found i n []
    stop_here n i e = record {
      from = tt;
      below = tt;
      at_most = omega arith;
      where_to = λ j. ground arith;
      mapped = λ j low high. absurd (omega arith);
      stops = λ h. ap (content os d ix path) (omega arith) ∙ e;
    }

    one_more :
        (n i : ℕ) (p : Ptr) (m : MasterInfo) (l : List BlockPair)
        → lookup (indice path (start + i)) ix.file_to_master ≡ some p
        → ix.infos p ≡ some m
        → m.master_block_index < next
        → Found (i + 1) n l
        → Found i
            (suc n)
            (record { logical_idx = i; master_block_index = m.master_block_index } ∷ l)
    one_more n i p m l e live low f =
        let (slot, here) = mapped_content i p m e live in
        record {
          from = (slot, f.from);
          below = (omega arith, f.below);
          at_most = omega (arith, f.at_most);
          where_to = λ j. ground (arith, f.where_to j);
          mapped = λ j low high. elim (Bool-cases (i == j)) [
            | inl same ↦ let at' : j ≡ i = ground arith in rw at' here
            | inr other ↦ f.mapped j (ground arith) (omega arith)
          ];
          stops = λ h. ap (content os d ix path) (omega arith) ∙ f.stops (omega arith);
        }

    lookup_pairs-Found :
        (n i : ℕ)
        → start + i + n < 2 ^ 64
        → (l : List BlockPair) × (lookup_pairs n i ix path start ≡ some l) × Found i n l
    unfolding lookup_pairs
    lookup_pairs-Found zero i room = (
      [],
      refl,
      record {
        from = tt;
        below = tt;
        at_most = omega arith;
        where_to = λ j. ground arith;
        mapped = λ j low high. absurd (omega arith);
        stops = λ h. absurd (omega arith);
      },
    )
    lookup_pairs-Found (suc n) i room =
        elim (Option-cases (lookup (indice path (start + i)) ix.file_to_master)) [
          | inl e ↦ (
            [],
            stopped n i (omega arith) e,
            stop_here (suc n) i (unmapped_content (start + i) e),
          )
          | inr (p, e) ↦
              let (m, s) = v.linked (indice path (start + i)) p e in
              let (l, run, f) = lookup_pairs-Found n (i + 1) (omega arith) in
              (
                record { logical_idx = i; master_block_index = m.master_block_index } ∷ l,
                went_on n i p m l (omega arith) e s.live run,
                one_more n i p m l e s.live (v.slot_used p m s).1 f,
              )
        ]

    -- What a read leaves in the buffer, with `n` blocks asked for: the first `k` blocks of the file
    -- from `start` on, all of them mapped, and the rest of the buffer as it was. It is short only
    -- where the next block is not mapped.
    pub record ReadBlocks (n k : ℕ) (buf buf' : Buffer) : Type 0 where
      pub at_most : k ≤ n
      pub blocks : (j : ℕ) → j < k → content os d ix path (start + j) ≡ some (buf' j)
      pub rest : (j : ℕ) → k ≤ j → buf' j ≡ buf j
      pub stops : k < n → content os d ix path (start + k) ≡ none

    module _ (n : ℕ) (buf : Buffer) (full : ReadsFully os)
        (memory : (m : ℕ) → malloc_fails m ≡ false) (room : (start + n) * block_size < 2 ^ 64) where
      filled :
          (l l' : List BlockPair)
          → Found 0 n l
          → Kept (slot_at ix path start) l' l
          → ReadBlocks n (length l) buf (read_each os d l' buf)
      filled l l' f k =
          let at' = λ (j : ℕ). read_each-at os d (slot_at ix path start) l' buf j k.from in
          record {
            at_most = f.at_most;
            blocks = λ j h.
                f.mapped j (omega arith) (omega arith)
                ∙ ap some (sym (at' j ∙ ground (arith, f.where_to j, k.places_same j)));
            rest = λ j h. at' j ∙ ground (arith, f.where_to j, k.places_same j);
            stops = λ h. ap (content os d ix path) (omega arith) ∙ f.stops h;
          }

      read_found-Blocks :
          (l : List BlockPair)
          → Found 0 n l
          → (buf' : Buffer) × (read_found os d buf l ≡ (to_int (length l * block_size), buf'))
            × ReadBlocks n (length l) buf buf'
      unfolding read_found to_int
      read_found-Blocks [] f = (
        buf,
        refl,
        filled [] [] f
            (record { from = tt; small = tt; length_same = refl; places_same = λ j. refl }),
      )
      read_found-Blocks (x ∷ l) f =
          let k = sort_pairs-Kept os (slot_at ix path start) (x ∷ l) f.from f.below in
          (
            read_each os d (sort_pairs os (x ∷ l)) buf,
            rw (memory (length (x ∷ l) * block_size)) (
                read_sorted-each os full d buf (sort_pairs os (x ∷ l)) k.small
                ∙ ap (λ m. (to_int (m * block_size), read_each os d (sort_pairs os (x ∷ l)) buf))
                    k.length_same),
            filled (x ∷ l) (sort_pairs os (x ∷ l)) f k,
          )

      read_runs :
          (l : List BlockPair)
          → 0 < n
          → lookup_pairs n 0 ix path start ≡ some l
          → read_dedup os ix path buf (n * block_size) (start * block_size) d
            ≡ some (read_found os d buf l)
      unfolding read_dedup
      read_runs l some_blocks run =
          let blocks : n * block_size / block_size ≡ n = omega arith in
          let first : start * block_size / block_size ≡ start = omega arith in
          let whole : n * block_size % block_size ≡ 0 = omega arith in
          let any : (n == 0) ≡ false = ground arith in rw (blocks, first, whole, any, run) refl

      -- On a well-formed index, with a master file that delivers every read in full and with memory
      -- for the block pairs, read_dedup of `n` whole blocks at a block boundary does not fault. It
      -- returns the bytes of the blocks up to the first that is not mapped, puts their content into
      -- the buffer, each at its place, and leaves the rest of the buffer as it was.
      pub read_dedup-Blocks :
          0 < n
          → (k : ℕ) × (buf' : Buffer) × (read_dedup os ix path buf
                (n * block_size)
                (start * block_size)
                d
              ≡ some (to_int (k * block_size), buf'))
            × ReadBlocks n k buf buf'
      read_dedup-Blocks some_blocks =
          let (l, run, f) = lookup_pairs-Found n 0 (omega arith) in
          let (buf', run', r) = read_found-Blocks l f in
          (length l, buf', read_runs l some_blocks run ∙ ap some run', r)
