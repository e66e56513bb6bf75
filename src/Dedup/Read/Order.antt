-- ===== src/Dedup/Read/Order.antt =====
-- What read_each makes of the buffer does not depend on the order of the pairs.
use dedup_block_fs.Base.{
  ℕ, ◌+◌, ◌≡◌, refl, sym, ap, ◌∙◌, inl, inr, Bool-cases, List, [], ◌∷◌, ◌==◌, ltb, leb,
  if◌then◌else◌, ◌&&◌, All, count, hits, length, arith,
}
use mathlib.Core.List.{foldr, reverse_aux}
use native.Mathlib.Nat.{ℕ_set}
use mathlib.Core.List as L
use mathlib.Core.List.Perm
use dedup_block_fs.System.{System, Buffer, BlockPair}
use dedup_block_fs.Dedup.Sort.{sink, sort_round, sort_from, insertion_sort, cmp_master_idx}
use dedup_block_fs.Dedup.Read.{set_block, sort_pairs, insertion_sort_threshold}
use dedup_block_fs.Dedup.Read.Groups.{read_each, Small}
use dedup_block_fs.Dedup.Flush.Runs.{max_slot}

abbrev pub places : List BlockPair → List ℕ
places [] = []
places (x ∷ rest) = x.logical_idx ∷ places rest

-- The pairs take their slots from `f`.
abbrev pub From : (ℕ → ℕ) → BlockPair → Type 0
From f x = x.master_block_index ≡ f x.logical_idx

module _ (os : System) where
  open os use {Disk, block, qsort, qsort_perm}

  pub read_each-at :
      (d : Disk) (f : ℕ → ℕ) (l : List BlockPair) (buf : Buffer) (j : ℕ)
      → All (From f) l
      → read_each os d l buf j ≡ (if ltb 0 (count j (places l)) then block d (f j) else buf j)
  read_each-at d f [] buf j a = refl
  read_each-at d f (x ∷ rest) buf j (e, a) =
      read_each-at d f rest (set_block buf x.logical_idx (block d x.master_block_index)) j a
      ∙ ground (arith, e)

-- A number for each pair, added up.
abbrev pub weight : (BlockPair → ℕ) → List BlockPair → ℕ
weight w [] = 0
weight w (x ∷ rest) = w x + weight w rest

sink-weight :
    (w : BlockPair → ℕ) (x : BlockPair) (l : List BlockPair)
    → weight w (sink x l) ≡ w x + weight w l
unfolding sink
sink-weight w x [] = refl
sink-weight w x (y ∷ l) = ground (arith, sink-weight w x l)

sort_round-weight :
    (w : BlockPair → ℕ) (x : BlockPair) (l : List BlockPair)
    → weight w (sort_round x l) ≡ w x + weight w l
unfolding sort_round
sort_round-weight w x [] = refl
sort_round-weight w x (y ∷ l) = ground (arith, sink-weight w x (y ∷ l))

reverse-weight :
    (w : BlockPair → ℕ) (l acc : List BlockPair)
    → weight w (reverse_aux l acc) ≡ weight w l + weight w acc
reverse-weight w [] acc = omega arith
reverse-weight w (x ∷ l) acc = omega (arith, reverse-weight w l (x ∷ acc))

sort_from-weight :
    (w : BlockPair → ℕ) (before l : List BlockPair)
    → weight w (sort_from before l) ≡ weight w before + weight w l
unfolding sort_from
sort_from-weight w before [] = reverse-weight w before []
sort_from-weight w before (x ∷ l) =
    omega (arith, sort_from-weight w (sort_round x before) l, sort_round-weight w x before)

foldr-weight : (w : BlockPair → ℕ) (l : List BlockPair) → foldr (λ x n. w x + n) 0 l ≡ weight w l
foldr-weight w [] = refl
foldr-weight w (x ∷ l) = ap (λ n. w x + n) (foldr-weight w l)

Perm-weight : (w : BlockPair → ℕ) (a b : List BlockPair) → L.Perm a b → weight w a ≡ weight w b
Perm-weight w a b p =
    sym (foldr-weight w a)
    ∙ Perm.foldr-eq ℕ_set (λ x n. w x + n) (λ x y n. omega arith) p 0
    ∙ foldr-weight w b

pub insertion_sort-weight :
    (w : BlockPair → ℕ) (l : List BlockPair) → weight w (insertion_sort l) ≡ weight w l
unfolding insertion_sort
insertion_sort-weight w l = sort_from-weight w [] l ∙ omega arith

-- Phase 2 leaves every such sum as it was: no pair is lost and none is made.
pub sort_pairs-weight :
    (os : System) (w : BlockPair → ℕ) (l : List BlockPair) → weight w (sort_pairs os l) ≡ weight w l
unfolding sort_pairs
sort_pairs-weight os w l = elim (Bool-cases (leb (length l) insertion_sort_threshold)) [
  | inl small ↦ rw small (insertion_sort-weight w l)
  | inr large ↦
      rw large (Perm-weight w (os.qsort cmp_master_idx l) l (os.qsort_perm cmp_master_idx l))
]

length-weight : (l : List BlockPair) → length l ≡ weight (λ x. 1) l
length-weight [] = refl
length-weight (x ∷ l) = omega (arith, length-weight l)

places-weight :
    (j : ℕ) (l : List BlockPair) → count j (places l) ≡ weight (λ x. hits j x.logical_idx) l
places-weight j [] = refl
places-weight j (x ∷ l) = omega (arith, places-weight j l)

-- 0 for a pair that takes its slot from `f`, and that has a small slot.
abbrev strays : (ℕ → ℕ) → BlockPair → ℕ
strays f x =
    if (x.master_block_index == f x.logical_idx) && ltb x.master_block_index max_slot then 0 else 1

no_strays :
    (f : ℕ → ℕ) (l : List BlockPair) → All (From f) l → All Small l → weight (strays f) l ≡ 0
no_strays f [] a b = refl
no_strays f (x ∷ l) (e, a) (s, b) = ground (arith, e, s, no_strays f l a b)

strays-none :
    (f : ℕ → ℕ) (l : List BlockPair) → weight (strays f) l ≡ 0 → All (From f) l × All Small l
strays-none f [] h = (tt, tt)
strays-none f (x ∷ l) h =
    let (a, b) = strays-none f l (omega arith) in ((ground arith, a), (ground arith, b))

-- What phase 2 keeps of the pairs.
pub record Kept (f : ℕ → ℕ) (a b : List BlockPair) : Type 0 where
  pub from : All (From f) a
  pub small : All Small a
  pub length_same : length a ≡ length b
  pub places_same : (j : ℕ) → count j (places a) ≡ count j (places b)

pub sort_pairs-Kept :
    (os : System) (f : ℕ → ℕ) (l : List BlockPair)
    → All (From f) l
    → All Small l
    → Kept f (sort_pairs os l) l
sort_pairs-Kept os f l a b =
    let (from, small) =
      strays-none f (sort_pairs os l) (sort_pairs-weight os (strays f) l ∙ no_strays f l a b) in
    record {
      from = from;
      small = small;
      length_same =
          length-weight (sort_pairs os l) ∙ sort_pairs-weight os (λ x. 1) l ∙ sym (length-weight l);
      places_same = λ j.
          places-weight j (sort_pairs os l)
          ∙ sort_pairs-weight os (λ x. hits j x.logical_idx) l
          ∙ sym (places-weight j l);
    }
