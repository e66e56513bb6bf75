-- ===== src/Dedup/Read/Sorted.antt =====
-- The insertion sort of phase 2 sorts.
use dedup_block_fs.Base.{ℕ, ◌≤◌, ◌≡◌, inl, inr, Bool-cases, List, [], ◌∷◌, leb, ltb, All, arith}
use mathlib.Core.List.{reverse_aux}
use dedup_block_fs.System.{BlockPair}
use dedup_block_fs.Dedup.Sort.{sink, sort_round, sort_from, insertion_sort}
use dedup_block_fs.Dedup.Read.Order.{weight, insertion_sort-weight}

abbrev AtMost : ℕ → BlockPair → Type 0
AtMost m x = x.master_block_index ≤ m

abbrev AtLeast : ℕ → BlockPair → Type 0
AtLeast m x = m ≤ x.master_block_index

abbrev Descending : List BlockPair → Type 0
Descending [] = Unit
Descending (x ∷ l) = All (AtMost x.master_block_index) l × Descending l

-- No pair stands before one with a smaller master block index.
abbrev pub Ascending : List BlockPair → Type 0
Ascending [] = Unit
Ascending (x ∷ l) = All (AtLeast x.master_block_index) l × Ascending l

AtMost-mono : (a b : ℕ) (l : List BlockPair) → a ≤ b → All (AtMost a) l → All (AtMost b) l
AtMost-mono a b [] h t = tt
AtMost-mono a b (x ∷ l) h (t, ts) = (omega arith, AtMost-mono a b l h ts)

AtMost-sink :
    (m : ℕ) (x : BlockPair) (l : List BlockPair)
    → x.master_block_index ≤ m
    → All (AtMost m) l
    → All (AtMost m) (sink x l)
unfolding sink
AtMost-sink m x [] h t = (h, tt)
AtMost-sink m x (y ∷ l) h (t, ts) =
    elim (Bool-cases (ltb x.master_block_index y.master_block_index)) [
      | inl less ↦ rw less (t, AtMost-sink m x l h ts)
      | inr not_less ↦ rw not_less (h, (t, ts))
    ]

Descending-sink : (x : BlockPair) (l : List BlockPair) → Descending l → Descending (sink x l)
unfolding sink
Descending-sink x [] t = (tt, tt)
Descending-sink x (y ∷ l) (t, ts) =
    elim (Bool-cases (ltb x.master_block_index y.master_block_index)) [
      | inl less ↦
          rw less (AtMost-sink y.master_block_index x l (ground arith) t, Descending-sink x l ts)
      | inr not_less ↦
          let le : y.master_block_index ≤ x.master_block_index = ground arith in
          rw not_less ((le, AtMost-mono y.master_block_index x.master_block_index l le t), (t, ts))
    ]

Descending-sort_round :
    (x : BlockPair) (l : List BlockPair) → Descending l → Descending (sort_round x l)
unfolding sort_round
Descending-sort_round x [] t = (tt, tt)
Descending-sort_round x (y ∷ l) (t, ts) =
    elim (Bool-cases (leb y.master_block_index x.master_block_index)) [
      | inl in_order ↦
          let le : y.master_block_index ≤ x.master_block_index = ground arith in
          rw in_order ((le, AtMost-mono y.master_block_index x.master_block_index l le t), (t, ts))
      | inr greater ↦ rw greater (Descending-sink x (y ∷ l) (t, ts))
    ]

-- Every pair of the first list is at most every pair of the second.
abbrev Below : List BlockPair → List BlockPair → Type 0
Below l acc = All (λ x. All (AtLeast x.master_block_index) acc) l

Below-cons :
    (x : BlockPair) (l acc : List BlockPair)
    → All (AtMost x.master_block_index) l
    → Below l acc
    → Below l (x ∷ acc)
Below-cons x [] acc t b = tt
Below-cons x (y ∷ l) acc (t, ts) (b, bs) = ((t, b), Below-cons x l acc ts bs)

Ascending-reverse_aux :
    (l acc : List BlockPair)
    → Descending l
    → Ascending acc
    → Below l acc
    → Ascending (reverse_aux l acc)
Ascending-reverse_aux [] acc d a b = a
Ascending-reverse_aux (x ∷ l) acc (t, ts) a (b, bs) =
    Ascending-reverse_aux l (x ∷ acc) ts (b, a) (Below-cons x l acc t bs)

Below-nil : (l : List BlockPair) → Below l []
Below-nil [] = tt
Below-nil (x ∷ l) = (tt, Below-nil l)

sort_from-Ascending :
    (before l : List BlockPair) → Descending before → Ascending (sort_from before l)
unfolding sort_from
sort_from-Ascending before [] d = Ascending-reverse_aux before [] d tt (Below-nil before)
sort_from-Ascending before (x ∷ l) d =
    sort_from-Ascending (sort_round x before) l (Descending-sort_round x before d)

-- insertion_sort returns the pairs in ascending order of their master block indices, and any
-- number given to the pairs sums up to the same before and after, so each pair is there as often.
pub insertion_sort-Ascending :
    (l : List BlockPair)
    → Ascending (insertion_sort l)
      × ((w : BlockPair → ℕ) → weight w (insertion_sort l) ≡ weight w l)
unfolding insertion_sort
insertion_sort-Ascending l = (sort_from-Ascending [] l tt, λ w. insertion_sort-weight w l)
