-- ===== src/Dedup/Sort.antt =====
-- src/dedup.c, the comparison of block pairs, and insertion_sort of includes/dedup.h.
use dedup_block_fs.Base.{ltb, leb, if◌then◌else◌, List, [], ◌∷◌, reverse}
use dedup_block_fs.Base.Int.{ℤ, pos, negsuc}
use dedup_block_fs.System.{BlockPair}

-- (ma > mb) - (ma < mb)
unfoldable pub cmp_master_idx : BlockPair → BlockPair → ℤ
cmp_master_idx a b =
    if ltb b.master_block_index a.master_block_index
    then pos 1
    else (if ltb a.master_block_index b.master_block_index then negsuc 0 else pos 0)

-- The inner while: `before` is arr[0..j), its last element first. Each greater element moves one
-- place up, and `tmp` takes the place that is left.
unfoldable pub sink : BlockPair → List BlockPair → List BlockPair
sink tmp [] = tmp ∷ []
sink tmp (x ∷ before) =
    if ltb tmp.master_block_index x.master_block_index
    then x ∷ sink tmp before
    else tmp ∷ x ∷ before

-- One round of the for, with the test for an element that is in order already.
unfoldable pub sort_round : BlockPair → List BlockPair → List BlockPair
unfolding sink
sort_round x [] = x ∷ []
sort_round x (y ∷ before) =
    if leb y.master_block_index x.master_block_index then x ∷ y ∷ before else sink x (y ∷ before)

-- `before` is arr[0..i), its last element first, and the other list is arr[i..n).
unfoldable pub sort_from : List BlockPair → List BlockPair → List BlockPair
unfolding sort_round
sort_from before [] = reverse before
sort_from before (x ∷ rest) = sort_from (sort_round x before) rest

unfoldable pub insertion_sort : List BlockPair → List BlockPair
unfolding sort_from
insertion_sort arr = sort_from [] arr
