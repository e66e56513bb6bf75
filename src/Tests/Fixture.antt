-- ===== src/Tests/Fixture.antt =====
-- A system whose digest of a block is the block itself and whose transfers are always full, and a
-- store in which blocks 0 and 1 of a file have the same content.
use dedup_block_fs.Base.{
  ℕ, ◌+◌, ◌-◌, ◌*◌, ◌/◌, ◌≤◌, ◌<◌, ◌≡◌, refl, inl, inr, ◌⊎◌, true, false, ◌&&◌, some, none, List,
  [], ◌∷◌, ◌==◌, ltb, leb, if◌then◌else◌, arith,
}
use mathlib.Core.List.Perm
use dedup_block_fs.Keys.{
  FilePath, Digest, bytes_equal, bytes_equal_iff, block_indice_equal, bytes_key, block_indice_key,
}
use dedup_block_fs.Table.{lookup, Distinct, holders}
use dedup_block_fs.Index.{Index, MasterInfo, indice}
use dedup_block_fs.Index.Inv.{Inv, Published}
use dedup_block_fs.Dedup.Plan.{PlanEntry, miss}
use dedup_block_fs.System.{System, Block, Buffer, moved, failed, block_size}

abbrev pub Blocks : Type 0
Blocks = ℕ → Block

abbrev pub put : Blocks → Buffer → ℕ → ℕ → Blocks
put d src n k j = if leb k j && ltb j (k + n) then src (j - k) else d j

pub in_put : (d : Blocks) (src : Buffer) (n k i : ℕ) → i < n → put d src n k (k + i) ≡ src i
in_put d src n k i h =
    let back : k + i - k ≡ i = omega arith in
    let inside : (leb k (k + i) && ltb (k + i) (k + n)) ≡ true = ground arith in
    rw (inside, back) refl

pub out_put :
    (d : Blocks) (src : Buffer) (n k j : ℕ) → (j < k) ⊎ (k + n ≤ j) → put d src n k j ≡ d j
out_put d src n k j h =
    let outside : (leb k j && ltb j (k + n)) ≡ false = ground arith in rw outside refl

pub blocks_of : (n : ℕ) → n * block_size / block_size ≡ n
blocks_of n = omega arith

abbrev pub test_system : System
test_system = record {
  Disk = Blocks;
  block = λ d j. d j;
  sha512 = λ b. b;
  pwrite = λ d src n k. (moved n, put d src (n / block_size) (k / block_size));
  pread = λ d n k. (moved n, λ i. d (k / block_size + i));
  malloc_fails = λ n. false;
  qsort = λ cmp l. l;
  pwrite_data = λ d src n k i full h. rw (blocks_of n, blocks_of k) (in_put d src n k i h);
  pwrite_frame = λ d src n k j h. rw (blocks_of n, blocks_of k) (out_put d src n k j h);
  pread_data = λ d n k i full h. rw (blocks_of k) refl;
  qsort_perm = λ cmp l. Perm.refl l;
}

abbrev pub Any : Block → Type 0
Any b = Unit

abbrev pub file : FilePath
file = 47 ∷ 97 ∷ []

abbrev pub one : Block
one = 1 ∷ []

abbrev pub two : Block
two = 2 ∷ []

abbrev pub test_disk : Blocks
test_disk j = if j == 0 then one else []

abbrev pub info_one : MasterInfo
info_one = record { hash = one; master_block_index = 0; refcount = 2 }

abbrev pub test_index : Index
test_index = record {
  hash_to_master = (one, 0) ∷ [];
  file_to_master = (indice file 0, 0) ∷ (indice file 1, 0) ∷ [];
  free_block_list = 1 ∷ [];
  file_to_sizes = (file, 8192) ∷ [];
  infos = λ p. if p == 0 then some info_one else none;
  next_info = 1;
}

one_info : (p : ℕ) (m : MasterInfo) → test_index.infos p ≡ some m → (p ≡ 0) × (m ≡ info_one)
one_info p m h = (ground arith, ground arith)

one_hash : (h : Digest) (p : ℕ) → lookup h test_index.hash_to_master ≡ some p → (h ≡ one) × (p ≡ 0)
unfolding lookup bytes_equal
one_hash h p e = (ground (arith, bytes_equal_iff one h), ground arith)

pub test_index-Inv : Inv test_system Any test_disk 2 [] [] [] test_index
unfolding lookup bytes_equal block_indice_equal Distinct holders
test_index-Inv = record {
  distinct_hash = (refl, tt);
  distinct_file = (refl, (refl, tt));
  fresh = λ p h. ground arith;
  hashed = λ h p e. (
    info_one,
    record { live = ground (arith, one_hash h p e); listed = ground (arith, one_hash h p e) },
    ground (arith, one_hash h p e),
  );
  linked = λ k p e. (info_one, record { live = ground arith; listed = ground arith });
  held = λ p h. absurd (omega arith);
  stored = λ p m h. record { digest = ground (arith, one_info p m h.live); known = tt };
  counted = λ p m h. ground (arith, one_info p m h);
  positive = λ p m h. ground (arith, one_info p m h);
  owned = λ p m h. ground (arith, one_info p m h);
  slot_once = λ s. ground arith;
  slot_below = λ s h. ground (arith, h);
  slot_used = λ p m h. ground (arith, one_info p m h.live);
  slot_owner = λ p q m n h k e. ground (arith, one_info p m h.live, one_info q n k.live);
}

-- The same system with a disk that is full: every pwrite puts its bytes and then fails with ENOSPC.
abbrev pub full_system : System
full_system = record test_system {
  pwrite = λ d src n k. (failed 27, put d src (n / block_size) (k / block_size));
  pwrite_data = λ d src n k i full h. absurd (ground (arith, full));
  pwrite_frame = λ d src n k j h. rw (blocks_of n, blocks_of k) (out_put d src n k j h);
}

pub full_system-Inv : Inv full_system Any test_disk 2 [] [] [] test_index
full_system-Inv =
    let v = test_index-Inv in
    record {
      distinct_hash = v.distinct_hash;
      distinct_file = v.distinct_file;
      fresh = v.fresh;
      hashed = v.hashed;
      linked = v.linked;
      held = v.held;
      stored = λ p m h. let s = v.stored p m h in record { digest = s.digest; known = s.known };
      counted = v.counted;
      positive = v.positive;
      owned = v.owned;
      slot_once = v.slot_once;
      slot_below = v.slot_below;
      slot_used = v.slot_used;
      slot_owner = v.slot_owner;
    }

-- The store when a write of new content is flushed and not yet in the index.
abbrev pub info_two : MasterInfo
info_two = record { hash = two; master_block_index = 1; refcount = 1 }

abbrev pub pending_disk : Blocks
pending_disk j = if j == 0 then one else two

abbrev pub pending_index : Index
pending_index = record {
  hash_to_master = (one, 0) ∷ [];
  file_to_master = (indice file 0, 0) ∷ (indice file 1, 0) ∷ [];
  free_block_list = [];
  file_to_sizes = (file, 8192) ∷ [];
  infos = λ p. if p == 0 then some info_one else (if p == 1 then some info_two else none);
  next_info = 2;
}

abbrev pub pending_plan : List PlanEntry
pending_plan =
    record { kind = miss; logical_blk = 1; master_blk = 1; payload = 0; hash = two; info = 1 } ∷ []

pub two_infos :
    (p : ℕ) (m : MasterInfo)
    → pending_index.infos p ≡ some m
    → (p ≡ 0) × (m ≡ info_one) ⊎ (p ≡ 1) × (m ≡ info_two)
two_infos p m h = ground arith

only_one : (p : ℕ) (m : MasterInfo) → Published pending_index p m → (p ≡ 0) × (m ≡ info_one)
unfolding lookup bytes_equal
only_one p m h = elim (two_infos p m h.live) [
  | inl e ↦ e
  | inr (a, b) ↦ absurd (ground (arith, b, h.listed))
]

pub pending_index-Inv : Inv test_system Any pending_disk 2 (1 ∷ []) (1 ∷ []) (1 ∷ []) pending_index
unfolding lookup bytes_equal block_indice_equal Distinct holders
pending_index-Inv = record {
  distinct_hash = (refl, tt);
  distinct_file = (refl, (refl, tt));
  fresh = λ p h. ground arith;
  hashed = λ h p e. (
    info_one,
    record { live = ground (arith, one_hash h p e); listed = ground (arith, one_hash h p e) },
    ground (arith, one_hash h p e),
  );
  linked = λ k p e. (info_one, record { live = ground arith; listed = ground arith });
  held = λ p h. (info_two, ground arith);
  stored = λ p m h. record { digest = ground (arith, only_one p m h); known = tt };
  counted = λ p m h. ground (arith, two_infos p m h);
  positive = λ p m h. ground (arith, two_infos p m h);
  owned = λ p m h. ground (arith, two_infos p m h);
  slot_once = λ s. ground arith;
  slot_below = λ s h. ground (arith, h);
  slot_used = λ p m h. ground (arith, only_one p m h);
  slot_owner = λ p q m n h k e. ground (arith, only_one p m h, only_one q n k);
}
