-- ===== src/Dedup/Plan/Entries.antt =====
-- What a plan holds: references, pending MasterInfos, slots; and what pass 1 makes true of it.
use dedup_block_fs.Base.{
  ℕ, suc, ◌+◌, ◌≤◌, ◌<◌, ◌≡◌, refl, ◌∙◌, ◌⊎◌, inl, inr, none, some, List, [], ◌∷◌, count, arith,
  All,
}
use dedup_block_fs.Keys.{Digest, bytes_key}
use dedup_block_fs.Table.{Table, lookup, insert}
use dedup_block_fs.Table.Laws.{lookup-insert}
use dedup_block_fs.Index.{Index, Ptr, MasterInfo}
use dedup_block_fs.System.{System, Buffer, add64}
use dedup_block_fs.Dedup.Plan.{PlanEntry, PlanKind, hit, miss, miss_count}

abbrev pub refs_of : List PlanEntry → List Ptr
refs_of [] = []
refs_of (e ∷ rest) = e.info ∷ refs_of rest

-- The MasterInfos of the MISSes, and their slots.
abbrev pub pend_of : List PlanEntry → List Ptr
pend_of [] = []
pend_of (e ∷ rest) = elim e.kind [ hit ↦ pend_of rest | miss ↦ e.info ∷ pend_of rest ]

abbrev pub slots_of : List PlanEntry → List ℕ
slots_of [] = []
slots_of (e ∷ rest) = elim e.kind [ hit ↦ slots_of rest | miss ↦ e.master_blk ∷ slots_of rest ]

-- The digests of the MISSes are not in the table, and no two of them are the same.
abbrev pub Fresh : Table Digest Ptr → List PlanEntry → Type 0
Fresh t [] = Unit
Fresh t (e ∷ rest) = elim e.kind [
  | hit ↦ Fresh t rest
  | miss ↦ (lookup e.hash t ≡ none) × Fresh (insert e.hash e.info t) rest
]

-- The MasterInfos of the MISSes were allocated one after the other, from `bound` on.
abbrev pub Rising : Ptr → List PlanEntry → Type 0
Rising bound [] = Unit
Rising bound (e ∷ rest) = elim e.kind [
  | hit ↦ Rising bound rest
  | miss ↦ (bound ≤ e.info) × Rising (suc e.info) rest
]

-- The MasterInfo of an entry is live, with the entry's digest.
abbrev pub Live : Index → PlanEntry → Type 0
Live ix e = (m : MasterInfo) × (ix.infos e.info ≡ some m) × (m.hash ≡ e.hash)

-- The entry at block `i` of the request.
pub record Describes (os : System) (buf : Buffer) (start_block i : ℕ) (e : PlanEntry) : Type 0 where
  pub payload_is : e.payload ≡ i
  pub logical_is : e.logical_blk ≡ add64 start_block i
  pub hash_is : e.hash ≡ os.sha512 (buf i)

-- The entries are those of the blocks i, i + 1, ... of the request.
abbrev pub Covers : System → Buffer → ℕ → ℕ → List PlanEntry → Type 0
Covers os buf start_block i [] = Unit
Covers os buf start_block i (e ∷ rest) =
    Describes os buf start_block i e × Covers os buf start_block (i + 1) rest

pub Rising-count :
    (bound p : Ptr) (plan : List PlanEntry)
    → Rising bound plan
    → p < bound
    → count p (pend_of plan) ≡ 0
Rising-count bound p [] r h = refl
Rising-count bound p (e ∷ rest) r h =
    ground (arith, Rising-count bound p rest, Rising-count (suc e.info) p rest)

pub Rising-weaken : (a b : Ptr) (plan : List PlanEntry) → Rising b plan → a ≤ b → Rising a plan
Rising-weaken a b [] r h = tt
Rising-weaken a b (e ∷ rest) r h = ground (arith, Rising-weaken a b rest)

lookup-insert-none :
    (h k : Digest) (p : Ptr) (t : Table Digest Ptr)
    → lookup h (insert k p t) ≡ none
    → lookup h t ≡ none
lookup-insert-none h k p t e = ground (arith, lookup-insert h k p t)

-- The digest of no MISS is in the table.
abbrev pub Unlisted : Table Digest Ptr → List PlanEntry → Type 0
Unlisted t [] = Unit
Unlisted t (e ∷ rest) = elim e.kind [
  | hit ↦ Unlisted t rest
  | miss ↦ (lookup e.hash t ≡ none) × Unlisted t rest
]

Unlisted-insert :
    (t : Table Digest Ptr) (k : Digest) (p : Ptr) (plan : List PlanEntry)
    → Unlisted (insert k p t) plan
    → Unlisted t plan
Unlisted-insert t k p [] h = tt
Unlisted-insert t k p (e ∷ rest) h =
    ground (arith, Unlisted-insert t k p rest, lookup-insert-none e.hash k p t)

pub Fresh-Unlisted : (t : Table Digest Ptr) (plan : List PlanEntry) → Fresh t plan → Unlisted t plan
Fresh-Unlisted t [] h = tt
Fresh-Unlisted t (e ∷ rest) h = ground (
  arith,
  Fresh-Unlisted t rest,
  Fresh-Unlisted (insert e.hash e.info t) rest,
  Unlisted-insert t e.hash e.info rest,
)

pub kind_cases : (k : PlanKind) → (k ≡ hit) ⊎ (k ≡ miss)
kind_cases hit = inl refl
kind_cases miss = inr refl

-- The same entries, but for their slots.
abbrev pub Slotted : List PlanEntry → List PlanEntry → Type 0
Slotted [] [] = Unit
Slotted [] (f ∷ fs) = ⊥
Slotted (e ∷ es) [] = ⊥
Slotted (e ∷ es) (f ∷ fs) =
    ((f.kind ≡ e.kind)
      × (f.logical_blk ≡ e.logical_blk)
      × (f.payload ≡ e.payload)
      × (f.hash ≡ e.hash)
      × (f.info ≡ e.info))
    × Slotted es fs

pub Slotted-refs : (es fs : List PlanEntry) → Slotted es fs → refs_of fs ≡ refs_of es
Slotted-refs [] [] s = refl
Slotted-refs [] (f ∷ fs) s = absurd s
Slotted-refs (e ∷ es) [] s = absurd s
Slotted-refs (e ∷ es) (f ∷ fs) s = ground (arith, Slotted-refs es fs s.1)

pub Slotted-pend : (es fs : List PlanEntry) → Slotted es fs → pend_of fs ≡ pend_of es
Slotted-pend [] [] s = refl
Slotted-pend [] (f ∷ fs) s = absurd s
Slotted-pend (e ∷ es) [] s = absurd s
Slotted-pend (e ∷ es) (f ∷ fs) s = ground (arith, Slotted-pend es fs s.1)

pub Slotted-count : (es fs : List PlanEntry) → Slotted es fs → miss_count fs ≡ miss_count es
unfolding miss_count
Slotted-count [] [] s = refl
Slotted-count [] (f ∷ fs) s = absurd s
Slotted-count (e ∷ es) [] s = absurd s
Slotted-count (e ∷ es) (f ∷ fs) s = ground (arith, Slotted-count es fs s.1)

pub Slotted-Covers :
    (os : System) (buf : Buffer) (start_block i : ℕ) (es fs : List PlanEntry)
    → Slotted es fs
    → Covers os buf start_block i es
    → Covers os buf start_block i fs
Slotted-Covers os buf start_block i [] [] s c = tt
Slotted-Covers os buf start_block i [] (f ∷ fs) s c = absurd s
Slotted-Covers os buf start_block i (e ∷ es) [] s c = absurd s
Slotted-Covers os buf start_block i (e ∷ es) (f ∷ fs) ((k, l, p, h, n), s) (d, c) = (
  record { payload_is = p ∙ d.payload_is; logical_is = l ∙ d.logical_is; hash_is = h ∙ d.hash_is },
  Slotted-Covers os buf start_block (i + 1) es fs s c,
)

pub Slotted-Fresh :
    (t : Table Digest Ptr) (es fs : List PlanEntry) → Slotted es fs → Fresh t es → Fresh t fs
Slotted-Fresh t [] [] s c = tt
Slotted-Fresh t [] (f ∷ fs) s c = absurd s
Slotted-Fresh t (e ∷ es) [] s c = absurd s
Slotted-Fresh t (e ∷ es) (f ∷ fs) s c =
    ground (arith, Slotted-Fresh t es fs s.1, Slotted-Fresh (insert e.hash e.info t) es fs s.1)

-- A MasterInfo that is live stays live, with its digest.
abbrev pub Forward : Index → Index → Type 0
Forward ix ix' =
    (q : Ptr) (m : MasterInfo)
    → ix.infos q ≡ some m
    → (m' : MasterInfo) × (ix'.infos q ≡ some m') × (m'.hash ≡ m.hash)

pub Forward-trans : (ix ix' ix'' : Index) → Forward ix ix' → Forward ix' ix'' → Forward ix ix''
Forward-trans ix ix' ix'' f g q m h =
    let (m', a, b) = f q m h in let (m'', a', b') = g q m' a in (m'', a', b' ∙ b)

pub Live-Forward :
    (ix ix' : Index) (plan : List PlanEntry)
    → Forward ix ix'
    → All (Live ix) plan
    → All (Live ix') plan
Live-Forward ix ix' [] f l = tt
Live-Forward ix ix' (e ∷ rest) f ((m, a, b), l) =
    let (m', a', b') = f e.info m a in ((m', a', b' ∙ b), Live-Forward ix ix' rest f l)

-- The slot of a MISS stands in its MasterInfo.
abbrev pub Placed : Index → PlanEntry → Type 0
Placed ix e = elim e.kind [
  | hit ↦ Unit
  | miss ↦
      (m : MasterInfo) × (ix.infos e.info ≡ some m)
      × (m.hash ≡ e.hash)
      × (m.master_block_index ≡ e.master_blk)
]
