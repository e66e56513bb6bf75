-- ===== src/Index/Slots.antt =====
-- Where the slots of the master file are, for src/metaindex.h's free_block_list and the
-- MasterInfos: a slot that nothing has any more is leaked.
use dedup_block_fs.Base.{ℕ, ◌+◌, ◌≤◌, ◌<◌, ◌≡◌, ◌⊎◌, inl, inr, ap, refl, ◌∙◌, List, count, arith}
use dedup_block_fs.Keys.{bytes_key}
use dedup_block_fs.Index.{Index, Ptr, MasterInfo}
use dedup_block_fs.Index.Inv.{Published}

-- The slot is on the free list, in the hands of a write under way, or it has the block of a
-- published MasterInfo.
abbrev pub Accounted : Index → List ℕ → ℕ → Type 0
Accounted ix reserved s =
    (0 < count s ix.free_block_list + count s reserved)
    ⊎ ((p : Ptr) × (m : MasterInfo) × Published ix p m × (m.master_block_index ≡ s))

-- No slot is lost on the way from `ix`, with `reserved` in hand, to `ix'`, with `reserved'`.
abbrev pub NoLeak : Index → List ℕ → Index → List ℕ → Type 0
NoLeak ix reserved ix' reserved' = (s : ℕ) → Accounted ix reserved s → Accounted ix' reserved' s

-- What is published stays so, in its slot.
abbrev pub Stays : Index → Index → Type 0
Stays ix ix' =
    (p : Ptr) (m : MasterInfo)
    → Published ix p m
    → (m' : MasterInfo) × Published ix' p m' × (m'.master_block_index ≡ m.master_block_index)

pub Stays-trans : (ix ix' ix'' : Index) → Stays ix ix' → Stays ix' ix'' → Stays ix ix''
Stays-trans ix ix' ix'' f g p m h =
    let (m1, h1, e1) = f p m h in let (m2, h2, e2) = g p m1 h1 in (m2, h2, e2 ∙ e1)

-- Where the infos and the digests are as before.
pub Stays-same :
    (ix ix' : Index) → ix'.infos ≡ ix.infos → ix'.hash_to_master ≡ ix.hash_to_master → Stays ix ix'
Stays-same ix ix' e f p m h =
    (m, record { live = ap (λ t. t p) e ∙ h.live; listed = rw f h.listed }, refl)

pub NoLeak-trans :
    (ix ix' ix'' : Index) (r r' r'' : List ℕ)
    → NoLeak ix r ix' r'
    → NoLeak ix' r' ix'' r''
    → NoLeak ix r ix'' r''
NoLeak-trans ix ix' ix'' r r' r'' f g s a = g s (f s a)

-- Slots may go to and fro between the hands and the free list, but no count of one may go down.
pub Stays-NoLeak :
    (ix ix' : Index) (r r' : List ℕ)
    → ((s : ℕ) → count s ix.free_block_list + count s r ≤ count s ix'.free_block_list + count s r')
    → Stays ix ix'
    → NoLeak ix r ix' r'
Stays-NoLeak ix ix' r r' up f s (inl h) = inl (omega (arith, up s, h))
Stays-NoLeak ix ix' r r' up f s (inr (p, m, h, e)) =
    let (m', h', e') = f p m h in inr (p, m', h', e' ∙ e)
