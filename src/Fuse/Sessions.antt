-- ===== src/Fuse/Sessions.antt =====
-- Requests one after the other.
use dedup_block_fs.Base.{ℕ, ◌<◌, ◌≡◌, sym, ◌∙◌, subst, inl, inr, true, some, List, [], ◌∷◌}
use mathlib.Core.Option.{some-injective}
use dedup_block_fs.Base.Int.{ℤ, is_neg}
use dedup_block_fs.Index.Slots.{Accounted}
use dedup_block_fs.Dedup.Write.Slots.{SlotsKept}
use dedup_block_fs.System.{System, Block}
use dedup_block_fs.Fuse.{Host, Mount}
use dedup_block_fs.Fuse.Ok.{StoreOk}
use dedup_block_fs.Fuse.Spec.{Files, Request, meaning, view, serve, Fits}
use dedup_block_fs.Fuse.Refine.{Served, serve-Served}

-- Requests with their results, the last one first.
abbrev pub Answers : Type 0
Answers = List (Request × ℤ)

-- The requests on the files alone: each does what it means or, where it is answered with an error,
-- may do nothing.
pub data FilesSession (f : Files) : Answers → Files → Type 0 where
  begin : FilesSession f [] f
  took :
      {g : Files} {done : Answers} (r : Request) (res : ℤ)
      → FilesSession f done g
      → FilesSession f ((r, res) ∷ done) (meaning r g)
  refused :
      {g : Files} {done : Answers} (r : Request) (res : ℤ)
      → is_neg res ≡ true
      → FilesSession f done g
      → FilesSession f ((r, res) ∷ done) g

-- `U` are the blocks that are ever stored; no two of them have one digest.
module _ (os : System) (host : Host) (U : Block → Type 0)
    (apart : (b b' : Block) → U b → U b' → os.sha512 b ≡ os.sha512 b' → b ≡ b') where
  -- The handlers serve the requests; each request fits when its turn comes.
  pub data Session (m : Mount os host) : Answers → Mount os host → Type 0 where
    start : Session m [] m
    next :
        {m1 m2 : Mount os host} {done : Answers} (r : Request) (res : ℤ)
        → Session m done m1
        → Fits os host U r m1
        → serve os host r m1 ≡ some (res, m2)
        → Session m ((r, res) ∷ done) m2

  answered :
      {m1 m2 : Mount os host} (r : Request) (res : ℤ)
      → StoreOk os U m1.store
      → Fits os host U r m1
      → serve os host r m1 ≡ some (res, m2)
      → Served os host U apart r m1 res m2
  answered {m1} r res v fits run =
      let (res', m', run', s) = serve-Served os host U apart r m1 fits v in
      subst (λ a. Served os host U apart r m1 a.0 a.1) (some-injective _ _ (sym run' ∙ run)) s

  ok_after :
      {m m' : Mount os host} {done : Answers}
      → Session m done m'
      → StoreOk os U m.store
      → StoreOk os U m'.store
  ok_after start v = v
  ok_after (next r res before fits run) v = (answered r res (ok_after before v) fits run).ok

  slots_after :
      {m m' : Mount os host} {done : Answers}
      → Session m done m'
      → StoreOk os U m.store
      → SlotsKept m.store m'.store
  slots_after start v s a below = a below
  slots_after (next r res before fits run) v s a below =
      (answered r res (ok_after before v) fits run).slots s (λ b. slots_after before v s a b) below

  -- Where no two blocks that are stored have one digest, the store agrees at the start and every
  -- request (a write of whole blocks, a truncation, an unlink) fits when its turn comes, the index,
  -- the master file and the sizes agree after the requests. If every slot of the master file was
  -- free or had the block of a MasterInfo at the start, every slot is or has at the end, whatever
  -- transfers failed on the way; and the next request that fits is answered.
  pub Session-StoreOk :
      {m m' : Mount os host} {done : Answers}
      → Session m done m'
      → StoreOk os U m.store
      → ((s : ℕ) → s < m.store.next_block_index → Accounted m.store.index [] s)
      → StoreOk os U m'.store
        × ((s : ℕ) → s < m'.store.next_block_index → Accounted m'.store.index [] s)
        × ((r : Request)
            → Fits os host U r m'
            → (res : ℤ) × (m'' : Mount os host) × Session m ((r, res) ∷ done) m'')
  Session-StoreOk session v full = (
    ok_after session v,
    λ s below. slots_after session v s (full s) below,
    λ r fits.
        let (res, m'', run, s) = serve-Served os host U apart r _ fits (ok_after session v) in
        (res, m'', next r res session fits run),
  )

  -- Where no two blocks that are stored have one digest, the store agrees at the start and every
  -- request (a write of whole blocks, a truncation, an unlink) fits when its turn comes: what the
  -- requests leave for the user is what the same requests, with the same results, leave of the
  -- files alone.
  pub Session-FilesSession :
      {m m' : Mount os host} {done : Answers}
      → Session m done m'
      → StoreOk os U m.store
      → FilesSession (view os m.store) done (view os m'.store)
  Session-FilesSession start v = begin
  Session-FilesSession {m} (next {done} r res before fits run) v =
      let earlier = Session-FilesSession before v in
      elim (answered r res (ok_after before v) fits run).files [
        | inl e ↦
            subst (λ f. FilesSession (view os m.store) ((r, res) ∷ done) f) (sym e)
              (took r res earlier)
        | inr (neg, e) ↦
            subst (λ f. FilesSession (view os m.store) ((r, res) ∷ done) f) (sym e)
              (refused r res neg earlier)
      ]
