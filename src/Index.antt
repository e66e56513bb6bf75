-- ===== src/Index.antt =====
-- src/metaindex.c and includes/metaindex.h: the index with its tables, and the MasterInfo objects
-- behind the pointers that the tables share.
pub mod Inv
pub mod Recount
pub mod Slots
use dedup_block_fs.Base.{
  ℕ, ◌+◌, ◌-◌, ◌%◌, ◌^◌, ◌≡◌, Option, none, some, List, [], ◌∷◌, ◌++◌, ◌==◌, if◌then◌else◌, ◌>>=◌,
}
use dedup_block_fs.Keys.{Digest, FilePath, BlockIndice, bytes_key, block_indice_key}
use dedup_block_fs.Table.{Table, lookup, insert, remove}

abbrev pub Ptr : Type 0
Ptr = ℕ

-- `MasterInfo`
pub record MasterInfo : Type 0 where
  pub hash : Digest
  pub master_block_index : ℕ
  pub refcount : ℕ

-- `Index`, with the heap of its MasterInfo objects: `infos p` is none where nothing is allocated
-- or the object was freed, and `next_info` is the address that the next allocation returns.
pub record Index : Type 0 where
  pub hash_to_master : Table Digest Ptr
  pub file_to_master : Table BlockIndice Ptr
  pub free_block_list : List ℕ
  pub file_to_sizes : Table FilePath ℕ
  pub infos : Ptr → Option MasterInfo
  pub next_info : Ptr

abbrev pub indice : FilePath → ℕ → BlockIndice
indice path b = record { path = path; offset = b }

abbrev pub update : (Ptr → Option MasterInfo) → Ptr → Option MasterInfo → Ptr → Option MasterInfo
update f p m q = if p == q then m else f q

-- lookup_by_file_block
unfoldable pub lookup_by_file_block : Index → FilePath → ℕ → Option Ptr
lookup_by_file_block ix path b = lookup (indice path b) ix.file_to_master

-- insert_file_block
unfoldable pub insert_file_block : Index → FilePath → ℕ → Ptr → Index
insert_file_block ix path b p = record ix {
  file_to_master = insert (indice path b) p ix.file_to_master;
}

-- remove_file_block
unfoldable pub remove_file_block : Index → FilePath → ℕ → Index
remove_file_block ix path b = record ix {
  file_to_master = remove (indice path b) ix.file_to_master;
}

-- lookup_by_hash
unfoldable pub lookup_by_hash : Index → Digest → Option Ptr
lookup_by_hash ix h = lookup h ix.hash_to_master

-- insert_hash
unfoldable pub insert_hash : Index → Digest → Ptr → Index
insert_hash ix h p = record ix { hash_to_master = insert h p ix.hash_to_master }

-- remove_hash
unfoldable pub remove_hash : Index → Digest → Index
remove_hash ix h = record ix { hash_to_master = remove h ix.hash_to_master }

-- `*p = m` on a live object.
abbrev pub store : Index → Ptr → MasterInfo → Index
store ix p m = record ix { infos = update ix.infos p (some m) }

-- What free(p) leaves of a live object.
abbrev pub free : Index → Ptr → Index
free ix p = record ix { infos = update ix.infos p none }

-- free(p): there is no object to free where none was allocated, or where it was freed before.
unfoldable pub free_info : Index → Ptr → Option Index
free_info ix p = do m ← ix.infos p; some (free ix p)

-- uint32_t addition and subtraction.
abbrev pub add32 : ℕ → ℕ → ℕ
add32 a b = (a + b) % 2 ^ 32

abbrev pub sub32 : ℕ → ℕ → ℕ
sub32 a b = (a + 2 ^ 32 - b) % 2 ^ 32

-- __atomic_fetch_add(&p->refcount, 1, ...)
unfoldable pub fetch_add : Index → Ptr → Option Index
fetch_add ix p = do m ← ix.infos p; some (store ix p (record m { refcount = add32 m.refcount 1 }))
