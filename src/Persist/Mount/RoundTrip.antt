-- ===== src/Persist/Mount/RoundTrip.antt =====
-- The index after an unmount and a mount.
use dedup_block_fs.Base.{
  ℕ, ◌+◌, ◌^◌, ◌<◌, ◌≡◌, refl, sym, ap, ◌∙◌, inl, inr, ◌⊎◌, ◌↔◌, Option, Option-cases, some, List,
  [], ◌∷◌, ◌>>=◌, All, length, get_elem?, arith,
}
use mathlib.Core.Option.{some-injective}
use dedup_block_fs.Keys.{FilePath, BlockIndice, Digest, bytes_equal, bytes_key, block_indice_key}
use dedup_block_fs.Table.{Key, Table, lookup, Distinct}
use dedup_block_fs.Index.{Index, Ptr, MasterInfo}
use dedup_block_fs.Persist.{FileSystem}
use dedup_block_fs.Persist.Working.{Working}
use dedup_block_fs.Persist.Codec.{
  encode_master_info, decode_master_info, encode_hash, decode_hash, encode_block_indice,
  decode_block_indice, encode_free_block, decode_free_block, encode_size, decode_size, encode_str,
  decode_str,
}
use dedup_block_fs.Persist.Codec.RoundTrip.{
  IsString, IsMasterInfo, hash-Decodes, str-Decodes, size-Decodes, free_block-Decodes,
  block_indice-Decodes, master_info-Decodes,
}
use dedup_block_fs.Persist.Tables.RoundTrip.{gslist_save-bytes, gslist_load-list}
use dedup_block_fs.Persist.Tables.Entries.{ghash_save-bytes, ghash_load-table}
use dedup_block_fs.Persist.Pair.{IndexedValues, collect_values}
use dedup_block_fs.Persist.Pair.Places.{
  Placed, empty-Placed, AllPlaced, AllPlaced-Stays, placed_of_lookup, collect-Placed, collect-All,
  collect-length,
}
use dedup_block_fs.Persist.Pair.Shared.{
  place, places, placed_at, at_place, lookup-places, objects-get,
}
use dedup_block_fs.Persist.Pair.Saved.{ThreePaths, ghash_save_indexed_pair-PairSaved}
use dedup_block_fs.Persist.Pair.Loaded.{ghash_load_indexed_pair-places}
use dedup_block_fs.Persist.Mount.{
  table_path_hash_to_master, table_path_file_to_master, table_path_master_infos,
  table_path_file_to_sizes, table_path_free_block_list, index_init, index_destroy,
}

-- A predicate that follows from another.
map-All : {A : Type 0} {P Q : A → Type 0} (l : List A) → ((a : A) → P a → Q a) → All P l → All Q l
map-All [] f h = tt
map-All (a ∷ l) f (h, more) = (f a h, map-All l f more)

-- The object behind a pointer that may be there.
abbrev pub info_behind : Index → Option Ptr → Option MasterInfo
info_behind ix found = do p ← found; ix.infos p

-- The pointer of an entry of hash_to_master or of file_to_master.
abbrev pub entry_of : Index → Digest ⊎ BlockIndice → Option Ptr
entry_of ix (inl h) = lookup h ix.hash_to_master
entry_of ix (inr k) = lookup k ix.file_to_master

-- An index whose elements fit the format of the files.
pub record Savable (ix : Index) : Type 0 where
  pub digests : All (λ (entry : Digest × Ptr). length entry.0 ≡ 64) ix.hash_to_master
  pub indices :
      All
        (λ (entry : BlockIndice × Ptr). IsString entry.0.path × (entry.0.offset < 2 ^ 64))
        ix.file_to_master
  pub sizes : All (λ (entry : FilePath × ℕ). IsString entry.0 × (entry.1 < 2 ^ 64)) ix.file_to_sizes
  pub slots : All (λ s. s < 2 ^ 64) ix.free_block_list
  pub infos : (p : Ptr) (m : MasterInfo) → ix.infos p ≡ some m → IsMasterInfo m
  pub hash_live :
      All
        (λ (entry : Digest × Ptr). (m : MasterInfo) × (ix.infos entry.1 ≡ some m))
        ix.hash_to_master
  pub file_live :
      All
        (λ (entry : BlockIndice × Ptr). (m : MasterInfo) × (ix.infos entry.1 ≡ some m))
        ix.file_to_master
  pub distinct_hash : Distinct ix.hash_to_master
  pub distinct_file : Distinct ix.file_to_master
  pub distinct_sizes : Distinct ix.file_to_sizes
  pub short : length ix.hash_to_master + length ix.file_to_master < 2 ^ 31
  pub short_sizes : length ix.file_to_sizes < 2 ^ 31
  pub short_slots : length ix.free_block_list < 2 ^ 31

-- The index that is loaded says what the index that was saved said. The objects have other
-- addresses, and two entries share one now if and only if they shared one before.
pub record Reloaded (ix ix' : Index) : Type 0 where
  pub hashes :
      (h : Digest)
      → info_behind ix' (lookup h ix'.hash_to_master) ≡ info_behind ix (lookup h ix.hash_to_master)
  pub blocks :
      (k : BlockIndice)
      → info_behind ix' (lookup k ix'.file_to_master) ≡ info_behind ix (lookup k ix.file_to_master)
  pub shared :
      (j k : Digest ⊎ BlockIndice) (p q : Ptr)
      → entry_of ix j ≡ some p
      → entry_of ix k ≡ some q
      → (entry_of ix' j ≡ entry_of ix' k) ↔ (p ≡ q)
  pub sizes : ix'.file_to_sizes ≡ ix.file_to_sizes
  pub slots : ix'.free_block_list ≡ ix.free_block_list

-- The index that is loaded: the places of the saved objects are their addresses.
abbrev moved : IndexedValues → Index → List MasterInfo → Index
moved c ix ms = record ix {
  hash_to_master = places c ix.hash_to_master;
  file_to_master = places c ix.file_to_master;
  infos = get_elem? ms;
  next_info = length ms;
}

-- Object and sharing survive in the index of places.
placed-Reloaded :
    (c : IndexedValues) (ix ix' : Index) (ms : List MasterInfo)
    → Placed c
    → AllPlaced c ix.hash_to_master
    → AllPlaced c ix.file_to_master
    → ((i : ℕ) (p : Ptr) → get_elem? c.values i ≡ some p → get_elem? ms i ≡ ix.infos p)
    → ix' ≡ moved c ix ms
    → Reloaded ix ix'
placed-Reloaded c ix ix' ms h a1 a2 get e = rw e (record {
  hashes = λ k. found_same k ix.hash_to_master a1;
  blocks = λ k. found_same k ix.file_to_master a2;
  shared = λ j k p q e1 e2. (one_place j k p q e1 e2, same_place j k p q e1 e2);
  sizes = refl;
  slots = refl;
})
  where
    has_place :
        {K : Type 0} ⦃e : Key K⦄ (k : K) (t : Table K Ptr) (p : Ptr)
        → AllPlaced c t
        → lookup k t ≡ some p
        → get_elem? c.values (place c p) ≡ some p
    has_place k t p a found = at_place c p h (placed_of_lookup c k t p a found)

    found_same :
        {K : Type 0} ⦃e : Key K⦄ (k : K) (t : Table K Ptr)
        → AllPlaced c t
        → ◌>>=◌ (lookup k (places c t)) (get_elem? ms) ≡ ◌>>=◌ (lookup k t) ix.infos
    found_same k t a = elim (Option-cases (lookup k t)) [
      | inl gone ↦ rw (lookup-places c k t, gone) refl
      | inr (p, found) ↦
          rw (lookup-places c k t, found) (get (place c p) p (has_place k t p a found))
    ]

    -- An entry has the place of its pointer, where the pointer is.
    at_entry :
        (j : Digest ⊎ BlockIndice) (p : Ptr)
        → entry_of ix j ≡ some p
        → (entry_of (moved c ix ms) j ≡ some (place c p))
          × (get_elem? c.values (place c p) ≡ some p)
    at_entry (inl k) p found = (
      lookup-places c k ix.hash_to_master ∙ ap (placed_at c) found,
      has_place k ix.hash_to_master p a1 found,
    )
    at_entry (inr k) p found = (
      lookup-places c k ix.file_to_master ∙ ap (placed_at c) found,
      has_place k ix.file_to_master p a2 found,
    )

    one_place :
        (j k : Digest ⊎ BlockIndice) (p q : Ptr)
        → entry_of ix j ≡ some p
        → entry_of ix k ≡ some q
        → entry_of (moved c ix ms) j ≡ entry_of (moved c ix ms) k
        → p ≡ q
    one_place j k p q e1 e2 same =
        let (left, here) = at_entry j p e1 in
        let (right, there) = at_entry k q e2 in
        let one : place c p ≡ place c q = some-injective _ _ (sym left ∙ same ∙ right) in
        some-injective _ _ (sym here ∙ ap (get_elem? c.values) one ∙ there)

    same_place :
        (j k : Digest ⊎ BlockIndice) (p q : Ptr)
        → entry_of ix j ≡ some p
        → entry_of ix k ≡ some q
        → p ≡ q
        → entry_of (moved c ix ms) j ≡ entry_of (moved c ix ms) k
    same_place j k p q e1 e2 same =
        (at_entry j p e1).0 ∙ ap (λ x. some (place c x)) same ∙ sym (at_entry k q e2).0

module _ {files : FileSystem} (w : Working files) (padding : MasterInfo → List ℕ)
    (four : (m : MasterInfo) → length (padding m) ≡ 4) where
  open files use {Fs}

  -- On files that work, the unmount saves an index that fits the format, and the next mount loads
  -- an index that says the same: the same objects for every digest and every block of every file,
  -- any two of these entries sharing one if and only if they did before, the same sizes and the
  -- same free slots.
  pub index_destroy-init :
      (fs : Fs) (ix : Index)
      → Savable ix
      → (fs' : Fs) × (fs'' : Fs) × (ix' : Index) × (index_destroy files padding ix fs ≡ some fs')
        × (index_init files fs' ≡ some (ix', fs''))
        × Reloaded ix ix'
  unfolding index_destroy index_init bytes_equal
  index_destroy-init fs ix v =
      let none_yet : IndexedValues = record { value_to_index = []; values = [] } in
      let c = collect_values ix.file_to_master (collect_values ix.hash_to_master none_yet) in
      let val = encode_master_info padding in
      let (h1, stay1, all1) = collect-Placed ix.hash_to_master none_yet empty-Placed in
      let (h2, stay2, a2) =
        collect-Placed ix.file_to_master (collect_values ix.hash_to_master none_yet) h1 in
      let a1 =
        AllPlaced-Stays (collect_values ix.hash_to_master none_yet) c ix.hash_to_master stay2
          all1 in
      let live =
        collect-All (λ p. (m : MasterInfo) × (ix.infos p ≡ some m)) ix.file_to_master
          (collect_values ix.hash_to_master none_yet) v.file_live
          (collect-All (λ p. (m : MasterInfo) × (ix.infos p ≡ some m)) ix.hash_to_master none_yet
            v.hash_live tt) in
      let (ms, objs, len, get, from) = objects-get ix.infos c.values live in
      let small : length c.values < 2 ^ 31 = omega (
        arith,
        collect-length ix.file_to_master (collect_values ix.hash_to_master none_yet),
        collect-length ix.hash_to_master none_yet,
        v.short,
      ) in
      let paths : ThreePaths table_path_hash_to_master table_path_file_to_master
          table_path_master_infos =
        record { ne12 = refl; ne21 = refl; ne13 = refl; ne23 = refl; ne31 = refl; ne32 = refl } in
      let (fs1, save1, p1) =
        ghash_save_indexed_pair-PairSaved w table_path_hash_to_master table_path_file_to_master
          table_path_master_infos ix.hash_to_master ix.file_to_master encode_hash
          encode_block_indice val ix.infos c fs ms paths refl objs a1 a2 in
      let (fs2, save2, bytes2, o2) =
        ghash_save-bytes encode_str encode_size w fs1 table_path_file_to_sizes ix.file_to_sizes in
      let (fs3, save3, bytes3, o3) =
        gslist_save-bytes w encode_free_block fs2 table_path_free_block_list ix.free_block_list in
      let (fs4, load1, u4) =
        ghash_load_indexed_pair-places w encode_hash encode_block_indice val decode_hash
          decode_block_indice decode_master_info fs3 table_path_hash_to_master
          table_path_file_to_master table_path_master_infos c ix.hash_to_master ix.file_to_master ms
          h2 (a1, a2) (v.distinct_hash, v.distinct_file)
          (
            map-All ix.hash_to_master (λ a h. hash-Decodes a.0 h) v.digests,
            map-All ix.file_to_master (λ a h. block_indice-Decodes a.0 h.0 h.1) v.indices,
            map-All ms (λ m h. master_info-Decodes padding m (four m) (v.infos h.0 m h.1)) from,
          )
          (small, omega (arith, v.short), omega (arith, v.short)) len
          (o3.rest table_path_hash_to_master refl
            ∙ o2.rest table_path_hash_to_master refl
            ∙ p1.first)
          (o3.rest table_path_file_to_master refl
            ∙ o2.rest table_path_file_to_master refl
            ∙ p1.second)
          (o3.rest table_path_master_infos refl
            ∙ o2.rest table_path_master_infos refl
            ∙ p1.values) in
      let (fs5, load2, u5) =
        ghash_load-table encode_str encode_size w decode_str decode_size fs4
          table_path_file_to_sizes ix.file_to_sizes
          (map-All ix.file_to_sizes (λ a h. (str-Decodes a.0 h.0, size-Decodes a.1 h.1)) v.sizes)
          v.distinct_sizes v.short_sizes
          (u4.contents table_path_file_to_sizes ∙ o3.rest table_path_file_to_sizes refl ∙ bytes2) in
      let (fs6, load3, u6) =
        gslist_load-list w encode_free_block decode_free_block fs5 table_path_free_block_list
          ix.free_block_list (map-All ix.free_block_list (λ a h. free_block-Decodes a h) v.slots)
          v.short_slots
          (u5.contents table_path_free_block_list
            ∙ u4.contents table_path_free_block_list
            ∙ bytes3) in
      (
        fs3,
        fs6,
        record {
          hash_to_master = places c ix.hash_to_master;
          file_to_master = places c ix.file_to_master;
          free_block_list = ix.free_block_list;
          file_to_sizes = ix.file_to_sizes;
          infos = get_elem? ms;
          next_info = length ms;
        },
        rw (index_destroy, save1, save2) save3,
        rw (index_init, load1, load2, load3) refl,
        placed-Reloaded c ix _ ms h2 a1 a2 get refl,
      )
