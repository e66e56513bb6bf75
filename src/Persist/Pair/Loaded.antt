-- ===== src/Persist/Pair/Loaded.antt =====
-- Two tables that share their values, loaded from the three files that they were saved to.
use dedup_block_fs.Base.{◌^◌, ◌<◌, ◌≡◌, refl, ◌∙◌, some, List, [], ◌∷◌, All, length, arith}
use dedup_block_fs.Keys.{FilePath}
use dedup_block_fs.Table.{Key, Table, Distinct}
use dedup_block_fs.Index.{Ptr, MasterInfo}
use dedup_block_fs.Persist.{FileSystem}
use dedup_block_fs.Persist.Working.{Working}
use dedup_block_fs.Persist.Elem.{Encode, Decode, encode_size_elem, decode_size_elem}
use dedup_block_fs.Persist.Elem.RoundTrip.{Decodes}
use dedup_block_fs.Persist.Codec.RoundTrip.{size_elem-Decodes}
use dedup_block_fs.Persist.Tables.Saved.{Unchanged}
use dedup_block_fs.Persist.Tables.RoundTrip.{list_file, load_values_array-list}
use dedup_block_fs.Persist.Tables.Entries.{Entries, table_bytes, ghash_load-table}
use dedup_block_fs.Persist.Pair.{IndexedValues, ghash_load_indexed_pair}
use dedup_block_fs.Persist.Pair.Places.{Placed, AllPlaced, get_elem?-lt}
use dedup_block_fs.Persist.Pair.Shared.{
  place, places, at_place, length-places, Distinct-places, share-all,
}

-- Every key of the table can be decoded.
abbrev pub AllDecode : {K : Type 0} → Encode K → Decode K → Table K Ptr → Type 0
AllDecode key key' t = All (λ (entry : _ × Ptr). Decodes key key' entry.0) t

Entries-places :
    {K : Type 0} (key : Encode K) (key' : Decode K) (c : IndexedValues) (t : Table K Ptr)
    → Placed c
    → length c.values < 2 ^ 31
    → AllPlaced c t
    → AllDecode key key' t
    → Entries key encode_size_elem key' decode_size_elem (places c t)
Entries-places key key' c [] h small a d = tt
Entries-places key key' c ((k, p) ∷ t) h small (has, a) (dk, d) =
    let inside = get_elem?-lt c.values (place c p) p (at_place c p h has) in
    (
      (dk, size_elem-Decodes (place c p) (omega (arith, inside, small))),
      Entries-places key key' c t h small a d,
    )

module _ {files : FileSystem} (w : Working files) {K L : Type 0} ⦃e1 : Key K⦄ ⦃e2 : Key L⦄
    (key1 : Encode K) (key2 : Encode L) (val : Encode MasterInfo) (key1' : Decode K)
    (key2' : Decode L) (val' : Decode MasterInfo) where
  open files use {Fs}

  -- The tables come back with the places of their values for pointers, and the values in an array.
  pub ghash_load_indexed_pair-places :
      (fs : Fs) (path1 path2 values_path : FilePath) (c : IndexedValues) (t1 : Table K Ptr)
      (t2 : Table L Ptr) (ms : List MasterInfo)
      → Placed c
      → AllPlaced c t1 × AllPlaced c t2
      → Distinct t1 × Distinct t2
      → AllDecode key1 key1' t1 × AllDecode key2 key2' t2 × All (Decodes val val') ms
      → (length c.values < 2 ^ 31) × (length t1 < 2 ^ 31) × (length t2 < 2 ^ 31)
      → length ms ≡ length c.values
      → w.contents fs path1 ≡ table_bytes key1 encode_size_elem (places c t1)
      → w.contents fs path2 ≡ table_bytes key2 encode_size_elem (places c t2)
      → w.contents fs values_path ≡ list_file w val ms
      → (fs' : Fs) × (ghash_load_indexed_pair files path1 path2 values_path key1' key2' val' fs
          ≡ some (places c t1, places c t2, ms, fs'))
        × Unchanged w fs fs'
  unfolding ghash_load_indexed_pair
  ghash_load_indexed_pair-places fs path1 path2 values_path c t1 t2 ms h (a1, a2) (d1, d2)
        (k1, k2, vs) (small, small1, small2) len bytes1 bytes2 bytes3 =
      let (fs1, run1, u1) =
        load_values_array-list w val val' fs values_path ms vs (omega (arith, len, small)) bytes3 in
      let (fs2, run2, u2) =
        ghash_load-table key1 encode_size_elem w key1' decode_size_elem fs1 path1 (places c t1)
          (Entries-places key1 key1' c t1 h small a1 k1) (Distinct-places c t1 d1)
          (omega (arith, length-places c t1, small1)) (u1.contents path1 ∙ bytes1) in
      let (fs3, run3, u3) =
        ghash_load-table key2 encode_size_elem w key2' decode_size_elem fs2 path2 (places c t2)
          (Entries-places key2 key2' c t2 h small a2 k2) (Distinct-places c t2 d2)
          (omega (arith, length-places c t2, small2))
          (u2.contents path2 ∙ u1.contents path2 ∙ bytes2) in
      (
        fs3,
        rw
            (
              ghash_load_indexed_pair,
              run1,
              run2,
              run3,
              share-all c t1 (length ms) len h a1 d1,
              share-all c t2 (length ms) len h a2 d2,
            )
            refl,
        record {
          targets = λ fd. u3.targets fd ∙ u2.targets fd ∙ u1.targets fd;
          contents = λ path. u3.contents path ∙ u2.contents path ∙ u1.contents path;
        },
      )
