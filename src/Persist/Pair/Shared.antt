-- ===== src/Persist/Pair/Shared.antt =====
-- The tables with places for pointers, on their way to the files and back.
use dedup_block_fs.Base.{
  ℕ, zero, suc, ◌-◌, ◌≡◌, refl, sym, ap, ◌∙◌, subst, inl, inr, Bool-cases, true, Option, none, some,
  List, [], ◌∷◌, ◌++◌, ltb, All, length, get_elem?, arith,
}
use mathlib.Core.List.{append_assoc, append-nil}
use dedup_block_fs.Keys.{FilePath}
use dedup_block_fs.Table.{Key, Table, equal, lookup, insert, Distinct}
use dedup_block_fs.Table.Build.{insert_next}
use dedup_block_fs.Index.{Ptr, MasterInfo}
use dedup_block_fs.Persist.{FileSystem}
use dedup_block_fs.Persist.Working.{Working, Others, Others-refl, Others-trans}
use dedup_block_fs.Persist.Io.{BufferedIo}
use dedup_block_fs.Persist.Io.Writes.{Writes}
use dedup_block_fs.Persist.Elem.{Encode, encode_size_elem, write_elem_buffered}
use dedup_block_fs.Persist.Tables.Entries.{entry_bytes, entries_bytes, write_entry-Writes}
use dedup_block_fs.Persist.Pair.{
  pointer_key, IndexedValues, objects, share_values, save_indexed_entries,
}
use dedup_block_fs.Persist.Pair.Places.{Placed, HasPlace, AllPlaced, get_elem?-lt}

-- The place of a pointer.
abbrev pub place_of : Option ℕ → ℕ
place_of none = 0
place_of (some stored) = stored - 1

abbrev pub place : IndexedValues → Ptr → ℕ
place c p = place_of (lookup p c.value_to_index)

abbrev pub places : {K : Type 0} → IndexedValues → Table K Ptr → Table K ℕ
places c [] = []
places c ((k, p) ∷ t) = (k, place c p) ∷ places c t

abbrev pub placed_at : IndexedValues → Option Ptr → Option ℕ
placed_at c none = none
placed_at c (some p) = some (place c p)

pub length-places :
    {K : Type 0} (c : IndexedValues) (t : Table K Ptr) → length (places c t) ≡ length t
length-places c [] = refl
length-places c ((k, p) ∷ t) = omega (arith, length-places c t)

-- A pointer with a place stands at that place.
pub at_place :
    (c : IndexedValues) (p : Ptr)
    → Placed c
    → HasPlace c p
    → get_elem? c.values (place c p) ≡ some p
at_place c p h (s, e) = rw e (h p s e).1

module _ {K : Type 0} ⦃e : Key K⦄ where
  pub lookup-places :
      (c : IndexedValues) (k : K) (t : Table K Ptr)
      → lookup k (places c t) ≡ placed_at c (lookup k t)
  unfolding lookup
  lookup-places c k [] = refl
  lookup-places c k ((j, p) ∷ t) = elim (Bool-cases (equal j k)) [
    | inl i ↦ rw i refl
    | inr o ↦ rw o (lookup-places c k t)
  ]

  pub Distinct-places : (c : IndexedValues) (t : Table K Ptr) → Distinct t → Distinct (places c t)
  unfolding Distinct
  Distinct-places c [] d = tt
  Distinct-places c ((j, p) ∷ t) d =
      (lookup-places c j t ∙ ap (placed_at c) d.0, Distinct-places c t d.1)

  -- Every place lies in the array, so every entry comes back.
  share-places :
      (c : IndexedValues) (t : Table K Ptr) (before : Table K ℕ)
      → Placed c
      → AllPlaced c t
      → Distinct (before ++ places c t)
      → share_values (length c.values) (places c t) before ≡ before ++ places c t
  unfolding share_values
  share-places c [] before h a d = sym (append-nil before)
  share-places c ((k, p) ∷ t) before h (has, a) d =
      let inside : ltb (place c p) (length c.values) ≡ true =
        ground (arith, get_elem?-lt c.values (place c p) p (at_place c p h has)) in
      let next = insert_next k (place c p) before (places c t) d in
      rw (share_values, inside)
        (share-places c t (insert k (place c p) before) h a (subst (λ s. Distinct s) (sym next) d)
          ∙ next)

  pub share-all :
      (c : IndexedValues) (t : Table K Ptr) (len : ℕ)
      → len ≡ length c.values
      → Placed c
      → AllPlaced c t
      → Distinct t
      → share_values len (places c t) [] ≡ places c t
  share-all c t len same h a d =
      ap (λ n. share_values n (places c t) []) same
      ∙ share-places c t [] h a (Distinct-places c t d)

-- The objects behind one more pointer.
first_object :
    (infos : Ptr → Option MasterInfo) (q : Ptr) (m : MasterInfo) (l : List Ptr)
    (ms : List MasterInfo)
    → infos q ≡ some m
    → ((i : ℕ) (p : Ptr) → get_elem? l i ≡ some p → get_elem? ms i ≡ infos p)
    → (i : ℕ) (p : Ptr) → get_elem? (q ∷ l) i ≡ some p
    → get_elem? (m ∷ ms) i ≡ infos p
first_object infos q m l ms e f zero p h = sym e ∙ ap infos (ground (arith, h))
first_object infos q m l ms e f (suc i) p h = f i p h

pub objects-get :
    (infos : Ptr → Option MasterInfo) (l : List Ptr)
    → All (λ p. (m : MasterInfo) × (infos p ≡ some m)) l
    → (ms : List MasterInfo) × (objects infos l ≡ some ms)
      × (length ms ≡ length l)
      × ((i : ℕ) (p : Ptr) → get_elem? l i ≡ some p → get_elem? ms i ≡ infos p)
      × All (λ m. (p : Ptr) × (infos p ≡ some m)) ms
unfolding objects
objects-get infos [] a = ([], refl, refl, (λ i p h. absurd (ground (arith, h))), tt)
objects-get infos (q ∷ l) ((m, e), a) =
    let (ms, run, len, get, live) = objects-get infos l a in
    (
      m ∷ ms,
      rw (objects, e, run) refl,
      omega (arith, len),
      (λ i p' h. first_object infos q m l ms e get i p' h),
      ((q, e), live),
    )

module _ {K : Type 0} (key : Encode K) {files : FileSystem} (w : Working files) where
  open files use {Fs}

  -- An entry whose value has a place is written.
  known_step :
      (c : IndexedValues) (k : K) (p : Ptr) (t : Table K Ptr) (s : ℕ) (io io1 io2 : BufferedIo)
      (fs fs1 fs2 : Fs) (result : BufferedIo × Fs)
      → lookup p c.value_to_index ≡ some s
      → write_elem_buffered files io (key k) fs ≡ some (io1, fs1)
      → write_elem_buffered files io1 (encode_size_elem (place c p)) fs1 ≡ some (io2, fs2)
      → save_indexed_entries files key c.value_to_index t io2 fs2 ≡ some result
      → save_indexed_entries files key c.value_to_index ((k, p) ∷ t) io fs ≡ some result
  unfolding save_indexed_entries
  known_step c k p t s io io1 io2 fs fs1 fs2 result e run run' more =
      let second : write_elem_buffered files io1 (encode_size_elem (s - 1)) fs1 ≡ some (io2, fs2) =
        ap (λ o. write_elem_buffered files io1 (encode_size_elem (place_of o)) fs1) (sym e)
        ∙ run' in
      rw (save_indexed_entries, e, run, second) more

  -- What is saved of a table is the table with places for pointers.
  pub save_indexed_entries-Writes :
      (c : IndexedValues) (t : Table K Ptr) (fs : Fs) (io : BufferedIo) (path : FilePath)
      (sofar : List ℕ)
      → AllPlaced c t
      → Writes w fs io path sofar
      → (io' : BufferedIo) × (fs' : Fs) × (save_indexed_entries files key c.value_to_index t io fs
          ≡ some (io', fs'))
        × Writes w fs' io' path (sofar ++ entries_bytes key encode_size_elem (places c t))
        × Others w path fs fs'
  unfolding save_indexed_entries
  save_indexed_entries-Writes c [] fs io path sofar a h = (
    io,
    fs,
    refl,
    subst (λ s. Writes w fs io path s) (sym (append-nil sofar)) h,
    Others-refl w path fs,
  )
  save_indexed_entries-Writes c ((k, p) ∷ t) fs io path sofar ((s, e), a) h =
      let entry = entry_bytes key encode_size_elem (k, place c p) in
      let (io1, fs1, io2, fs2, run, run', h2, o) =
        write_entry-Writes key encode_size_elem w k (place c p) fs io path sofar h in
      let (io3, fs3, more, h3, o') =
        save_indexed_entries-Writes c t fs2 io2 path (sofar ++ entry) a h2 in
      (
        io3,
        fs3,
        known_step c k p t s io io1 io2 fs fs1 fs2 (io3, fs3) e run run' more,
        subst (λ l. Writes w fs3 io3 path l)
            (append_assoc sofar entry (entries_bytes key encode_size_elem (places c t))) h3,
        Others-trans w path fs fs2 fs3 o o',
      )
