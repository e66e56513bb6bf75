-- ===== src/Persist/Pair/Saved.antt =====
-- The three files of two tables that share their values.
use dedup_block_fs.Base.{
  ℕ, ◌≡◌, refl, sym, ap, ◌∙◌, subst, Bool-cases, inl, inr, true, false, Option, none, some, List,
  [], ◌++◌, ◌==◌, length, arith,
}
use mathlib.Core.List.{append-nil}
use dedup_block_fs.Keys.{FilePath, bytes_equal, bytes_equal_iff}
use dedup_block_fs.Table.{Table}
use dedup_block_fs.Index.{Ptr, MasterInfo}
use dedup_block_fs.Fuse.{ok}
use dedup_block_fs.Persist.{FileSystem, bytes_at, save_flags, mode_644}
use dedup_block_fs.Persist.Working.{Working, Others, Others-trans}
use dedup_block_fs.Persist.Io.{BufferedIo, io_buffer_size, buffered_io_init}
use dedup_block_fs.Persist.Io.Writes.{Writes, buffered_write-Writes, flush-Writes}
use dedup_block_fs.Persist.Elem.{word_bytes, Encode, encode_size_elem}
use dedup_block_fs.Persist.Tables.{save_values_array}
use dedup_block_fs.Persist.Tables.RoundTrip.{list_file, save_values_array-bytes}
use dedup_block_fs.Persist.Tables.Entries.{entries_bytes, table_bytes}
use dedup_block_fs.Persist.Tables.Saved.{init-fresh}
use dedup_block_fs.Persist.Pair.{
  IndexedValues, objects, save_indexed_table, ghash_save_indexed_pair, all_values,
}
use dedup_block_fs.Persist.Pair.Places.{AllPlaced}
use dedup_block_fs.Persist.Pair.Shared.{places, length-places, save_indexed_entries-Writes}

module _ {files : FileSystem} (w : Working files) where
  open files use {Fs, open_file, close}

  -- A context does not notice what happens to other files.
  Writes-Others :
      (fs fs' : Fs) (io : BufferedIo) (path other : FilePath) (sofar : List ℕ)
      → bytes_equal other path ≡ false
      → Others w other fs fs'
      → Writes w fs io path sofar
      → Writes w fs' io path sofar
  Writes-Others fs fs' io path other sofar ne o v =
      let same = o.rest path ne in
      record {
        opened = o.targets io.fd ∙ v.opened;
        bytes = ap (λ l. l ++ bytes_at io.buffer 0 io.buffer_pos) same ∙ v.bytes;
        offset = v.offset ∙ ap (λ l. length l) (sym same);
        fits = v.fits;
        size = v.size;
      }

  -- The file of one of the tables.
  save_indexed_table-bytes :
      {K : Type 0} (key : Encode K) (c : IndexedValues) (t : Table K Ptr) (fs : Fs)
      (io : BufferedIo) (path : FilePath)
      → AllPlaced c t
      → Writes w fs io path []
      → (fs' : Fs) × (save_indexed_table files key c.value_to_index t io fs ≡ some fs')
        × (w.contents fs' path ≡ table_bytes key encode_size_elem (places c t))
        × Others w path fs fs'
  unfolding save_indexed_table
  save_indexed_table-bytes key c t fs io path a v =
      let (io1, fs1, run, v1, o1) =
        buffered_write-Writes w fs io path [] (word_bytes 4 (length t)) v in
      let (io2, fs2, run', v2, o2) =
        save_indexed_entries-Writes key w c t fs1 io1 path (word_bytes 4 (length t)) a v1 in
      let (io3, fs3, run'', v3, z, same, all, o3) =
        flush-Writes w fs2 io2 path
          (word_bytes 4 (length t) ++ entries_bytes key encode_size_elem (places c t)) v2 in
      (
        fs3,
        rw (save_indexed_table, run, run', run'') refl,
        all
            ∙ ap (λ n. word_bytes 4 n ++ entries_bytes key encode_size_elem (places c t))
                (sym (length-places c t)),
        Others-trans w path fs fs2 fs3 (Others-trans w path fs fs1 fs2 o1 o2) o3,
      )

  -- A file that is opened to be saved, and its context.
  record Opened (path : FilePath) (fs : Fs) (fd : ℕ) (fs' : Fs) : Type 0 where
    target : w.target fs' fd ≡ some path
    fresh : w.target fs fd ≡ none
    targets : (fd' : ℕ) → (fd == fd') ≡ false → w.target fs' fd' ≡ w.target fs fd'
    empty : w.contents fs' path ≡ []
    rest :
        (path' : FilePath)
        → bytes_equal path path' ≡ false
        → w.contents fs' path' ≡ w.contents fs path'

  open_to_save :
      (fs : Fs) (path : FilePath)
      → (fd : ℕ) × (fs' : Fs) × (open_file fs path save_flags mode_644 ≡ (ok fd, fs'))
        × Opened path fs fd fs'
  open_to_save fs path =
      let (fd, fs', run, unused, t, c) = w.opens fs path save_flags mode_644 in
      let self : bytes_equal path path ≡ true = (bytes_equal_iff path path).1 refl in
      (
        fd,
        fs',
        run,
        record {
          target = ground (arith, t fd);
          fresh = unused;
          targets = λ fd' h. ground (arith, h, t fd');
          empty = ground (arith, self, c path);
          rest = λ path' h. ground (arith, h, c path');
        },
      )

  -- Two open files have two descriptors.
  two_open :
      (path1 path2 : FilePath) (fs fs1 fs2 : Fs) (fd1 fd2 : ℕ)
      → Opened path1 fs fd1 fs1
      → Opened path2 fs1 fd2 fs2
      → (fd2 == fd1) ≡ false
  two_open path1 path2 fs fs1 fs2 fd1 fd2 a b = elim (Bool-cases (fd2 == fd1)) [
    | inr o ↦ o
    | inl i ↦
        let same : fd2 ≡ fd1 = ground (arith, i) in
        absurd (ground (arith, a.target, subst (λ d. w.target fs1 d ≡ none) same b.fresh))
  ]

  -- Once both are closed, the descriptors are what they were.
  both_closed :
      (path1 path2 : FilePath) (fs fs1 fs2 fs3 : Fs) (fd1 fd2 : ℕ)
      → Opened path1 fs fd1 fs1
      → Opened path2 fs1 fd2 fs2
      → ((fd : ℕ) → w.target fs3 fd ≡ w.target fs2 fd)
      → (fd : ℕ) → w.target (close (close fs3 fd1) fd2) fd ≡ w.target fs fd
  both_closed path1 path2 fs fs1 fs2 fs3 fd1 fd2 a b same fd =
      let two = two_open path1 path2 fs fs1 fs2 fd1 fd2 a b in
      let one_closed = w.closes fs3 fd1 fd in
      let all_closed = w.closes (close fs3 fd1) fd2 fd in
      elim (Bool-cases (fd2 == fd)) [
        | inl i ↦
            let is : fd2 ≡ fd = ground (arith, i) in
            let other : (fd1 == fd2) ≡ false = ground (arith, two) in
            let unused : w.target fs fd ≡ none =
              subst (λ d. w.target fs d ≡ none) is (sym (a.targets fd2 other) ∙ b.fresh) in
            ground (arith, i, all_closed, unused)
        | inr o ↦ elim (Bool-cases (fd1 == fd)) [
          | inl i ↦
              let unused : w.target fs fd ≡ none =
                subst (λ d. w.target fs d ≡ none) (ground (arith, i)) a.fresh in
              ground (arith, i, o, all_closed, one_closed, unused)
          | inr o' ↦
              ground
                (arith, o, o', all_closed, one_closed, same fd, b.targets fd o, a.targets fd o')
        ]
      ]

  -- An empty file with a fresh context.
  begin-Writes :
      (fs : Fs) (fd : ℕ) (path : FilePath) (io : BufferedIo)
      → w.target fs fd ≡ some path
      → w.contents fs path ≡ []
      → (io.fd ≡ fd)
        × (io.buffer_pos ≡ 0)
        × (io.file_offset ≡ 0)
        × (io.buffer_size ≡ io_buffer_size)
      → Writes w fs io path []
  begin-Writes fs fd path io here empty (e_fd, e_pos, e_off, e_size) = record {
    opened = ap (λ k. w.target fs k) e_fd ∙ here;
    bytes =
        ap (λ k. w.contents fs path ++ bytes_at io.buffer 0 k) e_pos
        ∙ append-nil (w.contents fs path)
        ∙ empty;
    offset = e_off ∙ ap (λ l. length l) (sym empty);
    fits = omega (arith, e_pos);
    size = (omega (arith, e_size), omega (arith, e_size));
  }

-- Three files with three paths.
pub record ThreePaths (path1 path2 path3 : FilePath) : Type 0 where
  pub ne12 : bytes_equal path1 path2 ≡ false
  pub ne21 : bytes_equal path2 path1 ≡ false
  pub ne13 : bytes_equal path1 path3 ≡ false
  pub ne23 : bytes_equal path2 path3 ≡ false
  pub ne31 : bytes_equal path3 path1 ≡ false
  pub ne32 : bytes_equal path3 path2 ≡ false

module _ {files : FileSystem} (w : Working files) {K L : Type 0}
    (path1 path2 values_path : FilePath) (table1 : Table K Ptr) (table2 : Table L Ptr)
    (key1 : Encode K) (key2 : Encode L) (val : Encode MasterInfo) (infos : Ptr → Option MasterInfo)
    (c : IndexedValues) where
  open files use {Fs, open_file, close}

  -- What is there when both tables are saved.
  pub record PairSaved (ms : List MasterInfo) (fs fs' : Fs) : Type 0 where
    pub first : w.contents fs' path1 ≡ table_bytes key1 encode_size_elem (places c table1)
    pub second : w.contents fs' path2 ≡ table_bytes key2 encode_size_elem (places c table2)
    pub values : w.contents fs' values_path ≡ list_file w val ms
    pub targets : (fd : ℕ) → w.target fs' fd ≡ w.target fs fd
    pub rest :
        (path' : FilePath)
        → bytes_equal path1 path' ≡ false
        → bytes_equal path2 path' ≡ false
        → bytes_equal values_path path' ≡ false
        → w.contents fs' path' ≡ w.contents fs path'

  -- The tables, once both contexts are there.
  tables_saved :
      (fs : Fs) (io1 io2 : BufferedIo) (ms : List MasterInfo)
      → ThreePaths path1 path2 values_path
      → objects infos c.values ≡ some ms
      → AllPlaced c table1
      → AllPlaced c table2
      → Writes w fs io1 path1 []
      → Writes w fs io2 path2 []
      → (fs1 : Fs) × (fs2 : Fs) × (fs3 : Fs) × (save_values_array files values_path ms val fs
          ≡ some fs1)
        × (save_indexed_table files key1 c.value_to_index table1 io1 fs1 ≡ some fs2)
        × (save_indexed_table files key2 c.value_to_index table2 io2 fs2 ≡ some fs3)
        × PairSaved ms fs fs3
  tables_saved fs io1 io2 ms ne objs a1 a2 v1 v2 =
      let (fs1, run1, bytes1, o1) = save_values_array-bytes w val fs values_path ms in
      let (fs2, run2, bytes2, o2) =
        save_indexed_table-bytes w key1 c table1 fs1 io1 path1 a1
          (Writes-Others w fs fs1 io1 path1 values_path [] ne.ne31 o1 v1) in
      let (fs3, run3, bytes3, o3) = save_indexed_table-bytes w key2 c table2 fs2 io2 path2 a2 (
        Writes-Others w fs1 fs2 io2 path2 path1 [] ne.ne12 o2
          (Writes-Others w fs fs1 io2 path2 values_path [] ne.ne32 o1 v2)) in
      (
        fs1,
        fs2,
        fs3,
        run1,
        run2,
        run3,
        record {
          first = o3.rest path1 ne.ne21 ∙ bytes2;
          second = bytes3;
          values = o3.rest values_path ne.ne23 ∙ o2.rest values_path ne.ne13 ∙ bytes1;
          targets = λ fd. o3.targets fd ∙ o2.targets fd ∙ o1.targets fd;
          rest = λ path' h1 h2 h3. o3.rest path' h2 ∙ o2.rest path' h1 ∙ o1.rest path' h3;
        },
      )

  -- The two files are open and empty, with their contexts.
  contexts_ready :
      (fs : Fs)
      → bytes_equal path2 path1 ≡ false
      → (fd1 : ℕ) × (fd2 : ℕ) × (fs1 : Fs) × (fs2 : Fs) × (fs3 : Fs) × (fs4 : Fs)
        × (io1 : BufferedIo) × (io2 : BufferedIo) × (open_file fs path1 save_flags mode_644
            ≡ (ok fd1, fs1))
        × (open_file fs1 path2 save_flags mode_644 ≡ (ok fd2, fs2))
        × (buffered_io_init files fd1 io_buffer_size fs2 ≡ (some io1, fs3))
        × (buffered_io_init files fd2 io_buffer_size fs3 ≡ (some io2, fs4))
        × Writes w fs4 io1 path1 []
        × Writes w fs4 io2 path2 []
        × ((fs5 : Fs)
            → ((fd : ℕ) → w.target fs5 fd ≡ w.target fs4 fd)
            → (fd : ℕ) → w.target (close (close fs5 fd1) fd2) fd ≡ w.target fs fd)
        × ((path' : FilePath)
            → bytes_equal path1 path' ≡ false
            → bytes_equal path2 path' ≡ false
            → w.contents fs4 path' ≡ w.contents fs path')
  contexts_ready fs ne =
      let (fd1, fs1, run1, a) = open_to_save w fs path1 in
      let (fd2, fs2, run2, b) = open_to_save w fs1 path2 in
      let (io1, fs3, init1, u1, e1, p1, n1, f1, s1) = init-fresh w fs2 fd1 in
      let (io2, fs4, init2, u2, e2, p2, n2, f2, s2) = init-fresh w fs3 fd2 in
      let two : (fd2 == fd1) ≡ false = two_open w path1 path2 fs fs1 fs2 fd1 fd2 a b in
      let here1 : w.target fs4 fd1 ≡ some path1 =
        u2.targets fd1 ∙ u1.targets fd1 ∙ b.targets fd1 two ∙ a.target in
      let here2 : w.target fs4 fd2 ≡ some path2 = u2.targets fd2 ∙ u1.targets fd2 ∙ b.target in
      let empty1 : w.contents fs4 path1 ≡ [] =
        u2.contents path1 ∙ u1.contents path1 ∙ b.rest path1 ne ∙ a.empty in
      let empty2 : w.contents fs4 path2 ≡ [] = u2.contents path2 ∙ u1.contents path2 ∙ b.empty in
      (
        fd1,
        fd2,
        fs1,
        fs2,
        fs3,
        fs4,
        io1,
        io2,
        run1,
        run2,
        init1,
        init2,
        begin-Writes w fs4 fd1 path1 io1 here1 empty1 (e1, p1, f1, s1),
        begin-Writes w fs4 fd2 path2 io2 here2 empty2 (e2, p2, f2, s2),
        (λ fs5 same.
            both_closed w path1 path2 fs fs1 fs2 fs5 fd1 fd2 a b
              (λ fd. same fd ∙ u2.targets fd ∙ u1.targets fd)),
        (λ path' h1 h2. u2.contents path' ∙ u1.contents path' ∙ b.rest path' h2 ∙ a.rest path' h1),
      )

  -- Both tables and their values are saved, each in its file; no other file and no descriptor
  -- changes.
  pub ghash_save_indexed_pair-PairSaved :
      (fs : Fs) (ms : List MasterInfo)
      → ThreePaths path1 path2 values_path
      → c ≡ all_values files path2 values_path table1 table2 key1 key2 val infos
      → objects infos c.values ≡ some ms
      → AllPlaced c table1
      → AllPlaced c table2
      → (fs' : Fs) × (ghash_save_indexed_pair files path2 values_path table1 table2 key1 key2 val
            infos path1 fs
          ≡ some fs')
        × PairSaved ms fs fs'
  unfolding ghash_save_indexed_pair
  ghash_save_indexed_pair-PairSaved fs ms ne e objs a1 a2 =
      let (
        fd1, fd2, fs1, fs2, fs3, fs4, io1, io2, run1, run2, init1, init2, v1, v2, targets, rest,
      ) =
        contexts_ready fs ne.ne21 in
      let (fs5, fs6, fs7, save1, save2, save3, s) =
        tables_saved fs4 io1 io2 ms ne objs a1 a2 v1 v2 in
      let closed : (path : FilePath)
          → w.contents (close (close fs7 fd1) fd2) path ≡ w.contents fs7 path =
        λ path. w.close_keeps (close fs7 fd1) fd2 path ∙ w.close_keeps fs7 fd1 path in
      (
        close (close fs7 fd1) fd2,
        rw (ghash_save_indexed_pair, ← e, run1, run2, init1, init2, objs, save1, save2, save3) refl,
        record {
          first = closed path1 ∙ s.first;
          second = closed path2 ∙ s.second;
          values = closed values_path ∙ s.values;
          targets = targets fs7 s.targets;
          rest = λ path' h1 h2 h3. closed path' ∙ s.rest path' h1 h2 h3 ∙ rest path' h1 h2;
        },
      )
