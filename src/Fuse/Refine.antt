-- ===== src/Fuse/Refine.antt =====
-- The mounted file system does what its requests mean.
use dedup_block_fs.Base.{
  ℕ, ◌+◌, ◌*◌, ◌%◌, ◌-◌, ◌^◌, ◌<◌, ◌≡◌, refl, sym, ap, ◌∙◌, subst, fun_ext, inl, inr, ◌⊎◌, true,
  Bool-cases, Option, none, some, ◌==◌, arith,
}
use dedup_block_fs.Base.Int.{ℤ, pos, negsuc, is_neg}
use dedup_block_fs.Keys.{FilePath, bytes_key, bytes_equal_iff}
use dedup_block_fs.System.{System, Block, Buffer, block_size, add64}
use dedup_block_fs.View.{content}
use dedup_block_fs.Dedup.Remove.Effect.{in_range}
use dedup_block_fs.Dedup.Write.{Store, write_dedup}
use dedup_block_fs.Dedup.Write.Correct.{Wrote}
use dedup_block_fs.Dedup.Write.Slots.{SlotsKept}
use dedup_block_fs.Dedup.Write.Failure.{Restored, write_dedup-Restored}
use dedup_block_fs.Fuse.{Outcome, ok, err, Call, FileInfo, Host, Mount, zero_or_error, o_wronly}
use dedup_block_fs.Fuse.Pass.{with_file, end_file}
use dedup_block_fs.Fuse.Handlers.{blocks_of, truncate_backing, xmp_write, xmp_truncate, xmp_unlink}
use dedup_block_fs.Fuse.Ok.{StoreOk}
use dedup_block_fs.Table.{lookup}
use dedup_block_fs.Dedup.Read.{eopnotsupp}
use dedup_block_fs.Fuse.Forget.{cut_size, Shortened, forget_file-Shortened, cut_file-Shortened}
use dedup_block_fs.Fuse.Put.{Restored-StoreOk, Wrote-StoreOk}
use dedup_block_fs.Fuse.Spec.{
  Files, Request, write, shorten, unlink, files_write, files_shorten, files_unlink, meaning, view,
  serve, Fits,
}

-- Two sets of files with the same sizes and the same blocks.
Files-ext :
    (f g : Files)
    → ((path : FilePath) → f.size path ≡ g.size path)
    → ((path : FilePath) (b : ℕ) → f.block path b ≡ g.block path b)
    → f ≡ g
Files-ext f g s b =
    let e : f.size ≡ g.size = fun_ext s in
    let e' : f.block ≡ g.block = fun_ext (λ path. fun_ext (b path)) in
    ap (λ (t : FilePath → Option ℕ). record { size = t; block = f.block }) e
    ∙ ap (λ (t : FilePath → ℕ → Option Block). record { size = g.size; block = t }) e'

Outcome-cases : {A : Type 0} (o : Outcome A) → ((e : ℕ) × (o ≡ err e)) ⊎ ((a : A) × (o ≡ ok a))
Outcome-cases (ok a) = inr (a, refl)
Outcome-cases (err e) = inl (e, refl)

-- `U` are the blocks that are ever stored; no two of them have one digest.
module _ (os : System) (host : Host) (U : Block → Type 0)
    (apart : (b b' : Block) → U b → U b' → os.sha512 b ≡ os.sha512 b' → b ≡ b') where
  Wrote-files :
      (path : FilePath) (buf : Buffer) (start n : ℕ) (st st' : Store os.Disk)
      → ((i : ℕ) → i < n → U (buf i))
      → Wrote os U path buf start n st st'
      → view os st' ≡ files_write path buf start n (view os st)
  unfolding files_write
  Wrote-files path buf start n st st' u w =
      Files-ext (view os st') (files_write path buf start n (view os st)) w.sizes (λ path' b.
        elim (Bool-cases (in_range path start n path' b)) [
          | inr o ↦ rw o (w.others path' b o)
          | inl i ↦
              let same : path ≡ path' = (bytes_equal_iff path path').0 (ground (arith, i)) in
              let back : start + (b - start) ≡ b = ground (arith, i) in
              let (found, here, digest, known) = w.blocks (b - start) (ground (arith, i)) in
              rw i (
                subst (λ p. content os st'.disk st'.index p b ≡ some (buf (b - start))) same
                  (ap (content os st'.disk st'.index path) (sym back)
                    ∙ here
                    ∙ ap some (
                        apart found (buf (b - start)) known (u (b - start) (ground (arith, i)))
                          digest)))
        ])

  Restored-files :
      (path : FilePath) (buf : Buffer) (start n : ℕ) (st st' : Store os.Disk)
      → Restored os U path buf start n st st'
      → view os st' ≡ view os st
  Restored-files path buf start n st st' r =
      Files-ext (view os st') (view os st) (λ path'. rw r.sizes refl) r.contents

  -- What a request has done: what it means or, with an error, nothing.
  pub record Served (r : Request) (m : Mount os host) (res : ℤ) (m' : Mount os host) : Type 0 where
    pub ok : StoreOk os U m'.store
    pub files :
        (view os m'.store ≡ meaning r (view os m.store))
        ⊎ (is_neg res ≡ true) × (view os m'.store ≡ view os m.store)
    pub slots : SlotsKept m.store m'.store

  forgotten :
      (path : FilePath) (m : Mount os host) (ix' : _)
      → Shortened os U m.store path none 0 ix'
      → view os (record m.store { index = ix' }) ≡ files_unlink path (view os m.store)
  unfolding files_unlink
  forgotten path m ix' s =
      Files-ext (view os (record m.store { index = ix' })) (files_unlink path (view os m.store))
        s.sizes (λ path' b. ground (arith, s.contents path' b))

  serve_unlink :
      (path : FilePath) (m : Mount os host)
      → StoreOk os U m.store
      → (res : ℤ) × (m' : Mount os host) × (serve os host (unlink path) m ≡ some (res, m'))
        × Served (unlink path) m res m'
  unfolding serve xmp_unlink meaning
  serve_unlink path m v =
      let (ix', run, s) = forget_file-Shortened os U m.store path v in
      let (res, fs') = zero_or_error (host.call m.fs (Call.unlink path)) in
      (
        res,
        record m {
          store = record m.store { index = ix' };
          counters = record m.counters { unlinked = add64 m.counters.unlinked 1 };
          fs = fs';
        },
        rw (serve, run) refl,
        record {
          ok = s.ok;
          files = inl (forgotten path m ix' s);
          slots = λ t a b. s.no_leak t (a b);
        },
      )

  cut :
      (path : FilePath) (size : ℕ) (m : Mount os host) (ix' : _)
      → Shortened os U m.store path
          (cut_size size (lookup path m.store.index.file_to_sizes))
          (blocks_of size)
          ix'
      → view os (record m.store { index = ix' }) ≡ files_shorten path size (view os m.store)
  unfolding files_shorten
  cut path size m ix' s =
      Files-ext (view os (record m.store { index = ix' }))
        (files_shorten path size (view os m.store)) s.sizes s.contents

  serve_shorten :
      (path : FilePath) (size : ℕ) (fi : Option FileInfo) (m : Mount os host)
      → size < 2 ^ 64
      → StoreOk os U m.store
      → (res : ℤ) × (m' : Mount os host) × (serve os host (shorten path size fi) m ≡ some (res, m'))
        × Served (shorten path size fi) m res m'
  unfolding serve xmp_truncate meaning
  serve_shorten path size fi m room v = elim (Bool-cases (size % block_size == 0)) [
    | inr odd ↦ (
      eopnotsupp,
      m,
      rw odd refl,
      record { ok = v; files = inr (refl, refl); slots = λ t a b. a b },
    )
    | inl whole ↦
        let (ix', run, s) = cut_file-Shortened os U m.store path v size (ground (arith, whole)) in
        let (res, fs') = truncate_backing os host path (pos size) fi m.fs in
        (
          res,
          record m { store = record m.store { index = ix' }; fs = fs' },
          rw (whole, run) refl,
          record {
            ok = s.ok;
            files = inl (rw whole (cut path size m ix' s));
            slots = λ t a b. s.no_leak t (a b);
          },
        )
  ]

  -- Where the file can be opened, the write is write_dedup.
  opened_write :
      (path : FilePath) (buf : Buffer) (start n : ℕ) (m : Mount os host)
      → Fits os host U (write path buf start n none) m
      → StoreOk os U m.store
      → (res : ℤ) × (st' : Store os.Disk) × (write_dedup os m.store path buf
            (n * block_size)
            (start * block_size)
          ≡ some (res, st'))
        × StoreOk os U st'
        × ((view os st' ≡ files_write path buf start n (view os m.store))
            ⊎ (is_neg res ≡ true) × (view os st' ≡ view os m.store))
        × SlotsKept m.store st'
  opened_write path buf start n m (u, some_blocks, count, slots, room) v =
      let (res, st', run, done) =
        write_dedup-Restored os U path buf start n m.store v.inv u some_blocks count slots room in
      let both : StoreOk os U st'
          × ((view os st' ≡ files_write path buf start n (view os m.store))
              ⊎ (is_neg res ≡ true) × (view os st' ≡ view os m.store))
          × SlotsKept m.store st' =
        elim done [
          | inl (e, w) ↦ (
            Wrote-StoreOk os U path buf start n m.store st' v w room,
            inl (Wrote-files path buf start n m.store st' u w),
            w.slots,
          )
          | inr (neg, r) ↦ (
            Restored-StoreOk os U path buf start n m.store st' v r,
            inr (neg, Restored-files path buf start n m.store st' r),
            r.slots,
          )
        ] in
      (res, st', run, both.0, both.1, both.2)

  serve_write :
      (path : FilePath) (buf : Buffer) (start n : ℕ) (fi : Option FileInfo) (m : Mount os host)
      → Fits os host U (write path buf start n fi) m
      → StoreOk os U m.store
      → (res : ℤ) × (m' : Mount os host) × (serve os host (write path buf start n fi) m
          ≡ some (res, m'))
        × Served (write path buf start n fi) m res m'
  unfolding serve xmp_write meaning
  serve_write path buf start n fi m fits v =
      elim (Outcome-cases (with_file host fi path o_wronly m.fs).0) [
        | inl (e, h) ↦ (
          negsuc e,
          record m {
            counters = record m.counters { write = add64 m.counters.write 1 };
            fs = (with_file host fi path o_wronly m.fs).1;
          },
          rw (serve, xmp_write, h) refl,
          record { ok = v; files = inr (refl, refl); slots = λ t a b. a b },
        )
        | inr (fd, h) ↦
            let (res, st', run, good, files, slots) = opened_write path buf start n m fits v in
            (
              res,
              record m {
                store = st';
                counters = record m.counters { write = add64 m.counters.write 1 };
                fs = end_file host fi fd (with_file host fi path o_wronly m.fs).1;
              },
              rw (serve, xmp_write, h, run) refl,
              record { ok = good; files = files; slots = slots },
            )
      ]

  -- On a store that agrees, every request that fits is answered. The store keeps its agreement and
  -- loses no slot, and the files are then what the request means or, where the answer is an error,
  -- what they were.
  pub serve-Served :
      (r : Request) (m : Mount os host)
      → Fits os host U r m
      → StoreOk os U m.store
      → (res : ℤ) × (m' : Mount os host) × (serve os host r m ≡ some (res, m')) × Served r m res m'
  serve-Served (write path buf start n fi) m fits v = serve_write path buf start n fi m fits v
  serve-Served (shorten path size fi) m fits v = serve_shorten path size fi m fits v
  serve-Served (unlink path) m fits v = serve_unlink path m v

  -- On a store that agrees, where the backing file system refuses the unlink, the handler returns
  -- that error, and the size and the blocks of the file are gone all the same; every other file is
  -- as before.
  pub xmp_unlink-refused :
      (path : FilePath) (e : ℕ) (m : Mount os host)
      → (host.call m.fs (Call.unlink path)).0 ≡ err e
      → StoreOk os U m.store
      → (m' : Mount os host) × (xmp_unlink os host path m ≡ some (negsuc e, m'))
        × (view os m'.store ≡ files_unlink path (view os m.store))
  unfolding xmp_unlink
  xmp_unlink-refused path e m refused v =
      let (ix', run, s) = forget_file-Shortened os U m.store path v in
      (
        record m {
          store = record m.store { index = ix' };
          counters = record m.counters { unlinked = add64 m.counters.unlinked 1 };
          fs = (host.call m.fs (Call.unlink path)).1;
        },
        rw (xmp_unlink, run, refused) refl,
        forgotten path m ix' s,
      )
