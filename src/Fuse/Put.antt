-- ===== src/Fuse/Put.antt =====
-- What a write leaves of the agreement between index, master file and sizes.
use dedup_block_fs.Base.{
  ℕ, ◌+◌, ◌*◌, ◌^◌, ◌≤◌, ◌<◌, ◌≡◌, refl, sym, ap, ◌∙◌, subst, inl, inr, true, Bool-cases, Option,
  none, some, arith,
}
use dedup_block_fs.Keys.{FilePath, bytes_key, bytes_equal, bytes_equal_iff}
use dedup_block_fs.Table.{lookup, Distinct}
use dedup_block_fs.System.{System, Block, Buffer, block_size}
use dedup_block_fs.Dedup.Remove.Effect.{in_range}
use dedup_block_fs.Dedup.Write.{Store}
use dedup_block_fs.Dedup.Write.Finish.{grown_size}
use dedup_block_fs.Dedup.Write.Correct.{Wrote}
use dedup_block_fs.Dedup.Write.Failure.{Restored}
use dedup_block_fs.Fuse.Ok.{Whole, StoreOk}

grown_size-Whole :
    (old : Option ℕ) (new_end : ℕ)
    → Whole new_end
    → ((s : ℕ) → old ≡ some s → Whole s)
    → Whole (grown_size old new_end)
grown_size-Whole none new_end w f = w
grown_size-Whole (some s) new_end w f = ground (arith, f s refl)

grown_size-ge : (old : Option ℕ) (new_end : ℕ) → new_end ≤ grown_size old new_end
grown_size-ge none new_end = omega arith
grown_size-ge (some s) new_end = ground arith

grown_size-ge_old : (s new_end : ℕ) → s ≤ grown_size (some s) new_end
grown_size-ge_old s new_end = ground arith

module _ (os : System) (U : Block → Type 0) (path : FilePath) (buf : Buffer) (start n : ℕ)
    (st st' : Store os.Disk) (v : StoreOk os U st) where
  pub Restored-StoreOk : Restored os U path buf start n st st' → StoreOk os U st'
  Restored-StoreOk r = record {
    inv = r.inv;
    distinct = subst (λ t. Distinct t) (sym r.sizes) v.distinct;
    whole = λ path' s e. v.whole path' s (ap (lookup path') (sym r.sizes) ∙ e);
    within = λ path' b found e.
        let (s, e', low) = v.within path' b found (sym (r.contents path' b) ∙ e) in
        (s, ap (lookup path') r.sizes ∙ e', low);
  }

  module _ (w : Wrote os U path buf start n st st') where
    -- A block of the range lies below the size after the write.
    within_written :
        (path' : FilePath) (b : ℕ)
        → in_range path start n path' b ≡ true
        → (s : ℕ) × (lookup path' st'.index.file_to_sizes ≡ some s) × (b * block_size < s)
    within_written path' b i =
        let new = grown_size (lookup path st.index.file_to_sizes) ((start + n) * block_size) in
        let ge = grown_size-ge (lookup path st.index.file_to_sizes) ((start + n) * block_size) in
        let below : b < start + n = ground (arith, i) in
        (new, ground (arith, i, w.sizes path'), omega (arith, ge, below))

    -- A block that was there before lies below the size that its file has now.
    within_other :
        (path' : FilePath) (b s : ℕ)
        → lookup path' st.index.file_to_sizes ≡ some s
        → b * block_size < s
        → (s' : ℕ) × (lookup path' st'.index.file_to_sizes ≡ some s') × (b * block_size < s')
    within_other path' b s e low = elim (Bool-cases (bytes_equal path path')) [
      | inr o ↦ (s, ground (arith, o, e, w.sizes path'), low)
      | inl i ↦
          let same : lookup path st.index.file_to_sizes ≡ some s =
            subst (λ p. lookup p st.index.file_to_sizes ≡ some s)
              (sym ((bytes_equal_iff path path').0 i)) e in
          let ge = grown_size-ge_old s ((start + n) * block_size) in
          (
            grown_size (some s) ((start + n) * block_size),
            w.sizes path' ∙ rw (i, same) refl,
            omega (arith, ge, low),
          )
    ]

    pub Wrote-StoreOk : (start + n) * block_size < 2 ^ 64 → StoreOk os U st'
    Wrote-StoreOk room = record {
      inv = w.inv;
      distinct = w.distinct v.distinct;
      whole = λ path' s e. elim (Bool-cases (bytes_equal path path')) [
        | inr o ↦ v.whole path' s (ground (arith, o, e, w.sizes path'))
        | inl i ↦
            let sure =
              grown_size-Whole (lookup path st.index.file_to_sizes) ((start + n) * block_size)
                (omega (arith, room)) (λ s' e'. v.whole path s' e') in
            subst Whole (ground (arith, i, e, w.sizes path')) sure
      ];
      within = λ path' b found e. elim (Bool-cases (in_range path start n path' b)) [
        | inl i ↦ within_written path' b i
        | inr o ↦
            let (s, e', low) = v.within path' b found (sym (w.others path' b o) ∙ e) in
            within_other path' b s e' low
      ];
    }
