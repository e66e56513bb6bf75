-- ===== src/Tests/Mounted.antt =====
-- A mounted file system with one file of two equal blocks, over a backing file system that refuses
-- every unlink.
use dedup_block_fs.Base.{ℕ, ◌<◌, ◌≡◌, refl, sym, subst, inl, inr, Option-cases, some, arith}
use dedup_block_fs.Keys.{
  FilePath, bytes_equal, bytes_equal_iff, block_indice_equal, bytes_key, block_indice_key,
}
use dedup_block_fs.Table.{lookup, Distinct}
use dedup_block_fs.Index.{indice, lookup_by_file_block}
use dedup_block_fs.System.{Block}
use dedup_block_fs.View.{block_behind, content}
use dedup_block_fs.Dedup.Write.{Store}
use dedup_block_fs.Fuse.{Outcome, ok, err, Call, Host, Mount}
use dedup_block_fs.Fuse.Ok.{StoreOk}
use dedup_block_fs.Tests.Fixture.{
  test_system, Any, Blocks, test_disk, test_index, test_index-Inv, file,
}

abbrev answer : Call → Outcome ℕ
answer (Call.unlink path) = err 0
answer c = ok 3

abbrev pub test_host : Host
test_host = record {
  Fs = ℕ;
  call = λ fs c. (answer c, fs);
  lstat = λ fs path. err 1;
  readlink = λ fs path size. err 1;
  read_dir = λ fs path. err 1;
  lgetxattr = λ fs path name size. err 1;
  llistxattr = λ fs path size. err 1;
}

abbrev pub test_store : Store Blocks
test_store = record { index = test_index; next_block_index = 2; disk = test_disk }

abbrev pub test_mount : Mount test_system test_host
test_mount = record {
  store = test_store;
  counters = record {
    create = 0;
    opened = 0;
    closed = 0;
    write = 0;
    read = 0;
    getattr = 0;
    unlinked = 0;
  };
  fs = 0;
}

block_found :
    (path : FilePath) (b : ℕ) (p : ℕ)
    → lookup (indice path b) test_index.file_to_master ≡ some p
    → (path ≡ file) × (b < 2)
unfolding lookup block_indice_equal
block_found path b p h = (ground (arith, h, bytes_equal_iff file path), ground (arith, h))

size_found : (path : FilePath) (s : ℕ) → lookup path test_index.file_to_sizes ≡ some s → s ≡ 8192
unfolding lookup
size_found path s h = ground (arith, h)

file_size : lookup file test_index.file_to_sizes ≡ some 8192
unfolding lookup bytes_equal
file_size = refl

block_key :
    (path : FilePath) (b : ℕ) (found : Block)
    → content test_system test_disk test_index path b ≡ some found
    → (p : ℕ) × (lookup (indice path b) test_index.file_to_master ≡ some p)
unfolding content block_behind lookup_by_file_block
block_key path b found h = elim (Option-cases (lookup (indice path b) test_index.file_to_master)) [
  | inr e ↦ e
  | inl e ↦ absurd (ground (arith, e, h))
]

pub test_store-StoreOk : StoreOk test_system Any test_store
unfolding Distinct lookup bytes_equal
test_store-StoreOk = record {
  inv = test_index-Inv;
  distinct = (refl, tt);
  whole = λ path s h. let e = size_found path s h in (omega (arith, e), omega (arith, e));
  within = λ path b found h.
      let (p, e) = block_key path b found h in
      let (is, low) = block_found path b p e in
      (
        8192,
        subst (λ q. lookup q test_index.file_to_sizes ≡ some 8192) (sym is) file_size,
        omega (arith, low),
      );
}

pub no_collision :
    (b b' : Block) → Any b → Any b' → test_system.sha512 b ≡ test_system.sha512 b' → b ≡ b'
no_collision b b' u u' e = e
