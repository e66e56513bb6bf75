-- ===== src/Persist/Mount.antt =====
-- src/metaindex.c and src/passthrough.c: the index and the context from mount to unmount. The paths
-- are those of the files in the root directory.
pub mod RoundTrip
use dedup_block_fs.Base.{
  ℕ, zero, suc, ◌+◌, ◌/◌, Option, none, some, List, [], ◌∷◌, ◌>>=◌, length, get_elem?,
}
use dedup_block_fs.Keys.{FilePath, bytes_key, block_indice_key}
use dedup_block_fs.Index.{Index, Ptr, MasterInfo}
use dedup_block_fs.System.{block_size}
use dedup_block_fs.Fuse.{Outcome, ok, err, Counters}
use dedup_block_fs.Persist.{FileSystem}
use dedup_block_fs.Persist.Codec.{
  encode_master_info, decode_master_info, encode_hash, decode_hash, encode_block_indice,
  decode_block_indice, encode_free_block, decode_free_block, encode_size, decode_size, encode_str,
  decode_str,
}
use dedup_block_fs.Persist.Tables.{ghash_save, ghash_load, gslist_save, gslist_load}
use dedup_block_fs.Persist.Pair.{ghash_save_indexed_pair, ghash_load_indexed_pair}

-- TABLE_PATH_..., as bytes.
abbrev pub table_path_hash_to_master : FilePath
table_path_hash_to_master =
    47 ∷ 116 ∷ 97 ∷ 98 ∷ 108 ∷ 101 ∷ 95 ∷ 112 ∷ 97 ∷ 116 ∷ 104 ∷ 95 ∷ 104 ∷ 97 ∷ 115 ∷ 104 ∷ 95
    ∷ 116 ∷ 111 ∷ 95 ∷ 109 ∷ 97 ∷ 115 ∷ 116 ∷ 101 ∷ 114 ∷ []

abbrev pub table_path_file_to_master : FilePath
table_path_file_to_master =
    47 ∷ 116 ∷ 97 ∷ 98 ∷ 108 ∷ 101 ∷ 95 ∷ 112 ∷ 97 ∷ 116 ∷ 104 ∷ 95 ∷ 102 ∷ 105 ∷ 108 ∷ 101 ∷ 95
    ∷ 116 ∷ 111 ∷ 95 ∷ 109 ∷ 97 ∷ 115 ∷ 116 ∷ 101 ∷ 114 ∷ []

abbrev pub table_path_master_infos : FilePath
table_path_master_infos =
    47 ∷ 116 ∷ 97 ∷ 98 ∷ 108 ∷ 101 ∷ 95 ∷ 112 ∷ 97 ∷ 116 ∷ 104 ∷ 95 ∷ 109 ∷ 97 ∷ 115 ∷ 116 ∷ 101
    ∷ 114 ∷ 95 ∷ 105 ∷ 110 ∷ 102 ∷ 111 ∷ 115 ∷ []

abbrev pub table_path_file_to_sizes : FilePath
table_path_file_to_sizes =
    47 ∷ 116 ∷ 97 ∷ 98 ∷ 108 ∷ 101 ∷ 95 ∷ 112 ∷ 97 ∷ 116 ∷ 104 ∷ 95 ∷ 102 ∷ 105 ∷ 108 ∷ 101 ∷ 95
    ∷ 116 ∷ 111 ∷ 95 ∷ 115 ∷ 105 ∷ 122 ∷ 101 ∷ 115 ∷ []

abbrev pub table_path_free_block_list : FilePath
table_path_free_block_list =
    47 ∷ 116 ∷ 97 ∷ 98 ∷ 108 ∷ 101 ∷ 95 ∷ 112 ∷ 97 ∷ 116 ∷ 104 ∷ 95 ∷ 102 ∷ 114 ∷ 101 ∷ 101 ∷ 95
    ∷ 98 ∷ 108 ∷ 111 ∷ 99 ∷ 107 ∷ 95 ∷ 108 ∷ 105 ∷ 115 ∷ 116 ∷ []

-- "/masterFILE"
abbrev pub master_file : FilePath
master_file = 47 ∷ 109 ∷ 97 ∷ 115 ∷ 116 ∷ 101 ∷ 114 ∷ 70 ∷ 73 ∷ 76 ∷ 69 ∷ []

-- O_RDWR | O_CREAT and 0666
abbrev pub master_flags : ℕ
master_flags = 0x42

abbrev pub mode_666 : ℕ
mode_666 = 438

-- `Context` after the mount, without the debug log; `master_fd` is -1 where the open failed.
pub record Context : Type 0 where
  pub index : Index
  pub master_fd : Outcome ℕ
  pub next_block_index : ℕ
  pub counters : Counters

module _ (files : FileSystem) where
  open files use {Fs, open_file, close, file_size}

  unfoldable pub index_init : Fs → Option (Index × Fs)
  unfolding ghash_load_indexed_pair decode_hash decode_block_indice decode_master_info ghash_load
      decode_str decode_size gslist_load decode_free_block
  index_init fs = do
    (hashes, blocks, values, fs1) ←
        ghash_load_indexed_pair files table_path_hash_to_master table_path_file_to_master
          table_path_master_infos decode_hash decode_block_indice decode_master_info fs
    (sizes, fs2) ← ghash_load files table_path_file_to_sizes decode_str decode_size fs1
    (slots, fs3) ← gslist_load files table_path_free_block_list decode_free_block fs2
    some (
      record {
        hash_to_master = hashes;
        file_to_master = blocks;
        free_block_list = slots;
        file_to_sizes = sizes;
        infos = get_elem? values;
        next_info = length values;
      },
      fs3,
    )

  -- The saves; the index is freed then.
  unfoldable pub index_destroy : (MasterInfo → List ℕ) → Index → Fs → Option Fs
  unfolding ghash_save_indexed_pair encode_hash encode_block_indice encode_master_info ghash_save
      encode_str encode_size gslist_save encode_free_block
  index_destroy padding ix fs = do
    fs1 ←
        ghash_save_indexed_pair files table_path_file_to_master table_path_master_infos
          ix.hash_to_master ix.file_to_master encode_hash encode_block_indice
          (encode_master_info padding) ix.infos table_path_hash_to_master fs
    fs2 ← ghash_save files table_path_file_to_sizes ix.file_to_sizes encode_str encode_size fs1
    gslist_save files table_path_free_block_list ix.free_block_list encode_free_block fs2

  -- `unset` is what the memory of the context and of the stat holds before it is written.
  unfoldable pub xmp_init : ℕ → Fs → Option (Context × Fs)
  unfolding index_init
  xmp_init unset fs = do
    (ix, fs1) ← index_init fs
    let (fd, fs2) = open_file fs1 master_file master_flags mode_666
    let size : ℕ = elim (file_size fs2 master_file) [ ok n ↦ n | err e ↦ unset ]
    some (
      record {
        index = ix;
        master_fd = fd;
        next_block_index = size / block_size;
        counters = record {
          create = unset;
          opened = 0;
          closed = 0;
          write = 0;
          read = 0;
          getattr = 0;
          unlinked = 0;
        };
      },
      fs2,
    )

  -- close(-1) does nothing.
  abbrev close_master : Outcome ℕ → Fs → Fs
  close_master (ok fd) fs = close fs fd
  close_master (err e) fs = fs

  unfoldable pub xmp_destroy : (MasterInfo → List ℕ) → Context → Fs → Option Fs
  unfolding index_destroy
  xmp_destroy padding ctx fs = do
    fs1 ← index_destroy padding ctx.index fs
    some (close_master ctx.master_fd fs1)
