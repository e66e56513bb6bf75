-- ===== src/Tests/Mounts.antt =====
-- The theorems on the mounted file system and on its files at concrete inputs.
use dedup_block_fs.Base.{
  ℕ, ◌<◌, ◌≡◌, refl, inl, inr, Bool-cases, some, none, List, [], ◌∷◌, ◌++◌, ◌==◌, if◌then◌else◌,
  take, drop, arith,
}
use dedup_block_fs.Base.Int.{ℤ, negsuc}
use dedup_block_fs.Keys.{bytes_key, bytes_equal}
use dedup_block_fs.Index.{Index, indice}
use dedup_block_fs.Index.Slots.{Accounted}
use dedup_block_fs.System.{Buffer}
use dedup_block_fs.Table.{lookup}
use dedup_block_fs.Fuse.{Mount}
use dedup_block_fs.Fuse.Handlers.{blocks_of, xmp_unlink, cut_file}
use dedup_block_fs.Fuse.Ok.{StoreOk}
use dedup_block_fs.Fuse.Forget.{cut_size, Shortened, cut_file-Shortened}
use dedup_block_fs.Fuse.Spec.{Request, Fits, write, shorten, unlink, files_unlink, view, serve}
use dedup_block_fs.Fuse.Refine.{Served, serve-Served, xmp_unlink-refused}
use dedup_block_fs.Fuse.Sessions.{
  Answers, Session, start, next, FilesSession, Session-StoreOk, Session-FilesSession,
}
use dedup_block_fs.Persist.Working.{Others}
use dedup_block_fs.Persist.Io.{BufferedIo, buffered_write, buffered_read}
use dedup_block_fs.Persist.Io.Writes.{Writes, buffered_write-Writes}
use dedup_block_fs.Persist.Io.Reads.{Reads, buffered_read-Reads}
use dedup_block_fs.Persist.Io.Overrun.{buffered_write-overrun}
use dedup_block_fs.Persist.Elem.RoundTrip.{Decodes}
use dedup_block_fs.Persist.Codec.{
  encode_block_indice, decode_block_indice, encode_master_info, decode_master_info,
}
use dedup_block_fs.Persist.Codec.RoundTrip.{block_indice-Decodes, master_info-Decodes}
use dedup_block_fs.Persist.Mount.{index_destroy, index_init}
use dedup_block_fs.Persist.Mount.RoundTrip.{Reloaded, index_destroy-init}
use dedup_block_fs.Tests.Fixture.{info_one, test_system, Any, file, one, two}
use dedup_block_fs.Tests.Mounted.{
  test_host, test_mount, test_store, test_store-StoreOk, no_collision,
}
use dedup_block_fs.Tests.Files.{
  Memory, memory_files, memory_working, saved_info, saved_index, saved_index-Savable, no_padding,
  no_files,
}

abbrev some_blocks : Buffer
some_blocks i = if i == 1 then two else one

abbrev write_request : Request
write_request = write file some_blocks 1 3 none

served_write :
    (res : ℤ) × (m' : Mount test_system test_host) × (serve test_system test_host write_request
        test_mount
      ≡ some (res, m'))
    × Served test_system test_host Any no_collision write_request test_mount res m'
served_write =
    serve-Served test_system test_host Any no_collision write_request test_mount
      ((λ i h. tt), omega arith, omega arith, omega arith, omega arith) test_store-StoreOk

served_unlink :
    (res : ℤ) × (m' : Mount test_system test_host) × (serve test_system test_host
        (unlink file)
        served_write.1
      ≡ some (res, m'))
    × Served test_system test_host Any no_collision (unlink file) served_write.1 res m'
served_unlink =
    serve-Served test_system test_host Any no_collision (unlink file) served_write.1 tt
      served_write.3.ok

abbrev two_answers : Answers
two_answers = (unlink file, served_unlink.0) ∷ (write_request, served_write.0) ∷ []

two_requests : Session test_system test_host Any no_collision test_mount two_answers served_unlink.1
two_requests =
    next (unlink file) served_unlink.0
      (next write_request served_write.0 start
        ((λ i h. tt), omega arith, omega arith, omega arith, omega arith) served_write.2)
      tt served_unlink.2

Session-FilesSession_example :
    FilesSession
      (view test_system test_mount.store)
      two_answers
      (view test_system served_unlink.1.store)
Session-FilesSession_example =
    Session-FilesSession test_system test_host Any no_collision two_requests test_store-StoreOk

-- Slot 0 has the known block and slot 1 is free.
test_mount_slots :
    (s : ℕ) → s < test_mount.store.next_block_index → Accounted test_mount.store.index [] s
unfolding lookup bytes_equal
test_mount_slots s h = elim (Bool-cases (s == 0)) [
  | inl zero ↦ inr (0, info_one, record { live = refl; listed = refl }, ground arith)
  | inr other ↦ inl (ground (arith, h))
]

Session-StoreOk_example :
    StoreOk test_system Any served_unlink.1.store
    × ((s : ℕ)
        → s < served_unlink.1.store.next_block_index
        → Accounted served_unlink.1.store.index [] s)
    × ((r : Request)
        → Fits test_system test_host Any r served_unlink.1
        → (res : ℤ) × (m'' : Mount test_system test_host) × Session test_system test_host Any
            no_collision test_mount
            ((r, res) ∷ two_answers)
            m'')
Session-StoreOk_example =
    Session-StoreOk test_system test_host Any no_collision two_requests test_store-StoreOk
      test_mount_slots

serve-Served_example :
    (res : ℤ) × (m' : Mount test_system test_host) × (serve test_system test_host
        (shorten file 4096 none)
        test_mount
      ≡ some (res, m'))
    × Served test_system test_host Any no_collision (shorten file 4096 none) test_mount res m'
serve-Served_example =
    serve-Served test_system test_host Any no_collision (shorten file 4096 none) test_mount
      (omega arith) test_store-StoreOk

xmp_unlink-refused_example :
    (m' : Mount test_system test_host) × (xmp_unlink test_system test_host file test_mount
      ≡ some (negsuc 0, m'))
    × (view test_system m'.store ≡ files_unlink file (view test_system test_store))
xmp_unlink-refused_example =
    xmp_unlink-refused test_system test_host Any no_collision file 0 test_mount refl
      test_store-StoreOk

cut_file-Shortened_example :
    (ix' : Index) × (cut_file file 4096 test_store.index ≡ some ix')
    × Shortened test_system Any test_store file
        (cut_size 4096 (lookup file test_store.index.file_to_sizes))
        (blocks_of 4096)
        ix'
cut_file-Shortened_example =
    cut_file-Shortened test_system Any test_store file test_store-StoreOk 4096
      (omega arith, omega arith)

-- A file that is open as descriptor 0, with a context of four bytes.
abbrev open_file : List ℕ → Memory
open_file bytes = ((λ path. bytes), some file ∷ [])

abbrev small_io : BufferedIo
small_io = record {
  fd = 0;
  buffer = λ i. 0;
  buffer_size = 4;
  buffer_pos = 0;
  buffer_end = 0;
  file_offset = 0;
}

abbrev six_bytes : List ℕ
six_bytes = 1 ∷ 2 ∷ 3 ∷ 4 ∷ 5 ∷ 6 ∷ []

buffered_write-Writes_example :
    (io' : BufferedIo) × (fs' : Memory) × (buffered_write memory_files small_io six_bytes
        (open_file [])
      ≡ some (io', fs'))
    × Writes memory_working fs' io' file ([] ++ six_bytes)
    × Others memory_working file (open_file []) fs'
buffered_write-Writes_example =
    buffered_write-Writes memory_working (open_file []) small_io file [] six_bytes (record {
      opened = refl;
      bytes = refl;
      offset = refl;
      fits = omega arith;
      size = (omega arith, omega arith);
    })

buffered_read-Reads_example :
    (io' : BufferedIo) × (buffered_read memory_files 5 small_io (open_file six_bytes)
      ≡ (some (take 5 six_bytes), io'))
    × Reads memory_working (open_file six_bytes) file io' (drop 5 six_bytes)
buffered_read-Reads_example =
    buffered_read-Reads memory_working (open_file six_bytes) file 5 small_io six_bytes (omega arith)
      (record {
        opened = refl;
        bytes = refl;
        order = omega arith;
        fits = omega arith;
        size = (omega arith, omega arith);
      })

-- A context whose buffer is full, on a descriptor that is not open.
abbrev full_io : BufferedIo
full_io = record small_io { fd = 7; buffer_pos = 4 }

buffered_write-overrun_example :
    buffered_write memory_files full_io (9 ∷ 8 ∷ 7 ∷ []) (open_file []) ≡ none
buffered_write-overrun_example =
    buffered_write-overrun memory_files full_io 9 (8 ∷ 7 ∷ []) (open_file []) 8 refl
      (omega arith, omega arith) refl

block_indice-Decodes_example : Decodes encode_block_indice decode_block_indice (indice file 300)
block_indice-Decodes_example =
    block_indice-Decodes (indice file 300) ((omega arith, (omega arith, tt)), omega arith)
      (omega arith)

master_info-Decodes_example : Decodes (encode_master_info no_padding) decode_master_info saved_info
master_info-Decodes_example =
    master_info-Decodes no_padding saved_info refl
      (record { hash = refl; slot = omega arith; refs = omega arith })

index_destroy-init_example :
    (fs' : Memory) × (fs'' : Memory) × (ix' : Index) × (index_destroy memory_files no_padding
        saved_index no_files
      ≡ some fs')
    × (index_init memory_files fs' ≡ some (ix', fs''))
    × Reloaded saved_index ix'
index_destroy-init_example =
    index_destroy-init memory_working no_padding (λ m. refl) no_files saved_index
      saved_index-Savable
