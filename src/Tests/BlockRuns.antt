-- ===== src/Tests/BlockRuns.antt =====
-- Runs of the code of block_index.rs.
use thanos_datafusion_experi.Common.{
  ℕ, ◌≡◌, refl, true, false, none, some, [], ◌∷◌, ◌++◌, arith, ok, All,
}
use thanos_datafusion_experi.Common.Int.{
  pos, checked_add, checked_sub, i64_try_from, checked_add_i64, as_i64,
}
use thanos_datafusion_experi.Common.Text.{Bytes, codes, text_eq}
use thanos_datafusion_experi.TsdbIndex.Reader.{
  from_be_bytes, read_u32, read_u64, uvarint_loop, read_uvarint, unzigzag, read_varint,
  align_series, verify_crc,
}
use thanos_datafusion_experi.TsdbIndex.Entry.{Chunk, parse_series}
use thanos_datafusion_experi.TsdbIndex.Walk.{read_header, parse_toc, parse_symbols, read_symbols}
use thanos_datafusion_experi.BlockIndex.Meta.{BlockMeta, SeriesIndexRow, Built, Json}
use thanos_datafusion_experi.BlockIndex.Paths.{local_path, file_name, with_file_name}
use thanos_datafusion_experi.BlockIndex.Rows.{series_row, location_of}
use thanos_datafusion_experi.BlockIndex.Rows.Cover.{Within, series_row_covers}
use thanos_datafusion_experi.BlockIndex.Rows.Location.{reference_of, reference_of-location_of}
use thanos_datafusion_experi.BlockIndex.Disk.{Disk, LocalFs}
use thanos_datafusion_experi.BlockIndex.Stream.{Writer, write_series_index_streaming}
use thanos_datafusion_experi.BlockIndex.Stream.Publish.{
  IsPublished, write_series_index_streaming-IsPublished,
}
use thanos_datafusion_experi.BlockIndex.Stream.Atomic.{
  succeeded, temporary_path, write_series_index_streaming_atomic,
}
use thanos_datafusion_experi.Tests.IndexRuns.{plain, front, contents}

abbrev pub meta : BlockMeta
meta = record {
  ulid = codes "01M";
  min_time = pos 0;
  max_time = pos 20;
  version = pos 1;
  stats = record {
    num_samples = 2;
    num_float_samples = 2;
    num_histogram_samples = 0;
    num_series = 1;
    num_chunks = 1;
  };
  compaction = record { level = pos 1; sources = [] };
  thanos = record {
    labels = (codes "region", codes "eu") ∷ [];
    downsample = record { resolution = pos 0 };
    source = codes "sidecar";
    files = [];
    index_stats = record { series_max_size = none };
    upload_time = none;
  };
}

abbrev pub json : Json
json = record {
  labels_string = λ _. some (codes "{}");
  locations_string = λ _. some (codes "[]");
  files_string = λ _. some (codes "[]");
  read_meta = λ _. none;
  write_manifest = λ _. some (1 ∷ []);
  read_manifest = λ _. none;
}

abbrev pub willing : LocalFs
willing = record {
  creates_dir = λ _. true;
  creates = λ _. true;
  renames = λ _ _. true;
  removes = λ _. true;
  read_error = λ _. none;
  parquet = λ _. [];
}

abbrev pub writer : Writer SeriesIndexRow
writer = record { opens = true; accepts = λ _ _. true; closes = λ _. true }

abbrev pub empty_disk : Disk
empty_disk path = none

-- An index with one series of one chunk, from 10 to 15, which no label names.
abbrev pub one_chunk : Bytes
one_chunk = front ++ (5 ∷ 0 ∷ 1 ∷ 20 ∷ 5 ∷ 7 ∷ 0 ∷ 0 ∷ 0 ∷ 0 ∷ contents 42)

abbrev chunk : Chunk
chunk = record { mint = pos 10; maxt = pos 15; reference = 7 }

entry_run :
    parse_series (0 ∷ 1 ∷ 20 ∷ 5 ∷ 7 ∷ []) 2 []
    ≡ ok (record { reference = 2; labels = []; chunks = chunk ∷ [] })
unfolding parse_series read_uvarint uvarint_loop read_varint unzigzag as_i64 i64_try_from
    checked_add_i64
entry_run = refl

abbrev pub up_row : SeriesIndexRow
up_row = record {
  repository_uri = codes "file:///data";
  downsample_resolution = pos 0;
  series_mint = pos 10;
  series_maxt = pos 15;
  labels_json = codes "{}";
  chunks_json = codes "[]";
}

row_run :
    series_row json
      (codes "file:///data")
      meta
      (codes "01M")
      (record { reference = 2; labels = []; chunks = chunk ∷ [] })
    ≡ ok up_row
unfolding series_row
row_run = refl

covers_example : All (Within (pos 10) (pos 15)) (chunk ∷ [])
covers_example =
    series_row_covers json (codes "file:///data") meta (codes "01M") (0 ∷ 1 ∷ 20 ∷ 5 ∷ 7 ∷ []) 2 []
      (record { reference = 2; labels = []; chunks = chunk ∷ [] }) up_row entry_run row_run

location_example : reference_of (codes "01M") (location_of (codes "01M") chunk) ≡ some 7
location_example = reference_of-location_of (codes "01M") chunk (omega arith)

abbrev write_run : Disk × Built (ℕ × ℕ)
write_run =
    write_series_index_streaming json willing writer plain 20 (codes "file:///data") meta
      (codes "01M") one_chunk (codes "c/01M.parquet") empty_disk

write_run_counts : write_run ≡ (write_run.0, ok (1, 1))
unfolding write_series_index_streaming read_header read_u32 read_u64 from_be_bytes checked_add
    checked_sub verify_crc parse_toc parse_symbols read_symbols read_uvarint uvarint_loop
    read_varint unzigzag as_i64 i64_try_from checked_add_i64 align_series text_eq file_name
write_run_counts = refl

IsPublished-example :
    IsPublished json willing writer plain 20
      (codes "file:///data")
      meta
      (codes "01M")
      one_chunk
      (write_run.0 (local_path (codes "c/01M.parquet")))
      (1, 1)
IsPublished-example =
    write_series_index_streaming-IsPublished json willing writer plain 20 (codes "file:///data")
      meta (codes "01M") one_chunk (codes "c/01M.parquet") empty_disk write_run.0 (1, 1)
      write_run_counts

-- No rename succeeds.
abbrev stubborn : LocalFs
stubborn = record willing { renames = λ _ _. false }

abbrev failed_run : Disk × Built (ℕ × ℕ)
failed_run =
    write_series_index_streaming json stubborn writer plain 20 (codes "file:///data") meta
      (codes "01M") one_chunk (codes "c/01M.parquet") empty_disk

failed_run_fails : succeeded failed_run.1 ≡ false
unfolding write_series_index_streaming read_header read_u32 read_u64 from_be_bytes checked_add
    checked_sub verify_crc parse_toc parse_symbols read_symbols read_uvarint uvarint_loop
    read_varint unzigzag as_i64 i64_try_from checked_add_i64 align_series text_eq file_name
failed_run_fails = refl

apart_run :
    text_eq (temporary_path (local_path (codes "c/01M.parquet"))) (codes "c/01M.parquet") ≡ false
unfolding text_eq file_name with_file_name local_path
apart_run = refl

atomic_example : failed_run.0 (codes "c/01M.parquet") ≡ none
atomic_example =
    write_series_index_streaming_atomic json stubborn writer plain 20 (codes "file:///data") meta
      (codes "01M") one_chunk (codes "c/01M.parquet") (codes "c/01M.parquet") empty_disk apart_run
      failed_run_fails
