-- ===== src/Tests/BuildRuns.antt =====
-- Runs of the builds, the clean-up and the summary of block_index.rs.
use thanos_datafusion_experi.Common.{
  ℕ, ◌≡◌, refl, true, false, ◌&&◌, none, some, List, [], ◌∷◌, ◌++◌, ok,
}
use thanos_datafusion_experi.Common.Int.{
  pos, checked_add, checked_sub, i64_try_from, checked_add_i64, as_i64,
}
use thanos_datafusion_experi.Common.Text.{Bytes, codes, text_eq}
use thanos_datafusion_experi.Common.Maps.{lookup}
use thanos_datafusion_experi.TsdbIndex.Reader.{
  from_be_bytes, read_u32, read_u64, uvarint_loop, read_uvarint, unzigzag, read_varint,
  align_series, verify_crc,
}
use thanos_datafusion_experi.TsdbIndex.Entry.{Series}
use thanos_datafusion_experi.TsdbIndex.Walk.{read_header, parse_toc, parse_symbols, read_symbols}
use thanos_datafusion_experi.BlockIndex.Meta.{
  TextSet, MetricLabels, ChunkIndexRow, BlockIndexRow, BlockBuildTask, BuiltBlockIndex, Built,
}
use thanos_datafusion_experi.BlockIndex.Paths.{
  local_path, file_name, extension, file_stem, series_index_file_path,
}
use thanos_datafusion_experi.BlockIndex.Labels.{name_label}
use thanos_datafusion_experi.BlockIndex.Disk.{Disk}
use thanos_datafusion_experi.BlockIndex.Stream.{Writer}
use thanos_datafusion_experi.BlockIndex.Files.{
  DirEntry, holds_key, cleanup_index_files, load_cached_block_index,
}
use thanos_datafusion_experi.BlockIndex.Files.Clean.{
  some_entry, is_file_named, left_of, cleanup_index_files_exact,
}
use thanos_datafusion_experi.BlockIndex.Discover.{ObjectStore}
use thanos_datafusion_experi.BlockIndex.Labels.Exact.{
  lists_column, has_column, some_series, gives_column,
}
use thanos_datafusion_experi.BlockIndex.Expanded.{write_chunk_and_series_index_streaming}
use thanos_datafusion_experi.BlockIndex.Expanded.Whole.{
  has_column-write_chunk_and_series_index_streaming,
}
use thanos_datafusion_experi.TsdbIndex.Walk.{parse}
use thanos_datafusion_experi.BlockIndex.Build.{BuildWorld, SortBy, build_chunk_index, summarize}
use thanos_datafusion_experi.BlockIndex.Build.Reuse.{manifest_of, build_chunk_index-reloads}
use thanos_datafusion_experi.BlockIndex.Build.Tables.{some_built, some_table, summarize_tables}
use thanos_datafusion_experi.Tests.IndexRuns.{plain, contents}
use thanos_datafusion_experi.Tests.BlockRuns.{meta, json, willing, writer, empty_disk, one_chunk}

abbrev task : BlockBuildTask
task = record {
  repository = record {
    name = codes "main";
    uri = codes "file:///data";
    has_s3 = false;
    has_gcs = false;
  };
  meta = meta;
  block_path = codes "01M";
  meta_path = codes "01M/meta.json";
}

abbrev pub main_row : BlockIndexRow
main_row = record {
  repository_name = codes "main";
  repository_uri = codes "file:///data";
  block_ulid = codes "01M";
  block_path = codes "01M";
  meta_path = codes "01M/meta.json";
  min_time = pos 0;
  max_time = pos 20;
  downsample_resolution = pos 0;
  external_labels = codes "{}";
  external_labels_map = (codes "region", codes "eu") ∷ [];
  source = codes "sidecar";
  upload_time = none;
  version = pos 1;
  compaction_level = pos 1;
  compaction_sources = [];
  num_samples = 2;
  num_float_samples = 2;
  num_histogram_samples = 0;
  num_series = 1;
  num_chunks = 1;
  index_series_max_size = none;
  index_size_bytes = 0;
  chunks_size_bytes = 0;
  total_size_bytes = 0;
  files = codes "[]";
}

abbrev pub built : BuiltBlockIndex
built = record {
  row = main_row;
  block_ulid = codes "01M";
  block_path = codes "01M";
  index_path = codes "01M/index";
  series_index_path = codes "c/series/01M.parquet";
  series_count = 1;
  chunk_count = 1;
  metric_labels = [];
}

abbrev world : BuildWorld
world = record {
  json = record json { read_manifest = λ _. some (manifest_of built) };
  fs = willing;
  crates = plain;
  fuel = 20;
  chunk_writer = record { opens = true; accepts = λ _ _. true; closes = λ _. true };
  series_writer = writer;
  index_cache_location = codes "c";
}

abbrev store : ObjectStore
store = record {
  list = ok (codes "01M/meta.json" ∷ []);
  exists = λ _. ok false;
  read = λ _. ok one_chunk;
}

abbrev build_run : Disk × Built BuiltBlockIndex
build_run = build_chunk_index world false store task empty_disk

build_run_lem : build_run ≡ (build_run.0, ok built)
unfolding build_chunk_index read_header read_u32 read_u64 from_be_bytes checked_add checked_sub
    verify_crc parse_toc parse_symbols read_symbols read_uvarint uvarint_loop read_varint unzigzag
    as_i64 i64_try_from checked_add_i64 align_series text_eq file_name
build_run_lem = refl

cache_path_run :
    local_path (series_index_file_path (codes "c") (codes "01M"))
    ≡ series_index_file_path (codes "c") (codes "01M")
unfolding local_path series_index_file_path
cache_path_run = refl

reload_example :
    load_cached_block_index world.json willing task (codes "c") false build_run.0 ≡ ok (some built)
reload_example =
    build_chunk_index-reloads world task store empty_disk build_run.0 built (λ _ _. refl) refl
      cache_path_run build_run_lem

abbrev two_files : List DirEntry
two_files =
    record { name = codes "01M.parquet"; regular = true }
    ∷ record { name = codes "02N.parquet"; regular = true }
    ∷ []

abbrev only_01M : TextSet
only_01M = (codes "01M", tt) ∷ []

clean_run : (cleanup_index_files (λ _. true) only_01M (some two_files)).1 ≡ ok tt
unfolding cleanup_index_files extension file_stem text_eq lookup
clean_run = refl

clean_example :
    (some_entry
        (is_file_named (codes "02N.parquet"))
        (left_of (cleanup_index_files (λ _. true) only_01M (some two_files)).0)
      ≡ (some_entry (is_file_named (codes "02N.parquet")) two_files
          && holds_key (lookup (codes "02N") only_01M)))
    × (some_entry
          (is_file_named (codes "02N.json"))
          (left_of (cleanup_index_files (λ _. true) only_01M (some two_files)).0)
        ≡ (some_entry (is_file_named (codes "02N.json")) two_files
            && holds_key (lookup (codes "02N") only_01M)))
clean_example = cleanup_index_files_exact (λ _. true) only_01M two_files b'0' (codes "2N") clean_run

abbrev labelled : BuiltBlockIndex
labelled = record built { metric_labels = (codes "up", (codes "job", tt) ∷ []) ∷ [] }

abbrev as_they_are : SortBy
as_they_are cmp rows = rows

tables_example :
    some_table (codes "up") (codes "job") (summarize as_they_are (built ∷ labelled ∷ [])).1
    ≡ some_built
        (λ b. lists_column (codes "up") (codes "job") b.metric_labels)
        (built ∷ labelled ∷ [])
tables_example = summarize_tables as_they_are (codes "up") (codes "job") (built ∷ labelled ∷ [])

-- An index with the symbols `__name__` and `up`, and one series of one chunk.
abbrev up_index : Bytes
up_index =
    0xba
    ∷ 0xaa
    ∷ 0xd7
    ∷ 0
    ∷ 1
    ∷ 0
    ∷ 0
    ∷ 0
    ∷ 16
    ∷ 0
    ∷ 0
    ∷ 0
    ∷ 2
    ∷ 8
    ∷ (codes "__name__"
        ++ (2
            ∷ (codes "up"
                ++ (0
                    ∷ 0
                    ∷ 0
                    ∷ 0
                    ∷ 0
                    ∷ 0
                    ∷ 0
                    ∷ 7
                    ∷ 1
                    ∷ 0
                    ∷ 1
                    ∷ 1
                    ∷ 20
                    ∷ 5
                    ∷ 7
                    ∷ 0
                    ∷ 0
                    ∷ 0
                    ∷ 0
                    ∷ contents 44))))

abbrev chunk_writer : Writer ChunkIndexRow
chunk_writer = record { opens = true; accepts = λ _ _. true; closes = λ _. true }

abbrev up_columns : MetricLabels
up_columns = (codes "up", (codes "region", tt) ∷ []) ∷ []

abbrev expanded_run : Disk × Built (ℕ × ℕ × MetricLabels)
expanded_run =
    write_chunk_and_series_index_streaming willing chunk_writer writer json plain 20 task.repository
      meta (codes "01M") up_index (codes "c/indexes/01M.parquet") (codes "c/series/01M.parquet")
      empty_disk

expanded_run_lem : expanded_run ≡ (expanded_run.0, ok (1, 1, up_columns))
unfolding write_chunk_and_series_index_streaming read_header read_u32 read_u64 from_be_bytes
    checked_add checked_sub verify_crc parse_toc parse_symbols read_symbols read_uvarint
    uvarint_loop read_varint unzigzag as_i64 i64_try_from checked_add_i64 align_series text_eq
    file_name name_label
expanded_run_lem = refl

columns_example :
    (series : List Series) × (parse plain 20 up_index ≡ ok series)
    × (has_column (codes "up") (codes "region") up_columns
        ≡ some_series (gives_column meta.thanos.labels (codes "up") (codes "region")) series)
columns_example =
    has_column-write_chunk_and_series_index_streaming willing chunk_writer writer json plain 20
      task.repository meta (codes "01M") up_index (codes "up") (codes "region")
      (codes "c/indexes/01M.parquet") (codes "c/series/01M.parquet") empty_disk expanded_run.0 1 1
      up_columns expanded_run_lem
