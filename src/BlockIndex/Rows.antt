-- ===== src/BlockIndex/Rows.antt =====
-- The rows of block_index.rs: `index_row`, `append_series_row` and `append_chunk_rows`.
pub mod Cover
pub mod Location
use thanos_datafusion_experi.Common.{
  ℕ, zero, suc, ◌+◌, ◌/◌, ◌%◌, ◌^◌, Bool, true, false, Option, none, some, List, [], ◌∷◌, ◌++◌, map,
  ok, err, ◌>>=◌, ok_or, if◌then◌else◌, length,
}
use thanos_datafusion_experi.Common.Int.{ℤ}
use thanos_datafusion_experi.Common.Text.{Text, codes, text_eq}
use thanos_datafusion_experi.Common.Maps.{Labels, lookup, insert}
use thanos_datafusion_experi.Config.{RepositoryConfig}
use thanos_datafusion_experi.TsdbIndex.Entry.{Chunk, Series}
use thanos_datafusion_experi.BlockIndex.Meta.{
  BlockFile, BlockMeta, BlockIndexRow, ChunkIndexRow, SeriesIndexRow, SeriesChunkLocation, Built,
  Json, no_chunks, no_metric_name, json_failed,
}
use thanos_datafusion_experi.BlockIndex.Paths.{strip_prefix, six_digits}

-- `files.iter().filter(..).map(|file| file.size_bytes).sum::<u64>()`
unfoldable pub sum_sizes : (BlockFile → Bool) → List BlockFile → ℕ
sum_sizes test [] = 0
sum_sizes test (file ∷ files) =
    let rest = sum_sizes test files in if test file then (file.size_bytes + rest) % 2 ^ 64 else rest

abbrev is_index_file : BlockFile → Bool
is_index_file file = text_eq file.rel_path (codes "index")

abbrev is_some {ℓ} : {A : Type ℓ} → Option A → Bool
is_some none = false
is_some (some a) = true

-- `file.rel_path.starts_with("chunks/")`
abbrev is_chunk_file : BlockFile → Bool
is_chunk_file file = is_some (strip_prefix (codes "chunks/") file.rel_path)

unfoldable pub index_row : Json → RepositoryConfig → BlockMeta → Text → Text → Built BlockIndexRow
unfolding sum_sizes text_eq strip_prefix
index_row json repository meta block_path meta_path = do
  let index_size_bytes = sum_sizes is_index_file meta.thanos.files
  let chunks_size_bytes = sum_sizes is_chunk_file meta.thanos.files
  let total_size_bytes = sum_sizes (λ _. true) meta.thanos.files
  external_labels ← ok_or (json.labels_string meta.thanos.labels) json_failed
  files ← ok_or (json.files_string meta.thanos.files) json_failed
  ok (record {
    repository_name = repository.name;
    repository_uri = repository.uri;
    block_ulid = meta.ulid;
    block_path = block_path;
    meta_path = meta_path;
    min_time = meta.min_time;
    max_time = meta.max_time;
    downsample_resolution = meta.thanos.downsample.resolution;
    external_labels = external_labels;
    external_labels_map = meta.thanos.labels;
    source = meta.thanos.source;
    upload_time = meta.thanos.upload_time;
    version = meta.version;
    compaction_level = meta.compaction.level;
    compaction_sources = meta.compaction.sources;
    num_samples = meta.stats.num_samples;
    num_float_samples = meta.stats.num_float_samples;
    num_histogram_samples = meta.stats.num_histogram_samples;
    num_series = meta.stats.num_series;
    num_chunks = meta.stats.num_chunks;
    index_series_max_size = meta.thanos.index_stats.series_max_size;
    index_size_bytes = index_size_bytes;
    chunks_size_bytes = chunks_size_bytes;
    total_size_bytes = total_size_bytes;
    files = files;
  })

-- `series.chunks.first().map(|chunk| chunk.mint)`
unfoldable pub first_mint : List Chunk → Option ℤ
first_mint [] = none
first_mint (c ∷ cs) = some c.mint

-- `series.chunks.last().map(|chunk| chunk.maxt)`
unfoldable pub last_maxt : List Chunk → Option ℤ
last_maxt [] = none
last_maxt (c ∷ []) = some c.maxt
last_maxt (c ∷ d ∷ cs) = last_maxt (d ∷ cs)

-- `labels.entry(name).or_insert(value)`
unfoldable pub or_insert : Text → Text → Labels → Labels
unfolding lookup insert
or_insert name value labels = elim (lookup name labels) [
  | none ↦ insert name value labels
  | some old ↦ labels
]

-- `for (name, value) in &meta.thanos.labels`
unfoldable pub add_external : Labels → Labels → Labels
unfolding or_insert
add_external [] labels = labels
add_external ((name, value) ∷ external) labels = add_external external (or_insert name value labels)

-- `(chunk.reference >> 32) as u32`
abbrev pub chunk_file_seq : Chunk → ℕ
chunk_file_seq chunk = chunk.reference / 2 ^ 32 % 2 ^ 32

-- `chunk.reference & u64::from(u32::MAX)`
abbrev pub chunk_file_offset : Chunk → ℕ
chunk_file_offset chunk = chunk.reference % 2 ^ 32

-- `format!("{block_path}/chunks/{:06}", chunk_file_seq + 1)`, where the sum wraps as in a release
-- build.
unfoldable pub chunk_file_path : Text → Chunk → Text
unfolding six_digits
chunk_file_path block_path chunk =
    block_path ++ (codes "/chunks/" ++ six_digits ((chunk_file_seq chunk + 1) % 2 ^ 32))

unfoldable pub location_of : Text → Chunk → SeriesChunkLocation
unfolding chunk_file_path
location_of block_path chunk = record {
  chunk_file_path = chunk_file_path block_path chunk;
  chunk_file_offset = chunk_file_offset chunk;
  chunk_mint = chunk.mint;
  chunk_maxt = chunk.maxt;
}

-- What `append_series_row` pushes.
unfoldable pub series_row : Json → Text → BlockMeta → Text → Series → Built SeriesIndexRow
unfolding first_mint last_maxt add_external location_of
series_row json repository_uri meta block_path series = do
  series_mint ← ok_or (first_mint series.chunks) no_chunks
  series_maxt ← ok_or (last_maxt series.chunks) no_chunks
  let labels = add_external meta.thanos.labels series.labels
  labels_json ← ok_or (json.labels_string labels) json_failed
  chunks_json ←
      ok_or (json.locations_string (map (location_of block_path) series.chunks)) json_failed
  ok (record {
    repository_uri = repository_uri;
    downsample_resolution = meta.thanos.downsample.resolution;
    series_mint = series_mint;
    series_maxt = series_maxt;
    labels_json = labels_json;
    chunks_json = chunks_json;
  })

-- The number of chunks, and the rows behind those that are there.
unfoldable pub append_series_row :
    Json → Text → BlockMeta → Text → Series → List SeriesIndexRow → Built (ℕ × List SeriesIndexRow)
unfolding series_row
append_series_row json repository_uri meta block_path series series_rows = do
  row ← series_row json repository_uri meta block_path series
  ok (length series.chunks, series_rows ++ (row ∷ []))

-- A row of the chunk index, from the values of its series.
unfoldable pub chunk_row :
    RepositoryConfig → BlockMeta → Text → Text → ℕ → ℤ → ℤ → Labels → Text → Chunk → ChunkIndexRow
unfolding chunk_file_path
chunk_row repository meta block_path metric_name series_ref series_mint series_maxt labels
      labels_json chunk =
    record {
      repository_name = repository.name;
      repository_uri = repository.uri;
      block_ulid = meta.ulid;
      block_path = block_path;
      downsample_resolution = meta.thanos.downsample.resolution;
      metric_name = metric_name;
      chunk_file_path = chunk_file_path block_path chunk;
      chunk_ref = chunk.reference;
      chunk_file_seq = chunk_file_seq chunk;
      chunk_file_offset = chunk_file_offset chunk;
      series_ref = series_ref;
      series_mint = series_mint;
      series_maxt = series_maxt;
      chunk_mint = chunk.mint;
      chunk_maxt = chunk.maxt;
      labels = labels;
      labels_json = labels_json;
    }

unfoldable pub append_chunk_rows :
    Json
    → RepositoryConfig
    → BlockMeta
    → Text
    → Series
    → List ChunkIndexRow
    → List SeriesIndexRow
    → Built (ℕ × List ChunkIndexRow × List SeriesIndexRow)
unfolding first_mint last_maxt lookup add_external chunk_row location_of
append_chunk_rows json repository meta block_path series rows series_rows = do
  series_mint ← ok_or (first_mint series.chunks) no_chunks
  series_maxt ← ok_or (last_maxt series.chunks) no_chunks
  metric_name ← ok_or (lookup (codes "__name__") series.labels) no_metric_name
  let labels = add_external meta.thanos.labels series.labels
  labels_json ← ok_or (json.labels_string labels) json_failed
  let new_rows =
      map
        (chunk_row repository meta block_path metric_name series.reference series_mint series_maxt
          labels labels_json)
        series.chunks
  chunks_json ←
      ok_or (json.locations_string (map (location_of block_path) series.chunks)) json_failed
  let row : SeriesIndexRow = record {
    repository_uri = repository.uri;
    downsample_resolution = meta.thanos.downsample.resolution;
    series_mint = series_mint;
    series_maxt = series_maxt;
    labels_json = labels_json;
    chunks_json = chunks_json;
  }
  ok (length series.chunks, rows ++ new_rows, series_rows ++ (row ∷ []))
