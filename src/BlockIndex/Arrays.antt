-- ===== src/BlockIndex/Arrays.antt =====
-- The schemas and the record batches of block_index.rs.
pub mod Conform
use thanos_datafusion_experi.Common.{
  Bool, true, false, Option, none, some, List, [], ◌∷◌, map, ok_or,
}
use thanos_datafusion_experi.Common.Text.{Text, codes}
use thanos_datafusion_experi.Arrow.{
  DataType, utf8, int64, int32, uint64, uint32, float64, timestamp_millisecond, struct_of, map_of,
  list_of, Field, field, Array, strings, int64s, int32s, uint64s, uint32s, maps, lists, Schema,
  RecordBatch, Arrow, all_of,
}
use thanos_datafusion_experi.BlockIndex.Meta.{
  BlockIndexRow, ChunkIndexRow, SeriesIndexRow, TextSet, MetricTableSchema,
}

abbrev string_field : Field
string_field = field (codes "item") utf8 true

abbrev pub map_entries : Field
map_entries =
    field (codes "entries")
      (struct_of (field (codes "keys") utf8 false) (field (codes "values") utf8 true)) false

unfoldable pub block_schema : Schema
block_schema =
    field (codes "repository_name") utf8 false
    ∷ field (codes "repository_uri") utf8 false
    ∷ field (codes "block_ulid") utf8 false
    ∷ field (codes "block_path") utf8 false
    ∷ field (codes "meta_path") utf8 false
    ∷ field (codes "min_time") int64 false
    ∷ field (codes "max_time") int64 false
    ∷ field (codes "downsample_resolution") int64 false
    ∷ field (codes "external_labels") utf8 false
    ∷ field (codes "external_labels_map") (map_of map_entries false) false
    ∷ field (codes "source") utf8 false
    ∷ field (codes "upload_time") utf8 true
    ∷ field (codes "version") int32 false
    ∷ field (codes "compaction_level") int32 false
    ∷ field (codes "compaction_sources") (list_of string_field) true
    ∷ field (codes "num_samples") uint64 false
    ∷ field (codes "num_float_samples") uint64 false
    ∷ field (codes "num_histogram_samples") uint64 false
    ∷ field (codes "num_series") uint64 false
    ∷ field (codes "num_chunks") uint64 false
    ∷ field (codes "index_series_max_size") int64 true
    ∷ field (codes "index_size_bytes") uint64 false
    ∷ field (codes "chunks_size_bytes") uint64 false
    ∷ field (codes "total_size_bytes") uint64 false
    ∷ field (codes "files") utf8 false
    ∷ []

unfoldable pub chunk_schema : Schema
chunk_schema =
    field (codes "repository_name") utf8 false
    ∷ field (codes "repository_uri") utf8 false
    ∷ field (codes "block_ulid") utf8 false
    ∷ field (codes "block_path") utf8 false
    ∷ field (codes "downsample_resolution") int64 false
    ∷ field (codes "metric_name") utf8 false
    ∷ field (codes "chunk_file_path") utf8 false
    ∷ field (codes "chunk_ref") uint64 false
    ∷ field (codes "chunk_file_seq") uint32 false
    ∷ field (codes "chunk_file_offset") uint64 false
    ∷ field (codes "series_ref") uint64 false
    ∷ field (codes "series_mint") int64 false
    ∷ field (codes "series_maxt") int64 false
    ∷ field (codes "chunk_mint") int64 false
    ∷ field (codes "chunk_maxt") int64 false
    ∷ field (codes "labels") (map_of map_entries false) false
    ∷ field (codes "labels_json") utf8 false
    ∷ []

unfoldable pub series_schema : Schema
series_schema =
    field (codes "repository_uri") utf8 false
    ∷ field (codes "downsample_resolution") int64 false
    ∷ field (codes "series_mint") int64 false
    ∷ field (codes "series_maxt") int64 false
    ∷ field (codes "labels_json") utf8 false
    ∷ field (codes "chunks_json") utf8 false
    ∷ []

-- `MetricTableSchema::arrow_schema`
abbrev pub label_fields : TextSet → Schema
label_fields [] = []
label_fields ((label, u) ∷ labels) = field label utf8 false ∷ label_fields labels

unfoldable pub arrow_schema : MetricTableSchema → Schema
arrow_schema table =
    field (codes "timestamp") timestamp_millisecond false
    ∷ field (codes "value") float64 true
    ∷ field (codes "downsample_resolution") int64 false
    ∷ label_fields table.label_columns

module _ (arrow : Arrow) where
  unfoldable pub block_columns : List BlockIndexRow → List Array
  block_columns rows =
      strings (all_of (λ row. row.repository_name) rows)
      ∷ strings (all_of (λ row. row.repository_uri) rows)
      ∷ strings (all_of (λ row. row.block_ulid) rows)
      ∷ strings (all_of (λ row. row.block_path) rows)
      ∷ strings (all_of (λ row. row.meta_path) rows)
      ∷ int64s (all_of (λ row. row.min_time) rows)
      ∷ int64s (all_of (λ row. row.max_time) rows)
      ∷ int64s (all_of (λ row. row.downsample_resolution) rows)
      ∷ strings (all_of (λ row. row.external_labels) rows)
      ∷ maps arrow.map_entries (all_of (λ row. row.external_labels_map) rows)
      ∷ strings (all_of (λ row. row.source) rows)
      ∷ strings (map (λ row. row.upload_time) rows)
      ∷ int32s (all_of (λ row. row.version) rows)
      ∷ int32s (all_of (λ row. row.compaction_level) rows)
      ∷ lists arrow.list_item (all_of (λ row. row.compaction_sources) rows)
      ∷ uint64s (all_of (λ row. row.num_samples) rows)
      ∷ uint64s (all_of (λ row. row.num_float_samples) rows)
      ∷ uint64s (all_of (λ row. row.num_histogram_samples) rows)
      ∷ uint64s (all_of (λ row. row.num_series) rows)
      ∷ uint64s (all_of (λ row. row.num_chunks) rows)
      ∷ int64s (map (λ row. row.index_series_max_size) rows)
      ∷ uint64s (all_of (λ row. row.index_size_bytes) rows)
      ∷ uint64s (all_of (λ row. row.chunks_size_bytes) rows)
      ∷ uint64s (all_of (λ row. row.total_size_bytes) rows)
      ∷ strings (all_of (λ row. row.files) rows)
      ∷ []

  unfoldable pub chunk_columns : List ChunkIndexRow → List Array
  chunk_columns rows =
      strings (all_of (λ row. row.repository_name) rows)
      ∷ strings (all_of (λ row. row.repository_uri) rows)
      ∷ strings (all_of (λ row. row.block_ulid) rows)
      ∷ strings (all_of (λ row. row.block_path) rows)
      ∷ int64s (all_of (λ row. row.downsample_resolution) rows)
      ∷ strings (all_of (λ row. row.metric_name) rows)
      ∷ strings (all_of (λ row. row.chunk_file_path) rows)
      ∷ uint64s (all_of (λ row. row.chunk_ref) rows)
      ∷ uint32s (all_of (λ row. row.chunk_file_seq) rows)
      ∷ uint64s (all_of (λ row. row.chunk_file_offset) rows)
      ∷ uint64s (all_of (λ row. row.series_ref) rows)
      ∷ int64s (all_of (λ row. row.series_mint) rows)
      ∷ int64s (all_of (λ row. row.series_maxt) rows)
      ∷ int64s (all_of (λ row. row.chunk_mint) rows)
      ∷ int64s (all_of (λ row. row.chunk_maxt) rows)
      ∷ maps arrow.map_entries (all_of (λ row. row.labels) rows)
      ∷ strings (all_of (λ row. row.labels_json) rows)
      ∷ []

  unfoldable pub series_columns : List SeriesIndexRow → List Array
  series_columns rows =
      strings (all_of (λ row. row.repository_uri) rows)
      ∷ int64s (all_of (λ row. row.downsample_resolution) rows)
      ∷ int64s (all_of (λ row. row.series_mint) rows)
      ∷ int64s (all_of (λ row. row.series_maxt) rows)
      ∷ strings (all_of (λ row. row.labels_json) rows)
      ∷ strings (all_of (λ row. row.chunks_json) rows)
      ∷ []

  -- `None` where `RecordBatch::try_new` fails, an error of which the callers pass on.
  unfoldable pub block_record_batch : Schema → List BlockIndexRow → Option RecordBatch
  unfolding block_columns
  block_record_batch schema rows = arrow.try_new schema (block_columns rows)

  unfoldable pub chunk_record_batch : Schema → List ChunkIndexRow → Option RecordBatch
  unfolding chunk_columns
  chunk_record_batch schema rows = arrow.try_new schema (chunk_columns rows)

  unfoldable pub series_record_batch : Schema → List SeriesIndexRow → Option RecordBatch
  unfolding series_columns
  series_record_batch schema rows = arrow.try_new schema (series_columns rows)
