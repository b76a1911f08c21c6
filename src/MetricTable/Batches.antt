-- ===== src/MetricTable/Batches.antt =====
-- `build_metric_batch` of metric_table.rs from the batches of the chunk index to the batch of the scan.
pub mod ReadBack
pub mod Output
use thanos_datafusion_experi.Common.{
  ℕ, zero, suc, ◌+◌, Bool, Option, none, some, List, [], ◌∷◌, ◌++◌, map, Outcome, ok, err, panicked,
  stuck, ◌>>=◌, ◌>>◌, ok_or, or_panic, if◌then◌else◌, get_elem?,
}
use thanos_datafusion_experi.Common.Int.{ℤ, pos}
use thanos_datafusion_experi.Common.Text.{Text, codes, text_eq}
use thanos_datafusion_experi.Arrow.{
  DataType, utf8, int64, float64, timestamp_millisecond, Field, field, Array, strings, string_views,
  int64s, uint64s, float64s, timestamps, Schema, RecordBatch, Arrow, find_column, num_rows, all_of,
}
use thanos_datafusion_experi.MetricTable.Filter.{MetricFilter, label_or_empty}
use thanos_datafusion_experi.MetricTable.Scan.{
  DescriptorRow, MetricRow, ScanError, missing_column, invalid_column, invalid_utf8_column,
  batch_refused, unsupported_field, World, descriptor_rows,
}

abbrev pub Scanned {ℓ} : Type ℓ → Type ℓ
Scanned A = Outcome ScanError A

unfoldable pub string_column : RecordBatch → Text → Scanned Array
unfolding find_column
string_column batch name = ok_or (find_column name batch.schema batch.columns) (missing_column name)

abbrev pub as_uint64 : Text → Array → Scanned (List (Option ℕ))
as_uint64 name (uint64s xs) = ok xs
as_uint64 name _ = err (invalid_column name)

abbrev pub as_int64 : Text → Array → Scanned (List (Option ℤ))
as_int64 name (int64s xs) = ok xs
as_int64 name _ = err (invalid_column name)

unfoldable pub uint64_column : RecordBatch → Text → Scanned (List (Option ℕ))
unfolding string_column
uint64_column batch name = do array ← string_column batch name; as_uint64 name array

unfoldable pub int64_column : RecordBatch → Text → Scanned (List (Option ℤ))
unfolding string_column
int64_column batch name = do array ← string_column batch name; as_int64 name array

-- `array.value(index)`: an index out of range panics, and the slot of a null holds a default.
abbrev or_default {ℓ} : {A : Type ℓ} → A → Option A → A
or_default default none = default
or_default default (some a) = a

unfoldable pub value_at {ℓ} : {A : Type ℓ} → A → List (Option A) → ℕ → Scanned A
value_at default xs index = do slot ← or_panic (get_elem? xs index); ok (or_default default slot)

unfoldable pub string_value : Array → ℕ → Scanned Text
unfolding value_at
string_value (strings xs) index = value_at [] xs index
string_value (string_views xs) index = value_at [] xs index
string_value _ index = err invalid_utf8_column

-- The columns that a scan looks up in a batch.
pub record Columns : Type 0 where
  pub repository_uri : Array
  pub chunk_file_path : Array
  pub chunk_file_offset : List (Option ℕ)
  pub resolution : List (Option ℤ)
  pub chunk_mint : List (Option ℤ)
  pub chunk_maxt : List (Option ℤ)
  pub labels_json : Array
  pub metric_name : Array

unfoldable pub columns_of : RecordBatch → Scanned Columns
unfolding string_column uint64_column int64_column
columns_of batch = do
  repository_uri ← string_column batch (codes "repository_uri")
  chunk_file_path ← string_column batch (codes "chunk_file_path")
  chunk_file_offset ← uint64_column batch (codes "chunk_file_offset")
  resolution ← int64_column batch (codes "downsample_resolution")
  chunk_mint ← int64_column batch (codes "chunk_mint")
  chunk_maxt ← int64_column batch (codes "chunk_maxt")
  labels_json ← string_column batch (codes "labels_json")
  metric_name ← string_column batch (codes "metric_name")
  ok (record {
    repository_uri = repository_uri;
    chunk_file_path = chunk_file_path;
    chunk_file_offset = chunk_file_offset;
    resolution = resolution;
    chunk_mint = chunk_mint;
    chunk_maxt = chunk_maxt;
    labels_json = labels_json;
    metric_name = metric_name;
  })

module _ (world : World) (metric_name : Text) (filters : List MetricFilter)
    (counter_metric : Bool) where
  -- A round for a row of the metric; the source takes the numbers of the row where it uses them.
  unfoldable pub matching_row : Columns → ℕ → Text → Scanned (List MetricRow)
  unfolding string_value value_at descriptor_rows
  matching_row columns index name = do
    repository_uri ← string_value columns.repository_uri index
    chunk_file_path ← string_value columns.chunk_file_path index
    labels_json ← string_value columns.labels_json index
    chunk_mint ← value_at (pos 0) columns.chunk_mint index
    chunk_maxt ← value_at (pos 0) columns.chunk_maxt index
    resolution ← value_at (pos 0) columns.resolution index
    chunk_file_offset ← value_at 0 columns.chunk_file_offset index
    descriptor_rows world metric_name filters counter_metric (record {
      repository_uri = repository_uri;
      chunk_file_path = chunk_file_path;
      chunk_file_offset = chunk_file_offset;
      downsample_resolution = resolution;
      chunk_mint = chunk_mint;
      chunk_maxt = chunk_maxt;
      labels_json = labels_json;
      metric_name = name;
    })

  -- One round of `for index in 0..batch.num_rows()`.
  unfoldable pub batch_row : Columns → ℕ → Scanned (List MetricRow)
  unfolding matching_row string_value
  batch_row columns index = do
    name ← string_value columns.metric_name index
    if text_eq name metric_name then matching_row columns index name else ok []

  -- The rounds for `count` rows from `index` on.
  unfoldable pub batch_rows : Columns → ℕ → ℕ → Scanned (List MetricRow)
  unfolding batch_row
  batch_rows columns zero index = ok []
  batch_rows columns (suc count) index = do
    rows ← batch_row columns index
    rest ← batch_rows columns count (suc index)
    ok (rows ++ rest)

  unfoldable pub all_rows : List RecordBatch → Scanned (List MetricRow)
  unfolding columns_of batch_rows
  all_rows [] = ok []
  all_rows (batch ∷ batches) = do
    columns ← columns_of batch
    rows ← batch_rows columns (num_rows batch) 0
    rest ← all_rows batches
    ok (rows ++ rest)

-- `schema.project(projection).expect(..)`
unfoldable pub project : Schema → List ℕ → Scanned Schema
project schema [] = ok []
project schema (i ∷ projection) = do
  f ← or_panic (get_elem? schema i)
  rest ← project schema projection
  ok (f ∷ rest)

unfoldable pub projected_schema : Schema → Option (List ℕ) → Scanned Schema
unfolding project
projected_schema schema none = ok schema
projected_schema schema (some projection) = project schema projection

-- The column for one field of the output.
unfoldable pub output_column : List MetricRow → Field → Scanned Array
unfolding text_eq label_or_empty
output_column rows (field name timestamp_millisecond nullable) =
    if text_eq name (codes "timestamp")
    then ok (timestamps (all_of (λ row. row.timestamp) rows))
    else err (unsupported_field (field name timestamp_millisecond nullable))
output_column rows (field name float64 nullable) =
    if text_eq name (codes "value")
    then ok (float64s (all_of (λ row. row.value) rows))
    else err (unsupported_field (field name float64 nullable))
output_column rows (field name int64 nullable) =
    if text_eq name (codes "downsample_resolution")
    then ok (int64s (all_of (λ row. row.downsample_resolution) rows))
    else err (unsupported_field (field name int64 nullable))
output_column rows (field name utf8 nullable) =
    ok (strings (all_of (λ row. label_or_empty name row.labels) rows))
output_column rows f = err (unsupported_field f)

unfoldable pub output_columns : List MetricRow → Schema → Scanned (List Array)
unfolding output_column
output_columns rows [] = ok []
output_columns rows (f ∷ fields) = do
  column ← output_column rows f
  rest ← output_columns rows fields
  ok (column ∷ rest)

unfoldable pub record_batch :
    Arrow → Schema → Option (List ℕ) → List MetricRow → Scanned RecordBatch
unfolding projected_schema output_columns
record_batch arrow schema projection rows = do
  output_schema ← projected_schema schema projection
  columns ← output_columns rows output_schema
  ok_or (arrow.try_new output_schema columns) batch_refused

unfoldable pub build_metric_batch :
    World
    → Arrow
    → Schema
    → Option (List ℕ)
    → Text
    → List MetricFilter
    → Bool
    → List RecordBatch
    → Scanned RecordBatch
unfolding all_rows record_batch
build_metric_batch world arrow schema projection metric_name filters counter_metric descriptors = do
  rows ← all_rows world metric_name filters counter_metric descriptors
  record_batch arrow schema projection rows
