-- ===== src/Tests/ArrowRuns.antt =====
-- Runs of the record batches of block_index.rs and metric_table.rs.
use mathlib.Core.Option
use thanos_datafusion_experi.Common.{
  ℕ, ◌<◌, ◌≡◌, refl, true, false, Option, length, none, some, ◌>>=◌, List, [], ◌∷◌, arith, ok, err,
  ◌⊎◌, map, concat,
}
use thanos_datafusion_experi.Common.Int.{pos}
use thanos_datafusion_experi.Common.Text.{codes, text_eq}
use thanos_datafusion_experi.Arrow.{
  field, utf8, Array, RecordBatch, Arrow, IsArrow, Schema, Conforms, entries_field,
}
use thanos_datafusion_experi.BlockIndex.Meta.{ChunkIndexRow, MetricTableSchema}
use thanos_datafusion_experi.BlockIndex.Arrays.{
  block_schema, chunk_schema, series_schema, block_columns, chunk_columns, series_columns,
  block_record_batch, chunk_record_batch, series_record_batch, arrow_schema,
}
use thanos_datafusion_experi.BlockIndex.Arrays.Conform.{index_batches-Conform}
use thanos_datafusion_experi.BlockIndex.Files.{ends_with}
use thanos_datafusion_experi.MetricTable.Filter.{
  Operator, MetricFilter, matches_sample, compare_i64,
}
use thanos_datafusion_experi.MetricTable.Parse.{
  Expr, binary, column, literal, int64, parse_filter, reverse_operator, scalar_i64,
  timestamp_column,
}
use thanos_datafusion_experi.MetricTable.Parse.Meaning.{parse_filter_literal_first}
use thanos_datafusion_experi.MetricTable.Provider.{
  MetricScanExec, supports_filters_pushdown, scan, execute,
}
use thanos_datafusion_experi.MetricTable.Provider.Pushed.{scan-execute}
use thanos_datafusion_experi.MetricTable.Scan.{batch_refused, build_rows}
use thanos_datafusion_experi.MetricTable.Batches.{record_batch}
use thanos_datafusion_experi.MetricTable.Batches.ReadBack.{handed_batch, descriptor_row, written}
use thanos_datafusion_experi.MetricTable.Batches.Output.{Given, record_batch-Conforms}
use thanos_datafusion_experi.Tests.MetricRuns.{a_sample, a_world, the_rows}
use thanos_datafusion_experi.Tests.BlockRuns.{up_row}
use thanos_datafusion_experi.Tests.BuildRuns.{main_row}

-- A batch without a column has no number of rows.
try_batch : Schema → List Array → Option RecordBatch
try_batch schema [] = none
try_batch schema (a ∷ columns) = some (record { schema = schema; columns = a ∷ columns })

abbrev an_arrow : Arrow
an_arrow = record {
  try_new = try_batch;
  map_entries = entries_field;
  list_item = field (codes "item") utf8 true;
}

try_batch_accepts :
    (schema : Schema) (columns : List Array) (n : ℕ)
    → 0 < length schema
    → Conforms n schema columns
    → try_batch schema columns ≡ some (record { schema = schema; columns = columns })
unfolding try_batch
try_batch_accepts [] columns n h fits = absurd (omega (arith, h))
try_batch_accepts (f ∷ schema) [] n h fits = elim fits [ ]
try_batch_accepts (f ∷ schema) (a ∷ columns) n h fits = refl

an_arrow-IsArrow : IsArrow an_arrow
unfolding try_batch
an_arrow-IsArrow = record {
  accepts = try_batch_accepts;
  rejects = refl;
  entries = refl;
  item = refl;
}

abbrev up_chunk : ChunkIndexRow
up_chunk = record {
  repository_name = codes "main";
  repository_uri = codes "file:///data";
  block_ulid = codes "01M";
  block_path = codes "01M";
  downsample_resolution = pos 0;
  metric_name = codes "up";
  chunk_file_path = codes "000001";
  chunk_ref = 0;
  chunk_file_seq = 0;
  chunk_file_offset = 0;
  series_ref = 1;
  series_mint = pos 100;
  series_maxt = pos 400;
  chunk_mint = pos 100;
  chunk_maxt = pos 400;
  labels = (codes "__name__", codes "up") ∷ [];
  labels_json = codes "{}";
}

batches_example :
    ((block_record_batch an_arrow block_schema (main_row ∷ [])
        ≡ some (record { schema = block_schema; columns = block_columns an_arrow (main_row ∷ []) }))
      × Conforms 1 block_schema (block_columns an_arrow (main_row ∷ [])))
    × ((chunk_record_batch an_arrow chunk_schema (up_chunk ∷ [])
          ≡ some
              (record { schema = chunk_schema; columns = chunk_columns an_arrow (up_chunk ∷ []) }))
        × Conforms 1 chunk_schema (chunk_columns an_arrow (up_chunk ∷ [])))
    × ((series_record_batch an_arrow series_schema (up_row ∷ [])
          ≡ some
              (record { schema = series_schema; columns = series_columns an_arrow (up_row ∷ []) }))
        × Conforms 1 series_schema (series_columns an_arrow (up_row ∷ [])))
batches_example =
    index_batches-Conform an_arrow an_arrow-IsArrow (main_row ∷ []) (up_chunk ∷ []) (up_row ∷ [])

abbrev groups : List (List ChunkIndexRow)
groups = (up_chunk ∷ []) ∷ [] ∷ []

abbrev up_table : MetricTableSchema
up_table = record { name = codes "up"; label_columns = (codes "job", tt) ∷ [] }

-- `timestamp > 200`
abbrev later : List Expr
later = binary (column timestamp_column) Operator.gt (literal (int64 (some (pos 200)))) ∷ []

scan_example :
    (parsed : List MetricFilter) × (plan : MetricScanExec) × (map (parse_filter (λ _. none)) later
      ≡ map some parsed)
    × (scan (λ _. none) up_table none later ≡ ok plan)
    × (execute a_world an_arrow plan (map (handed_batch true) (map (written an_arrow) groups)) ≡ (
        build_rows a_world (codes "up") parsed false (map descriptor_row (concat groups))
        >>= record_batch an_arrow (arrow_schema up_table) none))
unfolding chunk_record_batch supports_filters_pushdown ends_with parse_filter text_eq scalar_i64
    try_batch
scan_example =
    scan-execute (λ _. none) a_world an_arrow an_arrow-IsArrow up_table none later true groups
      (map (written an_arrow) groups) refl refl

abbrev job_and_time : Option (List ℕ)
job_and_time = some (3 ∷ 0 ∷ [])

output_example :
    ((job_and_time ≡ some [])
      × (record_batch an_arrow (arrow_schema up_table) job_and_time the_rows ≡ err batch_refused))
    ⊎ (fields : Schema) × Given an_arrow up_table job_and_time the_rows fields
unfolding arrow_schema
output_example =
    record_batch-Conforms an_arrow an_arrow-IsArrow up_table job_and_time the_rows
      (omega arith, (omega arith, tt))

-- The projection of `count(*)`, which needs no column.
count_run : record_batch an_arrow (arrow_schema up_table) (some []) the_rows ≡ err batch_refused
unfolding record_batch try_batch
count_run = refl

-- `200 < timestamp`
literal_first_example :
    Option.map
      (λ f. matches_sample f a_sample (pos 0) [])
      (parse_filter
        (λ _. none)
        (binary (literal (int64 (some (pos 200)))) Operator.lt (column timestamp_column)))
    ≡ some (compare_i64 (pos 200) Operator.lt a_sample.timestamp)
unfolding reverse_operator scalar_i64
literal_first_example =
    parse_filter_literal_first (λ _. none) Operator.lt Operator.gt (int64 (some (pos 200)))
      (pos 200) a_sample (pos 0) [] refl refl
