-- ===== src/MetricTable/Provider/Pushed.antt =====
-- Filters that are pushed down, from the plan to the batch of the scan.
use thanos_datafusion_experi.Common.{
  ℕ, ◌≡◌, refl, ap, Bool, Option, some, List, [], ◌∷◌, map, concat, ok, ◌>>=◌, Option-cases, inl,
  inr,
}
use thanos_datafusion_experi.Common.Text.{Text, codes}
use thanos_datafusion_experi.Arrow.{RecordBatch, Arrow, IsArrow}
use thanos_datafusion_experi.BlockIndex.Meta.{ChunkIndexRow, MetricTableSchema}
use thanos_datafusion_experi.BlockIndex.Arrays.{chunk_schema, chunk_record_batch, arrow_schema}
use thanos_datafusion_experi.BlockIndex.Files.{ends_with}
use thanos_datafusion_experi.MetricTable.Filter.{Regex, MetricFilter}
use thanos_datafusion_experi.MetricTable.Parse.{Expr, parse_filter}
use thanos_datafusion_experi.MetricTable.Scan.{World, build_rows}
use thanos_datafusion_experi.MetricTable.Batches.{record_batch, build_metric_batch}
use thanos_datafusion_experi.MetricTable.Batches.ReadBack.{
  handed_batch, descriptor_row, all_rows-build_rows,
}
use thanos_datafusion_experi.MetricTable.Provider.{
  exact, push_down, supports_filters_pushdown, collect_filters, MetricScanExec, scan, execute,
  ends_with,
}

module _ (new_regex : Text → Option Regex) where
  -- Filters that are all declared exact are all collected.
  collected :
      (filters : List Expr)
      → supports_filters_pushdown new_regex filters ≡ map (λ _. exact) filters
      → (parsed : List MetricFilter) × (collect_filters new_regex filters ≡ some parsed)
        × (map (parse_filter new_regex) filters ≡ map some parsed)
  unfolding supports_filters_pushdown collect_filters
  collected [] e = ([], refl, refl)
  collected (filter ∷ filters) e = elim (Option-cases (parse_filter new_regex filter)) [
    | inl p ↦ absurd (cc (e, ap push_down p))
    | inr (one, p) ↦
        let (parsed, rest, all) = collected filters (cc e) in
        (one ∷ parsed, rw (p, rest) refl, rw (p, all) refl)
  ]

  -- If every filter is declared exact, the scan accepts all of them, and its plan, executed on
  -- the batches that `chunk_record_batch` makes of the rows of a chunk index, in any grouping and
  -- with texts as they are or as views, gives the output batch for the metric's rows under these
  -- filters, where the arrow crate accepts columns that fit a schema of one field at least and
  -- its builders set the default fields.
  pub scan-execute :
      (world : World) (arrow : Arrow)
      → IsArrow arrow
      → (table : MetricTableSchema) (projection : Option (List ℕ)) (filters : List Expr)
        (views : Bool) (groups : List (List ChunkIndexRow)) (batches : List RecordBatch)
      → supports_filters_pushdown new_regex filters ≡ map (λ _. exact) filters
      → map (chunk_record_batch arrow chunk_schema) groups ≡ map some batches
      → (parsed : List MetricFilter) × (plan : MetricScanExec) × (map
            (parse_filter new_regex)
            filters
          ≡ map some parsed)
        × (scan new_regex table projection filters ≡ ok plan)
        × (execute world arrow plan (map (handed_batch views) batches) ≡ (
            build_rows world table.name parsed
              (ends_with (codes "_total") table.name)
              (map descriptor_row (concat groups))
            >>= record_batch arrow (arrow_schema table) projection))
  unfolding scan execute build_metric_batch
  scan-execute world arrow lawful table projection filters views groups batches e f =
      let (parsed, some_filters, all) = collected filters e in
      (
        parsed,
        record {
          schema = arrow_schema table;
          projection = projection;
          metric_name = table.name;
          filters = parsed;
          counter_metric = ends_with (codes "_total") table.name;
        },
        all,
        rw some_filters refl,
        rw
            (all_rows-build_rows world table.name parsed (ends_with (codes "_total") table.name)
              arrow lawful views groups batches f)
            refl,
      )
