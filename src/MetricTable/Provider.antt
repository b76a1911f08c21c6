-- ===== src/MetricTable/Provider.antt =====
-- `MetricTableProvider` and `MetricScanExec` of metric_table.rs: push-down, planning and execution.
pub mod Pushed
use thanos_datafusion_experi.Common.{
  ℕ, Bool, true, false, Option, none, some, List, [], ◌∷◌, map, ok, err, ◌>>=◌, if◌then◌else◌,
  length, drop, ◌-◌, ◌<◌, ltb,
}
use thanos_datafusion_experi.Common.Text.{Text, codes, text_eq}
use thanos_datafusion_experi.Arrow.{Schema, RecordBatch, Arrow}
use thanos_datafusion_experi.BlockIndex.Meta.{MetricTableSchema}
use thanos_datafusion_experi.BlockIndex.Arrays.{arrow_schema}
use thanos_datafusion_experi.BlockIndex.Files.{ends_with}
use thanos_datafusion_experi.MetricTable.Filter.{Regex, MetricFilter}
use thanos_datafusion_experi.MetricTable.Parse.{Expr, parse_filter}
use thanos_datafusion_experi.MetricTable.Scan.{ScanError, unsupported_filter, World}
use thanos_datafusion_experi.MetricTable.Batches.{Scanned, build_metric_batch}

pub data FilterPushDown : Type 0 where
  exact unsupported : FilterPushDown

abbrev pub push_down : Option MetricFilter → FilterPushDown
push_down none = unsupported
push_down (some filter) = exact

pub record MetricScanExec : Type 0 where
  pub schema : Schema
  pub projection : Option (List ℕ)
  pub metric_name : Text
  pub filters : List MetricFilter
  pub counter_metric : Bool

-- Without the chunk provider and the storage, which go into the batches and the `World`.
module _ (new_regex : Text → Option Regex) where
  unfoldable pub supports_filters_pushdown : List Expr → List FilterPushDown
  unfolding parse_filter
  supports_filters_pushdown filters =
      map (λ filter. push_down (parse_filter new_regex filter)) filters

  abbrev cons_all : Option MetricFilter → Option (List MetricFilter) → Option (List MetricFilter)
  cons_all (some filter) (some filters) = some (filter ∷ filters)
  cons_all _ _ = none

  -- `filters.iter().map(parse_filter).collect::<Option<Vec<_>>>()`
  unfoldable pub collect_filters : List Expr → Option (List MetricFilter)
  unfolding parse_filter
  collect_filters [] = some []
  collect_filters (filter ∷ filters) =
      cons_all (parse_filter new_regex filter) (collect_filters filters)

  abbrev plan_of :
      MetricTableSchema → Option (List ℕ) → Option (List MetricFilter) → Scanned MetricScanExec
  plan_of table projection none = err unsupported_filter
  plan_of table projection (some filters) = ok (record {
    schema = arrow_schema table;
    projection = projection;
    metric_name = table.name;
    filters = filters;
    counter_metric = ends_with (codes "_total") table.name;
  })

  unfoldable pub scan : MetricTableSchema → Option (List ℕ) → List Expr → Scanned MetricScanExec
  unfolding collect_filters ends_with arrow_schema
  scan table projection filters = plan_of table projection (collect_filters filters)

-- `MetricScanExec::execute`, with the batches of the child.
unfoldable pub execute : World → Arrow → MetricScanExec → List RecordBatch → Scanned RecordBatch
unfolding build_metric_batch
execute world arrow plan descriptors =
    build_metric_batch world arrow plan.schema plan.projection plan.metric_name plan.filters
      plan.counter_metric descriptors
