-- ===== src/BlockIndex/Labels.antt =====
-- The label columns of each metric: `collect_metric_labels` and `merge_metric_labels`.
pub mod Exact
use thanos_datafusion_experi.Common.{
  Bool, true, false, not, Option, none, some, List, [], ◌∷◌, ◌++◌, if◌then◌else◌,
}
use thanos_datafusion_experi.Common.Text.{Text, codes, text_eq}
use thanos_datafusion_experi.Common.Maps.{Labels, lookup, insert, keys}
use thanos_datafusion_experi.TsdbIndex.Entry.{Series}
use thanos_datafusion_experi.BlockIndex.Meta.{TextSet, MetricLabels, MetricTableSchema}

-- The label of the metric's name.
unfoldable pub name_label : Text
name_label = codes "__name__"

-- `set.extend(names)`
unfoldable pub extend : List Text → TextSet → TextSet
unfolding insert
extend [] set = set
extend (name ∷ names) set = extend names (insert name tt set)

abbrev pub or_default : Option TextSet → TextSet
or_default none = []
or_default (some set) = set

-- `map.entry(metric).or_default().extend(names)`
unfoldable pub extend_entry : Text → List Text → MetricLabels → MetricLabels
unfolding lookup insert extend
extend_entry metric names map = insert metric (extend names (or_default (lookup metric map))) map

-- `.filter(|label| label.as_str() != "__name__")`
unfoldable pub without_name : List Text → List Text
without_name [] = []
without_name (label ∷ labels) =
    let rest = without_name labels in if text_eq label name_label then rest else label ∷ rest

-- One round of `for series in series`.
unfoldable pub collect_series : Labels → Series → MetricLabels → MetricLabels
unfolding lookup extend_entry without_name
collect_series external_labels series metric_labels = elim (lookup name_label series.labels) [
  | none ↦ metric_labels
  | some metric ↦
      extend_entry metric (without_name (keys series.labels ++ keys external_labels)) metric_labels
]

unfoldable pub collect_metric_labels : Labels → List Series → MetricLabels → MetricLabels
unfolding collect_series
collect_metric_labels external_labels [] metric_labels = metric_labels
collect_metric_labels external_labels (series ∷ rest) metric_labels =
    collect_metric_labels external_labels rest (collect_series external_labels series metric_labels)

-- `for (metric, labels) in source`; the target comes last.
unfoldable pub merge_metric_labels : MetricLabels → MetricLabels → MetricLabels
unfolding extend_entry
merge_metric_labels [] target = target
merge_metric_labels ((metric, labels) ∷ source) target =
    merge_metric_labels source (extend_entry metric (keys labels) target)

-- `metric_labels.into_iter().map(..).collect()`
unfoldable pub table_schemas : MetricLabels → List MetricTableSchema
table_schemas [] = []
table_schemas ((name, label_columns) ∷ rest) =
    record { name = name; label_columns = label_columns } ∷ table_schemas rest
