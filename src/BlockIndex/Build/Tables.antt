-- ===== src/BlockIndex/Build/Tables.antt =====
-- The rows and the tables that a build ends with, against the blocks that were built.
use thanos_datafusion_experi.Common.{
  or_false, ◌≡◌, refl, ap, subst, ◌∙◌, Bool, true, false, ◌&&◌, ◌||◌, List, [], ◌∷◌, map, arith,
  Bool-cases, inl, inr,
}
use thanos_datafusion_experi.Common.Text.{Text, text_eq, text_ltb, text_eq_iff, text_ltb_irrefl}
use thanos_datafusion_experi.Common.Maps.{lookup, keys, Above, Sorted, Sorted-insert}
use thanos_datafusion_experi.BlockIndex.Meta.{MetricLabels, MetricTableSchema, BuiltBlockIndex}
use thanos_datafusion_experi.BlockIndex.Labels.{
  extend, or_default, extend_entry, merge_metric_labels, table_schemas,
}
use thanos_datafusion_experi.BlockIndex.Labels.Exact.{
  has, has_column, lists_column, has_column-merge_metric_labels,
}
use thanos_datafusion_experi.BlockIndex.Build.{SortBy, merge_all, summarize}

unfoldable pub some_built : (BuiltBlockIndex → Bool) → List BuiltBlockIndex → Bool
some_built test [] = false
some_built test (b ∷ built) = test b || some_built test built

-- A table for the metric with a column for the label.
unfoldable pub some_table : Text → Text → List MetricTableSchema → Bool
some_table metric label [] = false
some_table metric label (t ∷ tables) =
    (text_eq t.name metric && has (lookup label t.label_columns)) || some_table metric label tables

Sorted-merge_metric_labels :
    (source target : MetricLabels) → Sorted target → Sorted (merge_metric_labels source target)
unfolding merge_metric_labels extend_entry
Sorted-merge_metric_labels [] target h = h
Sorted-merge_metric_labels ((metric, labels) ∷ source) target h =
    Sorted-merge_metric_labels source (extend_entry metric (keys labels) target)
      (Sorted-insert metric (extend (keys labels) (or_default (lookup metric target))) target h)

Sorted-merge_all :
    (built : List BuiltBlockIndex) (target : MetricLabels)
    → Sorted target
    → Sorted (merge_all built target)
unfolding merge_all
Sorted-merge_all [] target h = h
Sorted-merge_all (b ∷ built) target h =
    Sorted-merge_all built (merge_metric_labels b.metric_labels target)
      (Sorted-merge_metric_labels b.metric_labels target h)

has_column-merge_all :
    (metric label : Text) (built : List BuiltBlockIndex) (target : MetricLabels)
    → has_column metric label (merge_all built target) ≡ (
        some_built (λ b. lists_column metric label b.metric_labels) built
        || has_column metric label target)
unfolding merge_all some_built
has_column-merge_all metric label [] target = refl
has_column-merge_all metric label (b ∷ built) target = ground (
  arith,
  has_column-merge_all metric label built (merge_metric_labels b.metric_labels target),
  has_column-merge_metric_labels metric label b.metric_labels target,
)

below_differs : (s t : Text) → text_ltb s t ≡ true → text_eq t s ≡ false
below_differs s t h = elim (Bool-cases (text_eq t s)) [
  | inl e ↦
      absurd (let same = (text_eq_iff t s).0 e in cc (ap (text_ltb s) same, text_ltb_irrefl s, h))
  | inr e ↦ e
]

some_table-Above :
    (metric label : Text) (map : MetricLabels)
    → Above metric map
    → some_table metric label (table_schemas map) ≡ false
unfolding some_table table_schemas
some_table-Above metric label [] h = refl
some_table-Above metric label ((name, set) ∷ map) h =
    rw (below_differs metric name h.0) (some_table-Above metric label map h.1)

some_table-table_schemas :
    (metric label : Text) (map : MetricLabels)
    → Sorted map
    → some_table metric label (table_schemas map) ≡ has_column metric label map
unfolding some_table table_schemas has_column lookup
some_table-table_schemas metric label [] h = refl
some_table-table_schemas metric label ((name, set) ∷ map) h =
    elim (Bool-cases (text_eq name metric)) [
      | inl e ↦ rw e (
          let same = (text_eq_iff name metric).0 e in
          ap (λ b. has (lookup label set) || b)
            (some_table-Above metric label map (subst (λ t. Above t map) same h.0))
          ∙ or_false (has (lookup label set)))
      | inr e ↦ rw e (some_table-table_schemas metric label map h.1)
    ]

-- A metric has a table with a column for a label exactly where one of the blocks that were built
-- lists the label for the metric, in whatever order the builds have ended.
pub summarize_tables :
    (sort_by : SortBy) (metric label : Text) (built : List BuiltBlockIndex)
    → some_table metric label (summarize sort_by built).1
      ≡ some_built (λ b. lists_column metric label b.metric_labels) built
unfolding summarize has_column lookup
summarize_tables sort_by metric label built =
    some_table-table_schemas metric label (merge_all built []) (Sorted-merge_all built [] tt)
    ∙ (has_column-merge_all metric label built []
        ∙ or_false (some_built (λ b. lists_column metric label b.metric_labels) built))
