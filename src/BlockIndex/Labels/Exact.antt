-- ===== src/BlockIndex/Labels/Exact.antt =====
-- Which columns the tables of the metrics have.
use thanos_datafusion_experi.Common.{
  ◌≡◌, refl, ap, ◌∙◌, Bool, true, false, not, ◌&&◌, ◌||◌, Option, none, some, List, [], ◌∷◌, ◌++◌,
  arith, Bool-cases, Option-cases, inl, inr,
}
use thanos_datafusion_experi.Common.Text.{Text, text_eq, text_eq_iff}
use thanos_datafusion_experi.Common.Maps.{Labels, lookup, insert, lookup-insert, keys}
use thanos_datafusion_experi.TsdbIndex.Entry.{Series}
use thanos_datafusion_experi.BlockIndex.Meta.{TextSet, MetricLabels}
use thanos_datafusion_experi.BlockIndex.Labels.{
  name_label, extend, or_default, extend_entry, without_name, collect_series, collect_metric_labels,
  merge_metric_labels,
}

unfoldable pub among : Text → List Text → Bool
among label [] = false
among label (l ∷ labels) = text_eq l label || among label labels

abbrev pub has {ℓ} : {V : Type ℓ} → Option V → Bool
has none = false
has (some v) = true

abbrev column_in : Text → Option TextSet → Bool
column_in label none = false
column_in label (some set) = has (lookup label set)

-- The metric has a column for the label.
unfoldable pub has_column : Text → Text → MetricLabels → Bool
has_column metric label map = column_in label (lookup metric map)

has-extend :
    (label : Text) (names : List Text) (set : TextSet)
    → has (lookup label (extend names set)) ≡ (among label names || has (lookup label set))
unfolding extend among
has-extend label [] set = refl
has-extend label (name ∷ names) set =
    ground (arith, has-extend label names (insert name tt set), lookup-insert name label tt set)

column_in-default :
    (label : Text) (o : Option TextSet) → has (lookup label (or_default o)) ≡ column_in label o
unfolding lookup
column_in-default label none = refl
column_in-default label (some set) = refl

has_column-extend_entry :
    (metric label m : Text) (names : List Text) (map : MetricLabels)
    → has_column m label (extend_entry metric names map)
      ≡ ((text_eq metric m && among label names) || has_column m label map)
unfolding has_column extend_entry
has_column-extend_entry metric label m names map =
    rw (lookup-insert metric m (extend names (or_default (lookup metric map))) map)
      (elim (Bool-cases (text_eq metric m)) [
        | inl e ↦ rw e (
            has-extend label names (or_default (lookup metric map))
            ∙ ap (λ b. among label names || b)
                (column_in-default label (lookup metric map)
                  ∙ ap (λ t. column_in label (lookup t map)) ((text_eq_iff metric m).0 e)))
        | inr e ↦ rw e refl
      ])

among-append :
    (label : Text) (xs ys : List Text) → among label (xs ++ ys) ≡ (among label xs || among label ys)
unfolding among
among-append label [] ys = refl
among-append label (x ∷ xs) ys = ground (arith, among-append label xs ys)

among-without_name :
    (label : Text) (labels : List Text)
    → among label (without_name labels) ≡ (not (text_eq name_label label) && among label labels)
unfolding among without_name
among-without_name label [] = ground arith
among-without_name label (l ∷ labels) = ground (
  arith,
  among-without_name label labels,
  text_eq_iff l name_label,
  text_eq_iff name_label label,
  text_eq_iff l label,
)

-- The series is one of the metric, and the label is one of its own or of the block, but for
-- `__name__`.
abbrev gives : Labels → Text → Text → Series → Option Text → Bool
gives external metric label s none = false
gives external metric label s (some name) =
    text_eq name metric
    && (not (text_eq name_label label)
        && (among label (keys s.labels) || among label (keys external)))

unfoldable pub gives_column : Labels → Text → Text → Series → Bool
unfolding lookup among name_label
gives_column external metric label s = gives external metric label s (lookup name_label s.labels)

unfoldable pub some_series : (Series → Bool) → List Series → Bool
some_series test [] = false
some_series test (s ∷ series) = test s || some_series test series

has_column-collect_series :
    (external : Labels) (metric label : Text) (s : Series) (map : MetricLabels)
    → has_column metric label (collect_series external s map)
      ≡ (gives_column external metric label s || has_column metric label map)
unfolding collect_series gives_column
has_column-collect_series external metric label s map =
    elim (Option-cases (lookup name_label s.labels)) [
      | inl e ↦ rw (e, collect_series) refl
      | inr (name, e) ↦
          rw (e, collect_series)
            (has_column-extend_entry name label metric
                (without_name (keys s.labels ++ keys external)) map
              ∙ ap (λ b. (text_eq name metric && b) || has_column metric label map)
                  (among-without_name label (keys s.labels ++ keys external)
                    ∙ ap (λ b. not (text_eq name_label label) && b)
                        (among-append label (keys s.labels) (keys external))))
    ]

-- Behind `collect_metric_labels` a metric has a column exactly for the labels that it had one for,
-- and those but `__name__` of its series and of the block.
pub has_column-collect_metric_labels :
    (external : Labels) (metric label : Text) (series : List Series) (map : MetricLabels)
    → has_column metric label (collect_metric_labels external series map)
      ≡ (some_series (gives_column external metric label) series || has_column metric label map)
unfolding collect_metric_labels some_series
has_column-collect_metric_labels external metric label [] map = refl
has_column-collect_metric_labels external metric label (s ∷ series) map = ground (
  arith,
  has_column-collect_metric_labels external metric label series (collect_series external s map),
  has_column-collect_series external metric label s map,
)

-- An entry of the map is for the metric and lists the label.
unfoldable pub lists_column : Text → Text → MetricLabels → Bool
unfolding among
lists_column metric label [] = false
lists_column metric label ((name, labels) ∷ map) =
    (text_eq name metric && among label (keys labels)) || lists_column metric label map

pub has_column-merge_metric_labels :
    (metric label : Text) (source target : MetricLabels)
    → has_column metric label (merge_metric_labels source target)
      ≡ (lists_column metric label source || has_column metric label target)
unfolding merge_metric_labels lists_column
has_column-merge_metric_labels metric label [] target = refl
has_column-merge_metric_labels metric label ((name, labels) ∷ source) target = ground (
  arith,
  has_column-merge_metric_labels metric label source (extend_entry name (keys labels) target),
  has_column-extend_entry name label metric (keys labels) target,
)
