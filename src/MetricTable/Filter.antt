-- ===== src/MetricTable/Filter.antt =====
-- `MetricFilter` of metric_table.rs: the tests on a chunk's descriptor and on a sample.
pub mod Prune
use thanos_datafusion_experi.Common.{ℕ, Bool, true, false, not, ◌&&◌, Option, none, some, []}
use thanos_datafusion_experi.Common.Int.{ℤ, ltb_ℤ, leb_ℤ, eqb_ℤ}
use thanos_datafusion_experi.Common.Text.{Text, text_eq}
use thanos_datafusion_experi.Common.Maps.{Labels, lookup}
use thanos_datafusion_experi.ChunkReader.{Sample}

-- The operators of DataFusion that the source names; `other_operator` is any other.
pub data Operator : Type 0 where
  eq not_eq gt gt_eq lt lt_eq : Operator
  regex_match regex_i_match regex_not_match regex_not_i_match other_operator : Operator

-- A compiled `Regex` is its `is_match`.
abbrev pub Regex : Type 0
Regex = Text → Bool

pub data MetricFilter : Type 0 where
  timestamp_filter resolution_filter : Operator → ℤ → MetricFilter
  label_filter : Text → Operator → Text → MetricFilter
  label_regex : Text → Regex → Bool → MetricFilter

pub record ChunkDescriptor : Type 0 where
  pub mint : ℤ
  pub maxt : ℤ
  pub downsample_resolution : ℤ
  pub labels : Labels

-- `labels.get(name).map(String::as_str).unwrap_or("")`
unfoldable pub label_or_empty : Text → Labels → Text
label_or_empty name labels = elim (lookup name labels) [ none ↦ [] | some value ↦ value ]

unfoldable pub compare_i64 : ℤ → Operator → ℤ → Bool
compare_i64 left Operator.eq right = eqb_ℤ left right
compare_i64 left Operator.not_eq right = not (eqb_ℤ left right)
compare_i64 left Operator.gt right = ltb_ℤ right left
compare_i64 left Operator.gt_eq right = leb_ℤ right left
compare_i64 left Operator.lt right = ltb_ℤ left right
compare_i64 left Operator.lt_eq right = leb_ℤ left right
compare_i64 left _ right = false

unfoldable pub compare_str : Text → Operator → Text → Bool
compare_str left Operator.eq right = text_eq left right
compare_str left Operator.not_eq right = not (text_eq left right)
compare_str left _ right = false

-- `regex.is_match(..) != negated`
abbrev pub differs : Bool → Bool → Bool
differs true b = not b
differs false b = b

-- A timestamp filter on the time range of a chunk.
unfoldable pub range_matches : Operator → ℤ → ℤ → ℤ → Bool
range_matches Operator.eq value mint maxt = leb_ℤ mint value && leb_ℤ value maxt
range_matches Operator.gt value mint maxt = ltb_ℤ value maxt
range_matches Operator.gt_eq value mint maxt = leb_ℤ value maxt
range_matches Operator.lt value mint maxt = ltb_ℤ mint value
range_matches Operator.lt_eq value mint maxt = leb_ℤ mint value
range_matches _ value mint maxt = false

unfoldable pub matches_descriptor : MetricFilter → ChunkDescriptor → Bool
unfolding range_matches compare_i64 compare_str label_or_empty
matches_descriptor (timestamp_filter operator value) d = range_matches operator value d.mint d.maxt
matches_descriptor (resolution_filter operator value) d =
    compare_i64 d.downsample_resolution operator value
matches_descriptor (label_filter name operator value) d =
    compare_str (label_or_empty name d.labels) operator value
matches_descriptor (label_regex name regex negated) d =
    differs (regex (label_or_empty name d.labels)) negated

unfoldable pub matches_sample : MetricFilter → Sample → ℤ → Labels → Bool
unfolding compare_i64 compare_str label_or_empty
matches_sample (timestamp_filter operator value) s resolution labels =
    compare_i64 s.timestamp operator value
matches_sample (resolution_filter operator value) s resolution labels =
    compare_i64 resolution operator value
matches_sample (label_filter name operator value) s resolution labels =
    compare_str (label_or_empty name labels) operator value
matches_sample (label_regex name regex negated) s resolution labels =
    differs (regex (label_or_empty name labels)) negated
