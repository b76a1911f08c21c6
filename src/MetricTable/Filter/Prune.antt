-- ===== src/MetricTable/Filter/Prune.antt =====
-- What the tests on a descriptor may rule out.
use thanos_datafusion_experi.Common.{◌≡◌, ◌≢◌, refl, true, arith}
use thanos_datafusion_experi.Common.Int.{ℤ, ◌≤ℤ◌}
use thanos_datafusion_experi.ChunkReader.{Sample}
use thanos_datafusion_experi.MetricTable.Filter.{
  Operator, MetricFilter, timestamp_filter, resolution_filter, label_filter, label_regex,
  ChunkDescriptor, compare_i64, range_matches, matches_descriptor, matches_sample,
}

-- Every filter but `timestamp != v`.
abbrev pub Prunable : MetricFilter → Type 0
Prunable (timestamp_filter operator value) = operator ≢ Operator.not_eq
Prunable _ = Unit {0}

range_lem :
    (operator : Operator) (t value mint maxt : ℤ)
    → operator ≢ Operator.not_eq
    → mint ≤ℤ t
    → t ≤ℤ maxt
    → compare_i64 t operator value ≡ true
    → range_matches operator value mint maxt ≡ true
unfolding compare_i64 range_matches
range_lem Operator.eq t value mint maxt n a b e = ground arith
range_lem Operator.not_eq t value mint maxt n a b e = absurd (n refl)
range_lem Operator.gt t value mint maxt n a b e = ground arith
range_lem Operator.gt_eq t value mint maxt n a b e = ground arith
range_lem Operator.lt t value mint maxt n a b e = ground arith
range_lem Operator.lt_eq t value mint maxt n a b e = ground arith
range_lem Operator.regex_match t value mint maxt n a b e = cc
range_lem Operator.regex_i_match t value mint maxt n a b e = cc
range_lem Operator.regex_not_match t value mint maxt n a b e = cc
range_lem Operator.regex_not_i_match t value mint maxt n a b e = cc
range_lem Operator.other_operator t value mint maxt n a b e = cc

-- If a sample in the time range of a chunk passes a filter that is not `timestamp != v`, then the
-- chunk's descriptor passes it.
pub matches_descriptor-matches_sample :
    (filter : MetricFilter) (s : Sample) (d : ChunkDescriptor)
    → Prunable filter
    → d.mint ≤ℤ s.timestamp
    → s.timestamp ≤ℤ d.maxt
    → matches_sample filter s d.downsample_resolution d.labels ≡ true
    → matches_descriptor filter d ≡ true
unfolding matches_descriptor matches_sample
matches_descriptor-matches_sample (timestamp_filter operator value) s d n a b e =
    range_lem operator s.timestamp value d.mint d.maxt n a b e
matches_descriptor-matches_sample (resolution_filter operator value) s d n a b e = e
matches_descriptor-matches_sample (label_filter name operator value) s d n a b e = e
matches_descriptor-matches_sample (label_regex name regex negated) s d n a b e = e
