-- ===== src/MetricTable/Parse.antt =====
-- `parse_filter` of metric_table.rs: which SQL predicates are pushed down, and as what.
pub mod Meaning
use thanos_datafusion_experi.Common.{
  ℕ, ◌≡◌, refl, Bool, true, false, Option, none, some, ◌++◌, arith, if◌then◌else◌, ap, sym, ◌∙◌,
}
use mathlib.Core.Option
use thanos_datafusion_experi.Common.Int.{ℤ, pos, i64_try_from}
use thanos_datafusion_experi.Common.Text.{Text, codes, text_eq}
use thanos_datafusion_experi.Common.Maps.{Labels}
use thanos_datafusion_experi.ChunkReader.{Sample}
use thanos_datafusion_experi.MetricTable.Filter.{
  Operator, MetricFilter, timestamp_filter, resolution_filter, label_filter, label_regex, Regex,
  compare_i64, matches_sample,
}

-- DataFusion's `ScalarValue` as far as the source reads it.
pub data ScalarValue : Type 0 where
  int8 int16 int32 int64 timestamp_millisecond : Option ℤ → ScalarValue
  uint8 uint16 uint32 uint64 : Option ℕ → ScalarValue
  utf8 utf8_view large_utf8 : Option Text → ScalarValue
  other_scalar : ScalarValue

-- DataFusion's `Expr` as far as the source reads it.
mutual
  pub data Expr : Type 0 where
    column : Text → Expr
    literal : ScalarValue → Expr
    cast try_cast : Expr → Expr
    binary : Expr → Operator → Expr → Expr
    scalar_function : Text → Args → Expr
    other_expr : Expr

  pub data Args : Type 0 where
    no_args : Args
    an_arg : Expr → Args → Args

unfoldable pub column_name : Expr → Option Text
column_name (column name) = some name
column_name (cast expr) = column_name expr
column_name (try_cast expr) = column_name expr
column_name _ = none

unfoldable pub scalar_i64 : ScalarValue → Option ℤ
unfolding i64_try_from
scalar_i64 (int8 (some value)) = some value
scalar_i64 (int16 (some value)) = some value
scalar_i64 (int32 (some value)) = some value
scalar_i64 (int64 (some value)) = some value
scalar_i64 (uint8 (some value)) = some (pos value)
scalar_i64 (uint16 (some value)) = some (pos value)
scalar_i64 (uint32 (some value)) = some (pos value)
scalar_i64 (uint64 (some value)) = i64_try_from value
scalar_i64 (timestamp_millisecond (some value)) = some value
scalar_i64 _ = none

unfoldable pub scalar_string : ScalarValue → Option Text
scalar_string (utf8 (some value)) = some value
scalar_string (utf8_view (some value)) = some value
scalar_string (large_utf8 (some value)) = some value
scalar_string _ = none

abbrev pub to_timestamp_millis : Text
to_timestamp_millis = codes "to_timestamp_millis"

-- `scalar_i64(&value?).map(|value| ScalarValue::TimestampMillisecond(Some(value), None))`
unfoldable pub as_timestamp : Option ScalarValue → Option ScalarValue
unfolding scalar_i64
as_timestamp none = none
as_timestamp (some scalar) = elim (scalar_i64 scalar) [
  | none ↦ none
  | some value ↦ some (timestamp_millisecond (some value))
]

unfoldable pub scalar_value : Expr → Option ScalarValue
unfolding as_timestamp
scalar_value (literal value) = some value
scalar_value (cast expr) = scalar_value expr
scalar_value (try_cast expr) = scalar_value expr
scalar_value (scalar_function name (an_arg expr no_args)) =
    let value = as_timestamp (scalar_value expr) in
    if text_eq name to_timestamp_millis then value else none
scalar_value _ = none

unfoldable pub reverse_operator : Operator → Option Operator
reverse_operator Operator.eq = some Operator.eq
reverse_operator Operator.not_eq = some Operator.not_eq
reverse_operator Operator.gt = some Operator.lt
reverse_operator Operator.gt_eq = some Operator.lt_eq
reverse_operator Operator.lt = some Operator.gt
reverse_operator Operator.lt_eq = some Operator.gt_eq
reverse_operator _ = none

abbrev both {ℓ κ} : {A : Type ℓ} {B : Type κ} → Option A → Option B → Option (A × B)
both (some a) (some b) = some (a, b)
both _ _ = none

-- `reverse_operator(binary.op)?`
unfoldable reversed : Operator → Text × ScalarValue → Option (Text × Operator × ScalarValue)
unfolding reverse_operator
reversed operator (name, value) = elim (reverse_operator operator) [
  | none ↦ none
  | some operator' ↦ some (name, operator', value)
]

-- The column, the operator with the column on its left, and the value.
unfoldable pub sides : Expr → Option (Text × Operator × ScalarValue)
unfolding column_name scalar_value reversed
sides (binary left operator right) = elim (both (column_name left) (scalar_value right)) [
  | some (name, value) ↦ some (name, operator, value)
  | none ↦ elim (both (column_name right) (scalar_value left)) [
    | some found ↦ reversed operator found
    | none ↦ none
  ]
]
sides _ = none

abbrev case_insensitive : Operator → Bool
case_insensitive Operator.regex_i_match = true
case_insensitive Operator.regex_not_i_match = true
case_insensitive _ = false

abbrev negated : Operator → Bool
negated Operator.regex_not_match = true
negated Operator.regex_not_i_match = true
negated _ = false

-- `format!("(?i:{value})")`
unfoldable pub pattern_of : Operator → Text → Text
pattern_of operator value =
    if case_insensitive operator then codes "(?i:" ++ (value ++ codes ")") else value

abbrev pub timestamp_column : Text
timestamp_column = codes "timestamp"

abbrev resolution_column : Text
resolution_column = codes "downsample_resolution"

abbrev value_column : Text
value_column = codes "value"

-- `Regex::new` of the regex crate is a parameter.
module _ (new_regex : Text → Option Regex) where
  unfoldable pub regex_filter : Text → Operator → Text → Option MetricFilter
  unfolding pattern_of
  regex_filter name operator value = elim (new_regex (pattern_of operator value)) [
    | none ↦ none
    | some regex ↦ some (label_regex name regex (negated operator))
  ]

  unfoldable pub label_predicate : Text → Operator → Text → Option MetricFilter
  unfolding regex_filter
  label_predicate name Operator.eq value = some (label_filter name Operator.eq value)
  label_predicate name Operator.not_eq value = some (label_filter name Operator.not_eq value)
  label_predicate name Operator.regex_match value = regex_filter name Operator.regex_match value
  label_predicate name Operator.regex_i_match value = regex_filter name Operator.regex_i_match value
  label_predicate name Operator.regex_not_match value =
      regex_filter name Operator.regex_not_match value
  label_predicate name Operator.regex_not_i_match value =
      regex_filter name Operator.regex_not_i_match value
  label_predicate name _ value = none

  -- `match column.as_str()`
  unfoldable pub column_filter : Text × Operator × ScalarValue → Option MetricFilter
  unfolding scalar_i64 scalar_string label_predicate
  column_filter (name, operator, value) =
      let time : Option MetricFilter = elim (scalar_i64 value) [
        | none ↦ none
        | some v ↦ some (timestamp_filter operator v)
      ] in
      let resolution : Option MetricFilter = elim (scalar_i64 value) [
        | none ↦ none
        | some v ↦ some (resolution_filter operator v)
      ] in
      let label : Option MetricFilter = elim (scalar_string value) [
        | none ↦ none
        | some v ↦ label_predicate name operator v
      ] in
      if text_eq name timestamp_column
      then time
      else if text_eq name resolution_column
      then resolution
      else if text_eq name value_column
      then none
      else label

  unfoldable pub parse_filter : Expr → Option MetricFilter
  unfolding sides column_filter
  parse_filter expr = elim (sides expr) [ none ↦ none | some found ↦ column_filter found ]
