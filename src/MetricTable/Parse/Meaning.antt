-- ===== src/MetricTable/Parse/Meaning.antt =====
-- What the filters that `parse_filter` gives mean.
use mathlib.Core.Option
use thanos_datafusion_experi.Common.{◌≡◌, refl, ap, sym, ◌∙◌, Option, none, some, arith}
use thanos_datafusion_experi.Common.Int.{ℤ}
use thanos_datafusion_experi.Common.Text.{Text, text_eq}
use thanos_datafusion_experi.Common.Maps.{Labels}
use thanos_datafusion_experi.ChunkReader.{Sample}
use thanos_datafusion_experi.MetricTable.Filter.{
  Operator, timestamp_filter, Regex, compare_i64, matches_sample,
}
use thanos_datafusion_experi.MetricTable.Parse.{
  ScalarValue, Expr, column, literal, binary, column_name, scalar_i64, scalar_value,
  reverse_operator, reversed, sides, timestamp_column, column_filter, parse_filter,
}

-- What a comparison says, the sides exchanged.
reversed_compare :
    (operator operator' : Operator) (a b : ℤ)
    → reverse_operator operator ≡ some operator'
    → compare_i64 a operator b ≡ compare_i64 b operator' a
unfolding reverse_operator compare_i64
reversed_compare operator operator' a b e =
    exchange operator ∙ ap (λ o. compare_i64 b o a) (reversal operator e)
  where
    -- The operator that `reverse_operator` gives, where it gives one.
    back : Operator → Operator
    back Operator.gt = Operator.lt
    back Operator.gt_eq = Operator.lt_eq
    back Operator.lt = Operator.gt
    back Operator.lt_eq = Operator.gt_eq
    back o = o

    reversal : (o : Operator) → reverse_operator o ≡ some operator' → back o ≡ operator'
    reversal Operator.eq h = cc
    reversal Operator.not_eq h = cc
    reversal Operator.gt h = cc
    reversal Operator.gt_eq h = cc
    reversal Operator.lt h = cc
    reversal Operator.lt_eq h = cc
    reversal Operator.regex_match h = cc
    reversal Operator.regex_i_match h = cc
    reversal Operator.regex_not_match h = cc
    reversal Operator.regex_not_i_match h = cc
    reversal Operator.other_operator h = cc

    exchange : (o : Operator) → compare_i64 a o b ≡ compare_i64 b (back o) a
    exchange Operator.eq = ground arith
    exchange Operator.not_eq = ground arith
    exchange Operator.gt = refl
    exchange Operator.gt_eq = refl
    exchange Operator.lt = refl
    exchange Operator.lt_eq = refl
    exchange _ = refl

timestamp_sides :
    (new_regex : Text → Option Regex) (expr : Expr) (operator : Operator) (value : ScalarValue)
    (n : ℤ)
    → sides expr ≡ some (timestamp_column, operator, value)
    → scalar_i64 value ≡ some n
    → parse_filter new_regex expr ≡ some (timestamp_filter operator n)
unfolding parse_filter column_filter text_eq
timestamp_sides new_regex expr operator value n e v = rw (e, parse_filter, v, column_filter) refl

abbrev elim_reversed : Text × ScalarValue → Option Operator → Option (Text × Operator × ScalarValue)
elim_reversed found none = none
elim_reversed (name, value) (some operator) = some (name, operator, value)

-- A predicate `literal op timestamp` whose operator can be reversed is pushed down as a filter
-- that accepts a sample exactly where the predicate holds of its timestamp.
pub parse_filter_literal_first :
    (new_regex : Text → Option Regex) (operator operator' : Operator) (value : ScalarValue) (n : ℤ)
    (s : Sample) (resolution : ℤ) (labels : Labels)
    → reverse_operator operator ≡ some operator'
    → scalar_i64 value ≡ some n
    → Option.map
        (λ f. matches_sample f s resolution labels)
        (parse_filter new_regex (binary (literal value) operator (column timestamp_column)))
      ≡ some (compare_i64 n operator s.timestamp)
unfolding parse_filter sides column_filter column_name scalar_value reversed matches_sample text_eq
parse_filter_literal_first new_regex operator operator' value n s resolution labels r v =
    ap (Option.map (λ f. matches_sample f s resolution labels)) (
      timestamp_sides new_regex (binary (literal value) operator (column timestamp_column))
        operator' value n (ap (elim_reversed (timestamp_column, value)) r) v)
    ∙ ap some (sym (reversed_compare operator operator' n s.timestamp r))

-- Likewise with the column first, whatever the operator.
pub parse_filter_column_first :
    (new_regex : Text → Option Regex) (operator : Operator) (value : ScalarValue) (n : ℤ)
    (s : Sample) (resolution : ℤ) (labels : Labels)
    → scalar_i64 value ≡ some n
    → Option.map
        (λ f. matches_sample f s resolution labels)
        (parse_filter new_regex (binary (column timestamp_column) operator (literal value)))
      ≡ some (compare_i64 s.timestamp operator n)
unfolding parse_filter sides column_filter column_name scalar_value matches_sample text_eq
parse_filter_column_first new_regex operator value n s resolution labels v =
    ap (Option.map (λ f. matches_sample f s resolution labels)) (
      timestamp_sides new_regex (binary (column timestamp_column) operator (literal value)) operator
        value n refl v)
