-- ===== src/StoreService/Match.antt =====
-- Matchers, limits and the selection of series of store_service.rs.
pub mod Select
use thanos_datafusion_experi.Common.{
  ℕ, zero, suc, ◌-◌, ◌^◌, Bool, true, false, not, ◌&&◌, ◌||◌, Option, none, some, List, [], ◌∷◌,
  ◌++◌, Outcome, ok, err, ◌>>=◌, ◌>>◌, ensure, ok_or, ltb, ◌==◌, if◌then◌else◌, take, map, length,
}
use thanos_datafusion_experi.Common.Int.{ℤ, pos, negsuc, leb_ℤ}
use thanos_datafusion_experi.Common.Text.{Bytes, Text, codes, text_eq}
use thanos_datafusion_experi.Common.Maps.{TextMap, Labels, lookup, insert, keys}
use thanos_datafusion_experi.Storage.Reader.{IoError}
use thanos_datafusion_experi.MetricTable.Filter.{Regex, label_or_empty}

-- The statuses that the service raises, one constructor for each text.
pub data Status : Type 0 where
  unsupported_series_options unsupported_label_options empty_matcher_name : Status
  unknown_matcher_type invalid_regex unknown_aggregate negative_limit empty_label : Status
  no_repository : Text → Status
  read_failed : IoError → Status
  query_failed : Text → Status

abbrev pub Answer {ℓ} : Type ℓ → Type ℓ
Answer A = Outcome Status A

pub record ChunkLocation : Type 0 where
  pub chunk_file_path : Text
  pub chunk_file_offset : ℕ
  pub chunk_mint : ℤ
  pub chunk_maxt : ℤ

pub record SeriesDescriptor : Type 0 where
  pub repository_uri : Text
  pub downsample_resolution : ℤ
  pub series_mint : ℤ
  pub series_maxt : ℤ
  pub labels : Labels
  pub chunks : List ChunkLocation

pub data Matcher : Type 0 where
  match_eq match_neq : Text → Text → Matcher
  match_re match_nre : Text → Regex → Matcher

-- `LabelMatcher` of the protocol, whose type is an `i32`.
pub record LabelMatcher : Type 0 where
  pub kind : ℤ
  pub name : Text
  pub value : Text

-- `format!("^(?:{})$", matcher.value)`
abbrev pub anchored : Text → Text
anchored value = codes "^(?:" ++ (value ++ codes ")$")

unfoldable pub is_empty : Text → Bool
is_empty [] = true
is_empty (c ∷ s) = false

-- `Regex::new` of the regex crate is a parameter.
module _ (new_regex : Text → Option Regex) where
  -- `match thanos::label_matcher::Type::try_from(matcher.r#type)`
  unfoldable pub matcher_of : ℤ → Text → Text → Answer Matcher
  matcher_of (pos zero) name value = ok (match_eq name value)
  matcher_of (pos (suc zero)) name value = ok (match_neq name value)
  matcher_of (pos (suc (suc zero))) name value = do
    regex ← ok_or (new_regex (anchored value)) invalid_regex
    ok (match_re name regex)
  matcher_of (pos (suc (suc (suc zero)))) name value = do
    regex ← ok_or (new_regex (anchored value)) invalid_regex
    ok (match_nre name regex)
  matcher_of _ name value = err unknown_matcher_type

  unfoldable pub compile_matchers : List LabelMatcher → Answer (List Matcher)
  unfolding matcher_of is_empty
  compile_matchers [] = ok []
  compile_matchers (m ∷ ms) = do
    ensure (not (is_empty m.name)) empty_matcher_name
    matcher ← matcher_of m.kind m.name m.value
    rest ← compile_matchers ms
    ok (matcher ∷ rest)

unfoldable pub matches_one : Labels → Matcher → Bool
unfolding label_or_empty text_eq
matches_one labels (match_eq name value) = text_eq (label_or_empty name labels) value
matches_one labels (match_neq name value) = not (text_eq (label_or_empty name labels) value)
matches_one labels (match_re name regex) = regex (label_or_empty name labels)
matches_one labels (match_nre name regex) = not (regex (label_or_empty name labels))

unfoldable pub matches_all : Labels → List Matcher → Bool
unfolding matches_one
matches_all labels [] = true
matches_all labels (m ∷ ms) = matches_one labels m && matches_all labels ms

abbrev pub overlaps : ℤ → ℤ → ℤ → ℤ → Bool
overlaps min_time max_time start end = leb_ℤ min_time end && leb_ℤ start max_time

-- `serde_json::to_string` of a string is a parameter; it does not fail.
module _ (json : Text → Text) where
  unfoldable pub exact_label_filters : List Matcher → List Text
  unfolding is_empty
  exact_label_filters [] = []
  exact_label_filters (match_eq name value ∷ ms) =
      let rest = exact_label_filters ms in
      if is_empty value
      then rest
      else (codes "%" ++ (json name ++ (codes ":" ++ (json value ++ codes "%")))) ∷ rest
  exact_label_filters (_ ∷ ms) = exact_label_filters ms

-- `value.replace('\'', "''")`, and the quotes around it.
unfoldable pub double_quotes : Text → Text
double_quotes [] = []
double_quotes (c ∷ s) = let rest = double_quotes s in if c == 39 then 39 ∷ 39 ∷ rest else c ∷ rest

unfoldable pub sql_literal : Text → Text
unfolding double_quotes
sql_literal value = codes "'" ++ (double_quotes value ++ codes "'")

-- `format!(" AND labels_json LIKE {}", …)`, collected.
unfoldable pub label_predicate : List Text → Text
unfolding sql_literal
label_predicate [] = []
label_predicate (filter ∷ filters) =
    codes " AND labels_json LIKE " ++ (sql_literal filter ++ label_predicate filters)

-- What DataFusion answers to the query for a time range and a predicate on the labels.
abbrev pub SeriesQuery : Type 0
SeriesQuery = ℤ → ℤ → Text → Answer (List SeriesDescriptor)

unfoldable pub keep_matching : List Matcher → List SeriesDescriptor → List SeriesDescriptor
unfolding matches_all
keep_matching matchers [] = []
keep_matching matchers (s ∷ rows) =
    let rest = keep_matching matchers rows in
    if matches_all s.labels matchers then s ∷ rest else rest

unfoldable pub matching_series :
    (Text → Text) → SeriesQuery → ℤ → ℤ → List Matcher → Answer (List SeriesDescriptor)
unfolding exact_label_filters label_predicate keep_matching
matching_series json query start end matchers = do
  rows ← query start end (label_predicate (exact_label_filters json matchers))
  ok (keep_matching matchers rows)

-- `usize::MAX` for no limit.
unfoldable pub limit : ℤ → Answer ℕ
limit (negsuc n) = err negative_limit
limit (pos zero) = ok (2 ^ 64 - 1)
limit (pos (suc n)) = ok (suc n)

-- A `BTreeSet<String>` is the keys of a map in order.
abbrev pub TextSet : Type 0
TextSet = TextMap (Unit {0})

unfoldable pub take_limit : TextSet → ℤ → Answer (List Text)
unfolding limit
take_limit values requested_limit = do n ← limit requested_limit; ok (take n (keys values))

unfoldable pub reject_unsupported_label_options : List Text → Bool → Answer (Unit {0})
reject_unsupported_label_options without_replica_labels has_hints =
    ensure (not (has_hints || ltb 0 (length without_replica_labels))) unsupported_label_options

pub record LabelsRequest : Type 0 where
  pub label : Text
  pub start : ℤ
  pub end : ℤ
  pub matchers : List LabelMatcher
  pub request_limit : ℤ
  pub without_replica_labels : List Text
  pub has_hints : Bool

unfoldable pub add_all : List Text → TextSet → TextSet
unfolding insert
add_all [] set = set
add_all (name ∷ names) set = add_all names (insert name tt set)

-- `flat_map(|descriptor| descriptor.labels.into_keys()).collect()`
unfoldable pub names_of : List SeriesDescriptor → TextSet → TextSet
unfolding add_all
names_of [] set = set
names_of (s ∷ rows) set = names_of rows (add_all (keys s.labels) set)

-- `filter_map(|descriptor| descriptor.labels.get(&request.label).cloned()).collect()`
unfoldable pub values_of : Text → List SeriesDescriptor → TextSet → TextSet
unfolding lookup insert
values_of label [] set = set
values_of label (s ∷ rows) set =
    values_of label rows
      (elim (lookup label s.labels) [ none ↦ set | some value ↦ insert value tt set ])

module _ (new_regex : Text → Option Regex) (json : Text → Text) (query : SeriesQuery) where
  unfoldable pub label_names : LabelsRequest → Answer (List Text)
  unfolding reject_unsupported_label_options compile_matchers matching_series names_of take_limit
  label_names request = do
    reject_unsupported_label_options request.without_replica_labels request.has_hints
    matchers ← compile_matchers new_regex request.matchers
    rows ← matching_series json query request.start request.end matchers
    take_limit (names_of rows []) request.request_limit

  unfoldable pub label_values : LabelsRequest → Answer (List Text)
  unfolding reject_unsupported_label_options compile_matchers matching_series values_of take_limit
      is_empty
  label_values request = do
    ensure (not (is_empty request.label)) empty_label
    reject_unsupported_label_options request.without_replica_labels request.has_hints
    matchers ← compile_matchers new_regex request.matchers
    rows ← matching_series json query request.start request.end matchers
    take_limit (values_of request.label rows []) request.request_limit
