-- ===== src/StoreService/Match/Select.antt =====
-- The SQL literals and the label sets of store_service.rs.
use thanos_datafusion_experi.Common.{
  ℕ, zero, suc, ◌≤◌, ◌≡◌, refl, sym, ap, ◌∙◌, subst, append_assoc, Option-cases, inl, inr, ensure,
  Bool, true, false, not, Option, none, some, List, [], ◌∷◌, ◌++◌, arith, ok, >>=-eq-ok, ◌==◌,
  if◌then◌else◌, length, take, length-take,
}
use thanos_datafusion_experi.Common.Int.{pos}
use thanos_datafusion_experi.Common.Text.{Text, text_ltb}
use thanos_datafusion_experi.Common.Maps.{lookup, insert, keys, Sorted, Sorted-insert}
use thanos_datafusion_experi.MetricTable.Filter.{Regex}
use thanos_datafusion_experi.StoreService.Match.{
  SeriesDescriptor, SeriesQuery, LabelsRequest, TextSet, double_quotes, sql_literal, limit,
  take_limit, add_all, names_of, values_of, label_names, label_values, compile_matchers,
  matching_series, reject_unsupported_label_options, is_empty, empty_label,
}

abbrev cons : ℕ → Option (Text × Text) → Option (Text × Text)
cons c none = none
cons c (some (s, rest)) = some (c ∷ s, rest)

-- A string literal as SQL reads it behind its first quote, with what follows it: a quote ends the
-- literal, unless another one stands right behind it.
unfoldable pub read_literal : Bool → Text → Option (Text × Text)
read_literal false [] = none
read_literal true [] = some ([], [])
read_literal false (c ∷ s) =
    let quoted = read_literal true s in
    let plain = cons c (read_literal false s) in if c == 39 then quoted else plain
read_literal true (c ∷ s) =
    let doubled = cons 39 (read_literal false s) in if c == 39 then doubled else some ([], c ∷ s)

-- What follows a literal does not begin with a quote.
abbrev pub Apart : Text → Type 0
Apart [] = Unit {0}
Apart (c ∷ s) = (c == 39) ≡ false

literal_end : (rest : Text) → Apart rest → read_literal true rest ≡ some ([], rest)
unfolding read_literal
literal_end [] h = refl
literal_end (c ∷ s) h = rw h refl

literal_body :
    (value rest : Text)
    → Apart rest
    → read_literal false (double_quotes value ++ (39 ∷ rest)) ≡ some (value, rest)
unfolding read_literal double_quotes
literal_body [] rest h = literal_end rest h
literal_body (c ∷ s) rest h = ground (arith, literal_body s rest h)

abbrev pub literal_of : Text → Option (Text × Text)
literal_of [] = none
literal_of (c ∷ s) = let body = read_literal false s in if c == 39 then body else none

-- SQL reads `sql_literal` of any text, followed by anything but a quote, as that text, and what
-- follows stays outside of the literal.
pub literal_of-sql_literal :
    (value rest : Text) → Apart rest → literal_of (sql_literal value ++ rest) ≡ some (value, rest)
unfolding sql_literal
literal_of-sql_literal value rest h =
    rw (append_assoc (double_quotes value) (39 ∷ []) rest) (literal_body value rest h)

-- Texts that rise, so none is there twice.
abbrev pub Rising : List Text → Type 0
Rising [] = Unit {0}
Rising (s ∷ []) = Unit {0}
Rising (s ∷ t ∷ rest) = (text_ltb s t ≡ true) × Rising (t ∷ rest)

Rising-keys : (set : TextSet) → Sorted set → Rising (keys set)
Rising-keys [] h = tt
Rising-keys ((s, u) ∷ []) h = tt
Rising-keys ((s, u) ∷ (t, v) ∷ rest) h = (h.0.0, Rising-keys ((t, v) ∷ rest) h.1)

Rising-take : (n : ℕ) (xs : List Text) → Rising xs → Rising (take n xs)
Rising-take zero xs h = tt
Rising-take (suc n) [] h = tt
Rising-take (suc n) (s ∷ []) h = Rising-take-one n s
  where
    Rising-take-one : (n : ℕ) (s : Text) → Rising (s ∷ take n [])
    Rising-take-one zero s = tt
    Rising-take-one (suc n) s = tt
Rising-take (suc zero) (s ∷ t ∷ rest) h = tt
Rising-take (suc (suc n)) (s ∷ t ∷ rest) h = (h.0, Rising-take (suc n) (t ∷ rest) h.1)

Sorted-add_all : (names : List Text) (set : TextSet) → Sorted set → Sorted (add_all names set)
unfolding add_all
Sorted-add_all [] set h = h
Sorted-add_all (name ∷ names) set h =
    Sorted-add_all names (insert name tt set) (Sorted-insert name tt set h)

Sorted-names_of :
    (rows : List SeriesDescriptor) (set : TextSet) → Sorted set → Sorted (names_of rows set)
unfolding names_of
Sorted-names_of [] set h = h
Sorted-names_of (s ∷ rows) set h =
    Sorted-names_of rows (add_all (keys s.labels) set) (Sorted-add_all (keys s.labels) set h)

Sorted-values_of :
    (label : Text) (rows : List SeriesDescriptor) (set : TextSet)
    → Sorted set
    → Sorted (values_of label rows set)
unfolding values_of
Sorted-values_of label [] set h = h
Sorted-values_of label (s ∷ rows) set h = elim (Option-cases (lookup label s.labels)) [
  | inl e ↦ rw e (Sorted-values_of label rows set h)
  | inr (value, e) ↦
      rw e (Sorted-values_of label rows (insert value tt set) (Sorted-insert value tt set h))
]

limited :
    (set : TextSet) (n : ℕ) (names : List Text)
    → Sorted set
    → take_limit set (pos (suc n)) ≡ ok names
    → Rising names × (length names ≤ suc n)
unfolding take_limit limit
limited set n names h e =
    let same : take (suc n) (keys set) ≡ names = cc in
    subst (λ l. Rising l × (length l ≤ suc n)) same
      (
        Rising-take (suc n) (keys set) (Rising-keys set h),
        omega (arith, length-take (suc n) (keys set)),
      )

module _ (new_regex : Text → Option Regex) (json : Text → Text) (query : SeriesQuery)
    (request : LabelsRequest) (n : ℕ) (asked : request.request_limit ≡ pos (suc n))
    (names : List Text) where
  -- With a positive limit, the names that `label_names` returns rise strictly and are no more
  -- than the limit.
  pub label_names-Rising :
      label_names new_regex json query request ≡ ok names → Rising names × (length names ≤ suc n)
  unfolding label_names
  label_names-Rising e =
      let (u, p, q) =
        >>=-eq-ok
          (reject_unsupported_label_options request.without_replica_labels request.has_hints) _ e in
      let (matchers, r, s) = >>=-eq-ok (compile_matchers new_regex request.matchers) _ q in
      let (rows, t, w) =
        >>=-eq-ok (matching_series json query request.start request.end matchers) _ s in
      limited (names_of rows []) n names (Sorted-names_of rows [] tt)
        (ap (take_limit (names_of rows [])) (sym asked) ∙ w)

  -- Likewise for the values of a label.
  pub label_values-Rising :
      label_values new_regex json query request ≡ ok names → Rising names × (length names ≤ suc n)
  unfolding label_values
  label_values-Rising e =
      let (u', p', q') = >>=-eq-ok (ensure (not (is_empty request.label)) empty_label) _ e in
      let (u, p, q) =
        >>=-eq-ok
          (reject_unsupported_label_options request.without_replica_labels request.has_hints) _
          q' in
      let (matchers, r, s) = >>=-eq-ok (compile_matchers new_regex request.matchers) _ q in
      let (rows, t, w) =
        >>=-eq-ok (matching_series json query request.start request.end matchers) _ s in
      limited (values_of request.label rows []) n names (Sorted-values_of request.label rows [] tt)
        (ap (take_limit (values_of request.label rows [])) (sym asked) ∙ w)
