-- ===== src/Config/Valid.antt =====
-- What a configuration that passes validation promises.
use thanos_datafusion_experi.Common.{
  ℕ, ◌≤◌, ◌<◌, ◌≡◌, refl, Bool, true, false, not, ◌&&◌, List, [], ◌∷◌, arith, ok, >>=-eq-ok, ensure,
  ok_or, ltb, leb, length,
}
use thanos_datafusion_experi.Common.Text.{Text}
use thanos_datafusion_experi.Config.{
  ConfigError, ChunkCacheConfig, RepositoryConfig, ReaderConfig, parse_size, is_power_of_two,
  validate_cache, validate_storage, validate_repositories, validate, page_size_bounds,
  page_size_power, is_name, is_blank, check_scheme, scheme_of,
}

holds_true : (x : ConfigError) {u : Unit {0}} (b : Bool) → ensure b x ≡ ok u → b ≡ true
holds_true x true e = refl
holds_true x false e = cc

bounds : (m p : ℕ) → (ltb 0 m && (ltb 0 p && leb p m)) ≡ true → (0 < p) × (p ≤ m)
bounds m p e = ground arith

-- Where the validation of the page cache succeeds, both sizes parse, the page size is above 0, a
-- power of two and at most the cache size.
validate_cache_lem :
    (cache : ChunkCacheConfig) {u : Unit {0}}
    → validate_cache cache ≡ ok u
    → (max_size : ℕ) × (page_size : ℕ) × (parse_size cache.max_size ≡ ok max_size)
      × (parse_size cache.page_size ≡ ok page_size)
      × (0 < page_size)
      × (page_size ≤ max_size)
      × (is_power_of_two page_size ≡ true)
unfolding validate_cache
validate_cache_lem cache e =
    let (m, p, q) = >>=-eq-ok (parse_size cache.max_size) _ e in
    let (n, r, s) = >>=-eq-ok (parse_size cache.page_size) _ q in
    let (u, t, w) = >>=-eq-ok (ensure (ltb 0 m && (ltb 0 n && leb n m)) page_size_bounds) _ s in
    let (v, x, y) = >>=-eq-ok (ensure (is_power_of_two n) page_size_power) _ w in
    let b = bounds m n (holds_true _ (ltb 0 m && (ltb 0 n && leb n m)) t) in
    (m, n, p, r, b.0, b.1, holds_true _ (is_power_of_two n) x)

-- No two repositories share a name.
abbrev pub Distinct : List Text → List RepositoryConfig → Type 0
Distinct names [] = Unit {0}
Distinct names (r ∷ rs) = (is_name r.name names ≡ false) × Distinct (r.name ∷ names) rs

Distinct-repositories :
    (names : List Text) (rs : List RepositoryConfig) {u : Unit {0}}
    → validate_repositories names rs ≡ ok u
    → Distinct names rs
unfolding validate_repositories
Distinct-repositories names [] e = tt
Distinct-repositories names (r ∷ rs) e =
    let (u, a, b) = >>=-eq-ok (ensure (not (is_blank r.name)) _) _ e in
    let (v, c, d) = >>=-eq-ok (ensure (not (is_blank r.uri)) _) _ b in
    let (w, f, g) = >>=-eq-ok (ensure (not (is_name r.name names)) _) _ d in
    let (scheme, h, i) = >>=-eq-ok (ok_or (scheme_of r.uri) _) _ g in
    let (x, j, k) = >>=-eq-ok (check_scheme r scheme) _ i in
    (
      not_true (is_name r.name names) (holds_true _ (not (is_name r.name names)) f),
      Distinct-repositories (r.name ∷ names) rs k,
    )
  where
    not_true : (b : Bool) → not b ≡ true → b ≡ false
    not_true true q = cc
    not_true false q = refl

-- In a configuration that `validate` accepts no repository has the name of an earlier one.
pub validate-Distinct :
    (config : ReaderConfig) {u : Unit {0}}
    → validate config ≡ ok u
    → Distinct [] config.repositories
unfolding validate
validate-Distinct config e =
    let (a, b, c) = >>=-eq-ok (ensure config.addresses_parse _) _ e in
    let (d, f, g) = >>=-eq-ok (ensure (not (is_blank config.index_cache_location)) _) _ c in
    let (h, i, j) = >>=-eq-ok (ensure (ltb 0 (length config.repositories)) _) _ g in
    let (k, l, m) = >>=-eq-ok (validate_storage config.storage) _ j in
    Distinct-repositories [] config.repositories m
