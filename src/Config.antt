-- ===== src/Config.antt =====
-- config.rs: sizes with binary suffixes, and the validation of a configuration.
pub mod Valid
use thanos_datafusion_experi.Common.{
  ℕ, zero, suc, ◌+◌, ◌-◌, ◌*◌, ◌^◌, Bool, true, false, not, ◌&&◌, ◌||◌, Option, none, some, List,
  [], ◌∷◌, ◌++◌, Outcome, ok, err, ◌>>=◌, ◌>>◌, ensure, ok_or, ltb, leb, ◌==◌, if◌then◌else◌,
  length,
}
use thanos_datafusion_experi.Common.Bits.{bit_and}
use thanos_datafusion_experi.Common.Text.{Text, codes, text_eq}
use thanos_datafusion_experi.Storage.Cache.{CachePolicy}

pub data ConfigError : Type 0 where
  not_a_number size_overflow no_suffix : ConfigError
  invalid_address invalid_duration empty_cache_location no_repositories zero_timeout : ConfigError
  zero_concurrency zero_chunk_size page_size_bounds page_size_power fraction_bounds : ConfigError
  empty_name : ConfigError
  empty_uri duplicate_name no_scheme foreign_options unsupported_scheme : Text → ConfigError

abbrev pub Checked {ℓ} : Type ℓ → Type ℓ
Checked A = Outcome ConfigError A

-- White space of ASCII; `str::trim` also knows that of Unicode.
abbrev is_space : ℕ → Bool
is_space c = (leb 9 c && leb c 13) || c == 32

unfoldable pub trim_start : Text → Text
trim_start [] = []
trim_start (c ∷ s) = let rest = trim_start s in if is_space c then rest else c ∷ s

unfoldable pub is_blank : Text → Bool
is_blank [] = true
is_blank (c ∷ s) = is_space c && is_blank s

unfoldable pub trim_end : Text → Text
unfolding is_blank
trim_end [] = []
trim_end (c ∷ s) = let rest = trim_end s in if is_blank (c ∷ s) then [] else c ∷ rest

unfoldable pub trim : Text → Text
unfolding trim_start trim_end
trim s = trim_end (trim_start s)

-- `value.strip_suffix(suffix)`
unfoldable pub strip_suffix : Text → Text → Option Text
unfolding text_eq
strip_suffix suffix [] = if text_eq [] suffix then some [] else none
strip_suffix suffix (c ∷ s) =
    let rest : Option Text = elim (strip_suffix suffix s) [
      | none ↦ none
      | some front ↦ some (c ∷ front)
    ] in
    if text_eq (c ∷ s) suffix then some [] else rest

-- Decimal digits behind a value that has been read, `u64::MAX` at most.
unfoldable pub parse_digits : Text → ℕ → Option ℕ
parse_digits [] value = some value
parse_digits (c ∷ s) value =
    let more = parse_digits s (value * 10 + (c - 48)) in
    if leb 48 c && (leb c 57 && ltb (value * 10 + (c - 48)) (2 ^ 64)) then more else none

-- `parse::<u64>()`: a sign `+` may stand in front, and there is a digit.
unfoldable pub parse_u64 : Text → Option ℕ
unfolding parse_digits
parse_u64 [] = none
parse_u64 (c ∷ []) = parse_digits (c ∷ []) 0
parse_u64 (c ∷ d ∷ s) =
    let signed = parse_digits (d ∷ s) 0 in
    let plain = parse_digits (c ∷ d ∷ s) 0 in if c == 43 then signed else plain

abbrev suffixes : List (Text × ℕ)
suffixes =
    (codes "KiB", 1024)
    ∷ (codes "MiB", 1024 ^ 2)
    ∷ (codes "GiB", 1024 ^ 3)
    ∷ (codes "TiB", 1024 ^ 4)
    ∷ (codes "B", 1)
    ∷ []

-- `.parse::<u64>()?.checked_mul(multiplier)`
unfoldable pub scaled : Text → ℕ → Checked ℕ
unfolding trim parse_u64
scaled number multiplier = do
  n ← ok_or (parse_u64 (trim number)) not_a_number
  ensure (ltb (n * multiplier) (2 ^ 64)) size_overflow
  ok (n * multiplier)

unfoldable pub first_suffix : List (Text × ℕ) → Text → Checked ℕ
unfolding strip_suffix scaled
first_suffix [] value = err no_suffix
first_suffix ((suffix, multiplier) ∷ rest) value =
    let later = first_suffix rest value in
    elim (strip_suffix suffix value) [ none ↦ later | some number ↦ scaled number multiplier ]

unfoldable pub parse_size : Text → Checked ℕ
unfolding trim first_suffix
parse_size value = first_suffix suffixes (trim value)

-- `(0.0..=1.0).contains(&fraction)` is given, as is what `humantime` makes of a duration.
pub record ChunkCacheConfig : Type 0 where
  pub max_size : Text
  pub page_size : Text
  pub policy : CachePolicy
  pub fraction_in_bounds : Bool

pub record StorageConfig : Type 0 where
  pub request_timeout : Option ℕ
  pub max_concurrent_requests : ℕ
  pub bulk_read_chunk_size : Text
  pub bulk_read_concurrency : ℕ
  pub max_concurrent_chunk_reads : ℕ
  pub index_build_concurrency : ℕ
  pub metadata_read_concurrency : ℕ
  pub chunk_cache : Option ChunkCacheConfig

pub record RepositoryConfig : Type 0 where
  pub name : Text
  pub uri : Text
  pub has_s3 : Bool
  pub has_gcs : Bool

pub record ReaderConfig : Type 0 where
  pub addresses_parse : Bool
  pub index_cache_location : Text
  pub repositories : List RepositoryConfig
  pub storage : StorageConfig

-- `u64::is_power_of_two`, of a number above 0.
abbrev pub is_power_of_two : ℕ → Bool
is_power_of_two n = ltb 0 n && (bit_and n (n - 1) == 0)

unfoldable pub validate_cache : ChunkCacheConfig → Checked (Unit {0})
unfolding parse_size
validate_cache cache = do
  max_size ← parse_size cache.max_size
  page_size ← parse_size cache.page_size
  ensure (ltb 0 max_size && (ltb 0 page_size && leb page_size max_size)) page_size_bounds
  ensure (is_power_of_two page_size) page_size_power
  ensure cache.fraction_in_bounds fraction_bounds

unfoldable pub validate_storage : StorageConfig → Checked (Unit {0})
unfolding parse_size validate_cache
validate_storage storage = do
  timeout ← ok_or storage.request_timeout invalid_duration
  ensure (ltb 0 timeout) zero_timeout
  ensure
      (ltb 0 storage.max_concurrent_requests
        && (ltb 0 storage.bulk_read_concurrency
            && (ltb 0 storage.max_concurrent_chunk_reads
                && (ltb 0 storage.index_build_concurrency
                    && ltb 0 storage.metadata_read_concurrency))))
      zero_concurrency
  chunk_size ← parse_size storage.bulk_read_chunk_size
  ensure (ltb 0 chunk_size) zero_chunk_size
  elim storage.chunk_cache [ none ↦ ok tt | some cache ↦ validate_cache cache ]

-- `uri.split_once("://")`, the scheme alone.
unfoldable pub scheme_of : Text → Option Text
scheme_of [] = none
scheme_of (c ∷ []) = none
scheme_of (c ∷ d ∷ []) = none
scheme_of (c ∷ d ∷ e ∷ s) =
    let rest : Option Text = elim (scheme_of (d ∷ e ∷ s)) [
      | none ↦ none
      | some scheme ↦ some (c ∷ scheme)
    ] in
    if c == 58 && (d == 47 && e == 47) then some [] else rest

-- `match scheme`
unfoldable pub check_scheme : RepositoryConfig → Text → Checked (Unit {0})
unfolding text_eq
check_scheme r scheme =
    let is_file = text_eq scheme (codes "file") in
    let is_s3 = text_eq scheme (codes "s3") in
    let is_gcs = text_eq scheme (codes "gs") || text_eq scheme (codes "gcs") in
    if is_file
    then ensure (not r.has_s3 && not r.has_gcs) (foreign_options r.name)
    else if is_s3
    then ensure (not r.has_gcs) (foreign_options r.name)
    else if is_gcs
    then ensure (not r.has_s3) (foreign_options r.name)
    else err (unsupported_scheme scheme)

unfoldable pub is_name : Text → List Text → Bool
unfolding text_eq
is_name name [] = false
is_name name (n ∷ names) = text_eq n name || is_name name names

-- `for repository in &self.repositories`, with the names so far.
unfoldable pub validate_repositories : List Text → List RepositoryConfig → Checked (Unit {0})
unfolding is_name is_blank scheme_of check_scheme
validate_repositories names [] = ok tt
validate_repositories names (r ∷ rs) = do
  ensure (not (is_blank r.name)) empty_name
  ensure (not (is_blank r.uri)) (empty_uri r.name)
  ensure (not (is_name r.name names)) (duplicate_name r.name)
  scheme ← ok_or (scheme_of r.uri) (no_scheme r.uri)
  check_scheme r scheme
  validate_repositories (r.name ∷ names) rs

unfoldable pub validate : ReaderConfig → Checked (Unit {0})
unfolding is_blank validate_storage validate_repositories
validate config = do
  ensure config.addresses_parse invalid_address
  ensure (not (is_blank config.index_cache_location)) empty_cache_location
  ensure (ltb 0 (length config.repositories)) no_repositories
  validate_storage config.storage
  validate_repositories [] config.repositories
