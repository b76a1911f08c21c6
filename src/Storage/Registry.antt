-- ===== src/Storage/Registry.antt =====
-- `Repository::read_range`, the registry of repositories, and `bucket_and_root` of storage/mod.rs.
use thanos_datafusion_experi.Common.{
  ℕ, ◌≡◌, refl, Bool, true, not, ◌&&◌, Option, none, some, [], ◌∷◌, arith, Outcome, ok, err, ◌>>◌,
  ensure, leb, ltb, ◌==◌, if◌then◌else◌, length,
}
use thanos_datafusion_experi.Common.Text.{Bytes, Text, codes}
use thanos_datafusion_experi.Common.Maps.{TextMap, lookup}
use thanos_datafusion_experi.Storage.Reader.{IoResult, RangeReader}

-- An empty range asks nothing of the cache or the object store.
unfoldable pub guarded_read : (ℕ → ℕ → IoResult Bytes) → ℕ → ℕ → IoResult Bytes
guarded_read read start end = let there = read start end in if leb end start then ok [] else there

pub data RegistryError : Type 0 where
  no_repository : Text → RegistryError
  empty_bucket : RegistryError

pub record RepositoryRegistry : Type 0 where
  pub by_uri : TextMap RangeReader
  pub max_concurrent_chunk_reads : ℕ

abbrev pub empty : RepositoryRegistry
empty = record { by_uri = []; max_concurrent_chunk_reads = 1 }

unfoldable pub get : RepositoryRegistry → Text → Option RangeReader
unfolding lookup
get registry uri = lookup uri registry.by_uri

unfoldable pub require : RepositoryRegistry → Text → Outcome RegistryError RangeReader
unfolding get
require registry uri = elim (get registry uri) [ none ↦ err (no_repository uri) | some r ↦ ok r ]

-- `trim_start_matches('/')`, and the same at the end.
unfoldable pub trim_slashes : Text → Text
trim_slashes [] = []
trim_slashes (c ∷ s) = let rest = trim_slashes s in if c == 47 then rest else c ∷ s

unfoldable pub all_slashes : Text → Bool
all_slashes [] = true
all_slashes (c ∷ s) = (c == 47) && all_slashes s

unfoldable pub trim_last_slashes : Text → Text
unfolding all_slashes
trim_last_slashes [] = []
trim_last_slashes (c ∷ s) =
    let rest = trim_last_slashes s in if all_slashes (c ∷ s) then [] else c ∷ rest

-- `location.split_once('/')`: what stands before the first slash, and behind it where there is one.
unfoldable pub split_slash : Text → Text × Option Text
split_slash [] = ([], none)
split_slash (c ∷ s) =
    let rest = split_slash s in if c == 47 then ([], some s) else (c ∷ rest.0, rest.1)

abbrev or_root : Option Text → Text
or_root none = codes "/"
or_root (some root) = root

unfoldable pub bucket_and_root : Text → Outcome RegistryError (Text × Text)
unfolding trim_slashes trim_last_slashes split_slash
bucket_and_root location = do
  let parts = split_slash (trim_last_slashes (trim_slashes location))
  ensure (ltb 0 (length parts.0)) empty_bucket
  ok (parts.0, or_root parts.1)

-- No slash in a text.
unfoldable pub no_slash : Text → Bool
no_slash [] = true
no_slash (c ∷ s) = not (c == 47) && no_slash s

split_slash-no_slash : (s : Text) → no_slash (split_slash s).0 ≡ true
unfolding split_slash no_slash
split_slash-no_slash [] = refl
split_slash-no_slash (c ∷ s) = ground (arith, split_slash-no_slash s)

-- A bucket that `bucket_and_root` returns is not empty and contains no slash.
bucket_and_root_lem :
    (location bucket root : Text)
    → bucket_and_root location ≡ ok (bucket, root)
    → (ltb 0 (length bucket) ≡ true) × (no_slash bucket ≡ true)
unfolding bucket_and_root
bucket_and_root_lem location bucket root e =
    ground (arith, split_slash-no_slash (trim_last_slashes (trim_slashes location)))
