-- ===== src/Tests/ConfigRuns.antt =====
-- Runs of the code of config.rs.
use thanos_datafusion_experi.Common.{◌≡◌, refl, true, false, some, [], ◌∷◌, ok}
use thanos_datafusion_experi.Common.Text.{codes}
use thanos_datafusion_experi.Storage.Cache.{slru}
use thanos_datafusion_experi.Config.{ChunkCacheConfig, ReaderConfig, validate_cache, validate}
use thanos_datafusion_experi.Config.Valid.{Distinct, validate-Distinct}

abbrev a_cache : ChunkCacheConfig
a_cache = record {
  max_size = codes " 10GiB";
  page_size = codes "512KiB";
  policy = slru;
  fraction_in_bounds = true;
}

cache_run : validate_cache a_cache ≡ ok tt
unfolding validate_cache
cache_run = refl

abbrev a_config : ReaderConfig
a_config = record {
  addresses_parse = true;
  index_cache_location = codes "/tmp/index";
  repositories =
      record { name = codes "a"; uri = codes "file:///data"; has_s3 = false; has_gcs = false }
      ∷ record { name = codes "b"; uri = codes "s3://bucket"; has_s3 = true; has_gcs = false }
      ∷ [];
  storage = record {
    request_timeout = some 30;
    max_concurrent_requests = 64;
    bulk_read_chunk_size = codes "8MiB";
    bulk_read_concurrency = 4;
    max_concurrent_chunk_reads = 16;
    index_build_concurrency = 12;
    metadata_read_concurrency = 64;
    chunk_cache = some a_cache;
  };
}

config_run : validate a_config ≡ ok tt
unfolding validate
config_run = refl

config_example : Distinct [] a_config.repositories
config_example = validate-Distinct a_config config_run
