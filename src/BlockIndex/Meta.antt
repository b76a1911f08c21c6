-- ===== src/BlockIndex/Meta.antt =====
-- The data of block_index.rs: the metadata of a block, the rows of the index files, the tasks of a
-- build and its errors.
use thanos_datafusion_experi.Common.{ℕ, Bool, Option, List, Outcome}
use thanos_datafusion_experi.Common.Int.{ℤ}
use thanos_datafusion_experi.Common.Text.{Bytes, Text}
use thanos_datafusion_experi.Common.Maps.{TextMap, Labels}
use thanos_datafusion_experi.Config.{RepositoryConfig}
use thanos_datafusion_experi.Storage.Reader.{IoError}
use thanos_datafusion_experi.TsdbIndex.Reader.{IndexError}

pub record BlockStats : Type 0 where
  pub num_samples : ℕ
  pub num_float_samples : ℕ
  pub num_histogram_samples : ℕ
  pub num_series : ℕ
  pub num_chunks : ℕ

pub record Compaction : Type 0 where
  pub level : ℤ
  pub sources : List Text

pub record Downsample : Type 0 where
  pub resolution : ℤ

pub record BlockFile : Type 0 where
  pub rel_path : Text
  pub size_bytes : ℕ

pub record IndexStats : Type 0 where
  pub series_max_size : Option ℤ

pub record ThanosMeta : Type 0 where
  pub labels : Labels
  pub downsample : Downsample
  pub source : Text
  pub files : List BlockFile
  pub index_stats : IndexStats
  pub upload_time : Option Text

pub record BlockMeta : Type 0 where
  pub ulid : Text
  pub min_time : ℤ
  pub max_time : ℤ
  pub version : ℤ
  pub stats : BlockStats
  pub compaction : Compaction
  pub thanos : ThanosMeta

pub record BlockIndexRow : Type 0 where
  pub repository_name : Text
  pub repository_uri : Text
  pub block_ulid : Text
  pub block_path : Text
  pub meta_path : Text
  pub min_time : ℤ
  pub max_time : ℤ
  pub downsample_resolution : ℤ
  pub external_labels : Text
  pub external_labels_map : Labels
  pub source : Text
  pub upload_time : Option Text
  pub version : ℤ
  pub compaction_level : ℤ
  pub compaction_sources : List Text
  pub num_samples : ℕ
  pub num_float_samples : ℕ
  pub num_histogram_samples : ℕ
  pub num_series : ℕ
  pub num_chunks : ℕ
  pub index_series_max_size : Option ℤ
  pub index_size_bytes : ℕ
  pub chunks_size_bytes : ℕ
  pub total_size_bytes : ℕ
  pub files : Text

pub record ChunkIndexRow : Type 0 where
  pub repository_name : Text
  pub repository_uri : Text
  pub block_ulid : Text
  pub block_path : Text
  pub downsample_resolution : ℤ
  pub metric_name : Text
  pub chunk_file_path : Text
  pub chunk_ref : ℕ
  pub chunk_file_seq : ℕ
  pub chunk_file_offset : ℕ
  pub series_ref : ℕ
  pub series_mint : ℤ
  pub series_maxt : ℤ
  pub chunk_mint : ℤ
  pub chunk_maxt : ℤ
  pub labels : Labels
  pub labels_json : Text

pub record SeriesIndexRow : Type 0 where
  pub repository_uri : Text
  pub downsample_resolution : ℤ
  pub series_mint : ℤ
  pub series_maxt : ℤ
  pub labels_json : Text
  pub chunks_json : Text

pub record SeriesChunkLocation : Type 0 where
  pub chunk_file_path : Text
  pub chunk_file_offset : ℕ
  pub chunk_mint : ℤ
  pub chunk_maxt : ℤ

-- `BTreeSet<String>`
abbrev pub TextSet : Type 0
TextSet = TextMap (Unit {0})

-- `BTreeMap<String, BTreeSet<String>>`
abbrev pub MetricLabels : Type 0
MetricLabels = TextMap TextSet

-- A task of the metadata phase, and one of the build phase. The repository's storage goes by its
-- configuration.
pub record MetaReadTask : Type 0 where
  pub repository : RepositoryConfig
  pub block_path : Text
  pub meta_path : Text

pub record BlockBuildTask : Type 0 where
  pub repository : RepositoryConfig
  pub meta : BlockMeta
  pub block_path : Text
  pub meta_path : Text

pub data MetaReadResult : Type 0 where
  build : BlockBuildTask → MetaReadResult
  skipped_old skipped_deleted : MetaReadResult

pub record BuiltBlockIndex : Type 0 where
  pub row : BlockIndexRow
  pub block_ulid : Text
  pub block_path : Text
  pub index_path : Text
  pub series_index_path : Text
  pub series_count : ℕ
  pub chunk_count : ℕ
  pub metric_labels : MetricLabels

pub record CachedBlockIndex : Type 0 where
  pub row : BlockIndexRow
  pub materialize_chunk_index : Bool
  pub series_count : ℕ
  pub chunk_count : ℕ
  pub metric_labels : MetricLabels

pub record MetricTableSchema : Type 0 where
  pub name : Text
  pub label_columns : TextSet

-- What the `BoxError`s of the module stand for.
pub data BuildError : Type 0 where
  no_chunks no_metric_name json_failed writer_failed file_failed worker_failed : BuildError
  invalid_path invalid_metadata_path no_repository : Text → BuildError
  io_failed : IoError → BuildError
  index_failed : IndexError → BuildError

abbrev pub Built {ℓ} : Type ℓ → Type ℓ
Built A = Outcome BuildError A

-- `serde_json::to_string`, and `from_slice` of the metadata and of a manifest.
pub record Json : Type 0 where
  pub labels_string : Labels → Option Text
  pub locations_string : List SeriesChunkLocation → Option Text
  pub files_string : List BlockFile → Option Text
  pub read_meta : Bytes → Option BlockMeta
  pub write_manifest : CachedBlockIndex → Option Bytes
  pub read_manifest : Bytes → Option CachedBlockIndex
