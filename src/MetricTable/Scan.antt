-- ===== src/MetricTable/Scan.antt =====
-- `build_metric_batch` of metric_table.rs: the rows of a scan.
pub mod Exact
use thanos_datafusion_experi.Common.{
  ℕ, Bool, true, false, not, ◌&&◌, Option, none, some, List, [], ◌∷◌, ◌++◌, Outcome, ok, err,
  panicked, stuck, ◌>>=◌, ok_or, if◌then◌else◌,
}
use thanos_datafusion_experi.Common.Int.{ℤ}
use thanos_datafusion_experi.Common.Text.{Text, text_eq}
use thanos_datafusion_experi.Common.Maps.{Labels}
use thanos_datafusion_experi.Storage.Reader.{RangeReader, IoError, IoResult}
use thanos_datafusion_experi.Arrow.{Field}
use thanos_datafusion_experi.ChunkReader.{Codecs, Sample, read_samples}
use thanos_datafusion_experi.MetricTable.Filter.{
  MetricFilter, ChunkDescriptor, matches_descriptor, matches_sample,
}

-- A row of the chunk index, as the columns of a descriptor batch hold it.
pub record DescriptorRow : Type 0 where
  pub repository_uri : Text
  pub chunk_file_path : Text
  pub chunk_file_offset : ℕ
  pub downsample_resolution : ℤ
  pub chunk_mint : ℤ
  pub chunk_maxt : ℤ
  pub labels_json : Text
  pub metric_name : Text

pub record MetricRow : Type 0 where
  pub timestamp : ℤ
  pub value : ℕ
  pub downsample_resolution : ℤ
  pub labels : Labels

pub data ScanError : Type 0 where
  no_repository invalid_labels : Text → ScanError
  missing_column invalid_column : Text → ScanError
  invalid_utf8_column batch_refused unsupported_filter : ScanError
  unsupported_field : Field → ScanError
  read_failed : IoError → ScanError

-- `.map_err(..)`
abbrev pub external {ℓ} : {A : Type ℓ} → IoResult A → Outcome ScanError A
external (ok a) = ok a
external (err e) = err (read_failed e)
external panicked = panicked
external stuck = stuck

-- The registry of repositories, `serde_json::from_str` and the codecs of chunks.
pub record World : Type 0 where
  pub get : Text → Option RangeReader
  pub parse_labels : Text → Option Labels
  pub codecs : Codecs

-- `filters.iter().all(..)`
unfoldable pub all_match : (MetricFilter → Bool) → List MetricFilter → Bool
all_match test [] = true
all_match test (filter ∷ filters) = test filter && all_match test filters

unfoldable pub sample_rows :
    List MetricFilter → DescriptorRow → Labels → List Sample → List MetricRow
unfolding all_match matches_sample
sample_rows filters d labels [] = []
sample_rows filters d labels (s ∷ samples) =
    let row : MetricRow = record {
      timestamp = s.timestamp;
      value = s.value;
      downsample_resolution = d.downsample_resolution;
      labels = labels;
    } in
    let rest = sample_rows filters d labels samples in
    if all_match (λ f. matches_sample f s d.downsample_resolution labels) filters
    then row ∷ rest
    else rest

abbrev pub descriptor_of : DescriptorRow → Labels → ChunkDescriptor
descriptor_of d labels = record {
  mint = d.chunk_mint;
  maxt = d.chunk_maxt;
  downsample_resolution = d.downsample_resolution;
  labels = labels;
}

module _ (world : World) (metric_name : Text) (filters : List MetricFilter)
    (counter_metric : Bool) where
  -- The rows of one chunk, whose descriptor has passed.
  unfoldable pub chunk_rows :
      DescriptorRow → Labels → RangeReader → Outcome ScanError (List MetricRow)
  unfolding read_samples sample_rows
  chunk_rows d labels reader = do
    samples ←
        external
          (read_samples world.codecs reader d.chunk_file_path d.chunk_file_offset counter_metric)
    ok (sample_rows filters d labels samples)

  -- One round of `for index in 0..batch.num_rows()`.
  unfoldable pub descriptor_rows : DescriptorRow → Outcome ScanError (List MetricRow)
  unfolding chunk_rows all_match matches_descriptor
  descriptor_rows d =
      let here = do
        reader ← ok_or (world.get d.repository_uri) (no_repository d.repository_uri)
        labels ← ok_or (world.parse_labels d.labels_json) (invalid_labels d.labels_json)
        let rows = chunk_rows d labels reader
        if all_match (λ f. matches_descriptor f (descriptor_of d labels)) filters
            then rows
            else ok []
      in if text_eq d.metric_name metric_name then here else ok []

  unfoldable pub build_rows : List DescriptorRow → Outcome ScanError (List MetricRow)
  unfolding descriptor_rows
  build_rows [] = ok []
  build_rows (d ∷ descriptors) = do
    rows ← descriptor_rows d
    rest ← build_rows descriptors
    ok (rows ++ rest)
