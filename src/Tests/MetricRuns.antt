-- ===== src/Tests/MetricRuns.antt =====
-- Runs of the code of metric_table.rs.
use thanos_datafusion_experi.Common.{
  ◌≡◌, refl, sym, ap, ◌∙◌, subst, true, some, List, [], ◌∷◌, arith, ok, All,
}
use thanos_datafusion_experi.Common.Int.{pos}
use thanos_datafusion_experi.Common.Text.{Bytes, codes, text_eq}
use thanos_datafusion_experi.Storage.Reader.{IoResult}
use thanos_datafusion_experi.ChunkReader.{Sample, read_samples}
use thanos_datafusion_experi.MetricTable.Filter.{
  Operator, MetricFilter, timestamp_filter, compare_i64, ChunkDescriptor, matches_descriptor,
  matches_sample, range_matches,
}
use thanos_datafusion_experi.MetricTable.Filter.Prune.{matches_descriptor-matches_sample}
use thanos_datafusion_experi.MetricTable.Scan.{
  World, DescriptorRow, MetricRow, build_rows, sample_rows, chunk_rows, all_match, descriptor_rows,
}
use thanos_datafusion_experi.MetricTable.Scan.Exact.{
  Covers, full_rows, full_descriptor, build_rows-full_rows, build_rows_not_eq,
}
use thanos_datafusion_experi.Tests.ChunkRuns.{codecs, one_sample, file_reader}

abbrev pub a_sample : Sample
a_sample = record { timestamp = pos 300; value = 42 }

abbrev a_chunk : ChunkDescriptor
a_chunk = record { mint = pos 100; maxt = pos 400; downsample_resolution = pos 0; labels = [] }

abbrev pub after_200 : MetricFilter
after_200 = timestamp_filter Operator.gt (pos 200)

admitted_example : matches_descriptor after_200 a_chunk ≡ true
unfolding matches_sample compare_i64
admitted_example =
    matches_descriptor-matches_sample after_200 a_sample a_chunk (λ e. cc) (omega arith)
      (omega arith) refl

abbrev one_chunk : Bytes
one_chunk = 1 ∷ 1 ∷ 9 ∷ 0 ∷ 0 ∷ 0 ∷ 0 ∷ []

abbrev pub a_world : World
a_world = record {
  get = λ _. some (file_reader one_chunk);
  parse_labels = λ _. some [];
  codecs = codecs;
}

abbrev pub a_row : DescriptorRow
a_row = record {
  repository_uri = codes "file:///data";
  chunk_file_path = codes "000001";
  chunk_file_offset = 0;
  downsample_resolution = pos 0;
  chunk_mint = pos 100;
  chunk_maxt = pos 400;
  labels_json = codes "{}";
  metric_name = codes "up";
}

abbrev pub the_rows : List MetricRow
the_rows =
    record { timestamp = pos 300; value = 42; downsample_resolution = pos 0; labels = [] } ∷ []

one_chunk_samples :
    read_samples codecs (file_reader one_chunk) (codes "000001") 0 true ≡ ok one_sample
unfolding read_samples
one_chunk_samples = refl

a_row-Covers : Covers a_world (codes "up") (after_200 ∷ []) true a_row
a_row-Covers reader samples g r =
    let q : file_reader one_chunk ≡ reader = cc in
    let t : ◌≡◌ {A = IoResult (List Sample)} (ok one_sample) (ok samples) =
      sym one_chunk_samples ∙ ap (λ rd. read_samples codecs rd (codes "000001") 0 true) q ∙ r in
    subst (All _) (let same : one_sample ≡ samples = cc in same) ((omega arith, omega arith), tt)

full_example : full_rows a_world (codes "up") (after_200 ∷ []) true (a_row ∷ []) ≡ ok the_rows
unfolding full_rows full_descriptor chunk_rows text_eq sample_rows all_match matches_sample
    compare_i64 read_samples
full_example = refl

build_rows_example :
    build_rows a_world (codes "up") (after_200 ∷ []) true (a_row ∷ []) ≡ ok the_rows
build_rows_example =
    build_rows-full_rows a_world (codes "up") (after_200 ∷ []) true ((λ e. cc), tt) (a_row ∷ [])
      the_rows (a_row-Covers, tt) full_example

not_eq_run :
    build_rows a_world
      (codes "up")
      (timestamp_filter Operator.not_eq (pos 5) ∷ [])
      true
      (a_row ∷ [])
    ≡ ok []
unfolding build_rows descriptor_rows all_match matches_descriptor text_eq range_matches
not_eq_run = refl

not_eq_example : ◌≡◌ {A = List MetricRow} [] []
not_eq_example = build_rows_not_eq a_world (codes "up") [] true (pos 5) (a_row ∷ []) [] not_eq_run
