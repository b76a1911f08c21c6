-- ===== src/MetricTable/Scan/Exact.antt =====
-- A scan of metric_table.rs against the same scan with no chunk skipped.
use thanos_datafusion_experi.Common.{
  ◌≡◌, refl, sym, ap, ◌∙◌, Bool, true, false, some, List, [], ◌∷◌, ◌++◌, arith, Outcome, ok, ◌>>=◌,
  ok_or, inl, inr, >>=-eq-ok, if◌then◌else◌, All, Bool-cases, Option-cases, view, is_ok, is_err,
  is_panicked, is_stuck, Ensures, holds, Ensures-bind, Ensures-of, Ensures-if, Ensures-eq-ok,
}
use thanos_datafusion_experi.Common.Int.{ℤ, ◌≤ℤ◌}
use thanos_datafusion_experi.Common.Text.{Text, text_eq}
use thanos_datafusion_experi.Common.Maps.{Labels}
use thanos_datafusion_experi.Storage.Reader.{RangeReader}
use thanos_datafusion_experi.ChunkReader.{Sample, read_samples}
use thanos_datafusion_experi.MetricTable.Filter.{
  Operator, MetricFilter, timestamp_filter, matches_descriptor, matches_sample, range_matches,
}
use thanos_datafusion_experi.MetricTable.Filter.Prune.{Prunable, matches_descriptor-matches_sample}
use thanos_datafusion_experi.MetricTable.Scan.{
  DescriptorRow, MetricRow, ScanError, World, no_repository, invalid_labels, all_match, sample_rows,
  descriptor_of, chunk_rows, descriptor_rows, build_rows,
}

abbrev Within : DescriptorRow → Sample → Type 0
Within d s = (d.chunk_mint ≤ℤ s.timestamp) × (s.timestamp ≤ℤ d.chunk_maxt)

all_match-descriptor :
    (filters : List MetricFilter) (d : DescriptorRow) (labels : Labels) (s : Sample)
    → All Prunable filters
    → Within d s
    → all_match (λ f. matches_sample f s d.downsample_resolution labels) filters ≡ true
    → all_match (λ f. matches_descriptor f (descriptor_of d labels)) filters ≡ true
unfolding all_match
all_match-descriptor [] d labels s p w e = refl
all_match-descriptor (f ∷ filters) d labels s (p, ps) w e = ground (
  arith,
  matches_descriptor-matches_sample f s (descriptor_of d labels) p w.0 w.1,
  all_match-descriptor filters d labels s ps w,
)

-- A chunk that is skipped has no row to give.
skipped_rows :
    (filters : List MetricFilter) (d : DescriptorRow) (labels : Labels) (samples : List Sample)
    → All Prunable filters
    → All (Within d) samples
    → all_match (λ f. matches_descriptor f (descriptor_of d labels)) filters ≡ false
    → sample_rows filters d labels samples ≡ []
unfolding sample_rows
skipped_rows filters d labels [] p w e = refl
skipped_rows filters d labels (s ∷ samples) p (w, ws) e =
    elim (Bool-cases (all_match (λ f. matches_sample f s d.downsample_resolution labels) filters)) [
      | inl kept ↦ let all = all_match-descriptor filters d labels s p w kept in cc
      | inr gone ↦ rw gone (skipped_rows filters d labels samples p ws e)
    ]

module _ (world : World) (metric_name : Text) (filters : List MetricFilter)
    (counter_metric : Bool) where
  -- The scan that reads every chunk of the metric.
  unfoldable pub full_descriptor : DescriptorRow → Outcome ScanError (List MetricRow)
  unfolding chunk_rows
  full_descriptor d =
      let here = do
        reader ← ok_or (world.get d.repository_uri) (no_repository d.repository_uri)
        labels ← ok_or (world.parse_labels d.labels_json) (invalid_labels d.labels_json)
        chunk_rows world metric_name filters counter_metric d labels reader
      in if text_eq d.metric_name metric_name then here else ok []

  unfoldable pub full_rows : List DescriptorRow → Outcome ScanError (List MetricRow)
  unfolding full_descriptor
  full_rows [] = ok []
  full_rows (d ∷ descriptors) = do
    rows ← full_descriptor d
    rest ← full_rows descriptors
    ok (rows ++ rest)

  -- The time range of a descriptor covers the samples of its chunk.
  abbrev pub Covers : DescriptorRow → Type 0
  Covers d =
      (reader : RangeReader) (samples : List Sample)
      → world.get d.repository_uri ≡ some reader
      → read_samples world.codecs reader d.chunk_file_path d.chunk_file_offset counter_metric
        ≡ ok samples
      → All (Within d) samples

  module _ (p : All Prunable filters) where
    exact_chunk :
        (d : DescriptorRow) (labels : Labels) (reader : RangeReader) (rows : List MetricRow)
        → Covers d
        → world.get d.repository_uri ≡ some reader
        → chunk_rows world metric_name filters counter_metric d labels reader ≡ ok rows
        → (if all_match (λ f. matches_descriptor f (descriptor_of d labels)) filters
            then chunk_rows world metric_name filters counter_metric d labels reader
            else ok [])
          ≡ ok rows
    unfolding chunk_rows
    exact_chunk d labels reader rows c g e =
        elim (Bool-cases (all_match (λ f. matches_descriptor f (descriptor_of d labels)) filters)) [
          | inl kept ↦ rw kept e
          | inr gone ↦
              rw gone
                (elim (view (
                  read_samples world.codecs reader d.chunk_file_path d.chunk_file_offset
                    counter_metric)) [
                      | is_ok samples r ↦
                          sym (
                            ap ok
                              (skipped_rows filters d labels samples p (c reader samples g r) gone))
                          ∙ rw r at e
                      | is_err x r ↦ cc (rw r at e)
                      | is_panicked r ↦ cc (rw r at e)
                      | is_stuck r ↦ cc (rw r at e)
                    ])
        ]

    exact_descriptor :
        (d : DescriptorRow) (rows : List MetricRow)
        → Covers d
        → full_descriptor d ≡ ok rows
        → descriptor_rows world metric_name filters counter_metric d ≡ ok rows
    unfolding full_descriptor descriptor_rows
    exact_descriptor d rows c e = elim (Bool-cases (text_eq d.metric_name metric_name)) [
      | inr other ↦ rw other (rw other at e)
      | inl same ↦ elim (Option-cases (world.get d.repository_uri)) [
        | inl g ↦ cc (rw (same, g) at e)
        | inr (reader, g) ↦ elim (Option-cases (world.parse_labels d.labels_json)) [
          | inl h ↦ cc (rw (same, g, h) at e)
          | inr (labels, h) ↦
              rw (same, g, h) (exact_chunk d labels reader rows c g (rw (same, g, h) at e))
        ]
      ]
    ]

    -- Where no filter is `timestamp != v` and each descriptor covers the samples of its chunk, a
    -- scan that skips chunks by their descriptors returns the rows of the scan that reads every
    -- chunk, whenever that one succeeds.
    pub build_rows-full_rows :
        (descriptors : List DescriptorRow) (rows : List MetricRow)
        → All Covers descriptors
        → full_rows descriptors ≡ ok rows
        → build_rows world metric_name filters counter_metric descriptors ≡ ok rows
    unfolding full_rows build_rows
    build_rows-full_rows [] rows c e = e
    build_rows-full_rows (d ∷ descriptors) rows (c, cs) e =
        let (here, p', q) = >>=-eq-ok (full_descriptor d) _ e in
        let (rest, p'', r) = >>=-eq-ok (full_rows descriptors) _ q in
        rw (exact_descriptor d here c p', build_rows-full_rows descriptors rest cs p'') r

module _ (world : World) (metric_name : Text) (filters : List MetricFilter) (counter_metric : Bool)
    (value : ℤ) where
  no_rows :
      (d : DescriptorRow)
      → Ensures
          (λ rows. rows ≡ [])
          (descriptor_rows world metric_name
            (timestamp_filter Operator.not_eq value ∷ filters)
            counter_metric
            d)
  unfolding descriptor_rows all_match matches_descriptor range_matches
  no_rows d =
      Ensures-if (text_eq d.metric_name metric_name)
        (Ensures-bind
          (Ensures-of (λ _. Unit {0})
            (ok_or (world.get d.repository_uri) (no_repository d.repository_uri)) (λ _ _. tt))
          λ reader _.
            Ensures-bind
              (Ensures-of (λ _. Unit {0})
                (ok_or (world.parse_labels d.labels_json) (invalid_labels d.labels_json))
                (λ _ _. tt))
              λ labels _. holds refl)
        (holds refl)

  -- A scan whose first filter is `timestamp != v` returns no row when it succeeds, whatever the
  -- chunks hold.
  pub build_rows_not_eq :
      (descriptors : List DescriptorRow) (rows : List MetricRow)
      → build_rows world metric_name
          (timestamp_filter Operator.not_eq value ∷ filters)
          counter_metric
          descriptors
        ≡ ok rows
      → rows ≡ []
  unfolding build_rows
  build_rows_not_eq [] rows e = cc
  build_rows_not_eq (d ∷ descriptors) rows e =
      let (here, p, q) =
        >>=-eq-ok
          (descriptor_rows world metric_name (timestamp_filter Operator.not_eq value ∷ filters)
            counter_metric d)
          _ e in
      let (rest, r, s) =
        >>=-eq-ok
          (build_rows world metric_name (timestamp_filter Operator.not_eq value ∷ filters)
            counter_metric descriptors)
          _ q in
      let a = Ensures-eq-ok (no_rows d) p in
      let b = build_rows_not_eq descriptors rest r in
      let c : here ++ rest ≡ [] = rw (a, b) refl in cc
