-- ===== src/BlockIndex/Expanded/Columns.antt =====
-- The label columns that `write_chunk_and_series_index_streaming` returns.
use thanos_datafusion_experi.Common.{
  ℕ, ◌+◌, ◌≡◌, refl, ap, ◌∙◌, Bool, false, ◌||◌, List, [], ◌∷◌, arith, ok, err, panicked, stuck,
  leb, length, Bool-cases, inl, inr,
}
use thanos_datafusion_experi.Common.Text.{Text}
use thanos_datafusion_experi.Config.{RepositoryConfig}
use thanos_datafusion_experi.TsdbIndex.Entry.{Series}
use thanos_datafusion_experi.BlockIndex.Meta.{BlockMeta, ChunkIndexRow, SeriesIndexRow, Built, Json}
use thanos_datafusion_experi.BlockIndex.Labels.{collect_metric_labels}
use thanos_datafusion_experi.BlockIndex.Labels.Exact.{
  has_column, gives_column, some_series, has_column-collect_metric_labels,
}
use thanos_datafusion_experi.BlockIndex.Rows.{append_chunk_rows}
use thanos_datafusion_experi.BlockIndex.Stream.{Writer, index_batch_size, flush_rows}
use thanos_datafusion_experi.BlockIndex.Expanded.{
  ExpandedRun, after_chunks, after_series, flush_full_chunks, flush_full_series, push_rows,
  counted_series, expand_unless, expand_series,
}
use mathlib.Core.List.{foldl}

added :
    (later here before : Bool) (now : Bool) {after : Bool}
    → after ≡ (later || now)
    → now ≡ ((here || false) || before)
    → after ≡ ((here || later) || before)
added later here before now e f = ground arith

after_chunks-labels :
    (s : ExpandedRun) (r : Built (List (List ChunkIndexRow)))
    → (after_chunks s r).metric_labels ≡ s.metric_labels
after_chunks-labels s (ok written) = refl
after_chunks-labels s (err e) = refl
after_chunks-labels s panicked = refl
after_chunks-labels s stuck = refl

after_series-labels :
    (s : ExpandedRun) (r : Built (List (List SeriesIndexRow)))
    → (after_series s r).metric_labels ≡ s.metric_labels
after_series-labels s (ok written) = refl
after_series-labels s (err e) = refl
after_series-labels s panicked = refl
after_series-labels s stuck = refl

module _ (chunk_writer : Writer ChunkIndexRow) (series_writer : Writer SeriesIndexRow) where
  flush_full_chunks-labels :
      (s : ExpandedRun)
      → (flush_full_chunks chunk_writer series_writer s).metric_labels ≡ s.metric_labels
  unfolding flush_full_chunks
  flush_full_chunks-labels s = elim (Bool-cases (leb index_batch_size (length s.rows))) [
    | inl e ↦ rw e (after_chunks-labels s (flush_rows chunk_writer s.chunks_written s.rows))
    | inr e ↦ rw e refl
  ]

  flush_full_series-labels :
      (s : ExpandedRun)
      → (flush_full_series chunk_writer series_writer s).metric_labels ≡ s.metric_labels
  unfolding flush_full_series
  flush_full_series-labels s = elim (Bool-cases (leb index_batch_size (length s.series_rows))) [
    | inl e ↦ rw e (after_series-labels s (flush_rows series_writer s.series_written s.series_rows))
    | inr e ↦ rw e refl
  ]

  push_rows-labels :
      (s : ExpandedRun) (r : Built (ℕ × List ChunkIndexRow × List SeriesIndexRow))
      → (push_rows chunk_writer series_writer s r).metric_labels ≡ s.metric_labels
  unfolding push_rows
  push_rows-labels s (ok (count, rows, series_rows)) =
      let pushed : ExpandedRun = record s {
        rows = rows;
        series_rows = series_rows;
        chunk_count = s.chunk_count + count;
      } in
      flush_full_series-labels (flush_full_chunks chunk_writer series_writer pushed)
      ∙ flush_full_chunks-labels pushed
  push_rows-labels s (err e) = refl
  push_rows-labels s panicked = refl
  push_rows-labels s stuck = refl

  module _ (json : Json) (repository : RepositoryConfig) (meta : BlockMeta)
      (block_path : Text) where
    abbrev pub visit : Series → ExpandedRun → ExpandedRun
    visit = expand_series chunk_writer series_writer json repository meta block_path

    abbrev pub visit_all : ExpandedRun → List Series → ExpandedRun
    visit_all = foldl (λ s x. visit x s)

    abbrev unless : Built (Unit {0}) → Series → ExpandedRun → ExpandedRun
    unless = expand_unless chunk_writer series_writer json repository meta block_path

    -- Where a visit leaves no error there was none, and the labels of the series are in.
    expand_unless-labels :
        (w : Built (Unit {0})) (s : ExpandedRun) (x : Series)
        → s.write_error ≡ w
        → (unless w x s).write_error ≡ ok tt
        → (s.write_error ≡ ok tt)
          × ((unless w x s).metric_labels
              ≡ collect_metric_labels meta.thanos.labels (x ∷ []) s.metric_labels)
    unfolding expand_unless
    expand_unless-labels (ok u) s x e ended = (
      e,
      push_rows-labels
          (counted_series chunk_writer series_writer json repository meta block_path x s)
          (append_chunk_rows json repository meta block_path x s.rows s.series_rows),
    )
    expand_unless-labels (err f) s x e ended = absurd (cc)
    expand_unless-labels panicked s x e ended = absurd (cc)
    expand_unless-labels stuck s x e ended = absurd (cc)

    pub has_column-visit_all :
        (metric label : Text) (s : ExpandedRun) (xs : List Series)
        → (visit_all s xs).write_error ≡ ok tt
        → (s.write_error ≡ ok tt)
          × (has_column metric label (visit_all s xs).metric_labels ≡ (
              some_series (gives_column meta.thanos.labels metric label) xs
              || has_column metric label s.metric_labels))
    unfolding some_series expand_series
    has_column-visit_all metric label s [] e = (e, refl)
    has_column-visit_all metric label s (x ∷ xs) e =
        let (fine, rest) = has_column-visit_all metric label (visit x s) xs e in
        let (running, labels) = expand_unless-labels s.write_error s x refl fine in
        let one =
          has_column-collect_metric_labels meta.thanos.labels metric label (x ∷ [])
            s.metric_labels in
        (running, added _ _ _ _ rest (ap (has_column metric label) labels ∙ one))
