-- ===== src/BlockIndex/Expanded.antt =====
-- `write_chunk_and_series_index_streaming` of block_index.rs: a row for each chunk as well, and the
-- label columns of the metrics.
pub mod Columns
pub mod Whole
use thanos_datafusion_experi.Common.{
  ℕ, ◌+◌, List, [], ◌∷◌, ◌++◌, ok, err, panicked, stuck, ensure, leb, if◌then◌else◌, length,
}
use thanos_datafusion_experi.Common.Text.{Bytes, Text, codes}
use thanos_datafusion_experi.Config.{RepositoryConfig}
use thanos_datafusion_experi.TsdbIndex.Reader.{Crates}
use thanos_datafusion_experi.TsdbIndex.Entry.{Series}
use thanos_datafusion_experi.TsdbIndex.Walk.{Run, parse_each}
use thanos_datafusion_experi.BlockIndex.Meta.{
  BlockMeta, ChunkIndexRow, SeriesIndexRow, MetricLabels, Built, Json, writer_failed,
}
use thanos_datafusion_experi.BlockIndex.Paths.{local_path, parent, with_file_name}
use thanos_datafusion_experi.BlockIndex.Rows.{append_chunk_rows}
use thanos_datafusion_experi.BlockIndex.Labels.{collect_metric_labels}
use thanos_datafusion_experi.BlockIndex.Disk.{
  Act, LocalFs, ◌>>=◌, ◌>>◌, lift, put, create, rename, remove_ignored, create_parent, file_name_of,
  chunk_batches, series_batches,
}
use thanos_datafusion_experi.BlockIndex.Stream.{
  Writer, index_batch_size, flush_rows, index_error, discard,
}

-- What the visitor changes; `write_error` is `ok tt` where the source has `None`.
pub record ExpandedRun : Type 0 where
  pub chunks_written : List (List ChunkIndexRow)
  pub rows : List ChunkIndexRow
  pub series_written : List (List SeriesIndexRow)
  pub series_rows : List SeriesIndexRow
  pub metric_labels : MetricLabels
  pub series_count : ℕ
  pub chunk_count : ℕ
  pub write_error : Built (Unit {0})

abbrev pub empty_expanded : ExpandedRun
empty_expanded = record {
  chunks_written = [];
  rows = [];
  series_written = [];
  series_rows = [];
  metric_labels = [];
  series_count = 0;
  chunk_count = 0;
  write_error = ok tt;
}

-- `if let Err(error) = flush_chunk_rows(..) { write_error = Some(error) }`
abbrev pub after_chunks : ExpandedRun → Built (List (List ChunkIndexRow)) → ExpandedRun
after_chunks s (ok written) = record s { chunks_written = written; rows = [] }
after_chunks s (err e) = record s { write_error = err e }
after_chunks s panicked = record s { write_error = panicked }
after_chunks s stuck = record s { write_error = stuck }

abbrev pub after_series : ExpandedRun → Built (List (List SeriesIndexRow)) → ExpandedRun
after_series s (ok written) = record s { series_written = written; series_rows = [] }
after_series s (err e) = record s { write_error = err e }
after_series s panicked = record s { write_error = panicked }
after_series s stuck = record s { write_error = stuck }

module _ (chunk_writer : Writer ChunkIndexRow) (series_writer : Writer SeriesIndexRow) where
  unfoldable pub flush_full_chunks : ExpandedRun → ExpandedRun
  unfolding flush_rows
  flush_full_chunks s =
      if leb index_batch_size (length s.rows)
      then after_chunks s (flush_rows chunk_writer s.chunks_written s.rows)
      else s

  unfoldable pub flush_full_series : ExpandedRun → ExpandedRun
  unfolding flush_rows
  flush_full_series s =
      if leb index_batch_size (length s.series_rows)
      then after_series s (flush_rows series_writer s.series_written s.series_rows)
      else s

  -- `match append_chunk_rows(..)`, of a state whose series is counted and whose labels are in.
  unfoldable pub push_rows :
      ExpandedRun → Built (ℕ × List ChunkIndexRow × List SeriesIndexRow) → ExpandedRun
  unfolding flush_full_chunks flush_full_series
  push_rows s (ok (count, rows, series_rows)) = flush_full_series (
      flush_full_chunks
        (record s { rows = rows; series_rows = series_rows; chunk_count = s.chunk_count + count }))
  push_rows s (err e) = record s { write_error = err e }
  push_rows s panicked = record s { write_error = panicked }
  push_rows s stuck = record s { write_error = stuck }

  module _ (json : Json) (repository : RepositoryConfig) (meta : BlockMeta)
      (block_path : Text) where
    -- A series that is counted, with its labels collected.
    abbrev pub counted_series : Series → ExpandedRun → ExpandedRun
    counted_series series s = record s {
      series_count = s.series_count + 1;
      metric_labels = collect_metric_labels meta.thanos.labels (series ∷ []) s.metric_labels;
    }

    unfoldable pub expand_unless : Built (Unit {0}) → Series → ExpandedRun → ExpandedRun
    unfolding push_rows append_chunk_rows collect_metric_labels
    expand_unless (ok _) series s =
        push_rows (counted_series series s)
          (append_chunk_rows json repository meta block_path series s.rows s.series_rows)
    expand_unless (err e) series s = s
    expand_unless panicked series s = s
    expand_unless stuck series s = s

    -- `if write_error.is_some() { return; }`
    unfoldable pub expand_series : Series → ExpandedRun → ExpandedRun
    unfolding expand_unless
    expand_series series s = expand_unless s.write_error series s

module _ (fs : LocalFs) (chunk_writer : Writer ChunkIndexRow)
    (series_writer : Writer SeriesIndexRow) where
  -- Both flushes, both `close`s and both renames, the chunks first.
  unfoldable pub publish_both : Text → Text → Text → Text → ExpandedRun → Act (ℕ × ℕ × MetricLabels)
  unfolding flush_rows
  publish_both temporary path temporary_series series_path s = do
    chunks_written ← lift (flush_rows chunk_writer s.chunks_written s.rows)
    put temporary (chunk_batches chunks_written)
    series_written ← lift (flush_rows series_writer s.series_written s.series_rows)
    put temporary_series (series_batches series_written)
    lift (ensure (chunk_writer.closes chunks_written) writer_failed)
    lift (ensure (series_writer.closes series_written) writer_failed)
    rename fs temporary path
    rename fs temporary_series series_path
    lift (ok (s.series_count, s.chunk_count, s.metric_labels))

  unfoldable pub remove_both : Text → Text → Act (Unit {0})
  remove_both temporary temporary_series = do
    remove_ignored fs temporary
    remove_ignored fs temporary_series

  -- `match parsed`
  unfoldable pub conclude_both :
      Text → Text → Text → Text → Run ExpandedRun → Act (ℕ × ℕ × MetricLabels)
  unfolding publish_both remove_both
  conclude_both temporary path temporary_series series_path (s, parsed) = do
    put temporary (chunk_batches s.chunks_written)
    put temporary_series (series_batches s.series_written)
    discard (remove_both temporary temporary_series) (index_error parsed) (
        discard (remove_both temporary temporary_series) s.write_error
          (publish_both temporary path temporary_series series_path s))

  module _ (json : Json) (crates : Crates) (fuel : ℕ) where
    unfoldable pub write_chunk_and_series_index_streaming :
        RepositoryConfig → BlockMeta → Text → Bytes → Text → Text → Act (ℕ × ℕ × MetricLabels)
    unfolding local_path parent with_file_name parse_each expand_series conclude_both
    write_chunk_and_series_index_streaming repository meta block_path index chunk_index_path
          series_index_path =
        do
          let path = local_path chunk_index_path
          file_name ← file_name_of path
          create_parent fs (parent path)
          let temporary = with_file_name path (file_name ++ codes ".partial")
          create fs temporary (chunk_batches [])
          lift (ensure chunk_writer.opens writer_failed)
          let series_path = local_path series_index_path
          series_file_name ← file_name_of series_path
          create_parent fs (parent series_path)
          let temporary_series = with_file_name series_path (series_file_name ++ codes ".partial")
          create fs temporary_series (series_batches [])
          lift (ensure series_writer.opens writer_failed)
          let run =
              parse_each crates fuel index
                (expand_series chunk_writer series_writer json repository meta block_path)
                empty_expanded
          conclude_both temporary path temporary_series series_path run
