-- ===== src/BlockIndex/Stream.antt =====
-- `write_series_index_streaming` of block_index.rs: the series of an index become rows that are
-- flushed in batches to a file beside the published one.
pub mod Batches
pub mod Publish
pub mod Atomic
use thanos_datafusion_experi.Common.{
  ℕ, ◌+◌, Bool, true, false, List, [], ◌∷◌, ◌++◌, Outcome, ok, err, panicked, stuck, ensure, leb,
  if◌then◌else◌, length,
}
use thanos_datafusion_experi.Common.Text.{Bytes, Text, codes}
use thanos_datafusion_experi.TsdbIndex.Reader.{Crates, Res}
use thanos_datafusion_experi.TsdbIndex.Entry.{Series}
use thanos_datafusion_experi.TsdbIndex.Walk.{Run, parse_each}
use thanos_datafusion_experi.BlockIndex.Meta.{
  BlockMeta, SeriesIndexRow, Built, Json, index_failed, writer_failed,
}
use thanos_datafusion_experi.BlockIndex.Paths.{local_path, parent, with_file_name}
use thanos_datafusion_experi.BlockIndex.Rows.{append_series_row}
use thanos_datafusion_experi.BlockIndex.Disk.{
  Act, LocalFs, ◌>>=◌, ◌>>◌, lift, put, create, rename, remove_ignored, create_parent, file_name_of,
  series_batches,
}

abbrev pub index_batch_size : ℕ
index_batch_size = 5000

-- Which calls of an `ArrowWriter` succeed: `try_new`, `write` and `flush` of a batch behind those
-- that were written, and `close`.
pub record Writer {ℓ} (R : Type ℓ) : Type ℓ where
  pub opens : Bool
  pub accepts : List (List R) → List R → Bool
  pub closes : List (List R) → Bool

-- `flush_series_rows` and `flush_chunk_rows`: the batches behind the call, which clears the rows.
unfoldable pub flush_rows {ℓ} :
    {R : Type ℓ} → Writer R → List (List R) → List R → Built (List (List R))
flush_rows writer written [] = ok written
flush_rows writer written (row ∷ rows) =
    if writer.accepts written (row ∷ rows)
    then ok (written ++ ((row ∷ rows) ∷ []))
    else err writer_failed

-- What the visitor of `parse_each` changes. `write_error` is `ok tt` where the source has `None`.
pub record SeriesRun : Type 0 where
  pub written : List (List SeriesIndexRow)
  pub series_rows : List SeriesIndexRow
  pub series_count : ℕ
  pub chunk_count : ℕ
  pub write_error : Built (Unit {0})

abbrev pub empty_run : SeriesRun
empty_run = record {
  written = [];
  series_rows = [];
  series_count = 0;
  chunk_count = 0;
  write_error = ok tt;
}

-- The series is counted, and the row is pushed.
abbrev pub pushed : SeriesRun → ℕ → List SeriesIndexRow → Built (Unit {0}) → SeriesRun
pushed s count rows write_error = record {
  written = s.written;
  series_rows = rows;
  series_count = s.series_count + 1;
  chunk_count = s.chunk_count + count;
  write_error = write_error;
}

-- `if let Err(error) = flush_series_rows(..) { write_error = Some(error) }`
abbrev pub after_flush :
    SeriesRun → ℕ → List SeriesIndexRow → Built (List (List SeriesIndexRow)) → SeriesRun
after_flush s count rows (ok written) = record (pushed s count [] (ok tt)) { written = written }
after_flush s count rows (err e) = pushed s count rows (err e)
after_flush s count rows panicked = pushed s count rows panicked
after_flush s count rows stuck = pushed s count rows stuck

module _ (writer : Writer SeriesIndexRow) where
  -- `match append_series_row(..)`
  unfoldable pub push_row : SeriesRun → Built (ℕ × List SeriesIndexRow) → SeriesRun
  unfolding flush_rows
  push_row s (ok (count, rows)) =
      if leb index_batch_size (length rows)
      then after_flush s count rows (flush_rows writer s.written rows)
      else pushed s count rows (ok tt)
  push_row s (err e) = pushed s 0 s.series_rows (err e)
  push_row s panicked = pushed s 0 s.series_rows panicked
  push_row s stuck = pushed s 0 s.series_rows stuck

module _ (json : Json) (writer : Writer SeriesIndexRow) (repository_uri : Text) (meta : BlockMeta)
    (block_path : Text) where
  -- `if write_error.is_some() { return; }`
  unfoldable pub visit_unless : Built (Unit {0}) → Series → SeriesRun → SeriesRun
  unfolding push_row append_series_row
  visit_unless (ok _) series s =
      push_row writer s (append_series_row json repository_uri meta block_path series s.series_rows)
  visit_unless (err e) series s = s
  visit_unless panicked series s = s
  visit_unless stuck series s = s

  unfoldable pub visit_series : Series → SeriesRun → SeriesRun
  unfolding visit_unless
  visit_series series s = visit_unless s.write_error series s

abbrev pub index_error {ℓ} : {A : Type ℓ} → Res A → Built A
index_error (ok a) = ok a
index_error (err e) = err (index_failed e)
index_error panicked = panicked
index_error stuck = stuck

-- `let _ = fs::remove_file(..)` in front of an error; a panic does not get there.
abbrev pub discard {ℓ} : {A : Type ℓ} → Act (Unit {0}) → Built (Unit {0}) → Act A → Act A
discard remove (ok _) next = next
discard remove (err e) next = remove >> lift (err e)
discard remove panicked next = lift panicked
discard remove stuck next = lift stuck

module _ (json : Json) (fs : LocalFs) (writer : Writer SeriesIndexRow) where
  -- The last flush, `close` and `rename`. An error of these returns with the file left behind.
  unfoldable pub publish_series : Text → Text → SeriesRun → Act (ℕ × ℕ)
  unfolding flush_rows
  publish_series temporary path s = do
    written ← lift (flush_rows writer s.written s.series_rows)
    put temporary (series_batches written)
    lift (ensure (writer.closes written) writer_failed)
    rename fs temporary path
    lift (ok (s.series_count, s.chunk_count))

  -- `match parsed`
  unfoldable pub conclude_series : Text → Text → Run SeriesRun → Act (ℕ × ℕ)
  unfolding publish_series
  conclude_series temporary path (s, parsed) = do
    put temporary (series_batches s.written)
    discard (remove_ignored fs temporary) (index_error parsed)
        (discard (remove_ignored fs temporary) s.write_error (publish_series temporary path s))

  -- From the open file beside the published one on.
  unfoldable pub stream_opened : Text → Text → Run SeriesRun → Act (ℕ × ℕ)
  unfolding conclude_series
  stream_opened temporary path run = do
    lift (ensure writer.opens writer_failed)
    conclude_series temporary path run

  -- From the name of the published file on.
  unfoldable pub stream_named : Text → Run SeriesRun → Text → Act (ℕ × ℕ)
  unfolding parent with_file_name stream_opened
  stream_named path run name = do
    create_parent fs (parent path)
    let temporary = with_file_name path (name ++ codes ".partial")
    create fs temporary (series_batches [])
    stream_opened temporary path run

  module _ (crates : Crates) (fuel : ℕ) where
    unfoldable pub write_series_index_streaming :
        Text → BlockMeta → Text → Bytes → Text → Act (ℕ × ℕ)
    unfolding local_path parse_each visit_series stream_named
    write_series_index_streaming repository_uri meta block_path index series_index_path = do
      let path = local_path series_index_path
      let run =
          parse_each crates fuel index (visit_series json writer repository_uri meta block_path)
            empty_run
      name ← file_name_of path
      stream_named path run name
