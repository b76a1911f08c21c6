-- ===== src/BlockIndex/Expanded/Whole.antt =====
-- `write_chunk_and_series_index_streaming` as a whole: the label columns that it answers with.
use thanos_datafusion_experi.Common.{
  or_false, ℕ, ◌≡◌, refl, sym, ap, ◌∙◌, List, [], ◌++◌, ok, ensure,
}
use thanos_datafusion_experi.Common.Text.{Bytes, Text, codes}
use thanos_datafusion_experi.Common.Maps.{lookup}
use thanos_datafusion_experi.Config.{RepositoryConfig}
use thanos_datafusion_experi.TsdbIndex.Reader.{Crates}
use thanos_datafusion_experi.TsdbIndex.Entry.{Series}
use thanos_datafusion_experi.TsdbIndex.Walk.{Run, parse_each, parse}
use thanos_datafusion_experi.TsdbIndex.Walk.Fold.{collect, parse_each-foldl}
use thanos_datafusion_experi.BlockIndex.Meta.{
  BlockMeta, ChunkIndexRow, SeriesIndexRow, MetricLabels, Built, Json, writer_failed,
}
use thanos_datafusion_experi.BlockIndex.Paths.{local_path, parent, with_file_name}
use thanos_datafusion_experi.BlockIndex.Labels.Exact.{has_column, gives_column, some_series}
use thanos_datafusion_experi.BlockIndex.Disk.{
  Disk, Act, LocalFs, and_then-eq-ok, lift, put, create, rename, create_parent, file_name_of, ◌>>=◌,
  ◌>>◌, chunk_batches, series_batches,
}
use thanos_datafusion_experi.BlockIndex.Stream.{Writer, flush_rows, index_error, discard}
use thanos_datafusion_experi.BlockIndex.Stream.Publish.{discard-eq-ok, index_error-eq-ok, end-eq-ok}
use thanos_datafusion_experi.BlockIndex.Expanded.{
  ExpandedRun, empty_expanded, expand_series, publish_both, remove_both, conclude_both,
  write_chunk_and_series_index_streaming,
}
use thanos_datafusion_experi.BlockIndex.Expanded.Columns.{has_column-visit_all}
use mathlib.Core.List.{foldl}

-- The value of the act has the property, if there is one.
abbrev Gives {ℓ κ} : {A : Type ℓ} → (A → Type κ) → Act A → Type (ℓ ⊔ κ)
Gives P act = (disk disk' : Disk) (a : _) → act disk ≡ (disk', ok a) → P a

module _ {ℓ κ} {A : Type ℓ} (P : A → Type κ) where
  Gives-bind {μ} :
      {B : Type μ} (act : Act B) (next : B → Act A)
      → ((b : B) → Gives P (next b))
      → Gives P (act >>= next)
  Gives-bind act next h disk disk' a e =
      let (b, _, q) = and_then-eq-ok (act disk) next disk' a e in h b (act disk).0 disk' a q

  Gives-discard :
      (remove : Act (Unit {0})) (r : Built (Unit {0})) (next : Act A)
      → (r ≡ ok tt → Gives P next)
      → Gives P (discard remove r next)
  Gives-discard remove r next h disk disk' a e =
      let (p, q) = discard-eq-ok remove r next disk disk' a e in h p disk disk' a q

abbrev Answer : Type 0
Answer = ℕ × ℕ × MetricLabels

abbrev labels_in : Built Answer → MetricLabels
labels_in (ok (n, c, labels)) = labels
labels_in _ = []

-- A run that succeeds has parsed the whole index, no visit has failed, and the labels are those of
-- the last state.
abbrev Complete : Run ExpandedRun → Answer → Type 0
Complete run (n, c, labels) =
    (run.1 ≡ ok tt) × (run.0.write_error ≡ ok tt) × (labels ≡ run.0.metric_labels)

module _ (fs : LocalFs) (chunk_writer : Writer ChunkIndexRow)
    (series_writer : Writer SeriesIndexRow)
    (temporary path temporary_series series_path : Text) where
  publish_both-labels :
      (s : ExpandedRun)
      → Gives
          (λ (n, c, labels). labels ≡ s.metric_labels)
          (publish_both fs chunk_writer series_writer temporary path temporary_series series_path s)
  unfolding publish_both
  publish_both-labels s =
      let answer = lift (ok (s.series_count, s.chunk_count, s.metric_labels)) in
      let moved = rename fs temporary_series series_path >> answer in
      let renamed = rename fs temporary path >> moved in
      let closed = λ (written : List (List SeriesIndexRow)).
        lift (ensure (series_writer.closes written) writer_failed) >> renamed in
      Gives-bind _ (lift (flush_rows chunk_writer s.chunks_written s.rows)) _ λ chunks_written.
        Gives-bind _ (put temporary (chunk_batches chunks_written)) _ λ _.
          Gives-bind _ (lift (flush_rows series_writer s.series_written s.series_rows)) _
            λ series_written.
              Gives-bind _ (put temporary_series (series_batches series_written)) _ λ _.
                Gives-bind _ (lift (ensure (chunk_writer.closes chunks_written) writer_failed))
                  (λ _. closed series_written)
                  λ _.
                    Gives-bind _ (lift (ensure (series_writer.closes series_written) writer_failed))
                      (λ _. renamed)
                      λ _.
                        Gives-bind _ (rename fs temporary path) (λ _. moved)
                          λ _.
                            Gives-bind _ (rename fs temporary_series series_path) (λ _. answer)
                              λ _. λ disk disk' a e. sym (ap (λ r. labels_in r.1) e)

  conclude_both-Complete :
      (run : Run ExpandedRun)
      → Gives (Complete run) (
          conclude_both fs chunk_writer series_writer temporary path temporary_series series_path
            run)
  unfolding conclude_both
  conclude_both-Complete (s, parsed) =
      let remove = remove_both fs chunk_writer series_writer temporary temporary_series in
      let publish =
        publish_both fs chunk_writer series_writer temporary path temporary_series series_path s in
      Gives-bind _ (put temporary (chunk_batches s.chunks_written)) _ λ _.
        Gives-bind _ (put temporary_series (series_batches s.series_written))
          (λ _. discard remove (index_error parsed) (discard remove s.write_error publish))
          λ _.
            Gives-discard _ remove (index_error parsed) (discard remove s.write_error publish) λ p.
              Gives-discard _ remove s.write_error publish λ q disk disk' a e.
                (index_error-eq-ok parsed p, q, publish_both-labels s disk disk' a e)

module _ (fs : LocalFs) (chunk_writer : Writer ChunkIndexRow)
    (series_writer : Writer SeriesIndexRow) (json : Json) (crates : Crates) (fuel : ℕ)
    (repository : RepositoryConfig) (meta : BlockMeta) (block_path : Text) (index : Bytes) where
  abbrev visit : Series → ExpandedRun → ExpandedRun
  visit = expand_series chunk_writer series_writer json repository meta block_path

  abbrev run : Run ExpandedRun
  run = parse_each crates fuel index visit empty_expanded

  abbrev collected : Run (List Series)
  collected = parse_each crates fuel index collect []

  write-Complete :
      (chunk_index_path series_index_path : Text)
      → Gives (Complete run) (
          write_chunk_and_series_index_streaming fs chunk_writer series_writer json crates fuel
            repository meta block_path index chunk_index_path series_index_path)
  unfolding write_chunk_and_series_index_streaming
  write-Complete chunk_index_path series_index_path =
      let path = local_path chunk_index_path in
      let series_path = local_path series_index_path in
      Gives-bind _ (file_name_of path) _ λ name.
        let temporary = with_file_name path (name ++ codes ".partial") in
        Gives-bind _ (create_parent fs (parent path)) _ λ _.
          Gives-bind _ (create fs temporary (chunk_batches [])) _ λ _.
            Gives-bind _ (lift (ensure chunk_writer.opens writer_failed)) _ λ _.
              Gives-bind _ (file_name_of series_path) _ λ series_name.
                let temporary_series =
                  with_file_name series_path (series_name ++ codes ".partial") in
                let conclude =
                  conclude_both fs chunk_writer series_writer temporary path temporary_series
                    series_path run in
                let opened = lift (ensure series_writer.opens writer_failed) >> conclude in
                let created = create fs temporary_series (series_batches []) >> opened in
                Gives-bind _ (create_parent fs (parent series_path)) (λ _. created)
                  λ _.
                    Gives-bind _ (create fs temporary_series (series_batches [])) (λ _. opened)
                      λ _.
                        Gives-bind _ (lift (ensure series_writer.opens writer_failed))
                          (λ _. conclude)
                          λ _.
                            conclude_both-Complete fs chunk_writer series_writer temporary path
                              temporary_series series_path run

  columns-of :
      (metric label : Text) (r : Run ExpandedRun) (xs : List Series)
      → r.0 ≡ foldl (λ s x. visit x s) empty_expanded xs
      → r.0.write_error ≡ ok tt
      → has_column metric label r.0.metric_labels
        ≡ some_series (gives_column meta.thanos.labels metric label) xs
  unfolding has_column lookup
  columns-of metric label r xs e fine =
      let last = foldl (λ s x. visit x s) empty_expanded xs in
      let (_, labels) =
        has_column-visit_all chunk_writer series_writer json repository meta block_path metric label
          empty_expanded xs (sym (ap (λ s. s.write_error) e) ∙ fine) in
      ap (λ s. has_column metric label s.metric_labels) e
      ∙ (labels ∙ or_false (some_series (gives_column meta.thanos.labels metric label) xs))

  -- When `write_chunk_and_series_index_streaming` succeeds a metric has a column exactly for the
  -- labels but `__name__` of its series in the index, and of the block.
  pub has_column-write_chunk_and_series_index_streaming :
      (metric label chunk_index_path series_index_path : Text) (disk disk' : Disk) (n c : ℕ)
      (labels : MetricLabels)
      → write_chunk_and_series_index_streaming fs chunk_writer series_writer json crates fuel
          repository meta block_path index chunk_index_path series_index_path disk
        ≡ (disk', ok (n, c, labels))
      → (series : List Series) × (parse crates fuel index ≡ ok series)
        × (has_column metric label labels
            ≡ some_series (gives_column meta.thanos.labels metric label) series)
  unfolding parse
  has_column-write_chunk_and_series_index_streaming metric label chunk_index_path series_index_path
        disk disk' n c labels e =
      let (parsed, fine, same) =
        write-Complete chunk_index_path series_index_path disk disk' (n, c, labels) e in
      let folded = parse_each-foldl visit crates fuel index empty_expanded in
      (
        collected.0,
        end-eq-ok collected (sym (ap (λ r. r.1) folded) ∙ parsed) refl,
        ap (has_column metric label) same
            ∙ columns-of metric label run collected.0 (ap (λ r. r.0) folded) fine,
      )
