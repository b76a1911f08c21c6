-- ===== src/BlockIndex/Stream/Publish.antt =====
-- `write_series_index_streaming` as a whole: what it publishes when it succeeds.
use thanos_datafusion_experi.Common
use thanos_datafusion_experi.Common.{
  ℕ, ◌+◌, ◌≡◌, refl, sym, ap, ◌∙◌, Bool, true, false, Option, none, some, List, [], ◌∷◌, ◌++◌,
  arith, Outcome, ok, err, panicked, stuck, ensure, length, concat, All,
}
use thanos_datafusion_experi.Common.Text.{Bytes, Text, codes, text_eq_refl}
use thanos_datafusion_experi.TsdbIndex.Reader.{Crates, Res}
use thanos_datafusion_experi.TsdbIndex.Entry.{Series}
use thanos_datafusion_experi.TsdbIndex.Walk.{Run, parse_each, parse}
use thanos_datafusion_experi.TsdbIndex.Walk.Fold.{collect, parse_each-foldl}
use thanos_datafusion_experi.BlockIndex.Meta.{BlockMeta, SeriesIndexRow, Built, Json, writer_failed}
use thanos_datafusion_experi.BlockIndex.Paths.{local_path, parent, with_file_name}
use thanos_datafusion_experi.BlockIndex.Disk.{
  and_then-eq-ok, Disk, Act, LocalFs, update, lift, put, create, move_if, ◌>>◌, Content,
  remove_ignored, create_parent, file_name_of, series_batches,
}
use thanos_datafusion_experi.BlockIndex.Stream.{
  Writer, SeriesRun, empty_run, visit_series, index_error, discard, publish_series, stream_opened,
  stream_named, conclude_series, write_series_index_streaming,
}
use thanos_datafusion_experi.BlockIndex.Stream.Batches.{
  Fits, IsTidy, AddedAll, chunk_total, rows_of, contents, flush_rows_lem, visit_all-Added,
}
use mathlib.Core.List.{foldl}

pub discard-eq-ok {ℓ} :
    {A : Type ℓ} (remove : Act (Unit {0})) (r : Built (Unit {0})) (next : Act A) (disk disk' : Disk)
    (a : A)
    → discard remove r next disk ≡ (disk', ok a)
    → (r ≡ ok tt) × (next disk ≡ (disk', ok a))
discard-eq-ok remove (ok u) next disk disk' a e = (refl, e)
discard-eq-ok remove (err x) next disk disk' a e =
    absurd (let (u, p, q) = and_then-eq-ok (remove disk) (λ _. lift (err x)) disk' a e in cc)
discard-eq-ok remove panicked next disk disk' a e = absurd (cc)
discard-eq-ok remove stuck next disk disk' a e = absurd (cc)

pub index_error-eq-ok : (r : Res (Unit {0})) → index_error r ≡ ok tt → r ≡ ok tt
index_error-eq-ok (ok u) e = refl
index_error-eq-ok (err x) e = absurd (cc)
index_error-eq-ok panicked e = absurd (cc)
index_error-eq-ok stuck e = absurd (cc)

-- What follows the last flush leaves the batches under the published path.
publish_rest :
    (closes renames : Bool) (temporary path : Text) (content : Content) (counts counts' : ℕ × ℕ)
    (disk disk' : Disk)
    → (put temporary content
          >> (lift (ensure closes writer_failed)
              >> (move_if renames temporary path >> lift (ok counts'))))
        disk
      ≡ (disk', ok counts)
    → (disk' path ≡ some content) × (counts ≡ counts')
unfolding update
publish_rest true true temporary path content counts counts' disk disk' e =
    (sym (ap (λ r. r.0 path) e) ∙ rw (text_eq_refl path, text_eq_refl temporary) refl, cc)
publish_rest true false temporary path content counts counts' disk disk' e = absurd (cc)
publish_rest false renames temporary path content counts counts' disk disk' e = absurd (cc)

module _ (json : Json) (fs : LocalFs) (writer : Writer SeriesIndexRow) where
  -- What a publication that succeeds has done with a run.
  record Published (disk' : Disk) (path : Text) (s : SeriesRun) (counts : ℕ × ℕ) : Type 0 where
    batches : List (List SeriesIndexRow)
    there : disk' path ≡ some (series_batches batches)
    fit : All Fits batches
    whole : concat batches ≡ contents s
    counted : counts ≡ (s.series_count, s.chunk_count)

  publish_series-Published :
      (temporary path : Text) (s : SeriesRun) (disk disk' : Disk) (counts : ℕ × ℕ)
      → IsTidy s
      → publish_series json fs writer temporary path s disk ≡ (disk', ok counts)
      → Published disk' path s counts
  unfolding publish_series
  publish_series-Published temporary path s disk disk' counts t e =
      let (written, f, e1) = and_then-eq-ok _ _ disk' counts e in
      let fits =
        flush_rows_lem writer s.written s.series_rows written f (omega (arith, t.room)) t.batches in
      let rest =
        publish_rest (writer.closes written) (fs.renames temporary path) temporary path
          (series_batches written) counts (s.series_count, s.chunk_count) disk disk' e1 in
      record { batches = written; there = rest.0; fit = fits.0; whole = fits.1; counted = rest.1 }

  conclude_series-Published :
      (temporary path : Text) (run : Run SeriesRun) (disk disk' : Disk) (counts : ℕ × ℕ)
      → conclude_series json fs writer temporary path run disk ≡ (disk', ok counts)
      → (run.1 ≡ ok tt)
        × (run.0.write_error ≡ ok tt)
        × (IsTidy run.0 → Published disk' path run.0 counts)
  unfolding conclude_series
  conclude_series-Published temporary path (s, parsed) disk disk' counts e =
      let (p, e1) =
        discard-eq-ok (remove_ignored fs temporary) (index_error parsed) _ _ disk' counts e in
      let (w, e2) = discard-eq-ok (remove_ignored fs temporary) s.write_error _ _ disk' counts e1 in
      (
        index_error-eq-ok parsed p,
        w,
        λ t. publish_series-Published temporary path s _ disk' counts t e2,
      )

  stream_opened-Published :
      (temporary path : Text) (run : Run SeriesRun) (disk disk' : Disk) (counts : ℕ × ℕ)
      → stream_opened json fs writer temporary path run disk ≡ (disk', ok counts)
      → (run.1 ≡ ok tt)
        × (run.0.write_error ≡ ok tt)
        × (IsTidy run.0 → Published disk' path run.0 counts)
  unfolding stream_opened
  stream_opened-Published temporary path run disk disk' counts e =
      let (_, _, e1) =
        and_then-eq-ok (lift (ensure writer.opens writer_failed) disk)
          (λ _. conclude_series json fs writer temporary path run) disk' counts e in
      conclude_series-Published temporary path run disk disk' counts e1

  stream_named-Published :
      (path name : Text) (run : Run SeriesRun) (disk disk' : Disk) (counts : ℕ × ℕ)
      → stream_named json fs writer path run name disk ≡ (disk', ok counts)
      → (run.1 ≡ ok tt)
        × (run.0.write_error ≡ ok tt)
        × (IsTidy run.0 → Published disk' path run.0 counts)
  unfolding stream_named
  stream_named-Published path name run disk disk' counts e =
      let temporary = with_file_name path (name ++ codes ".partial") in
      let opened = stream_opened json fs writer temporary path run in
      let (_, _, e1) =
        and_then-eq-ok (create_parent fs (parent path) disk)
          (λ _. create fs temporary (series_batches []) >> opened) disk' counts e in
      let disk1 = (create_parent fs (parent path) disk).0 in
      let (_, _, e2) =
        and_then-eq-ok (create fs temporary (series_batches []) disk1) (λ _. opened) disk' counts
          e1 in
      stream_opened-Published temporary path run _ disk' counts e2

pub end-eq-ok {ℓ} :
    {A : Type ℓ} (r : Run A) {expected : Res A}
    → r.1 ≡ ok tt
    → expected ≡ ok r.0
    → Common.◌>>=◌ r.1 (λ _. expected) ≡ ok r.0
end-eq-ok (a, ok u) e x = x
end-eq-ok (a, err x) e y = absurd (cc)
end-eq-ok (a, panicked) e x = absurd (cc)
end-eq-ok (a, stuck) e x = absurd (cc)

pair-eq : {m m' n n' : ℕ} → m ≡ m' → n ≡ n' → ◌≡◌ {A = ℕ × ℕ} (m, n) (m', n')
pair-eq p q = cc

from_zero : {m n : ℕ} → m ≡ 0 + n → m ≡ n
from_zero e = omega arith

empty_run-IsTidy : IsTidy empty_run
empty_run-IsTidy = record { batches = tt; room = omega arith }

module _ (json : Json) (fs : LocalFs) (writer : Writer SeriesIndexRow) (crates : Crates) (fuel : ℕ)
    (repository_uri : Text) (meta : BlockMeta) (block_path : Text) (index : Bytes) where
  -- The file holds the rows of the series of the index, in order and in batches that fit.
  pub record IsPublished (content : Option Content) (counts : ℕ × ℕ) : Type 0 where
    pub series : List Series
    pub parsed : parse crates fuel index ≡ ok series
    pub rows : List SeriesIndexRow
    pub complete : rows_of json repository_uri meta block_path series ≡ ok rows
    pub batches : List (List SeriesIndexRow)
    pub there : content ≡ some (series_batches batches)
    pub whole : concat batches ≡ rows
    pub fit : All Fits batches
    pub counted : counts ≡ (length series, chunk_total series)

  abbrev run : Run SeriesRun
  run =
      parse_each crates fuel index (visit_series json writer repository_uri meta block_path)
        empty_run

  abbrev collected : Run (List Series)
  collected = parse_each crates fuel index collect []

  parse-collected : collected.1 ≡ ok tt → parse crates fuel index ≡ ok collected.0
  unfolding parse
  parse-collected e = end-eq-ok collected e refl

  folded : run ≡ (
    foldl
        (λ s x. visit_series json writer repository_uri meta block_path x s)
        empty_run
        collected.0,
    collected.1,
  )
  folded =
      parse_each-foldl (visit_series json writer repository_uri meta block_path) crates fuel index
        empty_run

  AddedAll-of :
      (r : Run SeriesRun) (xs : List Series) (ended : Res (Unit {0}))
      → r ≡ (
        foldl (λ s x. visit_series json writer repository_uri meta block_path x s) empty_run xs,
        ended,
      )
      → r.0.write_error ≡ ok tt
      → AddedAll json writer repository_uri meta block_path empty_run r.0 xs
  AddedAll-of r xs ended e =
      rw e
        (visit_all-Added json writer repository_uri meta block_path empty_run xs empty_run-IsTidy)

  run-AddedAll :
      run.0.write_error ≡ ok tt
      → AddedAll json writer repository_uri meta block_path empty_run run.0 collected.0
  run-AddedAll e = AddedAll-of run collected.0 collected.1 folded e

  -- When `write_series_index_streaming` succeeds, the published file holds the row of every
  -- series that `parse` finds in the index, in order, in batches that are not empty and of at
  -- most 5000 rows, and the call returns the numbers of series and of chunks.
  pub write_series_index_streaming-IsPublished :
      (series_index_path : Text) (disk disk' : Disk) (counts : ℕ × ℕ)
      → write_series_index_streaming json fs writer crates fuel repository_uri meta block_path index
          series_index_path disk
        ≡ (disk', ok counts)
      → IsPublished (disk' (local_path series_index_path)) counts
  unfolding write_series_index_streaming
  write_series_index_streaming-IsPublished series_index_path disk disk' counts e =
      let path = local_path series_index_path in
      let (name, _, e1) =
        and_then-eq-ok (file_name_of path disk) (stream_named json fs writer path run) disk' counts
          e in
      let (parsed, running, published) =
        stream_named-Published json fs writer path name run _ disk' counts e1 in
      let added = run-AddedAll running in
      let p = published added.tidy in
      record {
        series = collected.0;
        parsed = parse-collected (sym (ap (λ r. r.1) folded) ∙ parsed);
        rows = added.rows;
        complete = added.rows_lem;
        batches = p.batches;
        there = p.there;
        whole = p.whole ∙ added.kept;
        fit = p.fit;
        counted = p.counted ∙ pair-eq (from_zero added.counted) (from_zero added.chunks_counted);
      }
