-- ===== src/BlockIndex/Stream/Batches.antt =====
-- What `write_series_index_streaming` has written when it succeeds.
use thanos_datafusion_experi.Common.{
  ℕ, ◌+◌, ◌≤◌, ◌<◌, ◌≡◌, refl, sym, ap, ◌∙◌, List, [], ◌∷◌, ◌++◌, append_assoc, append-nil, arith,
  ok, err, panicked, stuck, ◌>>=◌, view, is_ok, is_err, is_panicked, is_stuck, leb, length,
  length-append, concat, concat-snoc, All, All-snoc, Bool-cases, ◌⊎◌, inl, inr,
}
use thanos_datafusion_experi.Common.Text.{Text}
use thanos_datafusion_experi.TsdbIndex.Entry.{Series}
use thanos_datafusion_experi.BlockIndex.Meta.{BlockMeta, SeriesIndexRow, Built, Json}
use thanos_datafusion_experi.BlockIndex.Rows.{series_row, append_series_row}
use thanos_datafusion_experi.BlockIndex.Stream.{
  Writer, SeriesRun, index_batch_size, flush_rows, after_flush, push_row, visit_unless,
  visit_series,
}
use mathlib.Core.List.{foldl}

-- The number of chunks of some series.
abbrev pub chunk_total : List Series → ℕ
chunk_total [] = 0
chunk_total (s ∷ series) = length s.chunks + chunk_total series

-- A batch that is not empty and not above the size of a batch.
abbrev pub Fits {ℓ} : {R : Type ℓ} → List R → Type 0
Fits batch = (0 < length batch) × (length batch ≤ index_batch_size)

module _ (json : Json) (repository_uri : Text) (meta : BlockMeta) (block_path : Text) where
  -- The rows of some series, with no batches: every series has one.
  unfoldable pub rows_of : List Series → Built (List SeriesIndexRow)
  unfolding series_row
  rows_of [] = ok []
  rows_of (s ∷ series) = do
    row ← series_row json repository_uri meta block_path s
    rows ← rows_of series
    ok (row ∷ rows)

-- The rows that have been pushed, flushed or not.
abbrev pub contents : SeriesRun → List SeriesIndexRow
contents s = concat s.written ++ s.series_rows

-- What holds between visits that did not fail.
pub record IsTidy (s : SeriesRun) : Type 0 where
  pub batches : All Fits s.written
  pub room : length s.series_rows < index_batch_size

module _ {ℓ} {R : Type ℓ} (writer : Writer R) where
  flush_rows-eq :
      (written : List (List R)) (rows : List R) (written' : List (List R))
      → flush_rows writer written rows ≡ ok written'
      → ((rows ≡ []) × (written ≡ written'))
        ⊎ ((0 < length rows) × ((written ++ (rows ∷ [])) ≡ written'))
  unfolding flush_rows
  flush_rows-eq written [] written' e = inl (refl, ground arith)
  flush_rows-eq written (row ∷ rows) written' e = inr (omega arith, ground arith)

  -- A flush that succeeds keeps every row, and its batch fits.
  pub flush_rows_lem :
      (written : List (List R)) (rows : List R) (written' : List (List R))
      → flush_rows writer written rows ≡ ok written'
      → length rows ≤ index_batch_size
      → All Fits written
      → All Fits written' × (concat written' ≡ concat written ++ rows)
  flush_rows_lem written rows written' e room h = elim (flush_rows-eq written rows written' e) [
    | inl (none_there, same) ↦ rw (← same) (h, rw none_there (sym (append-nil (concat written))))
    | inr (some_there, more) ↦
        rw (← more) (All-snoc Fits written rows h (some_there, room), concat-snoc written rows)
  ]

module _ (json : Json) (writer : Writer SeriesIndexRow) (repository_uri : Text) (meta : BlockMeta)
    (block_path : Text) where
  abbrev visit : Series → SeriesRun → SeriesRun
  visit = visit_series json writer repository_uri meta block_path

  -- What a visit that does not fail has added.
  record Added (s s' : SeriesRun) (x : Series) : Type 0 where
    running : s.write_error ≡ ok tt
    tidy : IsTidy s'
    row : SeriesIndexRow
    row_lem : series_row json repository_uri meta block_path x ≡ ok row
    kept : contents s' ≡ contents s ++ (row ∷ [])
    counted : s'.series_count ≡ s.series_count + 1
    chunks_counted : s'.chunk_count ≡ s.chunk_count + length x.chunks

  -- `t` is a state behind the push: its contents and its counters.
  Added-of :
      (s t : SeriesRun) (x : Series) (row : SeriesIndexRow)
      → s.write_error ≡ ok tt
      → series_row json repository_uri meta block_path x ≡ ok row
      → IsTidy t
      → contents t ≡ concat s.written ++ (s.series_rows ++ (row ∷ []))
      → t.series_count ≡ s.series_count + 1
      → t.chunk_count ≡ s.chunk_count + length x.chunks
      → Added s t x
  Added-of s t x row r e tidy kept n c = record {
    running = r;
    tidy = tidy;
    row = row;
    row_lem = e;
    kept = kept ∙ sym (append_assoc (concat s.written) s.series_rows (row ∷ []));
    counted = n;
    chunks_counted = c;
  }

  after_flush-Added :
      (s : SeriesRun) (x : Series) (row : SeriesIndexRow) (rows : List SeriesIndexRow)
      (r : Built (List (List SeriesIndexRow)))
      → ((written : List (List SeriesIndexRow))
          → r ≡ ok written
          → All Fits written × (concat written ≡ concat s.written ++ rows))
      → rows ≡ s.series_rows ++ (row ∷ [])
      → s.write_error ≡ ok tt
      → series_row json repository_uri meta block_path x ≡ ok row
      → (after_flush s (length x.chunks) rows r).write_error ≡ ok tt
      → Added s (after_flush s (length x.chunks) rows r) x
  after_flush-Added s x row rows (ok written) flush same r e ended =
      let f = flush written refl in
      Added-of s _ x row r e (record { batches = f.0; room = omega arith })
        (append-nil (concat written) ∙ f.1 ∙ ap (λ ys. concat s.written ++ ys) same) refl refl
  after_flush-Added s x row rows (err e') flush same r e ended = absurd (cc)
  after_flush-Added s x row rows panicked flush same r e ended = absurd (cc)
  after_flush-Added s x row rows stuck flush same r e ended = absurd (cc)

  push_row-Added :
      (s : SeriesRun) (x : Series) (row : SeriesIndexRow)
      → IsTidy s
      → s.write_error ≡ ok tt
      → series_row json repository_uri meta block_path x ≡ ok row
      → (push_row writer s (ok (length x.chunks, s.series_rows ++ (row ∷ [])))).write_error ≡ ok tt
      → Added s (push_row writer s (ok (length x.chunks, s.series_rows ++ (row ∷ [])))) x
  unfolding push_row
  push_row-Added s x row t r e =
      let rows = s.series_rows ++ (row ∷ []) in
      let grown : length rows ≡ length s.series_rows + 1 = length-append s.series_rows (row ∷ []) in
      elim (Bool-cases (leb index_batch_size (length rows))) [
        | inl full ↦ rw full (λ ended.
            after_flush-Added s x row rows (flush_rows writer s.written rows)
              (λ written f.
                flush_rows_lem writer s.written rows written f (omega (arith, grown, t.room))
                  t.batches)
              refl r e ended)
        | inr free ↦ rw free (λ ended.
            Added-of s _ x row r e (record { batches = t.batches; room = ground (arith, grown) })
              refl refl refl)
      ]

  visit_row-Added :
      (s : SeriesRun) (x : Series)
      → IsTidy s
      → s.write_error ≡ ok tt
      → (push_row writer s
          (append_series_row json repository_uri meta block_path x s.series_rows)).write_error
        ≡ ok tt
      → Added s
          (push_row writer s
            (append_series_row json repository_uri meta block_path x s.series_rows))
          x
  unfolding append_series_row push_row
  visit_row-Added s x t r = elim (view (series_row json repository_uri meta block_path x)) [
    | is_ok row e ↦ rw e (push_row-Added s x row t r e)
    | is_err fault e ↦ rw e (λ ended. absurd (cc))
    | is_panicked e ↦ rw e (λ ended. absurd (cc))
    | is_stuck e ↦ rw e (λ ended. absurd (cc))
  ]

  visit_unless-Added :
      (w : Built (Unit {0})) (s : SeriesRun) (x : Series)
      → s.write_error ≡ w
      → IsTidy s
      → (visit_unless json writer repository_uri meta block_path w x s).write_error ≡ ok tt
      → Added s (visit_unless json writer repository_uri meta block_path w x s) x
  unfolding visit_unless
  visit_unless-Added (ok u) s x e t ended = visit_row-Added s x t e ended
  visit_unless-Added (err fault) s x e t ended = absurd (cc)
  visit_unless-Added panicked s x e t ended = absurd (cc)
  visit_unless-Added stuck s x e t ended = absurd (cc)

  visit-Added :
      (s : SeriesRun) (x : Series)
      → IsTidy s
      → (visit x s).write_error ≡ ok tt
      → Added s (visit x s) x
  unfolding visit_series
  visit-Added s x = visit_unless-Added s.write_error s x refl

  -- What visits that do not fail have added.
  pub record AddedAll (s s' : SeriesRun) (xs : List Series) : Type 0 where
    pub tidy : IsTidy s'
    pub rows : List SeriesIndexRow
    pub rows_lem : rows_of json repository_uri meta block_path xs ≡ ok rows
    pub kept : contents s' ≡ contents s ++ rows
    pub counted : s'.series_count ≡ s.series_count + length xs
    pub chunks_counted : s'.chunk_count ≡ s.chunk_count + chunk_total xs

  abbrev visit_all : SeriesRun → List Series → SeriesRun
  visit_all = foldl (λ s x. visit x s)

  visit_unless-running :
      (w : Built (Unit {0})) (s : SeriesRun) (x : Series)
      → s.write_error ≡ w
      → (visit_unless json writer repository_uri meta block_path w x s).write_error ≡ ok tt
      → s.write_error ≡ ok tt
  unfolding visit_unless
  visit_unless-running (ok u) s x e ended = e
  visit_unless-running (err fault) s x e ended = ended
  visit_unless-running panicked s x e ended = ended
  visit_unless-running stuck s x e ended = ended

  -- A run that has failed has failed for good.
  visit_all-running :
      (s : SeriesRun) (xs : List Series)
      → (visit_all s xs).write_error ≡ ok tt
      → s.write_error ≡ ok tt
  unfolding visit_series
  visit_all-running s [] e = e
  visit_all-running s (x ∷ xs) e =
      visit_unless-running s.write_error s x refl (visit_all-running (visit x s) xs e)

  Added-AddedAll :
      {s s' s'' : SeriesRun} {x : Series} {xs : List Series}
      → Added s s' x
      → AddedAll s' s'' xs
      → AddedAll s s'' (x ∷ xs)
  unfolding rows_of
  Added-AddedAll {s} {s'} {s''} {x} {xs} a b = record {
    tidy = b.tidy;
    rows = a.row ∷ b.rows;
    rows_lem = rw (a.row_lem, rows_of) (rw b.rows_lem refl);
    kept =
        b.kept ∙ (ap (λ ys. ys ++ b.rows) a.kept ∙ append_assoc (contents s) (a.row ∷ []) b.rows);
    counted = omega (arith, a.counted, b.counted);
    chunks_counted = omega (arith, a.chunks_counted, b.chunks_counted);
  }

  -- When no visit has failed, every series has a row, and the rows and the numbers of series and of
  -- chunks have been added to the state.
  pub visit_all-Added :
      (s : SeriesRun) (xs : List Series)
      → IsTidy s
      → (visit_all s xs).write_error ≡ ok tt
      → AddedAll s (visit_all s xs) xs
  unfolding rows_of
  visit_all-Added s [] t e = record {
    tidy = t;
    rows = [];
    rows_lem = refl;
    kept = sym (append-nil (contents s));
    counted = omega arith;
    chunks_counted = omega arith;
  }
  visit_all-Added s (x ∷ xs) t e =
      let a = visit-Added s x t (visit_all-running (visit x s) xs e) in
      Added-AddedAll a (visit_all-Added (visit x s) xs a.tidy e)
