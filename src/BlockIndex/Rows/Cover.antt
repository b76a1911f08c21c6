-- ===== src/BlockIndex/Rows/Cover.antt =====
-- The times of a row of the series index against the chunks of its series.
use thanos_datafusion_experi.Common.{
  ℕ, ◌≡◌, Option, none, some, List, [], ◌∷◌, map, arith, ok, ok_or, All, Ensures, holds,
  Ensures-bind, Ensures-of, Ensures-ok_or, Ensures-eq-ok,
}
use thanos_datafusion_experi.Common.Int.{ℤ, ◌≤ℤ◌}
use thanos_datafusion_experi.Common.Text.{Bytes, Text}
use thanos_datafusion_experi.TsdbIndex.Entry.{Chunk, Series, parse_series}
use thanos_datafusion_experi.TsdbIndex.Entry.Order.{Ordered, parse_series-Ordered}
use thanos_datafusion_experi.BlockIndex.Meta.{
  BlockMeta, SeriesIndexRow, Json, no_chunks, json_failed,
}
use thanos_datafusion_experi.BlockIndex.Rows.{
  first_mint, last_maxt, add_external, location_of, series_row,
}

-- The chunk lies between the two times.
abbrev pub Within : ℤ → ℤ → Chunk → Type 0
Within mint maxt c = (mint ≤ℤ c.mint) × (c.maxt ≤ℤ maxt)

-- Chunks in order lie between any time up to the first and the end of the last.
Ordered-Within :
    (lo hi : ℤ) (previous : Option ℤ) (reference : Option ℕ) (c : Chunk) (cs : List Chunk)
    → Ordered previous reference (c ∷ cs)
    → lo ≤ℤ c.mint
    → last_maxt (c ∷ cs) ≡ some hi
    → All (Within lo hi) (c ∷ cs) × (c.maxt ≤ℤ hi)
unfolding last_maxt
Ordered-Within lo hi previous reference c [] o h e =
    let last : c.maxt ≤ℤ hi = ground arith in (((h, last), tt), last)
Ordered-Within lo hi previous reference c (d ∷ cs) o h e =
    let rest = Ordered-Within lo hi (some c.maxt) (some c.reference) d cs o.3 (omega arith) e in
    let before : c.maxt ≤ℤ hi = omega arith in (((h, before), rest.0), before)

first_last :
    (chunks : List Chunk) (mint maxt : ℤ)
    → Ordered none none chunks
    → first_mint chunks ≡ some mint
    → last_maxt chunks ≡ some maxt
    → All (Within mint maxt) chunks
unfolding first_mint
first_last [] mint maxt o p q = tt
first_last (c ∷ cs) mint maxt o p q = (Ordered-Within mint maxt none none c cs o (ground arith) q).0

-- The times of a row are those of the first and of the last chunk.
series_row_times :
    (json : Json) (repository_uri : Text) (meta : BlockMeta) (block_path : Text) (s : Series)
    → Ensures
        (λ row.
          (first_mint s.chunks ≡ some row.series_mint)
          × (last_maxt s.chunks ≡ some row.series_maxt))
        (series_row json repository_uri meta block_path s)
unfolding series_row
series_row_times json repository_uri meta block_path s =
    let labels = add_external meta.thanos.labels s.labels in
    let locations = map (location_of block_path) s.chunks in
    Ensures-bind
      (Ensures-ok_or (λ mint. first_mint s.chunks ≡ some mint) (first_mint s.chunks) no_chunks
        (λ _ e. e))
      λ mint first.
        Ensures-bind
          (Ensures-ok_or (λ maxt. last_maxt s.chunks ≡ some maxt) (last_maxt s.chunks) no_chunks
            (λ _ e. e))
          λ maxt last.
            Ensures-bind
              (Ensures-of (λ _. Unit {0}) (ok_or (json.labels_string labels) json_failed)
                (λ _ _. tt))
              λ _ _.
                Ensures-bind
                  (Ensures-of (λ _. Unit {0}) (ok_or (json.locations_string locations) json_failed)
                    (λ _ _. tt))
                  λ _ _. holds (first, last)

-- The times of the row of a series that `parse_series` returned lie around the times of every
-- chunk of the series.
pub series_row_covers :
    (json : Json) (repository_uri : Text) (meta : BlockMeta) (block_path : Text) (bytes : Bytes)
    (reference : ℕ) (symbols : List Text) (s : Series) (row : SeriesIndexRow)
    → parse_series bytes reference symbols ≡ ok s
    → series_row json repository_uri meta block_path s ≡ ok row
    → All (Within row.series_mint row.series_maxt) s.chunks
series_row_covers json repository_uri meta block_path bytes reference symbols s row p e =
    let (first, last) = Ensures-eq-ok (series_row_times json repository_uri meta block_path s) e in
    first_last s.chunks row.series_mint row.series_maxt
      (parse_series-Ordered bytes reference symbols s p).0 first last
