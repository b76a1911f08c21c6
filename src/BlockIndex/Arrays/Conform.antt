-- ===== src/BlockIndex/Arrays/Conform.antt =====
-- The batches of the index files fit their schemas.
use thanos_datafusion_experi.Common.{
  ◌<◌, ◌≡◌, refl, ap, ◌∙◌, Bool, true, ◌||◌, Option, some, List, map, arith, length, length-map,
}
use thanos_datafusion_experi.Arrow.{
  Field, Array, Arrow, IsArrow, FitsField, Conforms, done, ◌▹◌, data_type, type_of, array_length,
  null_free, is_nullable, no_null, all_of, no_null-all_of, length-all_of,
}
use thanos_datafusion_experi.BlockIndex.Meta.{BlockIndexRow, ChunkIndexRow, SeriesIndexRow}
use thanos_datafusion_experi.BlockIndex.Arrays.{
  block_schema, chunk_schema, series_schema, block_columns, chunk_columns, series_columns,
  block_record_batch, chunk_record_batch, series_record_batch,
}

or_true : (a b : Bool) → b ≡ true → (a || b) ≡ true
or_true a b e = ground arith

-- A column with a value for every row.
pub fits {ℓ κ} :
    {A : Type ℓ} {B : Type κ} (g : A → B) (rows : List A) {f : Field} {a : Array}
    → data_type a ≡ type_of f
    → array_length a ≡ length (all_of g rows)
    → null_free a ≡ no_null (all_of g rows)
    → FitsField (length rows) f a
fits g rows {f} {a} same size nulls = record {
  same_type = same;
  same_length = size ∙ length-all_of g rows;
  nulls = or_true (is_nullable f) (null_free a) (nulls ∙ no_null-all_of g rows);
}

-- A column that may have nulls, for a field that allows them.
fits_nullable {ℓ κ} :
    {A : Type ℓ} {B : Type κ} (g : A → Option B) (rows : List A) {f : Field} {a : Array}
    → data_type a ≡ type_of f
    → array_length a ≡ length (map g rows)
    → is_nullable f ≡ true
    → FitsField (length rows) f a
fits_nullable g rows {f} {a} same size nullable = record {
  same_type = same;
  same_length = size ∙ length-map g rows;
  nulls = ap (λ b. b || null_free a) nullable;
}

-- No schema of an index file is empty.
pub some_fields : (0 < length block_schema) × (0 < length chunk_schema) × (0 < length series_schema)
unfolding block_schema chunk_schema series_schema
some_fields = (omega arith, omega arith, omega arith)

module _ (arrow : Arrow) (lawful : IsArrow arrow) where
  pub chunk_columns-Conforms :
      (rows : List ChunkIndexRow) → Conforms (length rows) chunk_schema (chunk_columns arrow rows)
  unfolding chunk_schema chunk_columns
  chunk_columns-Conforms rows = rw lawful.entries (
      fits (λ row. row.repository_name) rows refl refl refl
      ▹ fits (λ row. row.repository_uri) rows refl refl refl
      ▹ fits (λ row. row.block_ulid) rows refl refl refl
      ▹ fits (λ row. row.block_path) rows refl refl refl
      ▹ fits (λ row. row.downsample_resolution) rows refl refl refl
      ▹ fits (λ row. row.metric_name) rows refl refl refl
      ▹ fits (λ row. row.chunk_file_path) rows refl refl refl
      ▹ fits (λ row. row.chunk_ref) rows refl refl refl
      ▹ fits (λ row. row.chunk_file_seq) rows refl refl refl
      ▹ fits (λ row. row.chunk_file_offset) rows refl refl refl
      ▹ fits (λ row. row.series_ref) rows refl refl refl
      ▹ fits (λ row. row.series_mint) rows refl refl refl
      ▹ fits (λ row. row.series_maxt) rows refl refl refl
      ▹ fits (λ row. row.chunk_mint) rows refl refl refl
      ▹ fits (λ row. row.chunk_maxt) rows refl refl refl
      ▹ fits (λ row. row.labels) rows refl refl refl
      ▹ fits (λ row. row.labels_json) rows refl refl refl
      ▹ done)

  series_columns-Conforms :
      (rows : List SeriesIndexRow)
      → Conforms (length rows) series_schema (series_columns arrow rows)
  unfolding series_schema series_columns
  series_columns-Conforms rows =
      fits (λ row. row.repository_uri) rows refl refl refl
      ▹ fits (λ row. row.downsample_resolution) rows refl refl refl
      ▹ fits (λ row. row.series_mint) rows refl refl refl
      ▹ fits (λ row. row.series_maxt) rows refl refl refl
      ▹ fits (λ row. row.labels_json) rows refl refl refl
      ▹ fits (λ row. row.chunks_json) rows refl refl refl
      ▹ done

  block_columns-Conforms :
      (rows : List BlockIndexRow) → Conforms (length rows) block_schema (block_columns arrow rows)
  unfolding block_schema block_columns
  block_columns-Conforms rows =
      rw (lawful.entries, lawful.item)
        (fits (λ row. row.repository_name) rows refl refl refl
          ▹ fits (λ row. row.repository_uri) rows refl refl refl
          ▹ fits (λ row. row.block_ulid) rows refl refl refl
          ▹ fits (λ row. row.block_path) rows refl refl refl
          ▹ fits (λ row. row.meta_path) rows refl refl refl
          ▹ fits (λ row. row.min_time) rows refl refl refl
          ▹ fits (λ row. row.max_time) rows refl refl refl
          ▹ fits (λ row. row.downsample_resolution) rows refl refl refl
          ▹ fits (λ row. row.external_labels) rows refl refl refl
          ▹ fits (λ row. row.external_labels_map) rows refl refl refl
          ▹ fits (λ row. row.source) rows refl refl refl
          ▹ fits_nullable (λ row. row.upload_time) rows refl refl refl
          ▹ fits (λ row. row.version) rows refl refl refl
          ▹ fits (λ row. row.compaction_level) rows refl refl refl
          ▹ fits (λ row. row.compaction_sources) rows refl refl refl
          ▹ fits (λ row. row.num_samples) rows refl refl refl
          ▹ fits (λ row. row.num_float_samples) rows refl refl refl
          ▹ fits (λ row. row.num_histogram_samples) rows refl refl refl
          ▹ fits (λ row. row.num_series) rows refl refl refl
          ▹ fits (λ row. row.num_chunks) rows refl refl refl
          ▹ fits_nullable (λ row. row.index_series_max_size) rows refl refl refl
          ▹ fits (λ row. row.index_size_bytes) rows refl refl refl
          ▹ fits (λ row. row.chunks_size_bytes) rows refl refl refl
          ▹ fits (λ row. row.total_size_bytes) rows refl refl refl
          ▹ fits (λ row. row.files) rows refl refl refl
          ▹ done)

  -- The rows of each of the three index files make a batch with the schema of the file, a column
  -- of the type of each field with a value for each row, and nulls only where the field allows
  -- them, where the arrow crate accepts columns that fit a schema of one field at least and its
  -- builders set the default fields.
  pub index_batches-Conform :
      (blocks : List BlockIndexRow) (chunks : List ChunkIndexRow) (series : List SeriesIndexRow)
      → ((block_record_batch arrow block_schema blocks
            ≡ some (record { schema = block_schema; columns = block_columns arrow blocks }))
          × Conforms (length blocks) block_schema (block_columns arrow blocks))
        × ((chunk_record_batch arrow chunk_schema chunks
              ≡ some (record { schema = chunk_schema; columns = chunk_columns arrow chunks }))
            × Conforms (length chunks) chunk_schema (chunk_columns arrow chunks))
        × ((series_record_batch arrow series_schema series
              ≡ some (record { schema = series_schema; columns = series_columns arrow series }))
            × Conforms (length series) series_schema (series_columns arrow series))
  unfolding block_record_batch chunk_record_batch series_record_batch
  index_batches-Conform blocks chunks series =
      let b = block_columns-Conforms blocks in
      let c = chunk_columns-Conforms chunks in
      let s = series_columns-Conforms series in
      (
        (
          lawful.accepts block_schema (block_columns arrow blocks) (length blocks) some_fields.0 b,
          b,
        ),
        (
          lawful.accepts chunk_schema (chunk_columns arrow chunks) (length chunks) some_fields.1 c,
          c,
        ),
        (
          lawful.accepts series_schema (series_columns arrow series) (length series) some_fields.2
              s,
          s,
        ),
      )
