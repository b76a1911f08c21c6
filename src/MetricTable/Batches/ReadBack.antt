-- ===== src/MetricTable/Batches/ReadBack.antt =====
-- A scan reads from the batches of the chunk index the rows that block_index.rs puts into them.
use thanos_datafusion_experi.Common.{
  ℕ, zero, suc, ◌+◌, ◌≡◌, refl, sym, ap, ◌∙◌, Bool, true, false, some, List, [], ◌∷◌, ◌++◌,
  append_assoc, map, map-append, concat, arith, ok, err, panicked, stuck, ◌>>=◌, if◌then◌else◌,
  get_elem?, length, drop, get_elem?-drop, drop-drop, Bool-cases, inl, inr, view, is_ok, is_err,
  is_panicked, is_stuck,
}
use thanos_datafusion_experi.Common.Int.{pos}
use thanos_datafusion_experi.Common.Text.{Text, text_eq}
use thanos_datafusion_experi.Arrow.{
  utf8, utf8_view, Field, field, Array, strings, string_views, RecordBatch, Arrow, IsArrow,
  find_column, num_rows, all_of, length-all_of,
}
use thanos_datafusion_experi.BlockIndex.Meta.{ChunkIndexRow}
use thanos_datafusion_experi.BlockIndex.Arrays.{chunk_schema, chunk_columns, chunk_record_batch}
use thanos_datafusion_experi.BlockIndex.Arrays.Conform.{chunk_columns-Conforms, some_fields}
use thanos_datafusion_experi.MetricTable.Filter.{MetricFilter}
use thanos_datafusion_experi.MetricTable.Scan.{
  DescriptorRow, MetricRow, World, descriptor_rows, build_rows,
}
use thanos_datafusion_experi.MetricTable.Batches.{
  Scanned, string_column, uint64_column, int64_column, value_at, string_value, Columns, columns_of,
  matching_row, batch_row, batch_rows, all_rows,
}

-- A query engine hands out texts as they are or as views.
abbrev pub handed_out : Bool → Array → Array
handed_out true (strings xs) = string_views xs
handed_out _ a = a

abbrev pub handed_field : Bool → Field → Field
handed_field true (field name utf8 nullable) = field name utf8_view nullable
handed_field _ f = f

abbrev pub handed_batch : Bool → RecordBatch → RecordBatch
handed_batch views batch = record {
  schema = map (handed_field views) batch.schema;
  columns = map (handed_out views) batch.columns;
}

abbrev pub descriptor_row : ChunkIndexRow → DescriptorRow
descriptor_row row = record {
  repository_uri = row.repository_uri;
  chunk_file_path = row.chunk_file_path;
  chunk_file_offset = row.chunk_file_offset;
  downsample_resolution = row.downsample_resolution;
  chunk_mint = row.chunk_mint;
  chunk_maxt = row.chunk_maxt;
  labels_json = row.labels_json;
  metric_name = row.metric_name;
}

-- The columns of a batch of these rows.
abbrev columns_for : Bool → List ChunkIndexRow → Columns
columns_for views rows = record {
  repository_uri = handed_out views (strings (all_of (λ row. row.repository_uri) rows));
  chunk_file_path = handed_out views (strings (all_of (λ row. row.chunk_file_path) rows));
  chunk_file_offset = all_of (λ row. row.chunk_file_offset) rows;
  resolution = all_of (λ row. row.downsample_resolution) rows;
  chunk_mint = all_of (λ row. row.chunk_mint) rows;
  chunk_maxt = all_of (λ row. row.chunk_maxt) rows;
  labels_json = handed_out views (strings (all_of (λ row. row.labels_json) rows));
  metric_name = handed_out views (strings (all_of (λ row. row.metric_name) rows));
}

value_at-all_of :
    {A : Type 0} {B : Type 0} (default : B) (f : A → B) (rows : List A) (i : ℕ) (row : A)
    → get_elem? rows i ≡ some row
    → value_at default (all_of f rows) i ≡ ok (f row)
unfolding value_at
value_at-all_of default f [] i row e = absurd (cc e)
value_at-all_of default f (x ∷ rows) zero row e = cc
value_at-all_of default f (x ∷ rows) (suc i) row e = value_at-all_of default f rows i row e

string_value-all_of :
    (views : Bool) (f : ChunkIndexRow → Text) (rows : List ChunkIndexRow) (i : ℕ)
    (row : ChunkIndexRow)
    → get_elem? rows i ≡ some row
    → string_value (handed_out views (strings (all_of f rows))) i ≡ ok (f row)
unfolding string_value
string_value-all_of true f rows i row e = value_at-all_of [] f rows i row e
string_value-all_of false f rows i row e = value_at-all_of [] f rows i row e

module _ (arrow : Arrow) where
  abbrev pub written : List ChunkIndexRow → RecordBatch
  written rows = record { schema = chunk_schema; columns = chunk_columns arrow rows }

  columns_of-written :
      (views : Bool) (rows : List ChunkIndexRow)
      → columns_of (handed_batch views (written rows)) ≡ ok (columns_for views rows)
  unfolding columns_of string_column uint64_column int64_column find_column text_eq chunk_schema
      chunk_columns
  columns_of-written true rows = refl
  columns_of-written false rows = refl

  num_rows-written :
      (views : Bool) (rows : List ChunkIndexRow)
      → num_rows (handed_batch views (written rows)) ≡ length rows
  unfolding chunk_columns
  num_rows-written true rows = length-all_of (λ row. row.repository_name) rows
  num_rows-written false rows = length-all_of (λ row. row.repository_name) rows

module _ (world : World) (metric_name : Text) (filters : List MetricFilter)
    (counter_metric : Bool) where
  abbrev build : List DescriptorRow → Scanned (List MetricRow)
  build = build_rows world metric_name filters counter_metric

  matching_row-descriptor_rows :
      (views : Bool) (rows : List ChunkIndexRow) (i : ℕ) (row : ChunkIndexRow)
      → get_elem? rows i ≡ some row
      → matching_row world metric_name filters counter_metric
          (columns_for views rows)
          i
          row.metric_name
        ≡ descriptor_rows world metric_name filters counter_metric (descriptor_row row)
  unfolding matching_row
  matching_row-descriptor_rows views rows i row e =
      let uri = string_value-all_of views (λ r. r.repository_uri) rows i row e in
      let path = string_value-all_of views (λ r. r.chunk_file_path) rows i row e in
      let json = string_value-all_of views (λ r. r.labels_json) rows i row e in
      let mint = value_at-all_of (pos 0) (λ r. r.chunk_mint) rows i row e in
      let maxt = value_at-all_of (pos 0) (λ r. r.chunk_maxt) rows i row e in
      let resolution = value_at-all_of (pos 0) (λ r. r.downsample_resolution) rows i row e in
      let offset = value_at-all_of 0 (λ r. r.chunk_file_offset) rows i row e in
      rw (uri, path, json, mint, maxt, resolution, offset) refl

  other_metric :
      (d : DescriptorRow)
      → text_eq d.metric_name metric_name ≡ false
      → descriptor_rows world metric_name filters counter_metric d ≡ ok []
  unfolding descriptor_rows
  other_metric d other = rw (other, descriptor_rows) refl

  batch_row-descriptor_rows :
      (views : Bool) (rows : List ChunkIndexRow) (i : ℕ) (row : ChunkIndexRow)
      → get_elem? rows i ≡ some row
      → batch_row world metric_name filters counter_metric (columns_for views rows) i
        ≡ descriptor_rows world metric_name filters counter_metric (descriptor_row row)
  unfolding batch_row
  batch_row-descriptor_rows views rows i row e =
      let name = string_value-all_of views (λ r. r.metric_name) rows i row e in
      elim (Bool-cases (text_eq row.metric_name metric_name)) [
        | inr other ↦
            named name
            ∙ ap (λ (b : Bool). if b then matching else ok []) other
            ∙ sym (other_metric (descriptor_row row) other)
        | inl same ↦
            named name
            ∙ ap (λ (b : Bool). if b then matching else ok []) same
            ∙ matching_row-descriptor_rows views rows i row e
      ]
    where
      matching : Scanned (List MetricRow)
      matching =
          matching_row world metric_name filters counter_metric (columns_for views rows) i
            row.metric_name

      named :
          string_value (columns_for views rows).metric_name i ≡ ok row.metric_name
          → batch_row world metric_name filters counter_metric (columns_for views rows) i
            ≡ (if text_eq row.metric_name metric_name then matching else ok [])
      named name =
          ap
            (λ (r : Scanned Text). r >>= λ n.
              if text_eq n metric_name
              then matching_row world metric_name filters counter_metric (columns_for views rows) i
                  n
              else ok [])
            name

  batch_rows-build_rows :
      (views : Bool) (rows rest : List ChunkIndexRow) (i : ℕ)
      → drop i rows ≡ rest
      → batch_rows world metric_name filters counter_metric (columns_for views rows) (length rest) i
        ≡ build (map descriptor_row rest)
  unfolding batch_rows build_rows
  batch_rows-build_rows views rows [] i e = refl
  batch_rows-build_rows views rows (row ∷ rest) i e =
      let here : get_elem? rows i ≡ some row =
        sym (get_elem?-drop i 0 rows ∙ ap (get_elem? rows) (omega arith))
        ∙ ap (λ (xs : List ChunkIndexRow). get_elem? xs 0) e in
      let one : suc i ≡ i + 1 = omega arith in
      let next : drop (suc i) rows ≡ rest =
        ap (λ (n : ℕ). drop n rows) one ∙ sym (drop-drop i 1 rows) ∙ ap (drop 1) e in
      rw
        (
          batch_row-descriptor_rows views rows i row here,
          batch_rows-build_rows views rows rest (suc i) next,
        )
        refl

  build_rows-append :
      (xs ys : List DescriptorRow)
      → build (xs ++ ys) ≡ (build xs >>= λ rows. build ys >>= λ rest. ok (rows ++ rest))
  unfolding build_rows
  build_rows-append [] ys = elim (view (build ys)) [
    | is_ok a e ↦ rw e refl
    | is_err x e ↦ rw e refl
    | is_panicked e ↦ rw e refl
    | is_stuck e ↦ rw e refl
  ]
  build_rows-append (d ∷ xs) ys =
      rw (build_rows-append xs ys)
        (joined (descriptor_rows world metric_name filters counter_metric d) (build xs) (build ys))
    where
      joined :
          (here before after : Scanned (List MetricRow))
          → (here >>= λ rows.
              (before >>= λ first. after >>= λ second. ok (first ++ second)) >>= λ rest.
              ok (rows ++ rest))
            ≡ ((here >>= λ rows. before >>= λ rest. ok (rows ++ rest)) >>= λ rows.
                after >>= λ rest. ok (rows ++ rest))
      joined (ok a) (ok b) (ok c) = ap ok (sym (append_assoc a b c))
      joined (ok a) (ok b) (err x) = refl
      joined (ok a) (ok b) panicked = refl
      joined (ok a) (ok b) stuck = refl
      joined (ok a) (err x) after = refl
      joined (ok a) panicked after = refl
      joined (ok a) stuck after = refl
      joined (err x) before after = refl
      joined panicked before after = refl
      joined stuck before after = refl

  module _ (arrow : Arrow) (lawful : IsArrow arrow) where
    -- A scan of the batches that `chunk_record_batch` makes of the rows of a chunk index, in any
    -- grouping and with texts handed out as they are or as views, gives what the rows themselves
    -- give: the writer's columns have the names, the types and the values that the scan reads.
    pub all_rows-build_rows :
        (views : Bool) (groups : List (List ChunkIndexRow)) (batches : List RecordBatch)
        → map (chunk_record_batch arrow chunk_schema) groups ≡ map some batches
        → all_rows world metric_name filters counter_metric (map (handed_batch views) batches)
          ≡ build_rows world metric_name filters counter_metric (map descriptor_row (concat groups))
    unfolding all_rows build_rows chunk_record_batch
    all_rows-build_rows views [] [] e = refl
    all_rows-build_rows views [] (batch ∷ batches) e = absurd (cc e)
    all_rows-build_rows views (rows ∷ groups) [] e = absurd (cc e)
    all_rows-build_rows views (rows ∷ groups) (batch ∷ batches) e =
        let accepted =
          lawful.accepts chunk_schema (chunk_columns arrow rows) (length rows) some_fields.1
            (chunk_columns-Conforms arrow lawful rows) in
        let same : batch ≡ written arrow rows = cc (e, accepted) in
        let later = all_rows-build_rows views groups batches (cc e) in
        rw
          (
            same,
            columns_of-written arrow views rows,
            num_rows-written arrow views rows,
            batch_rows-build_rows views rows rows 0 refl,
            later,
            map-append descriptor_row rows (concat groups),
          )
          (sym (build_rows-append (map descriptor_row rows) (map descriptor_row (concat groups))))
