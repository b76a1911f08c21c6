-- ===== src/MetricTable/Batches/Output.antt =====
-- The batch that a scan of metric_table.rs gives out.
use thanos_datafusion_experi.Common.{
  ℕ, zero, suc, ◌<◌, ◌≡◌, refl, subst, true, false, Option, none, some, List, [], ◌∷◌, map, ok, err,
  ◌⊎◌, inl, inr, >>=-eq-ok, or_panic, arith, get_elem?, get_elem?_in, length, All,
}
use thanos_datafusion_experi.Common.Text.{Text, codes, text_eq}
use thanos_datafusion_experi.Arrow.{
  utf8, int64, float64, timestamp_millisecond, Field, field, Array, strings, int64s, float64s,
  timestamps, Schema, Arrow, IsArrow, FitsField, Conforms, done, ◌▹◌, all_of,
}
use thanos_datafusion_experi.BlockIndex.Meta.{MetricTableSchema, TextSet}
use thanos_datafusion_experi.BlockIndex.Arrays.{arrow_schema, label_fields}
use thanos_datafusion_experi.BlockIndex.Arrays.Conform.{fits}
use thanos_datafusion_experi.MetricTable.Filter.{label_or_empty}
use thanos_datafusion_experi.MetricTable.Scan.{MetricRow, batch_refused}
use thanos_datafusion_experi.MetricTable.Batches.{
  project, projected_schema, output_column, output_columns, record_batch,
}

-- A field that a metric table can have.
data MetricField : Field → Type 0 where
  is_timestamp : MetricField (field (codes "timestamp") timestamp_millisecond false)
  is_value : MetricField (field (codes "value") float64 true)
  is_resolution : MetricField (field (codes "downsample_resolution") int64 false)
  is_label : (label : Text) → MetricField (field label utf8 false)

data MetricFields : Schema → Type 0 where
  no_field : MetricFields []
  and_field :
      {f : Field} {fields : Schema}
      → MetricField f
      → MetricFields fields
      → MetricFields (f ∷ fields)

-- What a scan is to give for a field: a sample's time or value, the resolution, or a label of the
-- series, which is empty where the series does not have it.
pub expected : List MetricRow → Field → Array
expected rows (field name timestamp_millisecond nullable) =
    timestamps (all_of (λ row. row.timestamp) rows)
expected rows (field name float64 nullable) = float64s (all_of (λ row. row.value) rows)
expected rows (field name int64 nullable) = int64s (all_of (λ row. row.downsample_resolution) rows)
expected rows (field name _ nullable) =
    strings (all_of (λ row. label_or_empty name row.labels) rows)

output_column-expected :
    (rows : List MetricRow) (f : Field)
    → MetricField f
    → output_column rows f ≡ ok (expected rows f)
unfolding output_column expected text_eq
output_column-expected rows _ is_timestamp = refl
output_column-expected rows _ is_value = refl
output_column-expected rows _ is_resolution = refl
output_column-expected rows _ (is_label label) = refl

expected-FitsField :
    (rows : List MetricRow) (f : Field)
    → MetricField f
    → FitsField (length rows) f (expected rows f)
unfolding expected
expected-FitsField rows _ is_timestamp = fits (λ row. row.timestamp) rows refl refl refl
expected-FitsField rows _ is_value = fits (λ row. row.value) rows refl refl refl
expected-FitsField rows _ is_resolution =
    fits (λ row. row.downsample_resolution) rows refl refl refl
expected-FitsField rows _ (is_label label) =
    fits (λ row. label_or_empty label row.labels) rows refl refl refl

output_columns-expected :
    (rows : List MetricRow) (fields : Schema)
    → MetricFields fields
    → (output_columns rows fields ≡ ok (map (expected rows) fields))
      × Conforms (length rows) fields (map (expected rows) fields)
unfolding output_columns
output_columns-expected rows [] no_field = (refl, done)
output_columns-expected rows (f ∷ fields) (and_field m ms) =
    let (columns, conforms) = output_columns-expected rows fields ms in
    (rw (output_column-expected rows f m, columns) refl, expected-FitsField rows f m ▹ conforms)

label_fields-MetricFields : (labels : TextSet) → MetricFields (label_fields labels)
label_fields-MetricFields [] = no_field
label_fields-MetricFields ((label, u) ∷ labels) =
    and_field (is_label label) (label_fields-MetricFields labels)

arrow_schema-MetricFields : (table : MetricTableSchema) → MetricFields (arrow_schema table)
unfolding arrow_schema
arrow_schema-MetricFields table =
    and_field is_timestamp
      (and_field is_value (and_field is_resolution (label_fields-MetricFields table.label_columns)))

get_elem?-MetricField :
    (fields : Schema) (i : ℕ) (f : Field)
    → MetricFields fields
    → get_elem? fields i ≡ some f
    → MetricField f
get_elem?-MetricField [] i f no_field e = absurd (cc e)
get_elem?-MetricField (g ∷ fields) zero f (and_field m ms) e =
    let same : g ≡ f = cc e in subst MetricField same m
get_elem?-MetricField (g ∷ fields) (suc i) f (and_field m ms) e =
    get_elem?-MetricField fields i f ms e

-- Every index of the projection is one of the schema.
abbrev pub InRange : Schema → Option (List ℕ) → Type 0
InRange schema none = Unit {0}
InRange schema (some projection) = All (λ i. i < length schema) projection

project-MetricFields :
    (schema : Schema) (projection : List ℕ)
    → MetricFields schema
    → All (λ i. i < length schema) projection
    → (fields : Schema) × (project schema projection ≡ ok fields) × MetricFields fields
unfolding project
project-MetricFields schema [] m h = ([], refl, no_field)
project-MetricFields schema (i ∷ projection) m (low, h) =
    let (f, found) = get_elem?_in schema i low in
    let (fields, rest, ms) = project-MetricFields schema projection m h in
    (f ∷ fields, rw (found, rest) refl, and_field (get_elem?-MetricField schema i f m found) ms)

-- The output of a scan is a batch of these fields, with the columns that are expected.
abbrev pub Given : Arrow → MetricTableSchema → Option (List ℕ) → List MetricRow → Schema → Type 0
Given arrow table projection rows fields =
    (0 < length fields)
    × (projected_schema (arrow_schema table) projection ≡ ok fields)
    × (record_batch arrow (arrow_schema table) projection rows
        ≡ ok (record { schema = fields; columns = map (expected rows) fields }))
    × Conforms (length rows) fields (map (expected rows) fields)

some_columns : (table : MetricTableSchema) → 0 < length (arrow_schema table)
unfolding arrow_schema
some_columns table = omega arith

some_projected :
    (schema : Schema) (i : ℕ) (projection : List ℕ) (fields : Schema)
    → project schema (i ∷ projection) ≡ ok fields
    → 0 < length fields
unfolding project
some_projected schema i projection [] e =
    let (f, found, later) = >>=-eq-ok (or_panic (get_elem? schema i)) _ e in
    let (rest, fields, none_left) = >>=-eq-ok (project schema projection) _ later in
    absurd (cc none_left)
some_projected schema i projection (f ∷ fields) e = omega arith

given :
    (arrow : Arrow)
    → IsArrow arrow
    → (table : MetricTableSchema) (projection : Option (List ℕ)) (rows : List MetricRow)
      (fields : Schema)
    → 0 < length fields
    → projected_schema (arrow_schema table) projection ≡ ok fields
    → MetricFields fields
    → Given arrow table projection rows fields
unfolding record_batch
given arrow lawful table projection rows fields some_field projected m =
    let (columns, conforms) = output_columns-expected rows fields m in
    let accepted =
      lawful.accepts fields (map (expected rows) fields) (length rows) some_field conforms in
    (some_field, projected, rw (projected, columns, accepted) refl, conforms)

-- Where the arrow crate accepts columns that fit a schema of one field at least and refuses a
-- batch without columns, and with a projection whose indices the table's schema has: the output
-- of a scan is refused with an error where the projection is empty, and else it is a batch with
-- the projected schema, which has a field, and for each of its fields the column that is
-- expected, of the field's type, with a value for each row and no null where the field allows
-- none.
pub record_batch-Conforms :
    (arrow : Arrow)
    → IsArrow arrow
    → (table : MetricTableSchema) (projection : Option (List ℕ)) (rows : List MetricRow)
    → InRange (arrow_schema table) projection
    → ((projection ≡ some [])
        × (record_batch arrow (arrow_schema table) projection rows ≡ err batch_refused))
      ⊎ (fields : Schema) × Given arrow table projection rows fields
unfolding record_batch projected_schema output_columns
record_batch-Conforms arrow lawful table none rows h = inr (
  arrow_schema table,
  given arrow lawful table none rows (arrow_schema table) (some_columns table) refl
      (arrow_schema-MetricFields table),
)
record_batch-Conforms arrow lawful table (some []) rows h =
    inl (refl, unfold project in rw lawful.rejects refl)
record_batch-Conforms arrow lawful table (some (i ∷ is)) rows h =
    let (fields, projected, m) =
      project-MetricFields (arrow_schema table) (i ∷ is) (arrow_schema-MetricFields table) h in
    inr (
      fields,
      given arrow lawful table (some (i ∷ is)) rows fields
          (some_projected (arrow_schema table) i is fields projected) projected m,
    )
