-- ===== src/Arrow.antt =====
-- Record batches as block_index.rs writes them and metric_table.rs reads them: schemas, columns and
-- what the arrow crate says that it checks.
use thanos_datafusion_experi.Common.{
  ℕ, ◌<◌, ◌≡◌, refl, Bool, true, false, ◌&&◌, ◌||◌, Option, none, some, List, [], ◌∷◌, map, arith,
  length, if◌then◌else◌,
}
use thanos_datafusion_experi.Common.Int.{ℤ}
use thanos_datafusion_experi.Common.Text.{Text, codes, text_eq}
use thanos_datafusion_experi.Common.Maps.{Labels}

-- The data types that the source names; its only struct has two fields.
mutual
  pub data DataType : Type 0 where
    utf8 utf8_view int64 int32 uint64 uint32 float64 timestamp_millisecond : DataType
    struct_of : Field → Field → DataType
    map_of : Field → Bool → DataType
    list_of : Field → DataType

  pub data Field : Type 0 where
    field : Text → DataType → Bool → Field

abbrev pub name_of : Field → Text
name_of (field name data_type nullable) = name

abbrev pub type_of : Field → DataType
type_of (field name data_type nullable) = data_type

abbrev pub is_nullable : Field → Bool
is_nullable (field name data_type nullable) = nullable

-- A column; `none` is a null. Maps and lists have the field of their entries or items.
pub data Array : Type 0 where
  strings string_views : List (Option Text) → Array
  int64s int32s timestamps : List (Option ℤ) → Array
  uint64s uint32s float64s : List (Option ℕ) → Array
  maps : Field → List (Option Labels) → Array
  lists : Field → List (Option (List Text)) → Array

abbrev pub data_type : Array → DataType
data_type (strings xs) = utf8
data_type (string_views xs) = utf8_view
data_type (int64s xs) = int64
data_type (int32s xs) = int32
data_type (timestamps xs) = timestamp_millisecond
data_type (uint64s xs) = uint64
data_type (uint32s xs) = uint32
data_type (float64s xs) = float64
data_type (maps entries xs) = map_of entries false
data_type (lists item xs) = list_of item

abbrev pub array_length : Array → ℕ
array_length (strings xs) = length xs
array_length (string_views xs) = length xs
array_length (int64s xs) = length xs
array_length (int32s xs) = length xs
array_length (timestamps xs) = length xs
array_length (uint64s xs) = length xs
array_length (uint32s xs) = length xs
array_length (float64s xs) = length xs
array_length (maps entries xs) = length xs
array_length (lists item xs) = length xs

abbrev is_value {ℓ} : {A : Type ℓ} → Option A → Bool
is_value none = false
is_value (some a) = true

unfoldable pub no_null {ℓ} : {A : Type ℓ} → List (Option A) → Bool
no_null [] = true
no_null (x ∷ xs) = is_value x && no_null xs

abbrev pub null_free : Array → Bool
null_free (strings xs) = no_null xs
null_free (string_views xs) = no_null xs
null_free (int64s xs) = no_null xs
null_free (int32s xs) = no_null xs
null_free (timestamps xs) = no_null xs
null_free (uint64s xs) = no_null xs
null_free (uint32s xs) = no_null xs
null_free (float64s xs) = no_null xs
null_free (maps entries xs) = no_null xs
null_free (lists item xs) = no_null xs

abbrev pub Schema : Type 0
Schema = List Field

pub record RecordBatch : Type 0 where
  pub schema : Schema
  pub columns : List Array

-- A column of `n` values for a field: its type, its length, and no null unless the field allows it.
pub record FitsField (n : ℕ) (f : Field) (a : Array) : Type 0 where
  pub same_type : data_type a ≡ type_of f
  pub same_length : array_length a ≡ n
  pub nulls : (is_nullable f || null_free a) ≡ true

infixr 4 ◌▹◌
-- A column for each field.
pub data Conforms (n : ℕ) : Schema → List Array → Type 0 where
  done : Conforms n [] []
  ◌▹◌ :
      {f : Field} {a : Array} {fs : Schema} {columns : List Array}
      → FitsField n f a
      → Conforms n fs columns
      → Conforms n (f ∷ fs) (a ∷ columns)

-- What the source relies on of the arrow crate: `RecordBatch::try_new`, and the fields that the
-- builders `MapBuilder::new(None, ..)` and `ListBuilder::new(..)` give their arrays.
pub record Arrow : Type 0 where
  pub try_new : Schema → List Array → Option RecordBatch
  pub map_entries : Field
  pub list_item : Field

abbrev pub entries_field : Field
entries_field =
    field (codes "entries")
      (struct_of (field (codes "keys") utf8 false) (field (codes "values") utf8 true)) false

-- Columns that fit are accepted as they are, where there is one at least; without any column there
-- is no number of rows, and the call fails. The builders have the default fields.
pub record IsArrow (arrow : Arrow) : Type 0 where
  pub accepts :
      (schema : Schema) (columns : List Array) (n : ℕ)
      → 0 < length schema
      → Conforms n schema columns
      → arrow.try_new schema columns ≡ some (record { schema = schema; columns = columns })
  pub rejects : arrow.try_new [] [] ≡ none
  pub entries : arrow.map_entries ≡ entries_field
  pub item : arrow.list_item ≡ field (codes "item") utf8 true

-- `batch.column_by_name(name)`
unfoldable pub find_column : Text → Schema → List Array → Option Array
unfolding text_eq
find_column name (f ∷ fs) (a ∷ columns) =
    let rest = find_column name fs columns in if text_eq (name_of f) name then some a else rest
find_column name _ _ = none

-- `batch.num_rows()`
abbrev pub num_rows : RecordBatch → ℕ
num_rows batch = elim batch.columns [ [] ↦ 0 | a ∷ columns ↦ array_length a ]

-- The values of a field of the rows, as `from(rows.iter().map(..).collect())` takes them.
abbrev pub all_of {ℓ κ} : {A : Type ℓ} {B : Type κ} → (A → B) → List A → List (Option B)
all_of f rows = map (λ row. some (f row)) rows

pub no_null-all_of {ℓ κ} :
    {A : Type ℓ} {B : Type κ} (f : A → B) (rows : List A) → no_null (all_of f rows) ≡ true
unfolding no_null
no_null-all_of f [] = refl
no_null-all_of f (row ∷ rows) = no_null-all_of f rows

pub length-all_of {ℓ κ} :
    {A : Type ℓ} {B : Type κ} (f : A → B) (rows : List A) → length (all_of f rows) ≡ length rows
length-all_of f [] = refl
length-all_of f (row ∷ rows) = omega (arith, length-all_of f rows)
