-- ===== src/BlockIndex/Disk.antt =====
-- The local disk under the index cache, and code that acts on it and may fail.
use thanos_datafusion_experi.Common.{
  ◌≡◌, refl, Bool, true, false, Option, none, some, List, ok, err, panicked, stuck, ensure,
  if◌then◌else◌,
}
use thanos_datafusion_experi.Common.Text.{Bytes, Text, text_eq}
use thanos_datafusion_experi.Storage.Reader.{IoError, IoResult, not_found}
use thanos_datafusion_experi.BlockIndex.Meta.{
  ChunkIndexRow, SeriesIndexRow, Built, file_failed, invalid_path,
}
use thanos_datafusion_experi.BlockIndex.Paths.{file_name}

-- A Parquet file is the batches of rows that were written to it.
pub data Content : Type 0 where
  chunk_batches : List (List ChunkIndexRow) → Content
  series_batches : List (List SeriesIndexRow) → Content
  plain : Bytes → Content

abbrev pub Disk : Type 0
Disk = Text → Option Content

unfoldable pub update : Disk → Text → Option Content → Disk
unfolding text_eq
update disk path content q = if text_eq path q then content else disk q

-- Which calls of `std::fs` succeed, the error of a read that does not although the file is there, and
-- the bytes of a Parquet file.
pub record LocalFs : Type 0 where
  pub creates_dir : Text → Bool
  pub creates : Text → Bool
  pub renames : Text → Text → Bool
  pub removes : Text → Bool
  pub read_error : Text → Option IoError
  pub parquet : Content → Bytes

abbrev pub Act {ℓ} : Type ℓ → Type ℓ
Act A = Disk → Disk × Built A

abbrev pub and_then {ℓ κ} :
    {A : Type ℓ} {B : Type κ} → Disk × Built A → (A → Act B) → Disk × Built B
and_then (disk, ok a) next = next a disk
and_then (disk, err e) next = (disk, err e)
and_then (disk, panicked) next = (disk, panicked)
and_then (disk, stuck) next = (disk, stuck)

infixl 5 ◌>>=◌ ◌>>◌
abbrev pub ◌>>=◌ {ℓ κ} : {A : Type ℓ} {B : Type κ} → Act A → (A → Act B) → Act B
◌>>=◌ act next disk = and_then (act disk) next

abbrev pub ◌>>◌ {ℓ} : {B : Type ℓ} → Act (Unit {0}) → Act B → Act B
first >> second = first >>= λ _. second

-- Code that does not act on the disk.
abbrev pub lift {ℓ} : {A : Type ℓ} → Built A → Act A
lift result disk = (disk, result)

-- The content of an open file.
abbrev pub put : Text → Content → Act (Unit {0})
put path content disk = (update disk path (some content), ok tt)

abbrev pub put_if : Bool → Text → Content → Act (Unit {0})
put_if true path content = put path content
put_if false path content = lift (err file_failed)

-- `fs::File::create(path)`, an empty file with the given content.
abbrev pub create : LocalFs → Text → Content → Act (Unit {0})
create fs path content = put_if (fs.creates path) path content

abbrev pub move_if : Bool → Text → Text → Act (Unit {0})
move_if true from to disk = (update (update disk from none) to (disk from), ok tt)
move_if false from to disk = (disk, err file_failed)

-- `fs::rename(from, to)`
abbrev pub rename : LocalFs → Text → Text → Act (Unit {0})
rename fs from to = move_if (fs.renames from to) from to

abbrev pub drop_if : Bool → Text → Act (Unit {0})
drop_if true path disk = (update disk path none, ok tt)
drop_if false path disk = (disk, ok tt)

-- `let _ = fs::remove_file(path)`
abbrev pub remove_ignored : LocalFs → Text → Act (Unit {0})
remove_ignored fs path = drop_if (fs.removes path) path

abbrev pub create_parent : LocalFs → Option Text → Act (Unit {0})
create_parent fs none = lift (ok tt)
create_parent fs (some directory) = lift (ensure (fs.creates_dir directory) file_failed)

abbrev pub name_or_error : Text → Option Text → Act Text
name_or_error path none = lift (err (invalid_path path))
name_or_error path (some name) = lift (ok name)

-- `path.file_name().ok_or_else(..)?`
abbrev pub file_name_of : Text → Act Text
file_name_of path = name_or_error path (file_name path)

abbrev content_bytes : LocalFs → Option Content → IoResult Bytes
content_bytes fs none = err not_found
content_bytes fs (some (plain bytes)) = ok bytes
content_bytes fs (some content) = ok (fs.parquet content)

-- `fs::read(path)`
unfoldable pub read_file : LocalFs → Disk → Text → IoResult Bytes
read_file fs disk path = elim (fs.read_error path) [
  | some e ↦ err e
  | none ↦ content_bytes fs (disk path)
]

abbrev pub has_content : Option Content → Bool
has_content none = false
has_content (some content) = true

-- `Path::new(path).is_file()`
abbrev pub is_file : Disk → Text → Bool
is_file disk path = has_content (disk path)

-- A run of two steps that has a value went through both.
pub and_then-eq-ok {ℓ κ} :
    {A : Type ℓ} {B : Type κ} (r : Disk × Built A) (next : A → Act B) (disk' : Disk) (b : B)
    → and_then r next ≡ (disk', ok b)
    → (a : A) × (r.1 ≡ ok a) × (next a r.0 ≡ (disk', ok b))
and_then-eq-ok (disk, ok a) next disk' b e = (a, refl, e)
and_then-eq-ok (disk, err x) next disk' b e = absurd (cc)
and_then-eq-ok (disk, panicked) next disk' b e = absurd (cc)
and_then-eq-ok (disk, stuck) next disk' b e = absurd (cc)

-- A check, or a directory, in front of a run that has a value.
module _ {ℓ} {A : Type ℓ} (act : Act A) (disk disk' : Disk) (a : A) where
  pub skip_check :
      (r : Built (Unit {0}))
      → and_then (disk, r) (λ _. act) ≡ (disk', ok a)
      → act disk ≡ (disk', ok a)
  skip_check (ok u) e = e
  skip_check (err x) e = absurd (cc)
  skip_check panicked e = absurd (cc)
  skip_check stuck e = absurd (cc)

  pub skip_parent :
      (fs : LocalFs) (directory : Option Text)
      → and_then (create_parent fs directory disk) (λ _. act) ≡ (disk', ok a)
      → act disk ≡ (disk', ok a)
  skip_parent fs none e = e
  skip_parent fs (some directory) e = skip_check (ensure (fs.creates_dir directory) file_failed) e
