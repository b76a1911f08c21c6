-- ===== src/BlockIndex/Paths.antt =====
-- The paths of the files under the index cache, and what std::path makes of them on Unix.
pub mod Apart
use thanos_datafusion_experi.Common.{
  ℕ, zero, suc, ◌+◌, ◌-◌, ◌/◌, ◌%◌, Bool, true, false, not, ◌&&◌, ◌||◌, Option, none, some, List,
  [], ◌∷◌, ◌++◌, ◌==◌, if◌then◌else◌, length,
}
use thanos_datafusion_experi.Common.Text.{Text, codes, text_eq}
use thanos_datafusion_experi.Storage.Registry.{no_slash, trim_last_slashes}

-- `value.strip_prefix(prefix)`
unfoldable pub strip_prefix : Text → Text → Option Text
strip_prefix [] value = some value
strip_prefix (p ∷ prefix) [] = none
strip_prefix (p ∷ prefix) (c ∷ value) =
    let rest = strip_prefix prefix value in if p == c then rest else none

abbrev or_whole : Text → Option Text → Text
or_whole value none = value
or_whole value (some rest) = rest

-- `value.strip_prefix("file://").unwrap_or(value)`
unfoldable pub local_path : Text → Text
unfolding strip_prefix
local_path value = or_whole value (strip_prefix (codes "file://") value)

unfoldable pub ends_with_slash : Text → Bool
ends_with_slash [] = false
ends_with_slash (c ∷ []) = c == 47
ends_with_slash (c ∷ d ∷ s) = ends_with_slash (d ∷ s)

abbrev pub is_absolute : Text → Bool
is_absolute [] = false
is_absolute (c ∷ s) = c == 47

-- `Path::join`: an absolute path replaces the base.
unfoldable pub join : Text → Text → Text
unfolding ends_with_slash
join [] path = path
join (c ∷ base) path =
    if is_absolute path
    then path
    else if ends_with_slash (c ∷ base)
    then (c ∷ base) ++ path
    else (c ∷ base) ++ (47 ∷ path)

unfoldable pub block_index_file_path : Text → Text
unfolding local_path join
block_index_file_path location = join (local_path location) (codes "block_index.parquet")

unfoldable pub chunk_index_directory_path : Text → Text
unfolding local_path join
chunk_index_directory_path location = join (local_path location) (codes "indexes")

unfoldable pub series_index_directory_path : Text → Text
unfolding local_path join
series_index_directory_path location = join (local_path location) (codes "series")

unfoldable pub manifest_directory_path : Text → Text
unfolding local_path join
manifest_directory_path location = join (local_path location) (codes "manifests")

unfoldable pub chunk_index_file_path : Text → Text → Text
unfolding local_path join
chunk_index_file_path location block_ulid =
    join (join (local_path location) (codes "indexes")) (block_ulid ++ codes ".parquet")

unfoldable pub series_index_file_path : Text → Text → Text
unfolding local_path join
series_index_file_path location block_ulid =
    join (join (local_path location) (codes "series")) (block_ulid ++ codes ".parquet")

unfoldable pub block_manifest_file_path : Text → Text → Text
unfolding local_path join
block_manifest_file_path location block_ulid =
    join (join (local_path location) (codes "manifests")) (block_ulid ++ codes ".json")

-- What stands up to the last slash, with the slash, and what stands behind it.
unfoldable pub split_last : Text → Text × Text
unfolding no_slash
split_last [] = ([], [])
split_last (c ∷ s) =
    let rest = split_last s in
    if no_slash (c ∷ s)
    then ([], c ∷ s)
    else if no_slash s
    then (c ∷ [], s)
    else (c ∷ rest.0, rest.1)

-- `Path::file_name`, of a path whose last component is not `.`.
unfoldable pub file_name : Text → Option Text
unfolding split_last trim_last_slashes text_eq
file_name path =
    let name = (split_last (trim_last_slashes path)).1 in
    if text_eq name [] || text_eq name (codes "..") then none else some name

-- `Path::parent`, of such a path; none is the empty one.
unfoldable pub parent : Text → Option Text
unfolding split_last trim_last_slashes text_eq
parent path =
    let above = (split_last (trim_last_slashes path)).0 in
    let trimmed = trim_last_slashes above in
    if text_eq above [] then none else if text_eq trimmed [] then some (codes "/") else some trimmed

abbrev pub or_empty : Option Text → Text
or_empty none = []
or_empty (some path) = path

-- `path.with_file_name(name)`
unfoldable pub with_file_name : Text → Text → Text
unfolding parent join
with_file_name path name = join (or_empty (parent path)) name

-- What stands in front of the last dot, and behind it.
unfoldable pub split_last_dot : Text → Option (Text × Text)
split_last_dot [] = none
split_last_dot (c ∷ s) = elim (split_last_dot s) [
  | some (stem, extension) ↦ some (c ∷ stem, extension)
  | none ↦ if c == 46 then some ([], s) else none
]

-- `Path::extension` of a file name: a name whose only dot is its first byte has none.
unfoldable pub extension : Text → Option Text
unfolding split_last_dot
extension name = elim (split_last_dot name) [
  | none ↦ none
  | some ([], rest) ↦ none
  | some (c ∷ stem, rest) ↦ some rest
]

-- `Path::file_stem` of a file name.
unfoldable pub file_stem : Text → Text
unfolding split_last_dot
file_stem name = elim (split_last_dot name) [
  | none ↦ name
  | some ([], rest) ↦ name
  | some (c ∷ stem, rest) ↦ c ∷ stem
]

-- The decimal digits of a number of up to `count` of them, none for 0, in front of `rest`.
unfoldable pub decimal : ℕ → ℕ → Text → Text
decimal zero n rest = rest
decimal (suc count) n rest =
    let more = decimal count (n / 10) ((48 + n % 10) ∷ rest) in if n == 0 then rest else more

unfoldable pub pad : ℕ → Text → Text
pad zero text = text
pad (suc missing) text = 48 ∷ pad missing text

-- `format!("{:06}", n)` of a `u32`.
unfoldable pub six_digits : ℕ → Text
unfolding decimal pad
six_digits n = let digits = decimal 10 n [] in pad (6 - length digits) digits
