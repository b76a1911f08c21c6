-- ===== src/BlockIndex/Files.antt =====
-- The files of finished blocks in the index cache: the manifest that lets a build be reused, and the
-- clean-up of files of blocks that are gone.
pub mod Manifest
pub mod Clean
use thanos_datafusion_experi.Common.{
  Bool, true, false, not, ◌&&◌, ◌||◌, Option, none, some, List, [], ◌∷◌, ◌++◌, ok, err, ok_or,
  if◌then◌else◌, panicked, stuck,
}
use thanos_datafusion_experi.Common.Text.{Bytes, Text, codes, text_eq}
use thanos_datafusion_experi.Common.Maps.{lookup}
use thanos_datafusion_experi.Config.{strip_suffix}
use thanos_datafusion_experi.Storage.Reader.{IoResult, not_found}
use thanos_datafusion_experi.BlockIndex.Meta.{
  TextSet, BlockBuildTask, BuiltBlockIndex, CachedBlockIndex, Built, Json, io_failed, json_failed,
  file_failed, invalid_path,
}
use thanos_datafusion_experi.BlockIndex.Paths.{
  chunk_index_file_path, series_index_file_path, block_manifest_file_path, parent, with_file_name,
  file_name, extension, file_stem,
}
use thanos_datafusion_experi.BlockIndex.Disk.{
  Act, LocalFs, ◌>>=◌, ◌>>◌, lift, create, rename, create_parent, plain, Disk, is_file, read_file,
}

abbrev same_flag : Bool → Bool → Bool
same_flag true b = b
same_flag false b = not b

-- The manifest is of this task and of this kind of build.
unfoldable pub manifest_matches : BlockBuildTask → Bool → CachedBlockIndex → Bool
unfolding text_eq
manifest_matches task materialize cached =
    text_eq cached.row.block_ulid task.meta.ulid
    && (same_flag cached.materialize_chunk_index materialize
        && (text_eq cached.row.repository_name task.repository.name
            && (text_eq cached.row.repository_uri task.repository.uri
                && (text_eq cached.row.block_path task.block_path
                    && text_eq cached.row.meta_path task.meta_path))))

abbrev pub index_path_of : Text → Text
index_path_of block_path = block_path ++ codes "/index"

-- What is built from a manifest.
abbrev pub reused : BlockBuildTask → Text → CachedBlockIndex → BuiltBlockIndex
reused task series_index_path cached = record {
  row = cached.row;
  block_ulid = cached.row.block_ulid;
  block_path = task.block_path;
  index_path = index_path_of task.block_path;
  series_index_path = series_index_path;
  series_count = cached.series_count;
  chunk_count = cached.chunk_count;
  metric_labels = cached.metric_labels;
}

-- `match serde_json::from_slice(&bytes)`, and the comparison with the task.
unfoldable pub accept_manifest :
    BlockBuildTask → Bool → Text → Option CachedBlockIndex → Option BuiltBlockIndex
unfolding manifest_matches
accept_manifest task materialize series_index_path none = none
accept_manifest task materialize series_index_path (some cached) =
    if manifest_matches task materialize cached
    then some (reused task series_index_path cached)
    else none

-- `match fs::read(&manifest_path)`: a manifest that is not there is no error.
unfoldable pub manifest_answer :
    Json → BlockBuildTask → Bool → Text → IoResult Bytes → Built (Option BuiltBlockIndex)
unfolding accept_manifest
manifest_answer json task materialize series_index_path (ok bytes) =
    ok (accept_manifest task materialize series_index_path (json.read_manifest bytes))
manifest_answer json task materialize series_index_path (err not_found) = ok none
manifest_answer json task materialize series_index_path (err e) = err (io_failed e)
manifest_answer json task materialize series_index_path panicked = panicked
manifest_answer json task materialize series_index_path stuck = stuck

unfoldable pub load_cached_block_index :
    Json → LocalFs → BlockBuildTask → Text → Bool → Disk → Built (Option BuiltBlockIndex)
unfolding chunk_index_file_path series_index_file_path block_manifest_file_path read_file
    manifest_answer
load_cached_block_index json fs task location materialize disk =
    let chunk_index_path = chunk_index_file_path location task.meta.ulid in
    let series_index_path = series_index_file_path location task.meta.ulid in
    let manifest_path = block_manifest_file_path location task.meta.ulid in
    if not (is_file disk series_index_path) || (materialize && not (is_file disk chunk_index_path))
    then ok none
    else manifest_answer json task materialize series_index_path (read_file fs disk manifest_path)

abbrev pub no_parent : Text → Option Text → Built (Unit {0})
no_parent path none = err (invalid_path path)
no_parent path (some directory) = ok tt

abbrev pub stem_of : Option Text → Text
stem_of none = []
stem_of (some name) = file_stem name

-- `path.with_extension("json.partial")`
unfoldable pub partial_manifest_path : Text → Text
unfolding file_name file_stem with_file_name
partial_manifest_path path = with_file_name path (stem_of (file_name path) ++ codes ".json.partial")

unfoldable pub write_block_manifest :
    Json → LocalFs → Text → Text → CachedBlockIndex → Act (Unit {0})
unfolding block_manifest_file_path parent partial_manifest_path
write_block_manifest json fs location block_ulid cached = do
  let path = block_manifest_file_path location block_ulid
  lift (no_parent path (parent path))
  create_parent fs (parent path)
  bytes ← lift (ok_or (json.write_manifest cached) json_failed)
  create fs (partial_manifest_path path) (plain bytes)
  rename fs (partial_manifest_path path) path

-- An entry of a directory of the index cache.
pub record DirEntry : Type 0 where
  pub name : Text
  pub regular : Bool

-- `fs::remove_file` for the entries that a test picks; the first failure ends the call.
unfoldable pub remove_where :
    (Text → Bool) → (DirEntry → Bool) → List DirEntry → List DirEntry × Built (Unit {0})
remove_where removes test [] = ([], ok tt)
remove_where removes test (e ∷ entries) =
    let rest = remove_where removes test entries in
    if not (test e)
    then (e ∷ rest.0, rest.1)
    else if removes e.name
    then rest
    else (e ∷ entries, err file_failed)

abbrev pub is_index_extension : Option Text → Bool
is_index_extension none = false
is_index_extension (some ext) = text_eq ext (codes "parquet") || text_eq ext (codes "json")

abbrev pub holds_key : Option (Unit {0}) → Bool
holds_key none = false
holds_key (some u) = true

-- A regular Parquet or JSON file whose stem is no active block.
unfoldable pub is_stale : TextSet → DirEntry → Bool
is_stale active e =
    e.regular
    && (is_index_extension (extension e.name) && not (holds_key (lookup (file_stem e.name) active)))

-- `cleanup_index_files` on a directory, which may not be there.
unfoldable pub cleanup_index_files :
    (Text → Bool) → TextSet → Option (List DirEntry) → Option (List DirEntry) × Built (Unit {0})
unfolding remove_where is_stale
cleanup_index_files removes active none = (none, ok tt)
cleanup_index_files removes active (some entries) =
    let left = remove_where removes (is_stale active) entries in (some left.0, left.1)

abbrev found : Option Text → Bool
found none = false
found (some front) = true

abbrev is_parquet : Option Text → Bool
is_parquet none = false
is_parquet (some ext) = text_eq ext (codes "parquet")

unfoldable pub ends_with : Text → Text → Bool
unfolding strip_suffix
ends_with suffix value = found (strip_suffix suffix value)

-- A Parquet file of the chunk projection, or one that was not finished.
unfoldable pub is_legacy_chunk_projection : DirEntry → Bool
unfolding extension text_eq ends_with
is_legacy_chunk_projection e =
    e.regular && (is_parquet (extension e.name) || ends_with (codes ".parquet.partial") e.name)

unfoldable pub remove_chunk_index_files :
    (Text → Bool) → Option (List DirEntry) → Option (List DirEntry) × Built (Unit {0})
unfolding remove_where is_legacy_chunk_projection
remove_chunk_index_files removes none = (none, ok tt)
remove_chunk_index_files removes (some entries) =
    let left = remove_where removes is_legacy_chunk_projection entries in (some left.0, left.1)
