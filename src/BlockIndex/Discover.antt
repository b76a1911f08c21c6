-- ===== src/BlockIndex/Discover.antt =====
-- The metadata phase of `build_block_index`: which objects are blocks, in which order they are
-- examined, and which of them are built.
use thanos_datafusion_experi.Common.{
  ℕ, ◌-◌, Bool, false, Option, none, some, List, [], ◌∷◌, ◌++◌, ok, err, panicked, stuck, ◌>>=◌,
  ok_or, if◌then◌else◌,
}
use thanos_datafusion_experi.Common.Int.{pos, ltb_ℤ}
use thanos_datafusion_experi.Common.Text.{Bytes, Text, codes, text_ltb}
use thanos_datafusion_experi.Common.Maps.{insert}
use thanos_datafusion_experi.Config.{RepositoryConfig, strip_suffix}
use thanos_datafusion_experi.Storage.Reader.{IoResult, not_found}
use thanos_datafusion_experi.BlockIndex.Meta.{
  TextSet, BlockMeta, MetaReadTask, BlockBuildTask, MetaReadResult, Built, Json, build, skipped_old,
  skipped_deleted, io_failed, json_failed, invalid_metadata_path,
}
use thanos_datafusion_experi.BlockIndex.Files.{ends_with}

-- What the module asks of the object store of a repository.
pub record ObjectStore : Type 0 where
  pub list : IoResult (List Text)
  pub exists : Text → IoResult Bool
  pub read : Text → IoResult Bytes

-- `RepositoryRegistry` by the configuration: `storage.require(&repository.uri)`.
abbrev pub Stores : Type 0
Stores = RepositoryConfig → Built ObjectStore

abbrev pub io {ℓ} : {A : Type ℓ} → IoResult A → Built A
io (ok a) = ok a
io (err e) = err (io_failed e)
io panicked = panicked
io stuck = stuck

-- The entries of one listing.
unfoldable pub tasks_of : RepositoryConfig → List Text → Built (List MetaReadTask)
unfolding ends_with strip_suffix
tasks_of repository [] = ok []
tasks_of repository (meta_path ∷ paths) =
    let rest = tasks_of repository paths in
    let there = do
      block_path ←
          ok_or (strip_suffix (codes "/meta.json") meta_path) (invalid_metadata_path meta_path)
      tasks ← rest
      ok (
          record { repository = repository; block_path = block_path; meta_path = meta_path }
          ∷ tasks)
    in if ends_with (codes "meta.json") meta_path then there else rest

-- `for repository in repositories`
unfoldable pub discover : Stores → List RepositoryConfig → Built (List MetaReadTask)
unfolding tasks_of
discover stores [] = ok []
discover stores (repository ∷ repositories) = do
  store ← stores repository
  paths ← io store.list
  tasks ← tasks_of repository paths
  rest ← discover stores repositories
  ok (tasks ++ rest)

-- A stable insertion sort, the greatest block path first, in place of `sort_unstable_by`.
unfoldable pub insert_task : MetaReadTask → List MetaReadTask → List MetaReadTask
unfolding text_ltb
insert_task task [] = task ∷ []
insert_task task (t ∷ tasks) =
    let rest = insert_task task tasks in
    if text_ltb task.block_path t.block_path then t ∷ rest else task ∷ t ∷ tasks

unfoldable pub newest_first : List MetaReadTask → List MetaReadTask
unfolding insert_task
newest_first [] = []
newest_first (task ∷ tasks) = insert_task task (newest_first tasks)

-- `block_is_older_than`, the age and the time since the epoch in milliseconds, both whole.
unfoldable pub block_is_older_than : ℕ → BlockMeta → Option ℕ → Bool
block_is_older_than now meta none = false
block_is_older_than now meta (some max_age) = ltb_ℤ meta.max_time (pos (now - max_age))

abbrev deletion_mark_path : Text → Text
deletion_mark_path [] = codes "deletion-mark.json"
deletion_mark_path (c ∷ block_path) = (c ∷ block_path) ++ codes "/deletion-mark.json"

unfoldable pub block_has_deletion_mark : ObjectStore → Text → Built Bool
block_has_deletion_mark store block_path = io (store.exists (deletion_mark_path block_path))

module _ (json : Json) (now : ℕ) (max_age : Option ℕ) (store : ObjectStore) where
  -- What becomes of metadata that was read: `from_slice`, and the age of the block.
  unfoldable pub examine : MetaReadTask → IoResult Bytes → Built MetaReadResult
  unfolding block_is_older_than
  examine task (ok contents) = do
    meta ← ok_or (json.read_meta contents) json_failed
    let task' : BlockBuildTask = record {
      repository = task.repository;
      meta = meta;
      block_path = task.block_path;
      meta_path = task.meta_path;
    }
    ok (if block_is_older_than now meta max_age then skipped_old else build task')
  examine task (err not_found) = ok skipped_deleted
  examine task (err e) = err (io_failed e)
  examine task panicked = panicked
  examine task stuck = stuck

  unfoldable pub read_block_meta : MetaReadTask → Built MetaReadResult
  unfolding block_has_deletion_mark examine
  read_block_meta task = do
    marked ← block_has_deletion_mark store task.block_path
    if marked then ok skipped_deleted else examine task (store.read task.meta_path)

-- `for result in meta_read_results`
unfoldable pub tasks_to_build : List MetaReadResult → List BlockBuildTask
tasks_to_build [] = []
tasks_to_build (build task ∷ results) = task ∷ tasks_to_build results
tasks_to_build (skipped_old ∷ results) = tasks_to_build results
tasks_to_build (skipped_deleted ∷ results) = tasks_to_build results

-- `tasks.iter().map(|task| task.meta.ulid.clone()).collect()`
unfoldable pub active_block_ulids : List BlockBuildTask → TextSet
unfolding insert
active_block_ulids [] = []
active_block_ulids (task ∷ tasks) = insert task.meta.ulid tt (active_block_ulids tasks)
