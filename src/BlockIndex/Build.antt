-- ===== src/BlockIndex/Build.antt =====
-- The build phase of `build_block_index`, and the build of one block.
pub mod Reuse
pub mod Tables
pub mod Sorted
use Prim.Native.Nat.{Ordering}
use thanos_datafusion_experi.Common.{
  ℕ, Bool, true, false, Option, none, some, List, [], ◌∷◌, ◌++◌, map, ok, err, panicked, stuck,
  if◌then◌else◌,
}
use thanos_datafusion_experi.Common.Int.{ℤ}
use thanos_datafusion_experi.Common.Compare.{text_cmp, int_cmp, pair_cmp}
use thanos_datafusion_experi.Common.Text.{Bytes, Text}
use thanos_datafusion_experi.TsdbIndex.Reader.{Crates}
use thanos_datafusion_experi.BlockIndex.Meta.{
  MetricLabels, MetricTableSchema, BlockIndexRow, ChunkIndexRow, SeriesIndexRow, BlockBuildTask,
  BuiltBlockIndex, CachedBlockIndex, Built, Json, worker_failed,
}
use thanos_datafusion_experi.BlockIndex.Paths.{chunk_index_file_path, series_index_file_path}
use thanos_datafusion_experi.BlockIndex.Rows.{index_row}
use thanos_datafusion_experi.BlockIndex.Labels.{merge_metric_labels, table_schemas}
use thanos_datafusion_experi.BlockIndex.Disk.{Disk, Act, LocalFs, ◌>>=◌, ◌>>◌, lift}
use thanos_datafusion_experi.BlockIndex.Stream.{Writer, write_series_index_streaming}
use thanos_datafusion_experi.BlockIndex.Expanded.{write_chunk_and_series_index_streaming}
use thanos_datafusion_experi.BlockIndex.Files.{
  index_path_of, reused, write_block_manifest, load_cached_block_index,
}
use thanos_datafusion_experi.BlockIndex.Discover.{ObjectStore, io}

-- `spawn_blocking`: a panic of the worker becomes an error of the call.
abbrev pub rejoined {ℓ} : {A : Type ℓ} → Disk × Built A → Disk × Built A
rejoined (disk, ok a) = (disk, ok a)
rejoined (disk, err e) = (disk, err e)
rejoined (disk, panicked) = (disk, err worker_failed)
rejoined (disk, stuck) = (disk, stuck)

abbrev pub on_worker {ℓ} : {A : Type ℓ} → Act A → Act A
on_worker act disk = rejoined (act disk)

-- The crates, the disk and the writers that a build works with, and the location of the cache.
pub record BuildWorld : Type 0 where
  pub json : Json
  pub fs : LocalFs
  pub crates : Crates
  pub fuel : ℕ
  pub chunk_writer : Writer ChunkIndexRow
  pub series_writer : Writer SeriesIndexRow
  pub index_cache_location : Text

module _ (w : BuildWorld) where
  -- `if materialize_chunk_index { .. } else { .. }`
  unfoldable pub write_indexes : Bool → BlockBuildTask → Bytes → Act (ℕ × ℕ × MetricLabels)
  unfolding chunk_index_file_path series_index_file_path write_chunk_and_series_index_streaming
      write_series_index_streaming
  write_indexes true task index =
      write_chunk_and_series_index_streaming w.fs w.chunk_writer w.series_writer w.json w.crates
        w.fuel task.repository task.meta task.block_path index
        (chunk_index_file_path w.index_cache_location task.meta.ulid)
        (series_index_file_path w.index_cache_location task.meta.ulid)
  write_indexes false task index = do
    (series_count, chunk_count) ←
        write_series_index_streaming w.json w.fs w.series_writer w.crates w.fuel task.repository.uri
          task.meta task.block_path index
          (series_index_file_path w.index_cache_location task.meta.ulid)
    lift (ok (series_count, chunk_count, []))

module _ (w : BuildWorld) (materialize : Bool) where
  -- The manifest for a row, and the answer.
  unfoldable pub record_block :
      BlockBuildTask → ℕ × ℕ × MetricLabels → BlockIndexRow → Act BuiltBlockIndex
  unfolding write_block_manifest series_index_file_path
  record_block task (series_count, chunk_count, metric_labels) row = do
    let cached : CachedBlockIndex = record {
      row = row;
      materialize_chunk_index = materialize;
      series_count = series_count;
      chunk_count = chunk_count;
      metric_labels = metric_labels;
    }
    write_block_manifest w.json w.fs w.index_cache_location task.meta.ulid cached
    lift (
        ok (record {
          row = row;
          block_ulid = task.meta.ulid;
          block_path = task.block_path;
          index_path = index_path_of task.block_path;
          series_index_path = series_index_file_path w.index_cache_location task.meta.ulid;
          series_count = series_count;
          chunk_count = chunk_count;
          metric_labels = metric_labels;
        }))

  -- What follows the index files.
  unfoldable pub finish_block : BlockBuildTask → ℕ × ℕ × MetricLabels → Act BuiltBlockIndex
  unfolding index_row record_block
  finish_block task counts = do
    row ← lift (index_row w.json task.repository task.meta task.block_path task.meta_path)
    record_block task counts row

  -- What the blocking worker does with the bytes of the TSDB index.
  unfoldable pub process_index : BlockBuildTask → Bytes → Act BuiltBlockIndex
  unfolding write_indexes finish_block
  process_index task index = do
    counts ← write_indexes w materialize task index
    finish_block task counts

  unfoldable pub build_chunk_index : ObjectStore → BlockBuildTask → Act BuiltBlockIndex
  unfolding process_index
  build_chunk_index store task = do
    index ← lift (io (store.read (index_path_of task.block_path)))
    on_worker (process_index task index)

  abbrev or_build : ObjectStore → BlockBuildTask → Option BuiltBlockIndex → Act BuiltBlockIndex
  or_build store task none = build_chunk_index store task
  or_build store task (some cached) = lift (ok cached)

  -- `match load_cached_block_index(..)?`
  unfoldable pub reuse_or_build : ObjectStore → BlockBuildTask → Act BuiltBlockIndex
  unfolding load_cached_block_index build_chunk_index
  reuse_or_build store task disk =
      (lift (load_cached_block_index w.json w.fs task w.index_cache_location materialize disk)
          >>= or_build store task)
        disk

-- `for built in built_indexes`, in the order in which the builds have ended.
unfoldable pub merge_all : List BuiltBlockIndex → MetricLabels → MetricLabels
unfolding merge_metric_labels
merge_all [] metric_labels = metric_labels
merge_all (built ∷ rest) metric_labels =
    merge_all rest (merge_metric_labels built.metric_labels metric_labels)

-- The order of `(repository_name, min_time, block_ulid)`.
abbrev pub row_key : BlockIndexRow → Text × (ℤ × Text)
row_key row = (row.repository_name, (row.min_time, row.block_ulid))

unfoldable pub row_cmp : BlockIndexRow → BlockIndexRow → Ordering
unfolding text_cmp int_cmp
row_cmp left right = pair_cmp text_cmp (pair_cmp int_cmp text_cmp) (row_key left) (row_key right)

-- `[T]::sort_by`
abbrev pub SortBy : Type 0
SortBy = (BlockIndexRow → BlockIndexRow → Ordering) → List BlockIndexRow → List BlockIndexRow

-- The rows of the block index and the tables, from the builds.
unfoldable pub summarize :
    SortBy → List BuiltBlockIndex → List BlockIndexRow × List MetricTableSchema
unfolding merge_all row_cmp table_schemas
summarize sort_by built =
    (sort_by row_cmp (map (λ b. b.row) built), table_schemas (merge_all built []))
