-- ===== src/BlockIndex/Build/Reuse.antt =====
-- A block that was built is found again: the manifest against the build.
use thanos_datafusion_experi.Common.{
  ℕ, ◌≡◌, refl, sym, ap, subst, ◌∙◌, true, false, Option, none, some, ok, err, panicked, stuck,
  ok_or, Ensures, holds, Ensures-bind, Ensures-of, Ensures-eq-ok,
}
use thanos_datafusion_experi.Common.Text.{Bytes, Text, text_eq_refl}
use thanos_datafusion_experi.BlockIndex.Meta.{
  MetricLabels, BlockIndexRow, BlockBuildTask, BuiltBlockIndex, CachedBlockIndex, Built, Json,
  json_failed,
}
use thanos_datafusion_experi.BlockIndex.Paths.{
  series_index_file_path, block_manifest_file_path, local_path,
}
use thanos_datafusion_experi.BlockIndex.Rows.{index_row}
use thanos_datafusion_experi.BlockIndex.Disk.{
  Disk, LocalFs, Content, and_then-eq-ok, lift, read_file, plain, series_batches,
}
use thanos_datafusion_experi.BlockIndex.Stream.{write_series_index_streaming}
use thanos_datafusion_experi.BlockIndex.Stream.Publish.{write_series_index_streaming-IsPublished}
use thanos_datafusion_experi.BlockIndex.Files.{
  index_path_of, reused, manifest_matches, manifest_answer, accept_manifest, write_block_manifest,
  load_cached_block_index,
}
use thanos_datafusion_experi.BlockIndex.Files.Manifest.{write_block_manifest-Left}
use thanos_datafusion_experi.BlockIndex.Build.{
  BuildWorld, write_indexes, record_block, finish_block, process_index, build_chunk_index, rejoined,
  on_worker,
}
use thanos_datafusion_experi.BlockIndex.Discover.{ObjectStore, io}

read_file-plain :
    (fs : LocalFs) (disk : Disk) (path : Text) (bytes : Bytes)
    → fs.read_error path ≡ none
    → disk path ≡ some (plain bytes)
    → read_file fs disk path ≡ ok bytes
unfolding read_file
read_file-plain fs disk path bytes e m = rw (e, read_file) (rw m refl)

load_cached-reused :
    (json : Json) (fs : LocalFs) (task : BlockBuildTask) (location : Text) (disk : Disk)
    (content : Content) (bytes : Bytes) (cached : CachedBlockIndex)
    → disk (series_index_file_path location task.meta.ulid) ≡ some content
    → fs.read_error (block_manifest_file_path location task.meta.ulid) ≡ none
    → disk (block_manifest_file_path location task.meta.ulid) ≡ some (plain bytes)
    → json.read_manifest bytes ≡ some cached
    → manifest_matches task false cached ≡ true
    → load_cached_block_index json fs task location false disk
      ≡ ok (some (reused task (series_index_file_path location task.meta.ulid) cached))
unfolding load_cached_block_index manifest_answer accept_manifest
load_cached-reused json fs task location disk content bytes cached s e m j k =
    let read =
      read_file-plain fs disk (block_manifest_file_path location task.meta.ulid) bytes e m in
    rw s (rw (read, manifest_answer) (rw (j, accept_manifest) (rw (k, accept_manifest) refl)))

-- The row of a block names the block.
abbrev Names : BlockBuildTask → BlockIndexRow → Type 0
Names task row =
    (row.block_ulid ≡ task.meta.ulid)
    × (row.repository_name ≡ task.repository.name)
    × (row.repository_uri ≡ task.repository.uri)
    × (row.block_path ≡ task.block_path)
    × (row.meta_path ≡ task.meta_path)

index_row-Names :
    (json : Json) (task : BlockBuildTask)
    → Ensures (Names task) (index_row json task.repository task.meta task.block_path task.meta_path)
unfolding index_row
index_row-Names json task =
    Ensures-bind
      (Ensures-of (λ _. Unit {0}) (ok_or (json.labels_string task.meta.thanos.labels) json_failed)
        (λ _ _. tt))
      λ _ _.
        Ensures-bind
          (Ensures-of (λ _. Unit {0}) (ok_or (json.files_string task.meta.thanos.files) json_failed)
            (λ _ _. tt))
          λ _ _. holds (refl, refl, refl, refl, refl)

matches_own :
    (task : BlockBuildTask) (row : BlockIndexRow) (series_count chunk_count : ℕ)
    (metric_labels : MetricLabels)
    → Names task row
    → manifest_matches task false (record {
      row = row;
      materialize_chunk_index = false;
      series_count = series_count;
      chunk_count = chunk_count;
      metric_labels = metric_labels;
    })
      ≡ true
unfolding manifest_matches
matches_own task row series_count chunk_count metric_labels (a, b, c, d, e) =
    rw (a, b, c, d, e)
      (rw
        (
          text_eq_refl task.meta.ulid,
          text_eq_refl task.repository.name,
          text_eq_refl task.repository.uri,
          text_eq_refl task.block_path,
          text_eq_refl task.meta_path,
        )
        refl)

rejoined-eq-ok {ℓ} :
    {A : Type ℓ} (r : Disk × Built A) (disk' : Disk) (a : A)
    → rejoined r ≡ (disk', ok a)
    → r ≡ (disk', ok a)
rejoined-eq-ok (disk, ok b) disk' a e = e
rejoined-eq-ok (disk, err x) disk' a e = absurd (cc)
rejoined-eq-ok (disk, panicked) disk' a e = absurd (cc)
rejoined-eq-ok (disk, stuck) disk' a e = absurd (cc)

whole {ℓ} : {A : Type ℓ} (r : Disk × Built A) (a : A) → r.1 ≡ ok a → r ≡ (r.0, ok a)
whole (disk, b) a e = rw e refl

abbrev found : Built BuiltBlockIndex → Built (Option BuiltBlockIndex)
found (ok built) = ok (some built)
found _ = ok none

-- The manifest that goes with a block that was built without the chunk index.
abbrev pub manifest_of : BuiltBlockIndex → CachedBlockIndex
manifest_of built = record {
  row = built.row;
  materialize_chunk_index = false;
  series_count = built.series_count;
  chunk_count = built.chunk_count;
  metric_labels = built.metric_labels;
}

-- serde_json reads back the manifest that it has written.
abbrev pub Decodes : Json → BuiltBlockIndex → Type 0
Decodes json built =
    (bytes : Bytes)
    → json.write_manifest (manifest_of built) ≡ some bytes
    → json.read_manifest bytes ≡ some (manifest_of built)

abbrev or_else : BuiltBlockIndex → Built BuiltBlockIndex → BuiltBlockIndex
or_else other (ok built) = built
or_else other _ = other

module _ (w : BuildWorld) (task : BlockBuildTask) where
  abbrev location : Text
  location = w.index_cache_location

  abbrev series_path : Text
  series_path = series_index_file_path location task.meta.ulid

  abbrev answer_of : CachedBlockIndex → Text → BuiltBlockIndex
  answer_of cached block_ulid = record (reused task series_path cached) { block_ulid = block_ulid }

  module _ (readable : w.fs.read_error (block_manifest_file_path location task.meta.ulid) ≡ none)
      (content : Content) (disk disk' : Disk) (there : disk series_path ≡ some content)
      (built : BuiltBlockIndex) (decodes : Decodes w.json built) where
    record_block-reloads :
        (counts : ℕ × ℕ × MetricLabels) (row : BlockIndexRow)
        → Names task row
        → record_block w false task counts row disk ≡ (disk', ok built)
        → load_cached_block_index w.json w.fs task location false disk' ≡ ok (some built)
    unfolding record_block
    record_block-reloads (n, c, labels) row names e =
        let cached : CachedBlockIndex = record {
          row = row;
          materialize_chunk_index = false;
          series_count = n;
          chunk_count = c;
          metric_labels = labels;
        } in
        let written = write_block_manifest w.json w.fs location task.meta.ulid cached disk in
        let (u, p, q) = and_then-eq-ok written _ disk' built e in
        let same_disk = ap (λ r. r.0) q in
        let decodes' = subst (Decodes w.json) (sym (ap (λ r. or_else built r.1) q)) decodes in
        let left =
          write_block_manifest-Left w.json w.fs location task.meta.ulid cached disk disk'
            (whole written tt p ∙ ap (λ d. (d, ok tt)) same_disk) in
        load_cached-reused w.json w.fs task location disk' content left.bytes cached
          (left.kept ∙ there) readable left.there (decodes' left.bytes left.encoded)
          (matches_own task row n c labels names)
        ∙ (ap (λ u. ok (some (answer_of cached u))) names.0 ∙ ap (λ r. found r.1) q)

    finish_block-reloads :
        (counts : ℕ × ℕ × MetricLabels)
        → finish_block w false task counts disk ≡ (disk', ok built)
        → load_cached_block_index w.json w.fs task location false disk' ≡ ok (some built)
    unfolding finish_block
    finish_block-reloads counts e =
        let row' = index_row w.json task.repository task.meta task.block_path task.meta_path in
        let (row, p, q) =
          and_then-eq-ok (lift row' disk) (record_block w false task counts) disk' built e in
        record_block-reloads counts row (Ensures-eq-ok (index_row-Names w.json task) p) q

  module _ (index : Bytes) where
    write_indexes-there :
        (disk disk' : Disk) (counts : ℕ × ℕ × MetricLabels)
        → write_indexes w false task index disk ≡ (disk', ok counts)
        → (content : Content) × (disk' (local_path series_path) ≡ some content)
    unfolding write_indexes
    write_indexes-there disk disk' counts e =
        let written =
          write_series_index_streaming w.json w.fs w.series_writer w.crates w.fuel
            task.repository.uri task.meta task.block_path index series_path disk in
        let ((n, c), p, q) = and_then-eq-ok written _ disk' counts e in
        let published =
          write_series_index_streaming-IsPublished w.json w.fs w.series_writer w.crates w.fuel
            task.repository.uri task.meta task.block_path index series_path disk written.0 (n, c)
            (whole written (n, c) p) in
        (
          series_batches published.batches,
          ap (λ d. d (local_path series_path)) (sym (ap (λ r. r.0) q)) ∙ published.there,
        )

    process_index-reloads :
        (disk disk' : Disk) (built : BuiltBlockIndex)
        → Decodes w.json built
        → w.fs.read_error (block_manifest_file_path location task.meta.ulid) ≡ none
        → local_path series_path ≡ series_path
        → process_index w false task index disk ≡ (disk', ok built)
        → load_cached_block_index w.json w.fs task location false disk' ≡ ok (some built)
    unfolding process_index
    process_index-reloads disk disk' built decodes readable plain_path e =
        let written = write_indexes w false task index disk in
        let (counts, p, q) = and_then-eq-ok written (finish_block w false task) disk' built e in
        let (content, there) = write_indexes-there disk written.0 counts (whole written counts p) in
        finish_block-reloads readable content written.0 disk'
          (ap written.0 (sym plain_path) ∙ there) built decodes counts q

-- After a block was built without the chunk index, `load_cached_block_index` on the disk that the
-- build leaves returns what the build has returned, where the manifest decodes to what was
-- encoded, its file can be read, and the path of the series index does not begin with `file://`.
pub build_chunk_index-reloads :
    (w : BuildWorld) (task : BlockBuildTask) (store : ObjectStore) (disk disk' : Disk)
    (built : BuiltBlockIndex)
    → Decodes w.json built
    → w.fs.read_error (block_manifest_file_path w.index_cache_location task.meta.ulid) ≡ none
    → local_path (series_index_file_path w.index_cache_location task.meta.ulid)
      ≡ series_index_file_path w.index_cache_location task.meta.ulid
    → build_chunk_index w false store task disk ≡ (disk', ok built)
    → load_cached_block_index w.json w.fs task w.index_cache_location false disk' ≡ ok (some built)
unfolding build_chunk_index
build_chunk_index-reloads w task store disk disk' built decodes readable plain_path e =
    let (index, _, q) =
      and_then-eq-ok (lift (io (store.read (index_path_of task.block_path))) disk)
        (λ index. on_worker (process_index w false task index)) disk' built e in
    process_index-reloads w task index disk disk' built decodes readable plain_path
      (rejoined-eq-ok (process_index w false task index disk) disk' built q)
