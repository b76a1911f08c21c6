-- ===== src/BlockIndex/Stream/Atomic.antt =====
-- `write_series_index_streaming` that fails: what it leaves on the disk.
use thanos_datafusion_experi.Common.{
  ℕ, ◌≡◌, refl, ◌∙◌, Bool, true, false, Option, none, some, [], ◌++◌, ok, err, panicked, stuck,
  ensure,
}
use thanos_datafusion_experi.Common.Text.{Bytes, Text, codes, text_eq}
use thanos_datafusion_experi.TsdbIndex.Reader.{Crates}
use thanos_datafusion_experi.TsdbIndex.Walk.{Run, parse_each}
use thanos_datafusion_experi.BlockIndex.Meta.{BlockMeta, SeriesIndexRow, Built, Json, writer_failed}
use thanos_datafusion_experi.BlockIndex.Paths.{local_path, file_name, parent, with_file_name}
use thanos_datafusion_experi.BlockIndex.Disk.{
  Disk, Act, LocalFs, Content, update, and_then, lift, put_if, create, move_if, drop_if,
  create_parent, name_or_error, ◌>>=◌, ◌>>◌, series_batches,
}
use thanos_datafusion_experi.BlockIndex.Stream.{
  Writer, SeriesRun, empty_run, flush_rows, visit_series, index_error, discard, publish_series,
  conclude_series, stream_opened, stream_named, write_series_index_streaming,
}

abbrev pub succeeded {ℓ} : {A : Type ℓ} → Built A → Bool
succeeded (ok a) = true
succeeded (err e) = false
succeeded panicked = false
succeeded stuck = false

-- The file that stands beside the published one while it is written.
abbrev beside : Text → Option Text → Text
beside path none = []
beside path (some name) = with_file_name path (name ++ codes ".partial")

abbrev pub temporary_path : Text → Text
temporary_path path = beside path (file_name path)

module _ (q : Text) where
  -- The act never changes the file at `q`, or not where it fails.
  abbrev Spares {ℓ} : {A : Type ℓ} → Act A → Type 0
  Spares act = (disk : Disk) → (act disk).0 q ≡ disk q

  abbrev SparesOnError {ℓ} : {A : Type ℓ} → Act A → Type 0
  SparesOnError act = (disk : Disk) → succeeded (act disk).1 ≡ false → (act disk).0 q ≡ disk q

  and_then-Spares {ℓ κ} :
      {A : Type ℓ} {B : Type κ} (r : Disk × Built A) (next : A → Act B) (disk : Disk)
      → r.0 q ≡ disk q
      → ((a : A) → SparesOnError (next a))
      → succeeded (and_then r next).1 ≡ false
      → (and_then r next).0 q ≡ disk q
  and_then-Spares (disk1, ok a) next disk kept rest e = rest a disk1 e ∙ kept
  and_then-Spares (disk1, err x) next disk kept rest e = kept
  and_then-Spares (disk1, panicked) next disk kept rest e = kept
  and_then-Spares (disk1, stuck) next disk kept rest e = kept

  update-Spares :
      (path : Text) (content : Option Content) (disk : Disk)
      → text_eq path q ≡ false
      → update disk path content q ≡ disk q
  unfolding update
  update-Spares path content disk apart = rw apart refl

  drop_if-Spares : (b : Bool) (path : Text) → text_eq path q ≡ false → Spares (drop_if b path)
  drop_if-Spares true path apart disk = update-Spares path none disk apart
  drop_if-Spares false path apart disk = refl

  put_if-Spares :
      (b : Bool) (path : Text) (content : Content)
      → text_eq path q ≡ false
      → Spares (put_if b path content)
  put_if-Spares true path content apart disk = update-Spares path (some content) disk apart
  put_if-Spares false path content apart disk = refl

  create_parent-Spares :
      (fs : LocalFs) (directory : Option Text) → Spares (create_parent fs directory)
  create_parent-Spares fs none disk = refl
  create_parent-Spares fs (some directory) disk = refl

  -- The rename is the last step: where it fails nothing was moved.
  move_if-SparesOnError {ℓ} :
      {A : Type ℓ} (b : Bool) (from to : Text) (a : A)
      → SparesOnError (move_if b from to >> lift (ok a))
  move_if-SparesOnError true from to a disk e = absurd (cc)
  move_if-SparesOnError false from to a disk e = refl

  discard-SparesOnError {ℓ} :
      {A : Type ℓ} (b : Bool) (path : Text) (r : Built (Unit {0})) (next : Act A)
      → text_eq path q ≡ false
      → SparesOnError next
      → SparesOnError (discard (drop_if b path) r next)
  discard-SparesOnError b path (ok u) next apart rest disk e = rest disk e
  discard-SparesOnError true path (err x) next apart rest disk e =
      update-Spares path none disk apart
  discard-SparesOnError false path (err x) next apart rest disk e = refl
  discard-SparesOnError b path panicked next apart rest disk e = refl
  discard-SparesOnError b path stuck next apart rest disk e = refl

  module _ (json : Json) (fs : LocalFs) (writer : Writer SeriesIndexRow) (temporary path : Text)
      (apart : text_eq temporary q ≡ false) where
    publish_series-SparesOnError :
        (s : SeriesRun) → SparesOnError (publish_series json fs writer temporary path s)
    unfolding publish_series
    publish_series-SparesOnError s disk =
        and_then-Spares (lift (flush_rows writer s.written s.series_rows) disk) _ disk refl
          λ written disk1 e.
            and_then-Spares
              (lift (ensure (writer.closes written) writer_failed)
                (update disk1 temporary (some (series_batches written))))
              _ disk1 (update-Spares temporary (some (series_batches written)) disk1 apart)
              (λ _.
                move_if-SparesOnError (fs.renames temporary path) temporary path
                  (s.series_count, s.chunk_count))
              e

    conclude_series-SparesOnError :
        (run : Run SeriesRun) → SparesOnError (conclude_series json fs writer temporary path run)
    unfolding conclude_series
    conclude_series-SparesOnError (s, parsed) disk e =
        discard-SparesOnError (fs.removes temporary) temporary (index_error parsed) _ apart
          (discard-SparesOnError (fs.removes temporary) temporary s.write_error _ apart
            (publish_series-SparesOnError s))
          (update disk temporary (some (series_batches s.written))) e
        ∙ update-Spares temporary (some (series_batches s.written)) disk apart

    stream_opened-SparesOnError :
        (run : Run SeriesRun) → SparesOnError (stream_opened json fs writer temporary path run)
    unfolding stream_opened
    stream_opened-SparesOnError run disk =
        and_then-Spares (lift (ensure writer.opens writer_failed) disk) _ disk refl
          (λ _. conclude_series-SparesOnError run)

  stream_named-SparesOnError :
      (json : Json) (fs : LocalFs) (writer : Writer SeriesIndexRow) (path name : Text)
      (run : Run SeriesRun)
      → text_eq (with_file_name path (name ++ codes ".partial")) q ≡ false
      → SparesOnError (stream_named json fs writer path run name)
  unfolding stream_named
  stream_named-SparesOnError json fs writer path name run apart disk =
      let temporary = with_file_name path (name ++ codes ".partial") in
      let opened = stream_opened json fs writer temporary path run in
      and_then-Spares (create_parent fs (parent path) disk)
        (λ _. create fs temporary (series_batches []) >> opened) disk
        (create_parent-Spares fs (parent path) disk)
        λ _ disk1.
          and_then-Spares (create fs temporary (series_batches []) disk1) (λ _. opened) disk1
            (put_if-Spares (fs.creates temporary) temporary (series_batches []) apart disk1)
            (λ _. stream_opened-SparesOnError json fs writer temporary path apart run)

  named-SparesOnError :
      (json : Json) (fs : LocalFs) (writer : Writer SeriesIndexRow) (path : Text)
      (name : Option Text) (run : Run SeriesRun)
      → text_eq (beside path name) q ≡ false
      → SparesOnError (name_or_error path name >>= stream_named json fs writer path run)
  named-SparesOnError json fs writer path none run apart disk e = refl
  named-SparesOnError json fs writer path (some name) run apart disk e =
      stream_named-SparesOnError json fs writer path name run apart disk e

-- A run of `write_series_index_streaming` that does not succeed changes no file but the temporary
-- one beside the index, so a published index is never damaged.
pub write_series_index_streaming_atomic :
    (json : Json) (fs : LocalFs) (writer : Writer SeriesIndexRow) (crates : Crates) (fuel : ℕ)
    (repository_uri : Text) (meta : BlockMeta) (block_path : Text) (index : Bytes)
    (series_index_path q : Text) (disk : Disk)
    → text_eq (temporary_path (local_path series_index_path)) q ≡ false
    → succeeded
        (write_series_index_streaming json fs writer crates fuel repository_uri meta block_path
          index series_index_path disk).1
      ≡ false
    → (write_series_index_streaming json fs writer crates fuel repository_uri meta block_path index
          series_index_path disk).0
        q
      ≡ disk q
unfolding write_series_index_streaming
write_series_index_streaming_atomic json fs writer crates fuel repository_uri meta block_path index
      series_index_path q disk apart =
    let path = local_path series_index_path in
    named-SparesOnError q json fs writer path (file_name path)
      (parse_each crates fuel index (visit_series json writer repository_uri meta block_path)
        empty_run)
      apart disk
