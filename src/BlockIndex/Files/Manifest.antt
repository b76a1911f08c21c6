-- ===== src/BlockIndex/Files/Manifest.antt =====
-- What `write_block_manifest` leaves on the disk.
use thanos_datafusion_experi.Common.{
  ◌≡◌, refl, sym, ap, ◌∙◌, Bool, true, false, Option, none, some, ok, ok_or,
}
use thanos_datafusion_experi.Common.Text.{Bytes, Text, text_eq, text_eq_refl}
use thanos_datafusion_experi.BlockIndex.Meta.{CachedBlockIndex, Json, json_failed}
use thanos_datafusion_experi.BlockIndex.Paths.{
  block_manifest_file_path, series_index_file_path, parent, file_name,
}
use thanos_datafusion_experi.BlockIndex.Paths.Apart.{manifest_apart, beside_apart}
use thanos_datafusion_experi.BlockIndex.Disk.{
  Disk, LocalFs, Content, update, lift, put_if, create, rename, move_if, create_parent, skip_check,
  skip_parent, ◌>>=◌, ◌>>◌, plain,
}
use thanos_datafusion_experi.BlockIndex.Files.{
  no_parent, stem_of, partial_manifest_path, write_block_manifest,
}

-- From the open file on.
put_and_move :
    (creates renames : Bool) (partial path q : Text) (content : Content) (disk disk' : Disk)
    → text_eq partial q ≡ false
    → text_eq path q ≡ false
    → (put_if creates partial content >> move_if renames partial path) disk ≡ (disk', ok tt)
    → (disk' path ≡ some content) × (disk' q ≡ disk q)
unfolding update
put_and_move true true partial path q content disk disk' a b e = (
  sym (ap (λ r. r.0 path) e) ∙ rw (text_eq_refl path, text_eq_refl partial) refl,
  sym (ap (λ r. r.0 q) e) ∙ rw (a, b) refl,
)
put_and_move true false partial path q content disk disk' a b e = absurd (cc)
put_and_move false renames partial path q content disk disk' a b e = absurd (cc)

module _ (json : Json) (fs : LocalFs) (location ulid : Text) (cached : CachedBlockIndex)
    (disk disk' : Disk) where
  abbrev pub manifest_path : Text
  manifest_path = block_manifest_file_path location ulid

  abbrev pub series_path : Text
  series_path = series_index_file_path location ulid

  -- The manifest is there, and the series index has been left alone.
  pub record Left : Type 0 where
    pub bytes : Bytes
    pub encoded : json.write_manifest cached ≡ some bytes
    pub there : disk' manifest_path ≡ some (plain bytes)
    pub kept : disk' series_path ≡ disk series_path

  abbrev partial : Text
  partial = partial_manifest_path manifest_path

  partial_apart : text_eq partial series_path ≡ false
  unfolding partial_manifest_path
  partial_apart = beside_apart location ulid manifest_path (stem_of (file_name manifest_path))

  encoded_and_moved :
      (o : Option Bytes)
      → json.write_manifest cached ≡ o
      → (lift (ok_or o json_failed) >>= λ bytes.
            (create fs partial (plain bytes) >> rename fs partial manifest_path))
          disk
        ≡ (disk', ok tt)
      → Left
  encoded_and_moved none e r = absurd (cc)
  encoded_and_moved (some bytes) e r =
      let m =
        put_and_move (fs.creates partial) (fs.renames partial manifest_path) partial manifest_path
          series_path (plain bytes) disk disk' partial_apart (manifest_apart location ulid) r in
      record { bytes = bytes; encoded = e; there = m.0; kept = m.1 }

  pub write_block_manifest-Left :
      write_block_manifest json fs location ulid cached disk ≡ (disk', ok tt) → Left
  unfolding write_block_manifest
  write_block_manifest-Left e =
      let encode = lift (ok_or (json.write_manifest cached) json_failed) >>= λ bytes.
      (create fs partial (plain bytes) >> rename fs partial manifest_path) in
      let e1 =
        skip_check (create_parent fs (parent manifest_path) >> encode) disk disk' tt
          (no_parent manifest_path (parent manifest_path)) e in
      let e2 = skip_parent encode disk disk' tt fs (parent manifest_path) e1 in
      encoded_and_moved (json.write_manifest cached) refl e2
