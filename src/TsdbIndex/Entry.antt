-- ===== src/TsdbIndex/Entry.antt =====
-- `parse_series` of tsdb_index.rs: the body of one series entry.
pub mod Ends
pub mod Whole
pub mod RoundTrip
pub mod Order
use thanos_datafusion_experi.Common.{
  ℕ, zero, suc, ◌+◌, ◌-◌, ◌*◌, ◌^◌, Bool, false, not, Option, none, some, List, [], ◌∷◌, ok, err,
  panicked, ◌>>=◌, ◌>>◌, ensure, ok_or, leb, ◌==◌, if◌then◌else◌, length,
}
use thanos_datafusion_experi.Common.Int.{
  ℤ, pos, ltb_ℤ, ◌+ℤ◌, i64_try_from, u64_try_from, checked_add_i64,
}
use thanos_datafusion_experi.Common.Text.{Bytes, Text}
use thanos_datafusion_experi.Common.Maps.{Labels, lookup, insert}
use thanos_datafusion_experi.TsdbIndex.Reader.{
  Res, read_uvarint, read_varint, symbol, duplicate_label, mint_delta_overflow, mint_overflow,
  duration_overflow, maxt_overflow, reference_out_of_range, overlapping_ranges,
  references_not_increasing, unexpected_entry_bytes,
}

pub record Chunk : Type 0 where
  pub mint : ℤ
  pub maxt : ℤ
  pub reference : ℕ

pub record Series : Type 0 where
  pub reference : ℕ
  pub labels : Labels
  pub chunks : List Chunk

-- `labels.insert(name, value).is_some()` is an error.
unfoldable pub insert_new : Text → Text → Labels → Res Labels
insert_new name value labels = elim (lookup name labels) [
  | none ↦ ok (insert name value labels)
  | some _ ↦ err duplicate_label
]

-- `for _ in 0..label_count`
unfoldable pub read_labels : List Text → Bytes → ℕ → ℕ → Labels → Res (Labels × ℕ)
unfolding read_uvarint symbol insert_new
read_labels symbols bytes zero position labels = ok (labels, position)
read_labels symbols bytes (suc count) position labels = do
  (name_ref, name_size) ← read_uvarint bytes position
  (value_ref, value_size) ← read_uvarint bytes (position + name_size)
  name ← symbol symbols name_ref
  value ← symbol symbols value_ref
  labels' ← insert_new name value labels
  read_labels symbols bytes count (position + name_size + value_size) labels'

-- The first minimum time is written whole, each later one as the distance from the last `maxt`.
unfoldable pub read_mint : Bytes → ℕ → Option ℤ → Res (ℤ × ℕ)
unfolding read_uvarint read_varint i64_try_from checked_add_i64
read_mint bytes position none = do
  (value, size) ← read_varint bytes position
  ok (value, position + size)
read_mint bytes position (some maxt) = do
  (delta, size) ← read_uvarint bytes position
  delta' ← ok_or (i64_try_from delta) mint_delta_overflow
  mint ← ok_or (checked_add_i64 maxt delta') mint_overflow
  ok (mint, position + size)

-- The first reference is written whole, each later one as a signed difference.
unfoldable pub read_reference : Bytes → ℕ → Option ℕ → Res (ℕ × ℕ)
unfolding read_uvarint read_varint u64_try_from ◌+ℤ◌
read_reference bytes position none = do
  (value, size) ← read_uvarint bytes position
  ok (value, position + size)
read_reference bytes position (some previous) = do
  (delta, size) ← read_varint bytes position
  value ← ok_or (u64_try_from (pos previous +ℤ delta)) reference_out_of_range
  ok (value, position + size)

unfoldable pub starts_before : Option ℤ → ℤ → Bool
starts_before none mint = false
starts_before (some previous) mint = ltb_ℤ mint previous

unfoldable pub not_above : Option ℕ → ℕ → Bool
not_above none reference = false
not_above (some previous) reference = leb reference previous

-- One round of `for _ in 0..chunk_count`.
unfoldable pub read_chunk : Bytes → ℕ → Option ℤ → Option ℕ → Res (Chunk × ℕ)
unfolding read_mint read_reference starts_before not_above read_uvarint i64_try_from checked_add_i64
read_chunk bytes position previous_maxt previous_reference = do
  (mint, after_mint) ← read_mint bytes position previous_maxt
  (duration, size) ← read_uvarint bytes after_mint
  duration' ← ok_or (i64_try_from duration) duration_overflow
  maxt ← ok_or (checked_add_i64 mint duration') maxt_overflow
  (reference, after) ← read_reference bytes (after_mint + size) previous_reference
  ensure (not (starts_before previous_maxt mint)) overlapping_ranges
  ensure (not (not_above previous_reference reference)) references_not_increasing
  ok (record { mint = mint; maxt = maxt; reference = reference }, after)

unfoldable pub read_chunks : Bytes → ℕ → ℕ → Option ℤ → Option ℕ → Res (List Chunk × ℕ)
unfolding read_chunk
read_chunks bytes zero position previous_maxt previous_reference = ok ([], position)
read_chunks bytes (suc count) position previous_maxt previous_reference = do
  (chunk, after) ← read_chunk bytes position previous_maxt previous_reference
  (chunks, end) ← read_chunks bytes count after (some chunk.maxt) (some chunk.reference)
  ok (chunk ∷ chunks, end)

-- `Vec::<Chunk>::with_capacity(n)` panics where `n` chunks of 24 bytes pass `isize::MAX`.
unfoldable pub reserve_chunks : ℕ → Res (Unit {0})
reserve_chunks count = if leb (count * 24) (2 ^ 63 - 1) then ok tt else panicked

unfoldable pub parse_series : Bytes → ℕ → List Text → Res Series
unfolding read_uvarint read_labels reserve_chunks read_chunks
parse_series bytes reference symbols = do
  (label_count, label_size) ← read_uvarint bytes 0
  (labels, after_labels) ← read_labels symbols bytes label_count label_size []
  (chunk_count, count_size) ← read_uvarint bytes after_labels
  reserve_chunks chunk_count
  (chunks, position) ← read_chunks bytes chunk_count (after_labels + count_size) none none
  ensure (position == length bytes) unexpected_entry_bytes
  ok (record { reference = reference; labels = labels; chunks = chunks })
