-- ===== src/TsdbIndex/Entry/Ends.antt =====
-- Each part of `parse_series` ends on every input; only the reservation of chunks may panic.
use thanos_datafusion_experi.Common.{
  ℕ, zero, suc, ◌+◌, ◌-◌, ◌*◌, ◌^◌, not, Option, none, some, List, [], leb, ◌==◌, length, get_elem?,
  Ends, returned, refused, fell, Ends-bind, Ends-ok_or, Ends-ensure, Bool-cases, Option-cases, inl,
  inr,
}
use thanos_datafusion_experi.Common.Int.{ℤ, pos, ◌+ℤ◌, i64_try_from, u64_try_from, checked_add_i64}
use thanos_datafusion_experi.Common.Text.{Bytes, Text}
use thanos_datafusion_experi.Common.Maps.{Labels, lookup}
use thanos_datafusion_experi.TsdbIndex.Reader.{
  symbol, unexpected_entry_bytes, overlapping_ranges, references_not_increasing,
}
use thanos_datafusion_experi.TsdbIndex.Entry.{
  insert_new, read_labels, read_mint, read_reference, starts_before, not_above, read_chunk,
  read_chunks, reserve_chunks, parse_series,
}
use thanos_datafusion_experi.TsdbIndex.Walk.Ends.{read_uvarint-Ends, read_varint-Ends}

insert_new-Ends :
    {P : Type 0} (name value : Text) (labels : Labels) → Ends P (insert_new name value labels)
unfolding insert_new
insert_new-Ends name value labels = elim (Option-cases (lookup name labels)) [
  | inl e ↦ rw (e, insert_new) returned
  | inr (v, e) ↦ rw (e, insert_new) refused
]

module _ {P : Type 0} where
  pub read_labels-Ends :
      (symbols : List Text) (bytes : Bytes) (count position : ℕ) (labels : Labels)
      → Ends P (read_labels symbols bytes count position labels)
  unfolding read_labels symbol
  read_labels-Ends symbols bytes zero position labels = returned
  read_labels-Ends symbols bytes (suc count) position labels =
      Ends-bind (read_uvarint-Ends bytes position) λ (name_ref, n) _.
        Ends-bind (read_uvarint-Ends bytes (position + n)) λ (value_ref, m) _.
          Ends-bind (Ends-ok_or (get_elem? symbols name_ref) _) λ name _.
            Ends-bind (Ends-ok_or (get_elem? symbols value_ref) _) λ value _.
              Ends-bind (insert_new-Ends name value labels)
                λ new _. read_labels-Ends symbols bytes count (position + n + m) new

  read_mint-Ends :
      (bytes : Bytes) (position : ℕ) (maxt : Option ℤ) → Ends P (read_mint bytes position maxt)
  unfolding read_mint
  read_mint-Ends bytes position none = Ends-bind (read_varint-Ends bytes position) λ _ _. returned
  read_mint-Ends bytes position (some maxt) =
      Ends-bind (read_uvarint-Ends bytes position) λ (delta, _) _.
        Ends-bind (Ends-ok_or (i64_try_from delta) _)
          λ d _. Ends-bind (Ends-ok_or (checked_add_i64 maxt d) _) λ _ _. returned

  read_reference-Ends :
      (bytes : Bytes) (position : ℕ) (previous : Option ℕ)
      → Ends P (read_reference bytes position previous)
  unfolding read_reference
  read_reference-Ends bytes position none =
      Ends-bind (read_uvarint-Ends bytes position) λ _ _. returned
  read_reference-Ends bytes position (some previous) =
      Ends-bind (read_varint-Ends bytes position) λ (delta, _) _.
        Ends-bind (Ends-ok_or (u64_try_from (pos previous +ℤ delta)) _) λ _ _. returned

  read_chunk-Ends :
      (bytes : Bytes) (position : ℕ) (maxt : Option ℤ) (previous : Option ℕ)
      → Ends P (read_chunk bytes position maxt previous)
  unfolding read_chunk
  read_chunk-Ends bytes position maxt previous =
      Ends-bind (read_mint-Ends bytes position maxt) λ (mint, after) _.
        Ends-bind (read_uvarint-Ends bytes after) λ (duration, size) _.
          Ends-bind (Ends-ok_or (i64_try_from duration) _) λ d _.
            Ends-bind (Ends-ok_or (checked_add_i64 mint d) _) λ _ _.
              Ends-bind (read_reference-Ends bytes (after + size) previous) λ (r, _) _.
                Ends-bind (Ends-ensure (not (starts_before maxt mint)) overlapping_ranges) λ _ _.
                  Ends-bind (Ends-ensure (not (not_above previous r)) references_not_increasing)
                    λ _ _. returned

  read_chunks-Ends :
      (bytes : Bytes) (count position : ℕ) (maxt : Option ℤ) (previous : Option ℕ)
      → Ends P (read_chunks bytes count position maxt previous)
  unfolding read_chunks
  read_chunks-Ends bytes zero position maxt previous = returned
  read_chunks-Ends bytes (suc count) position maxt previous =
      Ends-bind (read_chunk-Ends bytes position maxt previous) λ (c, after) _.
        Ends-bind (read_chunks-Ends bytes count after (some c.maxt) (some c.reference))
          λ _ _. returned

pub reserve_chunks-Ends : (n : ℕ) → Ends (Unit {0}) (reserve_chunks n)
unfolding reserve_chunks
reserve_chunks-Ends n = elim (Bool-cases (leb (n * 24) (2 ^ 63 - 1))) [
  | inl e ↦ rw e returned
  | inr e ↦ rw e (fell tt)
]

pub parse_series-Ends :
    (bytes : Bytes) (reference : ℕ) (symbols : List Text)
    → Ends (Unit {0}) (parse_series bytes reference symbols)
unfolding parse_series
parse_series-Ends bytes reference symbols =
    Ends-bind (read_uvarint-Ends bytes 0) λ (label_count, label_size) _.
      Ends-bind (read_labels-Ends symbols bytes label_count label_size []) λ (labels, after) _.
        Ends-bind (read_uvarint-Ends bytes after) λ (chunk_count, count_size) _.
          Ends-bind (reserve_chunks-Ends chunk_count) λ _ _.
            Ends-bind (read_chunks-Ends bytes chunk_count (after + count_size) none none)
              λ (chunks, position) _.
                Ends-bind (Ends-ensure (position == length bytes) unexpected_entry_bytes)
                  λ _ _. returned
