-- ===== src/Storage/Reader.antt =====
-- The `RangeReader` of storage/mod.rs, and `io::Error` with the texts of the modules that raise it.
use thanos_datafusion_experi.Common.{ℕ, Outcome}
use thanos_datafusion_experi.Common.Text.{Bytes, Text}

-- What chunk_reader.rs gives `invalid_data`, one constructor for each text.
pub data ChunkFault : Type 0 where
  record_length_overflow truncated_record truncated_checksum length_mismatch crc_mismatch :
      ChunkFault
  truncated_slot slot_length_overflow truncated_slot_payload trailing_bytes : ChunkFault
  unsupported_encoding unsupported_slot_encoding unsupported_counter_encoding : ℕ → ChunkFault
  aggregate_for_non_counter invalid_xor invalid_uvarint : ChunkFault

pub data IoError : Type 0 where
  not_found unexpected_eof other : IoError
  invalid_data : ChunkFault → IoError

abbrev pub IoResult {ℓ} : Type ℓ → Type ℓ
IoResult A = Outcome IoError A

-- `read_range(path, start..end)`
pub record RangeReader : Type 0 where
  pub read_range : Text → ℕ → ℕ → IoResult Bytes
