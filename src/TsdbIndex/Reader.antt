-- ===== src/TsdbIndex/Reader.antt =====
-- The primitive readers of tsdb_index.rs: fixed-width and variable-length integers, checksums,
-- symbol references and the alignment of series entries. `usize` has 64 bits.
use thanos_datafusion_experi.Common.{
  ℕ, zero, suc, ◌+◌, ◌-◌, ◌*◌, ◌/◌, ◌%◌, ◌^◌, Bool, not, ◌&&◌, List, Outcome, ok, err, ◌>>=◌, ◌>>◌,
  ensure, ok_or, or_panic, ltb, ◌==◌, if◌then◌else◌, get_elem?, get_range,
}
use thanos_datafusion_experi.Common.Bits.{bit_and, bit_or, bit_xor}
use thanos_datafusion_experi.Common.Int.{ℤ, as_i64, checked_add}
use thanos_datafusion_experi.Common.Text.{Bytes, Text}
use mathlib.Core.List.{foldl}
use mathlib.Core.Option

-- The crates that the readers call: `CRC32C.checksum` of crc, and `std::str::from_utf8`.
pub record Crates : Type 0 where
  pub crc32c : Bytes → ℕ
  pub valid_utf8 : Bytes → Bool

pub data Section : Type 0 where
  toc symbol_table series_entry : Section

-- The texts of `IndexError`, one constructor each.
pub data IndexError : Type 0 where
  too_short invalid_magic too_short_for_toc invalid_series_bounds : IndexError
  unsupported_version : ℕ → IndexError
  length_offset_overflow entry_length_overflow entry_checksum_overflow truncated_entry : IndexError
  symbols_offset_overflow symbols_length_overflow truncated_symbols : IndexError
  symbol_offset_overflow symbol_length_overflow truncated_symbol invalid_utf8 : IndexError
  unexpected_symbol_bytes duplicate_label mint_delta_overflow mint_overflow : IndexError
  duration_overflow maxt_overflow reference_out_of_range overlapping_ranges : IndexError
  references_not_increasing unexpected_entry_bytes : IndexError
  symbol_out_of_bounds truncated_u32 truncated_u64 : IndexError
  truncated_uvarint uvarint_overflow uvarint_too_long alignment_overflow : IndexError
  crc_offset_overflow crc_mismatch : Section → IndexError

abbrev pub Res {ℓ} : Type ℓ → Type ℓ
Res A = Outcome IndexError A

-- `u32::from_be_bytes` and `u64::from_be_bytes`
unfoldable pub from_be_bytes : Bytes → ℕ
from_be_bytes = foldl (λ acc b. acc * 256 + b) 0

-- `offset + 4` is not checked: in a release build it wraps, and then the range is empty or inverted.
-- A build with overflow checks panics there instead, which is not modelled.
unfoldable pub read_u32 : Bytes → ℕ → Res ℕ
unfolding from_be_bytes
read_u32 bytes offset =
    ok_or (Option.map from_be_bytes (get_range bytes offset ((offset + 4) % 2 ^ 64))) truncated_u32

unfoldable pub read_u64 : Bytes → ℕ → Res ℕ
unfolding from_be_bytes
read_u64 bytes offset =
    ok_or (Option.map from_be_bytes (get_range bytes offset ((offset + 8) % 2 ^ 64))) truncated_u64

-- `value |= u64::from(byte & 0x7f) << (index * 7)`
abbrev pub add_group : ℕ → ℕ → ℕ → ℕ
add_group value byte index = bit_or value (bit_and byte 0x7f * 2 ^ (index * 7) % 2 ^ 64)

-- The first argument counts the rounds of `for index in 0..10` that are left.
unfoldable pub uvarint_loop : ℕ → Bytes → ℕ → ℕ → ℕ → Res (ℕ × ℕ)
uvarint_loop zero bytes offset index value = err uvarint_too_long
uvarint_loop (suc rounds) bytes offset index value = do
  byte ← ok_or (get_elem? bytes (offset + index)) truncated_uvarint
  ensure (not (index == 9 && ltb 1 byte)) uvarint_overflow
  let value' = add_group value byte index
  let more = uvarint_loop rounds bytes offset (index + 1) value'
  if bit_and byte 0x80 == 0 then ok (value', index + 1) else more

-- The value, and the bytes that it takes.
unfoldable pub read_uvarint : Bytes → ℕ → Res (ℕ × ℕ)
unfolding uvarint_loop
read_uvarint bytes offset = uvarint_loop 10 bytes offset 0 0

-- `((value >> 1) as i64) ^ -((value & 1) as i64)`: the mask is 0 or -1.
unfoldable pub unzigzag : ℕ → ℤ
unfolding as_i64
unzigzag value =
    let mask : ℕ = if bit_and value 1 == 0 then 0 else 2 ^ 64 - 1 in
    as_i64 (bit_xor (value / 2) mask)

unfoldable pub read_varint : Bytes → ℕ → Res (ℤ × ℕ)
unfolding read_uvarint unzigzag
read_varint bytes offset = do (value, size) ← read_uvarint bytes offset; ok (unzigzag value, size)

abbrev pub series_alignment : ℕ
series_alignment = 16

-- `!(SERIES_ALIGNMENT - 1)` on 64 bits.
abbrev pub alignment_mask : ℕ
alignment_mask = 2 ^ 64 - series_alignment

unfoldable pub align_series : ℕ → Res ℕ
unfolding checked_add
align_series offset =
    ok_or (Option.map (λ value. bit_and value alignment_mask) (checked_add offset 15))
      alignment_overflow

unfoldable pub symbol : List Text → ℕ → Res Text
symbol symbols reference = ok_or (get_elem? symbols reference) symbol_out_of_bounds

unfoldable pub verify_crc : Crates → Bytes → ℕ → ℕ → Section → Res (Unit {0})
unfolding checked_add read_u32
verify_crc crates bytes content_start content_length section = do
  content_end ← ok_or (checked_add content_start content_length) (crc_offset_overflow section)
  checksum ← read_u32 bytes content_end
  content ← or_panic (get_range bytes content_start content_end)
  ensure (crates.crc32c content == checksum) (crc_mismatch section)
