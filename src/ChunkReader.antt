-- ===== src/ChunkReader.antt =====
-- chunk_reader.rs: the framed chunk records of a block's chunk files, raw and downsampled.
pub mod Varint
pub mod Frame
pub mod Ends
pub mod Slots
use thanos_datafusion_experi.Common.{
  ℕ, zero, suc, ◌+◌, ◌^◌, ◌%◌, Bool, Option, none, some, List, [], ◌∷◌, ok, err, panicked, ◌>>=◌,
  ◌>>◌, ensure, ok_or, or_panic, ◌==◌, if◌then◌else◌, length, get_elem?, get_range, drop,
}
use thanos_datafusion_experi.Common.Bits.{bit_and}
use thanos_datafusion_experi.Common.Int.{ℤ, checked_add}
use thanos_datafusion_experi.Common.Text.{Bytes, Text}
use thanos_datafusion_experi.Storage.Reader.{
  IoResult, RangeReader, ChunkFault, invalid_data, record_length_overflow, truncated_record,
  truncated_checksum, length_mismatch, crc_mismatch, truncated_slot, slot_length_overflow,
  truncated_slot_payload, trailing_bytes, unsupported_encoding, unsupported_slot_encoding,
  unsupported_counter_encoding, aggregate_for_non_counter, invalid_xor, invalid_uvarint,
}
use thanos_datafusion_experi.TsdbIndex.Reader.{from_be_bytes, add_group}

-- `value` is the bit pattern of the `f64`.
pub record Sample : Type 0 where
  pub timestamp : ℤ
  pub value : ℕ

pub data EncodedChunk : Type 0 where
  xor histogram float_histogram : Bytes → EncodedChunk
  aggregate : (count sum min max counter : Option Bytes) → EncodedChunk

-- The crates that the module calls: `CRC32C.checksum` of crc, and `read_xor_chunk_data` with
-- `samples` of rusty_chunkenc.
pub record Codecs : Type 0 where
  pub crc32c : Bytes → ℕ
  pub xor_samples : Bytes → Option (List Sample)

abbrev pub encoding_xor : ℕ
encoding_xor = 1

abbrev pub encoding_histogram : ℕ
encoding_histogram = 2

abbrev pub encoding_float_histogram : ℕ
encoding_float_histogram = 3

abbrev pub encoding_aggr : ℕ
encoding_aggr = 0xff

abbrev pub crc_size : ℕ
crc_size = 4

abbrev pub max_uvarint_size : ℕ
max_uvarint_size = 5

abbrev pub aggr_counter_slot : ℕ
aggr_counter_slot = 4

-- `bytes.iter().copied().take(MAX_UVARINT_SIZE).enumerate()`: the rounds that are left come first.
unfoldable pub uvarint_rounds : ℕ → Bytes → ℕ → ℕ → IoResult (ℕ × ℕ)
uvarint_rounds zero bytes index value = err (invalid_data invalid_uvarint)
uvarint_rounds (suc rounds) [] index value = err (invalid_data invalid_uvarint)
uvarint_rounds (suc rounds) (byte ∷ bytes) index value =
    let value' = add_group value byte index in
    let more = uvarint_rounds rounds bytes (index + 1) value' in
    if bit_and byte 0x80 == 0 then ok (value', index + 1) else more

unfoldable pub read_uvarint : Bytes → IoResult (ℕ × ℕ)
unfolding uvarint_rounds
read_uvarint bytes = uvarint_rounds max_uvarint_size bytes 0 0

-- `length_size.checked_add(1).and_then(|size| size.checked_add(payload_len))`
unfoldable pub content_size : ℕ → ℕ → Option ℕ
unfolding checked_add
content_size length_size payload_len = elim (checked_add length_size 1) [
  | none ↦ none
  | some size ↦ checked_add size payload_len
]

-- The encoding byte and the payload of a record that is whole.
unfoldable pub validated_payload : Codecs → Bytes → IoResult (ℕ × Bytes)
unfolding read_uvarint content_size checked_add from_be_bytes
validated_payload codecs record' = do
  (payload_len, content_start) ← read_uvarint record'
  content_end ← ok_or (content_size content_start payload_len) (invalid_data truncated_record)
  checksum_end ← ok_or (checked_add content_end crc_size) (invalid_data truncated_checksum)
  ensure (checksum_end == length record') (invalid_data length_mismatch)
  checksum ← or_panic (get_range record' content_end checksum_end)
  content ← or_panic (get_range record' content_start content_end)
  ensure (codecs.crc32c content == from_be_bytes checksum) (invalid_data crc_mismatch)
  encoding ← or_panic (get_elem? record' content_start)
  payload ← or_panic (get_range record' (content_start + 1) content_end)
  ok (encoding, payload)

-- One slot of a downsampled chunk: its bytes, encoding first, if it has any, and what follows.
unfoldable pub read_slot : Bytes → IoResult (Option Bytes × Bytes)
unfolding read_uvarint checked_add
read_slot remaining = do
  (slot_len, length_size) ← read_uvarint remaining
  rest ← ok_or (get_range remaining length_size (length remaining)) (invalid_data truncated_slot)
  let whole = do
    slot_size ← ok_or (checked_add slot_len 1) (invalid_data slot_length_overflow)
    slot_data ← ok_or (get_range rest 0 slot_size) (invalid_data truncated_slot_payload)
    ok (some slot_data, drop slot_size rest)
  if slot_len == 0 then ok (none, rest) else whole

-- `slot_data[0] != ENCODING_XOR`, and `slot_data[1..]`
unfoldable pub xor_data : (ℕ → ChunkFault) → Bytes → IoResult Bytes
xor_data fault slot_data = do
  encoding ← or_panic (get_elem? slot_data 0)
  ensure (encoding == encoding_xor) (invalid_data (fault encoding))
  or_panic (get_range slot_data 1 (length slot_data))

unfoldable pub checked_slot : Option Bytes → IoResult (Option Bytes)
unfolding xor_data
checked_slot none = ok none
checked_slot (some slot_data) = do
  payload ← xor_data unsupported_slot_encoding slot_data
  ok (some payload)

-- `for _ in 0..=AGGR_COUNTER_SLOT`: the slots, and what follows them.
unfoldable pub read_slots : ℕ → Bytes → IoResult (List (Option Bytes) × Bytes)
unfolding read_slot checked_slot
read_slots zero remaining = ok ([], remaining)
read_slots (suc count) remaining = do
  (slot, rest) ← read_slot remaining
  payload ← checked_slot slot
  (slots, last) ← read_slots count rest
  ok (payload ∷ slots, last)

-- `slots.remove(0)`, five times.
unfoldable pub aggregate_of : List (Option Bytes) → IoResult EncodedChunk
aggregate_of (count ∷ sum ∷ min ∷ max ∷ counter ∷ slots) = ok (aggregate count sum min max counter)
aggregate_of _ = panicked

unfoldable pub decode_aggregate : Bytes → IoResult EncodedChunk
unfolding read_slots aggregate_of
decode_aggregate payload = do
  (slots, remaining) ← read_slots (aggr_counter_slot + 1) payload
  ensure (length remaining == 0) (invalid_data trailing_bytes)
  aggregate_of slots

unfoldable pub decode_xor : Codecs → Bytes → IoResult (List Sample)
decode_xor codecs payload = ok_or (codecs.xor_samples payload) (invalid_data invalid_xor)

-- The slots before the counter are passed over unread: the first argument counts them.
unfoldable pub counter_slot : Codecs → ℕ → Bytes → IoResult (List Sample)
unfolding read_slot xor_data decode_xor
counter_slot codecs zero remaining = do
  (slot, rest) ← read_slot remaining
  elim slot [
    | none ↦ ok []
    | some slot_data ↦ xor_data unsupported_counter_encoding slot_data >>= decode_xor codecs
  ]
counter_slot codecs (suc before) remaining = do
  (slot, rest) ← read_slot remaining
  counter_slot codecs before rest

unfoldable pub decode_aggregate_counter : Codecs → Bytes → IoResult (List Sample)
unfolding counter_slot
decode_aggregate_counter codecs payload = counter_slot codecs aggr_counter_slot payload

-- `match encoding` of `decode_encoded_record`
unfoldable pub decode_payload : ℕ → Bytes → IoResult EncodedChunk
unfolding decode_aggregate
decode_payload encoding payload =
    let downsampled = decode_aggregate payload in
    if encoding == encoding_xor
    then ok (xor payload)
    else if encoding == encoding_histogram
    then ok (histogram payload)
    else if encoding == encoding_float_histogram
    then ok (float_histogram payload)
    else if encoding == encoding_aggr
    then downsampled
    else err (invalid_data (unsupported_encoding encoding))

unfoldable pub decode_encoded_record : Codecs → Bytes → IoResult EncodedChunk
unfolding validated_payload decode_payload
decode_encoded_record codecs record' = do
  (encoding, payload) ← validated_payload codecs record'
  decode_payload encoding payload

-- `match encoding` of `decode_record`
unfoldable pub decode_samples : Codecs → Bool → ℕ → Bytes → IoResult (List Sample)
unfolding decode_xor decode_aggregate_counter
decode_samples codecs counter_metric encoding payload =
    let samples = decode_xor codecs payload in
    let counter = decode_aggregate_counter codecs payload in
    if encoding == encoding_xor
    then samples
    else if encoding == encoding_aggr
    then (if counter_metric then counter else err (invalid_data aggregate_for_non_counter))
    else err (invalid_data (unsupported_encoding encoding))

unfoldable pub decode_record : Codecs → Bytes → Bool → IoResult (List Sample)
unfolding validated_payload decode_samples
decode_record codecs record' counter_metric = do
  (encoding, payload) ← validated_payload codecs record'
  decode_samples codecs counter_metric encoding payload

-- The length is read ahead; `offset + n` is not checked and wraps.
unfoldable pub read_record : RangeReader → Text → ℕ → IoResult Bytes
unfolding read_uvarint content_size checked_add
read_record reader path offset = do
  prefix ← reader.read_range path offset ((offset + max_uvarint_size + 1) % 2 ^ 64)
  (payload_len, length_size) ← read_uvarint prefix
  content ← ok_or (content_size length_size payload_len) (invalid_data record_length_overflow)
  record_len ← ok_or (checked_add content crc_size) (invalid_data record_length_overflow)
  reader.read_range path offset ((offset + record_len) % 2 ^ 64)

unfoldable pub read_encoded_chunk : Codecs → RangeReader → Text → ℕ → IoResult EncodedChunk
unfolding read_record decode_encoded_record
read_encoded_chunk codecs reader path offset =
    read_record reader path offset >>= decode_encoded_record codecs

unfoldable pub read_samples : Codecs → RangeReader → Text → ℕ → Bool → IoResult (List Sample)
unfolding read_record decode_record
read_samples codecs reader path offset counter_metric = do
  record' ← read_record reader path offset
  decode_record codecs record' counter_metric
