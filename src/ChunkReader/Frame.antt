-- ===== src/ChunkReader/Frame.antt =====
-- The framing of chunk records: `validated_payload` and `read_record` against records as they are
-- written.
use thanos_datafusion_experi.Common.{
  ℕ, ◌+◌, ◌/◌, ◌%◌, ◌^◌, ◌≤◌, ◌<◌, ◌≡◌, refl, sym, ap, ◌∙◌, some, ok, [], ◌∷◌, ◌++◌, arith, ◌==◌,
  true, length, take, drop, slice, length-append, drop-append, drop-drop, append_assoc, append-nil,
}
use thanos_datafusion_experi.Common.Slices.{get_range_at, slice_start, slice_middle, take_over}
use thanos_datafusion_experi.Common.Int.{checked_add}
use thanos_datafusion_experi.Common.Text.{Bytes, Text}
use thanos_datafusion_experi.TsdbIndex.Reader.{from_be_bytes}
use thanos_datafusion_experi.TsdbIndex.Varint.RoundTrip.{get_elem?_at, drop_next}
use thanos_datafusion_experi.Storage.Reader.{RangeReader}
use thanos_datafusion_experi.ChunkReader.{
  Codecs, content_size, read_uvarint, validated_payload, decode_payload, decode_encoded_record,
  read_record, read_encoded_chunk,
}
use thanos_datafusion_experi.ChunkReader.Varint.{
  short_uvarint, read_uvarint-short_uvarint, read_uvarint_bounds,
}

-- `u32::to_be_bytes`
unfoldable pub be_bytes : ℕ → Bytes
be_bytes c = c / 2 ^ 24 % 256 ∷ c / 2 ^ 16 % 256 ∷ c / 2 ^ 8 % 256 ∷ c % 256 ∷ []

from_be_bytes-be_bytes : (c : ℕ) → c < 2 ^ 32 → from_be_bytes (be_bytes c) ≡ c
unfolding from_be_bytes be_bytes
from_be_bytes-be_bytes c h = omega arith

-- A record as Prometheus writes it.
unfoldable pub frame : Codecs → ℕ → Bytes → Bytes
frame codecs encoding payload =
    short_uvarint (length payload)
    ++ ((encoding ∷ payload) ++ be_bytes (codecs.crc32c (encoding ∷ payload)))

be_bytes_size : (c : ℕ) → length (be_bytes c) ≡ 4
unfolding be_bytes
be_bytes_size c = refl

content_size_lem : (a n : ℕ) → a ≤ 5 → n < 2 ^ 35 → content_size a n ≡ some (a + 1 + n)
unfolding content_size checked_add
content_size_lem a n h k = ground arith

checksum_end_lem : (n : ℕ) → n < 2 ^ 36 → checked_add n 4 ≡ some (n + 4)
unfolding checked_add
checksum_end_lem n h = ground arith

-- What stands where in a whole record: `start` is behind the length.
whole_payload :
    (codecs : Codecs) (bytes : Bytes) (start encoding : ℕ) (payload sum : Bytes)
    → read_uvarint bytes ≡ ok (length payload, start)
    → length payload < 2 ^ 35
    → start ≤ 5
    → drop start bytes ≡ (encoding ∷ payload) ++ sum
    → length sum ≡ 4
    → length bytes ≡ start + 1 + length payload + 4
    → codecs.crc32c (encoding ∷ payload) ≡ from_be_bytes sum
    → validated_payload codecs bytes ≡ ok (encoding, payload)
unfolding validated_payload
whole_payload codecs bytes start encoding payload sum r short small here four size crc =
    rw
      (
        r,
        content_size_lem start (length payload) small short,
        checksum_end_lem (start + 1 + length payload) (omega arith),
        same,
        get_range_at bytes (start + 1 + length payload) (start + 1 + length payload + 4) sum [] last
            (omega arith) (omega arith),
        get_range_at bytes start (start + 1 + length payload) (encoding ∷ payload) sum here
            (omega arith) (omega arith),
        crc_same,
        get_elem?_at bytes start here,
        get_range_at bytes (start + 1) (start + 1 + length payload) payload sum next refl
            (omega arith),
      )
      refl
  where
    next : drop (start + 1) bytes ≡ payload ++ sum
    next = drop_next bytes start here

    last : drop (start + 1 + length payload) bytes ≡ sum ++ []
    last =
        sym (drop-drop (start + 1) (length payload) bytes)
        ∙ ap (drop (length payload)) next
        ∙ drop-append payload sum
        ∙ sym (append-nil sum)

    same : ((start + 1 + length payload + 4) == length bytes) ≡ true
    same = ground arith

    crc_same : (codecs.crc32c (encoding ∷ payload) == from_be_bytes sum) ≡ true
    crc_same = ground arith

-- A record that a writer has framed is taken apart into its encoding and its payload.
pub validated_payload-frame :
    (codecs : Codecs) (encoding : ℕ) (payload : Bytes)
    → length payload < 2 ^ 35
    → codecs.crc32c (encoding ∷ payload) < 2 ^ 32
    → validated_payload codecs (frame codecs encoding payload) ≡ ok (encoding, payload)
unfolding frame
validated_payload-frame codecs encoding payload short sum =
    let n = length payload in
    let head = short_uvarint n in
    let tail = be_bytes (codecs.crc32c (encoding ∷ payload)) in
    let r = read_uvarint-short_uvarint n ((encoding ∷ payload) ++ tail) short in
    let b = read_uvarint_bounds (head ++ ((encoding ∷ payload) ++ tail)) n (length head) r in
    whole_payload codecs _ (length head) encoding payload tail r short b.2
      (drop-append head ((encoding ∷ payload) ++ tail)) (be_bytes_size _)
      (omega (
        arith,
        length-append head ((encoding ∷ payload) ++ tail),
        length-append payload tail,
        be_bytes_size (codecs.crc32c (encoding ∷ payload)),
      ))
      (sym (from_be_bytes-be_bytes (codecs.crc32c (encoding ∷ payload)) sum))

frame_size :
    (codecs : Codecs) (encoding : ℕ) (payload : Bytes)
    → length (frame codecs encoding payload)
      ≡ length (short_uvarint (length payload)) + length payload + 5
unfolding frame
frame_size codecs encoding payload =
    let tail = be_bytes (codecs.crc32c (encoding ∷ payload)) in
    omega (
      arith,
      length-append (short_uvarint (length payload)) ((encoding ∷ payload) ++ tail),
      length-append payload tail,
      be_bytes_size (codecs.crc32c (encoding ∷ payload)),
    )

-- The reader serves the ranges of a file that lie within it.
abbrev pub Serves : RangeReader → Text → Bytes → Type 0
Serves reader path file =
    (a b : ℕ) → a ≤ b → b ≤ length file → reader.read_range path a b ≡ ok (slice file a b)

record_lem :
    (reader : RangeReader) (path : Text) (offset n head : ℕ) (prefix : Bytes)
    → reader.read_range path offset (offset + 6) ≡ ok prefix
    → read_uvarint prefix ≡ ok (n, head)
    → head ≤ 5
    → n < 2 ^ 35
    → offset + head + n + 5 < 2 ^ 64
    → offset + 6 < 2 ^ 64
    → read_record reader path offset ≡ reader.read_range path offset (offset + (head + 1 + n + 4))
unfolding read_record
record_lem reader path offset n head prefix p r small short fits fits' =
    rw
      (
        six,
        p,
        r,
        content_size_lem head n small short,
        checksum_end_lem (head + 1 + n) (omega arith),
        whole,
      )
      refl
  where
    six : (offset + 5 + 1) % 2 ^ 64 ≡ offset + 6
    six = omega arith

    whole : (offset + (head + 1 + n + 4)) % 2 ^ 64 ≡ offset + (head + 1 + n + 4)
    whole = omega arith

frame_head :
    (codecs : Codecs) (encoding : ℕ) (payload after : Bytes)
    → frame codecs encoding payload ++ after
      ≡ short_uvarint (length payload)
        ++ (((encoding ∷ payload) ++ be_bytes (codecs.crc32c (encoding ∷ payload))) ++ after)
unfolding frame
frame_head codecs encoding payload after = append_assoc (short_uvarint (length payload)) _ after

-- The six bytes read ahead lie within the file wherever a whole record does, and they hold its
-- length: so a record comes back whole, from any place of a file.
pub read_record-frame :
    (codecs : Codecs) (reader : RangeReader) (path : Text) (before after : Bytes) (encoding : ℕ)
    (payload : Bytes)
    → Serves reader path (before ++ (frame codecs encoding payload ++ after))
    → length payload < 2 ^ 35
    → length (before ++ (frame codecs encoding payload ++ after)) < 2 ^ 63
    → read_record reader path (length before) ≡ ok (frame codecs encoding payload)
read_record-frame codecs reader path before after encoding payload serves short small =
    record_lem reader path (length before) (length payload) (length head)
      (slice file (length before) (length before + 6))
      (serves (length before) (length before + 6) (omega arith)
        (omega (arith, sizes, frame_size codecs encoding payload, b.1)))
      ahead b.2 short (omega (arith, sizes, frame_size codecs encoding payload))
      (omega (arith, sizes))
    ∙ serves (length before) _ (omega arith)
        (omega (arith, sizes, frame_size codecs encoding payload))
    ∙ ap ok (
        ap (λ (k : ℕ). slice file (length before) (length before + k))
          (sym (
            let e : length (frame codecs encoding payload) ≡ length head + 1 + length payload + 4 =
              omega (arith, frame_size codecs encoding payload) in
            e))
        ∙ slice_middle before (frame codecs encoding payload) after)
  where
    head : Bytes
    head = short_uvarint (length payload)

    file : Bytes
    file = before ++ (frame codecs encoding payload ++ after)

    sizes : length file ≡ length before + (length (frame codecs encoding payload) + length after)
    sizes = omega (
      arith,
      length-append before (frame codecs encoding payload ++ after),
      length-append (frame codecs encoding payload) after,
    )

    b :
        (length payload < 2 ^ 35)
        × (0 < length head)
        × (length head ≤ 5)
        × (length head ≤ length (head ++ []))
    b =
        read_uvarint_bounds (head ++ []) (length payload) (length head)
          (read_uvarint-short_uvarint (length payload) [] short)

    ahead :
        read_uvarint (slice file (length before) (length before + 6))
        ≡ ok (length payload, length head)
    ahead =
        ap read_uvarint (
          slice_start before (frame codecs encoding payload ++ after) 6
          ∙ ap (take 6) (frame_head codecs encoding payload after)
          ∙ take_over 6 head _ (omega (arith, b.2)))
        ∙ read_uvarint-short_uvarint (length payload) _ short

-- From a file that holds a framed record at any place, `read_encoded_chunk` reads back its
-- payload and decodes it by its encoding, where the payload is shorter than 2^35, the file
-- shorter than 2^63 and the reader serves the ranges within the file.
pub read_encoded_chunk-frame :
    (codecs : Codecs) (reader : RangeReader) (path : Text) (before after : Bytes) (encoding : ℕ)
    (payload : Bytes)
    → Serves reader path (before ++ (frame codecs encoding payload ++ after))
    → length payload < 2 ^ 35
    → length (before ++ (frame codecs encoding payload ++ after)) < 2 ^ 63
    → codecs.crc32c (encoding ∷ payload) < 2 ^ 32
    → read_encoded_chunk codecs reader path (length before) ≡ decode_payload encoding payload
unfolding read_encoded_chunk decode_encoded_record
read_encoded_chunk-frame codecs reader path before after encoding payload serves short small sum =
    rw
      (
        read_record-frame codecs reader path before after encoding payload serves short small,
        validated_payload-frame codecs encoding payload short sum,
      )
      refl
