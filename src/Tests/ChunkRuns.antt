-- ===== src/Tests/ChunkRuns.antt =====
-- Runs of the code of chunk_reader.rs.
use thanos_datafusion_experi.Common.{
  ◌^◌, ◌<◌, ◌≡◌, refl, none, some, List, [], ◌∷◌, ◌++◌, arith, ok, ok_or, Returns, length,
  get_range, le→leb,
}
use thanos_datafusion_experi.Common.Int.{pos}
use thanos_datafusion_experi.Common.Text.{Bytes, codes}
use thanos_datafusion_experi.Storage.Reader.{RangeReader, unexpected_eof}
use thanos_datafusion_experi.ChunkReader.{
  Codecs, Sample, aggregate, decode_payload, decode_encoded_record, decode_aggregate,
  decode_aggregate_counter, read_encoded_chunk,
}
use thanos_datafusion_experi.ChunkReader.Varint.{short_uvarint}
use thanos_datafusion_experi.ChunkReader.Frame.{be_bytes, frame, Serves, read_encoded_chunk-frame}
use thanos_datafusion_experi.ChunkReader.Ends.{decode_encoded_record-Returns}
use thanos_datafusion_experi.ChunkReader.Slots.{
  put_slots, samples_of, decode_aggregate-put_slots, decode_aggregate_counter-decode_aggregate,
}

abbrev pub one_sample : List Sample
one_sample = record { timestamp = pos 300; value = 42 } ∷ []

-- A checksum that is always 0, and one sample in each XOR chunk.
abbrev pub codecs : Codecs
codecs = record { crc32c = λ _. 0; xor_samples = λ _. some one_sample }

abbrev pub file_reader : Bytes → RangeReader
file_reader file = record {
  read_range = λ path start end. ok_or (get_range file start end) unexpected_eof;
}

file-Serves : (file : Bytes) → Serves (file_reader file) (codes "chunks/000001") file
file-Serves file a b h k = rw (le→leb a b h, le→leb b (length file) k) refl

abbrev three : Bytes
three = 1 ∷ 2 ∷ 3 ∷ []

abbrev chunk_file : Bytes
chunk_file = (9 ∷ 9 ∷ []) ++ (frame codecs 1 three ++ (7 ∷ []))

chunk_file_size : length chunk_file < 2 ^ 63
unfolding frame short_uvarint be_bytes
chunk_file_size = omega arith

read_encoded_chunk_example :
    read_encoded_chunk codecs (file_reader chunk_file) (codes "chunks/000001") 2
    ≡ decode_payload 1 three
read_encoded_chunk_example =
    read_encoded_chunk-frame codecs (file_reader chunk_file) (codes "chunks/000001") (9 ∷ 9 ∷ [])
      (7 ∷ []) 1 three (file-Serves chunk_file) (omega arith) chunk_file_size (omega arith)

decode_encoded_record_example : Returns (decode_encoded_record codecs (2 ∷ 255 ∷ 3 ∷ []))
decode_encoded_record_example = decode_encoded_record-Returns codecs (2 ∷ 255 ∷ 3 ∷ [])

abbrev counter_only : Bytes
counter_only = put_slots (none ∷ none ∷ none ∷ none ∷ some three ∷ [])

counter_read : decode_aggregate counter_only ≡ ok (aggregate none none none none (some three))
counter_read =
    decode_aggregate-put_slots none none none none (some three) tt tt tt tt
      (omega arith, omega arith)

counter_only_example :
    decode_aggregate counter_only ≡ ok (aggregate none none none none (some three))
counter_only_example =
    decode_aggregate-put_slots none none none none (some three) tt tt tt tt
      (omega arith, omega arith)

counter_samples_example :
    decode_aggregate_counter codecs counter_only ≡ samples_of codecs (some three)
counter_samples_example =
    decode_aggregate_counter-decode_aggregate codecs counter_only none none none none (some three)
      counter_read
