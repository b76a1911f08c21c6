-- ===== src/ChunkReader/Ends.antt =====
-- chunk_reader.rs does not panic, whatever the bytes.
use thanos_datafusion_experi.Common.{
  ℕ, zero, suc, ◌+◌, ◌^◌, ◌≤◌, ◌<◌, ◌≡◌, ◌≢◌, refl, Option, none, some, List, [], ◌∷◌, arith, ok,
  ensure, ok_or, ◌==◌, length, get_elem?, get_elem?_in, get_range, length-take, ap, Ensures-if,
  Returns, returned, refused, Ends-bind, Ends-ok_or, Ends-or_panic, Ends-ensure, Ends-if, Ensures,
  holds, Ensures-of, Ensures-bind, Ensures-ok_or, Ensures-eq-ok,
}
use thanos_datafusion_experi.Common.Int.{checked_add}
use thanos_datafusion_experi.Common.Bits.{bit_and}
use thanos_datafusion_experi.Common.Text.{Bytes}
use thanos_datafusion_experi.TsdbIndex.Reader.{from_be_bytes, add_group}
use thanos_datafusion_experi.Storage.Reader.{IoError, ChunkFault, truncated_slot, invalid_data}
use thanos_datafusion_experi.ChunkReader.{
  Codecs, uvarint_rounds, read_uvarint, content_size, validated_payload, read_slot, xor_data,
  checked_slot, read_slots, aggregate_of, decode_aggregate, decode_payload, decode_encoded_record,
}

rounds-Returns :
    (rounds : ℕ) (bytes : Bytes) (index value : ℕ)
    → Returns (uvarint_rounds rounds bytes index value)
unfolding uvarint_rounds
rounds-Returns zero bytes index value = refused
rounds-Returns (suc rounds) [] index value = refused
rounds-Returns (suc rounds) (byte ∷ bytes) index value =
    Ends-if (bit_and byte 0x80 == 0) returned
      (rounds-Returns rounds bytes (index + 1) (add_group value byte index))

read_uvarint-Returns : (bytes : Bytes) → Returns (read_uvarint bytes)
unfolding read_uvarint
read_uvarint-Returns bytes = rounds-Returns 5 bytes 0 0

content_bounds :
    (start n : ℕ) (e : IoError) {stop : ℕ}
    → ok_or (content_size start n) e ≡ ok stop
    → (start + 1 ≤ stop) × (stop < 2 ^ 64)
unfolding content_size checked_add
content_bounds start n e h = ground arith

sum_bounds : (a : ℕ) (e : IoError) {stop : ℕ} → ok_or (checked_add a 4) e ≡ ok stop → stop ≡ a + 4
unfolding checked_add
sum_bounds a e h = ground arith

same_length : (a b : ℕ) (x : IoError) {u : Unit {0}} → ensure (a == b) x ≡ ok u → a ≡ b
same_length a b x e = ground arith

in_range : (bytes : Bytes) (a b : ℕ) → a ≤ b → b ≤ length bytes → get_range bytes a b ≢ none
in_range bytes a b h k e = ground arith

in_bytes : (bytes : Bytes) (i : ℕ) → i < length bytes → get_elem? bytes i ≢ none
in_bytes bytes i h e = let (b, f) = get_elem?_in bytes i h in cc

validated_payload-Returns :
    (codecs : Codecs) (bytes : Bytes) → Returns (validated_payload codecs bytes)
unfolding validated_payload
validated_payload-Returns codecs bytes = Ends-bind (read_uvarint-Returns bytes) λ (n, start) _.
    Ends-bind (Ends-ok_or (content_size start n) _) λ stop c.
      Ends-bind (Ends-ok_or (checked_add stop 4) _) λ end s.
        Ends-bind (Ends-ensure (end == length bytes) _) λ _ l.
          let b = content_bounds start n _ c in
          let t = sum_bounds stop _ s in
          let q = same_length end (length bytes) _ l in
          Ends-bind
            (Ends-or_panic (get_range bytes stop end)
              (in_range bytes stop end (omega arith) (omega arith)))
            λ sum _.
              Ends-bind
                (Ends-or_panic (get_range bytes start stop)
                  (in_range bytes start stop (omega (arith, b.0)) (omega arith)))
                λ content _.
                  Ends-bind (Ends-ensure (codecs.crc32c content == from_be_bytes sum) _) λ _ _.
                    Ends-bind
                      (Ends-or_panic (get_elem? bytes start)
                        (in_bytes bytes start (omega (arith, b.0))))
                      λ encoding _.
                        Ends-bind
                          (Ends-or_panic (get_range bytes (start + 1) stop)
                            (in_range bytes (start + 1) stop b.0 (omega arith)))
                          λ _ _. returned

-- A slot that is there has its encoding byte.
abbrev HasByte : Option Bytes → Type 0
HasByte none = Unit {0}
HasByte (some d) = 0 < length d

read_slot-Returns : (bytes : Bytes) → Returns (read_slot bytes)
unfolding read_slot
read_slot-Returns bytes = Ends-bind (read_uvarint-Returns bytes) λ (n, size) _.
    Ends-bind (Ends-ok_or (get_range bytes size (length bytes)) _) λ rest _.
      Ends-if (n == 0) returned (
        Ends-bind (Ends-ok_or (checked_add n 1) _)
          λ whole _. Ends-bind (Ends-ok_or (get_range rest 0 whole) _) λ _ _. returned)

first_byte : (rest : Bytes) (n : ℕ) {d : Bytes} → 0 < n → get_range rest 0 n ≡ some d → 0 < length d
first_byte rest n h e = ground (arith, length-take n rest)

read_slot-HasByte : (bytes : Bytes) → Ensures (λ (slot, _). HasByte slot) (read_slot bytes)
unfolding read_slot checked_add
read_slot-HasByte bytes =
    Ensures-bind (Ensures-of (λ _. Unit {0}) (read_uvarint bytes) (λ _ _. tt)) λ (n, size) _.
      Ensures-bind
        (Ensures-of (λ _. Unit {0})
          (ok_or {E = IoError} (get_range bytes size (length bytes)) (invalid_data truncated_slot))
          (λ _ _. tt))
        λ rest _. Ensures-if (n == 0) (holds tt) (
          Ensures-bind (Ensures-ok_or (λ w. 0 < w) (checked_add n 1) _ (λ w e. ground arith))
            λ whole p.
              Ensures-bind
                (Ensures-ok_or (λ d. 0 < length d) (get_range rest 0 whole) _
                  (λ d e. first_byte rest whole p e))
                λ d q. holds q)

from_one : (d : Bytes) → 0 < length d → get_range d 1 (length d) ≢ none
from_one d h = in_range d 1 (length d) h (omega arith)

xor_data-Returns : (fault : ℕ → ChunkFault) (d : Bytes) → 0 < length d → Returns (xor_data fault d)
unfolding xor_data
xor_data-Returns fault d h =
    Ends-bind (Ends-or_panic (get_elem? d 0) (in_bytes d 0 h)) λ encoding _.
      Ends-bind (Ends-ensure (encoding == 1) _)
        λ _ _. Ends-or_panic (get_range d 1 (length d)) (from_one d h)

checked_slot-Returns : (slot : Option Bytes) → HasByte slot → Returns (checked_slot slot)
unfolding checked_slot
checked_slot-Returns none h = returned
checked_slot-Returns (some d) h = Ends-bind (xor_data-Returns _ d h) λ _ _. returned

read_slots-Returns : (count : ℕ) (bytes : Bytes) → Returns (read_slots count bytes)
unfolding read_slots
read_slots-Returns zero bytes = returned
read_slots-Returns (suc count) bytes = Ends-bind (read_slot-Returns bytes) λ (slot, rest) e.
    Ends-bind (checked_slot-Returns slot (Ensures-eq-ok (read_slot-HasByte bytes) e))
      λ payload _. Ends-bind (read_slots-Returns count rest) λ _ _. returned

read_slots-length :
    (count : ℕ) (bytes : Bytes)
    → Ensures (λ (slots, _). length slots ≡ count) (read_slots count bytes)
unfolding read_slots
read_slots-length zero bytes = holds refl
read_slots-length (suc count) bytes =
    Ensures-bind (Ensures-of (λ _. Unit {0}) (read_slot bytes) (λ _ _. tt)) λ (slot, rest) _.
      Ensures-bind (Ensures-of (λ _. Unit {0}) (checked_slot slot) (λ _ _. tt))
        λ payload _. Ensures-bind (read_slots-length count rest) λ (slots, last) e. holds (ap suc e)

aggregate_of-Returns :
    (slots : List (Option Bytes)) → length slots ≡ 5 → Returns (aggregate_of slots)
unfolding aggregate_of
aggregate_of-Returns [] e = absurd (omega arith)
aggregate_of-Returns (a ∷ []) e = absurd (omega arith)
aggregate_of-Returns (a ∷ b ∷ []) e = absurd (omega arith)
aggregate_of-Returns (a ∷ b ∷ c ∷ []) e = absurd (omega arith)
aggregate_of-Returns (a ∷ b ∷ c ∷ d ∷ []) e = absurd (omega arith)
aggregate_of-Returns (a ∷ b ∷ c ∷ d ∷ f ∷ slots) e = returned

decode_aggregate-Returns : (payload : Bytes) → Returns (decode_aggregate payload)
unfolding decode_aggregate
decode_aggregate-Returns payload = Ends-bind (read_slots-Returns 5 payload) λ (slots, rest) e.
    Ends-bind (Ends-ensure (length rest == 0) _)
      λ _ _. aggregate_of-Returns slots (Ensures-eq-ok (read_slots-length 5 payload) e)

decode_payload-Returns :
    (encoding : ℕ) (payload : Bytes) → Returns (decode_payload encoding payload)
unfolding decode_payload
decode_payload-Returns encoding payload = Ends-if (encoding == 1) returned (
    Ends-if (encoding == 2) returned (
      Ends-if (encoding == 3) returned
        (Ends-if (encoding == 0xff) (decode_aggregate-Returns payload) refused)))

-- On every sequence of bytes `decode_encoded_record` returns a chunk or an error and never
-- panics.
pub decode_encoded_record-Returns :
    (codecs : Codecs) (bytes : Bytes) → Returns (decode_encoded_record codecs bytes)
unfolding decode_encoded_record
decode_encoded_record-Returns codecs bytes =
    Ends-bind (validated_payload-Returns codecs bytes)
      λ (encoding, payload) _. decode_payload-Returns encoding payload
