-- ===== src/ChunkReader/Slots.antt =====
-- Downsampled chunks: the five slots as they are written, and the two decoders against each other.
use thanos_datafusion_experi.Common.{
  ℕ, zero, suc, ◌+◌, ◌^◌, ◌<◌, ◌≡◌, refl, sym, ap, ◌∙◌, false, Option, none, some, List, [], ◌∷◌,
  ◌++◌, arith, ok, ◌>>=◌, ensure, ◌==◌, length, get_elem?, get_range, All, length-append,
  drop-append, >>=-eq-ok, append_assoc, append-nil,
}
use thanos_datafusion_experi.Common.Int.{checked_add}
use thanos_datafusion_experi.Common.Text.{Bytes}
use thanos_datafusion_experi.Storage.Reader.{
  IoResult, ChunkFault, unsupported_slot_encoding, unsupported_counter_encoding,
}
use thanos_datafusion_experi.ChunkReader.{
  Codecs, Sample, aggregate, read_uvarint, read_slot, xor_data, checked_slot, read_slots,
  aggregate_of, decode_aggregate, decode_xor, counter_slot, decode_aggregate_counter,
}
use thanos_datafusion_experi.ChunkReader.Varint.{short_uvarint, read_uvarint-short_uvarint}
use thanos_datafusion_experi.Common.Slices.{get_range_at}

-- A slot as Thanos writes it: its length, and behind it the encoding and the data.
unfoldable pub put_slot : Option Bytes → Bytes
put_slot none = 0 ∷ []
put_slot (some payload) = short_uvarint (length payload) ++ (1 ∷ payload)

unfoldable pub put_slots : List (Option Bytes) → Bytes
unfolding put_slot
put_slots [] = []
put_slots (slot ∷ slots) = put_slot slot ++ put_slots slots

-- A slot that is there is not empty.
abbrev pub IsSlot : Option Bytes → Type 0
IsSlot none = Unit {0}
IsSlot (some payload) = (0 < length payload) × (length payload < 2 ^ 35)

abbrev with_encoding : Option Bytes → Option Bytes
with_encoding none = none
with_encoding (some payload) = some (1 ∷ payload)

module _ {ℓ} {A : Type ℓ} where
  rest_range : (xs ys : List A) → get_range (xs ++ ys) (length xs) (length (xs ++ ys)) ≡ some ys
  rest_range xs ys =
      get_range_at (xs ++ ys) (length xs) (length (xs ++ ys)) ys []
        (drop-append xs ys ∙ sym (append-nil ys)) (length-append xs ys) (omega arith)

  front_range : (xs ys : List A) → get_range (xs ++ ys) 0 (length xs) ≡ some xs
  front_range xs ys =
      get_range_at (xs ++ ys) 0 (length xs) xs ys refl (omega arith)
        (omega (arith, length-append xs ys))

slot_sum : (n : ℕ) → n < 2 ^ 35 → checked_add n 1 ≡ some (n + 1)
unfolding checked_add
slot_sum n h = ground arith

read_uvarint_zero : (rest : Bytes) → read_uvarint (0 ∷ rest) ≡ ok (0, 1)
unfolding short_uvarint
read_uvarint_zero rest = read_uvarint-short_uvarint 0 rest (omega arith)

empty_slot :
    (bytes rest : Bytes)
    → read_uvarint bytes ≡ ok (0, 1)
    → get_range bytes 1 (length bytes) ≡ some rest
    → read_slot bytes ≡ ok (none, rest)
unfolding read_slot
empty_slot bytes rest r g = rw (r, g) refl

read_slot-put_slot :
    (slot : Option Bytes) (rest : Bytes)
    → IsSlot slot
    → read_slot (put_slot slot ++ rest) ≡ ok (with_encoding slot, rest)
unfolding read_slot put_slot
read_slot-put_slot none rest h =
    empty_slot (0 ∷ rest) rest (read_uvarint_zero rest) (rest_range (0 ∷ []) rest)
read_slot-put_slot (some payload) rest (some_bytes, short) =
    let head = short_uvarint (length payload) in
    let more = (1 ∷ payload) ++ rest in
    let filled : (length payload == 0) ≡ false = ground arith in
    let whole : length payload + 1 ≡ length {A = ℕ} (1 ∷ payload) = omega arith in
    rw
      (
        append_assoc head (1 ∷ payload) rest,
        read_uvarint-short_uvarint (length payload) more short,
        rest_range head more,
        filled,
        slot_sum (length payload) short,
        whole,
        front_range (1 ∷ payload) rest,
        drop-append payload rest,
      )
      refl

checked_slot-with_encoding : (slot : Option Bytes) → checked_slot (with_encoding slot) ≡ ok slot
unfolding checked_slot xor_data
checked_slot-with_encoding none = refl
checked_slot-with_encoding (some payload) = rw (rest_range (1 ∷ []) payload) refl

read_slots-put_slots :
    (slots : List (Option Bytes)) (rest : Bytes)
    → All IsSlot slots
    → read_slots (length slots) (put_slots slots ++ rest) ≡ ok (slots, rest)
unfolding read_slots put_slots
read_slots-put_slots [] rest h = refl
read_slots-put_slots (slot ∷ slots) rest (h, hs) =
    rw
      (
        append_assoc (put_slot slot) (put_slots slots) rest,
        read_slot-put_slot slot (put_slots slots ++ rest) h,
        checked_slot-with_encoding slot,
        read_slots-put_slots slots rest hs,
      )
      refl

-- `decode_aggregate` returns the five slots that were written, where each slot that is there has
-- between 1 and 2^35 - 1 bytes of data.
pub decode_aggregate-put_slots :
    (count sum min max counter : Option Bytes)
    → IsSlot count
    → IsSlot sum
    → IsSlot min
    → IsSlot max
    → IsSlot counter
    → decode_aggregate (put_slots (count ∷ sum ∷ min ∷ max ∷ counter ∷ []))
      ≡ ok (aggregate count sum min max counter)
unfolding decode_aggregate aggregate_of
decode_aggregate-put_slots count sum min max counter a b c d e =
    let slots = count ∷ sum ∷ min ∷ max ∷ counter ∷ [] in
    let r =
      ap (read_slots 5) (sym (append-nil (put_slots slots)))
      ∙ read_slots-put_slots slots [] (a, (b, (c, (d, (e, tt))))) in
    rw r refl

-- What `decode_aggregate_counter` makes of the counter slot.
abbrev pub samples_of : Codecs → Option Bytes → IoResult (List Sample)
samples_of codecs none = ok []
samples_of codecs (some payload) = decode_xor codecs payload

xor_data-fault :
    (fault fault' : ℕ → ChunkFault) (slot_data : Bytes) {payload : Bytes}
    → xor_data fault slot_data ≡ ok payload
    → xor_data fault' slot_data ≡ ok payload
unfolding xor_data
xor_data-fault fault fault' slot_data e = ground arith

counter_of_slot :
    (codecs : Codecs) (slot payload : Option Bytes)
    → checked_slot slot ≡ ok payload
    → elim slot [
      | none ↦ ok []
      | some slot_data ↦ xor_data unsupported_counter_encoding slot_data >>= decode_xor codecs
    ]
      ≡ samples_of codecs payload
unfolding checked_slot
counter_of_slot codecs none payload e = ap (samples_of codecs) (let x : none ≡ payload = cc in x)
counter_of_slot codecs (some slot_data) payload e =
    let (d, p, q) = >>=-eq-ok (xor_data unsupported_slot_encoding slot_data) _ e in
    rw (xor_data-fault unsupported_slot_encoding unsupported_counter_encoding slot_data p)
      (ap (samples_of codecs) (let x : some d ≡ payload = cc in x))

-- What one round has read, where the loop comes to an end.
first_slot :
    (before : ℕ) (bytes : Bytes) (slots : List (Option Bytes)) (rest : Bytes)
    → read_slots (suc before) bytes ≡ ok (slots, rest)
    → (a : Option Bytes × Bytes) × (d : Option Bytes) × (more : List (Option Bytes) × Bytes)
      × (read_slot bytes ≡ ok a)
      × (checked_slot a.0 ≡ ok d)
      × (read_slots before a.1 ≡ ok more)
      × (d ∷ more.0 ≡ slots)
unfolding read_slots
first_slot before bytes slots rest e =
    let (a, p, q) = >>=-eq-ok (read_slot bytes) _ e in
    let (d, r, s) = >>=-eq-ok (checked_slot a.0) _ q in
    let (t, u, w) = >>=-eq-ok (read_slots before a.1) _ s in (a, d, t, p, r, u, cc)

counter_slot-read_slots :
    (codecs : Codecs) (before : ℕ) (bytes : Bytes) (slots : List (Option Bytes)) (rest : Bytes)
    (payload : Option Bytes)
    → read_slots (suc before) bytes ≡ ok (slots, rest)
    → get_elem? slots before ≡ some payload
    → counter_slot codecs before bytes ≡ samples_of codecs payload
unfolding counter_slot
counter_slot-read_slots codecs zero bytes slots rest payload e f =
    let (a, d, t, p, r, u, m) = first_slot 0 bytes slots rest e in
    let g = ap (λ l. get_elem? l 0) m ∙ f in
    rw p (counter_of_slot codecs a.0 d r ∙ ap (samples_of codecs) (let x : d ≡ payload = cc in x))
counter_slot-read_slots codecs (suc before) bytes slots rest payload e f =
    let (a, d, t, p, r, u, m) = first_slot (suc before) bytes slots rest e in
    let g = ap (λ l. get_elem? l (suc before)) m ∙ f in
    rw p (counter_slot-read_slots codecs before a.1 t.0 t.1 payload u g)

aggregate_slots :
    (slots : List (Option Bytes)) {count sum min max counter : Option Bytes}
    → aggregate_of slots ≡ ok (aggregate count sum min max counter)
    → get_elem? slots 4 ≡ some counter
unfolding aggregate_of
aggregate_slots [] e = cc
aggregate_slots (a ∷ []) e = cc
aggregate_slots (a ∷ b ∷ []) e = cc
aggregate_slots (a ∷ b ∷ c ∷ []) e = cc
aggregate_slots (a ∷ b ∷ c ∷ d ∷ []) e = cc
aggregate_slots (a ∷ b ∷ c ∷ d ∷ f ∷ slots) e = cc

-- Where `decode_aggregate` succeeds, `decode_aggregate_counter` gives the samples of the counter
-- slot that it returns, and none where that slot is empty.
pub decode_aggregate_counter-decode_aggregate :
    (codecs : Codecs) (payload : Bytes) (count sum min max counter : Option Bytes)
    → decode_aggregate payload ≡ ok (aggregate count sum min max counter)
    → decode_aggregate_counter codecs payload ≡ samples_of codecs counter
unfolding decode_aggregate decode_aggregate_counter
decode_aggregate_counter-decode_aggregate codecs payload count sum min max counter e =
    let (r, p, q) = >>=-eq-ok (read_slots 5 payload) _ e in
    let (u, v, w) = >>=-eq-ok (ensure (length r.1 == 0) _) _ q in
    counter_slot-read_slots codecs 4 payload r.0 r.1 counter p (aggregate_slots r.0 w)
