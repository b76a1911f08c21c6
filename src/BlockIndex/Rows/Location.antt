-- ===== src/BlockIndex/Rows/Location.antt =====
-- The place of a chunk in the index files against the reference that the TSDB index has for it.
use thanos_datafusion_experi.Common.{
  ℕ, zero, suc, ◌+◌, ◌-◌, ◌*◌, ◌/◌, ◌%◌, ◌^◌, ◌<◌, ◌≡◌, refl, ◌∙◌, ap, Option, none, some, [], ◌∷◌,
  ◌++◌, append_assoc, arith, ◌==◌, length, Bool-cases, le→leb, lt→ltb, inl, inr,
}
use thanos_datafusion_experi.Common.Text.{Text, codes}
use thanos_datafusion_experi.Config.{parse_digits}
use thanos_datafusion_experi.TsdbIndex.Entry.{Chunk}
use thanos_datafusion_experi.BlockIndex.Meta.{SeriesChunkLocation}
use thanos_datafusion_experi.BlockIndex.Paths.{strip_prefix, decimal, pad, six_digits}
use thanos_datafusion_experi.BlockIndex.Rows.{chunk_file_seq, chunk_file_path, location_of}

strip_prefix-append : (prefix rest : Text) → strip_prefix prefix (prefix ++ rest) ≡ some rest
unfolding strip_prefix
strip_prefix-append [] rest = refl
strip_prefix-append (c ∷ prefix) rest = ground (arith, strip_prefix-append prefix rest)

-- 10 ^ count
abbrev ten_to : ℕ → ℕ
ten_to zero = 1
ten_to (suc count) = 10 * ten_to count

digit_lem :
    (n : ℕ) (rest : Text)
    → n < 2 ^ 64
    → parse_digits ((48 + n % 10) ∷ rest) (n / 10) ≡ parse_digits rest n
unfolding parse_digits
digit_lem n rest k =
    let whole : n / 10 * 10 + (48 + n % 10 - 48) ≡ n = omega arith in
    rw
      (
        whole,
        le→leb 48 (48 + n % 10) (omega arith),
        le→leb (48 + n % 10) 57 (omega arith),
        lt→ltb n (2 ^ 64) k,
      )
      refl

decimal_lem :
    (count n : ℕ) (rest : Text)
    → n < ten_to count
    → n < 2 ^ 64
    → parse_digits (decimal count n rest) 0 ≡ parse_digits rest n
unfolding decimal parse_digits
decimal_lem zero n rest h k = let e : n ≡ 0 = omega arith in rw e
decimal_lem (suc count) n rest h k = elim (Bool-cases (n == 0)) [
  | inl e ↦ rw e (let z : n ≡ 0 = ground arith in rw z)
  | inr e ↦ rw e (
      decimal_lem count (n / 10) ((48 + n % 10) ∷ rest) (omega arith) (omega arith)
      ∙ digit_lem n rest k)
]

pad_lem : (missing : ℕ) (text : Text) → parse_digits (pad missing text) 0 ≡ parse_digits text 0
unfolding pad parse_digits
pad_lem zero text = refl
pad_lem (suc missing) text = pad_lem missing text

-- `{:06}` of a `u32` reads back as that number.
six_digits_lem : (n : ℕ) → n < 2 ^ 32 → parse_digits (six_digits n) 0 ≡ some n
unfolding six_digits parse_digits
six_digits_lem n h =
    pad_lem (6 - length (decimal 10 n [])) (decimal 10 n [])
    ∙ decimal_lem 10 n [] (omega arith) (omega arith)

abbrev joined : ℕ → Option ℕ → Option ℕ
joined offset none = none
joined offset (some number) = some ((number - 1) * 2 ^ 32 + offset)

abbrev number_in : Option Text → Option ℕ
number_in none = none
number_in (some digits) = parse_digits digits 0

-- The reference that a location under the path of a block stands for.
unfoldable pub reference_of : Text → SeriesChunkLocation → Option ℕ
unfolding strip_prefix parse_digits
reference_of block_path l =
    joined l.chunk_file_offset
      (number_in (strip_prefix (block_path ++ codes "/chunks/") l.chunk_file_path))

-- Up to the last file that a `u32` can number, the path and the offset of a chunk determine the
-- reference that the TSDB index has for it.
pub reference_of-location_of :
    (block_path : Text) (c : Chunk)
    → c.reference < (2 ^ 32 - 1) * 2 ^ 32
    → reference_of block_path (location_of block_path c) ≡ some c.reference
unfolding reference_of location_of chunk_file_path
reference_of-location_of block_path c h =
    let seq = (chunk_file_seq c + 1) % 2 ^ 32 in
    rw
      (
        ← append_assoc block_path (codes "/chunks/") (six_digits seq),
        strip_prefix-append (block_path ++ codes "/chunks/") (six_digits seq),
        six_digits_lem seq (omega arith),
      )
      (ap some (omega arith))
