-- ===== src/ChunkReader/Varint.antt =====
-- `read_uvarint` of chunk_reader.rs: what it reads back, and the bounds of what it returns.
use thanos_datafusion_experi.Common.{
  ℕ, zero, suc, ◌+◌, ◌*◌, ◌/◌, ◌%◌, ◌^◌, ◌≤◌, ◌<◌, ◌≡◌, refl, ap, ◌∙◌, [], ◌∷◌, ◌++◌, arith, ok,
  ltb, length, Bool-cases, inl, inr,
}
use native.Mathlib.Nat.{pow-le-pow_right, mod-eq_of_lt}
use thanos_datafusion_experi.Common.Text.{Bytes}
use thanos_datafusion_experi.TsdbIndex.Reader.{add_group}
use thanos_datafusion_experi.TsdbIndex.Varint.{
  uvarint_digits, add_group_fits, add_group_lem, top_bit, group_fits, shift_step,
}
use thanos_datafusion_experi.TsdbIndex.Varint.RoundTrip.{split_group}
use thanos_datafusion_experi.ChunkReader.{uvarint_rounds, read_uvarint}

five_groups : (i : ℕ) → i ≤ 4 → 2 ^ ((i + 1) * 7) ≤ 2 ^ 35
five_groups i h = pow-le-pow_right {n = 2} (omega arith) {i = (i + 1) * 7} {j = 35} (omega arith)

rounds_bounds :
    (rounds : ℕ) (bytes : Bytes) (index value v n : ℕ)
    → index + rounds ≡ 5
    → value < 2 ^ (index * 7)
    → uvarint_rounds rounds bytes index value ≡ ok (v, n)
    → (v < 2 ^ 35) × (index < n) × (n ≤ 5) × (n ≤ index + length bytes)
unfolding uvarint_rounds
rounds_bounds zero bytes index value v n hr hv e = cc
rounds_bounds (suc rounds) [] index value v n hr hv e = cc
rounds_bounds (suc rounds) (byte ∷ bytes) index value v n hr hv e = ground (
  arith,
  add_group_lem value byte index,
  five_groups index,
  rounds_bounds rounds bytes (index + 1) (add_group value byte index) v n,
)

-- The length is below 2^35, it takes one to five bytes, and it lies within the input.
pub read_uvarint_bounds :
    (bytes : Bytes) (v n : ℕ)
    → read_uvarint bytes ≡ ok (v, n)
    → (v < 2 ^ 35) × (0 < n) × (n ≤ 5) × (n ≤ length bytes)
unfolding read_uvarint
read_uvarint_bounds bytes v n e = ground (arith, rounds_bounds 5 bytes 0 0 v n refl (omega arith) e)

-- Five groups at most.
unfoldable pub short_uvarint : ℕ → Bytes
unfolding uvarint_digits
short_uvarint v = uvarint_digits 4 v

last_round :
    (rounds : ℕ) (rest : Bytes) (index value w : ℕ)
    → index ≤ 4
    → w < 128
    → value < 2 ^ (index * 7)
    → uvarint_rounds (suc rounds) (w ∷ rest) index value
      ≡ ok (value + w * 2 ^ (index * 7), index + 1)
unfolding uvarint_rounds
last_round rounds rest index value w hi hw hv = ground (
  arith,
  add_group_fits value w index hv,
  ap (λ (t : ℕ). t * 2 ^ (index * 7)) (mod-eq_of_lt hw),
  group_fits w index hw (omega arith),
  top_bit w,
)

inner_round :
    (rounds : ℕ) (rest : Bytes) (index value g : ℕ)
    → index ≤ 4
    → g < 128
    → value < 2 ^ (index * 7)
    → uvarint_rounds (suc rounds) ((g + 128) ∷ rest) index value
      ≡ uvarint_rounds rounds rest (index + 1) (value + g * 2 ^ (index * 7))
unfolding uvarint_rounds
inner_round rounds rest index value g hi hg hv = ground (
  arith,
  add_group_fits value (g + 128) index hv,
  ap (λ (t : ℕ). t * 2 ^ (index * 7)) (let m : (g + 128) % 128 ≡ g = omega arith in m),
  top_bit (g + 128),
  group_fits g index hg (omega arith),
)

rounds-digits :
    (k rounds : ℕ) (rest : Bytes) (index value w : ℕ)
    → k < rounds
    → index + rounds ≡ 5
    → w < 128 ^ suc k
    → value < 2 ^ (index * 7)
    → uvarint_rounds rounds (uvarint_digits k w ++ rest) index value
      ≡ ok (value + w * 2 ^ (index * 7), index + length (uvarint_digits k w))
unfolding uvarint_digits
rounds-digits k zero rest index value w hk hr hw hv = absurd (omega arith)
rounds-digits zero (suc rounds) rest index value w hk hr hw hv =
    last_round rounds rest index value w (omega arith) hw hv
rounds-digits (suc k) (suc rounds) rest index value w hk hr hw hv = elim (Bool-cases (ltb w 128)) [
  | inl small ↦ rw small (last_round rounds rest index value w (omega arith) (ground arith) hv)
  | inr large ↦
      let low : w % 128 < 128 = omega arith in
      let low_product : w % 128 * 2 ^ (index * 7) ≤ 127 * 2 ^ (index * 7) = grind arith in
      let value' = value + w % 128 * 2 ^ (index * 7) in
      rw large (
        inner_round rounds (uvarint_digits k (w / 128) ++ rest) index value (w % 128) (omega arith)
          low hv
        ∙ rounds-digits k rounds rest (index + 1) value' (w / 128) (omega arith) (omega arith)
            (omega arith) (omega (arith, shift_step index))
        ∙ ground (arith, split_group w index))
]

-- It reads back what Prometheus writes.
pub read_uvarint-short_uvarint :
    (v : ℕ) (rest : Bytes)
    → v < 2 ^ 35
    → read_uvarint (short_uvarint v ++ rest) ≡ ok (v, length (short_uvarint v))
unfolding read_uvarint short_uvarint
read_uvarint-short_uvarint v rest h =
    rounds-digits 4 5 rest 0 0 v (omega arith) refl (omega arith) (omega arith) ∙ ground arith
