-- ===== src/TsdbIndex/Varint.antt =====
-- `read_uvarint` and `read_varint` against the encodings that Prometheus writes.
pub mod RoundTrip
use thanos_datafusion_experi.Common.{
  ℕ, zero, suc, ◌+◌, ◌*◌, ◌/◌, ◌%◌, ◌^◌, ◌≤◌, ◌<◌, ◌≡◌, refl, sym, ap, ◌∙◌, some, [], ◌∷◌, ◌++◌,
  arith, ok, err, panicked, stuck, ◌>>=◌, ltb, if◌then◌else◌, length, drop, drop-drop, get_elem?,
  get_elem?-drop, get_elem?_bound, Option-cases, Bool-cases, inl, inr,
}
use thanos_datafusion_experi.Common.Bits.{
  bit_and, bit_and-ones, bit_or-above, bit_xor-ones, bit_xor-zero, bit_and-high,
}
use thanos_datafusion_experi.Common.Int.{ℤ, pos, negsuc, IsU64, IsI64}
use thanos_datafusion_experi.Common.Text.{Bytes}
use thanos_datafusion_experi.TsdbIndex.Reader.{
  Res, add_group, uvarint_loop, read_uvarint, unzigzag, read_varint,
}
use native.Mathlib.Nat.{pow-le-pow_right, pow-suc, mod-eq_of_lt, div-add-mod, add-zero}
use native.Mathlib.Decide.{dec_lt}
use native.Mathlib.Numerals.{towards_suc}

-- Seven bits a byte, lowest first, for a number below `128 ^ (k + 1)`.
unfoldable pub uvarint_digits : ℕ → ℕ → Bytes
uvarint_digits zero v = v ∷ []
uvarint_digits (suc k) v =
    let more = uvarint_digits k (v / 128) in if ltb v 128 then v ∷ [] else (v % 128 + 128) ∷ more

-- A `u64` takes ten groups at most.
unfoldable pub uvarint : ℕ → Bytes
unfolding uvarint_digits
uvarint v = uvarint_digits 9 v

unfoldable pub zigzag : ℤ → ℕ
zigzag (pos n) = n * 2
zigzag (negsuc n) = n * 2 + 1

low_group : (b : ℕ) → bit_and b 0x7f ≡ b % 128
low_group b = bit_and-ones 7 b

-- The continuation bit.
pub top_bit : (b : ℕ) → bit_and b 0x80 ≡ b / 128 % 2 * 128
top_bit b = ground (
  arith,
  ap (λ (t : ℕ). bit_and t 0x80) split,
  bit_and-high 7 1 (b / 128) (b % 128) (omega arith),
  bit_and-ones 1 (b / 128),
)
  where
    split : b ≡ b % 128 + b / 128 * 2 ^ 7
    split = omega arith

shift_bound : (i : ℕ) → i ≤ 8 → 2 ^ (i * 7) ≤ 2 ^ 56
shift_bound i h = pow-le-pow_right {n = 2} (omega arith) {i = i * 7} {j = 56} (omega arith)

pow-add_seven : (n : ℕ) → 2 ^ (n + 7) ≡ 128 * 2 ^ n
pow-add_seven n = simp (towards_suc, pow-suc) (omega arith)

pub shift_step : (i : ℕ) → 2 ^ ((i + 1) * 7) ≡ 128 * 2 ^ (i * 7)
shift_step i =
    ap (λ (t : ℕ). 2 ^ t) (let e : (i + 1) * 7 ≡ i * 7 + 7 = omega arith in e)
    ∙ pow-add_seven (i * 7)

-- The group goes above what has been read, and nothing is lost.
pub add_group_fits :
    (value byte index : ℕ)
    → value < 2 ^ (index * 7)
    → byte % 128 * 2 ^ (index * 7) < 2 ^ 64
    → add_group value byte index ≡ value + byte % 128 * 2 ^ (index * 7)
add_group_fits value byte index h fits =
    rw (low_group byte, mod-eq_of_lt fits) (bit_or-above (index * 7) (byte % 128) value h)

pub group_fits : (g i : ℕ) → g < 128 → i ≤ 8 → g * 2 ^ (i * 7) < 2 ^ 63
group_fits g i h k = grind (arith, shift_bound i k)

-- One round of the loop on a byte that it accepts.
pub add_group_lem :
    (value byte index : ℕ)
    → index ≤ 9
    → value < 2 ^ (index * 7)
    → (index ≡ 9 → byte ≤ 1)
    → (add_group value byte index ≡ value + byte % 128 * 2 ^ (index * 7))
      × (add_group value byte index < 2 ^ 64)
      × (add_group value byte index < 2 ^ ((index + 1) * 7))
add_group_lem value byte index hi hv last = elim (dec_lt index 9) [
  | yes early ↦
      let g = group_fits (byte % 128) index (omega arith) (omega arith) in
      let sum = add_group_fits value byte index hv (omega arith) in
      let low = shift_bound index (omega arith) in
      (sum, rw sum (omega arith), rw (sum, shift_step index) (grind arith))
  | no late ↦
      let nine : index ≡ 9 = omega arith in
      let top : 2 ^ (index * 7) ≡ 2 ^ 63 = ap (λ (t : ℕ). 2 ^ (t * 7)) nine in
      let small : byte % 128 ≤ 1 = omega (arith, last nine) in
      let product : byte % 128 * 2 ^ (index * 7) ≤ 2 ^ (index * 7) = grind arith in
      let sum = add_group_fits value byte index hv (omega arith) in
      (sum, rw sum (omega arith), rw (sum, shift_step index) (omega arith))
]

pub uvarint_loop_bounds :
    (rounds : ℕ) (bytes : Bytes) (offset index value v n : ℕ)
    → index + rounds ≡ 10
    → value < 2 ^ (index * 7)
    → uvarint_loop rounds bytes offset index value ≡ ok (v, n)
    → IsU64 v × (index < n) × (n ≤ 10) × (offset + n ≤ length bytes)
unfolding uvarint_loop
uvarint_loop_bounds zero bytes offset index value v n hr hv e = cc
uvarint_loop_bounds (suc rounds) bytes offset index value v n hr hv e =
    elim (Option-cases (get_elem? bytes (offset + index))) [
      | inl missing ↦ cc (rw (missing, uvarint_loop) at e)
      | inr (byte, found) ↦ ground (
        arith,
        found,
        get_elem?_bound bytes (offset + index) found,
        add_group_lem value byte index,
        uvarint_loop_bounds rounds bytes offset (index + 1) (add_group value byte index) v n,
      )
    ]

-- A value that is read is a `u64`, takes one to ten bytes, and lies within the input.
pub read_uvarint_bounds :
    (bytes : Bytes) (offset v n : ℕ)
    → read_uvarint bytes offset ≡ ok (v, n)
    → IsU64 v × (0 < n) × (n ≤ 10) × (offset + n ≤ length bytes)
unfolding read_uvarint
read_uvarint_bounds bytes offset v n e =
    uvarint_loop_bounds 10 bytes offset 0 0 v n refl (omega arith) e

-- Whatever word is read, the result is an `i64`.
unzigzag-IsI64 : (v : ℕ) → IsU64 v → IsI64 (unzigzag v)
unfolding unzigzag
unzigzag-IsI64 v h =
    ground (arith, bit_and-ones 1 v, bit_xor-zero (v / 2), bit_xor-ones 64 (v / 2) (omega arith))

-- A number that `read_varint` returns is an `i64`, takes at least one byte and lies within the
-- input.
pub read_varint_bounds :
    (bytes : Bytes) (position : ℕ) (z : ℤ) (n : ℕ)
    → read_varint bytes position ≡ ok (z, n)
    → IsI64 z × (0 < n) × (position + n ≤ length bytes)
unfolding read_varint
read_varint_bounds bytes position z n e = go (read_uvarint bytes position) refl e
  where
    go :
        (r : Res (ℕ × ℕ))
        → read_uvarint bytes position ≡ r
        → ◌>>=◌ {B = ℤ × ℕ} r (λ (v, size). ok (unzigzag v, size)) ≡ ok (z, n)
        → IsI64 z × (0 < n) × (position + n ≤ length bytes)
    go (ok (v, size)) p q =
        ground (arith, unzigzag-IsI64 v, read_uvarint_bounds bytes position v size p)
    go (err x) p q = cc
    go panicked p q = cc
    go stuck p q = cc
