-- ===== src/TsdbIndex/Varint/RoundTrip.antt =====
-- `read_uvarint` and `read_varint` read back what Prometheus writes.
use thanos_datafusion_experi.Common.{
  ℕ, zero, suc, ◌+◌, ◌*◌, ◌/◌, ◌%◌, ◌^◌, ◌≤◌, ◌<◌, ◌≡◌, refl, sym, ap, ◌∙◌, some, ◌∷◌, ◌++◌, arith,
  ok, ltb, length, drop, drop-drop, get_elem?, get_elem?-drop, Bool-cases, inl, inr,
}
use thanos_datafusion_experi.Common.Bits.{bit_and-ones, bit_xor-ones, bit_xor-zero}
use thanos_datafusion_experi.Common.Int.{ℤ, pos, negsuc, IsU64, IsI64}
use thanos_datafusion_experi.Common.Text.{Bytes}
use thanos_datafusion_experi.TsdbIndex.Reader.{uvarint_loop, read_uvarint, unzigzag, read_varint}
use native.Mathlib.Nat.{mod-eq_of_lt, div-add-mod, add-zero}
use thanos_datafusion_experi.TsdbIndex.Varint.{
  uvarint_digits, uvarint, zigzag, top_bit, shift_step, add_group_fits, group_fits,
}

-- What stands at a position of the input.
pub get_elem?_at :
    (bytes : Bytes) (position : ℕ) {b : ℕ} {rest : Bytes}
    → drop position bytes ≡ b ∷ rest
    → get_elem? bytes position ≡ some b
get_elem?_at bytes position e =
    ap (get_elem? bytes) (sym (add-zero position))
    ∙ sym (get_elem?-drop position 0 bytes)
    ∙ ap (λ xs. get_elem? xs 0) e

pub drop_next :
    (bytes : Bytes) (position : ℕ) {b : ℕ} {rest : Bytes}
    → drop position bytes ≡ b ∷ rest
    → drop (position + 1) bytes ≡ rest
drop_next bytes position e = sym (drop-drop position 1 bytes) ∙ ap (drop 1) e

-- A last group, and one that others follow.
last_round :
    (rounds : ℕ) (bytes : Bytes) (offset index value w : ℕ) {rest : Bytes}
    → index ≤ 9
    → w < 128
    → value < 2 ^ (index * 7)
    → value + w * 2 ^ (index * 7) < 2 ^ 64
    → drop (offset + index) bytes ≡ w ∷ rest
    → uvarint_loop (suc rounds) bytes offset index value
      ≡ ok (value + w * 2 ^ (index * 7), index + 1)
unfolding uvarint_loop
last_round rounds bytes offset index value w hi hw hv fits e = ground (
  arith,
  get_elem?_at bytes (offset + index) e,
  add_group_fits value w index hv,
  ap (λ (t : ℕ). t * 2 ^ (index * 7)) (mod-eq_of_lt hw),
  top_bit w,
  last_small,
)
  where
    last_small : index ≡ 9 → w ≤ 1
    last_small nine =
        let top : w * 2 ^ (index * 7) ≡ w * 2 ^ 63 = ap (λ (t : ℕ). w * 2 ^ (t * 7)) nine in
        omega arith

inner_round :
    (rounds : ℕ) (bytes : Bytes) (offset index value g : ℕ) {rest : Bytes}
    → index ≤ 8
    → g < 128
    → value < 2 ^ (index * 7)
    → drop (offset + index) bytes ≡ (g + 128) ∷ rest
    → uvarint_loop (suc rounds) bytes offset index value
      ≡ uvarint_loop rounds bytes offset (index + 1) (value + g * 2 ^ (index * 7))
unfolding uvarint_loop
inner_round rounds bytes offset index value g hi hg hv e = ground (
  arith,
  get_elem?_at bytes (offset + index) e,
  add_group_fits value (g + 128) index hv,
  ap (λ (t : ℕ). t * 2 ^ (index * 7)) (let m : (g + 128) % 128 ≡ g = omega arith in m),
  top_bit (g + 128),
  group_fits g index hg hi,
)

pub split_group : (w i : ℕ) → w * 2 ^ (i * 7) ≡ w % 128 * 2 ^ (i * 7) + w / 128 * 2 ^ ((i + 1) * 7)
split_group w i = omega (
  arith,
  ap (λ (t : ℕ). t * 2 ^ (i * 7)) (div-add-mod w 128),
  ap (λ (t : ℕ). w / 128 * t) (shift_step i),
)

skip_one : (a b : ℕ) → a + (b + 1) ≡ a + b + 1
skip_one a b = omega arith

uvarint_loop-digits :
    (k rounds : ℕ) (bytes : Bytes) (offset index value w : ℕ) (rest : Bytes)
    → k < rounds
    → index + rounds ≡ 10
    → w < 128 ^ suc k
    → value < 2 ^ (index * 7)
    → value + w * 2 ^ (index * 7) < 2 ^ 64
    → drop (offset + index) bytes ≡ uvarint_digits k w ++ rest
    → uvarint_loop rounds bytes offset index value
      ≡ ok (value + w * 2 ^ (index * 7), index + length (uvarint_digits k w))
unfolding uvarint_digits
uvarint_loop-digits k zero bytes offset index value w rest hk hr hw hv fits e = absurd (omega arith)
uvarint_loop-digits zero (suc rounds) bytes offset index value w rest hk hr hw hv fits e =
    last_round rounds bytes offset index value w (omega arith) hw hv fits e
uvarint_loop-digits (suc k) (suc rounds) bytes offset index value w rest hk hr hw hv fits e =
    elim (Bool-cases (ltb w 128)) [
      | inl small ↦ rw small (
          last_round rounds bytes offset index value w (omega arith) (ground arith) hv fits
            (rw small at e))
      | inr large ↦
          let here = rw large at e in
          let next : drop (offset + (index + 1)) bytes ≡ uvarint_digits k (w / 128) ++ rest =
            rw (skip_one offset index) (drop_next bytes (offset + index) here) in
          let value' = value + w % 128 * 2 ^ (index * 7) in
          let parts = split_group w index in
          let low : w % 128 < 128 = omega arith in
          let low_product : w % 128 * 2 ^ (index * 7) ≤ 127 * 2 ^ (index * 7) = grind arith in
          rw large (
            inner_round rounds bytes offset index value (w % 128) (omega arith) low hv here
            ∙ uvarint_loop-digits k rounds bytes offset (index + 1) value' (w / 128) rest
                (omega arith) (omega arith) (omega arith) (omega (arith, shift_step index))
                (omega arith) next
            ∙ ground arith)
    ]

pub unzigzag-zigzag : (z : ℤ) → IsI64 z → unzigzag (zigzag z) ≡ z
unfolding unzigzag zigzag
unzigzag-zigzag (pos n) h = ground (arith, bit_and-ones 1 (n * 2), bit_xor-zero (n * 2 / 2))
unzigzag-zigzag (negsuc n) h =
    ground (arith, bit_and-ones 1 (n * 2 + 1), bit_xor-ones 64 ((n * 2 + 1) / 2) (omega arith))

-- `read_uvarint` returns the `u64` that is written at the position, and the number of its bytes.
pub read_uvarint-uvarint :
    (bytes : Bytes) (position v : ℕ) (rest : Bytes)
    → IsU64 v
    → drop position bytes ≡ uvarint v ++ rest
    → read_uvarint bytes position ≡ ok (v, length (uvarint v))
unfolding read_uvarint uvarint
read_uvarint-uvarint bytes position v rest h e =
    uvarint_loop-digits 9 10 bytes position 0 0 v rest (omega arith) refl (omega arith)
      (omega arith) (omega arith) (rw add-zero e)
    ∙ ground arith

pub zigzag-IsU64 : (z : ℤ) → IsI64 z → IsU64 (zigzag z)
unfolding zigzag
zigzag-IsU64 (pos n) h = omega arith
zigzag-IsU64 (negsuc n) h = omega arith

-- `read_varint` returns the `i64` whose zigzag form is written at the position, and the number of
-- its bytes.
pub read_varint-zigzag :
    (bytes : Bytes) (position : ℕ) (z : ℤ) (rest : Bytes)
    → IsI64 z
    → drop position bytes ≡ uvarint (zigzag z) ++ rest
    → read_varint bytes position ≡ ok (z, length (uvarint (zigzag z)))
unfolding read_varint
read_varint-zigzag bytes position z rest h e =
    rw (
      read_uvarint-uvarint bytes position (zigzag z) rest (zigzag-IsU64 z h) e,
      unzigzag-zigzag z h,
    )
