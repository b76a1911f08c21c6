-- ===== src/TsdbIndex/Align.antt =====
-- `align_series`: the next multiple of 16.
use thanos_datafusion_experi.Common.{
  ℕ, ◌+◌, ◌-◌, ◌*◌, ◌/◌, ◌%◌, ◌^◌, ◌≤◌, ◌<◌, ◌≡◌, ap, ◌∙◌, arith, ok,
}
use thanos_datafusion_experi.Common.Bits.{bit_and, bit_and-high, bit_and-ones}
use thanos_datafusion_experi.TsdbIndex.Reader.{align_series, alignment_mask}
use native.Mathlib.Nat.{mod-eq_of_lt}

mask_low : (v : ℕ) → v < 2 ^ 64 → bit_and v alignment_mask ≡ v / 16 * 16
mask_low v h =
    ap (λ (t : ℕ). bit_and t alignment_mask) split
    ∙ bit_and-high 4 (2 ^ 60 - 1) (v / 16) (v % 16) (omega arith)
    ∙ ap (λ (t : ℕ). t * 2 ^ 4) (bit_and-ones 60 (v / 16))
    ∙ ap (λ (t : ℕ). t * 2 ^ 4) (mod-eq_of_lt {n = v / 16} {m = 2 ^ 60} (omega arith))
  where
    split : v ≡ v % 16 + v / 16 * 2 ^ 4
    split = omega arith

-- Below 2^64 - 15 the mask of `align_series` computes the next multiple of 16.
align_series_lem :
    (offset : ℕ) → offset + 15 < 2 ^ 64 → align_series offset ≡ ok ((offset + 15) / 16 * 16)
unfolding align_series
align_series_lem offset h = ground (arith, mask_low (offset + 15) h)

pub align_series_bounds :
    (offset next : ℕ)
    → align_series offset ≡ ok next
    → (offset ≤ next) × (next < offset + 16) × (next % 16 ≡ 0)
unfolding align_series
align_series_bounds offset next e = ground (arith, mask_low (offset + 15))

-- An aligned offset stays.
pub align_series_fixed :
    (offset : ℕ) → offset % 16 ≡ 0 → offset + 15 < 2 ^ 64 → align_series offset ≡ ok offset
align_series_fixed offset m h = align_series_lem offset h ∙ ap ok (omega arith)
