-- ===== src/StoreService/Info/Cover.antt =====
-- The time range that `info_response` announces.
use thanos_datafusion_experi.Common.{◌⊎◌, inl, inr, List, [], ◌∷◌, arith, All, Bool-cases}
use thanos_datafusion_experi.Common.Int.{ℤ, ◌≤ℤ◌}
use thanos_datafusion_experi.Common.Maps.{Labels}
use thanos_datafusion_experi.StoreService.Info.{
  BlockMetadata, Ranges, min_ℤ, max_ℤ, key_eq, key_ltb, widen, ranges_of, least, greatest,
  least_or_zero, greatest_or_zero, info_response,
}

-- Some range reaches from `lo` to `hi`.
abbrev Covered : ℤ → ℤ → Ranges → Type 0
Covered lo hi [] = ⊥
Covered lo hi ((k, a, b) ∷ ranges) = ((a ≤ℤ lo) × (hi ≤ℤ b)) ⊎ Covered lo hi ranges

min_lem : (a b : ℤ) → (min_ℤ a b ≤ℤ a) × (min_ℤ a b ≤ℤ b)
min_lem a b = ground arith

max_lem : (a b : ℤ) → (a ≤ℤ max_ℤ a b) × (b ≤ℤ max_ℤ a b)
max_lem a b = ground arith

Covered-widen :
    (key : Labels) (lo hi : ℤ) (ranges : Ranges) → Covered lo hi (widen key lo hi ranges)
unfolding widen
Covered-widen key lo hi [] = inl (omega arith, omega arith)
Covered-widen key lo hi ((j, a, b) ∷ ranges) = elim (Bool-cases (key_eq j key)) [
  | inl same ↦ rw same (inl ((min_lem a lo).1, (max_lem b hi).1))
  | inr other ↦ rw other (elim (Bool-cases (key_ltb key j)) [
    | inl below ↦ rw below (inl (omega arith, omega arith))
    | inr above ↦ rw above (inr (Covered-widen key lo hi ranges))
  ])
]

still-Covered :
    (l h : ℤ) (key : Labels) (lo hi : ℤ) (ranges : Ranges)
    → Covered l h ranges
    → Covered l h (widen key lo hi ranges)
unfolding widen
still-Covered l h key lo hi [] c = absurd c
still-Covered l h key lo hi ((j, a, b) ∷ ranges) c = elim (Bool-cases (key_eq j key)) [
  | inl same ↦ rw same (wider c)
  | inr other ↦ rw other (elim (Bool-cases (key_ltb key j)) [
    | inl below ↦ rw below (inr c)
    | inr above ↦ rw above (later c (λ r. still-Covered l h key lo hi ranges r))
  ])
]
  where
    wider : Covered l h ((j, a, b) ∷ ranges) → Covered l h ((j, min_ℤ a lo, max_ℤ b hi) ∷ ranges)
    wider (inl (p, q)) =
        inl (omega (arith, p, (min_lem a lo).0), omega (arith, q, (max_lem b hi).0))
    wider (inr r) = inr r

    later :
        Covered l h ((j, a, b) ∷ ranges)
        → (Covered l h ranges → Covered l h (widen key lo hi ranges))
        → Covered l h ((j, a, b) ∷ widen key lo hi ranges)
    later (inl p) k = inl p
    later (inr r) k = inr (k r)

kept-Covered :
    (l h : ℤ) (blocks : List BlockMetadata) (ranges : Ranges)
    → Covered l h ranges
    → Covered l h (ranges_of blocks ranges)
unfolding ranges_of
kept-Covered l h [] ranges c = c
kept-Covered l h (block ∷ blocks) ranges c =
    kept-Covered l h blocks _
      (still-Covered l h block.external_labels block.min_time block.max_time ranges c)

All-Covered :
    (blocks : List BlockMetadata) (ranges : Ranges)
    → All (λ b. Covered b.min_time b.max_time (ranges_of blocks ranges)) blocks
unfolding ranges_of
All-Covered [] ranges = tt
All-Covered (block ∷ blocks) ranges = (
  kept-Covered block.min_time block.max_time blocks _
      (Covered-widen block.external_labels block.min_time block.max_time ranges),
  All-Covered blocks _,
)

least_bound : (lo : ℤ) (ranges : Ranges) → least lo ranges ≤ℤ lo
unfolding least
least_bound lo [] = omega arith
least_bound lo ((k, a, b) ∷ ranges) =
    omega (arith, least_bound (min_ℤ lo a) ranges, (min_lem lo a).0)

greatest_bound : (hi : ℤ) (ranges : Ranges) → hi ≤ℤ greatest hi ranges
unfolding greatest
greatest_bound hi [] = omega arith
greatest_bound hi ((k, a, b) ∷ ranges) =
    omega (arith, greatest_bound (max_ℤ hi b) ranges, (max_lem hi b).0)

least-Covered :
    (l h lo hi : ℤ) (ranges : Ranges)
    → Covered l h ranges
    → (least lo ranges ≤ℤ l) × (h ≤ℤ greatest hi ranges)
unfolding least greatest
least-Covered l h lo hi [] c = absurd c
least-Covered l h lo hi ((k, a, b) ∷ ranges) (inl (p, q)) = (
  omega (arith, p, least_bound (min_ℤ lo a) ranges, (min_lem lo a).1),
  omega (arith, q, greatest_bound (max_ℤ hi b) ranges, (max_lem hi b).1),
)
least-Covered l h lo hi ((k, a, b) ∷ ranges) (inr r) =
    least-Covered l h (min_ℤ lo a) (max_ℤ hi b) ranges r

bounds-Covered :
    (l h : ℤ) (ranges : Ranges)
    → Covered l h ranges
    → (least_or_zero ranges ≤ℤ l) × (h ≤ℤ greatest_or_zero ranges)
unfolding least_or_zero greatest_or_zero
bounds-Covered l h [] c = absurd c
bounds-Covered l h ((k, a, b) ∷ ranges) (inl (p, q)) =
    (omega (arith, p, least_bound a ranges), omega (arith, q, greatest_bound b ranges))
bounds-Covered l h ((k, a, b) ∷ ranges) (inr r) = least-Covered l h a b ranges r

-- The time range in `info_response` covers the time range of every block.
pub info_response_covers :
    (blocks : List BlockMetadata)
    → All
        (λ b.
          ((info_response blocks).min_time ≤ℤ b.min_time)
          × (b.max_time ≤ℤ (info_response blocks).max_time))
        blocks
unfolding info_response
info_response_covers blocks = each blocks (All-Covered blocks [])
  where
    each :
        (bs : List BlockMetadata)
        → All (λ b. Covered b.min_time b.max_time (ranges_of blocks [])) bs
        → All
            (λ b.
              (least_or_zero (ranges_of blocks []) ≤ℤ b.min_time)
              × (b.max_time ≤ℤ greatest_or_zero (ranges_of blocks [])))
            bs
    each [] h = tt
    each (b ∷ bs) h = (bounds-Covered b.min_time b.max_time (ranges_of blocks []) h.0, each bs h.1)
