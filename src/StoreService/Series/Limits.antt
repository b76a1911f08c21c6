-- ===== src/StoreService/Series/Limits.antt =====
-- What the `series` call promises of its answer.
use thanos_datafusion_experi.Common.{
  concat, ℕ, zero, suc, ◌+◌, ◌-◌, ◌≤◌, ◌<◌, ◌≡◌, refl, ap, ◌∙◌, Bool, true, ◌||◌, List, [], ◌∷◌,
  ◌++◌, map, arith, ok, ltb, leb, ◌==◌, if◌then◌else◌, Bool-cases, inl, inr, leb_false→lt, length,
  take, drop, All, length-take, length-drop, take-append-drop, Ensures, holds, Ensures-of,
  Ensures-bind, Ensures-if, Ensures-eq-ok,
}
use thanos_datafusion_experi.Common.Int.{ℤ}
use thanos_datafusion_experi.StoreService.Match.{Status, SeriesDescriptor}
use thanos_datafusion_experi.StoreService.Chunks.{Service}
use thanos_datafusion_experi.StoreService.Series.{
  SeriesRequest, SeriesItem, SeriesResponse, one_series, series_batch, warning, encode_chunks,
  selected_resolution, answers, series_loop, chunks_of, respond,
}

module _ (service : Service) (request : SeriesRequest) (requested : List ℤ) (abort : Bool) where
  -- A series answers the request: it has chunks, unless they are not asked for.
  abbrev pub IsAnswer : SeriesItem → Type 0
  IsAnswer item = (request.skip_chunks || ltb 0 (length item.chunks)) ≡ true

  Fits : ℕ → ℕ → List SeriesItem × List Status → Type 0
  Fits count bound (items, warnings) = (length items ≤ bound - count) × All IsAnswer items

  loop-Ensures :
      (count bound : ℕ) (ds : List SeriesDescriptor)
      → Ensures (Fits count bound) (series_loop service request requested abort count bound ds)
  unfolding series_loop answers Fits
  loop-Ensures count bound [] = holds (omega arith, tt)
  loop-Ensures count bound (d ∷ ds) = elim (Bool-cases (leb bound count)) [
    | inl full ↦ rw full (holds (omega arith, tt))
    | inr more ↦ rw more (
        Ensures-if (selected_resolution service request requested abort d)
          (Ensures-bind
            (Ensures-of (λ _. Unit {0})
              (if request.skip_chunks
                then ok ([], [])
                else encode_chunks service request requested abort d.repository_uri d.chunks)
              (λ _ _. tt))
            λ (chunks, warnings) _.
              elim (Bool-cases (answers service request requested abort chunks)) [
                | inl kept ↦ rw kept (
                    Ensures-bind (loop-Ensures (count + 1) bound ds) λ (items, later) h.
                      holds (omega (arith, h.0, leb_false→lt bound count more), (kept, h.1)))
                | inr left ↦ rw left (
                    Ensures-bind (loop-Ensures count bound ds) λ (items, later) h. holds (h.0, h.1))
              ])
          (loop-Ensures count bound ds))
  ]

  -- When the loop of the `series` call succeeds it returns at most as many series as the limit,
  -- and each has a chunk unless the request skips chunks.
  pub series_loop_limit :
      (bound : ℕ) (ds : List SeriesDescriptor) (items : List SeriesItem) (warnings : List Status)
      → series_loop service request requested abort 0 bound ds ≡ ok (items, warnings)
      → (length items ≤ bound) × All IsAnswer items
  unfolding Fits
  series_loop_limit bound ds items warnings e =
      let h = Ensures-eq-ok (loop-Ensures 0 bound ds) e in (omega (arith, h.0), h.1)

concat-chunks_of {ℓ} :
    {A : Type ℓ} (fuel size : ℕ) (xs : List A)
    → 0 < size
    → length xs ≤ fuel
    → concat (chunks_of fuel size xs) ≡ xs
unfolding chunks_of
concat-chunks_of zero size [] h f = refl
concat-chunks_of zero size (x ∷ xs) h f = absurd (omega arith)
concat-chunks_of (suc fuel) size [] h f = refl
concat-chunks_of (suc fuel) size (x ∷ xs) h f =
    ap (λ ys. take size (x ∷ xs) ++ ys)
      (concat-chunks_of fuel size (drop size (x ∷ xs)) h (omega (arith, length-drop size (x ∷ xs))))
    ∙ take-append-drop size (x ∷ xs)

All-chunks_of {ℓ} :
    {A : Type ℓ} (fuel size : ℕ) (xs : List A)
    → 0 < size
    → All (λ ys. (0 < length ys) × (length ys ≤ size)) (chunks_of fuel size xs)
unfolding chunks_of
All-chunks_of zero size xs h = tt
All-chunks_of (suc fuel) size [] h = tt
All-chunks_of (suc fuel) size (x ∷ xs) h = (
  (omega (arith, length-take size (x ∷ xs)), omega (arith, length-take size (x ∷ xs))),
  All-chunks_of fuel size (drop size (x ∷ xs)) h,
)

-- The series of a response.
abbrev pub items_of : SeriesResponse → List SeriesItem
items_of (one_series item) = item ∷ []
items_of (series_batch items) = items
items_of (warning status) = []

items-map_one : (items : List SeriesItem) → concat (map items_of (map one_series items)) ≡ items
items-map_one [] = refl
items-map_one (item ∷ items) = ap (λ ys. item ∷ ys) (items-map_one items)

items-map_batch :
    (batches : List (List SeriesItem))
    → concat (map items_of (map series_batch batches)) ≡ concat batches
items-map_batch [] = refl
items-map_batch (b ∷ batches) = ap (λ ys. b ++ ys) (items-map_batch batches)

Sized-map_one :
    (size : ℕ) (items : List SeriesItem)
    → 0 < size
    → All (λ r. (0 < length (items_of r)) × (length (items_of r) ≤ size)) (map one_series items)
Sized-map_one size [] h = tt
Sized-map_one size (item ∷ items) h = ((omega arith, h), Sized-map_one size items h)

Sized-map_batch :
    (size : ℕ) (batches : List (List SeriesItem))
    → All (λ ys. (0 < length ys) × (length ys ≤ size)) batches
    → All (λ r. (0 < length (items_of r)) × (length (items_of r) ≤ size)) (map series_batch batches)
Sized-map_batch size [] h = tt
Sized-map_batch size (b ∷ batches) h = (h.0, Sized-map_batch size batches h.1)

-- With a batch size above 0 the responses together hold the series in order, and each holds at
-- least one series and at most the batch size.
pub respond_lem :
    (size : ℕ) (items : List SeriesItem)
    → 0 < size
    → (concat (map items_of (respond size items)) ≡ items)
      × All (λ r. (0 < length (items_of r)) × (length (items_of r) ≤ size)) (respond size items)
unfolding respond
respond_lem size items h = elim (Bool-cases (size == 1)) [
  | inl single ↦ rw single (items-map_one items, Sized-map_one size items h)
  | inr batches ↦ rw batches (
    items-map_batch (chunks_of (length items) size items)
        ∙ concat-chunks_of (length items) size items h (omega arith),
    Sized-map_batch size (chunks_of (length items) size items)
        (All-chunks_of (length items) size items h),
  )
]
