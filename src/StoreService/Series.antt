-- ===== src/StoreService/Series.antt =====
-- The `series` call of store_service.rs.
pub mod Limits
use thanos_datafusion_experi.Common.{
  ℕ, zero, suc, ◌+◌, Bool, true, false, not, ◌||◌, Option, none, some, List, [], ◌∷◌, ◌++◌, map,
  Outcome, ok, err, panicked, stuck, ◌>>=◌, ◌>>◌, ensure, ltb, leb, ◌==◌, if◌then◌else◌, length,
  take, drop,
}
use thanos_datafusion_experi.Common.Int.{ℤ, pos, negsuc, eqb_ℤ, leb_ℤ}
use thanos_datafusion_experi.Common.Text.{Text}
use thanos_datafusion_experi.Common.Maps.{Labels}
use thanos_datafusion_experi.MetricTable.Filter.{Regex}
use thanos_datafusion_experi.StoreService.Match.{
  Status, Answer, ChunkLocation, SeriesDescriptor, LabelMatcher, SeriesQuery,
  unsupported_series_options, compile_matchers, matching_series, overlaps, limit,
}
use thanos_datafusion_experi.StoreService.Chunks.{
  AggrChunk, Service, aggr_raw, contains, aggregates, encode_chunk,
}

pub record SeriesRequest : Type 0 where
  pub min_time : ℤ
  pub max_time : ℤ
  pub matchers : List LabelMatcher
  pub max_resolution_window : ℤ
  pub requested_aggregates : List ℤ
  pub skip_chunks : Bool
  pub has_hints : Bool
  pub has_shard_info : Bool
  pub without_replica_labels : List Text
  pub partial_response_disabled : Bool
  pub partial_response_strategy : ℤ
  pub request_limit : ℤ
  pub response_batch_size : ℤ

pub record SeriesItem : Type 0 where
  pub labels : Labels
  pub chunks : List AggrChunk

-- A warning is the message of a status.
pub data SeriesResponse : Type 0 where
  one_series : SeriesItem → SeriesResponse
  series_batch : List SeriesItem → SeriesResponse
  warning : Status → SeriesResponse

unfoldable pub reject_unsupported_series_options : SeriesRequest → Answer (Unit {0})
reject_unsupported_series_options request =
    ensure
      (not (
        request.has_hints
        || (request.has_shard_info || ltb 0 (length request.without_replica_labels))))
      unsupported_series_options

-- One answer of `encode_chunk`: an error stops the call, or becomes a warning.
unfoldable pub add_chunk :
    Bool
    → Answer (Option AggrChunk)
    → Answer (List AggrChunk × List Status)
    → Answer (List AggrChunk × List Status)
add_chunk abort (ok none) rest = rest
add_chunk abort (ok (some chunk)) rest = do (chunks, warnings) ← rest; ok (chunk ∷ chunks, warnings)
add_chunk true (err e) rest = err e
add_chunk false (err e) rest = do (chunks, warnings) ← rest; ok (chunks, e ∷ warnings)
add_chunk abort panicked rest = panicked
add_chunk abort stuck rest = stuck

module _ (service : Service) (request : SeriesRequest) (requested : List ℤ) (abort : Bool) where
  -- `for chunk in &descriptor.chunks`
  unfoldable pub encode_chunks : Text → List ChunkLocation → Answer (List AggrChunk × List Status)
  unfolding encode_chunk add_chunk
  encode_chunks uri [] = ok ([], [])
  encode_chunks uri (c ∷ cs) =
      let rest = encode_chunks uri cs in
      if overlaps c.chunk_mint c.chunk_maxt request.min_time request.max_time
      then add_chunk abort (encode_chunk service uri c requested) rest
      else rest

  unfoldable pub selected_resolution : SeriesDescriptor → Bool
  unfolding contains
  selected_resolution d =
      if contains aggr_raw requested
      then eqb_ℤ d.downsample_resolution (pos 0)
      else leb_ℤ d.downsample_resolution request.max_resolution_window

  -- `if request.skip_chunks || !chunks.is_empty()`
  unfoldable pub answers : List AggrChunk → Bool
  answers chunks = request.skip_chunks || ltb 0 (length chunks)

  -- The loop over the series; the first argument counts the responses so far.
  unfoldable pub series_loop :
      ℕ → ℕ → List SeriesDescriptor → Answer (List SeriesItem × List Status)
  unfolding encode_chunks selected_resolution answers
  series_loop count bound [] = ok ([], [])
  series_loop count bound (d ∷ ds) =
      let passed = series_loop count bound ds in
      let here = do
        (chunks, warnings) ←
            if request.skip_chunks then ok ([], []) else encode_chunks d.repository_uri d.chunks
        let item : SeriesItem = record { labels = d.labels; chunks = chunks }
        let kept = do
          (items, later) ← series_loop (count + 1) bound ds
          ok (item ∷ items, warnings ++ later)
        let left = do (items, later) ← series_loop count bound ds; ok (items, warnings ++ later)
        if answers chunks then kept else left
      in if leb bound count then ok ([], []) else if selected_resolution d then here else passed

-- `slice.chunks(size)`, on fuel for every element.
unfoldable pub chunks_of {ℓ} : {A : Type ℓ} → ℕ → ℕ → List A → List (List A)
chunks_of zero size xs = []
chunks_of (suc fuel) size [] = []
chunks_of (suc fuel) size (x ∷ xs) =
    let rest = chunks_of fuel size (drop size (x ∷ xs)) in take size (x ∷ xs) ∷ rest

-- `usize::try_from(..).ok().filter(|size| *size > 1).unwrap_or(1)`
unfoldable pub batch_size_of : ℤ → ℕ
batch_size_of (pos n) = if ltb 1 n then n else 1
batch_size_of (negsuc n) = 1

unfoldable pub respond : ℕ → List SeriesItem → List SeriesResponse
unfolding chunks_of
respond size items =
    if size == 1
    then map one_series items
    else map series_batch (chunks_of (length items) size items)

module _ (new_regex : Text → Option Regex) (json : Text → Text) (query : SeriesQuery)
    (service : Service) where
  unfoldable pub series : SeriesRequest → Answer (List SeriesResponse)
  unfolding reject_unsupported_series_options compile_matchers aggregates limit matching_series
      series_loop batch_size_of respond
  series request = do
    reject_unsupported_series_options request
    matchers ← compile_matchers new_regex request.matchers
    requested ← aggregates request.requested_aggregates
    bound ← limit request.request_limit
    let abort = request.partial_response_disabled || eqb_ℤ request.partial_response_strategy (pos 1)
    descriptors ← matching_series json query request.min_time request.max_time matchers
    (items, warnings) ← series_loop service request requested abort 0 bound descriptors
    ok (respond (batch_size_of request.response_batch_size) items ++ map warning warnings)
