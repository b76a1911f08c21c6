-- ===== src/StoreService/Chunks.antt =====
-- `encode_chunk` of store_service.rs: a chunk of the index as an `AggrChunk` of the protocol.
use thanos_datafusion_experi.Common.{
  ℕ, Bool, true, false, ◌&&◌, ◌||◌, Option, none, some, List, [], ◌∷◌, ok, err, panicked, stuck,
  ◌>>=◌, ◌>>◌, ensure, ok_or, if◌then◌else◌,
}
use thanos_datafusion_experi.Common.Int.{ℤ, pos, eqb_ℤ, leb_ℤ}
use thanos_datafusion_experi.Common.Text.{Bytes, Text}
use thanos_datafusion_experi.Storage.Reader.{RangeReader, IoResult}
use thanos_datafusion_experi.ChunkReader.{
  Codecs, EncodedChunk, xor, histogram, float_histogram, aggregate, read_encoded_chunk,
}
use thanos_datafusion_experi.StoreService.Match.{
  Answer, ChunkLocation, no_repository, read_failed, unknown_aggregate,
}

-- The aggregates of the protocol, as their numbers.
abbrev pub aggr_raw : ℤ
aggr_raw = pos 0

abbrev pub aggr_count : ℤ
aggr_count = pos 1

abbrev pub aggr_sum : ℤ
aggr_sum = pos 2

abbrev pub aggr_min : ℤ
aggr_min = pos 3

abbrev pub aggr_max : ℤ
aggr_max = pos 4

abbrev pub aggr_counter : ℤ
aggr_counter = pos 5

pub record Chunk : Type 0 where
  pub kind : ℕ
  pub payload : Bytes
  pub hash : ℕ

pub record AggrChunk : Type 0 where
  pub min_time : ℤ
  pub max_time : ℤ
  pub raw : Option Chunk
  pub count : Option Chunk
  pub sum : Option Chunk
  pub min : Option Chunk
  pub max : Option Chunk
  pub counter : Option Chunk

-- `aggregates.contains(&value)` on a `BTreeSet<i32>`
unfoldable pub contains : ℤ → List ℤ → Bool
contains value [] = false
contains value (v ∷ values) = eqb_ℤ v value || contains value values

-- `collect::<BTreeSet<_>>()`, after `Aggr::try_from`: only whether a value is there is ever read.
unfoldable pub check_aggregates : List ℤ → Answer (List ℤ)
check_aggregates [] = ok []
check_aggregates (value ∷ values) = do
  ensure (leb_ℤ aggr_raw value && leb_ℤ value aggr_counter) unknown_aggregate
  rest ← check_aggregates values
  ok (value ∷ rest)

-- No aggregate is the raw one.
unfoldable pub aggregates : List ℤ → Answer (List ℤ)
unfolding check_aggregates
aggregates [] = check_aggregates (aggr_raw ∷ [])
aggregates (value ∷ values) = check_aggregates (value ∷ values)

-- `xxh64` of the xxhash crate is a parameter.
module _ (xxh64 : Bytes → ℕ) where
  unfoldable pub raw_chunk : Bytes → ℕ → Chunk
  raw_chunk payload encoding = record { kind = encoding; payload = payload; hash = xxh64 payload }

  unfoldable pub aggregate_chunk : Option Bytes → List ℤ → ℤ → Option Chunk
  unfolding raw_chunk contains
  aggregate_chunk none requested aggr = none
  aggregate_chunk (some payload) requested aggr =
      if contains aggr requested then some (raw_chunk payload 0) else none

  -- `match chunk` of `encode_chunk`
  unfoldable pub fill_chunk : ChunkLocation → EncodedChunk → List ℤ → AggrChunk
  unfolding raw_chunk aggregate_chunk
  fill_chunk d (xor payload) requested = record {
    min_time = d.chunk_mint;
    max_time = d.chunk_maxt;
    raw = some (raw_chunk payload 0);
    count = none;
    sum = none;
    min = none;
    max = none;
    counter = none;
  }
  fill_chunk d (histogram payload) requested = record {
    min_time = d.chunk_mint;
    max_time = d.chunk_maxt;
    raw = some (raw_chunk payload 1);
    count = none;
    sum = none;
    min = none;
    max = none;
    counter = none;
  }
  fill_chunk d (float_histogram payload) requested = record {
    min_time = d.chunk_mint;
    max_time = d.chunk_maxt;
    raw = some (raw_chunk payload 2);
    count = none;
    sum = none;
    min = none;
    max = none;
    counter = none;
  }
  fill_chunk d (aggregate count sum min max counter) requested = record {
    min_time = d.chunk_mint;
    max_time = d.chunk_maxt;
    raw = none;
    count = aggregate_chunk count requested aggr_count;
    sum = aggregate_chunk sum requested aggr_sum;
    min = aggregate_chunk min requested aggr_min;
    max = aggregate_chunk max requested aggr_max;
    counter = aggregate_chunk counter requested aggr_counter;
  }

abbrev is_none {ℓ} : {A : Type ℓ} → Option A → Bool
is_none none = true
is_none (some a) = false

unfoldable pub drop_empty : AggrChunk → Option AggrChunk
drop_empty c =
    if is_none c.raw
    then (if is_none c.count
        then (if is_none c.sum
            then (if is_none c.min
                then (if is_none c.max
                    then (if is_none c.counter then none else some c)
                    else some c)
                else some c)
            else some c)
        else some c)
    else some c

-- `.map_err(|error| Status::internal(error.to_string()))`
abbrev internal {ℓ} : {A : Type ℓ} → IoResult A → Answer A
internal (ok a) = ok a
internal (err e) = err (read_failed e)
internal panicked = panicked
internal stuck = stuck

-- What the service holds: the repositories, and the codecs of chunks.
pub record Service : Type 0 where
  pub get : Text → Option RangeReader
  pub codecs : Codecs
  pub xxh64 : Bytes → ℕ

unfoldable pub encode_chunk : Service → Text → ChunkLocation → List ℤ → Answer (Option AggrChunk)
unfolding read_encoded_chunk fill_chunk drop_empty
encode_chunk service repository_uri d requested = do
  reader ← ok_or (service.get repository_uri) (no_repository repository_uri)
  chunk ← internal (read_encoded_chunk service.codecs reader d.chunk_file_path d.chunk_file_offset)
  ok (drop_empty (fill_chunk service.xxh64 d chunk requested))
