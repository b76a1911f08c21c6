-- ===== src/Tests/TaskRuns.antt =====
-- Runs of `get_page` of storage/mod.rs.
use thanos_datafusion_experi.Common.{
  ℕ, ◌≡◌, refl, ◌==◌, if◌then◌else◌, none, List, [], ◌∷◌, ok, err, ok_or, get_range, true,
}
use thanos_datafusion_experi.Common.Text.{Bytes, codes}
use thanos_datafusion_experi.Storage.Reader.{IoResult, other, unexpected_eof}
use thanos_datafusion_experi.Storage.Cache.{PageKey, slru}
use thanos_datafusion_experi.Storage.Cache.Uses.{empty_cache}
use thanos_datafusion_experi.Storage.PagePath.{
  digest_input, to_be_bytes, page_path, page_temporary_path,
}
use thanos_datafusion_experi.Storage.Tasks.{RangeCache, Phase, looking, finished, fetch}
use thanos_datafusion_experi.Storage.Tasks.Runs.{run, opened, calls}
use thanos_datafusion_experi.Storage.Tasks.Polls.{alone}
use thanos_datafusion_experi.Storage.Tasks.Alone.{Works, get_page_alone}

abbrev page_a : PageKey
page_a = record { repository = codes "main"; path = codes "000001"; offset = 0 }

abbrev page_b : PageKey
page_b = record { repository = codes "main"; path = codes "000001"; offset = 4 }

-- A digest of 32 bytes with the last byte of the input.
last_byte : Bytes → ℕ
last_byte [] = 0
last_byte (b ∷ []) = b
last_byte (b ∷ d ∷ bytes) = last_byte (d ∷ bytes)

digest_of : Bytes → Bytes
digest_of input =
    last_byte input
    ∷ 0
    ∷ 0
    ∷ 0
    ∷ 0
    ∷ 0
    ∷ 0
    ∷ 0
    ∷ 0
    ∷ 0
    ∷ 0
    ∷ 0
    ∷ 0
    ∷ 0
    ∷ 0
    ∷ 0
    ∷ 0
    ∷ 0
    ∷ 0
    ∷ 0
    ∷ 0
    ∷ 0
    ∷ 0
    ∷ 0
    ∷ 0
    ∷ 0
    ∷ 0
    ∷ 0
    ∷ 0
    ∷ 0
    ∷ 0
    ∷ 0
    ∷ []

abbrev two_pages : Bytes
two_pages = 10 ∷ 11 ∷ 12 ∷ 13 ∷ 14 ∷ 15 ∷ 16 ∷ 17 ∷ []

-- Two pages of 4 bytes in the object, and room for one in the cache.
abbrev cache : RangeCache
cache = record {
  directory = codes "/cache";
  page_size = 4;
  max_size = 4;
  policy = slru;
  protected_limit = 3;
  process_id = codes "17";
  sha256 = digest_of;
  stat = λ repository path. ok 8;
  read = λ repository path start end. ok_or (get_range two_pages start end) unexpected_eof;
  creates = λ call path. true;
  write_stops = λ call path. none;
  renames = λ call path. true;
  removes = λ call path. true;
  read_error = λ call path. none;
}

-- The third call is for the other page.
abbrev keys : ℕ → PageKey
keys t = if t == 2 then page_b else page_a

-- The first two calls share a flight, the third evicts their page, the fourth starts a flight for it
-- and the second one, only then done, drops that flight from the map, so the fifth starts another.
-- The fourth has written its temporary file when the fifth truncates it, and publishes it empty; the
-- sixth call reads the page. The fifth then writes, and finds no temporary file to rename.
abbrev lost : List ℕ
lost =
    0 ∷ 0 ∷ 1 ∷ 1 ∷ 0 ∷ 0 ∷ 0 ∷ 0 ∷ 0 ∷ 0 ∷ 0 ∷ 0 ∷ 2 ∷ 2 ∷ 2 ∷ 2 ∷ 2 ∷ 2 ∷ 2 ∷ 2 ∷ 2 ∷ 2 ∷ 2 ∷ 3
    ∷ 3 ∷ 1 ∷ 1 ∷ 4 ∷ 4 ∷ 3 ∷ 3 ∷ 3 ∷ 4 ∷ 4 ∷ 3 ∷ 3 ∷ 5 ∷ 5 ∷ 4 ∷ 4 ∷ 4 ∷ 4 ∷ []

abbrev last : ℕ → Phase
last t = ((run cache lost (calls keys) (opened empty_cache page_a)).0 t).phase

second_call : last 1 ≡ finished (ok (10 ∷ 11 ∷ 12 ∷ 13 ∷ []))
unfolding run digest_of last_byte digest_input to_be_bytes page_path page_temporary_path
second_call = refl

third_call : last 2 ≡ finished (ok (14 ∷ 15 ∷ 16 ∷ 17 ∷ []))
unfolding run digest_of last_byte digest_input to_be_bytes page_path page_temporary_path
third_call = refl

sixth_call : last 5 ≡ finished (ok [])
unfolding run digest_of last_byte digest_input to_be_bytes page_path page_temporary_path
sixth_call = refl

fifth_call : last 4 ≡ finished (err other)
unfolding run digest_of last_byte digest_input to_be_bytes page_path page_temporary_path
fifth_call = refl

cache-Works : Works cache
cache-Works = record {
  creates = λ call path. refl;
  writes = λ call path. refl;
  renames = λ call path. refl;
  reads = λ call path. refl;
}

alone_example :
    (n : ℕ) × ((alone cache n page_b looking (opened empty_cache page_a)).0
      ≡ finished (fetch cache page_b))
alone_example =
    get_page_alone cache cache-Works page_b (opened empty_cache page_a) refl
      (λ bytes e. absurd (cc e))

-- The run up to the point where the second call has the answer of the flight.
abbrev shared_flight : List ℕ
shared_flight = 0 ∷ 0 ∷ 1 ∷ 1 ∷ 0 ∷ 0 ∷ 0 ∷ 0 ∷ 0 ∷ 0 ∷ 1 ∷ []

abbrev first_page : IoResult Bytes
first_page = ok (10 ∷ 11 ∷ 12 ∷ 13 ∷ [])
