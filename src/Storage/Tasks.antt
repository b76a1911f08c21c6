-- ===== src/Storage/Tasks.antt =====
-- `RangeCache::get_page` of storage/mod.rs with `load_cached`, `store_cached` and the shared flights,
-- in the steps between which other tasks may run. A call of the operating system is one step, so
-- `std::fs::write`, which creates or truncates the file and then writes, is two. No code awaits
-- anything while it holds the lock of the cache's state, so each section under the lock is one step
-- too; that a task waits for the lock or for the network is not modelled.

pub mod Runs
pub mod Flights
pub mod Answers
pub mod Polls
pub mod Alone
use mathlib.Core.Option
use thanos_datafusion_experi.Common.{
  ℕ, zero, suc, ◌+◌, ◌-◌, ◌%◌, ◌^◌, Bool, true, false, Option, none, some, List, [], ◌∷◌, ◌++◌, ok,
  err, panicked, stuck, leb, ◌==◌, take, drop, if◌then◌else◌, length,
}
use thanos_datafusion_experi.Common.Text.{Bytes, Text, text_eq}
use thanos_datafusion_experi.Storage.Reader.{IoError, IoResult, not_found, other}
use thanos_datafusion_experi.Storage.Cache.{
  PageKey, PageEntry, Entries, CacheState, CachePolicy, key_eq, find, put, remove, size_of, touch,
  evict_one, store_page,
}
use thanos_datafusion_experi.Storage.Pages.{fetch_page}
use thanos_datafusion_experi.Storage.PagePath.{page_path, page_temporary_path}

-- The fields that do not change, the `stat` and `read` of the repositories, and the answers of
-- `std::fs` by the number of the call: a write that fails has written some number of bytes. The
-- making of the page's directory belongs to the opening of the temporary file.
pub record RangeCache : Type 0 where
  pub directory : Text
  pub page_size : ℕ
  pub max_size : ℕ
  pub policy : CachePolicy
  pub protected_limit : ℕ
  pub process_id : Text
  pub sha256 : Bytes → Bytes
  pub stat : Text → Text → IoResult ℕ
  pub read : Text → Text → ℕ → ℕ → IoResult Bytes
  pub creates : ℕ → Text → Bool
  pub write_stops : ℕ → Text → Option ℕ
  pub renames : ℕ → Text → Bool
  pub removes : ℕ → Text → Bool
  pub read_error : ℕ → Text → Option IoError

-- What is left to do in a flight; a write goes to the file that was opened, whatever its name is by
-- then. The last one is the result that every task that waits receives.
pub data Stage : Type 0 where
  fetching : Stage
  creating renaming recording : Bytes → Stage
  writing : ℕ → Bytes → Stage
  removing : List PageKey → Bytes → Stage
  landed : IoResult Bytes → Stage

pub record Flight : Type 0 where
  pub key : PageKey
  pub stage : Stage

-- Where a call of `get_page` stands: in `load_cached` up to `dropping`, then at its flight.
pub data Phase : Type 0 where
  looking reading dropping joining : Phase
  waiting : ℕ → Phase
  leaving finished : IoResult Bytes → Phase

pub record Task : Type 0 where
  pub key : PageKey
  pub phase : Phase

-- The cache's state, the names of the files on the disk, what each file holds and the next file,
-- the number of calls of `std::fs` so far, the `flights` map, and the flights by number with the
-- next number.
pub record CacheWorld : Type 0 where
  pub state : CacheState
  pub names : Text → Option ℕ
  pub contents : ℕ → Bytes
  pub next_file : ℕ
  pub calls : ℕ
  pub flights : PageKey → Option ℕ
  pub shared : ℕ → Flight
  pub next : ℕ

unfoldable pub set_name : (Text → Option ℕ) → Text → Option ℕ → Text → Option ℕ
unfolding text_eq
set_name names path file q = if text_eq path q then file else names q

unfoldable pub set_content : (ℕ → Bytes) → ℕ → Bytes → ℕ → Bytes
set_content contents i bytes j = if i == j then bytes else contents j

-- What the file of a name holds.
abbrev pub file_at : CacheWorld → Text → Option Bytes
file_at w path = Option.map w.contents (w.names path)

unfoldable pub set_flight : (PageKey → Option ℕ) → PageKey → Option ℕ → PageKey → Option ℕ
unfolding key_eq
set_flight flights key value q = if key_eq key q then value else flights q

unfoldable pub set_shared : (ℕ → Flight) → ℕ → Flight → ℕ → Flight
set_shared shared i flight j = if i == j then flight else shared j

-- The keys that the eviction loops push on `evicted`.
abbrev pushed_key : PageKey → Option PageEntry → List PageKey → List PageKey
pushed_key k none evicted = evicted
pushed_key k (some e) evicted = k ∷ evicted

unfoldable pub evicted_keys : ℕ → Entries → ℕ → List PageKey → List PageKey
unfolding find remove
evicted_keys max_size entries bytes [] = []
evicted_keys max_size entries bytes (k ∷ queue) =
    let (entries', bytes') = evict_one k (find k entries) entries bytes in
    let rest = evicted_keys max_size entries' bytes' queue in
    if leb bytes max_size then [] else pushed_key k (find k entries) rest

abbrev as_other : IoResult Bytes → IoResult Bytes
as_other (ok bytes) = ok bytes
as_other (err e) = err other
as_other panicked = panicked
as_other stuck = stuck

module _ (c : RangeCache) where
  abbrev pub page_file : PageKey → Text
  page_file key = page_path c.sha256 c.directory key

  abbrev pub temporary_file : PageKey → Text
  temporary_file key = page_temporary_path c.sha256 c.directory c.process_id key

  -- The page that the object store gives, each error as a text.
  unfoldable pub fetch : PageKey → IoResult Bytes
  unfolding fetch_page
  fetch key = as_other (
      fetch_page (c.stat key.repository key.path) (c.read key.repository key.path) c.page_size
        key.offset)

  abbrev pub after_fetch : IoResult Bytes → Stage
  after_fetch (ok bytes) = creating bytes
  after_fetch (err e) = landed (err e)
  after_fetch panicked = landed panicked
  after_fetch stuck = landed stuck

  abbrev pub called : CacheWorld → CacheWorld
  called w = record w { calls = suc w.calls }

  -- `let _ = std::fs::remove_file(self.page_path(&key))`
  abbrev pub without : PageKey → CacheWorld → CacheWorld
  without key w = record (called w) {
    names =
        if c.removes w.calls (page_file key)
        then set_name w.names (page_file key) none
        else w.names;
  }

  -- The opening of the temporary file, by whether there is one: it is truncated, or created.
  abbrev pub open_file : PageKey → Bytes → Option ℕ → CacheWorld → Stage × CacheWorld
  open_file key bytes (some i) w =
      (writing i bytes, record w { contents = set_content w.contents i [] })
  open_file key bytes none w = (
    writing w.next_file bytes,
    record w {
      names = set_name w.names (temporary_file key) (some w.next_file);
      contents = set_content w.contents w.next_file [];
      next_file = suc w.next_file;
    },
  )

  -- The bytes at the start of a file are overwritten, all of them or some.
  abbrev pub write_file : ℕ → Bytes → Option ℕ → CacheWorld → Stage × CacheWorld
  write_file i bytes none w = (
    renaming bytes,
    record w { contents = set_content w.contents i (bytes ++ drop (length bytes) (w.contents i)) },
  )
  write_file i bytes (some n) w = (
    landed (err other),
    record w { contents = set_content w.contents i (take n bytes ++ drop n (w.contents i)) },
  )

  -- `rename(temporary, path)`, by whether there is a temporary file.
  abbrev pub rename_page : PageKey → Bytes → Option ℕ → CacheWorld → Stage × CacheWorld
  rename_page key bytes none w = (landed (err other), w)
  rename_page key bytes (some i) w = (
    recording bytes,
    record w {
      names = set_name (set_name w.names (temporary_file key) none) (page_file key) (some i);
    },
  )

  -- The next step of a flight.
  unfoldable pub fly : PageKey → Stage → CacheWorld → Stage × CacheWorld
  unfolding fetch set_name set_content store_page evicted_keys
  fly key fetching w = (after_fetch (fetch key), w)
  fly key (creating bytes) w =
      if leb (length bytes) c.max_size
      then if c.creates w.calls (temporary_file key)
        then open_file key bytes (w.names (temporary_file key)) (called w)
        else (landed (err other), called w)
      else (landed (ok bytes), w)
  fly key (writing i bytes) w =
      write_file i bytes (c.write_stops w.calls (temporary_file key)) (called w)
  fly key (renaming bytes) w =
      if c.renames w.calls (temporary_file key)
      then rename_page key bytes (w.names (temporary_file key)) (called w)
      else (landed (err other), called w)
  fly key (recording bytes) w =
      let size = length bytes in
      let total = (w.state.bytes - size_of (find key w.state.entries) + size) % 2 ^ 64 in
      let entries = put key (record { size = size; is_protected = false }) w.state.entries in
      let evicted =
        evicted_keys c.max_size entries total
          ((w.state.probationary ++ (key ∷ [])) ++ w.state.guarded) in
      (removing evicted bytes, record w { state = store_page c.max_size key size w.state })
  fly key (removing [] bytes) w = (landed (ok bytes), w)
  fly key (removing (k ∷ evicted) bytes) w = (removing evicted bytes, without k w)
  fly key (landed result) w = (landed result, w)

  -- A poll of the shared future: it runs the flight on, or has the result.
  abbrev pub poll : ℕ → Stage → CacheWorld → Phase × CacheWorld
  poll i (landed result) w = (leaving result, w)
  poll i stage w =
      let (stage', w') = fly (w.shared i).key stage w in
      (
        waiting i,
        record w' {
          shared = set_shared w'.shared i (record { key = (w.shared i).key; stage = stage' });
        },
      )

  abbrev pub look : PageKey → Option PageEntry → CacheWorld → Phase × CacheWorld
  look key none w = (joining, w)
  look key (some e) w = (reading, record w { state = touch c.policy c.protected_limit key w.state })

  abbrev pub read_page : Option IoError → Option Bytes → Phase
  read_page (some e) (some bytes) = finished (err e)
  read_page none (some bytes) = finished (ok bytes)
  read_page _ none = dropping

  -- `flights.entry(key).or_insert_with(..)`
  abbrev pub join_flight : PageKey → Option ℕ → CacheWorld → Phase × CacheWorld
  join_flight key (some i) w = (waiting i, w)
  join_flight key none w = (
    waiting w.next,
    record w {
      flights = set_flight w.flights key (some w.next);
      shared = set_shared w.shared w.next (record { key = key; stage = fetching });
      next = suc w.next;
    },
  )

  -- The next step of a call of `get_page`.
  unfoldable pub next_step : PageKey → Phase → CacheWorld → Phase × CacheWorld
  unfolding find touch remove set_flight set_shared fly
  next_step key looking w = look key (find key w.state.entries) w
  next_step key reading w =
      (read_page (c.read_error w.calls (page_file key)) (file_at w (page_file key)), called w)
  next_step key dropping w =
      (joining, record w { state = record w.state { entries = remove key w.state.entries } })
  next_step key joining w = join_flight key (w.flights key) w
  next_step key (waiting i) w = poll i (w.shared i).stage w
  next_step key (leaving result) w =
      (finished result, record w { flights = set_flight w.flights key none })
  next_step key (finished result) w = (finished result, w)
