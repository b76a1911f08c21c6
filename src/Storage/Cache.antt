-- ===== src/Storage/Cache.antt =====
-- `CacheState` of storage/mod.rs, and what `store_cached` and `load_cached` do to it.
pub mod Accounts
pub mod Bound
pub mod Moves
pub mod Queues
pub mod Uses
use thanos_datafusion_experi.Common.{
  ℕ, zero, suc, ◌+◌, ◌-◌, ◌%◌, ◌^◌, Bool, true, false, not, ◌&&◌, ◌||◌, Option, none, some, List,
  [], ◌∷◌, ◌++◌, leb, ◌==◌, if◌then◌else◌,
}
use thanos_datafusion_experi.Common.Text.{Text, text_eq}

pub record PageKey : Type 0 where
  pub repository : Text
  pub path : Text
  pub offset : ℕ

pub record PageEntry : Type 0 where
  pub size : ℕ
  pub is_protected : Bool

unfoldable pub key_eq : PageKey → PageKey → Bool
unfolding text_eq
key_eq a b = text_eq a.repository b.repository && (text_eq a.path b.path && (a.offset == b.offset))

-- `HashMap<PageKey, PageEntry>`
abbrev pub Entries : Type 0
Entries = List (PageKey × PageEntry)

unfoldable pub find : PageKey → Entries → Option PageEntry
unfolding key_eq
find k [] = none
find k ((j, e) ∷ entries) = if key_eq j k then some e else find k entries

-- `entries.insert(k, e)`
unfoldable pub put : PageKey → PageEntry → Entries → Entries
unfolding key_eq
put k e [] = (k, e) ∷ []
put k e ((j, f) ∷ entries) =
    let rest = put k e entries in if key_eq j k then (j, e) ∷ entries else (j, f) ∷ rest

-- `entries.remove(k)`
unfoldable pub remove : PageKey → Entries → Entries
unfolding key_eq
remove k [] = []
remove k ((j, f) ∷ entries) =
    let rest = remove k entries in if key_eq j k then entries else (j, f) ∷ rest

pub record CacheState : Type 0 where
  pub entries : Entries
  pub probationary : List PageKey
  pub guarded : List PageKey
  pub bytes : ℕ

pub data CachePolicy : Type 0 where
  lru slru : CachePolicy

unfoldable pub remove_key : List PageKey → PageKey → List PageKey
unfolding key_eq
remove_key [] key = []
remove_key (k ∷ queue) key =
    let rest = remove_key queue key in if key_eq k key then queue else k ∷ rest

-- `get_mut(k)` and `entry.protected = flag`
unfoldable pub set_protected : PageKey → Bool → Entries → Entries
unfolding key_eq
set_protected k flag [] = []
set_protected k flag ((j, e) ∷ entries) =
    let rest = set_protected k flag entries in
    if key_eq j k
    then (j, record { size = e.size; is_protected = flag }) ∷ entries
    else (j, e) ∷ rest

abbrev pub size_of : Option PageEntry → ℕ
size_of none = 0
size_of (some e) = e.size

-- `.filter_map(|key| self.entries.get(key)).map(|entry| entry.size).sum::<u64>()`
unfoldable pub queue_bytes : Entries → List PageKey → ℕ
unfolding find
queue_bytes entries [] = 0
queue_bytes entries (k ∷ queue) = (size_of (find k entries) + queue_bytes entries queue) % 2 ^ 64

-- The queue of protected pages is demoted from its front until it keeps to the limit.
unfoldable pub demote :
    ℕ → Entries → List PageKey → List PageKey → Entries × List PageKey × List PageKey
unfolding queue_bytes set_protected
demote protected_limit entries probationary [] = (entries, probationary, [])
demote protected_limit entries probationary (k ∷ guarded) =
    let rest =
      demote protected_limit (set_protected k false entries) (probationary ++ (k ∷ [])) guarded in
    if leb (queue_bytes entries (k ∷ guarded)) protected_limit
    then (entries, probationary, k ∷ guarded)
    else rest

-- `policy == CachePolicy::Slru || entry.protected`, after `entry.protected = true`.
unfoldable pub is_guarded : CachePolicy → PageEntry → Bool
is_guarded slru e = true
is_guarded lru e = e.is_protected

-- `(max_size as f64 * protected_fraction) as u64` is a parameter, `protected_limit`.
unfoldable pub touch : CachePolicy → ℕ → PageKey → CacheState → CacheState
unfolding find remove_key set_protected demote is_guarded
touch policy protected_limit key s = elim (find key s.entries) [
  | none ↦ s
  | some e ↦
      let probationary = remove_key s.probationary key in
      let guarded = remove_key s.guarded key in
      let (entries, probationary', guarded') =
        demote protected_limit (set_protected key true s.entries) probationary
          (guarded ++ (key ∷ [])) in
      if is_guarded policy e
      then record {
        entries = entries;
        probationary = probationary';
        guarded = guarded';
        bytes = s.bytes;
      }
      else record {
        entries = s.entries;
        probationary = probationary ++ (key ∷ []);
        guarded = guarded;
        bytes = s.bytes;
      }
]

abbrev pub evict_one : PageKey → Option PageEntry → Entries → ℕ → Entries × ℕ
evict_one k none entries bytes = (entries, bytes)
evict_one k (some e) entries bytes = (remove k entries, bytes - e.size)

-- `while state.bytes > self.max_size`: pages on probation go first, then protected ones.
unfoldable pub evict_guarded : ℕ → Entries → ℕ → List PageKey → CacheState
unfolding find remove
evict_guarded max_size entries bytes [] = record {
  entries = entries;
  probationary = [];
  guarded = [];
  bytes = bytes;
}
evict_guarded max_size entries bytes (k ∷ guarded) =
    let (entries', bytes') = evict_one k (find k entries) entries bytes in
    let rest = evict_guarded max_size entries' bytes' guarded in
    if leb bytes max_size
    then record { entries = entries; probationary = []; guarded = k ∷ guarded; bytes = bytes }
    else rest

unfoldable pub evict : ℕ → Entries → ℕ → List PageKey → List PageKey → CacheState
unfolding find remove evict_guarded
evict max_size entries bytes [] guarded = evict_guarded max_size entries bytes guarded
evict max_size entries bytes (k ∷ probationary) guarded =
    let (entries', bytes') = evict_one k (find k entries) entries bytes in
    let rest = evict max_size entries' bytes' probationary guarded in
    if leb bytes max_size
    then record {
      entries = entries;
      probationary = k ∷ probationary;
      guarded = guarded;
      bytes = bytes;
    }
    else rest

-- What `store_cached` does under the lock, for a page of `size` bytes.
unfoldable pub store_page : ℕ → PageKey → ℕ → CacheState → CacheState
unfolding find put evict
store_page max_size key size s =
    let bytes = (s.bytes - size_of (find key s.entries) + size) % 2 ^ 64 in
    evict max_size (put key (record { size = size; is_protected = false }) s.entries) bytes
      (s.probationary ++ (key ∷ [])) s.guarded

-- A page larger than the whole cache is not stored.
unfoldable pub store_cached : ℕ → PageKey → ℕ → CacheState → CacheState
unfolding store_page
store_cached max_size key size s =
    let stored = store_page max_size key size s in if leb size max_size then stored else s

-- `load_cached`, by whether the page's file is there: a missing file removes the entry alone.
unfoldable pub load_cached : CachePolicy → ℕ → PageKey → Bool → CacheState → Bool × CacheState
unfolding find touch remove
load_cached policy protected_limit key file_there s =
    let s' = touch policy protected_limit key s in
    let gone : CacheState = record {
      entries = remove key s'.entries;
      probationary = s'.probationary;
      guarded = s'.guarded;
      bytes = s'.bytes;
    } in
    elim (find key s.entries) [
      | none ↦ (false, s)
      | some e ↦ if file_there then (true, s') else (false, gone)
    ]
