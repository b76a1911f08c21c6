-- ===== src/Storage/Cache/Uses.antt =====
-- Sequences of `load_cached` and `store_cached` of storage/mod.rs.
use thanos_datafusion_experi.Common.{
  ℕ, ◌^◌, ◌≤◌, ◌<◌, refl, Bool, List, [], ◌∷◌, ◌++◌, arith, Bool-cases, Option-cases, inl, inr,
}
use thanos_datafusion_experi.Storage.Cache.{
  PageKey, CacheState, CachePolicy, find, remove, touch, store_cached, load_cached,
}
use thanos_datafusion_experi.Storage.Cache.Accounts.{
  total, total-remove_le, total-touch, touched_bytes,
}
use thanos_datafusion_experi.Storage.Cache.Queues.{
  distinct, all_queued, distinct-remove, all_queued_fewer,
}
use thanos_datafusion_experi.Storage.Cache.Moves.{touch-Queued}
use thanos_datafusion_experi.Storage.Cache.Bound.{Kept, store_cached-Kept}

touch-Kept :
    (max_size : ℕ) (policy : CachePolicy) (bound : ℕ) (key : PageKey) (s : CacheState)
    → Kept max_size s
    → Kept max_size (touch policy bound key s)
touch-Kept max_size policy bound key s (low, high, queued) =
    rw (touched_bytes policy bound key s, total-touch policy bound key s)
      (low, high, touch-Queued policy bound key s queued)

remove-Kept :
    (max_size : ℕ) (key : PageKey) (s : CacheState)
    → Kept max_size s
    → Kept max_size (record {
      entries = remove key s.entries;
      probationary = s.probationary;
      guarded = s.guarded;
      bytes = s.bytes;
    })
remove-Kept max_size key s (low, high, (d, q)) = (
  omega (arith, low, total-remove_le key s.entries),
  high,
  (distinct-remove key s.entries d, all_queued_fewer key s.entries (s.probationary ++ s.guarded) q),
)

load_cached-Kept :
    (max_size : ℕ) (policy : CachePolicy) (bound : ℕ) (key : PageKey) (there : Bool)
    (s : CacheState)
    → Kept max_size s
    → Kept max_size (load_cached policy bound key there s).1
unfolding load_cached
load_cached-Kept max_size policy bound key there s h = elim (Option-cases (find key s.entries)) [
  | inl e ↦ rw (e, load_cached) h
  | inr (e, f) ↦
      rw (f, load_cached)
        (elim (Bool-cases there) [
          | inl here ↦ rw here (touch-Kept max_size policy bound key s h)
          | inr gone ↦ rw gone (
              remove-Kept max_size key (touch policy bound key s)
                (touch-Kept max_size policy bound key s h))
        ])
]

-- A call on the cache: a look-up, whose file may be missing, or a page of some size to store.
pub data Use : Type 0 where
  load : PageKey → Bool → Use
  store : PageKey → ℕ → Use

-- Calls in the order of the list.
unfoldable pub use_cache : CachePolicy → ℕ → ℕ → List Use → CacheState → CacheState
unfolding load_cached store_cached
use_cache policy bound max_size [] s = s
use_cache policy bound max_size (load key there ∷ uses) s =
    use_cache policy bound max_size uses (load_cached policy bound key there s).1
use_cache policy bound max_size (store key size ∷ uses) s =
    use_cache policy bound max_size uses (store_cached max_size key size s)

abbrev pub empty_cache : CacheState
empty_cache = record { entries = []; probationary = []; guarded = []; bytes = 0 }

empty_cache-Kept : (max_size : ℕ) → Kept max_size empty_cache
unfolding total distinct all_queued
empty_cache-Kept max_size = (omega arith, omega arith, (refl, refl))

use_cache-Kept :
    (policy : CachePolicy) (bound max_size : ℕ) (uses : List Use) (s : CacheState)
    → max_size < 2 ^ 63
    → Kept max_size s
    → Kept max_size (use_cache policy bound max_size uses s)
unfolding use_cache
use_cache-Kept policy bound max_size [] s small h = h
use_cache-Kept policy bound max_size (load key there ∷ uses) s small h =
    use_cache-Kept policy bound max_size uses (load_cached policy bound key there s).1 small
      (load_cached-Kept max_size policy bound key there s h)
use_cache-Kept policy bound max_size (store key size ∷ uses) s small h =
    use_cache-Kept policy bound max_size uses (store_cached max_size key size s) small
      (store_cached-Kept max_size key size s small h)

-- From the empty cache, with a maximum size below 2^63, any sequence of `load_cached` and
-- `store_cached` leaves pages that together are at most as large as the maximum size, also where
-- files of pages were missing.
pub use_cache_bounded :
    (policy : CachePolicy) (bound max_size : ℕ) (uses : List Use)
    → max_size < 2 ^ 63
    → total (use_cache policy bound max_size uses empty_cache).entries ≤ max_size
use_cache_bounded policy bound max_size uses small =
    let (low, high, queued) =
      use_cache-Kept policy bound max_size uses empty_cache small (empty_cache-Kept max_size) in
    omega (arith, low, high)
