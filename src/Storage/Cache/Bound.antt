-- ===== src/Storage/Cache/Bound.antt =====
-- The evictions of `store_cached` of storage/mod.rs and the size of the cache.
use thanos_datafusion_experi.Common.{
  ℕ, ◌+◌, ◌^◌, ◌≤◌, ◌<◌, ◌≡◌, refl, true, false, List, [], ◌∷◌, ◌++◌, arith, leb, leb→le, ◌-◌, ◌%◌,
  Bool-cases, Option-cases, inl, inr,
}
use thanos_datafusion_experi.Storage.Cache.{
  PageKey, PageEntry, Entries, CacheState, find, put, size_of, evict_one, evict_guarded, evict,
  store_page, store_cached,
}
use thanos_datafusion_experi.Storage.Cache.Accounts.{total, total-remove, total-put, size_of-find}
use thanos_datafusion_experi.Storage.Cache.Queues.{
  in_queue, distinct, all_queued, find-has, distinct-remove, all_queued_unused, all_queued-remove,
  distinct-put, all_queued-put, all_queued_mono, in_queue_append, key_eq_refl,
}
use thanos_datafusion_experi.Storage.Cache.Moves.{Queued}

-- The pages have distinct keys, which stand in a queue, and the accounted size is their sum and at
-- most `max_size` more.
abbrev Sound : ℕ → Entries → ℕ → List PageKey → Type 0
Sound max_size entries bytes queue =
    (total entries ≤ bytes)
    × (bytes ≤ total entries + max_size)
    × (distinct entries ≡ true)
    × (all_queued entries queue ≡ true)

-- The pages have distinct keys, each stands in one of the queues, and together they are no larger
-- than the accounted size, which is at most `max_size`.
abbrev pub Kept : ℕ → CacheState → Type 0
Kept max_size s = (total s.entries ≤ s.bytes) × (s.bytes ≤ max_size) × Queued s

evict_one-Sound :
    (max_size : ℕ) (k : PageKey) (entries : Entries) (bytes : ℕ) (queue : List PageKey)
    → Sound max_size entries bytes (k ∷ queue)
    → Sound max_size
        (evict_one k (find k entries) entries bytes).0
        (evict_one k (find k entries) entries bytes).1
        queue
evict_one-Sound max_size k entries bytes queue (low, high, d, q) =
    elim (Option-cases (find k entries)) [
      | inl e ↦ rw e (low, high, d, all_queued_unused k entries queue (find-has k entries e) q)
      | inr (e, f) ↦ rw f (
        omega (arith, low, total-remove k entries e f),
        omega (arith, low, high, total-remove k entries e f),
        distinct-remove k entries d,
        all_queued-remove k entries queue d q,
      )
    ]

nothing_queued : (entries : Entries) → all_queued entries [] ≡ true → total entries ≡ 0
unfolding all_queued in_queue total
nothing_queued [] q = refl
nothing_queued ((k, e) ∷ entries) q = cc

evict_guarded-Kept :
    (max_size : ℕ) (entries : Entries) (bytes : ℕ) (guarded : List PageKey)
    → Sound max_size entries bytes guarded
    → Kept max_size (evict_guarded max_size entries bytes guarded)
unfolding evict_guarded
evict_guarded-Kept max_size entries bytes [] (low, high, d, q) =
    (low, omega (arith, high, nothing_queued entries q), (d, q))
evict_guarded-Kept max_size entries bytes (k ∷ guarded) h = elim (Bool-cases (leb bytes max_size)) [
  | inl fits ↦ rw fits (h.0, leb→le bytes max_size fits, (h.2, h.3))
  | inr over ↦ rw over (
      evict_guarded-Kept max_size (evict_one k (find k entries) entries bytes).0
        (evict_one k (find k entries) entries bytes).1 guarded
        (evict_one-Sound max_size k entries bytes guarded h))
]

evict-Kept :
    (max_size : ℕ) (entries : Entries) (bytes : ℕ) (probationary guarded : List PageKey)
    → Sound max_size entries bytes (probationary ++ guarded)
    → Kept max_size (evict max_size entries bytes probationary guarded)
unfolding evict
evict-Kept max_size entries bytes [] guarded h = evict_guarded-Kept max_size entries bytes guarded h
evict-Kept max_size entries bytes (k ∷ probationary) guarded h =
    elim (Bool-cases (leb bytes max_size)) [
      | inl fits ↦ rw fits (h.0, leb→le bytes max_size fits, (h.2, h.3))
      | inr over ↦ rw over (
          evict-Kept max_size (evict_one k (find k entries) entries bytes).0
            (evict_one k (find k entries) entries bytes).1 probationary guarded
            (evict_one-Sound max_size k entries bytes (probationary ++ guarded) h))
    ]

queued_last :
    (j k : PageKey) (probationary guarded : List PageKey)
    → in_queue j (probationary ++ guarded) ≡ true
    → in_queue j ((probationary ++ (k ∷ [])) ++ guarded) ≡ true
queued_last j k probationary guarded h = ground (
  arith,
  in_queue_append j probationary guarded,
  in_queue_append j (probationary ++ (k ∷ [])) guarded,
  in_queue_append j probationary (k ∷ []),
)

last_queued :
    (k : PageKey) (probationary guarded : List PageKey)
    → in_queue k ((probationary ++ (k ∷ [])) ++ guarded) ≡ true
unfolding in_queue
last_queued k probationary guarded = ground (
  arith,
  key_eq_refl k,
  in_queue_append k (probationary ++ (k ∷ [])) guarded,
  in_queue_append k probationary (k ∷ []),
)

pub store_cached-Kept :
    (max_size : ℕ) (key : PageKey) (size : ℕ) (s : CacheState)
    → max_size < 2 ^ 63
    → Kept max_size s
    → Kept max_size (store_cached max_size key size s)
unfolding store_cached store_page
store_cached-Kept max_size key size s small (low, high, (d, q)) =
    elim (Bool-cases (leb size max_size)) [
      | inr large ↦ rw large (low, high, (d, q))
      | inl fits ↦ rw fits (
          evict-Kept max_size (put key page s.entries) bytes (s.probationary ++ (key ∷ []))
            s.guarded
            (
              omega (arith, small, low, high, leb→le size max_size fits, stored, old),
              omega (arith, small, low, high, leb→le size max_size fits, stored, old),
              distinct-put key page s.entries d,
              all_queued-put key page s.entries queue (last_queued key s.probationary s.guarded) (
                  all_queued_mono s.entries (s.probationary ++ s.guarded) queue
                    (λ j. queued_last j key s.probationary s.guarded) q),
            ))
    ]
  where
    page : PageEntry
    page = record { size = size; is_protected = false }

    queue : List PageKey
    queue = (s.probationary ++ (key ∷ [])) ++ s.guarded

    bytes : ℕ
    bytes = (s.bytes - size_of (find key s.entries) + size) % 2 ^ 64

    stored : total (put key page s.entries) + size_of (find key s.entries) ≡ total s.entries + size
    stored = total-put key page s.entries

    old : size_of (find key s.entries) ≤ total s.entries
    old = size_of-find key s.entries
