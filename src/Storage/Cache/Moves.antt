-- ===== src/Storage/Cache/Moves.antt =====
-- What `touch` of storage/mod.rs does to the queues.
use thanos_datafusion_experi.Common.{
  ℕ, ◌≡◌, refl, ◌∙◌, true, false, List, [], ◌∷◌, ◌++◌, arith, leb, Bool-cases, Option-cases, inl,
  inr,
}
use thanos_datafusion_experi.Storage.Cache.{
  PageKey, Entries, CacheState, CachePolicy, find, set_protected, demote, is_guarded, remove_key,
  queue_bytes, touch,
}
use thanos_datafusion_experi.Storage.Cache.Queues.{
  in_queue, distinct, all_queued, all_queued_mono, in_queue_append, in_queue_moved,
  distinct-set_protected, all_queued-set_protected,
}

-- The pages have distinct keys, and each stands in one of the queues.
abbrev pub Queued : CacheState → Type 0
Queued s = (distinct s.entries ≡ true) × (all_queued s.entries (s.probationary ++ s.guarded) ≡ true)

distinct-demote :
    (bound : ℕ) (entries : Entries) (probationary guarded : List PageKey)
    → distinct (demote bound entries probationary guarded).0 ≡ distinct entries
unfolding demote
distinct-demote bound entries probationary [] = refl
distinct-demote bound entries probationary (k ∷ guarded) =
    elim (Bool-cases (leb (queue_bytes entries (k ∷ guarded)) bound)) [
      | inl fits ↦ rw fits refl
      | inr over ↦ rw over (
          distinct-demote bound (set_protected k false entries) (probationary ++ (k ∷ [])) guarded
          ∙ distinct-set_protected k false entries)
    ]

all_queued-demote :
    (bound : ℕ) (entries : Entries) (probationary guarded queue : List PageKey)
    → all_queued (demote bound entries probationary guarded).0 queue ≡ all_queued entries queue
unfolding demote
all_queued-demote bound entries probationary [] queue = refl
all_queued-demote bound entries probationary (k ∷ guarded) queue =
    elim (Bool-cases (leb (queue_bytes entries (k ∷ guarded)) bound)) [
      | inl fits ↦ rw fits refl
      | inr over ↦ rw over (
          all_queued-demote bound (set_protected k false entries) (probationary ++ (k ∷ [])) guarded
            queue
          ∙ all_queued-set_protected k false entries queue)
    ]

passed_on :
    (j k : PageKey) (probationary guarded : List PageKey)
    → in_queue j ((probationary ++ (k ∷ [])) ++ guarded)
      ≡ in_queue j (probationary ++ (k ∷ guarded))
unfolding in_queue
passed_on j k probationary guarded = ground (
  arith,
  in_queue_append j (probationary ++ (k ∷ [])) guarded,
  in_queue_append j probationary (k ∷ []),
  in_queue_append j probationary (k ∷ guarded),
)

in_queue-demote :
    (j : PageKey) (bound : ℕ) (entries : Entries) (probationary guarded : List PageKey)
    → in_queue j (
        (demote bound entries probationary guarded).1
        ++ (demote bound entries probationary guarded).2)
      ≡ in_queue j (probationary ++ guarded)
unfolding demote
in_queue-demote j bound entries probationary [] = refl
in_queue-demote j bound entries probationary (k ∷ guarded) =
    elim (Bool-cases (leb (queue_bytes entries (k ∷ guarded)) bound)) [
      | inl fits ↦ rw fits refl
      | inr over ↦ rw over (
          in_queue-demote j bound (set_protected k false entries) (probationary ++ (k ∷ [])) guarded
          ∙ passed_on j k probationary guarded)
    ]

to_guarded :
    (j key : PageKey) (probationary guarded : List PageKey)
    → in_queue j (probationary ++ guarded) ≡ true
    → in_queue j (remove_key probationary key ++ (remove_key guarded key ++ (key ∷ []))) ≡ true
unfolding in_queue
to_guarded j key probationary guarded h = ground (
  arith,
  in_queue_moved j key probationary guarded h,
  in_queue_append j (remove_key probationary key) (remove_key guarded key ++ (key ∷ [])),
  in_queue_append j (remove_key guarded key) (key ∷ []),
)

to_probationary :
    (j key : PageKey) (probationary guarded : List PageKey)
    → in_queue j (probationary ++ guarded) ≡ true
    → in_queue j ((remove_key probationary key ++ (key ∷ [])) ++ remove_key guarded key) ≡ true
unfolding in_queue
to_probationary j key probationary guarded h = ground (
  arith,
  in_queue_moved j key probationary guarded h,
  in_queue_append j (remove_key probationary key ++ (key ∷ [])) (remove_key guarded key),
  in_queue_append j (remove_key probationary key) (key ∷ []),
)

pub touch-Queued :
    (policy : CachePolicy) (bound : ℕ) (key : PageKey) (s : CacheState)
    → Queued s
    → Queued (touch policy bound key s)
unfolding touch
touch-Queued policy bound key s (d, q) = elim (Option-cases (find key s.entries)) [
  | inl e ↦ rw (e, touch) (d, q)
  | inr (e, f) ↦
      rw (f, touch)
        (elim (Bool-cases (is_guarded policy e)) [
          | inl g ↦ rw g (
            distinct-demote bound entries probationary guarded
                ∙ distinct-set_protected key true s.entries
                ∙ d,
            all_queued-demote bound entries probationary guarded after
                ∙ all_queued-set_protected key true s.entries after
                ∙ all_queued_mono s.entries (s.probationary ++ s.guarded) after
                    (λ j h.
                      in_queue-demote j bound entries probationary guarded
                      ∙ to_guarded j key s.probationary s.guarded h)
                    q,
          )
          | inr g ↦ rw g (
            d,
            all_queued_mono s.entries (s.probationary ++ s.guarded)
                ((probationary ++ (key ∷ [])) ++ remove_key s.guarded key)
                (λ j. to_probationary j key s.probationary s.guarded) q,
          )
        ])
]
  where
    entries : Entries
    entries = set_protected key true s.entries

    probationary : List PageKey
    probationary = remove_key s.probationary key

    guarded : List PageKey
    guarded = remove_key s.guarded key ++ (key ∷ [])

    after : List PageKey
    after =
        (demote bound entries probationary guarded).1
        ++ (demote bound entries probationary guarded).2
