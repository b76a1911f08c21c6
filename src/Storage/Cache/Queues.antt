-- ===== src/Storage/Cache/Queues.antt =====
-- The queues of `CacheState` of storage/mod.rs and the pages of its map.
use thanos_datafusion_experi.Common.{
  ◌≡◌, refl, Bool, true, false, not, ◌&&◌, ◌||◌, none, List, [], ◌∷◌, ◌++◌, arith,
}
use thanos_datafusion_experi.Common.Text.{text_eq_iff}
use thanos_datafusion_experi.Storage.Cache.{
  PageKey, PageEntry, Entries, key_eq, find, put, remove, set_protected, remove_key,
}

pub key_eq-true : (a b : PageKey) → key_eq a b ≡ true → a ≡ b
unfolding key_eq
key_eq-true a b e = ground (arith, text_eq_iff a.repository b.repository, text_eq_iff a.path b.path)

pub key_eq_refl : (a : PageKey) → key_eq a a ≡ true
unfolding key_eq
key_eq_refl a = ground (arith, text_eq_iff a.repository a.repository, text_eq_iff a.path a.path)

key_eq_sym : (a b : PageKey) → key_eq a b ≡ key_eq b a
key_eq_sym a b = ground (arith, key_eq-true a b, key_eq-true b a, key_eq_refl a)

unfoldable pub in_queue : PageKey → List PageKey → Bool
in_queue k [] = false
in_queue k (j ∷ queue) = key_eq j k || in_queue k queue

unfoldable pub has : PageKey → Entries → Bool
has k [] = false
has k ((j, e) ∷ entries) = key_eq j k || has k entries

-- No two pages of the map have one key.
unfoldable pub distinct : Entries → Bool
unfolding has
distinct [] = true
distinct ((k, e) ∷ entries) = not (has k entries) && distinct entries

-- Every page of the map stands in the queue.
unfoldable pub all_queued : Entries → List PageKey → Bool
unfolding in_queue
all_queued [] queue = true
all_queued ((k, e) ∷ entries) queue = in_queue k queue && all_queued entries queue

pub find-has : (k : PageKey) (entries : Entries) → find k entries ≡ none → has k entries ≡ false
unfolding find has
find-has k [] e = refl
find-has k ((j, f) ∷ entries) e = ground (arith, find-has k entries)

has-remove :
    (j k : PageKey) (entries : Entries) → has j entries ≡ false → has j (remove k entries) ≡ false
unfolding has remove
has-remove j k [] e = refl
has-remove j k ((i, f) ∷ entries) e = ground (arith, has-remove j k entries)

pub distinct-remove :
    (k : PageKey) (entries : Entries) → distinct entries ≡ true → distinct (remove k entries) ≡ true
unfolding distinct remove
distinct-remove k [] e = refl
distinct-remove k ((i, f) ∷ entries) e =
    ground (arith, has-remove i k entries, distinct-remove k entries)

pub all_queued_unused :
    (k : PageKey) (entries : Entries) (queue : List PageKey)
    → has k entries ≡ false
    → all_queued entries (k ∷ queue) ≡ true
    → all_queued entries queue ≡ true
unfolding all_queued in_queue has
all_queued_unused k [] queue h e = refl
all_queued_unused k ((j, f) ∷ entries) queue h e =
    ground (arith, key_eq_sym j k, all_queued_unused k entries queue)

pub all_queued-remove :
    (k : PageKey) (entries : Entries) (queue : List PageKey)
    → distinct entries ≡ true
    → all_queued entries (k ∷ queue) ≡ true
    → all_queued (remove k entries) queue ≡ true
unfolding all_queued in_queue distinct remove
all_queued-remove k [] queue d e = refl
all_queued-remove k ((j, f) ∷ entries) queue d e = ground (
  arith,
  key_eq_sym j k,
  key_eq-true j k,
  all_queued_unused k entries queue,
  all_queued-remove k entries queue,
)

pub all_queued_fewer :
    (k : PageKey) (entries : Entries) (queue : List PageKey)
    → all_queued entries queue ≡ true
    → all_queued (remove k entries) queue ≡ true
unfolding all_queued remove
all_queued_fewer k [] queue q = refl
all_queued_fewer k ((j, f) ∷ entries) queue q = ground (arith, all_queued_fewer k entries queue)

has-put :
    (j k : PageKey) (e : PageEntry) (entries : Entries)
    → has j (put k e entries) ≡ (key_eq k j || has j entries)
unfolding has put
has-put j k e [] = refl
has-put j k e ((i, f) ∷ entries) =
    ground (arith, key_eq-true i k, key_eq_sym i k, has-put j k e entries)

pub distinct-put :
    (k : PageKey) (e : PageEntry) (entries : Entries)
    → distinct entries ≡ true
    → distinct (put k e entries) ≡ true
unfolding distinct has put
distinct-put k e [] d = refl
distinct-put k e ((i, f) ∷ entries) d =
    ground (arith, key_eq_sym i k, has-put i k e entries, distinct-put k e entries)

pub all_queued-put :
    (k : PageKey) (e : PageEntry) (entries : Entries) (queue : List PageKey)
    → in_queue k queue ≡ true
    → all_queued entries queue ≡ true
    → all_queued (put k e entries) queue ≡ true
unfolding all_queued put
all_queued-put k e [] queue h q = ground arith
all_queued-put k e ((i, f) ∷ entries) queue h q = ground (arith, all_queued-put k e entries queue)

pub all_queued_mono :
    (entries : Entries) (queue queue' : List PageKey)
    → ((j : PageKey) → in_queue j queue ≡ true → in_queue j queue' ≡ true)
    → all_queued entries queue ≡ true
    → all_queued entries queue' ≡ true
unfolding all_queued
all_queued_mono [] queue queue' h q = refl
all_queued_mono ((i, f) ∷ entries) queue queue' h q =
    ground (arith, h i, all_queued_mono entries queue queue' h)

pub in_queue_append :
    (j : PageKey) (queue queue' : List PageKey)
    → in_queue j (queue ++ queue') ≡ (in_queue j queue || in_queue j queue')
unfolding in_queue
in_queue_append j [] queue' = refl
in_queue_append j (k ∷ queue) queue' = ground (arith, in_queue_append j queue queue')

in_queue-remove_key :
    (j k : PageKey) (queue : List PageKey)
    → in_queue j queue ≡ true
    → (key_eq k j || in_queue j (remove_key queue k)) ≡ true
unfolding in_queue remove_key
in_queue-remove_key j k [] h = cc
in_queue-remove_key j k (i ∷ queue) h =
    ground (arith, key_eq-true i k, in_queue-remove_key j k queue)

-- A page that is moved to the end of a queue is there, and every other page stays.
pub in_queue_moved :
    (j k : PageKey) (probationary guarded : List PageKey)
    → in_queue j (probationary ++ guarded) ≡ true
    → (in_queue j (remove_key probationary k)
        || (in_queue j (remove_key guarded k) || (key_eq k j || false)))
      ≡ true
in_queue_moved j k probationary guarded h = ground (
  arith,
  in_queue_append j probationary guarded,
  in_queue-remove_key j k probationary,
  in_queue-remove_key j k guarded,
)

has-set_protected :
    (j k : PageKey) (flag : Bool) (entries : Entries)
    → has j (set_protected k flag entries) ≡ has j entries
unfolding has set_protected
has-set_protected j k flag [] = refl
has-set_protected j k flag ((i, f) ∷ entries) = ground (arith, has-set_protected j k flag entries)

pub distinct-set_protected :
    (k : PageKey) (flag : Bool) (entries : Entries)
    → distinct (set_protected k flag entries) ≡ distinct entries
unfolding distinct set_protected
distinct-set_protected k flag [] = refl
distinct-set_protected k flag ((i, f) ∷ entries) =
    ground (arith, has-set_protected i k flag entries, distinct-set_protected k flag entries)

pub all_queued-set_protected :
    (k : PageKey) (flag : Bool) (entries : Entries) (queue : List PageKey)
    → all_queued (set_protected k flag entries) queue ≡ all_queued entries queue
unfolding all_queued set_protected
all_queued-set_protected k flag [] queue = refl
all_queued-set_protected k flag ((i, f) ∷ entries) queue =
    ground (arith, all_queued-set_protected k flag entries queue)
