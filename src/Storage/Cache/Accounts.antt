-- ===== src/Storage/Cache/Accounts.antt =====
-- The size that the cache accounts for, and the sizes of its entries.
use thanos_datafusion_experi.Common.{
  ℕ, ◌+◌, ◌^◌, ◌≤◌, ◌<◌, ◌≡◌, refl, sym, ◌∙◌, Bool, true, false, some, List, [], ◌∷◌, ◌++◌, arith,
  leb, Bool-cases, Option-cases, inl, inr,
}
use thanos_datafusion_experi.Storage.Cache.{
  PageKey, PageEntry, Entries, CacheState, CachePolicy, find, put, remove, size_of, set_protected,
  demote, is_guarded, remove_key, queue_bytes, touch, evict_one, evict_guarded, evict, store_page,
  store_cached, load_cached,
}

-- The bytes of the pages that the map holds.
unfoldable pub total : Entries → ℕ
total [] = 0
total ((k, e) ∷ entries) = e.size + total entries

abbrev pub Accounted : CacheState → Type 0
Accounted s = s.bytes ≡ total s.entries

pub total-remove :
    (k : PageKey) (entries : Entries) (e : PageEntry)
    → find k entries ≡ some e
    → total entries ≡ total (remove k entries) + e.size
unfolding total find remove
total-remove k [] e h = cc
total-remove k ((j, f) ∷ entries) e h = ground (arith, total-remove k entries e)

pub total-remove_le : (k : PageKey) (entries : Entries) → total (remove k entries) ≤ total entries
unfolding total remove
total-remove_le k [] = omega arith
total-remove_le k ((j, f) ∷ entries) = ground (arith, total-remove_le k entries)

pub total-put :
    (k : PageKey) (e : PageEntry) (entries : Entries)
    → total (put k e entries) + size_of (find k entries) ≡ total entries + e.size
unfolding total find put
total-put k e [] = omega arith
total-put k e ((j, f) ∷ entries) = ground (arith, total-put k e entries)

total-set_protected :
    (k : PageKey) (flag : Bool) (entries : Entries)
    → total (set_protected k flag entries) ≡ total entries
unfolding total set_protected
total-set_protected k flag [] = refl
total-set_protected k flag ((j, e) ∷ entries) = ground (arith, total-set_protected k flag entries)

total-demote :
    (bound : ℕ) (entries : Entries) (probationary guarded : List PageKey)
    → total (demote bound entries probationary guarded).0 ≡ total entries
unfolding demote
total-demote bound entries probationary [] = refl
total-demote bound entries probationary (k ∷ guarded) =
    elim (Bool-cases (leb (queue_bytes entries (k ∷ guarded)) bound)) [
      | inl fits ↦ rw fits refl
      | inr over ↦ rw over (
          total-demote bound (set_protected k false entries) (probationary ++ (k ∷ [])) guarded
          ∙ total-set_protected k false entries)
    ]

pub total-touch :
    (policy : CachePolicy) (bound : ℕ) (key : PageKey) (s : CacheState)
    → total (touch policy bound key s).entries ≡ total s.entries
unfolding touch
total-touch policy bound key s = elim (Option-cases (find key s.entries)) [
  | inl e ↦ rw (e, touch) refl
  | inr (e, f) ↦
      rw (f, touch)
        (elim (Bool-cases (is_guarded policy e)) [
          | inl g ↦ rw g (
              total-demote bound (set_protected key true s.entries) (remove_key s.probationary key)
                (remove_key s.guarded key ++ (key ∷ []))
              ∙ total-set_protected key true s.entries)
          | inr g ↦ rw g refl
        ])
]

pub touched_bytes :
    (policy : CachePolicy) (bound : ℕ) (key : PageKey) (s : CacheState)
    → (touch policy bound key s).bytes ≡ s.bytes
unfolding touch
touched_bytes policy bound key s = elim (Option-cases (find key s.entries)) [
  | inl e ↦ rw (e, touch) refl
  | inr (e, f) ↦
      rw (f, touch)
        (elim (Bool-cases (is_guarded policy e)) [ inl g ↦ rw g refl | inr g ↦ rw g refl ])
]

-- If the accounted size of the cache is the sum of its entries, then it is so after `touch`, with
-- any policy and limit.
touch-Accounted :
    (policy : CachePolicy) (bound : ℕ) (key : PageKey) (s : CacheState)
    → Accounted s
    → Accounted (touch policy bound key s)
touch-Accounted policy bound key s h =
    touched_bytes policy bound key s ∙ h ∙ sym (total-touch policy bound key s)

one_less :
    (k : PageKey) (entries : Entries) (bytes : ℕ)
    → bytes ≡ total entries
    → (evict_one k (find k entries) entries bytes).1
      ≡ total (evict_one k (find k entries) entries bytes).0
one_less k entries bytes h = elim (Option-cases (find k entries)) [
  | inl e ↦ rw e h
  | inr (e, f) ↦ rw f (omega (arith, h, total-remove k entries e f))
]

evict_guarded-Accounted :
    (max_size : ℕ) (entries : Entries) (bytes : ℕ) (guarded : List PageKey)
    → bytes ≡ total entries
    → Accounted (evict_guarded max_size entries bytes guarded)
unfolding evict_guarded
evict_guarded-Accounted max_size entries bytes [] h = h
evict_guarded-Accounted max_size entries bytes (k ∷ guarded) h =
    elim (Bool-cases (leb bytes max_size)) [
      | inl fits ↦ rw fits h
      | inr over ↦ rw over (
          evict_guarded-Accounted max_size (evict_one k (find k entries) entries bytes).0
            (evict_one k (find k entries) entries bytes).1 guarded (one_less k entries bytes h))
    ]

evict-Accounted :
    (max_size : ℕ) (entries : Entries) (bytes : ℕ) (probationary guarded : List PageKey)
    → bytes ≡ total entries
    → Accounted (evict max_size entries bytes probationary guarded)
unfolding evict
evict-Accounted max_size entries bytes [] guarded h =
    evict_guarded-Accounted max_size entries bytes guarded h
evict-Accounted max_size entries bytes (k ∷ probationary) guarded h =
    elim (Bool-cases (leb bytes max_size)) [
      | inl fits ↦ rw fits h
      | inr over ↦ rw over (
          evict-Accounted max_size (evict_one k (find k entries) entries bytes).0
            (evict_one k (find k entries) entries bytes).1 probationary guarded
            (one_less k entries bytes h))
    ]

pub size_of-find : (k : PageKey) (entries : Entries) → size_of (find k entries) ≤ total entries
size_of-find k entries = elim (Option-cases (find k entries)) [
  | inl e ↦ rw e (omega arith)
  | inr (e, f) ↦ rw f (omega (arith, total-remove k entries e f))
]

-- If the accounted size of the cache is the sum of its entries and the new page does not overflow
-- it, then it is so after `store_cached`, evictions and replacement included.
pub store_cached-Accounted :
    (max_size : ℕ) (key : PageKey) (size : ℕ) (s : CacheState)
    → s.bytes + size < 2 ^ 64
    → Accounted s
    → Accounted (store_cached max_size key size s)
unfolding store_cached store_page
store_cached-Accounted max_size key size s fits h = elim (Bool-cases (leb size max_size)) [
  | inr large ↦ rw large h
  | inl small ↦ rw small (
      evict-Accounted max_size _ _ _ s.guarded (
        omega (
          arith,
          h,
          total-put key (record { size = size; is_protected = false }) s.entries,
          size_of-find key s.entries,
        )))
]

-- Where the accounts are in order and the file of a cached page is missing, `load_cached` leaves
-- an accounted size that exceeds the sum of the entries by the size of that page.
pub load_cached_drifts :
    (policy : CachePolicy) (bound : ℕ) (key : PageKey) (s : CacheState) (e e' : PageEntry)
    → Accounted s
    → find key s.entries ≡ some e
    → find key (touch policy bound key s).entries ≡ some e'
    → (load_cached policy bound key false s).1.bytes
      ≡ total (load_cached policy bound key false s).1.entries + e'.size
unfolding load_cached
load_cached_drifts policy bound key s e e' h f g =
    rw (f, load_cached)
      (touch-Accounted policy bound key s h
        ∙ total-remove key (touch policy bound key s).entries e' g)
