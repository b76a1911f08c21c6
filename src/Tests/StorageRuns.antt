-- ===== src/Tests/StorageRuns.antt =====
-- Runs of the code of storage/mod.rs.
use thanos_datafusion_experi.Common.{
  ℕ, ◌+◌, ◌≤◌, ◌≡◌, refl, true, false, some, List, [], ◌∷◌, arith, ok, ok_or, length, slice,
  get_range, le→leb,
}
use thanos_datafusion_experi.Common.Text.{Bytes, codes}
use thanos_datafusion_experi.Storage.Reader.{IoResult, unexpected_eof}
use thanos_datafusion_experi.Storage.Cache.{
  PageKey, CacheState, slru, find, touch, store_cached, load_cached,
}
use thanos_datafusion_experi.Storage.Cache.Accounts.{
  total, Accounted, store_cached-Accounted, load_cached_drifts,
}
use thanos_datafusion_experi.Storage.Cache.Uses.{
  Use, load, store, use_cache, empty_cache, use_cache_bounded,
}
use thanos_datafusion_experi.Storage.Pages.{read_range, fetch_page}
use thanos_datafusion_experi.Storage.Pages.Slice.{read_range-fetch_page}
use thanos_datafusion_experi.Storage.Registry.{bucket_and_root}

abbrev object : Bytes
object = 10 ∷ 11 ∷ 12 ∷ 13 ∷ 14 ∷ 15 ∷ 16 ∷ 17 ∷ 18 ∷ []

abbrev read_object : ℕ → ℕ → IoResult Bytes
read_object start end = ok_or (get_range object start end) unexpected_eof

object_read : (a b : ℕ) → a ≤ b → b ≤ length object → read_object a b ≡ ok (slice object a b)
object_read a b h k = rw (le→leb a b h, le→leb b (length object) k) refl

pages_example : read_range (fetch_page (ok 9) read_object 4) 4 3 9 ≡ ok (slice object 3 9)
pages_example =
    read_range-fetch_page object (ok 9) read_object 4 3 9 (omega arith) (omega arith) refl
      object_read (omega arith) (omega arith)

abbrev a_key : PageKey
a_key = record { repository = codes "main"; path = codes "000001"; offset = 0 }

abbrev b_key : PageKey
b_key = record { repository = codes "main"; path = codes "000001"; offset = 4 }

abbrev one_page : CacheState
one_page = record {
  entries = (a_key, record { size = 4; is_protected = false }) ∷ [];
  probationary = a_key ∷ [];
  guarded = [];
  bytes = 4;
}

one_page-Accounted : Accounted one_page
unfolding total
one_page-Accounted = refl

store_example : Accounted (store_cached 6 b_key 4 one_page)
store_example = store_cached-Accounted 6 b_key 4 one_page (omega arith) one_page-Accounted

abbrev calls : List Use
calls = store a_key 2 ∷ load a_key false ∷ store b_key 4 ∷ store b_key 3 ∷ load b_key true ∷ []

calls_example : total (use_cache slru 8 6 calls empty_cache).entries ≤ 6
calls_example = use_cache_bounded slru 8 6 calls (omega arith)

-- These calls leave the page of 3 bytes.
calls_run : total (use_cache slru 8 6 calls empty_cache).entries ≡ 3
unfolding use_cache total
calls_run = refl

found_run : find a_key one_page.entries ≡ some (record { size = 4; is_protected = false })
unfolding find
found_run = refl

touched_run :
    find a_key (touch slru 8 a_key one_page).entries
    ≡ some (record { size = 4; is_protected = true })
unfolding find touch
touched_run = refl

drift_example :
    (load_cached slru 8 a_key false one_page).1.bytes
    ≡ total (load_cached slru 8 a_key false one_page).1.entries + 4
drift_example =
    load_cached_drifts slru 8 a_key one_page (record { size = 4; is_protected = false })
      (record { size = 4; is_protected = true }) one_page-Accounted found_run touched_run

bucket_run : bucket_and_root (codes "/bucket/a/b/") ≡ ok (codes "bucket", codes "a/b")
unfolding bucket_and_root
bucket_run = refl
