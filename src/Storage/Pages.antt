-- ===== src/Storage/Pages.antt =====
-- `RangeCache::read_range` of storage/mod.rs: a range as the pages that hold it.
pub mod Slice
use thanos_datafusion_experi.Common.{
  ℕ, zero, suc, ◌+◌, ◌-◌, ◌*◌, ◌/◌, ◌%◌, ◌^◌, min, Bool, ◌&&◌, List, [], ◌∷◌, ◌++◌, ok, ◌>>=◌, ◌>>◌,
  ensure, ltb, leb, length, slice,
}
use thanos_datafusion_experi.Common.Text.{Bytes}
use thanos_datafusion_experi.Storage.Reader.{IoResult, unexpected_eof, other}

-- `get_page(offset)` is a parameter: the page from the cache or from the object.
module _ (get_page : ℕ → IoResult Bytes) (page_size start end : ℕ) where
  -- The pages from `offset` on, `count` of them: `(first_page..=last_page).step_by(page_size)`.
  unfoldable pub read_pages : ℕ → ℕ → IoResult Bytes
  read_pages zero offset = ok []
  read_pages (suc count) offset = do
    page ← get_page offset
    let from = start - offset
    let to = min end ((offset + page_size) % 2 ^ 64) - offset
    ensure (leb from (length page) && (leb to (length page) && leb from to)) unexpected_eof
    rest ← read_pages count (offset + page_size)
    ok (slice page from to ++ rest)

  -- `start < end`, as `Repository::read_range` sees to.
  unfoldable pub read_range : IoResult Bytes
  unfolding read_pages
  read_range =
      let first_page = start / page_size * page_size in
      let last_page = (end - 1) / page_size * page_size in
      read_pages ((last_page - first_page) / page_size + 1) first_page

-- The flight that fetches a page from the object: `stat` and `read` are those of the object store.
unfoldable pub fetch_page : IoResult ℕ → (ℕ → ℕ → IoResult Bytes) → ℕ → ℕ → IoResult Bytes
fetch_page stat read page_size offset = do
  size ← stat
  let end = min ((offset + page_size) % 2 ^ 64) size
  ensure (ltb offset end) other
  read offset end
