-- ===== src/Storage/Pages/Slice.antt =====
-- A range that is read in pages is the range of the object.
use thanos_datafusion_experi.Common.{
  ℕ, zero, suc, ◌+◌, ◌-◌, ◌*◌, ◌/◌, ◌%◌, ◌^◌, ◌≤◌, ◌<◌, min, max, ◌≡◌, refl, sym, ap, ◌∙◌, subst,
  true, ◌&&◌, [], ◌++◌, arith, append-nil, ok, leb, lt→ltb, le→leb, length, slice,
}
use thanos_datafusion_experi.Common.Slices.{slice-slice, slice-append, length-slice}
use native.Mathlib.Nat.{div-mul-le_self, le-div_iff_mul-le, lt-div-mul-add, div-eq_of_eq-mul_left}
use thanos_datafusion_experi.Common.Text.{Bytes}
use thanos_datafusion_experi.Storage.Reader.{IoResult}
use thanos_datafusion_experi.Storage.Pages.{read_pages, read_range, fetch_page}

product : (q r n : ℕ) → q ≤ r → r * n ≡ q * n + (r - q) * n
product q r n h =
    let e : r ≡ q + (r - q) = omega arith in
    let d : (q + (r - q)) * n ≡ q * n + (r - q) * n = grind arith in ap (λ (t : ℕ). t * n) e ∙ d

module _ (file : Bytes) (get_page : ℕ → IoResult Bytes) (page_size start end : ℕ) where
  -- `get_page` serves the pages of the object; the last one may be short.
  abbrev pub ServesPages : Type 0
  ServesPages =
      (k : ℕ)
      → k * page_size < length file
      → get_page (k * page_size)
        ≡ ok (slice file (k * page_size) (min (k * page_size + page_size) (length file)))

  module _ (serves : ServesPages) (inside : end ≤ length file) (before : start < end)
      (fits : length file + page_size < 2 ^ 64) where
    one_page :
        (offset from to : ℕ)
        → offset < end
        → start < offset + page_size
        → from ≡ start - offset
        → to ≡ min end (offset + page_size) - offset
        → slice (slice file offset (min (offset + page_size) (length file))) from to
          ≡ slice file (max start offset) (min end (offset + page_size))
    one_page offset from to a b p q =
        let lo : offset + from ≡ max start offset = omega arith in
        let hi : offset + to ≡ min end (offset + page_size) = omega arith in
        slice-slice file offset (min (offset + page_size) (length file)) from to (omega arith)
        ∙ ap (λ (i : ℕ). slice file i (offset + to)) lo
        ∙ ap (λ (i : ℕ). slice file (max start offset) i) hi

    -- One page is there, and it holds its part of the range.
    page_there :
        (k offset : ℕ)
        → offset ≡ k * page_size
        → offset < end
        → get_page offset ≡ ok (slice file offset (min (offset + page_size) (length file)))
    page_there k offset e h =
        subst (λ o. get_page o ≡ ok (slice file o (min (o + page_size) (length file)))) (sym e)
          (serves k (omega (arith, e)))

    in_page :
        (offset : ℕ)
        → offset < end
        → start < offset + page_size
        → (leb
              (start - offset)
              (length (slice file offset (min (offset + page_size) (length file))))
            && (leb
                  (min end (offset + page_size) - offset)
                  (length (slice file offset (min (offset + page_size) (length file))))
                && leb (start - offset) (min end (offset + page_size) - offset)))
          ≡ true
    in_page offset h c =
        let size =
          length-slice file offset (min (offset + page_size) (length file)) (omega arith) in
        rw
          (
            le→leb (start - offset)
                (length (slice file offset (min (offset + page_size) (length file))))
                (omega (arith, size)),
            le→leb (min end (offset + page_size) - offset)
                (length (slice file offset (min (offset + page_size) (length file))))
                (omega (arith, size)),
            le→leb (start - offset) (min end (offset + page_size) - offset) (omega arith),
          )
          refl

    one_round :
        (count k offset : ℕ) (rest : Bytes)
        → offset ≡ k * page_size
        → offset < end
        → start < offset + page_size
        → read_pages get_page page_size start end count (offset + page_size) ≡ ok rest
        → read_pages get_page page_size start end (suc count) offset
          ≡ ok (slice file (max start offset) (min end (offset + page_size)) ++ rest)
    unfolding read_pages
    one_round count k offset rest e h c r =
        let w : (offset + page_size) % 2 ^ 64 ≡ offset + page_size = omega arith in
        rw (page_there k offset e h, w, in_page offset h c, r)
          (ap (λ xs. ok (xs ++ rest))
            (one_page offset (start - offset) (min end (offset + page_size) - offset) h c refl
              refl))

    pages :
        (count k offset : ℕ)
        → offset ≡ k * page_size
        → offset + count * page_size < end
        → end ≤ offset + count * page_size + page_size
        → start < offset + page_size
        → read_pages get_page page_size start end (suc count) offset
          ≡ ok (slice file (max start offset) end)
    unfolding read_pages
    pages zero k offset e a b c =
        let last : min end (offset + page_size) ≡ end = omega arith in
        one_round zero k offset [] e (omega arith) c refl
        ∙ ap ok (append-nil _ ∙ ap (λ (i : ℕ). slice file (max start offset) i) last)
    pages (suc count) k offset e a b c =
        let cut : min end (offset + page_size) ≡ offset + page_size = grind arith in
        let on : max start (offset + page_size) ≡ offset + page_size = omega arith in
        one_round (suc count) k offset _ e (grind arith) c (
          pages count (suc k) (offset + page_size) (omega (arith, e)) (omega arith) (omega arith)
            (grind arith))
        ∙ ap ok (
            ap
              (λ (i : ℕ).
                slice file (max start offset) i ++ slice file (max start (offset + page_size)) end)
              cut
            ∙ ap (λ (i : ℕ). slice file (max start offset) (offset + page_size) ++ slice file i end)
                on
            ∙ slice-append file (max start offset) (offset + page_size) end (omega arith)
                (omega (arith, cut)))

    read_range-slice :
        0 < page_size → read_range get_page page_size start end ≡ ok (slice file start end)
    unfolding read_range
    read_range-slice p =
        let low = div-mul-le_self start page_size in
        let q = start / page_size in
        let r = (end - 1) / page_size in
        let ordered : q ≤ r = (le-div_iff_mul-le p).1 (omega arith) in
        let split : r * page_size ≡ q * page_size + (r - q) * page_size =
          product q r page_size ordered in
        let count : (r * page_size - q * page_size) / page_size + 1 ≡ suc (r - q) = omega (
          arith,
          div-eq_of_eq-mul_left {n = page_size} {m = r * page_size - q * page_size} {k = r - q} p
              (omega arith),
        ) in
        let first : max start (q * page_size) ≡ start = omega arith in
        let on = lt-div-mul-add {a = start} p in
        let off = lt-div-mul-add {a = end - 1} p in
        let under = div-mul-le_self (end - 1) page_size in
        rw count (
          pages (r - q) q (q * page_size) refl (omega arith) (omega arith) on
          ∙ ap (λ (i : ℕ). ok (slice file i end)) first)

-- Pages that are fetched from the object serve it.
fetch_page-ServesPages :
    (file : Bytes) (stat : IoResult ℕ) (read : ℕ → ℕ → IoResult Bytes) (page_size start end : ℕ)
    → 0 < page_size
    → length file + page_size < 2 ^ 64
    → stat ≡ ok (length file)
    → ((a b : ℕ) → a ≤ b → b ≤ length file → read a b ≡ ok (slice file a b))
    → ServesPages file (fetch_page stat read page_size) page_size start end
unfolding fetch_page
fetch_page-ServesPages file stat read page_size start end p fits s r k h =
    let o = k * page_size in
    let w : min ((k * page_size + page_size) % 2 ^ 64) (length file)
        ≡ min (k * page_size + page_size) (length file) =
      omega arith in
    rw (s, w, lt→ltb (k * page_size) (min (k * page_size + page_size) (length file)) (omega arith))
      (r (k * page_size) (min (k * page_size + page_size) (length file)) (omega arith)
        (omega arith))

-- A range within an object that is read through pages is that range of the object, whatever the
-- page size above 0, where the object store answers with the object's size and the ranges within
-- it, and the object's size plus a page is below 2^64.
pub read_range-fetch_page :
    (file : Bytes) (stat : IoResult ℕ) (read : ℕ → ℕ → IoResult Bytes) (page_size start end : ℕ)
    → 0 < page_size
    → length file + page_size < 2 ^ 64
    → stat ≡ ok (length file)
    → ((a b : ℕ) → a ≤ b → b ≤ length file → read a b ≡ ok (slice file a b))
    → start < end
    → end ≤ length file
    → read_range (fetch_page stat read page_size) page_size start end ≡ ok (slice file start end)
read_range-fetch_page file stat read page_size start end p fits s r before inside =
    read_range-slice file (fetch_page stat read page_size) page_size start end
      (fetch_page-ServesPages file stat read page_size start end p fits s r) inside before fits p
