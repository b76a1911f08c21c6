-- ===== src/TsdbIndex/Walk/Header.antt =====
-- Where `parse_each` places the series section.
use thanos_datafusion_experi.Common.{
  ℕ, ◌+◌, ◌≤◌, true, ◌&&◌, ◌≡◌, some, List, arith, ok, length, leb, ◌==◌, get_elem?, get_range,
  or_panic, Ensures, Ensures-of, Ensures-bind, Ensures-ensure, Ensures-ok_or, Ensures-eq-ok, holds,
}
use thanos_datafusion_experi.Common.Int.{checked_sub}
use thanos_datafusion_experi.Common.Text.{Bytes, Text}
use thanos_datafusion_experi.TsdbIndex.Reader.{
  Crates, Section, read_u32, verify_crc, too_short, invalid_magic, unsupported_version,
  too_short_for_toc, invalid_series_bounds,
}
use thanos_datafusion_experi.TsdbIndex.Walk.{index_magic, parse_toc, parse_symbols, read_header}

within : (a b c : ℕ) → (leb a b && leb b c) ≡ true → (a ≤ b) × (b ≤ c)
within a b c e = ground arith

toc_place : (n start : ℕ) → checked_sub n 52 ≡ some start → start + 52 ≤ n
unfolding checked_sub
toc_place n start e = ground arith

header-Ensures :
    (crates : Crates) (bytes : Bytes)
    → Ensures
        (λ (symbols, start, end). (start ≤ end) × (end + 52 ≤ length bytes))
        (read_header crates bytes)
unfolding read_header
header-Ensures crates bytes =
    Ensures-bind (Ensures-ensure {P = Unit {0}} (leb 57 (length bytes)) too_short (λ _. tt)) λ _ _.
      Ensures-bind (Ensures-of (λ _. Unit {0}) (read_u32 bytes 0) (λ _ _. tt)) λ magic _.
        Ensures-bind (Ensures-ensure {P = Unit {0}} (magic == index_magic) invalid_magic (λ _. tt))
          λ _ _.
            Ensures-bind (Ensures-of (λ _. Unit {0}) (or_panic (get_elem? bytes 4)) (λ _ _. tt))
              λ v _.
                Ensures-bind
                  (Ensures-ensure {P = Unit {0}} (leb 1 v && leb v 2) (unsupported_version v)
                    (λ _. tt))
                  λ _ _.
                    Ensures-bind
                      (Ensures-ok_or (λ s. s + 52 ≤ length bytes) (checked_sub (length bytes) 52)
                        too_short_for_toc (λ s. toc_place (length bytes) s))
                      λ toc_start t.
                        Ensures-bind
                          (Ensures-of (λ _. Unit {0})
                            (verify_crc crates bytes toc_start 48 Section.toc) (λ _ _. tt))
                          λ _ _.
                            Ensures-bind
                              (Ensures-of (λ _. Unit {0})
                                (or_panic (get_range bytes toc_start (toc_start + 48))) (λ _ _. tt))
                              λ toc_bytes _.
                                Ensures-bind
                                  (Ensures-of (λ _. Unit {0}) (parse_toc toc_bytes) (λ _ _. tt))
                                  λ toc _.
                                    Ensures-bind
                                      (Ensures-of (λ _. Unit {0})
                                        (parse_symbols crates bytes toc.symbols) (λ _ _. tt))
                                      λ symbols _.
                                        Ensures-bind
                                          (Ensures-ensure
                                            (leb toc.series toc.label_indices_start
                                              && leb toc.label_indices_start toc_start)
                                            invalid_series_bounds
                                            (within toc.series toc.label_indices_start toc_start))
                                          λ _ w. holds (w.0, omega (arith, t, w.1))

-- Where the header is read, the series section starts no later than it ends, and it ends ahead of
-- the table of contents.
pub read_header_bounds :
    (crates : Crates) (bytes : Bytes) (symbols : List Text) (start end : ℕ)
    → read_header crates bytes ≡ ok (symbols, start, end)
    → (start ≤ end) × (end + 52 ≤ length bytes)
read_header_bounds crates bytes symbols start end = Ensures-eq-ok (header-Ensures crates bytes)
