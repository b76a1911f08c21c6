-- ===== src/TsdbIndex/Walk/Ends.antt =====
-- `parse_each` ends: enough fuel, and the one input on which its loop never does.
use thanos_datafusion_experi.Common.{
  ℕ, zero, suc, ◌+◌, ◌%◌, ◌^◌, ◌≤◌, ◌<◌, ◌≡◌, ◌≢◌, refl, Bool, true, false, none, arith, ok,
  >>=-eq-ok, leb, ltb, ◌==◌, length, get_elem?, get_elem?_in, leb→le, get_range, Ends, returned,
  refused, Ends-bind, Ends-ok_or, Ends-or_panic, Ends-ensure, Returns, ok_or, ensure, Ends-if, not,
  ◌&&◌,
}
use thanos_datafusion_experi.Common.Bits.{bit_and}
use thanos_datafusion_experi.Common.Int.{checked_add, checked_sub}
use thanos_datafusion_experi.Common.Text.{Bytes}
use thanos_datafusion_experi.TsdbIndex.Reader.{
  Crates, Section, read_u32, read_u64, uvarint_loop, read_uvarint, read_varint, verify_crc,
  add_group, IndexError, uvarint_overflow, too_short, invalid_magic, invalid_utf8,
  unexpected_symbol_bytes, unsupported_version, too_short_for_toc, invalid_series_bounds,
}
use thanos_datafusion_experi.TsdbIndex.Walk.{
  index_magic, read_symbols, parse_symbols, parse_toc, read_header,
}

module _ {P : Type 0} where
  uvarint_loop-Ends :
      (rounds : ℕ) (bytes : Bytes) (offset index value : ℕ)
      → Ends P (uvarint_loop rounds bytes offset index value)
  unfolding uvarint_loop
  uvarint_loop-Ends zero bytes offset index value = refused
  uvarint_loop-Ends (suc rounds) bytes offset index value =
      Ends-bind (Ends-ok_or (get_elem? bytes (offset + index)) _) λ byte _.
        Ends-bind (Ends-ensure (not (index == 9 && ltb 1 byte)) uvarint_overflow) λ _ _.
          Ends-if (bit_and byte 0x80 == 0) returned
            (uvarint_loop-Ends rounds bytes offset (index + 1) (add_group value byte index))

  pub read_uvarint-Ends : (bytes : Bytes) (offset : ℕ) → Ends P (read_uvarint bytes offset)
  unfolding read_uvarint
  read_uvarint-Ends bytes offset = uvarint_loop-Ends 10 bytes offset 0 0

  pub read_varint-Ends : (bytes : Bytes) (offset : ℕ) → Ends P (read_varint bytes offset)
  unfolding read_varint
  read_varint-Ends bytes offset = Ends-bind (read_uvarint-Ends bytes offset) λ _ _. returned

  read_u32-Ends : (bytes : Bytes) (offset : ℕ) → Ends P (read_u32 bytes offset)
  unfolding read_u32
  read_u32-Ends bytes offset = Ends-ok_or _ _

  read_u64-Ends : (bytes : Bytes) (offset : ℕ) → Ends P (read_u64 bytes offset)
  unfolding read_u64
  read_u64-Ends bytes offset = Ends-ok_or _ _

  parse_toc-Ends : (bytes : Bytes) → Ends P (parse_toc bytes)
  unfolding parse_toc
  parse_toc-Ends bytes = Ends-bind (read_u64-Ends bytes 0) λ _ _.
      Ends-bind (read_u64-Ends bytes 8) λ _ _. Ends-bind (read_u64-Ends bytes 16) λ _ _. returned

-- A word that was read lies within the input, which is shorter than `isize::MAX`.
read_u32_bound :
    (bytes : Bytes) (offset : ℕ) {v : ℕ}
    → length bytes < 2 ^ 63
    → offset < 2 ^ 64
    → read_u32 bytes offset ≡ ok v
    → offset + 4 ≤ length bytes
unfolding read_u32
read_u32_bound bytes offset h o e = ground arith

sum_lem :
    (a b c : ℕ) (x : IndexError)
    → ok_or (checked_add a b) x ≡ ok c
    → (a ≤ c) × (c < 2 ^ 64) × (c ≡ a + b)
unfolding checked_add
sum_lem a b c x e = ground arith

in_range : (bytes : Bytes) (a b : ℕ) → a ≤ b → b ≤ length bytes → get_range bytes a b ≢ none
in_range bytes a b h k e = ground arith

test_holds : (b : Bool) (x : IndexError) {u : Unit {0}} → ensure b x ≡ ok u → b ≡ true
test_holds true x e = refl
test_holds false x e = cc

four_in : (bytes : Bytes) → leb 57 (length bytes) ≡ true → get_elem? bytes 4 ≢ none
four_in bytes h e =
    let (b, f) = get_elem?_in bytes 4 (omega (arith, leb→le 57 (length bytes) h)) in cc

module _ (crates : Crates) (bytes : Bytes) (short : length bytes < 2 ^ 63) where
  at_end : {end v : ℕ} → end < 2 ^ 64 → read_u32 bytes end ≡ ok v → end ≤ length bytes
  at_end {end} h r = omega (arith, read_u32_bound bytes end short h r)

  pub verify_crc-Ends :
      {P : Type 0} (start size : ℕ) (section : Section)
      → Ends P (verify_crc crates bytes start size section)
  unfolding verify_crc
  verify_crc-Ends start size section = Ends-bind (Ends-ok_or (checked_add start size) _) λ end e.
      Ends-bind (read_u32-Ends bytes end) λ checksum r.
        Ends-bind
          (Ends-or_panic (get_range bytes start end) (λ missing. absurd (
            in_range bytes start end (sum_lem start size end _ e).0
              (at_end (sum_lem start size end _ e).1 r) missing)))
          λ _ _. Ends-ensure _ _

  read_symbols-Ends :
      {P : Type 0} (content_end count position : ℕ)
      → content_end ≤ length bytes
      → Ends P (read_symbols crates bytes content_end count position)
  unfolding read_symbols
  read_symbols-Ends content_end zero position h = returned
  read_symbols-Ends content_end (suc count) position h =
      Ends-bind (read_uvarint-Ends bytes position) λ (size, n) _.
        Ends-bind (Ends-ok_or (checked_add position n) _) λ start p.
          Ends-bind (Ends-ok_or (checked_add start size) _) λ end q.
            Ends-bind (Ends-ensure (leb end content_end) _) λ _ fits.
              Ends-bind
                (Ends-or_panic (get_range bytes start end) (λ missing.
                  absurd (
                    in_range bytes start end (sum_lem start size end _ q).0 (ground arith)
                      missing)))
                λ text _.
                  Ends-bind (Ends-ensure (crates.valid_utf8 text) invalid_utf8)
                    λ _ _. Ends-bind (read_symbols-Ends content_end count end h) λ _ _. returned

  crc_end :
      (start size : ℕ) (section : Section) (x : IndexError) {end : ℕ} {u : Unit {0}}
      → ok_or (checked_add start size) x ≡ ok end
      → verify_crc crates bytes start size section ≡ ok u
      → end ≤ length bytes
  unfolding verify_crc
  crc_end start size section x e h =
      let (stop, p, q) = >>=-eq-ok (ok_or (checked_add start size) _) _ h in
      let (sum, r, t) = >>=-eq-ok (read_u32 bytes stop) _ q in
      let a = sum_lem start size stop _ p in
      let b = sum_lem start size _ x e in omega (arith, at_end a.1 r)

  parse_symbols-Ends : {P : Type 0} (offset : ℕ) → Ends P (parse_symbols crates bytes offset)
  unfolding parse_symbols
  parse_symbols-Ends offset = Ends-bind (read_u32-Ends bytes offset) λ size _.
      Ends-bind (Ends-ok_or (checked_add offset 4) _) λ start _.
        Ends-bind (Ends-ok_or (checked_add start size) _) λ end e.
          Ends-bind (Ends-ensure (leb ((end + 4) % 2 ^ 64) (length bytes)) _) λ _ _.
            Ends-bind (verify_crc-Ends start size Section.symbol_table) λ _ sum.
              Ends-bind (read_u32-Ends bytes start) λ count _.
                Ends-bind (read_symbols-Ends end count (start + 4) (crc_end start size _ _ e sum))
                  λ (symbols, position) _.
                    Ends-bind (Ends-ensure (position == end) unexpected_symbol_bytes)
                      λ _ _. returned

  toc_end :
      (start : ℕ) (x : IndexError)
      → ok_or (checked_sub (length bytes) 52) x ≡ ok start
      → start + 48 ≤ length bytes
  toc_end start x e = unfold checked_sub in ground arith

  -- In a build whose integer additions wrap, as those of the release profile do, on every input
  -- shorter than 2^63 bytes: reading the header, the table of contents and the symbol table
  -- returns a value or an error and never panics.
  pub read_header-Returns : Returns (read_header crates bytes)
  unfolding read_header
  read_header-Returns = Ends-bind (Ends-ensure (leb 57 (length bytes)) too_short) λ _ long.
      Ends-bind (read_u32-Ends bytes 0) λ magic _.
        Ends-bind (Ends-ensure (magic == index_magic) invalid_magic) λ _ _.
          Ends-bind
            (Ends-or_panic (get_elem? bytes 4)
              (λ e. absurd (four_in bytes (test_holds _ _ long) e)))
            λ v _. Ends-bind (Ends-ensure (leb 1 v && leb v 2) (unsupported_version v)) λ _ _.
              Ends-bind (Ends-ok_or (checked_sub (length bytes) 52) too_short_for_toc) λ start s.
                Ends-bind (verify_crc-Ends start 48 Section.toc) λ _ _.
                  Ends-bind
                    (Ends-or_panic (get_range bytes start (start + 48)) (λ e.
                      absurd
                        (in_range bytes start (start + 48) (omega arith) (toc_end start _ s) e)))
                    λ toc_bytes _. Ends-bind (parse_toc-Ends toc_bytes) λ toc _.
                      Ends-bind (parse_symbols-Ends toc.symbols) λ _ _.
                        Ends-bind
                          (Ends-ensure
                            (leb toc.series toc.label_indices_start
                              && leb toc.label_indices_start start)
                            invalid_series_bounds)
                          λ _ _. returned
