-- ===== src/TsdbIndex/Walk.antt =====
-- `parse_each` and `parse` of tsdb_index.rs: the header, the symbol table, and the walk over the
-- series section that hands each series to a visitor.
pub mod Fold
pub mod Header
pub mod Loop
pub mod Ends
use thanos_datafusion_experi.Common.{
  ℕ, zero, suc, ◌+◌, ◌/◌, ◌%◌, ◌^◌, ◌&&◌, none, some, List, [], ◌∷◌, ◌++◌, ok, err, panicked, stuck,
  ◌>>=◌, ◌>>◌, ensure, ok_or, or_panic, leb, ◌==◌, if◌then◌else◌, length, get_elem?, get_range,
}
use thanos_datafusion_experi.Common.Int.{checked_add, checked_sub}
use thanos_datafusion_experi.Common.Text.{Bytes, Text}
use thanos_datafusion_experi.TsdbIndex.Reader
use thanos_datafusion_experi.TsdbIndex.Reader.{
  Crates, IndexError, Res, read_u32, read_u64, read_uvarint, verify_crc, align_series,
  series_alignment, too_short, invalid_magic, too_short_for_toc, invalid_series_bounds,
  unsupported_version, length_offset_overflow, entry_length_overflow, entry_checksum_overflow,
  truncated_entry, symbols_offset_overflow, symbols_length_overflow, truncated_symbols,
  symbol_offset_overflow, symbol_length_overflow, truncated_symbol, invalid_utf8,
  unexpected_symbol_bytes,
}
use thanos_datafusion_experi.TsdbIndex.Entry.{Series, parse_series}

abbrev pub index_magic : ℕ
index_magic = 0xbaaad700

abbrev pub toc_size : ℕ
toc_size = 48

abbrev pub checksum_size : ℕ
checksum_size = 4

pub record Toc : Type 0 where
  pub symbols : ℕ
  pub series : ℕ
  pub label_indices_start : ℕ

-- `Toc::parse`
unfoldable pub parse_toc : Bytes → Res Toc
unfolding read_u64
parse_toc bytes = do
  symbols ← read_u64 bytes 0
  series ← read_u64 bytes 8
  label_indices_start ← read_u64 bytes 16
  ok (record { symbols = symbols; series = series; label_indices_start = label_indices_start })

-- `for _ in 0..symbol_count`: the symbols and the position behind them.
unfoldable pub read_symbols : Crates → Bytes → ℕ → ℕ → ℕ → Res (List Text × ℕ)
unfolding read_uvarint checked_add
read_symbols crates bytes content_end zero position = ok ([], position)
read_symbols crates bytes content_end (suc count) position = do
  (length', size) ← read_uvarint bytes position
  start ← ok_or (checked_add position size) symbol_offset_overflow
  end ← ok_or (checked_add start length') symbol_length_overflow
  ensure (leb end content_end) truncated_symbol
  text ← or_panic (get_range bytes start end)
  ensure (crates.valid_utf8 text) invalid_utf8
  (symbols, last) ← read_symbols crates bytes content_end count end
  ok (text ∷ symbols, last)

unfoldable pub parse_symbols : Crates → Bytes → ℕ → Res (List Text)
unfolding read_u32 checked_add verify_crc read_symbols
parse_symbols crates bytes offset = do
  content_length ← read_u32 bytes offset
  content_start ← ok_or (checked_add offset 4) symbols_offset_overflow
  content_end ← ok_or (checked_add content_start content_length) symbols_length_overflow
  ensure (leb ((content_end + checksum_size) % 2 ^ 64) (length bytes)) truncated_symbols
  verify_crc crates bytes content_start content_length Reader.symbol_table
  symbol_count ← read_u32 bytes content_start
  (symbols, position) ← read_symbols crates bytes content_end symbol_count (content_start + 4)
  ensure (position == content_end) unexpected_symbol_bytes
  ok symbols

-- The entry at an offset whose byte is not 0: the series, and the offset behind its checksum.
unfoldable pub read_entry : Crates → Bytes → List Text → ℕ → ℕ → Res (Series × ℕ)
unfolding read_uvarint checked_add verify_crc parse_series
read_entry crates bytes symbols series_end offset = do
  (length', length_size) ← read_uvarint bytes offset
  body_start ← ok_or (checked_add offset length_size) length_offset_overflow
  body_end ← ok_or (checked_add body_start length') entry_length_overflow
  checksum_end ← ok_or (checked_add body_end checksum_size) entry_checksum_overflow
  ensure (leb checksum_end series_end) truncated_entry
  verify_crc crates bytes body_start length' Reader.series_entry
  body ← or_panic (get_range bytes body_start body_end)
  series ← parse_series body (offset / series_alignment) symbols
  ok (series, checksum_end)

-- A run of code that calls the visitor: its state is kept also where the run fails.
abbrev pub Run {ℓ} : Type ℓ → Type ℓ
Run S = S × Res (Unit {0})

module _ {ℓ} {S : Type ℓ} where
  -- `let offset = next?; …`
  abbrev pub resume : S → Res ℕ → (ℕ → Run S) → Run S
  resume s (ok offset) k = k offset
  resume s (err e) k = (s, err e)
  resume s panicked k = (s, panicked)
  resume s stuck k = (s, stuck)

  -- `visit(series)`, and on to the next aligned offset.
  abbrev pub visit_entry : (Series → S → S) → S → Res (Series × ℕ) → (S → ℕ → Run S) → Run S
  visit_entry visit s (ok (series, checksum_end)) k =
      let s' = visit series s in resume s' (align_series checksum_end) (k s')
  visit_entry visit s (err e) k = (s, err e)
  visit_entry visit s panicked k = (s, panicked)
  visit_entry visit s stuck k = (s, stuck)

module _ {ℓ} {S : Type ℓ} (crates : Crates) (bytes : Bytes) (visit : Series → S → S) where
  -- `while offset < series_end`, on fuel.
  unfoldable pub walk : ℕ → List Text → ℕ → ℕ → S → Run S
  unfolding align_series read_entry
  walk zero symbols series_end offset s = (s, stuck)
  walk (suc fuel) symbols series_end offset s =
      let padded = resume s (align_series offset) (λ next. walk fuel symbols series_end next s) in
      let entry =
        visit_entry visit s (read_entry crates bytes symbols series_end offset)
          (λ s' next. walk fuel symbols series_end next s') in
      if leb series_end offset then (s, ok tt) else elim (get_elem? bytes offset) [
        | none ↦ (s, panicked)
        | some byte ↦ if byte == 0 then padded else entry
      ]

-- What `parse_each` reads ahead of the walk: the symbols, and where the series section begins and
-- ends.
unfoldable pub read_header : Crates → Bytes → Res (List Text × ℕ × ℕ)
unfolding read_u32 checked_sub verify_crc parse_toc parse_symbols
read_header crates bytes = do
  ensure (leb (5 + toc_size + checksum_size) (length bytes)) too_short
  magic ← read_u32 bytes 0
  ensure (magic == index_magic) invalid_magic
  version ← or_panic (get_elem? bytes 4)
  ensure (leb 1 version && leb version 2) (unsupported_version version)
  toc_start ← ok_or (checked_sub (length bytes) (toc_size + checksum_size)) too_short_for_toc
  verify_crc crates bytes toc_start toc_size Reader.toc
  toc_bytes ← or_panic (get_range bytes toc_start (toc_start + toc_size))
  toc ← parse_toc toc_bytes
  symbols ← parse_symbols crates bytes toc.symbols
  ensure (leb toc.series toc.label_indices_start && leb toc.label_indices_start toc_start)
      invalid_series_bounds
  ok (symbols, toc.series, toc.label_indices_start)

module _ {ℓ} {S : Type ℓ} (crates : Crates) (fuel : ℕ) (bytes : Bytes) where
  unfoldable pub parse_each : (Series → S → S) → S → Run S
  unfolding read_header walk
  parse_each visit s = elim (read_header crates bytes) [
    | ok (symbols, series_start, series_end) ↦
        walk crates bytes visit fuel symbols series_end series_start s
    | err e ↦ (s, err e)
    | panicked ↦ (s, panicked)
    | stuck ↦ (s, stuck)
  ]

-- `parse` collects what `parse_each` visits.
unfoldable pub parse : Crates → ℕ → Bytes → Res (List Series)
unfolding parse_each
parse crates fuel bytes =
    let run = parse_each crates fuel bytes (λ entry series. series ++ (entry ∷ [])) [] in
    run.1 >>= λ _. ok run.0
