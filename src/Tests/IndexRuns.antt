-- ===== src/Tests/IndexRuns.antt =====
-- Runs of the code of tsdb_index.rs.
use thanos_datafusion_experi.Common.{
  ℕ, ◌+◌, ◌≡◌, refl, sym, ◌∙◌, none, some, List, [], ◌∷◌, ◌++◌, arith, ok, stuck, ◌≢◌, length,
  get_elem?,
}
use thanos_datafusion_experi.Common.{true, Returns, take}
use thanos_datafusion_experi.Common.Int.{pos, negsuc}
use thanos_datafusion_experi.Common.Text.{Bytes, Text, codes}
use thanos_datafusion_experi.Common.Maps.{Labels, Sorted}
use thanos_datafusion_experi.TsdbIndex.Reader
use thanos_datafusion_experi.TsdbIndex.Reader.{
  Crates, from_be_bytes, read_u32, read_u64, uvarint_loop, read_uvarint, unzigzag, read_varint,
  align_series, symbol, verify_crc,
}
use thanos_datafusion_experi.Common.Int.{checked_add, checked_sub}
use thanos_datafusion_experi.TsdbIndex.Entry.{Chunk, Series, parse_series}
use thanos_datafusion_experi.TsdbIndex.Walk.{
  parse_toc, read_symbols, parse_symbols, read_header, parse_each,
}
use thanos_datafusion_experi.TsdbIndex.Varint.{uvarint, zigzag}
use thanos_datafusion_experi.TsdbIndex.Varint.RoundTrip.{read_uvarint-uvarint, read_varint-zigzag}
use thanos_datafusion_experi.TsdbIndex.Entry.Whole.{Denotes, put_series, parse_series-put_series}
use thanos_datafusion_experi.TsdbIndex.Entry.Order.{Ordered, parse_series-Ordered}
use thanos_datafusion_experi.TsdbIndex.Walk.Loop.{NoStall, parse_each-ne-stuck, parse_each_stalls}
use thanos_datafusion_experi.TsdbIndex.Walk.Ends.{read_header-Returns}
use thanos_datafusion_experi.TsdbIndex.Entry.RoundTrip.{Writable}

-- A checksum that is always 0, and any bytes as UTF-8.
abbrev pub plain : Crates
plain = record { crc32c = λ _. 0; valid_utf8 = λ _. true }

abbrev pub zeros_15 : Bytes
zeros_15 = 0 ∷ 0 ∷ 0 ∷ 0 ∷ 0 ∷ 0 ∷ 0 ∷ 0 ∷ 0 ∷ 0 ∷ 0 ∷ 0 ∷ 0 ∷ 0 ∷ 0 ∷ []

abbrev count : Series → ℕ → ℕ
count entry n = n + 1

-- No symbols at 5, and padding up to 32.
abbrev pub front : Bytes
front = 0xba ∷ 0xaa ∷ 0xd7 ∷ 0 ∷ 1 ∷ 0 ∷ 0 ∷ 0 ∷ 4 ∷ 0 ∷ 0 ∷ 0 ∷ 0 ∷ 0 ∷ 0 ∷ 0 ∷ 0 ∷ zeros_15

-- The table of contents of an index whose series section ends at `end`.
abbrev pub contents : ℕ → Bytes
contents end =
    0
    ∷ 0
    ∷ 0
    ∷ 0
    ∷ 0
    ∷ 0
    ∷ 0
    ∷ 5
    ∷ 0
    ∷ 0
    ∷ 0
    ∷ 0
    ∷ 0
    ∷ 0
    ∷ 0
    ∷ 32
    ∷ 0
    ∷ 0
    ∷ 0
    ∷ 0
    ∷ 0
    ∷ 0
    ∷ 0
    ∷ end
    ∷ (zeros_15 ++ take 13 zeros_15)

-- A section of one byte 0.
abbrev stalling : Bytes
stalling = front ++ (0 ∷ contents 33)

-- A section with one series, which has no labels and no chunks.
abbrev one_series : Bytes
one_series = front ++ (2 ∷ 0 ∷ 0 ∷ 0 ∷ 0 ∷ 0 ∷ 0 ∷ contents 39)

stalling_header : read_header plain stalling ≡ ok ([], 32, 33)
unfolding read_header read_u32 read_u64 from_be_bytes checked_add checked_sub verify_crc parse_toc
    parse_symbols read_symbols
stalling_header = refl

one_series_header : read_header plain one_series ≡ ok ([], 32, 39)
unfolding read_header read_u32 read_u64 from_be_bytes checked_add checked_sub verify_crc parse_toc
    parse_symbols read_symbols
one_series_header = refl

one_series_padding :
    (symbols : List Text) (start end : ℕ)
    → read_header plain one_series ≡ ok (symbols, start, end)
    → NoStall one_series start end
one_series_padding symbols start end e p from inside aligned zero_there =
    let known : ◌≡◌ {A = Reader.Res (List Text × ℕ × ℕ)} (ok ([], 32, 39))
        (ok (symbols, start, end)) =
      sym one_series_header ∙ e in
    let here : p ≡ 32 =
      omega (arith, (let q : 32 ≡ start = cc in q), (let q : 39 ≡ end = cc in q)) in
    let byte : get_elem? one_series 32 ≡ some 0 = rw here at zero_there in cc

ne-stuck_example : (parse_each plain (length one_series + 1) one_series count 0).1 ≢ stuck
ne-stuck_example = parse_each-ne-stuck plain one_series count 0 (omega arith) one_series_padding

parse_each_stalls_example : parse_each plain 100 stalling count 0 ≡ (0, stuck)
parse_each_stalls_example =
    parse_each_stalls plain 100 stalling count 0 [] 32 33 stalling_header (omega arith)
      (omega arith) refl refl

read_uvarint_example :
    read_uvarint (7 ∷ (uvarint 300 ++ (9 ∷ []))) 1 ≡ ok (300, length (uvarint 300))
read_uvarint_example =
    read_uvarint-uvarint (7 ∷ (uvarint 300 ++ (9 ∷ []))) 1 300 (9 ∷ []) (omega arith) refl

read_varint_example :
    read_varint (uvarint (zigzag (negsuc 999)) ++ []) 0
    ≡ ok (negsuc 999, length (uvarint (zigzag (negsuc 999))))
read_varint_example =
    read_varint-zigzag (uvarint (zigzag (negsuc 999)) ++ []) 0 (negsuc 999) []
      (omega arith, omega arith) refl

abbrev two_symbols : List Text
two_symbols = codes "a" ∷ codes "b" ∷ []

abbrev two_chunks : List Chunk
two_chunks =
    record { mint = negsuc 4; maxt = pos 20; reference = 8 }
    ∷ record { mint = pos 20; maxt = pos 31; reference = 300 }
    ∷ []

abbrev one_label : Labels
one_label = (codes "a", codes "b") ∷ []

labels_there : Denotes two_symbols ((0, 1) ∷ []) one_label
labels_there = (omega arith, omega arith, refl, refl, tt)

chunks_fit : Writable none none two_chunks
chunks_fit = (
  ((omega arith, omega arith), (omega arith, omega arith), omega arith, omega arith),
  omega arith,
  tt,
  tt,
  (
    ((omega arith, omega arith), (omega arith, omega arith), omega arith, omega arith),
    omega arith,
    (omega arith, omega arith),
    (omega arith, omega arith),
    tt,
  ),
)

series_read :
    parse_series (put_series ((0, 1) ∷ []) two_chunks) 4 two_symbols
    ≡ ok (record { reference = 4; labels = one_label; chunks = two_chunks })
series_read =
    parse_series-put_series 4 two_symbols ((0, 1) ∷ []) one_label two_chunks labels_there (tt, tt)
      chunks_fit (omega arith) (omega arith)

parse_series_example :
    parse_series (put_series ((0, 1) ∷ []) two_chunks) 4 two_symbols
    ≡ ok (record { reference = 4; labels = one_label; chunks = two_chunks })
parse_series_example =
    parse_series-put_series 4 two_symbols ((0, 1) ∷ []) one_label two_chunks labels_there (tt, tt)
      chunks_fit (omega arith) (omega arith)

Ordered-example : Ordered none none two_chunks × Sorted one_label × (◌≡◌ {A = ℕ} 4 4)
Ordered-example =
    parse_series-Ordered (put_series ((0, 1) ∷ []) two_chunks) 4 two_symbols
      (record { reference = 4; labels = one_label; chunks = two_chunks }) series_read

header_example : Returns (read_header plain stalling)
header_example = read_header-Returns plain stalling (omega arith)
