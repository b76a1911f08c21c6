-- ===== src/Lib.antt =====
-- A model of thanos-v1-reader, a reader of Thanos and Prometheus blocks that answers SQL and the
-- Thanos Store API. thanos-v1-reader/src/tsdb_index.rs parses the TSDB index of a block;
-- chunk_reader.rs reads the chunk records that the index points to; metric_table.rs presents one
-- metric as a table whose filters are pushed down to chunk descriptors and samples;
-- storage/mod.rs gives byte ranges of the objects through a page cache; store_service.rs answers
-- the Store API from the series index and the chunks; config.rs validates the configuration;
-- block_index.rs builds the index files and the list of metric tables from the blocks of the
-- repositories.
--
-- TsdbIndex models tsdb_index.rs: Reader holds the primitive readers, Entry is `parse_series`,
-- Walk is `parse_each` and `parse`. ChunkReader models chunk_reader.rs. MetricTable models
-- `MetricFilter` (Filter), `parse_filter` (Parse), the rows of `build_metric_batch` (Scan), the
-- columns it reads and gives out (Batches), and push-down, plan and execution (Provider). Arrow
-- holds what both writers and readers of record batches share. Storage models storage/mod.rs:
-- Reader is `RangeReader`, Pages the page loop of `RangeCache::read_range`, Cache the
-- `CacheState` (Queues, Moves, Bound and Uses follow its queues through any sequence of calls),
-- PagePath the names of page files, Tasks the concurrent calls of `get_page`, step by step
-- (Runs, Flights and Answers for any interleaving, Polls and Alone for one call), Registry the
-- repositories. StoreService models the calls of store_service.rs: Match the matchers, limits
-- and label calls, Chunks `encode_chunk`, Series the `series` call, Info `info_response`. Config
-- models the validation of config.rs. BlockIndex models block_index.rs: Meta holds its data,
-- Paths its file names, Rows and Labels what it makes of a series, Stream and Expanded the two
-- streaming writers, Disk the local disk that they act on, Files the manifests and the clean-up,
-- Discover the metadata phase, Arrays the schemas and record batches, and Build the builds and
-- what they end with (Reuse, Tables and Sorted). Common holds what they share, with list and
-- range lemmas, bits, integers, texts and maps: `Outcome` is Rust's `Result` with panics and
-- with loops that have used up their fuel, texts are UTF-8 bytes, maps are association lists in
-- key order. Tests applies the theorems to concrete inputs.
--
-- Numbers are natural numbers with the wrap-around of `u64` and `usize`, both of 64 bits,
-- written out, as in a build of the release profile: with overflow checks an unchecked addition
-- that wraps panics instead, which is not modelled; `i64` is an integer with its range checks.
-- An `f64` is its bit pattern. The loop of `parse_each` runs on fuel, and one unit for each byte
-- is enough, since the offset grows in every round but the one that stalls.
--
-- The protected limit of the cache, which the source computes with floating point, is a
-- parameter, as is the answer of DataFusion to a query. White space is that of ASCII. A HashMap
-- is an association list.
--
-- The checksum, the UTF-8 check, the XOR decoder, the regex compiler, the JSON reader and the
-- object store are code of other crates: they are parameters. So are the Parquet writer,
-- `sort_by` of std, the answers of the local file system and the clock. The disk of a build maps
-- a path to the batches or bytes under it; that of the page cache maps a name to a file and a
-- file to its bytes, since a flight writes on to the file that it has opened when another one
-- has renamed it. Opening a file, writing a page to it and reading a page are one step each, and
-- what waits for the lock of the cache's state, under which no code awaits, is not modelled. The
-- two concurrent phases of a build return their results in any order. A record batch is a schema
-- with columns; what is assumed of the arrow crate is that `RecordBatch::try_new` accepts
-- columns that fit the schema where there is one at least, that it refuses a batch without
-- columns, and the fields that the builders of maps and lists set. DataFusion's own plans, the
-- network services and memory exhaustion are not modelled.
pub mod Arrow
pub mod BlockIndex
pub mod ChunkReader
pub mod Common
pub mod Config
pub mod MetricTable
pub mod Storage
pub mod StoreService
pub mod Tests
pub mod TsdbIndex
