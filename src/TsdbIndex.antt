-- ===== src/TsdbIndex.antt =====
-- thanos-v1-reader/src/tsdb_index.rs: the reader of Prometheus TSDB index files.
pub mod Reader
pub mod Entry
pub mod Walk
pub mod Varint
pub mod Align
