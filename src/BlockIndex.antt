-- ===== src/BlockIndex.antt =====
-- block_index.rs: the index files that the reader builds from the blocks of its repositories.
pub mod Arrays
pub mod Meta
pub mod Paths
pub mod Rows
pub mod Labels
pub mod Disk
pub mod Stream
pub mod Expanded
pub mod Files
pub mod Discover
pub mod Build
