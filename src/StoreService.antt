-- ===== src/StoreService.antt =====
-- store_service.rs: the Thanos Store API over the series index and the chunk reader.
pub mod Match
pub mod Chunks
pub mod Series
pub mod Info
