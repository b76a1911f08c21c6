-- ===== src/Storage.antt =====
-- storage/mod.rs: the reader interface, the page cache, and the registry of repositories.
pub mod Reader
pub mod Cache
pub mod Pages
pub mod PagePath
pub mod Registry
pub mod Tasks
