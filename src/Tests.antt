-- ===== src/Tests.antt =====
-- The theorems applied to concrete inputs.
pub mod IndexRuns
pub mod ChunkRuns
pub mod MetricRuns
mod StoreRuns
mod StorageRuns
mod TaskRuns
mod ConfigRuns
mod ArrowRuns
mod SortRuns
pub mod BlockRuns
pub mod BuildRuns
