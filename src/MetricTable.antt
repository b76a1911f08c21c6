-- ===== src/MetricTable.antt =====
-- metric_table.rs: the table of one metric, whose filters are pushed down to the chunks.
pub mod Batches
pub mod Filter
pub mod Parse
pub mod Provider
pub mod Scan
