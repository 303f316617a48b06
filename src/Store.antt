-- ===== src/Store.antt =====
-- internal/store: the tables of record and the statements that the pipeline runs on them.
pub mod Rows
pub mod Documents
pub mod Shards
pub mod Sweeps
pub mod Counters
pub mod Events
pub mod Retry
pub mod Settling
pub mod Inserts
mod Samples
