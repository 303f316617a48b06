-- ===== src/Store/Counters.antt =====
-- The counters `shards_done` and `shards_failed` against a recount of the shard rows.
pub mod Lists
pub mod Claims
pub mod Sweeps
