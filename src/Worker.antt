-- ===== src/Worker.antt =====
-- internal/worker: the janitor.
pub mod Reclaim
pub mod Janitor
mod Samples
