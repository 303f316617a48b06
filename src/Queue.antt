-- ===== src/Queue.antt =====
-- internal/queue: the job payloads and the streams that carry them.
pub mod Jobs
pub mod Sends
pub mod Scan
pub mod Depth
mod Samples
