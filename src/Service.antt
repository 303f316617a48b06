-- ===== src/Service.antt =====
-- internal/service: the worker handlers.
pub mod World
pub mod Places
pub mod Ladder
pub mod Split
pub mod Parse
pub mod Embed
mod Samples
