-- ===== src/Chunker.antt =====
-- internal/chunker: the map from a chunk's place in the markdown to its pages.
pub mod Runes
pub mod Units
pub mod Spans
pub mod Overlap
pub mod Headers
pub mod Cuts
pub mod Merge
pub mod Separators
pub mod Sources
pub mod Splitter
pub mod Profile
pub mod Hierarchy
pub mod Heuristics
pub mod Headings
pub mod Strategy
pub mod PageMap
mod Samples
