-- ===== src/Embed.antt =====
-- What the embedder does with a document's chunks: the deduplication of internal/chunker/hash.go, the
-- batches of internal/pipeline/embedder.go and the rows of internal/service/embedder.go.
pub mod Chunks
pub mod Batches
mod Samples
