-- ===== src/Service/Embed/Chunking.antt =====
-- internal/service/embedder.go, the chunking of HandleEmbed: from the done shards and the markdown that
-- was fetched for them to the chunks. The fetch itself is a parameter.
pub mod Attributed
mod Samples
use Prim.Native.String.{String}
use lybrix.Base.{ℕ, Option, List, [], map}
use lybrix.Store.Rows.{Shard}
use lybrix.Stitch.{StitchedDoc, stitch}
use lybrix.Chunker.Runes.{Text}
use lybrix.Chunker.Units.{Patterns}
use lybrix.Chunker.Profile.{LinePatterns}
use lybrix.Chunker.Splitter.{SplitterConfig, default_separators, derive_parent_child_configs}
use lybrix.Chunker.Strategy.{ParentChildResult, split_parent_child}

-- The settings of chunks.
pub record ChunkSettings : Type 0 where
  pub chunk_size : ℕ
  pub chunk_overlap : ℕ
  pub chunk_strategy : String
  pub parent_chunk_size : ℕ
  pub child_chunk_size : ℕ

abbrev pub base_config : ChunkSettings → SplitterConfig
base_config s = record {
  chunk_size = s.chunk_size;
  chunk_overlap = s.chunk_overlap;
  separators = default_separators;
  strategy = s.chunk_strategy;
  token_limit = 0;
  languages = [];
}

abbrev pub shard_ranges : List Shard → List (ℕ × (ℕ × ℕ))
shard_ranges = map (λ (s : Shard). (s.idx, (s.page_start, s.page_end)))

-- The stitching and the two levels of chunks.
unfoldable pub chunk_document :
    (ℕ → String → ℕ)
    → Patterns
    → LinePatterns
    → (Text → Option Text)
    → (Text → String)
    → ChunkSettings
    → List Shard
    → List (ℕ × Text)
    → ParentChildResult
unfolding stitch derive_parent_child_configs split_parent_child
chunk_document chars_for_token_limit ps lp payload hash s rows fetched =
    let stitched = stitch payload fetched (shard_ranges rows) in
    let (parent_cfg, child_cfg) =
      derive_parent_child_configs (base_config s) s.parent_chunk_size s.child_chunk_size in
    split_parent_child chars_for_token_limit ps lp hash stitched.markdown stitched.pages parent_cfg
      child_cfg
