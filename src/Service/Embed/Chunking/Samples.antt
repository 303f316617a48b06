-- ===== src/Service/Embed/Chunking/Samples.antt =====
-- A document of two shards, each with a heading of its own.
use Prim.Native.String.{String}
use lybrix.Base.{ℕ, ◌≤◌, false, Option, none, some, List, [], ◌∷◌, arith, drop, if◌then◌else◌}
use lybrix.Store.Rows.{Shard, done}
use lybrix.Store.Shards.{fresh_shard}
use lybrix.Stitch.{sort_docs, stitch}
use lybrix.Chunker.Runes.{Text, has_prefix}
use lybrix.Chunker.Units.{Patterns}
use lybrix.Chunker.Merge.{absolute_max_size}
use lybrix.Chunker.Splitter.{ensure_defaults, derive_parent_child_configs}
use lybrix.Chunker.Splitter.Parted.{used_size}
use lybrix.Chunker.Profile.{LinePatterns}
use lybrix.Chunker.Strategy.Levels.{AreVerbatim}
use lybrix.Service.Embed.Chunking.{ChunkSettings, base_config, shard_ranges, chunk_document}
use lybrix.Service.Embed.Chunking.Attributed.{AllPagesRise, chunk_document-AreVerbatim}

abbrev patterns : Patterns
patterns = record {
  protected = λ t. [];
  header_start = λ t. none;
  header_end = λ t. false;
  table_row = λ t. false;
}

-- A line is a heading of the first level if it starts with a number sign and a space.
unfoldable heading_of : Text → Option (ℕ × Text)
unfolding has_prefix
heading_of line = if has_prefix (35 ∷ 32 ∷ []) line then some (1, drop 2 line) else none

abbrev lines : LinePatterns
lines = record {
  heading = heading_of;
  numbered = λ t. false;
  german = λ t. false;
  english = λ t. false;
  chinese = λ t. false;
  all_caps = λ t. false;
  visual_separator = λ t. false;
  page_footer = λ t. false;
  blank_run_ends = λ t. [];
}

abbrev settings : ChunkSettings
settings = record {
  chunk_size = 12;
  chunk_overlap = 3;
  chunk_strategy = "heading";
  parent_chunk_size = 12;
  child_chunk_size = 6;
}

abbrev no_budget : ℕ → String → ℕ
no_budget tokens lang = 0

abbrev no_payload : Text → Option Text
no_payload t = none

-- "# a" and "x", "# b" and "yy. z".
abbrev fetched : List (ℕ × Text)
fetched =
    (1, 35 ∷ 32 ∷ 98 ∷ 10 ∷ 121 ∷ 121 ∷ 46 ∷ 32 ∷ 122 ∷ 10 ∷ [])
    ∷ (0, 35 ∷ 32 ∷ 97 ∷ 10 ∷ 120 ∷ 10 ∷ [])
    ∷ []

abbrev rows : List Shard
rows =
    record (fresh_shard 7 0 1 2) { state = done }
    ∷ record (fresh_shard 7 1 2 4) { state = done }
    ∷ []

sizes :
    (used_size no_budget (derive_parent_child_configs (base_config settings) 12 6).0
      ≤ absolute_max_size)
    × (used_size no_budget (derive_parent_child_configs (base_config settings) 12 6).1
        ≤ absolute_max_size)
unfolding ensure_defaults derive_parent_child_configs
sizes = (omega arith, omega arith)

chunk_document-AreVerbatim_example :
    AreVerbatim
      (stitch no_payload fetched (shard_ranges rows)).markdown
      (chunk_document no_budget patterns lines no_payload (λ t. "") settings rows fetched)
    × AllPagesRise
        (chunk_document no_budget patterns lines no_payload (λ t. "") settings rows fetched)
chunk_document-AreVerbatim_example =
    chunk_document-AreVerbatim no_budget patterns lines no_payload (λ t. "") settings rows fetched
      (λ t. tt) (λ t. tt) sizes.0 sizes.1
      (unfold sort_docs in (omega arith, omega arith, (omega arith, omega arith, tt)))
