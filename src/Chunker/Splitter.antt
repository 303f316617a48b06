-- ===== src/Chunker/Splitter.antt =====
-- SplitText of internal/chunker/splitter.go, with its configuration. The budget that stands for a
-- limit of tokens is computed in floating point: a parameter. A size below 0 is 0 here.
pub mod Slices
pub mod Parted
mod Samples
use Prim.Native.String.{String}
use text.Mathlib.Text.{◌==◌ as str_eq}
use lybrix.Base.{ℕ, ◌/◌, Bool, true, false, ◌&&◌, List, [], ◌∷◌, ltb, ◌==◌, if◌then◌else◌, length}
use lybrix.Chunker.Runes.{Text}
use lybrix.Chunker.Units.{Patterns, Chunk}
use lybrix.Chunker.Spans.{protected_spans}
use lybrix.Chunker.Separators.{no_separators}
use lybrix.Chunker.Sources.{build_units_with_protection}
use lybrix.Chunker.Merge.{merge_units}

-- SplitterConfig.
pub record SplitterConfig : Type 0 where
  pub chunk_size : ℕ
  pub chunk_overlap : ℕ
  pub separators : List Text
  pub strategy : String
  pub token_limit : ℕ
  pub languages : List String

abbrev pub default_chunk_size : ℕ
default_chunk_size = 512

abbrev pub default_chunk_overlap : ℕ
default_chunk_overlap = 80

-- Paragraph, line, and the end of a CJK sentence.
abbrev pub default_separators : List Text
default_separators = (10 ∷ 10 ∷ []) ∷ (10 ∷ []) ∷ (0x3002 ∷ []) ∷ []

abbrev pub default_config : SplitterConfig
default_config = record {
  chunk_size = default_chunk_size;
  chunk_overlap = default_chunk_overlap;
  separators = default_separators;
  strategy = "";
  token_limit = 0;
  languages = [];
}

-- NormalizeConfig.
unfoldable pub normalize_config : SplitterConfig → SplitterConfig
normalize_config cfg = record cfg {
  chunk_size = if cfg.chunk_size == 0 then default_chunk_size else cfg.chunk_size;
  chunk_overlap = if cfg.chunk_overlap == 0 then default_chunk_overlap else cfg.chunk_overlap;
  separators = if no_separators cfg.separators then default_separators else cfg.separators;
}

abbrev first_language : List String → String
first_language [] = "mixed"
first_language (lang ∷ languages) = lang

abbrev pub default_parent_size : ℕ
default_parent_size = 2048

abbrev pub default_child_size : ℕ
default_child_size = 384

-- DeriveParentChildConfigs.
unfoldable pub derive_parent_child_configs :
    SplitterConfig → ℕ → ℕ → SplitterConfig × SplitterConfig
derive_parent_child_configs base parent_size child_size =
    let parent = if parent_size == 0 then default_parent_size else parent_size in
    let child = if child_size == 0 then default_child_size else child_size in
    (
      record base { chunk_size = parent; token_limit = 0 },
      record base { chunk_size = child; chunk_overlap = child / 5 },
    )

-- An overlap of more than half a chunk is cut to that.
unfoldable pub capped_overlap : SplitterConfig → SplitterConfig
capped_overlap cfg =
    if ltb 0 cfg.chunk_size && ltb (cfg.chunk_size / 2) cfg.chunk_overlap
    then record cfg { chunk_overlap = cfg.chunk_size / 2 }
    else cfg

module _ (chars_for_token_limit : ℕ → String → ℕ) where
  unfoldable pub with_token_budget : SplitterConfig → SplitterConfig
  with_token_budget cfg =
      let budget = chars_for_token_limit cfg.token_limit (first_language cfg.languages) in
      if ltb 0 cfg.token_limit && (ltb 0 budget && ltb budget cfg.chunk_size)
      then record cfg { chunk_size = budget }
      else cfg

  -- ensureDefaults.
  unfoldable pub ensure_defaults : SplitterConfig → SplitterConfig
  unfolding normalize_config with_token_budget capped_overlap
  ensure_defaults cfg = capped_overlap (with_token_budget (normalize_config cfg))

  -- SplitText.
  unfoldable pub split_text : Patterns → Text → SplitterConfig → List Chunk
  unfolding ensure_defaults protected_spans build_units_with_protection merge_units
  split_text ps text cfg =
      let cfg' = ensure_defaults cfg in
      let protected = protected_spans ps text in
      let units = build_units_with_protection text protected cfg'.separators cfg'.chunk_size in
      if length text == 0 then [] else merge_units ps units cfg'.chunk_size cfg'.chunk_overlap
