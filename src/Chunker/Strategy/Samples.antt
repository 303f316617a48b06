-- ===== src/Chunker/Strategy/Samples.antt =====
-- A text with two headings, in parents of twelve runes and children of six, and a text with form
-- feeds.
use Prim.Native.String.{String}
use lybrix.Base.{
  some, arith, ◌≤◌, if◌then◌else◌, drop, Option, ℕ, ◌≡◌, refl, false, none, [], ◌∷◌, map, All,
}
use lybrix.Chunker.Runes.{Text, has_prefix}
use lybrix.Chunker.Units.{Patterns, Chunk}
use lybrix.Chunker.Splitter.{SplitterConfig, default_config, ensure_defaults, split_text}
use lybrix.Chunker.Merge.{absolute_max_size}
use lybrix.Chunker.Splitter.Parted.{used_size}
use lybrix.Chunker.Profile.{LinePatterns, profile_document}
use lybrix.Chunker.Headings.{split_by_headings}
use lybrix.Chunker.Heuristics.{split_by_heuristics}
use lybrix.Chunker.Strategy.{
  ChildChunk, validate_chunks, run_tier, tier_loop, split_with_diagnostics, split,
  split_parent_child,
}
use lybrix.Chunker.Strategy.Levels.{AreVerbatim, split_parent_child-AreVerbatim}
use lybrix.Chunker.Runes.{is_space}
use lybrix.Chunker.Strategy.Filled.{Filled, split-Filled}
use lybrix.Chunker.Strategy.Numbered.{EachOnce}
use lybrix.Chunker.Strategy.Linked.{IsLinked, split_parent_child_links}

-- "# a", "x", "# b" and "yy. z".
abbrev text : Text
text = 35 ∷ 32 ∷ 97 ∷ 10 ∷ 120 ∷ 10 ∷ 35 ∷ 32 ∷ 98 ∷ 10 ∷ 121 ∷ 121 ∷ 46 ∷ 32 ∷ 122 ∷ 10 ∷ []

abbrev patterns : Patterns
patterns = record {
  protected = λ t. [];
  header_start = λ t. none;
  header_end = λ t. false;
  table_row = λ t. false;
}

-- A line is a heading of the first level if it starts with a number sign and a space.
unfoldable heading_of : Text → Option (ℕ × Text)
unfolding has_prefix
heading_of line = if has_prefix (35 ∷ 32 ∷ []) line then some (1, drop 2 line) else none

abbrev lines : LinePatterns
lines = record {
  heading = heading_of;
  numbered = λ t. false;
  german = λ t. false;
  english = λ t. false;
  chinese = λ t. false;
  all_caps = λ t. false;
  visual_separator = λ t. false;
  page_footer = λ t. false;
  blank_run_ends = λ t. [];
}

abbrev parent_size : SplitterConfig
parent_size = record default_config { chunk_size = 12; chunk_overlap = 3; strategy = "heading" }

abbrev child_size : SplitterConfig
child_size = record default_config { chunk_size = 6; chunk_overlap = 3; strategy = "recursive" }

abbrev no_budget : ℕ → String → ℕ
no_budget tokens lang = 0

abbrev ends_of : Chunk → ℕ × ℕ
ends_of c = (c.start, c.end)

abbrev child_ends : ChildChunk → ℕ × ℕ
child_ends c = ends_of c.chunk

by_headings :
    map ends_of
      (split_by_headings no_budget patterns lines text parent_size (profile_document lines text))
    ≡ (0, 6) ∷ (6, 16) ∷ []
unfolding split_by_headings profile_document heading_of split_text
by_headings = refl

children :
    map child_ends
      (split_parent_child no_budget patterns lines
        (λ t. "")
        text
        []
        parent_size
        child_size).children
    ≡ (0, 6) ∷ (6, 10) ∷ (10, 16) ∷ []
unfolding split_parent_child split split_with_diagnostics tier_loop validate_chunks run_tier
    split_text split_by_headings heading_of profile_document
children = refl

sizes :
    (used_size no_budget parent_size ≤ absolute_max_size)
    × (used_size no_budget child_size ≤ absolute_max_size)
unfolding ensure_defaults
sizes = (omega arith, omega arith)

split_parent_child-AreVerbatim_example :
    AreVerbatim text
      (split_parent_child no_budget patterns lines (λ t. "") text [] parent_size child_size)
split_parent_child-AreVerbatim_example =
    split_parent_child-AreVerbatim no_budget patterns lines (λ t. tt) (λ t. tt) (λ t. "") text []
      parent_size child_size sizes.0 sizes.1

split_parent_child_links_example :
    EachOnce (split_parent_child no_budget patterns lines (λ t. "") text [] parent_size child_size)
    × All
        (IsLinked
          (λ t. "")
          (split_parent_child no_budget patterns lines
            (λ t. "")
            text
            []
            parent_size
            child_size).parents)
        (split_parent_child no_budget patterns lines
          (λ t. "")
          text
          []
          parent_size
          child_size).children
split_parent_child_links_example =
    split_parent_child_links no_budget patterns lines (λ t. "") text [] parent_size child_size

-- "ab", a form feed, "cd", a form feed and "ef".
abbrev pages : Text
pages = 97 ∷ 98 ∷ 12 ∷ 99 ∷ 100 ∷ 12 ∷ 101 ∷ 102 ∷ []

abbrev four : SplitterConfig
four = record default_config { chunk_size = 4; chunk_overlap = 1; strategy = "heuristic" }

marked : map ends_of (split_by_heuristics no_budget patterns lines pages four) ≡ (0, 8) ∷ []
unfolding split_by_heuristics
marked = refl

z_is_ink : is_space 122 ≡ false
unfolding is_space
z_is_ink = refl

split-Filled_example : Filled (split no_budget patterns lines text parent_size)
split-Filled_example =
    split-Filled no_budget patterns lines text parent_size 14 tt (omega arith) (122, refl, z_is_ink)
