-- ===== src/Chunker/Units.antt =====
-- The pieces of internal/chunker: Chunk of chunker.go, span and splitUnit of protected.go, buildChunk
-- and the texts of units of splitter.go. Offsets count runes. The regular expressions are a parameter.
pub mod Built
pub mod Ranges
pub mod Ends
use lybrix.Base.{
  ℕ, ◌+◌, Bool, true, false, not, ◌||◌, Option, none, some, List, [], ◌∷◌, ◌++◌, ◌==◌,
  if◌then◌else◌, length,
}
use lybrix.Chunker.Runes.{Text, has_text}

-- What the regular expressions find: the matches of the protected patterns, one pattern after the
-- other; the table header that starts a unit, or none; and whether a unit ends a header, or is or has
-- a table row.
pub record Patterns : Type 0 where
  pub protected : Text → List (ℕ × ℕ)
  pub header_start : Text → Option Text
  pub header_end : Text → Bool
  pub table_row : Text → Bool

pub record SplitUnit : Type 0 where
  pub text : Text
  pub start : ℕ
  pub end : ℕ

pub record Chunk : Type 0 where
  pub content : Text
  pub context_header : Text
  pub seq : ℕ
  pub start : ℕ
  pub end : ℕ
  pub page_start : Option ℕ
  pub page_end : Option ℕ
  pub synthetic_prefix_runes : ℕ

-- isSynthetic.
unfoldable pub is_synthetic : SplitUnit → Bool
is_synthetic u = (u.start == u.end) || not (u.end == u.start + length u.text)

-- The variables of buildChunk: no span before the first unit of the source.
pub record Building : Type 0 where
  pub content : Text
  pub synthetic : ℕ
  pub range : Option (ℕ × ℕ)

abbrev pub from_start : Option (ℕ × ℕ) → ℕ → ℕ
from_start none start = start
from_start (some (first, end)) start = first

unfoldable pub build_step : Building → SplitUnit → Building
unfolding is_synthetic
build_step b u =
    if is_synthetic u
    then record b { content = b.content ++ u.text; synthetic = b.synthetic + length u.text }
    else record b {
      content = b.content ++ u.text;
      range = some (from_start b.range u.start, u.end);
    }

unfoldable pub build_from : Building → List SplitUnit → Building
unfolding build_step
build_from b [] = b
build_from b (u ∷ units) = build_from (build_step b u) units

abbrev pub range_start : Option (ℕ × ℕ) → ℕ
range_start none = 0
range_start (some (start, end)) = start

abbrev pub range_end : Option (ℕ × ℕ) → ℕ
range_end none = 0
range_end (some (start, end)) = end

abbrev pub nothing_built : Building
nothing_built = record { content = []; synthetic = 0; range = none }

-- buildChunk.
unfoldable pub build_chunk : List SplitUnit → ℕ → Chunk
unfolding build_from
build_chunk units seq =
    let b = build_from nothing_built units in
    record {
      content = b.content;
      context_header = [];
      seq = seq;
      start = range_start b.range;
      end = range_end b.range;
      page_start = none;
      page_end = none;
      synthetic_prefix_runes = b.synthetic;
    }

-- unitsText.
unfoldable pub units_text : List SplitUnit → Text
units_text [] = []
units_text (u ∷ units) = u.text ++ units_text units

-- hasContent.
unfoldable pub has_content : List SplitUnit → Bool
has_content [] = false
has_content (u ∷ units) = let rest = has_content units in if has_text u.text then true else rest
