-- ===== src/Chunker/Splitter/Samples.antt =====
-- A text of three paragraphs and a table row, split with a budget of six runes.
use Prim.Native.String.{String}
use lybrix.Base.{ℕ, ◌≤◌, ◌≡◌, refl, false, none, [], ◌∷◌, map, arith, max, All, concat, length}
use lybrix.Chunker.Runes.{Text, is_space}
use lybrix.Chunker.Units.{Patterns, Chunk}
use lybrix.Chunker.Merge.{absolute_max_size}
use lybrix.Chunker.Merge.Closing.{IsSound, Numbered}
use lybrix.Chunker.Merge.Covers.{Holds}
use lybrix.Chunker.Separators.{split_by_separators}
use lybrix.Chunker.Separators.Pieces.{split_by_separators-Parts}
use lybrix.Chunker.Splitter.{
  SplitterConfig, default_config, default_separators, ensure_defaults, split_text,
}
use lybrix.Chunker.Splitter.Slices.{split_text-IsSound, split_text-Holds}

-- "ab. c\n\nd", "\n\n" and "|x|\n".
abbrev text : Text
text = 97 ∷ 98 ∷ 46 ∷ 32 ∷ 99 ∷ 10 ∷ 10 ∷ 100 ∷ 10 ∷ 10 ∷ 124 ∷ 120 ∷ 124 ∷ 10 ∷ []

-- The row is protected.
abbrev patterns : Patterns
patterns = record {
  protected = λ t. (10, 14) ∷ [];
  header_start = λ t. none;
  header_end = λ t. false;
  table_row = λ t. false;
}

abbrev small : SplitterConfig
small = record default_config { chunk_size = 6; chunk_overlap = 3 }

abbrev no_budget : ℕ → String → ℕ
no_budget tokens lang = 0

abbrev ends_of : Chunk → ℕ × ℕ
ends_of c = (c.start, c.end)

-- The second chunk starts with what follows the sentence's end in the first.
ranges : map ends_of (split_text no_budget patterns text small) ≡ (0, 5) ∷ (4, 10) ∷ (10, 14) ∷ []
unfolding split_text
ranges = refl

split_text-IsSound_example :
    All
      (IsSound text (max absolute_max_size (ensure_defaults no_budget small).chunk_size))
      (split_text no_budget patterns text small)
    × Numbered 0 (split_text no_budget patterns text small)
split_text-IsSound_example = split_text-IsSound no_budget patterns text small (omega arith, tt)

d_is_ink : is_space 100 ≡ false
unfolding is_space
d_is_ink = refl

split_text-Holds_example : Holds 7 (split_text no_budget patterns text small)
split_text-Holds_example =
    split_text-Holds no_budget patterns text small 7 (omega arith, tt) (omega arith)
      (100, refl, d_is_ink)

split_by_separators-Parts_example :
    (concat (split_by_separators 3 default_separators text) ≡ text)
    × All (λ (p : Text). 1 ≤ length p) (split_by_separators 3 default_separators text)
split_by_separators-Parts_example =
    split_by_separators-Parts 3 default_separators text (omega arith)
