-- ===== src/Chunker/Splitter/Slices.antt =====
-- SplitText of internal/chunker/splitter.go keeps the promise of chunker.go: a chunk is a slice.
use Prim.Native.String.{String}
use lybrix.Base.{ℕ, ◌<◌, ◌≡◌, inl, inr, false, ◌==◌, length, max, arith, Bool-cases, All}
use lybrix.Chunker.Runes.{Text}
use lybrix.Chunker.Units.{Patterns}
use lybrix.Chunker.Spans.{protected_spans}
use lybrix.Chunker.Spans.Disjoint.{InText, protected_spans-Ordered}
use lybrix.Chunker.Sources.{build_units_with_protection}
use lybrix.Chunker.Sources.Tiled.{build_units-Run}
use lybrix.Chunker.Merge.{absolute_max_size}
use lybrix.Chunker.Merge.Closing.{IsSound, Numbered}
use lybrix.Chunker.Merge.Verbatim.{merge_units-IsSound}
use lybrix.Chunker.Merge.Covers.{Holds, merge_units-Holds}
use lybrix.Chunker.Runes.Ink.{IsInk}
use lybrix.Chunker.Splitter.{SplitterConfig, ensure_defaults, split_text}

module _ (chars_for_token_limit : ℕ → String → ℕ) where
  -- If the matches of the protected patterns lie in the text, then whatever the configuration and the
  -- patterns, each chunk of SplitText is, behind its synthetic prefix, the slice of the text from its
  -- start to its end, it has at most as many runes as the greater of the chunk size and 7500, and the
  -- chunks are numbered from 0.
  pub split_text-IsSound :
      (ps : Patterns) (text : Text) (cfg : SplitterConfig)
      → All (InText text) (ps.protected text)
      → All
          (IsSound text
            (max absolute_max_size (ensure_defaults chars_for_token_limit cfg).chunk_size))
          (split_text chars_for_token_limit ps text cfg)
        × Numbered 0 (split_text chars_for_token_limit ps text cfg)
  unfolding split_text
  split_text-IsSound ps text cfg h =
      let cfg' = ensure_defaults chars_for_token_limit cfg in
      let spans = protected_spans ps text in
      let units = build_units_with_protection text spans cfg'.separators cfg'.chunk_size in
      elim (Bool-cases (length text == 0)) [
        | inl empty ↦ rw empty (tt, tt)
        | inr filled ↦ rw filled (
            merge_units-IsSound ps text cfg'.chunk_size cfg'.chunk_overlap 0 (length text) units (
              build_units-Run text spans cfg'.separators cfg'.chunk_size
                (protected_spans-Ordered ps text h)))
      ]

  -- If the matches of the protected patterns lie in the text, every rune of it that is not white space
  -- is in the range of a chunk of SplitText.
  pub split_text-Holds :
      (ps : Patterns) (text : Text) (cfg : SplitterConfig) (p : ℕ)
      → All (InText text) (ps.protected text)
      → p < length text
      → IsInk text p
      → Holds p (split_text chars_for_token_limit ps text cfg)
  unfolding split_text
  split_text-Holds ps text cfg p h low ink =
      let cfg' = ensure_defaults chars_for_token_limit cfg in
      let spans = protected_spans ps text in
      let units = build_units_with_protection text spans cfg'.separators cfg'.chunk_size in
      let filled : (length text == 0) ≡ false = ground (arith, low) in
      rw filled (
        merge_units-Holds ps text cfg'.chunk_size cfg'.chunk_overlap (length text) p units
          (build_units-Run text spans cfg'.separators cfg'.chunk_size
            (protected_spans-Ordered ps text h))
          low ink)
