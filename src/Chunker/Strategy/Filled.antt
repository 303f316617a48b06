-- ===== src/Chunker/Strategy/Filled.antt =====
-- Split of internal/chunker/strategy.go: a text that is not blank has a chunk, whatever the tiers.
use Prim.Native.String.{String}
use lybrix.Base.{
  ℕ, ◌<◌, ◌≡◌, refl, Bool, true, false, Option, none, some, List, [], ◌∷◌, ◌++◌, ◌==◌,
  if◌then◌else◌, length, arith, All,
}
use lybrix.Chunker.Runes.{Text}
use lybrix.Chunker.Runes.Ink.{IsInk}
use lybrix.Chunker.Units.{Patterns, Chunk}
use lybrix.Chunker.Spans.Disjoint.{InText}
use lybrix.Chunker.Merge.Covers.{Holds}
use lybrix.Chunker.Splitter.{SplitterConfig, ensure_defaults, split_text}
use lybrix.Chunker.Splitter.Slices.{split_text-Holds}
use lybrix.Chunker.Profile.{LinePatterns, DocProfile, StrategyTier}
use lybrix.Chunker.Strategy.{
  Reason, Diagnostics, TierResult, unless_rejected, validate_chunks, is_legacy_last, some_chunks,
  resolve_chain, run_tier, tier_loop, split_with_diagnostics, split,
}

-- There is a chunk.
abbrev pub Filled : List Chunk → Type 0
Filled [] = ⊥
Filled (c ∷ chunks) = Unit

Holds-Filled : (p : ℕ) (chunks : List Chunk) → Holds p chunks → Filled chunks
Holds-Filled p [] h = h
Holds-Filled p (c ∷ chunks) h = tt

-- The validator accepts no empty set of chunks.
validate_chunks-Filled :
    (chunks : List Chunk) (total size : ℕ)
    → validate_chunks chunks total size ≡ none
    → Filled chunks
unfolding validate_chunks
validate_chunks-Filled [] total size h = cc h
validate_chunks-Filled (c ∷ chunks) total size h = tt

unless_rejected-Filled :
    (verdict : Option Reason) (accepted : TierResult) (next : Reason → TierResult)
    → (verdict ≡ none → Filled accepted.0)
    → ((reason : Reason) → Filled (next reason).0)
    → Filled (unless_rejected verdict accepted next).0
unless_rejected-Filled none accepted next h k = h refl
unless_rejected-Filled (some reason) accepted next h k = k reason

abbrev OptionFilled : Option (List Chunk) → Type 0
OptionFilled none = Unit
OptionFilled (some out) = Filled out

next_last-OptionFilled :
    (out : List Chunk) (last : Option (List Chunk)) (is_last : Bool)
    → OptionFilled last
    → OptionFilled (if is_last then some_chunks out else last)
next_last-OptionFilled [] last true k = tt
next_last-OptionFilled (c ∷ out) last true k = tt
next_last-OptionFilled out last false k = k

unless_empty-Filled :
    (empty : Bool) (nothing result : List Chunk × Diagnostics)
    → empty ≡ false
    → Filled result.0
    → Filled (if empty then nothing else result).0
unless_empty-Filled true nothing result h k = cc h
unless_empty-Filled false nothing result h k = k

module _ (chars_for_token_limit : ℕ → String → ℕ) (ps : Patterns) (lp : LinePatterns) where
  tier_loop-Filled :
      (text : Text) (cfg : SplitterConfig) (profile : Option DocProfile) (chain : List StrategyTier)
      (last : Option (List Chunk)) (rejected : List (StrategyTier × Reason))
      → Filled (split_text chars_for_token_limit ps text cfg)
      → OptionFilled last
      → Filled (tier_loop chars_for_token_limit ps lp text cfg profile chain last rejected).0
  unfolding tier_loop
  tier_loop-Filled text cfg profile [] none rejected h k = h
  tier_loop-Filled text cfg profile [] (some out) rejected h k = k
  tier_loop-Filled text cfg profile (tier ∷ tiers) last rejected h k =
      let out = run_tier chars_for_token_limit ps lp tier text cfg profile in
      let next = if is_legacy_last tier tiers then some_chunks out else last in
      unless_rejected-Filled (validate_chunks out (length text) cfg.chunk_size)
        (out, tier, rejected)
        (λ reason.
          tier_loop chars_for_token_limit ps lp text cfg profile tiers next
            (rejected ++ (tier, reason) ∷ []))
        (validate_chunks-Filled out (length text) cfg.chunk_size)
        (λ reason.
          tier_loop-Filled text cfg profile tiers next (rejected ++ (tier, reason) ∷ []) h
            (next_last-OptionFilled out last (is_legacy_last tier tiers) k))

  -- If the matches of the protected patterns lie in the text, and a rune of it is not white space,
  -- Split gives a chunk at least, whatever the configuration and the verdicts of the validator.
  pub split-Filled :
      (text : Text) (cfg : SplitterConfig) (p : ℕ)
      → All (InText text) (ps.protected text)
      → p < length text
      → IsInk text p
      → Filled (split chars_for_token_limit ps lp text cfg)
  unfolding split split_with_diagnostics
  split-Filled text cfg p matched low ink =
      let cfg' = ensure_defaults chars_for_token_limit cfg in
      let chain = resolve_chain chars_for_token_limit ps lp text cfg' in
      let some_text : (length text == 0) ≡ false = ground (arith, low) in
      unless_empty-Filled (length text == 0) _ _ some_text (
        tier_loop-Filled text cfg' chain.1 chain.0 none []
          (Holds-Filled p (split_text chars_for_token_limit ps text cfg')
            (split_text-Holds chars_for_token_limit ps text cfg' p matched low ink))
          tt)
