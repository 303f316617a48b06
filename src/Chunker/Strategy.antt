-- ===== src/Chunker/Strategy.antt =====
-- internal/chunker/strategy.go and validator.go: the tiers in their order, and the two levels of
-- chunks. HashText is a parameter, as in Embed/Chunks.antt.
pub mod Remapped
pub mod Levels
pub mod Numbered
pub mod Linked
pub mod Filled
mod Samples
use Prim.Native.String.{String}
use text.Mathlib.Text.{◌==◌ as str_eq}
use lybrix.Base.{
  ℕ, suc, ◌+◌, ◌-◌, ◌*◌, ◌/◌, Bool, true, false, not, ◌&&◌, ◌||◌, Option, none, some, List, [], ◌∷◌,
  ◌++◌, ltb, leb, ◌==◌, if◌then◌else◌, length, max, min,
}
use lybrix.Chunker.Runes.{Text}
use lybrix.Chunker.Units.{Patterns, Chunk}
use lybrix.Chunker.PageMap.{PageMapper, new_page_mapper, range_for}
use lybrix.Chunker.Splitter.{SplitterConfig, ensure_defaults, split_text}
use lybrix.Chunker.Profile.{
  LinePatterns, DocProfile, empty_profile, profile_document, StrategyTier, heading, heuristic,
  legacy, select_strategy,
}
use lybrix.Chunker.Hierarchy.{merge_breadcrumbs, same_text}
use lybrix.Chunker.Heuristics.{split_by_heuristics}
use lybrix.Chunker.Headings.{split_by_headings}

-- The reasons of ValidationResult.
pub data Reason : Type 0 where
  no_chunks single_chunk too_many_tiny far_below_target over_twice_target : Reason

abbrev pub max_len : List Chunk → ℕ
max_len [] = 0
max_len (c ∷ chunks) = max (length c.content) (max_len chunks)

-- The chunks but the last that have fewer than 50 runes.
abbrev pub tiny_count : List Chunk → ℕ
tiny_count [] = 0
tiny_count (c ∷ []) = 0
tiny_count (c ∷ d ∷ chunks) =
    let rest = tiny_count (d ∷ chunks) in if ltb (length c.content) 50 then suc rest else rest

-- ValidateChunks: none where the chunks are good enough.
unfoldable pub validate_chunks : List Chunk → ℕ → ℕ → Option Reason
validate_chunks chunks total_chars chunk_size =
    if length chunks == 0
    then some no_chunks
    else if (length chunks == 1) && ltb (2 * chunk_size) total_chars
    then some single_chunk
    else if ltb (length chunks / 4) (tiny_count chunks) && ltb 2 (tiny_count chunks)
    then some too_many_tiny
    else if ltb 0 chunk_size
        && (ltb (max_len chunks) (chunk_size / 4) && ltb chunk_size total_chars)
    then some far_below_target
    else if ltb 0 chunk_size && ltb (2 * chunk_size) (max_len chunks)
    then some over_twice_target
    else none

-- Diagnostics, but for the profile.
pub record Diagnostics : Type 0 where
  pub selected_tier : StrategyTier
  pub tier_chain : List StrategyTier
  pub rejected : List (StrategyTier × Reason)

-- The chunks of a tier, the tier, and the rejections.
abbrev pub TierResult : Type 0
TierResult = List Chunk × StrategyTier × List (StrategyTier × Reason)

abbrev pub unless_rejected : Option Reason → TierResult → (Reason → TierResult) → TierResult
unless_rejected none accepted next = accepted
unless_rejected (some reason) accepted next = next reason

-- The tier is the last one, and the legacy one.
abbrev pub is_legacy_last : StrategyTier → List StrategyTier → Bool
is_legacy_last legacy [] = true
is_legacy_last legacy (t ∷ tiers) = false
is_legacy_last heading tiers = false
is_legacy_last heuristic tiers = false

abbrev pub some_chunks : List Chunk → Option (List Chunk)
some_chunks [] = none
some_chunks (c ∷ chunks) = some (c ∷ chunks)

-- remapChild.
unfoldable pub remap_child : Chunk → Chunk → Chunk
remap_child sub parent =
    let synthetic = parent.synthetic_prefix_runes in
    if synthetic == 0
    then record sub { start = sub.start + parent.start; end = sub.end + parent.start }
    else record sub {
      start = parent.start + (sub.start - synthetic);
      end = parent.start + (sub.end - synthetic);
      synthetic_prefix_runes =
          sub.synthetic_prefix_runes + min (synthetic - sub.start) (sub.end - sub.start);
    }

-- ChildChunk: no parent index where the parent is not written.
pub record ChildChunk : Type 0 where
  pub chunk : Chunk
  pub parent_index : Option ℕ
  pub parent_hash : String

-- ParentChildResult.
pub record ParentChildResult : Type 0 where
  pub parents : List Chunk
  pub children : List ChildChunk

-- The chunk with the pages that were found.
abbrev pub paged : Chunk → Option (ℕ × ℕ) → Chunk
paged c none = record c { page_start = none; page_end = none }
paged c (some (ps, pe)) = record c { page_start = some ps; page_end = some pe }

abbrev pub with_pages : PageMapper → Chunk → Chunk
with_pages pg c = paged c (range_for pg c.start c.end)

-- A parent is written unless it is its one child.
unfoldable pub is_written : Chunk → List Chunk → Bool
is_written parent [] = false
is_written parent (sub ∷ []) = not (same_text sub.content parent.content)
is_written parent (sub ∷ next ∷ subs) = true

-- A child in the document's coordinates.
unfoldable pub child_of : PageMapper → Chunk → Chunk → ℕ → Chunk
unfolding remap_child merge_breadcrumbs range_for
child_of pg parent sub seq = with_pages pg (record (remap_child sub parent) {
  seq = seq;
  context_header = merge_breadcrumbs parent.context_header sub.context_header;
})

unfoldable pub children_of :
    (Text → String) → PageMapper → Chunk → Option ℕ → ℕ → List Chunk → List ChildChunk
unfolding child_of
children_of hash pg parent index seq [] = []
children_of hash pg parent index seq (sub ∷ subs) =
    record {
      chunk = child_of pg parent sub seq;
      parent_index = index;
      parent_hash = hash parent.content;
    }
    ∷ children_of hash pg parent index (seq + 1) subs

-- The loop over the parents; `split` is the split of a parent's content.
unfoldable pub parent_loop :
    (Text → String)
    → PageMapper
    → (Text → List Chunk)
    → ℕ
    → List Chunk
    → ParentChildResult
    → ParentChildResult
unfolding children_of is_written
parent_loop hash pg split seq [] r = r
parent_loop hash pg split seq (parent ∷ parents) r =
    let subs = split parent.content in
    let written = is_written parent subs in
    let seq' = if written then seq + 1 else seq in
    parent_loop hash pg split (seq' + length subs) parents (record {
      parents =
          if written
          then r.parents ++ with_pages pg (record parent { seq = seq }) ∷ []
          else r.parents;
      children =
          r.children
          ++ children_of hash pg parent (if written then some (length r.parents) else none) seq'
              subs;
    })

module _ (chars_for_token_limit : ℕ → String → ℕ) (ps : Patterns) (lp : LinePatterns) where
  -- resolveChainWithProfile, the chain and the profile, which is none for an explicit strategy.
  unfoldable pub resolve_chain : Text → SplitterConfig → List StrategyTier × Option DocProfile
  unfolding profile_document select_strategy
  resolve_chain text cfg =
      let profile = profile_document lp text in
      if str_eq cfg.strategy "heading"
      then (heading ∷ legacy ∷ [], none)
      else if str_eq cfg.strategy "heuristic"
      then (heuristic ∷ legacy ∷ [], none)
      else if str_eq cfg.strategy "recursive" || str_eq cfg.strategy "legacy"
      then (legacy ∷ [], none)
      else (select_strategy profile, some profile)

  abbrev pub given_profile : Text → Option DocProfile → DocProfile
  given_profile text none = profile_document lp text
  given_profile text (some profile) = profile

  -- runTier.
  unfoldable pub run_tier : StrategyTier → Text → SplitterConfig → Option DocProfile → List Chunk
  run_tier heading text cfg profile =
      split_by_headings chars_for_token_limit ps lp text cfg (given_profile text profile)
  run_tier heuristic text cfg profile = split_by_heuristics chars_for_token_limit ps lp text cfg
  run_tier legacy text cfg profile = split_text chars_for_token_limit ps text cfg

  -- The loop over the chain: the chunks, the tier that made them, and the rejections.
  unfoldable pub tier_loop :
      Text
      → SplitterConfig
      → Option DocProfile
      → List StrategyTier
      → Option (List Chunk)
      → List (StrategyTier × Reason)
      → TierResult
  tier_loop text cfg profile [] (some out) rejected = (out, legacy, rejected)
  tier_loop text cfg profile [] none rejected =
      (split_text chars_for_token_limit ps text cfg, legacy, rejected)
  tier_loop text cfg profile (tier ∷ tiers) last rejected =
      let out = run_tier tier text cfg profile in
      let next = if is_legacy_last tier tiers then some_chunks out else last in
      unless_rejected (validate_chunks out (length text) cfg.chunk_size) (out, tier, rejected)
        (λ reason. tier_loop text cfg profile tiers next (rejected ++ (tier, reason) ∷ []))

  -- SplitWithDiagnostics.
  unfoldable pub split_with_diagnostics : Text → SplitterConfig → List Chunk × Diagnostics
  unfolding ensure_defaults resolve_chain
  split_with_diagnostics text cfg =
      let cfg' = ensure_defaults chars_for_token_limit cfg in
      let (chain, profile) = resolve_chain text cfg' in
      let (out, tier, rejected) = tier_loop text cfg' profile chain none [] in
      if length text == 0
      then ([], record { selected_tier = legacy; tier_chain = []; rejected = [] })
      else (out, record { selected_tier = tier; tier_chain = chain; rejected = rejected })

  -- Split.
  unfoldable pub split : Text → SplitterConfig → List Chunk
  split text cfg = (split_with_diagnostics text cfg).0

  -- SplitParentChild.
  unfoldable pub split_parent_child :
      (Text → String) → Text → List ℕ → SplitterConfig → SplitterConfig → ParentChildResult
  unfolding ensure_defaults parent_loop new_page_mapper
  split_parent_child hash markdown pages parent_cfg child_cfg =
      let child_cfg' = ensure_defaults chars_for_token_limit child_cfg in
      if length markdown == 0
      then record { parents = []; children = [] }
      else parent_loop hash (new_page_mapper markdown pages) (λ content. split content child_cfg') 0
          (split markdown (ensure_defaults chars_for_token_limit parent_cfg))
          (record { parents = []; children = [] })
