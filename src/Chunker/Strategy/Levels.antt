-- ===== src/Chunker/Strategy/Levels.antt =====
-- SplitParentChild of internal/chunker/strategy.go: parents and children are slices of the document.
use Prim.Native.String.{String}
use lybrix.Base.{
  ◌≡◌, arith, ℕ, ◌+◌, ◌≤◌, inl, inr, Bool, true, false, Option, none, some, List, [], ◌∷◌, ◌++◌,
  ◌==◌, if◌then◌else◌, length, All, All-append, Bool-cases,
}
use lybrix.Chunker.Runes.{Text}
use lybrix.Chunker.Units.{Patterns, Chunk}
use lybrix.Chunker.Units.Built.{IsVerbatim}
use lybrix.Chunker.Spans.Disjoint.{InText}
use lybrix.Chunker.PageMap.{PageMapper, new_page_mapper}
use lybrix.Chunker.Splitter.{SplitterConfig, ensure_defaults, split_text}
use lybrix.Chunker.Splitter.Slices.{split_text-IsSound}
use lybrix.Chunker.Profile.{LinePatterns, DocProfile, StrategyTier, heading, heuristic, legacy}
use lybrix.Chunker.Merge.{absolute_max_size}
use lybrix.Chunker.Splitter.Parted.{used_size, used_size-twice}
use lybrix.Chunker.Headings.Slices.{split_by_headings-IsVerbatim}
use lybrix.Chunker.Heuristics.Slices.{split_by_heuristics-IsVerbatim, sound-All-IsVerbatim}
use lybrix.Chunker.Strategy.{
  Reason, Diagnostics, TierResult, unless_rejected, validate_chunks, is_legacy_last, some_chunks,
  ParentChildResult, ChildChunk, with_pages, is_written, children_of, parent_loop, resolve_chain,
  run_tier, tier_loop, split_with_diagnostics, split, split_parent_child,
}
use lybrix.Chunker.Strategy.Remapped.{with_pages-IsVerbatim, child_of-IsVerbatim}

-- A child that is a slice of the document.
abbrev pub IsVerbatimChild : Text → ChildChunk → Type 0
IsVerbatimChild doc child = IsVerbatim doc child.chunk

-- Both levels are slices of the document.
abbrev pub AreVerbatim : Text → ParentChildResult → Type 0
AreVerbatim doc r = All (IsVerbatim doc) r.parents × All (IsVerbatimChild doc) r.children

children_of-IsVerbatim :
    (hash : Text → String) (pg : PageMapper) (doc : Text) (parent : Chunk) (index : Option ℕ)
    (seq : ℕ) (subs : List Chunk)
    → IsVerbatim doc parent
    → All (IsVerbatim parent.content) subs
    → All (IsVerbatimChild doc) (children_of hash pg parent index seq subs)
unfolding children_of
children_of-IsVerbatim hash pg doc parent index seq [] v w = tt
children_of-IsVerbatim hash pg doc parent index seq (sub ∷ subs) v (w, ws) = (
  child_of-IsVerbatim doc pg parent sub seq v w,
  children_of-IsVerbatim hash pg doc parent index (seq + 1) subs v ws,
)

written-IsVerbatim :
    (doc : Text) (parents : List Chunk) (p : Chunk) (written : Bool)
    → All (IsVerbatim doc) parents
    → IsVerbatim doc p
    → All (IsVerbatim doc) (if written then parents ++ p ∷ [] else parents)
written-IsVerbatim doc parents p true vs v = All-append (IsVerbatim doc) parents (p ∷ []) vs (v, tt)
written-IsVerbatim doc parents p false vs v = vs

parent_loop-AreVerbatim :
    (hash : Text → String) (pg : PageMapper) (doc : Text) (split_content : Text → List Chunk)
    (seq : ℕ) (parents : List Chunk) (r : ParentChildResult)
    → ((t : Text) → All (IsVerbatim t) (split_content t))
    → All (IsVerbatim doc) parents
    → AreVerbatim doc r
    → AreVerbatim doc (parent_loop hash pg split_content seq parents r)
unfolding parent_loop
parent_loop-AreVerbatim hash pg doc split_content seq [] r h vs k = k
parent_loop-AreVerbatim hash pg doc split_content seq (parent ∷ parents) r h (v, vs) (ps, cs) =
    let subs = split_content parent.content in
    let written = is_written parent subs in
    let seq' = if written then seq + 1 else seq in
    let index = if written then some (length r.parents) else none in
    let kept = record parent { seq = seq } in
    let next : ParentChildResult = record {
      parents = if written then r.parents ++ with_pages pg kept ∷ [] else r.parents;
      children = r.children ++ children_of hash pg parent index seq' subs;
    } in
    parent_loop-AreVerbatim hash pg doc split_content (seq' + length subs) parents next h vs (
      written-IsVerbatim doc r.parents (with_pages pg kept) written ps (
          with_pages-IsVerbatim doc pg kept
            (record { prefixed = v.prefixed; measured = v.measured; copied = v.copied })),
      All-append (IsVerbatimChild doc) r.children (children_of hash pg parent index seq' subs) cs
          (children_of-IsVerbatim hash pg doc parent index seq' subs v (h parent.content)),
    )

abbrev OptionVerbatim : Text → Option (List Chunk) → Type 0
OptionVerbatim text none = Unit
OptionVerbatim text (some out) = All (IsVerbatim text) out

some_chunks-Verbatim :
    (text : Text) (out : List Chunk)
    → All (IsVerbatim text) out
    → OptionVerbatim text (some_chunks out)
some_chunks-Verbatim text [] h = tt
some_chunks-Verbatim text (c ∷ out) h = h

next_last-Verbatim :
    (text : Text) (out : List Chunk) (last : Option (List Chunk)) (is_last : Bool)
    → All (IsVerbatim text) out
    → OptionVerbatim text last
    → OptionVerbatim text (if is_last then some_chunks out else last)
next_last-Verbatim text out last true h k = some_chunks-Verbatim text out h
next_last-Verbatim text out last false h k = k

unless_rejected-IsVerbatim :
    (text : Text) (verdict : Option Reason) (accepted : TierResult) (next : Reason → TierResult)
    → All (IsVerbatim text) accepted.0
    → ((reason : Reason) → All (IsVerbatim text) (next reason).0)
    → All (IsVerbatim text) (unless_rejected verdict accepted next).0
unless_rejected-IsVerbatim text none accepted next h k = h
unless_rejected-IsVerbatim text (some reason) accepted next h k = k reason

nothing_or-IsVerbatim :
    (text : Text) (empty : Bool) (result nothing : List Chunk × Diagnostics)
    → All (IsVerbatim text) nothing.0
    → All (IsVerbatim text) result.0
    → All (IsVerbatim text) (if empty then nothing else result).0
nothing_or-IsVerbatim text true result nothing h k = h
nothing_or-IsVerbatim text false result nothing h k = k

module _ (chars_for_token_limit : ℕ → String → ℕ) (ps : Patterns) (lp : LinePatterns)
    (matched : (t : Text) → All (InText t) (ps.protected t))
    (ended : (t : Text) → All (λ (n : ℕ). n ≤ length t) (lp.blank_run_ends t)) where
  legacy-IsVerbatim :
      (text : Text) (cfg : SplitterConfig)
      → All (IsVerbatim text) (split_text chars_for_token_limit ps text cfg)
  legacy-IsVerbatim text cfg =
      sound-All-IsVerbatim text _ (split_text chars_for_token_limit ps text cfg)
        (split_text-IsSound chars_for_token_limit ps text cfg (matched text)).0

  -- The chunk size is the one that SplitText uses, and at most 7500.
  abbrev Settled : SplitterConfig → Type 0
  Settled cfg =
      (used_size chars_for_token_limit cfg ≡ cfg.chunk_size) × (cfg.chunk_size ≤ absolute_max_size)

  run_tier-IsVerbatim :
      (tier : StrategyTier) (text : Text) (cfg : SplitterConfig) (profile : Option DocProfile)
      → Settled cfg
      → All (IsVerbatim text) (run_tier chars_for_token_limit ps lp tier text cfg profile)
  unfolding run_tier
  run_tier-IsVerbatim heading text cfg profile h =
      split_by_headings-IsVerbatim chars_for_token_limit ps lp matched text cfg _ h.0 h.1
  run_tier-IsVerbatim heuristic text cfg profile h =
      split_by_heuristics-IsVerbatim chars_for_token_limit ps matched lp text cfg (ended text)
  run_tier-IsVerbatim legacy text cfg profile h = legacy-IsVerbatim text cfg

  tier_loop-IsVerbatim :
      (text : Text) (cfg : SplitterConfig) (profile : Option DocProfile) (chain : List StrategyTier)
      (last : Option (List Chunk)) (rejected : List (StrategyTier × Reason))
      → Settled cfg
      → OptionVerbatim text last
      → All
          (IsVerbatim text)
          (tier_loop chars_for_token_limit ps lp text cfg profile chain last rejected).0
  unfolding tier_loop
  tier_loop-IsVerbatim text cfg profile [] none rejected h k = legacy-IsVerbatim text cfg
  tier_loop-IsVerbatim text cfg profile [] (some out) rejected h k = k
  tier_loop-IsVerbatim text cfg profile (tier ∷ tiers) last rejected h k =
      let out = run_tier chars_for_token_limit ps lp tier text cfg profile in
      let sound = run_tier-IsVerbatim tier text cfg profile h in
      let next = if is_legacy_last tier tiers then some_chunks out else last in
      unless_rejected-IsVerbatim text (validate_chunks out (length text) cfg.chunk_size)
        (out, tier, rejected)
        (λ reason.
          tier_loop chars_for_token_limit ps lp text cfg profile tiers next
            (rejected ++ (tier, reason) ∷ []))
        sound
        (λ reason.
          tier_loop-IsVerbatim text cfg profile tiers next (rejected ++ (tier, reason) ∷ []) h
            (next_last-Verbatim text out last (is_legacy_last tier tiers) sound k))

  split-IsVerbatim :
      (text : Text) (cfg : SplitterConfig)
      → used_size chars_for_token_limit cfg ≤ absolute_max_size
      → All (IsVerbatim text) (split chars_for_token_limit ps lp text cfg)
  unfolding split split_with_diagnostics
  split-IsVerbatim text cfg small =
      let cfg' = ensure_defaults chars_for_token_limit cfg in
      let chain = resolve_chain chars_for_token_limit ps lp text cfg' in
      nothing_or-IsVerbatim text (length text == 0) _ _ tt (
        tier_loop-IsVerbatim text cfg' chain.1 chain.0 none []
          (used_size-twice chars_for_token_limit cfg, small) tt)

  -- If the matches of the patterns lie in their texts, and the two chunk sizes, defaults and budgets
  -- of tokens applied, are at most 7500, every parent and every child of SplitParentChild is, whatever
  -- the tiers, behind its synthetic prefix, the slice of the document from its start to its end.
  pub split_parent_child-AreVerbatim :
      (hash : Text → String) (doc : Text) (pages : List ℕ) (parent_cfg child_cfg : SplitterConfig)
      → used_size chars_for_token_limit parent_cfg ≤ absolute_max_size
      → used_size chars_for_token_limit child_cfg ≤ absolute_max_size
      → AreVerbatim doc
          (split_parent_child chars_for_token_limit ps lp hash doc pages parent_cfg child_cfg)
  unfolding split_parent_child
  split_parent_child-AreVerbatim hash doc pages parent_cfg child_cfg h k =
      let parent_cfg' = ensure_defaults chars_for_token_limit parent_cfg in
      let child_cfg' = ensure_defaults chars_for_token_limit child_cfg in
      let h' : used_size chars_for_token_limit parent_cfg' ≤ absolute_max_size =
        omega (arith, h, used_size-twice chars_for_token_limit parent_cfg) in
      let k' : used_size chars_for_token_limit child_cfg' ≤ absolute_max_size =
        omega (arith, k, used_size-twice chars_for_token_limit child_cfg) in
      elim (Bool-cases (length doc == 0)) [
        | inl nothing ↦ rw nothing (tt, tt)
        | inr filled ↦ rw filled (
            parent_loop-AreVerbatim hash (new_page_mapper doc pages) doc
              (λ t. split chars_for_token_limit ps lp t child_cfg') 0
              (split chars_for_token_limit ps lp doc parent_cfg') _
              (λ t. split-IsVerbatim t child_cfg' k') (split-IsVerbatim doc parent_cfg' h')
              (tt, tt))
      ]
