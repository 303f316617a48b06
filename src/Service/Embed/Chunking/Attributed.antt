-- ===== src/Service/Embed/Chunking/Attributed.antt =====
-- internal/service/embedder.go: the chunks of a document are slices of its markdown, and their pages
-- are in order.
use Prim.Native.String.{String}
use lybrix.Base.{
  ℕ, ◌+◌, ◌≤◌, inl, inr, Bool, true, false, Option, none, some, List, [], ◌∷◌, ◌++◌, ◌==◌,
  if◌then◌else◌, length, Bool-cases, All, All-append,
}
use lybrix.Store.Rows.{Shard}
use lybrix.Stitch.{sort_docs, stitch}
use lybrix.Stitch.Pages.{Rising}
use lybrix.Stitch.Ordered.{InOrder, ranges_of, stitch-Rising}
use lybrix.Chunker.Runes.{Text}
use lybrix.Chunker.Units.{Patterns, Chunk}
use lybrix.Chunker.Spans.Disjoint.{InText}
use lybrix.Chunker.Profile.{LinePatterns}
use lybrix.Chunker.PageMap.{PageMapper, new_page_mapper, range_for, both}
use lybrix.Chunker.Hierarchy.{merge_breadcrumbs}
use lybrix.Chunker.PageMap.Rises.{Rises, range_for-Rises, new_page_mapper-Rising}
use lybrix.Chunker.Merge.{absolute_max_size}
use lybrix.Chunker.Splitter.{SplitterConfig, ensure_defaults, derive_parent_child_configs}
use lybrix.Chunker.Splitter.Parted.{used_size}
use lybrix.Chunker.Strategy.{
  ParentChildResult, ChildChunk, paged, with_pages, remap_child, is_written, child_of, children_of,
  parent_loop, split, split_parent_child,
}
use lybrix.Chunker.Strategy.Levels.{AreVerbatim, split_parent_child-AreVerbatim}
use lybrix.Service.Embed.Chunking.{ChunkSettings, base_config, shard_ranges, chunk_document}

-- The chunk's pages, if it has any, are in order.
abbrev pub PagesRise : Chunk → Type 0
PagesRise c = Rises (both c.page_start c.page_end)

paged-PagesRise : (c : Chunk) (found : Option (ℕ × ℕ)) → Rises found → PagesRise (paged c found)
paged-PagesRise c none h = tt
paged-PagesRise c (some (ps, pe)) h = h

abbrev pub ChildPagesRise : ChildChunk → Type 0
ChildPagesRise child = PagesRise child.chunk

children_of-ChildPagesRise :
    (hash : Text → String) (pg : PageMapper) (parent : Chunk) (index : Option ℕ) (seq : ℕ)
    (subs : List Chunk)
    → Rising 0 pg.pages
    → All ChildPagesRise (children_of hash pg parent index seq subs)
unfolding children_of child_of
children_of-ChildPagesRise hash pg parent index seq [] r = tt
children_of-ChildPagesRise hash pg parent index seq (sub ∷ subs) r =
    let moved = record (remap_child sub parent) {
      seq = seq;
      context_header = merge_breadcrumbs parent.context_header sub.context_header;
    } in
    (
      paged-PagesRise moved (range_for pg moved.start moved.end)
          (range_for-Rises pg moved.start moved.end r),
      children_of-ChildPagesRise hash pg parent index (seq + 1) subs r,
    )

abbrev pub AllPagesRise : ParentChildResult → Type 0
AllPagesRise r = All PagesRise r.parents × All ChildPagesRise r.children

written-PagesRise :
    (parents : List Chunk) (p : Chunk) (written : Bool)
    → All PagesRise parents
    → PagesRise p
    → All PagesRise (if written then parents ++ p ∷ [] else parents)
written-PagesRise parents p true hs h = All-append PagesRise parents (p ∷ []) hs (h, tt)
written-PagesRise parents p false hs h = hs

parent_loop-AllPagesRise :
    (hash : Text → String) (pg : PageMapper) (split_content : Text → List Chunk) (seq : ℕ)
    (parents : List Chunk) (r : ParentChildResult)
    → Rising 0 pg.pages
    → AllPagesRise r
    → AllPagesRise (parent_loop hash pg split_content seq parents r)
unfolding parent_loop
parent_loop-AllPagesRise hash pg split_content seq [] r h k = k
parent_loop-AllPagesRise hash pg split_content seq (parent ∷ parents) r h (ps, cs) =
    let subs = split_content parent.content in
    let written = is_written parent subs in
    let seq' = if written then seq + 1 else seq in
    let index = if written then some (length r.parents) else none in
    let kept = record parent { seq = seq } in
    let next : ParentChildResult = record {
      parents = if written then r.parents ++ with_pages pg kept ∷ [] else r.parents;
      children = r.children ++ children_of hash pg parent index seq' subs;
    } in
    parent_loop-AllPagesRise hash pg split_content (seq' + length subs) parents next h (
      written-PagesRise r.parents (with_pages pg kept) written ps (
          paged-PagesRise kept (range_for pg parent.start parent.end)
            (range_for-Rises pg parent.start parent.end h)),
      All-append ChildPagesRise r.children (children_of hash pg parent index seq' subs) cs
          (children_of-ChildPagesRise hash pg parent index seq' subs h),
    )

split_parent_child-AllPagesRise :
    (chars_for_token_limit : ℕ → String → ℕ) (ps : Patterns) (lp : LinePatterns)
    (hash : Text → String) (doc : Text) (pages : List ℕ) (parent_cfg child_cfg : SplitterConfig)
    → Rising 0 pages
    → AllPagesRise
        (split_parent_child chars_for_token_limit ps lp hash doc pages parent_cfg child_cfg)
unfolding split_parent_child
split_parent_child-AllPagesRise chars_for_token_limit ps lp hash doc pages parent_cfg child_cfg h =
    let child_cfg' = ensure_defaults chars_for_token_limit child_cfg in
    let split_content : Text → List Chunk = λ t. split chars_for_token_limit ps lp t child_cfg' in
    elim (Bool-cases (length doc == 0)) [
      | inl empty ↦ rw empty (tt, tt)
      | inr filled ↦ rw filled (
          parent_loop-AllPagesRise hash (new_page_mapper doc pages) split_content 0
            (split chars_for_token_limit ps lp doc
              (ensure_defaults chars_for_token_limit parent_cfg))
            _ (new_page_mapper-Rising doc pages h) (tt, tt))
    ]

-- If the matches of the patterns lie in their texts, the two chunk sizes are at most 7500, and the
-- ranges of the done shards, in their order, start each where the one before ends or behind, then
-- every parent and every child of the document is, behind its synthetic prefix, a slice of the
-- stitched markdown, and if it has pages, its last page is not before its first.
pub chunk_document-AreVerbatim :
    (chars_for_token_limit : ℕ → String → ℕ) (ps : Patterns) (lp : LinePatterns)
    (payload : Text → Option Text) (hash : Text → String) (s : ChunkSettings) (rows : List Shard)
    (fetched : List (ℕ × Text))
    → ((t : Text) → All (InText t) (ps.protected t))
    → ((t : Text) → All (λ (n : ℕ). n ≤ length t) (lp.blank_run_ends t))
    → used_size chars_for_token_limit
        (derive_parent_child_configs (base_config s) s.parent_chunk_size s.child_chunk_size).0
      ≤ absolute_max_size
    → used_size chars_for_token_limit
        (derive_parent_child_configs (base_config s) s.parent_chunk_size s.child_chunk_size).1
      ≤ absolute_max_size
    → InOrder 0 (ranges_of (shard_ranges rows) (sort_docs fetched))
    → AreVerbatim
        (stitch payload fetched (shard_ranges rows)).markdown
        (chunk_document chars_for_token_limit ps lp payload hash s rows fetched)
      × AllPagesRise (chunk_document chars_for_token_limit ps lp payload hash s rows fetched)
unfolding chunk_document
chunk_document-AreVerbatim chars_for_token_limit ps lp payload hash s rows fetched matched ended
      large small order =
    let stitched = stitch payload fetched (shard_ranges rows) in
    let cfgs = derive_parent_child_configs (base_config s) s.parent_chunk_size s.child_chunk_size in
    (
      split_parent_child-AreVerbatim chars_for_token_limit ps lp matched ended hash
          stitched.markdown stitched.pages cfgs.0 cfgs.1 large small,
      split_parent_child-AllPagesRise chars_for_token_limit ps lp hash stitched.markdown
          stitched.pages cfgs.0 cfgs.1 (stitch-Rising payload fetched (shard_ranges rows) order),
    )
