-- ===== src/Chunker/Headings.antt =====
-- internal/chunker/heading_splitter.go: the tier that splits at headings.
pub mod Coalesced
pub mod Boundaries
pub mod Sections
pub mod Slices
use Prim.Native.String.{String}
use lybrix.Base.{
  ℕ, ◌+◌, ◌/◌, Bool, false, not, ◌&&◌, ◌||◌, Option, none, some, List, [], ◌∷◌, ◌++◌, ltb, leb,
  ◌==◌, if◌then◌else◌, length, max,
}
use lybrix.Chunker.Runes.{Text, split_at}
use lybrix.Chunker.Units.{Patterns, Chunk}
use lybrix.Chunker.Cuts.{slice}
use lybrix.Chunker.Splitter.{SplitterConfig, split_text}
use lybrix.Chunker.Profile.{LinePatterns, DocProfile, dominant_heading_level, is_fence}
use lybrix.Chunker.Hierarchy.{
  HeadingHierarchy, new_heading_hierarchy, observe, breadcrumb_with_hashes, common_heading_prefix,
}

-- headingBoundary.
pub record HeadingBoundary : Type 0 where
  pub rune_start : ℕ
  pub line : Text

-- The number of hashes of a heading line, or 0.
abbrev pub hash_count : Option (ℕ × Text) → ℕ
hash_count none = 0
hash_count (some (level, title)) = level

-- A heading at the very start annotates the first boundary.
abbrev pub note_boundary : ℕ → Text → List HeadingBoundary → List HeadingBoundary
note_boundary pos line [] = []
note_boundary pos line (b ∷ bounds) =
    if ltb 0 pos
    then (b ∷ bounds) ++ record { rune_start = pos; line = line } ∷ []
    else record b { line = line } ∷ bounds

abbrev pub is_boundary : ℕ → ℕ → Bool
is_boundary primary_level level = leb 1 level && leb level primary_level

-- The loop over the lines, each of which but the last has its newline behind it.
unfoldable pub boundary_loop :
    LinePatterns → ℕ → ℕ → Bool → List Text → List HeadingBoundary → List HeadingBoundary
unfolding is_fence
boundary_loop lp primary_level pos in_fence [] bounds = bounds
boundary_loop lp primary_level pos in_fence (line ∷ lines) bounds =
    boundary_loop lp primary_level (pos + length line + 1)
      (if is_fence line then not in_fence else in_fence) lines
      (if not (is_fence line || in_fence)
          && is_boundary primary_level (hash_count (lp.heading line))
        then note_boundary pos line bounds
        else bounds)

-- findHeadingBoundaries.
unfoldable pub find_heading_boundaries : LinePatterns → Text → ℕ → List HeadingBoundary
unfolding boundary_loop split_at
find_heading_boundaries lp text primary_level =
    let first = record { rune_start = 0; line = [] } ∷ [] in
    if length text == 0
    then first
    else boundary_loop lp primary_level 0 false (split_at 10 text) first

-- The loop of observeSubHeadings.
unfoldable pub observe_lines :
    LinePatterns → ℕ → Bool → List Text → HeadingHierarchy → HeadingHierarchy
unfolding is_fence observe
observe_lines lp primary_level in_fence [] h = h
observe_lines lp primary_level in_fence (line ∷ lines) h =
    observe_lines lp primary_level (if is_fence line then not in_fence else in_fence) lines (
      if not (is_fence line || in_fence) && ltb primary_level (hash_count (lp.heading line))
      then observe lp line h
      else h)

-- observeSubHeadings.
unfoldable pub observe_sub_headings : LinePatterns → Text → ℕ → HeadingHierarchy → HeadingHierarchy
unfolding observe_lines split_at
observe_sub_headings lp runes primary_level h =
    if length runes == 0 then h else observe_lines lp primary_level false (split_at 10 runes) h

-- sectionBreadcrumb.
pub record SectionBreadcrumb : Type 0 where
  pub rune_start : ℕ
  pub breadcrumb : Text

abbrev crumb_at : ℕ → HeadingHierarchy → SectionBreadcrumb
crumb_at pos h = record { rune_start = pos; breadcrumb = breadcrumb_with_hashes h }

-- The loop of sectionBreadcrumbs.
unfoldable pub breadcrumb_loop :
    LinePatterns → ℕ → ℕ → Bool → List Text → HeadingHierarchy → List SectionBreadcrumb
unfolding is_fence observe breadcrumb_with_hashes
breadcrumb_loop lp primary_level pos in_fence [] h = []
breadcrumb_loop lp primary_level pos in_fence (line ∷ lines) h =
    let seen = observe lp line h in
    let next = pos + length line + 1 in
    let fenced = breadcrumb_loop lp primary_level next (not in_fence) lines h in
    let deeper = breadcrumb_loop lp primary_level next in_fence lines seen in
    let passed = breadcrumb_loop lp primary_level next in_fence lines h in
    if is_fence line
    then fenced
    else if not in_fence && ltb primary_level (hash_count (lp.heading line))
    then crumb_at pos seen ∷ deeper
    else passed

-- sectionBreadcrumbs.
unfoldable pub section_breadcrumbs :
    LinePatterns → Text → ℕ → HeadingHierarchy → List SectionBreadcrumb
unfolding breadcrumb_loop split_at breadcrumb_with_hashes
section_breadcrumbs lp section primary_level seed =
    crumb_at 0 seed ∷ breadcrumb_loop lp primary_level 0 false (split_at 10 section) seed

-- breadcrumbAtOffset.
unfoldable pub breadcrumb_at_offset : List SectionBreadcrumb → ℕ → Text → Text
breadcrumb_at_offset [] offset bc = bc
breadcrumb_at_offset (e ∷ bcs) offset bc =
    let later = breadcrumb_at_offset bcs offset e.breadcrumb in
    if ltb offset e.rune_start then bc else later

-- The chunks of a large section, in the text.
unfoldable pub section_chunks : ℕ → List SectionBreadcrumb → Text → ℕ → List Chunk → List Chunk
unfolding breadcrumb_at_offset
section_chunks start bcs breadcrumb seq [] = []
section_chunks start bcs breadcrumb seq (sub ∷ subs) =
    record sub {
      context_header = breadcrumb_at_offset bcs sub.start breadcrumb;
      seq = seq;
      start = start + sub.start;
      end = start + sub.end;
    }
    ∷ section_chunks start bcs breadcrumb (seq + 1) subs

-- A section that fits, as one chunk.
abbrev pub whole_section : Text → Text → ℕ → ℕ → ℕ → Chunk
whole_section section breadcrumb seq start end = record {
  content = section;
  context_header = breadcrumb;
  seq = seq;
  start = start;
  end = end;
  page_start = none;
  page_end = none;
  synthetic_prefix_runes = 0;
}

abbrev pub section_end : ℕ → List HeadingBoundary → ℕ
section_end last [] = last
section_end last (b ∷ bounds) = b.rune_start

-- The loop of coalesceTinyChunks, with the chunk that may still grow.
unfoldable pub coalesce_loop : ℕ → ℕ → Chunk → List Chunk → List Chunk
unfolding common_heading_prefix
coalesce_loop chunk_size target cur [] = cur ∷ []
coalesce_loop chunk_size target cur (next ∷ chunks) =
    let shared = common_heading_prefix cur.context_header next.context_header in
    let grown =
      coalesce_loop chunk_size target
        (record cur {
          content = cur.content ++ next.content;
          context_header = shared;
          end = next.end;
        })
        chunks in
    let kept = coalesce_loop chunk_size target next chunks in
    if not (length shared == 0)
      && ((cur.end == next.start)
          && (ltb (length cur.content) target
              && leb (length cur.content + length next.content) chunk_size))
    then grown
    else cur ∷ kept

abbrev pub number_from : ℕ → List Chunk → List Chunk
number_from n [] = []
number_from n (c ∷ chunks) = record c { seq = n } ∷ number_from (n + 1) chunks

-- coalesceTinyChunks.
unfoldable pub coalesce_tiny_chunks : ℕ → List Chunk → List Chunk
unfolding coalesce_loop
coalesce_tiny_chunks chunk_size [] = []
coalesce_tiny_chunks chunk_size (c ∷ []) = c ∷ []
coalesce_tiny_chunks chunk_size (c ∷ d ∷ chunks) =
    if chunk_size == 0
    then c ∷ d ∷ chunks
    else number_from 0 (coalesce_loop chunk_size (max 200 (chunk_size / 2)) c (d ∷ chunks))

module _ (chars_for_token_limit : ℕ → String → ℕ) (ps : Patterns) (lp : LinePatterns) where
  -- The chunks of one section.
  unfoldable pub split_section :
      SplitterConfig → ℕ → HeadingHierarchy → Text → ℕ → ℕ → ℕ → List Chunk
  unfolding section_chunks section_breadcrumbs
  split_section cfg primary_level h section start end seq =
      let breadcrumb = breadcrumb_with_hashes h in
      if length section == 0
      then []
      else if leb (length breadcrumb + 2 + length section) cfg.chunk_size
      then whole_section section breadcrumb seq start end ∷ []
      else section_chunks start (section_breadcrumbs lp section primary_level h) breadcrumb seq
          (split_text chars_for_token_limit ps section cfg)

  -- The loop over the boundaries.
  unfoldable pub section_loop :
      SplitterConfig → ℕ → Text → List HeadingBoundary → HeadingHierarchy → List Chunk → List Chunk
  unfolding split_section observe observe_sub_headings slice
  section_loop cfg primary_level runes [] h out = out
  section_loop cfg primary_level runes (b ∷ bounds) h out =
      let end = section_end (length runes) bounds in
      let section = slice runes b.rune_start end in
      let at_start = if length b.line == 0 then h else observe lp b.line h in
      section_loop cfg primary_level runes bounds
        (observe_sub_headings lp section primary_level at_start)
        (out ++ split_section cfg primary_level at_start section b.rune_start end (length out))

  -- splitByHeadingsImpl.
  unfoldable pub split_by_headings : Text → SplitterConfig → DocProfile → List Chunk
  unfolding section_loop coalesce_tiny_chunks find_heading_boundaries dominant_heading_level
  split_by_headings text cfg profile =
      let primary_level = dominant_heading_level profile in
      let bounds = find_heading_boundaries lp text primary_level in
      if length text == 0
      then []
      else if (primary_level == 0) || leb (length bounds) 1
      then split_text chars_for_token_limit ps text cfg
      else coalesce_tiny_chunks cfg.chunk_size
          (section_loop cfg primary_level text bounds new_heading_hierarchy [])
