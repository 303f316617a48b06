-- ===== src/Chunker/Headings/Slices.antt =====
-- splitByHeadingsImpl of internal/chunker/heading_splitter.go: its chunks are slices of the text.
use Prim.Native.String.{String}
use lybrix.Base.{
  ℕ, ◌+◌, ◌≤◌, ◌≡◌, subst, inl, inr, ◌||◌, none, List, [], ◌∷◌, ◌++◌, leb, ◌==◌, if◌then◌else◌,
  length, arith, Bool-cases, All,
}
use lybrix.Chunker.Runes.{Text}
use lybrix.Chunker.Units.{Patterns, Chunk}
use lybrix.Chunker.Units.Built.{IsVerbatim}
use lybrix.Chunker.Spans.Disjoint.{InText}
use lybrix.Chunker.Cuts.{slice}
use lybrix.Chunker.Cuts.Whole.{length-slice}
use lybrix.Chunker.Sources.Tiled.{slice-StandsAt}
use lybrix.Chunker.Merge.{absolute_max_size}
use lybrix.Chunker.Merge.Tight.{Tight, last_of, EndsBy, EndsBy-le}
use lybrix.Chunker.Splitter.{SplitterConfig, split_text}
use lybrix.Chunker.Splitter.Slices.{split_text-IsSound}
use lybrix.Chunker.Splitter.Parted.{used_size, split_text-Tight}
use lybrix.Chunker.Profile.{LinePatterns, DocProfile, dominant_heading_level}
use lybrix.Chunker.Hierarchy.{
  HeadingHierarchy, new_heading_hierarchy, observe, breadcrumb_with_hashes,
}
use lybrix.Chunker.Heuristics.Slices.{sound-All-IsVerbatim, choice-IsVerbatim}
use lybrix.Chunker.Headings.{
  HeadingBoundary, find_heading_boundaries, observe_sub_headings, section_breadcrumbs,
  section_chunks, whole_section, section_end, split_section, section_loop, split_by_headings,
  coalesce_tiny_chunks,
}
use lybrix.Chunker.Headings.Coalesced.{coalesce-IsVerbatim}
use lybrix.Chunker.Headings.Boundaries.{Rising, find_boundaries-Rising}
use lybrix.Chunker.Headings.Sections.{
  IsPlaced, IsPlaced-append, section_chunks-IsVerbatim, section_chunks-Tight, section_chunks-EndsBy,
}

Rising-low : (low last : ℕ) (bounds : List HeadingBoundary) → Rising low bounds last → low ≤ last
Rising-low low last [] h = h
Rising-low low last (b ∷ bounds) (h, hs) = omega (arith, h, Rising-low b.rune_start last bounds hs)

-- The next section starts behind this one.
section_end-Rising :
    (low last : ℕ) (bounds : List HeadingBoundary)
    → Rising low bounds last
    → (low ≤ section_end last bounds)
      × (section_end last bounds ≤ last)
      × Rising (section_end last bounds) bounds last
section_end-Rising low last [] h = (h, omega arith, omega arith)
section_end-Rising low last (b ∷ bounds) (h, hs) =
    (h, Rising-low b.rune_start last bounds hs, (omega arith, hs))

no_chunks-IsPlaced :
    (doc : Text) (size a b : ℕ) (out : List Chunk)
    → a ≤ b
    → IsPlaced doc size a out
    → IsPlaced doc size b (out ++ [])
no_chunks-IsPlaced doc size a b out k h =
    IsPlaced-append doc size a b out [] h tt tt (EndsBy-le a b (last_of none out) k h.behind)

module _ (chars_for_token_limit : ℕ → String → ℕ) (ps : Patterns) (lp : LinePatterns)
    (matched : (t : Text) → All (InText t) (ps.protected t)) where
  split_section-IsPlaced :
      (doc : Text) (cfg : SplitterConfig) (primary_level : ℕ) (h : HeadingHierarchy)
      (start end seq : ℕ) (out : List Chunk)
      → used_size chars_for_token_limit cfg ≤ absolute_max_size
      → start ≤ end
      → end ≤ length doc
      → IsPlaced doc (used_size chars_for_token_limit cfg) start out
      → IsPlaced doc (used_size chars_for_token_limit cfg) end (
          out
          ++ split_section chars_for_token_limit ps lp cfg primary_level h
              (slice doc start end)
              start
              end
              seq)
  unfolding split_section
  split_section-IsPlaced doc cfg primary_level h start end seq out small order room k =
      let size = used_size chars_for_token_limit cfg in
      let part = slice doc start end in
      let len = length-slice doc start end room in
      let stands = slice-StandsAt doc start end order room in
      let breadcrumb = breadcrumb_with_hashes h in
      let bcs = section_breadcrumbs lp part primary_level h in
      let subs = split_text chars_for_token_limit ps part cfg in
      let parted = split_text-Tight chars_for_token_limit ps part cfg (matched part) small in
      let sound = split_text-IsSound chars_for_token_limit ps part cfg (matched part) in
      let at : start + length part ≡ end = omega (arith, len, order) in
      elim (Bool-cases (length part == 0)) [
        | inl empty ↦ rw empty (no_chunks-IsPlaced doc size start end out order k)
        | inr filled ↦
            elim (Bool-cases (leb (length breadcrumb + 2 + length part) cfg.chunk_size)) [
              | inl whole ↦
                  rw (filled, whole)
                    (IsPlaced-append doc size start end out
                      (whole_section part breadcrumb seq start end ∷ []) k
                      (
                        record {
                          prefixed = omega arith;
                          measured = omega (arith, at);
                          copied = stands;
                        },
                        tt,
                      )
                      (λ made. absurd (omega (arith, made)), tt) (omega arith))
              | inr large ↦
                  rw (filled, large)
                    (IsPlaced-append doc size start end out
                      (section_chunks start bcs breadcrumb seq subs) k
                      (section_chunks-IsVerbatim doc part start bcs breadcrumb seq subs stands
                        (sound-All-IsVerbatim part _ subs sound.0))
                      (section_chunks-Tight size start bcs breadcrumb seq (last_of none out) subs
                        k.behind parted.0)
                      (subst
                        (λ p. EndsBy p (
                          last_of (last_of none out)
                            (section_chunks start bcs breadcrumb seq subs)))
                        at
                        (section_chunks-EndsBy (length part) start bcs breadcrumb seq none
                          (last_of none out) subs
                          (λ e.
                            EndsBy-le start (start + length part) (last_of none out) (omega arith)
                              k.behind)
                          parted.1)))
            ]
      ]

  section_loop-IsPlaced :
      (doc : Text) (cfg : SplitterConfig) (primary_level low : ℕ) (bounds : List HeadingBoundary)
      (h : HeadingHierarchy) (out : List Chunk)
      → used_size chars_for_token_limit cfg ≤ absolute_max_size
      → Rising low bounds (length doc)
      → IsPlaced doc (used_size chars_for_token_limit cfg) low out
      → IsPlaced doc
          (used_size chars_for_token_limit cfg)
          (length doc)
          (section_loop chars_for_token_limit ps lp cfg primary_level doc bounds h out)
  unfolding section_loop
  section_loop-IsPlaced doc cfg primary_level low [] h out small r k = record {
    verbatim = k.verbatim;
    tight = k.tight;
    behind = EndsBy-le low (length doc) (last_of none out) r k.behind;
  }
  section_loop-IsPlaced doc cfg primary_level low (b ∷ bounds) h out small (le, r) k =
      let end = section_end (length doc) bounds in
      let (order, room, next) = section_end-Rising b.rune_start (length doc) bounds r in
      let part = slice doc b.rune_start end in
      let at_start = if length b.line == 0 then h else observe lp b.line h in
      let here : IsPlaced doc (used_size chars_for_token_limit cfg) b.rune_start out = record {
        verbatim = k.verbatim;
        tight = k.tight;
        behind = EndsBy-le low b.rune_start (last_of none out) le k.behind;
      } in
      section_loop-IsPlaced doc cfg primary_level end bounds
        (observe_sub_headings lp part primary_level at_start)
        (out
          ++ split_section chars_for_token_limit ps lp cfg primary_level at_start part b.rune_start
              end (length out))
        small next
        (split_section-IsPlaced doc cfg primary_level at_start b.rune_start end (length out) out
          small order room here)

  -- If the matches of the patterns lie in the text, and the chunk size is the one that SplitText uses
  -- and at most 7500, each chunk of the tier by headings is, behind its synthetic prefix, the slice of
  -- the text from its start to its end.
  pub split_by_headings-IsVerbatim :
      (text : Text) (cfg : SplitterConfig) (profile : DocProfile)
      → used_size chars_for_token_limit cfg ≡ cfg.chunk_size
      → cfg.chunk_size ≤ absolute_max_size
      → All (IsVerbatim text) (split_by_headings chars_for_token_limit ps lp text cfg profile)
  unfolding split_by_headings
  split_by_headings-IsVerbatim text cfg profile settled small =
      let primary_level = dominant_heading_level profile in
      let bounds = find_heading_boundaries lp text primary_level in
      let used : used_size chars_for_token_limit cfg ≤ absolute_max_size =
        omega (arith, settled, small) in
      let sound = split_text-IsSound chars_for_token_limit ps text cfg (matched text) in
      let out =
        section_loop chars_for_token_limit ps lp cfg primary_level text bounds new_heading_hierarchy
          [] in
      let placed =
        section_loop-IsPlaced text cfg primary_level 0 bounds new_heading_hierarchy [] used
          (find_boundaries-Rising lp text primary_level)
          (record { verbatim = tt; tight = tt; behind = tt }) in
      choice-IsVerbatim text (length text == 0) ((primary_level == 0) || leb (length bounds) 1)
        (split_text chars_for_token_limit ps text cfg) (coalesce_tiny_chunks cfg.chunk_size out)
        (sound-All-IsVerbatim text _ (split_text chars_for_token_limit ps text cfg) sound.0)
        (coalesce-IsVerbatim text cfg.chunk_size out placed.verbatim
          (subst (λ n. Tight n none out) settled placed.tight))
