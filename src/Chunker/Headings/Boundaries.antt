-- ===== src/Chunker/Headings/Boundaries.antt =====
-- findHeadingBoundaries of internal/chunker/heading_splitter.go finds places of the text in order.
use lybrix.Base.{
  ℕ, ◌+◌, ◌≤◌, ◌≡◌, subst, inl, inr, Bool, true, false, not, ◌&&◌, ◌||◌, List, [], ◌∷◌, ◌++◌, ltb,
  ◌==◌, if◌then◌else◌, length, arith, Bool-cases,
}
use lybrix.Chunker.Runes.{Text, split_at}
use lybrix.Chunker.Profile.{LinePatterns, is_fence}
use lybrix.Chunker.Heuristics.Within.{lines_len, split_at-len}
use lybrix.Chunker.Headings.{
  HeadingBoundary, hash_count, note_boundary, is_boundary, boundary_loop, find_heading_boundaries,
}

-- The boundaries in order, between two offsets.
abbrev pub Rising : ℕ → List HeadingBoundary → ℕ → Type 0
Rising low [] high = low ≤ high
Rising low (b ∷ bounds) high = (low ≤ b.rune_start) × Rising b.rune_start bounds high

Rising-snoc :
    (low pos high : ℕ) (line : Text) (bounds : List HeadingBoundary)
    → Rising low bounds pos
    → pos ≤ high
    → Rising low (bounds ++ record { rune_start = pos; line = line } ∷ []) high
Rising-snoc low pos high line [] h k = (h, k)
Rising-snoc low pos high line (b ∷ bounds) (h, hs) k =
    (h, Rising-snoc b.rune_start pos high line bounds hs k)

Rising-le :
    (low pos high : ℕ) (bounds : List HeadingBoundary)
    → pos ≤ high
    → Rising low bounds pos
    → Rising low bounds high
Rising-le low pos high [] k h = omega (arith, k, h)
Rising-le low pos high (b ∷ bounds) k (h, hs) = (h, Rising-le b.rune_start pos high bounds k hs)

note_boundary-Rising :
    (low pos high : ℕ) (line : Text) (bounds : List HeadingBoundary)
    → pos ≤ high
    → Rising low bounds pos
    → Rising low (note_boundary pos line bounds) high
note_boundary-Rising low pos high line [] k h = omega (arith, k, h)
note_boundary-Rising low pos high line (b ∷ bounds) k h = elim (Bool-cases (ltb 0 pos)) [
  | inl later ↦ rw later (Rising-snoc low pos high line (b ∷ bounds) h k)
  | inr first ↦ rw first (Rising-le low pos high (b ∷ bounds) k h)
]

noted-Rising :
    (low pos high : ℕ) (line : Text) (bounds : List HeadingBoundary) (is_heading : Bool)
    → pos ≤ high
    → Rising low bounds pos
    → Rising low (if is_heading then note_boundary pos line bounds else bounds) high
noted-Rising low pos high line bounds true k h = note_boundary-Rising low pos high line bounds k h
noted-Rising low pos high line bounds false k h = Rising-le low pos high bounds k h

-- Each boundary is at a line, where the lines before it end.
boundary_loop-Rising :
    (lp : LinePatterns) (primary_level pos last : ℕ) (in_fence : Bool) (lines : List Text)
    (bounds : List HeadingBoundary)
    → pos + lines_len lines ≤ last + 1
    → Rising 0 bounds (if lines_len lines == 0 then last else pos)
    → Rising 0 (boundary_loop lp primary_level pos in_fence lines bounds) last
unfolding boundary_loop
boundary_loop-Rising lp primary_level pos last in_fence [] bounds k h = h
boundary_loop-Rising lp primary_level pos last in_fence (line ∷ lines) bounds k h =
    let next = pos + length line + 1 in
    let some_lines : (lines_len (line ∷ lines) == 0) ≡ false = ground arith in
    let here : Rising 0 bounds pos =
      subst (λ b. Rising 0 bounds (if b then last else pos)) some_lines h in
    let upto = if lines_len lines == 0 then last else next in
    let room : pos ≤ upto = ground (arith, k) in
    boundary_loop-Rising lp primary_level next last
      (if is_fence line then not in_fence else in_fence) lines
      (if not (is_fence line || in_fence)
          && is_boundary primary_level (hash_count (lp.heading line))
        then note_boundary pos line bounds
        else bounds)
      (omega (arith, k))
      (noted-Rising 0 pos upto line bounds
        (not (is_fence line || in_fence)
          && is_boundary primary_level (hash_count (lp.heading line)))
        room here)

pub find_boundaries-Rising :
    (lp : LinePatterns) (text : Text) (primary_level : ℕ)
    → Rising 0 (find_heading_boundaries lp text primary_level) (length text)
unfolding find_heading_boundaries
find_boundaries-Rising lp text primary_level =
    let first : List HeadingBoundary = record { rune_start = 0; line = [] } ∷ [] in
    elim (Bool-cases (length text == 0)) [
      | inl empty ↦ rw empty (omega arith, omega arith)
      | inr filled ↦ rw filled (
          boundary_loop-Rising lp primary_level 0 (length text) false (split_at 10 text) first
            (omega (arith, split_at-len text)) (omega arith, omega arith))
    ]
