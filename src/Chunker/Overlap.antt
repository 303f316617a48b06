-- ===== src/Chunker/Overlap.antt =====
-- The overlap of internal/chunker/splitter.go: computeOverlap, its window, and the trimming of units.
-- A size that the code finds below 0 counts as 0, as in its tests for `<= 0`.
pub mod Boundary
pub mod Kept
pub mod Blank
use lybrix.Base.{
  ℕ, ◌+◌, ◌-◌, Bool, true, false, not, ◌||◌, Option, none, some, List, [], ◌∷◌, ltb, leb, ◌==◌,
  if◌then◌else◌, length, drop, min,
}
use lybrix.Chunker.Runes.{Text, has_text}
use lybrix.Chunker.Units.{Patterns, SplitUnit, is_synthetic, units_text}
use lybrix.Chunker.Overlap.Boundary.{find_boundary}

-- The unit without its first n runes.
unfoldable pub cut_front : ℕ → SplitUnit → SplitUnit
cut_front n u = record u { text = drop n u.text; start = u.start + n }

-- The loop of semanticOverlapWindow, which runs from the last unit to the first: the window so far,
-- the runes that remain, and whether it has stopped.
pub record Window : Type 0 where
  pub units : List SplitUnit
  pub remaining : ℕ
  pub stopped : Bool

unfoldable pub window_step : SplitUnit → Window → Window
unfolding cut_front
window_step u w =
    if w.stopped || (w.remaining == 0)
    then w
    else if length u.text == 0
    then w
    else if is_synthetic u
    then record w { stopped = true }
    else if leb (length u.text) w.remaining
    then record w { units = u ∷ w.units; remaining = w.remaining - length u.text }
    else record w { units = cut_front (length u.text - w.remaining) u ∷ w.units; remaining = 0 }

unfoldable pub window_loop : ℕ → List SplitUnit → Window
unfolding window_step
window_loop max_len [] = record { units = []; remaining = max_len; stopped = false }
window_loop max_len (u ∷ current) = window_step u (window_loop max_len current)

-- semanticOverlapWindow.
unfoldable pub semantic_overlap_window : List SplitUnit → ℕ → List SplitUnit
unfolding window_loop
semantic_overlap_window current max_len = (window_loop max_len current).units

-- The loop of trimUnitsPrefix.
unfoldable pub trim_from : ℕ → List SplitUnit → List SplitUnit
unfolding cut_front
trim_from remaining [] = []
trim_from remaining (u ∷ units) =
    let passed = trim_from (remaining - length u.text) units in
    let kept = trim_from 0 units in
    if leb (length u.text) remaining
    then passed
    else (if ltb 0 remaining then cut_front remaining u else u) ∷ kept

-- trimUnitsPrefix.
unfoldable pub trim_units_prefix : List SplitUnit → ℕ → List SplitUnit
unfolding trim_from
trim_units_prefix units prefix_len = if prefix_len == 0 then units else trim_from prefix_len units

unfoldable pub units_len : List SplitUnit → ℕ
units_len [] = 0
units_len (u ∷ units) = length u.text + units_len units

-- The overlap, if it is neither too long nor blank.
unfoldable pub checked_overlap : ℕ → List SplitUnit → List SplitUnit × ℕ
unfolding units_len units_text has_text
checked_overlap max_overlap overlap =
    let overlap_len = units_len overlap in
    if (overlap_len == 0) || (ltb max_overlap overlap_len || not (has_text (units_text overlap)))
    then ([], 0)
    else (overlap, overlap_len)

unfoldable pub overlap_at : ℕ → List SplitUnit → Option ℕ → List SplitUnit × ℕ
unfolding checked_overlap trim_units_prefix
overlap_at max_overlap window none = ([], 0)
overlap_at max_overlap window (some boundary_end) =
    checked_overlap max_overlap (trim_units_prefix window boundary_end)

abbrev pub semantic_overlap_lookbehind : ℕ
semantic_overlap_lookbehind = 4

-- The part of computeOverlap from the window on.
unfoldable pub overlap_in : Patterns → ℕ → List SplitUnit → List SplitUnit × ℕ
unfolding overlap_at units_text find_boundary
overlap_in ps max_overlap [] = ([], 0)
overlap_in ps max_overlap (u ∷ window) =
    let window_text = units_text (u ∷ window) in
    overlap_at max_overlap (u ∷ window)
      (find_boundary ps window_text (length window_text - max_overlap))

-- computeOverlap.
unfoldable pub compute_overlap : Patterns → List SplitUnit → ℕ → ℕ → ℕ → List SplitUnit × ℕ
unfolding overlap_in semantic_overlap_window
compute_overlap ps current chunk_overlap chunk_size next_len =
    let max_overlap = min chunk_overlap (chunk_size - next_len) in
    if max_overlap == 0
    then ([], 0)
    else overlap_in ps max_overlap
        (semantic_overlap_window current (max_overlap + semantic_overlap_lookbehind))
