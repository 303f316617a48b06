-- ===== src/Chunker/Separators.antt =====
-- splitBySeparators of internal/chunker/protected.go. The expression that it compiles is a quoted
-- separator: its matches are the places where the separator stands, from the left, without overlaps.
pub mod Pieces
use lybrix.Base.{
  ℕ, zero, suc, ◌-◌, Bool, true, false, not, ◌&&◌, ◌||◌, List, [], ◌∷◌, ◌++◌, ltb, leb, ◌==◌,
  if◌then◌else◌, length,
}
use lybrix.Chunker.Runes.{Text, has_prefix, contains}

abbrev pub if_filled : Text → List Text
if_filled [] = []
if_filled (r ∷ rs) = (r ∷ rs) ∷ []

-- The texts between the matches, but for empty ones, with the matches: `piece` is the text since the
-- last match, and `skip` counts the runes that are left of a match.
unfoldable pub pieces_from : Text → Text → ℕ → Text → List Text
unfolding has_prefix
pieces_from sep piece skip [] = if_filled piece
pieces_from sep piece (suc skip) (r ∷ rs) = pieces_from sep piece skip rs
pieces_from sep piece zero (r ∷ rs) =
    let matched = if_filled piece ++ sep ∷ pieces_from sep [] (length sep - 1) rs in
    let grown = pieces_from sep (piece ++ r ∷ []) 0 rs in
    if has_prefix sep (r ∷ rs) then matched else grown

abbrev pub no_separators : List Text → Bool
no_separators [] = true
no_separators (sep ∷ seps) = false

-- The guards at the start, and else the loop.
abbrev pub guarded : ℕ → List Text → (Text → List Text) → Text → List Text
guarded chunk_size separators loop text =
    if (length text == 0) || no_separators separators
    then text ∷ []
    else if ltb 0 chunk_size && leb (length text) chunk_size
    then text ∷ []
    else loop text

-- Each piece that is still too large goes to the separators that remain.
unfoldable pub split_pieces : ℕ → List Text → (Text → List Text) → List Text → List Text
split_pieces chunk_size remaining loop [] = []
split_pieces chunk_size remaining loop (p ∷ pieces) =
    (if ltb 0 chunk_size && (ltb chunk_size (length p) && not (no_separators remaining))
      then guarded chunk_size remaining loop p
      else p ∷ [])
    ++ split_pieces chunk_size remaining loop pieces

-- The loop over the separators: one that does not split the text is passed over.
unfoldable pub separator_loop : ℕ → List Text → Text → List Text
unfolding pieces_from split_pieces contains
separator_loop chunk_size [] text = text ∷ []
separator_loop chunk_size (sep ∷ remaining) text =
    let next = separator_loop chunk_size remaining text in
    let pieces = pieces_from sep [] 0 text in
    let split = split_pieces chunk_size remaining (separator_loop chunk_size remaining) pieces in
    if (length sep == 0) || (not (contains sep text) || leb (length pieces) 1) then next else split

-- splitBySeparators.
unfoldable pub split_by_separators : ℕ → List Text → Text → List Text
unfolding separator_loop
split_by_separators chunk_size separators text =
    guarded chunk_size separators (separator_loop chunk_size separators) text
