-- ===== src/Chunker/Sources.antt =====
-- buildUnitsWithProtection of internal/chunker/protected.go. A text is a list of runes, so a byte
-- offset is the number of the runes before it, and protectedSpansRune changes nothing.
pub mod Tiled
use lybrix.Base.{ℕ, ◌+◌, List, [], ◌∷◌, ◌++◌, ltb, if◌then◌else◌, length, drop}
use lybrix.Chunker.Runes.{Text}
use lybrix.Chunker.Units.{SplitUnit}
use lybrix.Chunker.Separators.{split_by_separators}
use lybrix.Chunker.Cuts.{cuts, slice}

abbrev pub max_protected_size : ℕ
max_protected_size = 7500

-- The parts as units, from the rune offset on.
unfoldable pub units_of : ℕ → List Text → List SplitUnit
units_of rune_offset [] = []
units_of rune_offset (part ∷ parts) =
    record { text = part; start = rune_offset; end = rune_offset + length part }
    ∷ units_of (rune_offset + length part) parts

abbrev pub parts_len : List Text → ℕ
parts_len [] = 0
parts_len (part ∷ parts) = length part + parts_len parts

abbrev pub cut_parts : Text → List (ℕ × ℕ) → List Text
cut_parts text [] = []
cut_parts text ((offset, chunk_end) ∷ pieces) = slice text offset chunk_end ∷ cut_parts text pieces

-- A protected text is one part, unless it is too large.
unfoldable pub protected_parts : Text → List Text
unfolding cuts slice
protected_parts text =
    if ltb max_protected_size (length text)
    then cut_parts text (cuts max_protected_size text)
    else text ∷ []

-- What stands before the next protected span.
unfoldable pub parts_before : ℕ → List Text → Text → ℕ → ℕ → List Text
unfolding split_by_separators slice
parts_before chunk_size separators text byte_pos start =
    if ltb byte_pos start
    then split_by_separators chunk_size separators (slice text byte_pos start)
    else []

unfoldable pub units_loop : ℕ → List Text → Text → ℕ → ℕ → List (ℕ × ℕ) → List SplitUnit
unfolding units_of protected_parts parts_before
units_loop chunk_size separators text byte_pos rune_pos [] =
    units_of rune_pos (parts_before chunk_size separators text byte_pos (length text))
units_loop chunk_size separators text byte_pos rune_pos ((start, end) ∷ protected) =
    let before = parts_before chunk_size separators text byte_pos start in
    let inside = protected_parts (slice text start end) in
    units_of rune_pos before
    ++ (units_of (rune_pos + parts_len before) inside
        ++ units_loop chunk_size separators text end
            (rune_pos + parts_len before + parts_len inside) protected)

-- buildUnitsWithProtection.
unfoldable pub build_units_with_protection : Text → List (ℕ × ℕ) → List Text → ℕ → List SplitUnit
unfolding units_loop
build_units_with_protection text protected separators chunk_size =
    units_loop chunk_size separators text 0 0 protected
