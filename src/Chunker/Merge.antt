-- ===== src/Chunker/Merge.antt =====
-- mergeUnits of internal/chunker/splitter.go, with flush and chopOversize.
pub mod Closing
pub mod Verbatim
pub mod Covers
pub mod Tight
pub mod Turns
pub mod Rounds
use lybrix.Base.{
  ℕ, ◌+◌, ◌-◌, Bool, true, false, not, ◌&&◌, ◌||◌, Option, none, some, List, [], ◌∷◌, ◌++◌, ltb,
  leb, ◌==◌, if◌then◌else◌, length,
}
use lybrix.Chunker.Runes.{Text}
use lybrix.Chunker.Units.{Patterns, SplitUnit, Chunk, build_chunk, units_text, has_content}
use lybrix.Chunker.Cuts.{cuts, slice}
use lybrix.Chunker.Overlap.{compute_overlap}
use lybrix.Chunker.Headers.{
  HeaderTracker, new_header_tracker, update, get_headers, header_already_present,
  header_column_mismatch,
}

abbrev pub absolute_max_size : ℕ
absolute_max_size = 7500

-- The variables of the loop.
pub record Merging : Type 0 where
  pub tracker : HeaderTracker
  pub chunks : List Chunk
  pub current : List SplitUnit
  pub cur_len : ℕ

-- flush.
unfoldable pub flush : Merging → Merging
unfolding build_chunk has_content
flush m = record m {
  chunks =
      if has_content m.current
      then m.chunks ++ build_chunk m.current (length m.chunks) ∷ []
      else m.chunks;
  current = [];
  cur_len = 0;
}

abbrev pub piece_chunk : SplitUnit → ℕ → ℕ × ℕ → Chunk
piece_chunk u seq (offset, chunk_end) = record {
  content = slice u.text offset chunk_end;
  context_header = [];
  seq = seq;
  start = u.start + offset;
  end = u.start + chunk_end;
  page_start = none;
  page_end = none;
  synthetic_prefix_runes = 0;
}

unfoldable pub chop_from : SplitUnit → ℕ → List (ℕ × ℕ) → List Chunk
chop_from u seq [] = []
chop_from u seq (piece ∷ pieces) = piece_chunk u seq piece ∷ chop_from u (seq + 1) pieces

-- chopOversize.
unfoldable pub chop_oversize : SplitUnit → ℕ → List Chunk
unfolding chop_from cuts slice
chop_oversize u start_seq = chop_from u start_seq (cuts absolute_max_size u.text)

-- Drops units from the front while the chunk would be too long.
unfoldable pub shrink : ℕ → ℕ → List SplitUnit → ℕ → List SplitUnit × ℕ
shrink chunk_size extra [] cur_len = ([], cur_len)
shrink chunk_size extra (u ∷ current) cur_len =
    let rest = shrink chunk_size extra current (cur_len - length u.text) in
    if ltb chunk_size (cur_len + extra) then rest else (u ∷ current, cur_len)

abbrev pub start_of : ℕ → List SplitUnit → ℕ
start_of pos [] = pos
start_of pos (u ∷ units) = u.start

-- The header as a unit of no width.
abbrev pub header_unit : Text → ℕ → SplitUnit
header_unit headers pos = record { text = headers; start = pos; end = pos }

-- The header before the overlap, unless the boundary falls inside it or the unit is of another table.
unfoldable pub with_header : Patterns → Text → SplitUnit → List SplitUnit × ℕ → List SplitUnit × ℕ
unfolding header_already_present header_column_mismatch
with_header ps headers u (current, cur_len) =
    if not (header_already_present headers (units_text current) u.text)
      && not (header_column_mismatch ps headers u.text)
    then (header_unit headers (start_of u.start current) ∷ current, cur_len + length headers)
    else (current, cur_len)

-- The overlap, shortened and with the header before it where there is room.
unfoldable pub inject : Patterns → ℕ → Text → SplitUnit → List SplitUnit × ℕ → List SplitUnit × ℕ
unfolding with_header shrink
inject ps chunk_size headers u (current, cur_len) =
    if not (length headers == 0) && leb (length headers + length u.text) chunk_size
    then with_header ps headers u
        (shrink chunk_size (length u.text + length headers) current cur_len)
    else (current, cur_len)

abbrev pub is_none_left : List SplitUnit → Bool
is_none_left [] = true
is_none_left (u ∷ units) = false

abbrev with_current : Merging → List SplitUnit × ℕ → Merging
with_current m (current, cur_len) = record m { current = current; cur_len = cur_len }

-- A full chunk is closed, and the next one starts with the overlap.
unfoldable pub turn_over : Patterns → ℕ → ℕ → Text → SplitUnit → Merging → Merging
unfolding flush inject compute_overlap
turn_over ps chunk_size chunk_overlap headers u m =
    if ltb chunk_size (m.cur_len + length u.text + length headers) && not (is_none_left m.current)
    then with_current (flush m) (
        inject ps chunk_size headers u
          (compute_overlap ps m.current chunk_overlap chunk_size (length u.text)))
    else m

unfoldable pub add_unit : SplitUnit → Merging → Merging
add_unit u m = record m { current = m.current ++ u ∷ []; cur_len = m.cur_len + length u.text }

-- A header that is wider than the budget is left out.
abbrev pub usable_headers : ℕ → Text → Text
usable_headers chunk_size headers = if ltb chunk_size (length headers) then [] else headers

abbrev pub flush_if : Bool → Merging → Merging
flush_if full m = if full then flush m else m

unfoldable pub pack_unit : Patterns → ℕ → ℕ → SplitUnit → Merging → Merging
unfolding turn_over add_unit flush
pack_unit ps chunk_size chunk_overlap u m =
    let t =
      turn_over ps chunk_size chunk_overlap (usable_headers chunk_size (get_headers m.tracker)) u
        (flush_if m.tracker.header_ended_this_unit m) in
    add_unit u (flush_if (ltb absolute_max_size (t.cur_len + length u.text)) t)

unfoldable pub chop_unit : SplitUnit → Merging → Merging
unfolding flush chop_oversize
chop_unit u m =
    let t = flush m in record t { chunks = t.chunks ++ chop_oversize u (length t.chunks) }

-- One round of the loop.
unfoldable pub merge_step : Patterns → ℕ → ℕ → SplitUnit → Merging → Merging
unfolding pack_unit chop_unit update get_headers
merge_step ps chunk_size chunk_overlap u m =
    let seen = record m { tracker = update ps u.text m.tracker } in
    if ltb absolute_max_size (length u.text)
    then chop_unit u seen
    else pack_unit ps chunk_size chunk_overlap u seen

unfoldable pub merge_loop : Patterns → ℕ → ℕ → List SplitUnit → Merging → Merging
unfolding merge_step
merge_loop ps chunk_size chunk_overlap [] m = m
merge_loop ps chunk_size chunk_overlap (u ∷ units) m =
    merge_loop ps chunk_size chunk_overlap units (merge_step ps chunk_size chunk_overlap u m)

abbrev pub nothing_merged : Merging
nothing_merged = record { tracker = new_header_tracker; chunks = []; current = []; cur_len = 0 }

-- mergeUnits.
unfoldable pub merge_units : Patterns → List SplitUnit → ℕ → ℕ → List Chunk
unfolding merge_loop flush
merge_units ps units chunk_size chunk_overlap =
    (flush (merge_loop ps chunk_size chunk_overlap units nothing_merged)).chunks
