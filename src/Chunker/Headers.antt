-- ===== src/Chunker/Headers.antt =====
-- internal/chunker/header_tracker.go. The table hook is the only one, so each map that is keyed by a
-- priority holds at most one entry: here a field.
use lybrix.Base.{
  ℕ, Bool, true, false, not, ◌&&◌, ◌||◌, Option, none, some, List, [], ◌∷◌, ◌++◌, ltb, ◌==◌,
  if◌then◌else◌, length,
}
use mathlib.Core.List.{reverse}
use lybrix.Chunker.Runes.{Text, has_text, trim_space, has_prefix, contains, split_at}
use lybrix.Chunker.Units.{Patterns}

-- headerTracker.
pub record HeaderTracker : Type 0 where
  pub active_header : Option Text
  pub ended : Bool
  pub pending_extend : Bool
  pub pending_table_break : Bool
  pub header_ended_this_unit : Bool

abbrev pub new_header_tracker : HeaderTracker
new_header_tracker = record {
  active_header = none;
  ended = false;
  pending_extend = false;
  pending_table_break = false;
  header_ended_this_unit = false;
}

abbrev pub pipe : ℕ
pipe = 124

abbrev dashes : Text
dashes = 45 ∷ 45 ∷ 45 ∷ []

-- The cells but for a blank one at the front, and then but for a blank one at the end.
abbrev drop_blank : List Text → List Text
drop_blank [] = []
drop_blank (part ∷ parts) = if has_text part then part ∷ parts else parts

-- tableRowColumnCount.
unfoldable pub table_row_column_count : Text → ℕ
unfolding trim_space has_prefix split_at has_text
table_row_column_count line =
    let row = trim_space line in
    if has_prefix (pipe ∷ []) row
    then length (drop_blank (reverse (drop_blank (split_at pipe row))))
    else 0

unfoldable pub first_row_count : Patterns → List Text → ℕ
unfolding table_row_column_count
first_row_count ps [] = 0
first_row_count ps (line ∷ lines) =
    let rest = first_row_count ps lines in
    let row = trim_space line in
    if not (length row == 0) && ps.table_row row then table_row_column_count row else rest

-- firstTableRowColumnCount.
unfoldable pub first_table_row_column_count : Patterns → Text → ℕ
unfolding first_row_count
first_table_row_column_count ps text = first_row_count ps (split_at 10 text)

unfoldable pub header_count : List Text → ℕ
unfolding table_row_column_count contains
header_count [] = 0
header_count (line ∷ lines) =
    let rest = header_count lines in
    let row = trim_space line in
    if (length row == 0) || contains dashes row
    then rest
    else if table_row_column_count row == 0
    then rest
    else table_row_column_count row

-- headerTableColumnCount.
unfoldable pub header_table_column_count : Text → ℕ
unfolding header_count
header_table_column_count header = header_count (split_at 10 header)

-- Both counts are known and differ.
abbrev counts_differ : ℕ → ℕ → Bool
counts_differ a b = ltb 0 a && (ltb 0 b && not (a == b))

-- headerColumnMismatch.
unfoldable pub header_column_mismatch : Patterns → Text → Text → Bool
unfolding header_table_column_count first_table_row_column_count
header_column_mismatch ps headers next_unit =
    counts_differ (header_table_column_count headers) (first_table_row_column_count ps next_unit)

abbrev only_pipes : Text → Bool
only_pipes [] = true
only_pipes (r ∷ rs) = ((r == pipe) || ((r == 32) || (r == 9))) && only_pipes rs

unfoldable pub column_row : List Text → Text
unfolding trim_space contains
column_row [] = []
column_row (line ∷ lines) =
    let rest = column_row lines in
    let row = trim_space line in
    if (length row == 0) || contains dashes row then rest else if only_pipes row then rest else row

-- headerColumnRow.
unfoldable pub header_column_row : Text → Text
unfolding column_row split_at
header_column_row header = column_row (split_at 10 header)

-- headerAlreadyPresent.
unfoldable pub header_already_present : Text → Text → Text → Bool
unfolding contains header_column_row
header_already_present headers overlap_text unit_text =
    let col_row = header_column_row headers in
    if contains headers overlap_text || contains headers unit_text
    then true
    else if length col_row == 0
    then false
    else contains col_row overlap_text || contains col_row unit_text

abbrev before_newline : Text → Option Text
before_newline [] = none
before_newline (r ∷ rs) =
    let rest = before_newline rs in
    if r == 10 then some [] else elim rest [ none ↦ none | some line ↦ some (r ∷ line) ]

abbrev all_pipes : Option Text → Bool
all_pipes none = false
all_pipes (some line) = only_pipes (trim_space line)

-- isEmptyTableHeaderRow.
unfoldable pub is_empty_table_header_row : Text → Bool
unfolding trim_space
is_empty_table_header_row header = all_pipes (before_newline header)

unfoldable pub separator_of : List Text → Text
unfolding contains
separator_of [] = []
separator_of (line ∷ lines) =
    let rest = separator_of lines in if contains dashes line then line ++ 10 ∷ [] else rest

-- extractSeparatorLine.
unfoldable pub extract_separator_line : Text → Text
unfolding separator_of split_at
extract_separator_line header = separator_of (split_at 10 header)

abbrev trim_blank : Text → Text
trim_blank [] = []
trim_blank (r ∷ rs) =
    let rest = trim_blank rs in if (r == 32) || ((r == 9) || (r == 13)) then rest else r ∷ rs

-- splitEndsWithParagraphBreak; the text is read from its end.
unfoldable pub split_ends_with_paragraph_break : Text → Bool
unfolding has_prefix
split_ends_with_paragraph_break split =
    let trimmed = trim_blank (reverse split) in
    has_prefix (10 ∷ 10 ∷ []) trimmed || has_prefix (10 ∷ 13 ∷ 10 ∷ 13 ∷ []) trimmed

-- clearTableHeader.
unfoldable pub clear_table_header : HeaderTracker → HeaderTracker
clear_table_header ht = record ht { active_header = none; ended = true; pending_extend = false }

abbrev pub is_active : Option Text → Bool
is_active none = false
is_active (some header) = true

abbrev note_end : Bool → HeaderTracker → HeaderTracker
note_end ended ht = record ht { header_ended_this_unit = ended }

-- The table break that is pending: the next unit starts a new table, or ends the old one.
unfoldable pub resolve_break : Patterns → Text → HeaderTracker → HeaderTracker
unfolding clear_table_header first_table_row_column_count
resolve_break ps split ht =
    if ht.pending_table_break
    then if is_active ht.active_header
      then note_end (ltb 0 (first_table_row_column_count ps split))
          (clear_table_header (record ht { pending_table_break = false }))
      else record ht { pending_table_break = false }
    else ht

-- Step 1 of update: the end pattern.
unfoldable pub end_header : Patterns → Text → HeaderTracker → HeaderTracker
unfolding clear_table_header
end_header ps split ht =
    if is_active ht.active_header && ps.header_end split then clear_table_header ht else ht

unfoldable pub end_on_mismatch : Patterns → Text → Option Text → HeaderTracker → HeaderTracker
unfolding clear_table_header header_column_mismatch
end_on_mismatch ps split none ht = ht
end_on_mismatch ps split (some header) ht =
    if header_column_mismatch ps header split then note_end true (clear_table_header ht) else ht

-- Step 1b.
unfoldable pub mark_break : Patterns → Text → HeaderTracker → HeaderTracker
unfolding end_on_mismatch split_ends_with_paragraph_break
mark_break ps split ht =
    if is_active ht.active_header && not ht.pending_extend
    then if split_ends_with_paragraph_break split
      then record ht { pending_table_break = true }
      else end_on_mismatch ps split ht.active_header ht
    else ht

abbrev extended : Text → Option Text → Option Text
extended split none = none
extended split (some header) = some (split ++ extract_separator_line header)

-- Step 2.
unfoldable pub extend_header : Patterns → Text → HeaderTracker → HeaderTracker
unfolding extract_separator_line
extend_header ps split ht =
    if ht.pending_extend
    then record ht {
      active_header =
          if ps.table_row split then extended split ht.active_header else ht.active_header;
      pending_extend = false;
    }
    else ht

abbrev started : HeaderTracker → Option Text → HeaderTracker
started ht none = ht
started ht (some header) = record ht {
  active_header = some header;
  pending_extend = ht.pending_extend || is_empty_table_header_row header;
}

-- Step 3.
unfoldable pub start_header : Patterns → Text → HeaderTracker → HeaderTracker
unfolding is_empty_table_header_row
start_header ps split ht =
    if is_active ht.active_header || ht.ended then ht else started ht (ps.header_start split)

-- Step 4.
unfoldable pub clear_ended : HeaderTracker → HeaderTracker
clear_ended ht = if is_active ht.active_header then ht else record ht { ended = false }

-- update.
unfoldable pub update : Patterns → Text → HeaderTracker → HeaderTracker
unfolding resolve_break end_header mark_break extend_header start_header clear_ended
update ps split ht = clear_ended (
    start_header ps split (
      extend_header ps split (
        mark_break ps split (
          end_header ps split
            (resolve_break ps split (record ht { header_ended_this_unit = false }))))))

abbrev header_text : Option Text → Text
header_text none = []
header_text (some header) = header

-- getHeaders.
unfoldable pub get_headers : HeaderTracker → Text
get_headers ht = header_text ht.active_header
