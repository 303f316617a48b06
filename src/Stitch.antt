-- ===== src/Stitch.antt =====
-- internal/pipeline/stitch.go: the markdown of a document out of that of its shards, and the page of
-- each line. A text is the list of its runes. What a JSON payload has as its markdown is a parameter; a
-- shard's last page is not before its first.
pub mod Pages
pub mod Ordered
pub mod Mapped
mod Samples
use mathlib.Core.List.{reverse}
use lybrix.Base.{
  ℕ, zero, suc, ◌+◌, ◌-◌, ◌*◌, ◌/◌, Bool, true, false, not, ◌&&◌, ◌||◌, Option, none, some, List,
  [], ◌∷◌, ◌++◌, ltb, leb, ◌==◌, if◌then◌else◌, length, take, drop, count_if,
}
use lybrix.Chunker.Runes.{Text, has_text, has_prefix, trim_space, split_at}
use lybrix.Chunker.Hierarchy.{same_text, join_lines}

-- StitchedDoc.
pub record StitchedDoc : Type 0 where
  pub markdown : Text
  pub pages : List ℕ

-- normalizeMarkdown; `payload` gives the markdown of a JSON object that has one.
unfoldable pub normalize_markdown : (Text → Option Text) → Text → Text
unfolding has_prefix trim_space
normalize_markdown payload text =
    if has_prefix (123 ∷ []) (trim_space text)
    then elim (payload (trim_space text)) [ none ↦ text | some markdown ↦ markdown ]
    else text

-- `strings.TrimSuffix(md, "\n")`.
unfoldable pub trim_newline : Text → Text
trim_newline [] = []
trim_newline (r ∷ []) = if r == 10 then [] else r ∷ []
trim_newline (r ∷ q ∷ rs) = r ∷ trim_newline (q ∷ rs)

-- firstHeading.
unfoldable pub first_heading : List Text → Option Text
unfolding has_prefix trim_space
first_heading [] = none
first_heading (line ∷ lines) =
    let rest = first_heading lines in
    if has_prefix (35 ∷ []) (trim_space line) then some (trim_space line) else rest

-- lastHeading.
unfoldable pub last_heading : List Text → Option Text
unfolding first_heading
last_heading lines = first_heading (reverse lines)

abbrev pub same_heading : Option Text → Option Text → Bool
same_heading none b = false
same_heading (some s) none = false
same_heading (some s) (some t) = same_text s t

unfoldable pub drop_blank_lines : List Text → List Text
unfolding has_text
drop_blank_lines [] = []
drop_blank_lines (line ∷ lines) =
    let rest = drop_blank_lines lines in if has_text line then line ∷ lines else rest

abbrev has_lines : List Text → Bool
has_lines [] = false
has_lines (line ∷ lines) = true

-- The lines of a shard, without its first one where its heading repeats the last heading so far.
unfoldable pub without_repeat : List Text → List Text → List Text
unfolding first_heading last_heading drop_blank_lines has_prefix
without_repeat lines doc_lines =
    if has_lines lines
      && (has_lines doc_lines && same_heading (first_heading doc_lines) (last_heading lines))
    then drop_blank_lines (drop 1 doc_lines)
    else doc_lines

-- The page of each line of a shard, from the line `at` on.
unfoldable pub pages_from : ℕ → ℕ → ℕ → ℕ → List Text → List ℕ
pages_from page_start span n at [] = []
pages_from page_start span n at (line ∷ lines) =
    (page_start + (at * span) / n) ∷ pages_from page_start span n (at + 1) lines

abbrev pub shard_range : ℕ → List (ℕ × (ℕ × ℕ)) → Option (ℕ × ℕ)
shard_range idx [] = none
shard_range idx ((i, pages) ∷ ranges) =
    let later = shard_range idx ranges in if i == idx then some pages else later

abbrev pub pages_in : Option (ℕ × ℕ) → List Text → List ℕ
pages_in none lines = []
pages_in (some (page_start, page_end)) lines =
    pages_from page_start (page_end + 1 - page_start) (length lines) 0 lines

-- The lines so far and their pages.
pub record Stitching : Type 0 where
  pub lines : List Text
  pub page_of_line : List ℕ

-- A shard with text.
unfoldable pub add_shard : Option (ℕ × ℕ) → Text → Stitching → Stitching
unfolding without_repeat pages_from trim_newline split_at
add_shard range md s =
    let doc_lines = without_repeat s.lines (split_at 10 (trim_newline md)) in
    record {
      lines = s.lines ++ doc_lines;
      page_of_line = s.page_of_line ++ pages_in range doc_lines;
    }

-- The loop over the shards, in their order.
unfoldable pub stitch_loop :
    (Text → Option Text) → List (ℕ × (ℕ × ℕ)) → List (ℕ × Text) → Stitching → Stitching
unfolding add_shard normalize_markdown
stitch_loop payload ranges [] s = s
stitch_loop payload ranges ((idx, text) ∷ docs) s =
    let md = normalize_markdown payload text in
    stitch_loop payload ranges docs
      (if length md == 0 then s else add_shard (shard_range idx ranges) md s)

-- sort.Ints on the keys of the map, which are distinct.
unfoldable pub insert_doc : ℕ × Text → List (ℕ × Text) → List (ℕ × Text)
insert_doc (i, t) [] = (i, t) ∷ []
insert_doc (i, t) ((j, u) ∷ docs) =
    let rest = insert_doc (i, t) docs in if leb i j then (i, t) ∷ (j, u) ∷ docs else (j, u) ∷ rest

unfoldable pub sort_docs : List (ℕ × Text) → List (ℕ × Text)
unfolding insert_doc
sort_docs [] = []
sort_docs (doc ∷ docs) = insert_doc doc (sort_docs docs)

-- The number of blank lines at the front.
unfoldable pub blank_lead : List Text → ℕ
unfolding has_text
blank_lead [] = 0
blank_lead (line ∷ lines) = let rest = blank_lead lines in if has_text line then 0 else suc rest

-- The pages without the first or the last ones, and the number of lines that are left, if there are
-- that many pages.
abbrev pub cut_lead : ℕ → List ℕ × ℕ → List ℕ × ℕ
cut_lead n (pages, emitted) =
    if ltb 0 n && leb n (length pages) then (drop n pages, emitted - n) else (pages, emitted)

abbrev pub cut_trail : ℕ → List ℕ × ℕ → List ℕ × ℕ
cut_trail n (pages, emitted) =
    if ltb 0 n && leb n (length pages)
    then (take (length pages - n) pages, emitted - n)
    else (pages, emitted)

abbrev pub newline_count : Text → ℕ
newline_count = count_if (λ r. r == 10)

-- alignPages; no pages is nil.
unfoldable pub align_pages : Text → List ℕ → List Text → List ℕ
unfolding blank_lead
align_pages markdown page_of_line lines =
    let lead = blank_lead lines in
    let trail = blank_lead (take (length lines - lead) (reverse lines)) in
    let (pages, emitted) = cut_trail trail (cut_lead lead (page_of_line, length lines)) in
    if length page_of_line == 0
    then []
    else if not (length pages == emitted) || not (length pages == newline_count markdown)
    then []
    else pages

-- Stitch.
unfoldable pub stitch : (Text → Option Text) → List (ℕ × Text) → List (ℕ × (ℕ × ℕ)) → StitchedDoc
unfolding stitch_loop sort_docs align_pages trim_space
stitch payload docs ranges =
    let s =
      stitch_loop payload ranges (sort_docs docs) (record { lines = []; page_of_line = [] }) in
    let md = trim_space (join_lines s.lines) ++ 10 ∷ [] in
    record { markdown = md; pages = align_pages md s.page_of_line s.lines }
