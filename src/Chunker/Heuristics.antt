-- ===== src/Chunker/Heuristics.antt =====
-- internal/chunker/heuristic_splitter.go: the tier that splits at structural markers.
pub mod Within
pub mod Slices
use Prim.Native.String.{String}
use text.Mathlib.Text.{◌==◌ as str_eq}
use lybrix.Base.{
  ℕ, zero, suc, ◌+◌, ◌-◌, ◌*◌, ◌/◌, Bool, true, false, not, ◌&&◌, ◌||◌, Option, none, some, List,
  [], ◌∷◌, ◌++◌, ltb, leb, ◌==◌, if◌then◌else◌, length, map, any_of, get_elem?, max,
}
use lybrix.Chunker.Runes.{Text, has_text, split_at}
use lybrix.Chunker.Units.{Patterns, Chunk}
use lybrix.Chunker.Spans.{protected_spans, inside_span}
use lybrix.Chunker.Cuts.{slice}
use lybrix.Chunker.Splitter.{SplitterConfig, split_text}
use lybrix.Chunker.Profile.{LinePatterns, is_fence}

-- boundary.
pub record Marker : Type 0 where
  pub rune_start : ℕ
  pub priority : ℕ

abbrev pub marker : ℕ → ℕ → Marker
marker pos priority = record { rune_start = pos; priority = priority }

-- ChapterPatternsForLangs: whether one of the patterns for the languages matches; a list that names
-- no known language stands for all of them.
abbrev is_known : String → Bool
is_known lang = str_eq lang "de" || (str_eq lang "en" || str_eq lang "zh")

abbrev matches_lang : LinePatterns → Text → String → Bool
matches_lang lp line lang =
    (str_eq lang "de" && lp.german line)
    || ((str_eq lang "en" && lp.english line) || (str_eq lang "zh" && lp.chinese line))

unfoldable pub is_chapter : LinePatterns → List String → Text → Bool
is_chapter lp langs line =
    if any_of is_known langs
    then any_of (matches_lang lp line) langs
    else lp.german line || (lp.english line || lp.chinese line)

-- The priority of the first kind of marker that the line is.
unfoldable pub line_priority : LinePatterns → List String → Text → Option ℕ
unfolding is_chapter
line_priority lp langs line =
    if is_chapter lp langs line
    then some 85
    else if lp.numbered line
    then some 90
    else if lp.all_caps line
    then some 70
    else if lp.visual_separator line
    then some 60
    else if lp.page_footer line
    then some 50
    else none

abbrev pub add_marker : ℕ → Option ℕ → List Marker → List Marker
add_marker pos none markers = markers
add_marker pos (some priority) markers = marker pos priority ∷ markers

-- The loop over the lines, each of which but the last has its newline behind it.
unfoldable pub line_markers : LinePatterns → List String → ℕ → Bool → List Text → List Marker
unfolding line_priority is_fence
line_markers lp langs pos in_fence [] = []
line_markers lp langs pos in_fence (line ∷ lines) =
    let rest =
      line_markers lp langs (pos + length line + 1)
        (if is_fence line then not in_fence else in_fence) lines in
    add_marker pos (if is_fence line || in_fence then none else line_priority lp langs line) rest

-- allRuneIndices of the form feed.
unfoldable pub form_feeds : ℕ → Text → List Marker
form_feeds pos [] = []
form_feeds pos (r ∷ rs) =
    let rest = form_feeds (pos + 1) rs in if r == 12 then marker pos 100 ∷ rest else rest

abbrev pub stands_before : Marker → Marker → Bool
stands_before a b =
    ltb a.rune_start b.rune_start || ((a.rune_start == b.rune_start) && leb b.priority a.priority)

-- sort.Slice; markers that are equal in both fields are the same.
unfoldable pub insert_marker : Marker → List Marker → List Marker
insert_marker m [] = m ∷ []
insert_marker m (n ∷ markers) =
    let later = insert_marker m markers in if stands_before m n then m ∷ n ∷ markers else n ∷ later

unfoldable pub sort_markers : List Marker → List Marker
unfolding insert_marker
sort_markers [] = []
sort_markers (m ∷ markers) = insert_marker m (sort_markers markers)

-- Keeps the first marker at each offset.
unfoldable pub dedup_markers : Option ℕ → List Marker → List Marker
dedup_markers prev [] = []
dedup_markers prev (m ∷ markers) =
    let same = dedup_markers prev markers in
    let other = dedup_markers (some m.rune_start) markers in
    if elim prev [ none ↦ false | some p ↦ p == m.rune_start ] then same else m ∷ other

abbrev pub blank_markers : List ℕ → List Marker
blank_markers = map (λ end. marker end 40)

-- findHeuristicBoundaries.
unfoldable pub find_heuristic_boundaries : LinePatterns → List String → Text → List Marker
unfolding form_feeds line_markers sort_markers dedup_markers split_at
find_heuristic_boundaries lp langs text = dedup_markers none (
    sort_markers (
      form_feeds 0 text
      ++ (line_markers lp langs 0 false (split_at 10 text)
          ++ blank_markers (lp.blank_run_ends text))))

-- dropBoundsInsideSpans, on spans in order.
unfoldable pub drop_bounds_inside_spans : List (ℕ × ℕ) → List Marker → List Marker
unfolding inside_span
drop_bounds_inside_spans spans [] = []
drop_bounds_inside_spans spans (m ∷ markers) =
    let rest = drop_bounds_inside_spans spans markers in
    if inside_span spans m.rune_start then rest else m ∷ rest

-- The variables of the packing loop; the chunks are numbered as they come.
pub record Packing : Type 0 where
  pub out : List Chunk
  pub chunk_start : ℕ
  pub cur_end : ℕ

-- appendChunk.
unfoldable pub append_chunk : Text → ℕ → ℕ → List Chunk → List Chunk
unfolding slice has_text
append_chunk runes start end out =
    if ltb start end && has_text (slice runes start end)
    then out
      ++ record {
        content = slice runes start end;
        context_header = [];
        seq = length out;
        start = start;
        end = end;
        page_start = none;
        page_end = none;
        synthetic_prefix_runes = 0;
      }
        ∷ []
    else out

-- A chunk of a part of the text, in the text.
abbrev pub shifted : ℕ → ℕ → Chunk → Chunk
shifted start seq c = record c { seq = seq; start = start + c.start; end = start + c.end }

abbrev pub shift_all : ℕ → ℕ → List Chunk → List Chunk
shift_all start seq [] = []
shift_all start seq (c ∷ chunks) = shifted start seq c ∷ shift_all start (seq + 1) chunks

-- The last boundary in the window before the offset, or none.
abbrev best_bound : ℕ → ℕ → List Marker → Option ℕ → Option ℕ
best_bound window_start cur_end [] best = best
best_bound window_start cur_end (m ∷ bounds) best = best_bound window_start cur_end bounds (
    if leb window_start m.rune_start
      && (ltb m.rune_start cur_end && elim best [ none ↦ true | some b ↦ ltb b m.rune_start ])
    then some m.rune_start
    else best)

-- The place behind the last newline between the window's start and the target.
abbrev newline_before : Text → ℕ → ℕ → ℕ → ℕ
newline_before runes window_start target zero = target
newline_before runes window_start target (suc k) =
    let rest = newline_before runes window_start target k in
    if elim (get_elem? runes (window_start + suc k)) [ none ↦ false | some r ↦ r == 10 ]
    then window_start + suc k + 1
    else rest

abbrev aligned : Text → ℕ → ℕ → Option ℕ → ℕ
aligned runes window_start target (some bound) = bound
aligned runes window_start target none =
    if ltb target (length runes)
    then newline_before runes window_start target (target - window_start)
    else target

-- applyOverlapAligned; an offset below 0 is 0.
unfoldable pub apply_overlap_aligned : Text → ℕ → ℕ → List Marker → ℕ
apply_overlap_aligned runes cur_end overlap bounds =
    let target = cur_end - overlap in
    let window_start = cur_end - 2 * overlap in
    if overlap == 0
    then cur_end
    else aligned runes window_start target (best_bound window_start cur_end bounds none)

-- The first boundary is at 0.
abbrev pub from_zero : List Marker → List Marker
from_zero [] = []
from_zero (m ∷ bounds) = if m.rune_start == 0 then m ∷ bounds else marker 0 0 ∷ m ∷ bounds

abbrev pub no_markers : List Marker → Bool
no_markers [] = true
no_markers (m ∷ markers) = false

module _ (chars_for_token_limit : ℕ → String → ℕ) (ps : Patterns) where
  -- appendOversizeBlock.
  unfoldable pub append_oversize_block : Text → ℕ → ℕ → SplitterConfig → List Chunk → List Chunk
  unfolding split_text slice
  append_oversize_block runes start end cfg out =
      if ltb start end
      then out
        ++ shift_all start (length out)
            (split_text chars_for_token_limit ps (slice runes start end) cfg)
      else out

  -- One round of the packing loop.
  unfoldable pub pack_step : Text → SplitterConfig → List Marker → ℕ → Packing → Packing
  unfolding append_chunk append_oversize_block apply_overlap_aligned
  pack_step runes cfg bounds next_end p =
      let closed = append_chunk runes p.chunk_start p.cur_end p.out in
      if ltb cfg.chunk_size (next_end - p.cur_end)
      then record {
        out = append_oversize_block runes p.cur_end next_end cfg closed;
        chunk_start = next_end;
        cur_end = next_end;
      }
      else if ltb cfg.chunk_size (next_end - p.chunk_start)
          && leb (max (cfg.chunk_size / 4) 50) (p.cur_end - p.chunk_start)
      then record {
        out = closed;
        chunk_start = apply_overlap_aligned runes p.cur_end cfg.chunk_overlap bounds;
        cur_end = next_end;
      }
      else record p { cur_end = next_end }

  unfoldable pub pack_loop : Text → SplitterConfig → List Marker → List Marker → Packing → Packing
  unfolding pack_step
  pack_loop runes cfg bounds [] p = p
  pack_loop runes cfg bounds (m ∷ rest) p =
      pack_loop runes cfg bounds rest (pack_step runes cfg bounds m.rune_start p)

  -- The loop and its last chunk, from the first boundary on.
  unfoldable pub pack_all : Text → SplitterConfig → List Marker → List Chunk
  unfolding pack_loop append_chunk
  pack_all runes cfg [] = []
  pack_all runes cfg (m ∷ rest) =
      let p =
        pack_loop runes cfg (m ∷ rest) rest
          (record { out = []; chunk_start = m.rune_start; cur_end = m.rune_start }) in
      append_chunk runes p.chunk_start p.cur_end p.out

  -- splitByHeuristicsImpl.
  unfoldable pub split_by_heuristics : LinePatterns → Text → SplitterConfig → List Chunk
  unfolding pack_all find_heuristic_boundaries drop_bounds_inside_spans protected_spans
  split_by_heuristics lp text cfg =
      let bounds =
        drop_bounds_inside_spans (protected_spans ps text)
          (find_heuristic_boundaries lp cfg.languages text) in
      if length text == 0
      then []
      else if leb (length text) cfg.chunk_size || no_markers bounds
      then split_text chars_for_token_limit ps text cfg
      else pack_all text cfg (from_zero (bounds ++ marker (length text) 0 ∷ []))
