-- ===== src/Chunker/Profile.antt =====
-- internal/chunker/profiler.go: the counts of a document's lines, and the chain of tiers that they
-- choose. The regular expressions on a line are a parameter; the averages in floating point and the
-- languages, which choose no tier, are left out.
use mathlib.Core.List.{reverse}
use lybrix.Base.{
  ℕ, zero, suc, ◌+◌, ◌*◌, Bool, true, false, not, ◌&&◌, ◌||◌, Option, none, some, List, [], ◌∷◌,
  ◌++◌, ltb, leb, ◌==◌, if◌then◌else◌, length, count_if,
}
use lybrix.Chunker.Runes.{Text, has_prefix, trim_space, split_at}

-- What the regular expressions find in a line: the number of hashes and the text of a heading, and
-- the kinds of markers; and, in a text, where the runs of three newlines or more end.
pub record LinePatterns : Type 0 where
  pub heading : Text → Option (ℕ × Text)
  pub numbered : Text → Bool
  pub german : Text → Bool
  pub english : Text → Bool
  pub chinese : Text → Bool
  pub all_caps : Text → Bool
  pub visual_separator : Text → Bool
  pub page_footer : Text → Bool
  pub blank_run_ends : Text → List ℕ

-- DocProfile, as far as it chooses tiers; a level's count is 0 where the map has no entry.
pub record DocProfile : Type 0 where
  pub total_lines : ℕ
  pub md_heading_counts : ℕ → ℕ
  pub md_heading_total : ℕ
  pub numbered_section_count : ℕ
  pub all_caps_short_line_count : ℕ
  pub form_feed_count : ℕ
  pub visual_sep_count : ℕ
  pub german_chapter_count : ℕ
  pub english_chapter_count : ℕ
  pub chinese_chapter_count : ℕ
  pub repeated_footer_count : ℕ
  pub has_tables : Bool
  pub has_code : Bool

abbrev pub empty_profile : DocProfile
empty_profile = record {
  total_lines = 0;
  md_heading_counts = λ level. 0;
  md_heading_total = 0;
  numbered_section_count = 0;
  all_caps_short_line_count = 0;
  form_feed_count = 0;
  visual_sep_count = 0;
  german_chapter_count = 0;
  english_chapter_count = 0;
  chinese_chapter_count = 0;
  repeated_footer_count = 0;
  has_tables = false;
  has_code = false;
}

-- Three backticks.
abbrev pub fence : Text
fence = 96 ∷ 96 ∷ 96 ∷ []

unfoldable pub is_fence : Text → Bool
unfolding has_prefix trim_space
is_fence line = has_prefix fence (trim_space line)

abbrev pub is_level : ℕ → Bool
is_level level = leb 1 level && leb level 6

-- The level of a heading line, or 0.
abbrev pub level_of : Option (ℕ × Text) → ℕ
level_of none = 0
level_of (some (level, heading)) = if is_level level then level else 0

abbrev add_if : Bool → ℕ → ℕ
add_if b n = if b then suc n else n

abbrev add_level : ℕ → (ℕ → ℕ) → ℕ → ℕ
add_level level counts l = if l == level then suc (counts l) else counts l

abbrev ends_with_pipe : Text → Bool
ends_with_pipe line = has_prefix (124 ∷ []) (reverse line)

-- A line outside of a fence.
unfoldable pub profile_line : LinePatterns → Text → DocProfile → DocProfile
unfolding has_prefix trim_space
profile_line lp line p =
    let level = level_of (lp.heading line) in
    if ltb 0 level
    then record p {
      md_heading_counts = add_level level p.md_heading_counts;
      md_heading_total = suc p.md_heading_total;
    }
    else record p {
      numbered_section_count = add_if (lp.numbered line) p.numbered_section_count;
      german_chapter_count = add_if (lp.german line) p.german_chapter_count;
      english_chapter_count = add_if (lp.english line) p.english_chapter_count;
      chinese_chapter_count = add_if (lp.chinese line) p.chinese_chapter_count;
      all_caps_short_line_count = add_if (lp.all_caps line) p.all_caps_short_line_count;
      visual_sep_count = add_if (lp.visual_separator line) p.visual_sep_count;
      repeated_footer_count = add_if (lp.page_footer line) p.repeated_footer_count;
      has_tables =
          p.has_tables
          || (has_prefix (124 ∷ []) (trim_space line) && ends_with_pipe (trim_space line));
    }

unfoldable pub profile_lines : LinePatterns → Bool → List Text → DocProfile → DocProfile
unfolding profile_line is_fence
profile_lines lp in_fence [] p = p
profile_lines lp in_fence (line ∷ lines) p =
    let turned = profile_lines lp (not in_fence) lines (record p { has_code = true }) in
    let passed = profile_lines lp in_fence lines p in
    let counted = profile_lines lp in_fence lines (profile_line lp line p) in
    if is_fence line then turned else if in_fence then passed else counted

-- ProfileDocument.
unfoldable pub profile_document : LinePatterns → Text → DocProfile
unfolding profile_lines split_at
profile_document lp text =
    let lines = split_at 10 text in
    if length text == 0
    then empty_profile
    else profile_lines lp false lines (record empty_profile {
      total_lines = length lines;
      form_feed_count = count_if (λ r. r == 12) text;
    })

-- The first level at which the count passes, from `level` on, or 0; `n` levels are left.
abbrev first_level : ℕ → (ℕ → Bool) → ℕ → ℕ
first_level zero passes level = 0
first_level (suc n) passes level =
    let rest = first_level n passes (level + 1) in if passes level then level else rest

-- The last level, from n down, at which the count passes.
abbrev last_level : (ℕ → Bool) → ℕ → ℕ
last_level passes zero = 0
last_level passes (suc n) = let rest = last_level passes n in if passes (suc n) then suc n else rest

-- DominantHeadingLevel.
unfoldable pub dominant_heading_level : DocProfile → ℕ
dominant_heading_level p =
    let real = first_level 6 (λ level. leb 3 (p.md_heading_counts level)) 1 in
    if p.md_heading_total == 0
    then 0
    else if ltb 0 real
    then real
    else last_level (λ level. ltb 0 (p.md_heading_counts level)) 6

-- HeuristicMarkerTotal.
unfoldable pub heuristic_marker_total : DocProfile → ℕ
heuristic_marker_total p =
    p.numbered_section_count + p.german_chapter_count + p.english_chapter_count
    + p.chinese_chapter_count + p.all_caps_short_line_count + p.visual_sep_count + p.form_feed_count

-- StrategyTier.
pub data StrategyTier : Type 0 where
  heading heuristic legacy : StrategyTier

-- `HeadingDensity() > 0.005`, without the division.
abbrev is_dense : DocProfile → Bool
is_dense p = ltb p.total_lines (200 * p.md_heading_total) && ltb 0 p.total_lines

abbrev has_backbone : DocProfile → Bool
has_backbone p = leb 3 p.md_heading_total && (is_dense p && ltb 0 (dominant_heading_level p))

abbrev has_markers : DocProfile → Bool
has_markers p =
    leb 5 (heuristic_marker_total p)
    || (ltb 0 p.form_feed_count
        || ltb 0 (p.german_chapter_count + p.english_chapter_count + p.chinese_chapter_count))

-- SelectStrategy.
unfoldable pub select_strategy : DocProfile → List StrategyTier
unfolding dominant_heading_level heuristic_marker_total
select_strategy p =
    (if has_backbone p then heading ∷ [] else [])
    ++ ((if has_markers p then heuristic ∷ [] else []) ++ legacy ∷ [])
