-- ===== src/Stitch/Ordered.antt =====
-- internal/pipeline/stitch.go: the pages of a document whose shards are in order.
use mathlib.Core.List.{reverse}
use lybrix.Base.{
  ℕ, ◌+◌, ◌-◌, ◌≤◌, inl, inr, Bool, true, false, ◌&&◌, Option, none, some, List, [], ◌∷◌, ◌++◌, ltb,
  leb, ◌==◌, if◌then◌else◌, length, take, arith, Bool-cases, All-append,
}
use lybrix.Chunker.Runes.{Text, split_at, trim_space}
use lybrix.Chunker.Hierarchy.{join_lines}
use lybrix.Stitch.{
  Stitching, without_repeat, trim_newline, shard_range, pages_in, add_shard, normalize_markdown,
  stitch_loop, sort_docs, blank_lead, cut_lead, cut_trail, align_pages, stitch,
}
use lybrix.Stitch.Pages.{
  Rising, UpTo, UpTo-le, Rising-append, Rising-drop, Rising-take, pages_from-Rising,
}

-- Each range starts where the one before ends or behind, and does not end before its start.
abbrev pub InOrder : ℕ → List (Option (ℕ × ℕ)) → Type 0
InOrder low [] = Unit
InOrder low (none ∷ ranges) = InOrder low ranges
InOrder low (some (page_start, page_end) ∷ ranges) =
    (low ≤ page_start) × (page_start ≤ page_end) × InOrder page_end ranges

-- The ranges of the shards, in the shards' order.
abbrev pub ranges_of : List (ℕ × (ℕ × ℕ)) → List (ℕ × Text) → List (Option (ℕ × ℕ))
ranges_of ranges [] = []
ranges_of ranges ((idx, text) ∷ docs) = shard_range idx ranges ∷ ranges_of ranges docs

abbrev high_of : ℕ → Option (ℕ × ℕ) → ℕ
high_of low none = low
high_of low (some (page_start, page_end)) = page_end

-- Pages that never fall, up to `high`.
abbrev Fills : ℕ → Stitching → Type 0
Fills high s = Rising 0 s.page_of_line × UpTo high s.page_of_line

InOrder-head :
    (low : ℕ) (range : Option (ℕ × ℕ)) (ranges : List (Option (ℕ × ℕ)))
    → InOrder low (range ∷ ranges)
    → (low ≤ high_of low range) × InOrder (high_of low range) ranges
InOrder-head low none ranges h = (omega arith, h)
InOrder-head low (some (page_start, page_end)) ranges (h, k, r) = (omega (arith, h, k), r)

pages_in-Fills :
    (low : ℕ) (range : Option (ℕ × ℕ)) (ranges : List (Option (ℕ × ℕ))) (lines : List Text)
    → InOrder low (range ∷ ranges)
    → Rising low (pages_in range lines) × UpTo (high_of low range) (pages_in range lines)
pages_in-Fills low none ranges lines h = (tt, tt)
pages_in-Fills low (some (page_start, page_end)) ranges lines (h, k, r) =
    let span = page_end + 1 - page_start in
    let pages =
      pages_from-Rising low page_start span (length lines) 0 lines (omega (arith, k)) (omega arith)
        (omega (arith, h)) in
    (
      pages.0,
      UpTo-le (page_start + span - 1) page_end (pages_in (some (page_start, page_end)) lines)
          (omega (arith, k)) pages.1,
    )

add_shard-Fills :
    (low : ℕ) (range : Option (ℕ × ℕ)) (ranges : List (Option (ℕ × ℕ))) (md : Text) (s : Stitching)
    → InOrder low (range ∷ ranges)
    → Fills low s
    → Fills (high_of low range) (add_shard range md s)
unfolding add_shard
add_shard-Fills low range ranges md s h (r, u) =
    let doc_lines = without_repeat s.lines (split_at 10 (trim_newline md)) in
    let added = pages_in-Fills low range ranges doc_lines h in
    let room = (InOrder-head low range ranges h).0 in
    (
      Rising-append 0 low s.page_of_line (pages_in range doc_lines) (omega arith) r u added.0,
      All-append (λ (p : ℕ). p ≤ high_of low range) s.page_of_line (pages_in range doc_lines)
          (UpTo-le low (high_of low range) s.page_of_line room u) added.1,
    )

shard_if-Fills :
    (low : ℕ) (range : Option (ℕ × ℕ)) (ranges : List (Option (ℕ × ℕ))) (md : Text) (s : Stitching)
    (empty : Bool)
    → InOrder low (range ∷ ranges)
    → Fills low s
    → Fills (high_of low range) (if empty then s else add_shard range md s)
shard_if-Fills low range ranges md s true h (r, u) =
    (r, UpTo-le low (high_of low range) s.page_of_line (InOrder-head low range ranges h).0 u)
shard_if-Fills low range ranges md s false h k = add_shard-Fills low range ranges md s h k

stitch_loop-Rising :
    (payload : Text → Option Text) (ranges : List (ℕ × (ℕ × ℕ))) (low : ℕ) (docs : List (ℕ × Text))
    (s : Stitching)
    → InOrder low (ranges_of ranges docs)
    → Fills low s
    → Rising 0 (stitch_loop payload ranges docs s).page_of_line
unfolding stitch_loop
stitch_loop-Rising payload ranges low [] s h k = k.0
stitch_loop-Rising payload ranges low ((idx, text) ∷ docs) s h k =
    let md = normalize_markdown payload text in
    let range = shard_range idx ranges in
    stitch_loop-Rising payload ranges (high_of low range) docs
      (if length md == 0 then s else add_shard range md s)
      (InOrder-head low range (ranges_of ranges docs) h).1
      (shard_if-Fills low range (ranges_of ranges docs) md s (length md == 0) h k)

cut_lead-Rising :
    (n : ℕ) (pages : List ℕ) (emitted : ℕ)
    → Rising 0 pages
    → Rising 0 (cut_lead n (pages, emitted)).0
cut_lead-Rising n pages emitted r = elim (Bool-cases (ltb 0 n && leb n (length pages))) [
  | inl cut ↦ rw cut (Rising-drop n 0 pages r)
  | inr all ↦ rw all r
]

cut_trail-Rising :
    (n : ℕ) (pages : List ℕ) (emitted : ℕ)
    → Rising 0 pages
    → Rising 0 (cut_trail n (pages, emitted)).0
cut_trail-Rising n pages emitted r = elim (Bool-cases (ltb 0 n && leb n (length pages))) [
  | inl cut ↦ rw cut (Rising-take (length pages - n) 0 pages r)
  | inr all ↦ rw all r
]

unless-Rising :
    (nothing refused : Bool) (pages : List ℕ)
    → Rising 0 pages
    → Rising 0 (if nothing then [] else if refused then [] else pages)
unless-Rising true refused pages r = tt
unless-Rising false true pages r = tt
unless-Rising false false pages r = r

align_pages-Rising :
    (markdown : Text) (page_of_line : List ℕ) (lines : List Text)
    → Rising 0 page_of_line
    → Rising 0 (align_pages markdown page_of_line lines)
unfolding align_pages
align_pages-Rising markdown page_of_line lines r =
    let lead = blank_lead lines in
    let trail = blank_lead (take (length lines - lead) (reverse lines)) in
    let led = cut_lead lead (page_of_line, length lines) in
    unless-Rising (length page_of_line == 0) _ _
      (cut_trail-Rising trail led.0 led.1 (cut_lead-Rising lead page_of_line (length lines) r))

-- If the ranges of the shards, in their order, start each where the one before ends or behind, the
-- pages of the lines never fall.
pub stitch-Rising :
    (payload : Text → Option Text) (docs : List (ℕ × Text)) (ranges : List (ℕ × (ℕ × ℕ)))
    → InOrder 0 (ranges_of ranges (sort_docs docs))
    → Rising 0 (stitch payload docs ranges).pages
unfolding stitch
stitch-Rising payload docs ranges h =
    let start : Stitching = record { lines = []; page_of_line = [] } in
    let s = stitch_loop payload ranges (sort_docs docs) start in
    align_pages-Rising (trim_space (join_lines s.lines) ++ 10 ∷ []) s.page_of_line s.lines
      (stitch_loop-Rising payload ranges 0 (sort_docs docs) start h (tt, tt))
