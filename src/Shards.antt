-- ===== src/Shards.antt =====
-- internal/pipeline/splitter.go: how the splitter cuts a document of `page_count` pages into shards.
-- Page numbers and counts are Go ints that the callers keep non-negative, here native numbers.
pub mod Tiling
pub mod Ranges
pub mod Outline
pub mod Chapters
mod Samples
use Prim.Native.String.{String}
use text.Mathlib.Text.{◌==◌ as str_eq}
use lybrix.Base.{
  ℕ, zero, suc, ◌+◌, ◌-◌, min, max, Bool, true, false, not, ◌||◌, Option, none, some, List, [], ◌∷◌,
  ◌++◌, ltb, leb, ◌==◌, if◌then◌else◌, any_of,
}
use lybrix.Base.Results.{Result, ok, err, ◌>>=◌}

-- 1-based inclusive page range of one shard.
pub record ShardBound : Type 0 where
  pub idx : ℕ
  pub page_start : ℕ
  pub page_end : ℕ

pub record Bookmark : Type 0 where
  pub page : ℕ
  pub title : String

-- `out_of_fuel` is no error of the code.
pub data BoundsError : Type 0 where
  bad_page_count bad_shard_pages out_of_fuel : BoundsError

abbrev pub window_end : ℕ → ℕ → ℕ → ℕ
window_end page_count shard_pages start =
    let last = start + shard_pages - 1 in if ltb page_count last then page_count else last

-- The next start, with the guard against a start that does not advance.
abbrev pub next_start : ℕ → ℕ → ℕ → ℕ → ℕ
next_start page_count overlap start last =
    let next = if ltb last page_count then last + 1 - overlap else last + 1 in
    if leb next start then (if ltb last page_count then start + 1 else next) else next

-- The loop of FixedBounds from `start` on, on fuel.
pub fixed_loop : ℕ → ℕ → ℕ → ℕ → ℕ → ℕ → Result BoundsError (List ShardBound)
fixed_loop zero page_count shard_pages overlap start idx = err out_of_fuel
fixed_loop (suc fuel) page_count shard_pages overlap start idx =
    let last = window_end page_count shard_pages start in
    let rest =
      fixed_loop fuel page_count shard_pages overlap (next_start page_count overlap start last)
        (idx + 1) in
    let grown = (do
      bounds ← rest
      ok (record { idx = idx; page_start = start; page_end = last } ∷ bounds)) in
    if leb start page_count then grown else ok []

-- FixedBounds, with one round more than pages.
unfoldable pub fixed_bounds : ℕ → ℕ → ℕ → Result BoundsError (List ShardBound)
unfolding fixed_loop
fixed_bounds page_count shard_pages overlap =
    if ltb page_count 1
    then err bad_page_count
    else if ltb shard_pages 1
    then err bad_shard_pages
    else fixed_loop (page_count + 1) page_count shard_pages overlap 1 0

-- `if _, ok := clean[p]; !ok || title != ""` keeps the first title unless a later one is not empty.
pub note_page : ℕ → String → List (ℕ × String) → List (ℕ × String)
note_page page title [] = (page, title) ∷ []
note_page page title ((p, old) ∷ clean) =
    let rest = note_page page title clean in
    if p == page then (p, if str_eq title "" then old else title) ∷ clean else (p, old) ∷ rest

abbrev pub clamp_page : ℕ → ℕ → ℕ
clamp_page page_count page =
    let p = if ltb page 1 then 1 else page in if ltb page_count p then page_count else p

pub clean_outline : ℕ → List Bookmark → List (ℕ × String) → List (ℕ × String)
unfolding note_page
clean_outline page_count [] clean = clean
clean_outline page_count (bm ∷ outline) clean =
    clean_outline page_count outline (note_page (clamp_page page_count bm.page) bm.title clean)

-- The keys of the cleaned outline in ascending order, as sort.Ints leaves them.
pub insert_sorted : ℕ → List ℕ → List ℕ
insert_sorted p [] = p ∷ []
insert_sorted p (q ∷ qs) = let rest = insert_sorted p qs in if leb p q then p ∷ q ∷ qs else q ∷ rest

pub sorted_pages : List (ℕ × String) → List ℕ
unfolding insert_sorted
sorted_pages [] = []
sorted_pages ((p, title) ∷ clean) = insert_sorted p (sorted_pages clean)

-- The bounds appended so far, and the next idx.
pub record Partial : Type 0 where
  pub bounds : List ShardBound
  pub next_idx : ℕ

-- Appends windows of the range that begins at `prev_start`, renumbered and moved into place.
pub append_shifted : ℕ → List ShardBound → Partial → Partial
append_shifted prev_start [] acc = acc
append_shifted prev_start (b ∷ bs) acc = append_shifted prev_start bs (record {
  bounds =
      acc.bounds
      ++ record {
        idx = acc.next_idx;
        page_start = b.page_start + prev_start - 1;
        page_end = b.page_end + prev_start - 1;
      }
        ∷ [];
  next_idx = acc.next_idx + 1;
})

-- Shards `span` pages from `prev_start` on with fixed windows that do not overlap.
pub append_range : ℕ → ℕ → ℕ → Partial → Result BoundsError Partial
unfolding append_shifted
append_range shard_pages span prev_start acc = do
  fb ← fixed_bounds span shard_pages 0
  ok (append_shifted prev_start fb acc)

pub chapter_step : ℕ → ℕ → ℕ → Partial → Result BoundsError Partial
unfolding append_range
chapter_step shard_pages page prev_start acc =
    if ltb prev_start page
    then append_range shard_pages (page - prev_start) prev_start acc
    else ok acc

-- The loop over the bookmarked pages, then the rest of the document.
pub chapter_loop : ℕ → ℕ → List ℕ → ℕ → Partial → Result BoundsError Partial
unfolding chapter_step
chapter_loop page_count shard_pages [] prev_start acc =
    if leb prev_start page_count
    then append_range shard_pages (page_count - prev_start + 1) prev_start acc
    else ok acc
chapter_loop page_count shard_pages (page ∷ pages) prev_start acc = do
  acc' ← chapter_step shard_pages page prev_start acc
  chapter_loop page_count shard_pages pages page acc'

abbrev pub is_empty {ℓ} : {A : Type ℓ} → List A → Bool
is_empty [] = true
is_empty (x ∷ xs) = false

abbrev pub is_degenerate : List ShardBound → Bool
is_degenerate bounds = is_empty bounds || any_of (λ b. ltb b.page_end b.page_start) bounds

unfoldable pub chapter_aligned_bounds : List Bookmark → ℕ → ℕ → Result BoundsError (List ShardBound)
unfolding chapter_loop clean_outline sorted_pages fixed_bounds
chapter_aligned_bounds outline page_count shard_pages =
    let pages_each = if ltb shard_pages 1 then 1 else shard_pages in
    let pages = sorted_pages (clean_outline page_count outline []) in
    do
      acc ← chapter_loop page_count pages_each pages 1 (record { bounds = []; next_idx = 0 })
      (if is_degenerate acc.bounds then fixed_bounds page_count pages_each 1 else ok acc.bounds)
