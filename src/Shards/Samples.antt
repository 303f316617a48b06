-- ===== src/Shards/Samples.antt =====
-- Runs of the splitter's bounds, and the theorems at a document of ten pages.
use lybrix.Base.{ℕ, false, ◌≡◌, refl, List, [], ◌∷◌, ◌++◌, arith, if◌then◌else◌, ltb}
use lybrix.Base.Results.{ok}
use lybrix.Shards.{
  ShardBound, Bookmark, fixed_bounds, clamp_page, is_degenerate, chapter_aligned_bounds,
}
use lybrix.Shards.Tiling.{Covers, fixed_bounds-Covers}
use lybrix.Shards.Ranges.{Starts}
use lybrix.Shards.Chapters.{chapter_aligned-Covers, chapter_aligned-Starts}

abbrev early : List Bookmark
early = record { page = 1; title = "Preface" } ∷ []

abbrev middle : Bookmark
middle = record { page = 6; title = "One" }

abbrev late : List Bookmark
late = record { page = 40; title = "Appendix" } ∷ []

abbrev bound : ℕ → ℕ → ℕ → ShardBound
bound idx page_start page_end = record { idx = idx; page_start = page_start; page_end = page_end }

overlapped : fixed_bounds 10 4 1 ≡ ok (bound 0 1 4 ∷ bound 1 4 7 ∷ bound 2 7 10 ∷ [])
unfolding fixed_bounds
overlapped = refl

chaptered :
    chapter_aligned_bounds (early ++ middle ∷ late) 10 4
    ≡ ok (bound 0 1 4 ∷ bound 1 5 5 ∷ bound 2 6 9 ∷ bound 3 10 10 ∷ [])
unfolding chapter_aligned_bounds
chaptered = refl

fixed_bounds-Covers_example :
    (bs : List ShardBound) × (fixed_bounds 10 4 1 ≡ ok bs) × Covers 4 1 0 0 0 10 bs
fixed_bounds-Covers_example = fixed_bounds-Covers 10 4 1 (omega arith) (omega arith)

chapter_aligned-Covers_example :
    (bs : List ShardBound) × (chapter_aligned_bounds (early ++ middle ∷ late) 10 4 ≡ ok bs)
    × (is_degenerate bs ≡ false)
    × Covers (if ltb 4 1 then 1 else 4) 0 0 0 0 10 bs
chapter_aligned-Covers_example = chapter_aligned-Covers (early ++ middle ∷ late) 10 4 (omega arith)

chapter_aligned-Starts_example :
    (bs : List ShardBound) × (chapter_aligned_bounds (early ++ middle ∷ late) 10 4 ≡ ok bs)
    × Starts (clamp_page 10 middle.page) bs
chapter_aligned-Starts_example = chapter_aligned-Starts early late middle 10 4 (omega arith)
