-- ===== src/Chunker/Samples.antt =====
-- Two lines, of two runes and one, on the pages 4 and 6, and cut into pieces of three runes.
use lybrix.Base.{ℕ, ◌≡◌, refl, none, some, List, [], ◌∷◌, arith}
use lybrix.Chunker.Cuts.{cuts}
use lybrix.Chunker.Cuts.Whole.{Pieces, cuts-Pieces}
use lybrix.Chunker.PageMap.{newline, new_page_mapper, range_for}
use lybrix.Chunker.PageMap.Lookup.{newlines, range_for-newlines}

abbrev markdown : List ℕ
markdown = 97 ∷ 98 ∷ newline ∷ 99 ∷ newline ∷ []

spans_both : range_for (new_page_mapper markdown (4 ∷ 6 ∷ [])) 1 4 ≡ some (4, 6)
unfolding range_for new_page_mapper
spans_both = refl

empty_range : range_for (new_page_mapper markdown (4 ∷ 6 ∷ [])) 3 3 ≡ some (6, 6)
unfolding range_for new_page_mapper
empty_range = refl

bad_map : range_for (new_page_mapper markdown (4 ∷ [])) 1 4 ≡ none
unfolding range_for new_page_mapper
bad_map = refl

range_for-newlines_example : range_for (new_page_mapper markdown (4 ∷ 6 ∷ [])) 1 4 ≡ some (4, 6)
unfolding newlines
range_for-newlines_example =
    range_for-newlines markdown (4 ∷ 6 ∷ []) 1 4 (omega arith) (omega arith)

cut_twice : cuts 3 markdown ≡ (0, 3) ∷ (3, 5) ∷ []
unfolding cuts
cut_twice = refl

cuts-Pieces_example : Pieces 3 0 5 (cuts 3 markdown)
cuts-Pieces_example = cuts-Pieces 3 markdown (omega arith)
