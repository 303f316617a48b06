-- ===== src/Stitch/Samples.antt =====
-- Two shards of two lines, and shards of which the second repeats the last heading of the first.
use lybrix.Base.{ℕ, ◌≡◌, refl, Option, none, List, [], ◌∷◌, arith}
use lybrix.Chunker.Runes.{Text}
use lybrix.Chunker.PageMap.{new_page_mapper, range_for}
use lybrix.Chunker.PageMap.Lookup.{pages_between}
use lybrix.Stitch.{sort_docs, stitch, without_repeat}
use lybrix.Stitch.Pages.{Rising}
use lybrix.Stitch.Ordered.{stitch-Rising}
use lybrix.Stitch.Mapped.{range_for-stitch}

abbrev no_payload : Text → Option Text
no_payload t = none

-- "c\nd" and "a\nb\n".
abbrev docs : List (ℕ × Text)
docs = (1, 99 ∷ 10 ∷ 100 ∷ []) ∷ (0, 97 ∷ 10 ∷ 98 ∷ 10 ∷ []) ∷ []

abbrev ranges : List (ℕ × (ℕ × ℕ))
ranges = (0, (1, 2)) ∷ (1, (2, 4)) ∷ []

stitched :
    stitch no_payload docs ranges
    ≡ record { markdown = 97 ∷ 10 ∷ 98 ∷ 10 ∷ 99 ∷ 10 ∷ 100 ∷ 10 ∷ []; pages = 1 ∷ 2 ∷ 2 ∷ 3 ∷ [] }
unfolding stitch
stitched = refl

-- "# t" and then "x", "# t" and "y": the heading stays and the text before it goes.
loses_text :
    without_repeat ((35 ∷ 32 ∷ 116 ∷ []) ∷ []) ((120 ∷ []) ∷ (35 ∷ 32 ∷ 116 ∷ []) ∷ (121 ∷ []) ∷ [])
    ≡ (35 ∷ 32 ∷ 116 ∷ []) ∷ (121 ∷ []) ∷ []
unfolding without_repeat
loses_text = refl

stitch-Rising_example : Rising 0 (stitch no_payload docs ranges).pages
stitch-Rising_example =
    stitch-Rising no_payload docs ranges
      (unfold sort_docs in (omega arith, omega arith, (omega arith, omega arith, tt)))

range_for-stitch_example :
    range_for
      (new_page_mapper
        (stitch no_payload docs ranges).markdown
        (stitch no_payload docs ranges).pages)
      2
      7
    ≡ pages_between
        (stitch no_payload docs ranges).markdown
        (stitch no_payload docs ranges).pages
        2
        7
range_for-stitch_example =
    range_for-stitch no_payload docs ranges 2 7 (omega arith) (unfold stitch in omega arith)
