-- ===== src/Chunker/Spans.antt =====
-- protectedSpans and insideSpan of internal/chunker/protected.go.
pub mod Disjoint
use lybrix.Base.{
  ℕ, ◌-◌, Bool, true, false, ◌&&◌, ◌||◌, List, [], ◌∷◌, ltb, leb, ◌==◌, if◌then◌else◌, any_of,
  filter_if,
}
use lybrix.Chunker.Runes.{Text}
use lybrix.Chunker.Units.{Patterns}

-- The order of the insertion sort: by the start, then the longer first.
unfoldable pub goes_before : ℕ × ℕ → ℕ × ℕ → Bool
goes_before (s, e) (s', e') = ltb s s' || ((s == s') && ltb (e' - s') (e - s))

-- A match is moved down past those it goes before, from the last one on.
unfoldable pub insert_span : ℕ × ℕ → List (ℕ × ℕ) → List (ℕ × ℕ)
unfolding goes_before
insert_span m [] = m ∷ []
insert_span m (n ∷ sorted) =
    let later = insert_span m sorted in if goes_before m n then m ∷ n ∷ sorted else n ∷ later

unfoldable pub sort_spans : List (ℕ × ℕ) → List (ℕ × ℕ) → List (ℕ × ℕ)
unfolding insert_span
sort_spans sorted [] = sorted
sort_spans sorted (m ∷ all) = sort_spans (insert_span m sorted) all

-- The greedy scan.
unfoldable pub scan_spans : ℕ → List (ℕ × ℕ) → List (ℕ × ℕ)
scan_spans last_end [] = []
scan_spans last_end ((s, e) ∷ all) =
    let kept = scan_spans e all in
    let passed = scan_spans last_end all in if leb last_end s then (s, e) ∷ kept else passed

abbrev pub is_match : ℕ × ℕ → Bool
is_match (s, e) = ltb s e

-- protectedSpans.
unfoldable pub protected_spans : Patterns → Text → List (ℕ × ℕ)
unfolding sort_spans scan_spans
protected_spans ps text = scan_spans 0 (sort_spans [] (filter_if is_match (ps.protected text)))

-- insideSpan.
unfoldable pub inside_span : List (ℕ × ℕ) → ℕ → Bool
inside_span spans off = any_of (λ (m : ℕ × ℕ). ltb m.0 off && ltb off m.1) spans
