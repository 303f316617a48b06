-- ===== src/Chunker/Spans/Disjoint.antt =====
-- protectedSpans of internal/chunker/protected.go returns spans that do not overlap, in their order.
use lybrix.Base.{
  ℕ, ◌≤◌, ◌<◌, inl, inr, List, [], ◌∷◌, ltb, leb, length, filter_if, arith, Bool-cases, All,
}
use lybrix.Chunker.Runes.{Text}
use lybrix.Chunker.Units.{Patterns}
use lybrix.Chunker.Spans.{
  goes_before, insert_span, sort_spans, scan_spans, is_match, protected_spans,
}

-- What the regexp package documents of a match: it lies in the text.
abbrev pub InText : Text → ℕ × ℕ → Type 0
InText text m = m.1 ≤ length text

-- Spans of a rune at least, in the text, one behind the other from the offset on.
abbrev pub Ordered : Text → ℕ → List (ℕ × ℕ) → Type 0
Ordered text a [] = Unit
Ordered text a ((start, end) ∷ spans) =
    (a ≤ start) × (start < end) × (end ≤ length text) × Ordered text end spans

abbrev IsSpan : Text → ℕ × ℕ → Type 0
IsSpan text m = (m.0 < m.1) × (m.1 ≤ length text)

matches-spans :
    (text : Text) (ms : List (ℕ × ℕ))
    → All (InText text) ms
    → All (IsSpan text) (filter_if is_match ms)
matches-spans text [] h = tt
matches-spans text ((s, e) ∷ ms) (k, h) = elim (Bool-cases (ltb s e)) [
  | inl proper ↦ rw proper ((ground (arith, proper), k), matches-spans text ms h)
  | inr blank ↦ rw blank (matches-spans text ms h)
]

insert_span-spans :
    (text : Text) (m : ℕ × ℕ) (ms : List (ℕ × ℕ))
    → IsSpan text m
    → All (IsSpan text) ms
    → All (IsSpan text) (insert_span m ms)
unfolding insert_span
insert_span-spans text m [] h k = (h, tt)
insert_span-spans text m (n ∷ ms) h (k, l) = elim (Bool-cases (goes_before m n)) [
  | inl first ↦ rw first (h, (k, l))
  | inr later ↦ rw later (k, insert_span-spans text m ms h l)
]

sort_spans-spans :
    (text : Text) (sorted ms : List (ℕ × ℕ))
    → All (IsSpan text) sorted
    → All (IsSpan text) ms
    → All (IsSpan text) (sort_spans sorted ms)
unfolding sort_spans
sort_spans-spans text sorted [] h k = h
sort_spans-spans text sorted (m ∷ ms) h (k, l) =
    sort_spans-spans text (insert_span m sorted) ms (insert_span-spans text m sorted k h) l

scan_spans-Ordered :
    (text : Text) (last_end : ℕ) (ms : List (ℕ × ℕ))
    → All (IsSpan text) ms
    → Ordered text last_end (scan_spans last_end ms)
unfolding scan_spans
scan_spans-Ordered text last_end [] h = tt
scan_spans-Ordered text last_end ((s, e) ∷ ms) (k, h) = elim (Bool-cases (leb last_end s)) [
  | inl kept ↦ rw kept (ground (arith, kept), k.0, k.1, scan_spans-Ordered text e ms h)
  | inr passed ↦ rw passed (scan_spans-Ordered text last_end ms h)
]

-- If the matches lie in the text, the protected spans are disjoint and in order, and none is empty.
pub protected_spans-Ordered :
    (ps : Patterns) (text : Text)
    → All (InText text) (ps.protected text)
    → Ordered text 0 (protected_spans ps text)
unfolding protected_spans
protected_spans-Ordered ps text h =
    scan_spans-Ordered text 0 (sort_spans [] (filter_if is_match (ps.protected text))) (
      sort_spans-spans text [] (filter_if is_match (ps.protected text)) tt
        (matches-spans text (ps.protected text) h))
