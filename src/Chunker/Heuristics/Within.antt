-- ===== src/Chunker/Heuristics/Within.antt =====
-- The tier of internal/chunker/heuristic_splitter.go finds boundaries that lie in the text.
use Prim.Native.String.{String}
use lybrix.Base.{
  ℕ, suc, ◌+◌, ◌≤◌, ◌≡◌, inl, inr, Bool, false, not, ◌||◌, Option, none, some, List, [], ◌∷◌, ◌++◌,
  ◌==◌, if◌then◌else◌, length, arith, Bool-cases, All, All-append,
}
use lybrix.Chunker.Runes.{Text, split_at, onto_first}
use lybrix.Chunker.Spans.{inside_span}
use lybrix.Chunker.Profile.{LinePatterns, is_fence}
use lybrix.Chunker.Heuristics.{
  Marker, line_priority, add_marker, line_markers, form_feeds, stands_before, insert_marker,
  sort_markers, dedup_markers, blank_markers, find_heuristic_boundaries, drop_bounds_inside_spans,
}

abbrev pub Within : Text → Marker → Type 0
Within doc m = m.rune_start ≤ length doc

form_feeds-Within :
    (doc : Text) (pos : ℕ) (rest : Text)
    → pos + length rest ≤ length doc
    → All (Within doc) (form_feeds pos rest)
unfolding form_feeds
form_feeds-Within doc pos [] h = tt
form_feeds-Within doc pos (r ∷ rs) h = elim (Bool-cases (r == 12)) [
  | inl feed ↦ rw feed (omega (arith, h), form_feeds-Within doc (pos + 1) rs (omega (arith, h)))
  | inr other ↦ rw other (form_feeds-Within doc (pos + 1) rs (omega (arith, h)))
]

-- The runes of the lines, each with a newline.
abbrev pub lines_len : List Text → ℕ
lines_len [] = 0
lines_len (line ∷ lines) = length line + 1 + lines_len lines

onto_first-len :
    (r : ℕ) (lines : List Text)
    → 1 ≤ lines_len lines
    → lines_len (onto_first r lines) ≡ suc (lines_len lines)
onto_first-len r [] h = absurd (omega (arith, h))
onto_first-len r (line ∷ lines) h = omega arith

pub split_at-len : (t : Text) → lines_len (split_at 10 t) ≡ length t + 1
unfolding split_at
split_at-len [] = omega arith
split_at-len (r ∷ rs) = elim (Bool-cases (r == 10)) [
  | inl newline ↦ rw newline (omega (arith, split_at-len rs))
  | inr other ↦ rw other (
      omega (
        arith,
        split_at-len rs,
        onto_first-len r (split_at 10 rs) (omega (arith, split_at-len rs)),
      ))
]

add_marker-Within :
    (doc : Text) (pos : ℕ) (p : Option ℕ) (ms : List Marker)
    → pos ≤ length doc
    → All (Within doc) ms
    → All (Within doc) (add_marker pos p ms)
add_marker-Within doc pos none ms h k = k
add_marker-Within doc pos (some p) ms h k = (h, k)

line_markers-Within :
    (lp : LinePatterns) (langs : List String) (doc : Text) (pos : ℕ) (in_fence : Bool)
    (lines : List Text)
    → pos + lines_len lines ≤ length doc + 1
    → All (Within doc) (line_markers lp langs pos in_fence lines)
unfolding line_markers
line_markers-Within lp langs doc pos in_fence [] h = tt
line_markers-Within lp langs doc pos in_fence (line ∷ lines) h =
    add_marker-Within doc pos
      (if is_fence line || in_fence then none else line_priority lp langs line)
      (line_markers lp langs (pos + length line + 1)
        (if is_fence line then not in_fence else in_fence) lines)
      (omega (arith, h))
      (line_markers-Within lp langs doc (pos + length line + 1)
        (if is_fence line then not in_fence else in_fence) lines (omega (arith, h)))

blank_markers-Within :
    (doc : Text) (ends : List ℕ)
    → All (λ (n : ℕ). n ≤ length doc) ends
    → All (Within doc) (blank_markers ends)
blank_markers-Within doc [] h = tt
blank_markers-Within doc (n ∷ ends) (h, k) = (h, blank_markers-Within doc ends k)

insert_marker-Within :
    (doc : Text) (m : Marker) (ms : List Marker)
    → Within doc m
    → All (Within doc) ms
    → All (Within doc) (insert_marker m ms)
unfolding insert_marker
insert_marker-Within doc m [] h k = (h, tt)
insert_marker-Within doc m (n ∷ ms) h (k, l) = elim (Bool-cases (stands_before m n)) [
  | inl first ↦ rw first (h, (k, l))
  | inr later ↦ rw later (k, insert_marker-Within doc m ms h l)
]

sort_markers-Within :
    (doc : Text) (ms : List Marker) → All (Within doc) ms → All (Within doc) (sort_markers ms)
unfolding sort_markers
sort_markers-Within doc [] h = tt
sort_markers-Within doc (m ∷ ms) (h, k) =
    insert_marker-Within doc m (sort_markers ms) h (sort_markers-Within doc ms k)

abbrev is_prev : Option ℕ → ℕ → Bool
is_prev prev n = elim prev [ none ↦ false | some p ↦ p == n ]

dedup_markers-Within :
    (doc : Text) (prev : Option ℕ) (ms : List Marker)
    → All (Within doc) ms
    → All (Within doc) (dedup_markers prev ms)
unfolding dedup_markers
dedup_markers-Within doc prev [] h = tt
dedup_markers-Within doc prev (m ∷ ms) (h, k) = elim (Bool-cases (is_prev prev m.rune_start)) [
  | inl same ↦ rw same (dedup_markers-Within doc prev ms k)
  | inr other ↦ rw other (h, dedup_markers-Within doc (some m.rune_start) ms k)
]

pub drop_bounds-Within :
    (doc : Text) (spans : List (ℕ × ℕ)) (ms : List Marker)
    → All (Within doc) ms
    → All (Within doc) (drop_bounds_inside_spans spans ms)
unfolding drop_bounds_inside_spans
drop_bounds-Within doc spans [] h = tt
drop_bounds-Within doc spans (m ∷ ms) (h, k) = elim (Bool-cases (inside_span spans m.rune_start)) [
  | inl inside ↦ rw inside (drop_bounds-Within doc spans ms k)
  | inr outside ↦ rw outside (h, drop_bounds-Within doc spans ms k)
]

pub find_boundaries-Within :
    (lp : LinePatterns) (langs : List String) (doc : Text)
    → All (λ (n : ℕ). n ≤ length doc) (lp.blank_run_ends doc)
    → All (Within doc) (find_heuristic_boundaries lp langs doc)
unfolding find_heuristic_boundaries
find_boundaries-Within lp langs doc h =
    let found =
      form_feeds 0 doc
      ++ (line_markers lp langs 0 false (split_at 10 doc)
          ++ blank_markers (lp.blank_run_ends doc)) in
    dedup_markers-Within doc none (sort_markers found) (
      sort_markers-Within doc found (
        All-append (Within doc) (form_feeds 0 doc) _ (form_feeds-Within doc 0 doc (omega arith)) (
          All-append (Within doc) (line_markers lp langs 0 false (split_at 10 doc)) _
            (line_markers-Within lp langs doc 0 false (split_at 10 doc)
              (omega (arith, split_at-len doc)))
            (blank_markers-Within doc (lp.blank_run_ends doc) h))))
