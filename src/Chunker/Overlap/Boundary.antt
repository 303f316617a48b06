-- ===== src/Chunker/Overlap/Boundary.antt =====
-- findSemanticOverlapBoundaryEndingAtOrAfter of internal/chunker/splitter.go.
use lybrix.Base.{
  ℕ, zero, suc, ◌+◌, Bool, true, false, not, ◌&&◌, ◌||◌, Option, none, some, List, [], ◌∷◌, ltb,
  leb, ◌==◌, if◌then◌else◌, length, drop,
}
use lybrix.Chunker.Runes.{Text, has_text}
use lybrix.Chunker.Units.{Patterns}
use lybrix.Chunker.Spans.{protected_spans, inside_span}

-- semanticOverlapBoundary.
pub record Boundary : Type 0 where
  pub start : ℕ
  pub end : ℕ
  pub priority : ℕ

-- The text that `consider` reads, with its protected spans and the first end that is allowed.
pub record Search : Type 0 where
  pub runes : Text
  pub spans : List (ℕ × ℕ)
  pub min_end : ℕ

-- hasMeaningfulTail.
unfoldable pub has_meaningful_tail : Text → ℕ → Bool
has_meaningful_tail runes end = ltb end (length runes) && has_text (drop end runes)

unfoldable pub may_end : Search → ℕ → ℕ → Bool
unfolding has_meaningful_tail inside_span
may_end s start end = not (
    leb end start
    || (ltb end s.min_end
        || (ltb (length s.runes) end
            || (inside_span s.spans start || not (has_meaningful_tail s.runes end)))))

abbrev pub better : Boundary → Option Boundary → Bool
better c none = true
better c (some b) = ltb c.priority b.priority || ((c.priority == b.priority) && ltb c.start b.start)

-- consider.
unfoldable pub consider : Search → ℕ → ℕ → ℕ → Option Boundary → Option Boundary
unfolding may_end
consider s start end priority best =
    let c : Boundary = record { start = start; end = end; priority = priority } in
    if may_end s start end && better c best then some c else best

abbrev pub carriage_return : ℕ
carriage_return = 13

abbrev pub line_feed : ℕ
line_feed = 10

-- `runes[i:]` starts with \r\n\r\n.
abbrev pub starts_crlf_crlf : Text → Bool
starts_crlf_crlf (a ∷ b ∷ c ∷ d ∷ rest) =
    (a == carriage_return) && ((b == line_feed) && ((c == carriage_return) && (d == line_feed)))
starts_crlf_crlf rest = false

abbrev pub starts_with : ℕ → ℕ → Text → Bool
starts_with a b (r ∷ q ∷ rest) = (r == a) && (q == b)
starts_with a b rest = false

-- The marks of paragraphRune: the first loop skips the runes of a paragraph break that it has found.
unfoldable pub paragraph_marks : ℕ → Text → List Bool
paragraph_marks skip [] = []
paragraph_marks (suc skip) (r ∷ rest) = true ∷ paragraph_marks skip rest
paragraph_marks zero (r ∷ rest) =
    let long = paragraph_marks 3 rest in
    let short = paragraph_marks 1 rest in
    let plain = paragraph_marks 0 rest in
    if starts_crlf_crlf (r ∷ rest)
    then true ∷ long
    else if starts_with line_feed line_feed (r ∷ rest)
    then true ∷ short
    else false ∷ plain

-- The first loop: paragraph breaks.
unfoldable pub paragraph_loop : Search → ℕ → ℕ → Text → Option Boundary → Option Boundary
unfolding consider
paragraph_loop s i skip [] best = best
paragraph_loop s i (suc skip) (r ∷ rest) best = paragraph_loop s (i + 1) skip rest best
paragraph_loop s i zero (r ∷ rest) best =
    let long = paragraph_loop s (i + 1) 3 rest (consider s i (i + 4) 1 best) in
    let short = paragraph_loop s (i + 1) 1 rest (consider s i (i + 2) 1 best) in
    let plain = paragraph_loop s (i + 1) 0 rest best in
    if starts_crlf_crlf (r ∷ rest)
    then long
    else if starts_with line_feed line_feed (r ∷ rest)
    then short
    else plain

abbrev pub first_mark : List Bool → Bool
first_mark [] = false
first_mark (m ∷ marks) = m

-- The second loop: line breaks outside of paragraph breaks.
unfoldable pub line_loop : Search → ℕ → Bool → Text → List Bool → Option Boundary → Option Boundary
unfolding consider
line_loop s i skip [] marks best = best
line_loop s i skip (r ∷ rest) [] best = best
line_loop s i true (r ∷ rest) (m ∷ marks) best = line_loop s (i + 1) false rest marks best
line_loop s i false (r ∷ rest) (m ∷ marks) best =
    let plain = line_loop s (i + 1) false rest marks best in
    let crlf = line_loop s (i + 1) true rest marks (consider s i (i + 2) 2 best) in
    let line = line_loop s (i + 1) false rest marks (consider s i (i + 1) 2 best) in
    if m
    then plain
    else if starts_with carriage_return line_feed (r ∷ rest) && not (first_mark marks)
    then crlf
    else if r == line_feed
    then line
    else plain

-- '。', '？' and '！'.
abbrev pub is_cjk_stop : ℕ → Bool
is_cjk_stop r = (r == 0x3002) || ((r == 0xff1f) || (r == 0xff01))

-- '.', '?' and '!'.
abbrev pub is_stop : ℕ → Bool
is_stop r = (r == 46) || ((r == 63) || (r == 33))

abbrev pub starts_blank : Text → Bool
starts_blank [] = false
starts_blank (r ∷ rest) = r == 32

-- The third loop: ends of sentences.
unfoldable pub sentence_loop : Search → ℕ → Text → Option Boundary → Option Boundary
unfolding consider
sentence_loop s i [] best = best
sentence_loop s i (r ∷ rest) best = sentence_loop s (i + 1) rest (
    if is_cjk_stop r
    then consider s i (i + 1) 3 best
    else if is_stop r && starts_blank rest
    then consider s i (i + 2) 3 best
    else best)

abbrev pub end_of : Option Boundary → Option ℕ
end_of none = none
end_of (some b) = some b.end

unfoldable pub best_boundary : Search → Option Boundary
unfolding paragraph_marks paragraph_loop line_loop sentence_loop
best_boundary s =
    sentence_loop s 0 s.runes
      (line_loop s 0 false s.runes (paragraph_marks 0 s.runes) (paragraph_loop s 0 0 s.runes none))

-- findSemanticOverlapBoundaryEndingAtOrAfter.
unfoldable pub find_boundary : Patterns → Text → ℕ → Option ℕ
unfolding best_boundary
find_boundary ps text min_end =
    if length text == 0
    then none
    else if ltb (length text) min_end
    then none
    else end_of (
        best_boundary (record { runes = text; spans = protected_spans ps text; min_end = min_end }))
