-- ===== src/Chunker/Sources/Tiled.antt =====
-- buildUnitsWithProtection of internal/chunker/protected.go: the units are the whole text.
use lybrix.Base.{
  ℕ, ◌+◌, ◌-◌, ◌≤◌, ◌≡◌, refl, ap, sym, subst, ◌∙◌, inl, inr, List, [], ◌∷◌, ◌++◌, ltb, length,
  take, drop, concat, arith, length-append, take-append-drop, Bool-cases, All,
}
use lybrix.Chunker.Runes.{Text}
use lybrix.Chunker.Runes.Places.{
  StandsAt, StandsAt-take, StandsAt-drop, take-length-append, drop-length-append, drop-drop,
}
use lybrix.Chunker.Units.{SplitUnit}
use lybrix.Chunker.Units.Built.{Run}
use lybrix.Chunker.Separators.Pieces.{Parts, Parts-one, split_by_separators-Parts}
use lybrix.Chunker.Cuts.{cuts, slice}
use lybrix.Chunker.Cuts.Whole.{Pieces, cuts-Pieces, length-slice, StandsAt-slice}
use lybrix.Chunker.Spans.Disjoint.{Ordered}
use lybrix.Chunker.Sources.{
  max_protected_size, units_of, parts_len, cut_parts, protected_parts, parts_before, units_loop,
  build_units_with_protection,
}

StandsAt-left : (doc : Text) (pos : ℕ) (s t : Text) → StandsAt doc pos (s ++ t) → StandsAt doc pos s
StandsAt-left doc pos s t h =
    subst (StandsAt doc pos) (take-length-append s t)
      (StandsAt-take doc pos (length s) (s ++ t) (omega (arith, length-append s t)) h)

StandsAt-right :
    (doc : Text) (pos : ℕ) (s t : Text)
    → StandsAt doc pos (s ++ t)
    → StandsAt doc (pos + length s) t
StandsAt-right doc pos s t h =
    subst (StandsAt doc (pos + length s)) (drop-length-append s t)
      (StandsAt-drop doc pos (length s) (s ++ t) (omega (arith, length-append s t)) h)

parts_len-concat : (parts : List Text) → parts_len parts ≡ length (concat parts)
parts_len-concat [] = refl
parts_len-concat (p ∷ parts) = omega (arith, parts_len-concat parts, length-append p (concat parts))

units_of-Run :
    (doc : Text) (pos : ℕ) (parts : List Text)
    → All (λ (p : Text). 1 ≤ length p) parts
    → StandsAt doc pos (concat parts)
    → Run doc (units_of pos parts) pos (pos + parts_len parts)
unfolding units_of
units_of-Run doc pos [] h s = omega arith
units_of-Run doc pos (p ∷ parts) (filled, h) s = (
  record { filled = filled; measured = refl; copied = StandsAt-left doc pos p (concat parts) s },
  refl,
  subst (Run doc (units_of (pos + length p) parts) (pos + length p)) (omega arith)
      (units_of-Run doc (pos + length p) parts h (StandsAt-right doc pos p (concat parts) s)),
)

take_all : (t : Text) → take (length t) t ≡ t
take_all [] = refl
take_all (x ∷ t) = ap (◌∷◌ x) (take_all t)

pub slice-StandsAt :
    (text : Text) (a b : ℕ) → a ≤ b → b ≤ length text → StandsAt text a (slice text a b)
slice-StandsAt text a b h k =
    let at : 0 + a ≡ a = omega arith in
    subst (λ p. StandsAt text p (slice text a b)) at
      (StandsAt-slice text 0 a b text h k (take_all text))

-- Parts that make up a slice of the text are units of it, up to the end of the slice.
slice_units :
    (text : Text) (a b : ℕ) (parts : List Text)
    → a ≤ b
    → b ≤ length text
    → Parts (slice text a b) parts
    → Run text (units_of a parts) a b × (a + parts_len parts ≡ b)
slice_units text a b parts h k (e, filled) =
    let reaches : a + parts_len parts ≡ b =
      omega (arith, parts_len-concat parts, ap length e, length-slice text a b k, h) in
    let whole : StandsAt text (0 + a) (slice text a b) =
      StandsAt-slice text 0 a b text h k (take_all text) in
    let at : 0 + a ≡ a = omega arith in
    (
      subst (Run text (units_of a parts) a) reaches (
          units_of-Run text a parts filled (
            subst (StandsAt text a) (sym e)
              (subst (λ p. StandsAt text p (slice text a b)) at whole))),
      reaches,
    )

slice-drop : (text : Text) (a b : ℕ) → a ≤ b → slice text a b ++ drop b text ≡ drop a text
unfolding slice
slice-drop text a b h =
    let e : a + (b - a) ≡ b = omega (arith, h) in
    ap (◌++◌ (take (b - a) (drop a text)))
      (sym (drop-drop a (b - a) text ∙ ap (λ n. drop n text) e))
    ∙ take-append-drop (b - a) (drop a text)

drop_all : (t : Text) → drop (length t) t ≡ []
drop_all [] = refl
drop_all (x ∷ t) = drop_all t

cut_parts-Parts :
    (max_size a : ℕ) (text : Text) (pieces : List (ℕ × ℕ))
    → Pieces max_size a (length text) pieces
    → Parts (drop a text) (cut_parts text pieces)
cut_parts-Parts max_size a text [] e = (sym (rw e (drop_all text)), tt)
cut_parts-Parts max_size a text ((o, e) ∷ pieces) (at, grows, fits, room, p) =
    let rest = cut_parts-Parts max_size e text pieces p in
    (
      ap (◌++◌ (slice text o e)) rest.0
          ∙ (slice-drop text o e (omega (arith, at, grows)) ∙ ap (λ n. drop n text) at),
      (omega (arith, length-slice text o e room, at, grows), rest.1),
    )

protected_parts-Parts : (text : Text) → 1 ≤ length text → Parts text (protected_parts text)
unfolding protected_parts
protected_parts-Parts text h = elim (Bool-cases (ltb max_protected_size (length text))) [
  | inl large ↦ rw large (
      cut_parts-Parts max_protected_size 0 text (cuts max_protected_size text)
        (cuts-Pieces max_protected_size text (omega arith)))
  | inr fits ↦ rw fits (Parts-one text h)
]

slice_empty : (text : Text) (a b : ℕ) → b ≤ a → slice text a b ≡ []
unfolding slice
slice_empty text a b h = let e : b - a ≡ 0 = omega (arith, h) in ap (λ n. take n (drop a text)) e

parts_before-Parts :
    (chunk_size : ℕ) (separators : List Text) (text : Text) (a b : ℕ)
    → a ≤ b
    → b ≤ length text
    → Parts (slice text a b) (parts_before chunk_size separators text a b)
unfolding parts_before
parts_before-Parts chunk_size separators text a b h k = elim (Bool-cases (ltb a b)) [
  | inl some_text ↦ rw some_text (
      split_by_separators-Parts chunk_size separators (slice text a b)
        (ground (arith, some_text, length-slice text a b k)))
  | inr nothing ↦ rw nothing (sym (slice_empty text a b (ground (arith, nothing))), tt)
]

Run-append :
    (doc : Text) (a b c : ℕ) (us vs : List SplitUnit)
    → Run doc us a b
    → Run doc vs b c
    → Run doc (us ++ vs) a c
Run-append doc a b c [] vs r q = subst (λ p. Run doc vs p c) (sym r) q
Run-append doc a b c (u ∷ us) vs (s, at, r) q = (s, at, Run-append doc u.end b c us vs r q)

units_loop-Run :
    (chunk_size : ℕ) (separators : List Text) (text : Text) (a n : ℕ) (spans : List (ℕ × ℕ))
    → n ≡ a
    → a ≤ length text
    → Ordered text a spans
    → Run text (units_loop chunk_size separators text a n spans) n (length text)
unfolding units_loop
units_loop-Run chunk_size separators text a n [] e h o =
    rw e
      (slice_units text a (length text) (parts_before chunk_size separators text a (length text)) h
        (omega arith)
        (parts_before-Parts chunk_size separators text a (length text) h (omega arith))).0
units_loop-Run chunk_size separators text a n ((s, e) ∷ spans) same h (at, grows, room, o) =
    let before = parts_before chunk_size separators text a s in
    let inside = protected_parts (slice text s e) in
    let first =
      slice_units text a s before at (omega (arith, grows, room))
        (parts_before-Parts chunk_size separators text a s at (omega (arith, grows, room))) in
    let second =
      slice_units text s e inside (omega (arith, grows)) room (
        protected_parts-Parts (slice text s e)
          (omega (arith, length-slice text s e room, grows))) in
    let to_start : n + parts_len before ≡ s = omega (arith, same, first.1) in
    let to_end : n + parts_len before + parts_len inside ≡ e = omega (arith, to_start, second.1) in
    let later = n + parts_len before + parts_len inside in
    Run-append text n s (length text) (units_of n before)
      (units_of (n + parts_len before) inside
        ++ units_loop chunk_size separators text e later spans)
      (subst (λ p. Run text (units_of p before) p s) (sym same) first.0)
      (Run-append text s e (length text) (units_of (n + parts_len before) inside)
        (units_loop chunk_size separators text e later spans)
        (subst (λ p. Run text (units_of p inside) s e) (sym to_start) second.0)
        (subst (λ p. Run text (units_loop chunk_size separators text e later spans) p (length text))
          to_end (units_loop-Run chunk_size separators text e later spans to_end room o)))

-- Between ordered spans and in them, the units are the text from its first rune to its last.
pub build_units-Run :
    (text : Text) (spans : List (ℕ × ℕ)) (separators : List Text) (chunk_size : ℕ)
    → Ordered text 0 spans
    → Run text (build_units_with_protection text spans separators chunk_size) 0 (length text)
unfolding build_units_with_protection
build_units-Run text spans separators chunk_size o =
    units_loop-Run chunk_size separators text 0 0 spans refl (omega arith) o
