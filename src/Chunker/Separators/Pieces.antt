-- ===== src/Chunker/Separators/Pieces.antt =====
-- splitBySeparators of internal/chunker/protected.go loses no text and makes no empty piece.
use mathlib.Core.List.{append-nil, append_assoc}
use lybrix.Base.{
  ℕ, zero, suc, ◌-◌, ◌≤◌, ◌≡◌, refl, ap, sym, subst, ◌∙◌, inl, inr, true, not, ◌&&◌, ◌||◌, List, [],
  ◌∷◌, ◌++◌, ltb, leb, ◌==◌, length, drop, concat, arith, Bool-cases, All, All-append,
}
use lybrix.Chunker.Runes.{Text, has_prefix, contains}
use lybrix.Chunker.Separators.{
  if_filled, pieces_from, no_separators, guarded, split_pieces, separator_loop, split_by_separators,
}

-- Parts with a rune at least that make up the text.
abbrev pub Parts : Text → List Text → Type 0
Parts text parts = (concat parts ≡ text) × All (λ (p : Text). 1 ≤ length p) parts

pub concat-append : (xs ys : List Text) → concat (xs ++ ys) ≡ concat xs ++ concat ys
concat-append [] ys = refl
concat-append (x ∷ xs) ys =
    ap (◌++◌ x) (concat-append xs ys) ∙ sym (append_assoc x (concat xs) (concat ys))

pub Parts-append :
    (s t : Text) (xs ys : List Text) → Parts s xs → Parts t ys → Parts (s ++ t) (xs ++ ys)
Parts-append s t xs ys (e, h) (f, k) =
    (concat-append xs ys ∙ rw (e, f) refl, All-append (λ (p : Text). 1 ≤ length p) xs ys h k)

pub Parts-one : (text : Text) → 1 ≤ length text → Parts text (text ∷ [])
Parts-one text h = (append-nil text, (h, tt))

if_filled-Parts : (piece : Text) → Parts piece (if_filled piece)
if_filled-Parts [] = (refl, tt)
if_filled-Parts (r ∷ rs) = Parts-one (r ∷ rs) (omega arith)

pub has_prefix-append : (p t : Text) → has_prefix p t ≡ true → p ++ drop (length p) t ≡ t
unfolding has_prefix
has_prefix-append [] t h = refl
has_prefix-append (p ∷ ps) [] h = cc h
has_prefix-append (p ∷ ps) (r ∷ rs) h = elim (Bool-cases (p == r)) [
  | inl same ↦
      let e : p ≡ r = ground (arith, same) in
      rw e (ap (◌∷◌ r) (has_prefix-append ps rs (rw same at h)))
  | inr other ↦ cc (rw other at h)
]

pub has_prefix-length : (p t : Text) → has_prefix p t ≡ true → length p ≤ length t
unfolding has_prefix
has_prefix-length [] t h = omega arith
has_prefix-length (p ∷ ps) [] h = cc h
has_prefix-length (p ∷ ps) (r ∷ rs) h = elim (Bool-cases (p == r)) [
  | inl same ↦ omega (arith, has_prefix-length ps rs (rw same at h))
  | inr other ↦ cc (rw other at h)
]

pieces_from-Parts :
    (x : ℕ) (xs piece : Text) (skip : ℕ) (text : Text)
    → skip ≤ length text
    → Parts (piece ++ drop skip text) (pieces_from (x ∷ xs) piece skip text)
unfolding pieces_from
pieces_from-Parts x xs piece zero [] h =
    subst (λ t. Parts t (if_filled piece)) (sym (append-nil piece)) (if_filled-Parts piece)
pieces_from-Parts x xs piece (suc skip) [] h = absurd (omega (arith, h))
pieces_from-Parts x xs piece (suc skip) (r ∷ rs) h =
    pieces_from-Parts x xs piece skip rs (omega (arith, h))
pieces_from-Parts x xs piece zero (r ∷ rs) h = elim (Bool-cases (has_prefix (x ∷ xs) (r ∷ rs))) [
  | inl here ↦
      let fits = has_prefix-length (x ∷ xs) (r ∷ rs) here in
      let e : length xs ≡ suc (length xs) - 1 = omega arith in
      let rest = pieces_from-Parts x xs [] (suc (length xs) - 1) rs (omega (arith, fits)) in
      let whole : (x ∷ xs) ++ drop (suc (length xs) - 1) rs ≡ r ∷ rs =
        subst (λ n. (x ∷ xs) ++ drop n rs ≡ r ∷ rs) e (has_prefix-append (x ∷ xs) (r ∷ rs) here) in
      rw here (
        Parts-append piece (r ∷ rs) (if_filled piece)
          ((x ∷ xs) ∷ pieces_from (x ∷ xs) [] (suc (length xs) - 1) rs) (if_filled-Parts piece)
          (subst (λ t. Parts t ((x ∷ xs) ∷ pieces_from (x ∷ xs) [] (suc (length xs) - 1) rs)) whole
            (ap (◌++◌ (x ∷ xs)) rest.0, (omega arith, rest.1))))
  | inr other ↦ rw other (
      subst (λ t. Parts t (pieces_from (x ∷ xs) (piece ++ r ∷ []) 0 rs))
        (append_assoc piece (r ∷ []) rs)
        (pieces_from-Parts x xs (piece ++ r ∷ []) 0 rs (omega arith)))
]

guarded-Parts :
    (chunk_size : ℕ) (separators : List Text) (loop : Text → List Text) (text : Text)
    → 1 ≤ length text
    → Parts text (loop text)
    → Parts text (guarded chunk_size separators loop text)
guarded-Parts chunk_size separators loop text h p =
    elim (Bool-cases ((length text == 0) || no_separators separators)) [
      | inl plain ↦ rw plain (Parts-one text h)
      | inr more ↦ elim (Bool-cases (ltb 0 chunk_size && leb (length text) chunk_size)) [
        | inl small ↦ rw (more, small) (Parts-one text h)
        | inr large ↦ rw (more, large) p
      ]
    ]

split_pieces-Parts :
    (chunk_size : ℕ) (remaining : List Text) (loop : Text → List Text) (pieces : List Text)
    → ((text : Text) → 1 ≤ length text → Parts text (loop text))
    → All (λ (p : Text). 1 ≤ length p) pieces
    → Parts (concat pieces) (split_pieces chunk_size remaining loop pieces)
unfolding split_pieces
split_pieces-Parts chunk_size remaining loop [] splits h = (refl, tt)
split_pieces-Parts chunk_size remaining loop (p ∷ pieces) splits (filled, h) =
    let rest = split_pieces-Parts chunk_size remaining loop pieces splits h in
    elim (Bool-cases
      (ltb 0 chunk_size && (ltb chunk_size (length p) && not (no_separators remaining)))) [
        | inl again ↦ rw again (
            Parts-append p (concat pieces) (guarded chunk_size remaining loop p)
              (split_pieces chunk_size remaining loop pieces)
              (guarded-Parts chunk_size remaining loop p filled (splits p filled)) rest)
        | inr kept ↦ rw kept (
            Parts-append p (concat pieces) (p ∷ []) (split_pieces chunk_size remaining loop pieces)
              (Parts-one p filled) rest)
      ]

separator_loop-Parts :
    (chunk_size : ℕ) (separators : List Text) (text : Text)
    → 1 ≤ length text
    → Parts text (separator_loop chunk_size separators text)
unfolding separator_loop
separator_loop-Parts chunk_size [] text h = Parts-one text h
separator_loop-Parts chunk_size ([] ∷ remaining) text h =
    separator_loop-Parts chunk_size remaining text h
separator_loop-Parts chunk_size ((x ∷ xs) ∷ remaining) text h =
    let pieces = pieces_from (x ∷ xs) [] 0 text in
    let found = pieces_from-Parts x xs [] 0 text (omega arith) in
    elim (Bool-cases
      ((suc (length xs) == 0) || (not (contains (x ∷ xs) text) || leb (length pieces) 1))) [
        | inl passed ↦ rw passed (separator_loop-Parts chunk_size remaining text h)
        | inr split ↦ rw split (
            subst
              (λ t.
                Parts t
                  (split_pieces chunk_size remaining (separator_loop chunk_size remaining) pieces))
              found.0
              (split_pieces-Parts chunk_size remaining (separator_loop chunk_size remaining) pieces
                (separator_loop-Parts chunk_size remaining) found.1))
      ]

-- The pieces of a text that is not empty, one behind the other, are the text again, and none of them is
-- empty.
pub split_by_separators-Parts :
    (chunk_size : ℕ) (separators : List Text) (text : Text)
    → 1 ≤ length text
    → (concat (split_by_separators chunk_size separators text) ≡ text)
      × All (λ (p : Text). 1 ≤ length p) (split_by_separators chunk_size separators text)
unfolding split_by_separators
split_by_separators-Parts chunk_size separators text h =
    guarded-Parts chunk_size separators (separator_loop chunk_size separators) text h
      (separator_loop-Parts chunk_size separators text h)
