-- ===== src/Chunker/Runes/Ink.antt =====
-- The runes of a text that are not white space.
use lybrix.Base.{
  ℕ, zero, suc, ◌+◌, ◌-◌, ◌≤◌, ◌<◌, ◌≡◌, refl, ap, sym, ◌∙◌, true, false, some, [], ◌∷◌, length,
  take, drop, get_elem?, arith,
}
use lybrix.Chunker.Runes.{Text, is_space, has_text}
use lybrix.Chunker.Runes.Places.{StandsAt}

-- There is a rune at p, and it is not white space.
abbrev pub IsInk : Text → ℕ → Type 0
IsInk doc p = (r : ℕ) × (get_elem? doc p ≡ some r) × (is_space r ≡ false)

get_elem?-take : (n i : ℕ) (t : Text) → i < n → get_elem? (take n t) i ≡ get_elem? t i
get_elem?-take zero i t h = absurd (omega (arith, h))
get_elem?-take (suc n) i [] h = refl
get_elem?-take (suc n) zero (x ∷ t) h = refl
get_elem?-take (suc n) (suc i) (x ∷ t) h = get_elem?-take n i t (omega (arith, h))

get_elem?-drop : (n i : ℕ) (t : Text) → get_elem? (drop n t) i ≡ get_elem? t (n + i)
get_elem?-drop zero i t = ap (get_elem? t) (omega arith)
get_elem?-drop (suc n) i [] = refl
get_elem?-drop (suc n) i (x ∷ t) =
    let e : suc (n + i) ≡ suc n + i = omega arith in get_elem?-drop n i t ∙ ap (get_elem? (x ∷ t)) e

-- The rune of a text that stands in the document.
StandsAt-rune :
    (doc : Text) (pos i : ℕ) (t : Text)
    → StandsAt doc pos t
    → i < length t
    → get_elem? doc (pos + i) ≡ get_elem? t i
StandsAt-rune doc pos i t h k =
    sym (get_elem?-drop pos i doc)
    ∙ (sym (get_elem?-take (length t) i (drop pos doc) k) ∙ ap (λ s. get_elem? s i) h)

blank_rune : (t : Text) (i r : ℕ) → has_text t ≡ false → get_elem? t i ≡ some r → is_space r ≡ true
unfolding has_text
blank_rune [] i r h e = cc e
blank_rune (x ∷ t) zero r h e = ground (arith, h, e)
blank_rune (x ∷ t) (suc i) r h e = ground (arith, h, blank_rune t i r)

-- A blank text has no rune that is not white space.
pub blank_not-IsInk :
    (doc : Text) (pos p : ℕ) (t : Text)
    → StandsAt doc pos t
    → has_text t ≡ false
    → pos ≤ p
    → p < pos + length t
    → ¬ IsInk doc p
blank_not-IsInk doc pos p t h blank low high (r, e, ink) =
    let at : pos + (p - pos) ≡ p = omega (arith, low) in
    let here : get_elem? t (p - pos) ≡ some r =
      sym (StandsAt-rune doc pos (p - pos) t h (omega (arith, low, high)))
      ∙ (ap (get_elem? doc) at ∙ e) in
    cc (blank_rune t (p - pos) r blank here, ink)
