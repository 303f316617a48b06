-- ===== src/Chunker/Runes/Places.antt =====
-- Where a text stands in another.
use lybrix.Base.{
  ℕ, zero, suc, ◌+◌, ◌-◌, ◌≤◌, ◌≡◌, refl, ap, sym, subst, ◌∙◌, [], ◌∷◌, ◌++◌, length, take, drop,
  arith, length-append, length-take, length-drop,
}
use lybrix.Chunker.Runes.{Text}

-- `t` is the part of `doc` from the rune `pos` on that is as long as it.
abbrev pub StandsAt : Text → ℕ → Text → Type 0
StandsAt doc pos t = take (length t) (drop pos doc) ≡ t

drop-nil : (n : ℕ) → drop {A = ℕ} n [] ≡ []
drop-nil zero = refl
drop-nil (suc n) = refl

take-nil : (n : ℕ) → take {A = ℕ} n [] ≡ []
take-nil zero = refl
take-nil (suc n) = refl

pub drop-drop : (m n : ℕ) (xs : Text) → drop n (drop m xs) ≡ drop (m + n) xs
drop-drop zero n xs = ap (λ k. drop k xs) (omega arith)
drop-drop (suc m) n [] = drop-nil n ∙ sym (drop-nil (suc m + n))
drop-drop (suc m) n (x ∷ xs) =
    let e : suc (m + n) ≡ suc m + n = omega arith in drop-drop m n xs ∙ ap (λ k. drop k (x ∷ xs)) e

pub take-add : (m n : ℕ) (xs : Text) → take (m + n) xs ≡ take m xs ++ take n (drop m xs)
take-add zero n xs = ap (λ k. take k xs) (omega arith)
take-add (suc m) n [] = take-nil (suc m + n) ∙ sym (take-nil n)
take-add (suc m) n (x ∷ xs) =
    let e : suc m + n ≡ suc (m + n) = omega arith in
    ap (λ k. take k (x ∷ xs)) e ∙ ap (◌∷◌ x) (take-add m n xs)

pub take-length-append : (s t : Text) → take (length s) (s ++ t) ≡ s
take-length-append [] t = refl
take-length-append (x ∷ s) t = ap (◌∷◌ x) (take-length-append s t)

pub drop-length-append : (s t : Text) → drop (length s) (s ++ t) ≡ t
drop-length-append [] t = refl
drop-length-append (x ∷ s) t = drop-length-append s t

-- A longer prefix is left of a shorter one than nothing.
pub take-take : (m n : ℕ) (xs : Text) → m ≤ n → take m (take n xs) ≡ take m xs
take-take zero n xs h = refl
take-take (suc m) zero xs h = absurd (omega (arith, h))
take-take (suc m) (suc n) [] h = refl
take-take (suc m) (suc n) (x ∷ xs) h = ap (◌∷◌ x) (take-take m n xs (omega (arith, h)))

pub drop-take : (m n : ℕ) (xs : Text) → drop m (take (m + n) xs) ≡ take n (drop m xs)
drop-take zero n xs = ap (λ k. take k xs) (omega arith)
drop-take (suc m) n [] = ap (drop (suc m)) (take-nil (suc m + n)) ∙ sym (take-nil n)
drop-take (suc m) n (x ∷ xs) =
    let e : suc m + n ≡ suc (m + n) = omega arith in
    ap (λ k. drop (suc m) (take k (x ∷ xs))) e ∙ drop-take m n xs

pub StandsAt-nil : (doc : Text) (pos : ℕ) → StandsAt doc pos []
StandsAt-nil doc pos = refl

pub StandsAt-append :
    (doc : Text) (pos : ℕ) (s t : Text)
    → StandsAt doc pos s
    → StandsAt doc (pos + length s) t
    → StandsAt doc pos (s ++ t)
StandsAt-append doc pos s t h k =
    ap (λ n. take n (drop pos doc)) (length-append s t)
    ∙ (take-add (length s) (length t) (drop pos doc)
        ∙ (ap (λ r. r ++ take (length t) (drop (length s) (drop pos doc))) h
            ∙ ap (◌++◌ s) (ap (take (length t)) (drop-drop pos (length s) doc) ∙ k)))

-- What is left of a text that stands in another stands in it too.
pub StandsAt-drop :
    (doc : Text) (pos n : ℕ) (t : Text)
    → n ≤ length t
    → StandsAt doc pos t
    → StandsAt doc (pos + n) (drop n t)
StandsAt-drop doc pos n t h k =
    ap (λ m. take m (drop (pos + n) doc)) (length-drop n t)
    ∙ (sym (ap (take (length t - n)) (drop-drop pos n doc))
        ∙ (sym (drop-take n (length t - n) (drop pos doc))
            ∙ ap (drop n) (ap (λ m. take m (drop pos doc)) (omega (arith, h)) ∙ k)))

pub StandsAt-take :
    (doc : Text) (pos n : ℕ) (t : Text)
    → n ≤ length t
    → StandsAt doc pos t
    → StandsAt doc pos (take n t)
StandsAt-take doc pos n t h k =
    ap (λ m. take m (drop pos doc)) (length-take n t ∙ omega (arith, h))
    ∙ (sym (take-take n (length t) (drop pos doc) h) ∙ ap (take n) k)

StandsAt-trans_room :
    (doc mid : Text) (pos at : ℕ) (t : Text)
    → StandsAt doc pos mid
    → StandsAt mid at t
    → at + length t ≤ length mid
    → StandsAt doc (pos + at) t
StandsAt-trans_room doc mid pos at t h k room = subst (StandsAt doc (pos + at)) k (
    StandsAt-take doc (pos + at) (length t) (drop at mid) (omega (arith, length-drop at mid, room))
      (StandsAt-drop doc pos at mid (omega (arith, room)) h))

-- A text that stands in one that stands in the document stands in the document.
pub StandsAt-trans :
    (doc mid : Text) (pos at : ℕ) (t : Text)
    → StandsAt doc pos mid
    → StandsAt mid at t
    → StandsAt doc (pos + at) t
StandsAt-trans doc mid pos at [] h k = refl
StandsAt-trans doc mid pos at (r ∷ rs) h k =
    let t : Text = r ∷ rs in
    let fits : length (take (length t) (drop at mid)) ≡ length t = ap length k in
    StandsAt-trans_room doc mid pos at t h k
      (omega (arith, fits, length-take (length t) (drop at mid), length-drop at mid))
