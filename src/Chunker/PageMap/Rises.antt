-- ===== src/Chunker/PageMap/Rises.antt =====
-- rangeFor of internal/chunker/pagemap.go: on pages that never fall, a range ends on no page before
-- its first.
use lybrix.Base.{
  ℕ, zero, suc, ◌+◌, ◌-◌, ◌≤◌, ◌≡◌, refl, inl, inr, Option, none, some, List, [], ◌∷◌, leb, ◌==◌,
  if◌then◌else◌, length, get_elem?, arith, Bool-cases,
}
use lybrix.Stitch.Pages.{Rising}
use lybrix.Chunker.PageMap.{
  PageMapper, is_nil, new_page_mapper, search_ints, line_at, line_starts, line_for_rune, range_for,
  pages_of, both,
}

search_ints-le : (xs : List ℕ) (x y : ℕ) → x ≤ y → search_ints xs x ≤ search_ints xs y
unfolding search_ints
search_ints-le [] x y h = omega arith
search_ints-le (a ∷ xs) x y h = ground (arith, h, search_ints-le xs x y h)

get_elem?-Rising :
    (low : ℕ) (pages : List ℕ) (j q : ℕ) → Rising low pages → get_elem? pages j ≡ some q → low ≤ q
get_elem?-Rising low [] j q r f = cc f
get_elem?-Rising low (a ∷ pages) zero q (le, r) f = ground (arith, le, f)
get_elem?-Rising low (a ∷ pages) (suc j) q (le, r) f =
    omega (arith, le, get_elem?-Rising a pages j q r f)

get_elem?-Rising_both :
    (low : ℕ) (pages : List ℕ) (i j p q : ℕ)
    → Rising low pages
    → i ≤ j
    → get_elem? pages i ≡ some p
    → get_elem? pages j ≡ some q
    → p ≤ q
get_elem?-Rising_both low [] i j p q r h e f = cc e
get_elem?-Rising_both low (a ∷ pages) zero zero p q r h e f = ground (arith, e, f)
get_elem?-Rising_both low (a ∷ pages) zero (suc j) p q (le, r) h e f =
    ground (arith, e, get_elem?-Rising a pages j q r f)
get_elem?-Rising_both low (a ∷ pages) (suc i) zero p q r h e f = absurd (omega (arith, h))
get_elem?-Rising_both low (a ∷ pages) (suc i) (suc j) p q (le, r) h e f =
    get_elem?-Rising_both a pages i j p q r (omega (arith, h)) e f

-- A range whose last page is not before its first, if there is one.
abbrev pub Rises : Option (ℕ × ℕ) → Type 0
Rises none = Unit
Rises (some (p, q)) = p ≤ q

both-Rises : (x y : Option ℕ) → ((p q : ℕ) → x ≡ some p → y ≡ some q → p ≤ q) → Rises (both x y)
both-Rises none y h = tt
both-Rises (some p) none h = tt
both-Rises (some p) (some q) h = h p q refl refl

lines-Rises :
    (m : PageMapper) (a b : ℕ)
    → Rising 0 m.pages
    → a ≤ b
    → Rises (pages_of m.pages (line_at m a) (line_at m b))
lines-Rises m zero b r h = tt
lines-Rises m (suc a) zero r h = absurd (omega (arith, h))
lines-Rises m (suc a) (suc b) r h = elim (Bool-cases (leb (length m.pages) a)) [
  | inl past ↦ rw past tt
  | inr in_a ↦ elim (Bool-cases (leb (length m.pages) b)) [
    | inl past ↦ rw (in_a, past) tt
    | inr in_b ↦
        rw (in_a, in_b)
          (both-Rises (get_elem? m.pages a) (get_elem? m.pages b)
            (λ p q e f. get_elem?-Rising_both 0 m.pages a b p q r (omega (arith, h)) e f))
  ]
]

runes-Rises :
    (m : PageMapper) (a b : ℕ)
    → Rising 0 m.pages
    → a ≤ b
    → Rises (pages_of m.pages (line_for_rune m a) (line_for_rune m b))
unfolding line_for_rune
runes-Rises m a b r h = elim (Bool-cases (is_nil m.line_start_runes)) [
  | inl nothing ↦ rw nothing tt
  | inr lines ↦ rw lines (
      lines-Rises m (search_ints m.line_start_runes (a + 1))
        (search_ints m.line_start_runes (b + 1)) r
        (search_ints-le m.line_start_runes (a + 1) (b + 1) (omega (arith, h))))
]

pub range_for-Rises :
    (m : PageMapper) (start end : ℕ) → Rising 0 m.pages → Rises (range_for m start end)
unfolding range_for
range_for-Rises m start end r = elim (Bool-cases (is_nil m.pages)) [
  | inl nothing ↦ rw nothing tt
  | inr pages ↦
      rw pages
        (runes-Rises m start ((if leb end start then start + 1 else end) - 1) r (ground arith))
]

pub new_page_mapper-Rising :
    (markdown pages : List ℕ) → Rising 0 pages → Rising 0 (new_page_mapper markdown pages).pages
unfolding new_page_mapper
new_page_mapper-Rising markdown pages r = elim (Bool-cases (is_nil pages)) [
  | inl nothing ↦ rw nothing tt
  | inr some_pages ↦ elim (Bool-cases (is_nil markdown)) [
    | inl empty ↦ rw (some_pages, empty) tt
    | inr filled ↦ elim (Bool-cases (length (line_starts markdown) == length pages)) [
      | inl same ↦ rw (some_pages, filled, same) r
      | inr differs ↦ rw (some_pages, filled, differs) tt
    ]
  ]
]
