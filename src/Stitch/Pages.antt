-- ===== src/Stitch/Pages.antt =====
-- internal/pipeline/stitch.go: the pages of the lines of one shard.
use native.Mathlib.Nat.{le-div_iff_mul-le, div-lt_iff_lt-mul, div-mul-le_self}
use lybrix.Base.{
  ℕ, zero, suc, ◌+◌, ◌-◌, ◌*◌, ◌/◌, ◌≤◌, ◌<◌, List, [], ◌∷◌, ◌++◌, length, take, drop, arith, All,
}
use lybrix.Chunker.Runes.{Text}
use lybrix.Stitch.{pages_from}

-- Pages that never fall, from `low` on.
abbrev pub Rising : ℕ → List ℕ → Type 0
Rising low [] = Unit
Rising low (p ∷ pages) = (low ≤ p) × Rising p pages

abbrev pub UpTo : ℕ → List ℕ → Type 0
UpTo high = All (λ (p : ℕ). p ≤ high)

pub Rising-from :
    (low low' : ℕ) (pages : List ℕ) → low' ≤ low → Rising low pages → Rising low' pages
Rising-from low low' [] h r = tt
Rising-from low low' (p ∷ pages) h (k, r) = (omega (arith, h, k), r)

pub UpTo-le : (high high' : ℕ) (pages : List ℕ) → high ≤ high' → UpTo high pages → UpTo high' pages
UpTo-le high high' [] h u = tt
UpTo-le high high' (p ∷ pages) h (k, u) = (omega (arith, h, k), UpTo-le high high' pages h u)

pub Rising-append :
    (low high : ℕ) (ps qs : List ℕ)
    → low ≤ high
    → Rising low ps
    → UpTo high ps
    → Rising high qs
    → Rising low (ps ++ qs)
Rising-append low high [] qs h r u k = Rising-from high low qs h k
Rising-append low high (p ∷ ps) qs h (le, r) (up, u) k = (le, Rising-append p high ps qs up r u k)

pub Rising-drop : (n low : ℕ) (pages : List ℕ) → Rising low pages → Rising low (drop n pages)
Rising-drop zero low pages r = r
Rising-drop (suc n) low [] r = tt
Rising-drop (suc n) low (p ∷ pages) (le, r) =
    Rising-from p low (drop n pages) le (Rising-drop n p pages r)

pub Rising-take : (n low : ℕ) (pages : List ℕ) → Rising low pages → Rising low (take n pages)
Rising-take zero low pages r = tt
Rising-take (suc n) low [] r = tt
Rising-take (suc n) low (p ∷ pages) (le, r) = (le, Rising-take n p pages r)

div_mono : (a b n : ℕ) → 0 < n → a ≤ b → a / n ≤ b / n
div_mono a b n h k = (le-div_iff_mul-le h).1 (omega (arith, k, div-mul-le_self a n))

mul_mono : (a b c : ℕ) → a ≤ b → a * c ≤ b * c
mul_mono a b zero h = ground arith
mul_mono a b (suc c) h = omega (arith, h, mul_mono a b c h)

part-in_span : (at span n : ℕ) → at < n → 1 ≤ span → (at * span) / n < span
part-in_span at span n h k =
    let step : (at + 1) * span ≤ n * span = mul_mono (at + 1) n span (omega (arith, h)) in
    (div-lt_iff_lt-mul (omega (arith, h))).1 (omega (arith, step, k))

pub pages_from-Rising :
    (low page_start span n at : ℕ) (lines : List Text)
    → 1 ≤ span
    → at + length lines ≤ n
    → low ≤ page_start + (at * span) / n
    → Rising low (pages_from page_start span n at lines)
      × UpTo (page_start + span - 1) (pages_from page_start span n at lines)
unfolding pages_from
pages_from-Rising low page_start span n at [] h k le = (tt, tt)
pages_from-Rising low page_start span n at (line ∷ lines) h k le =
    let grows : (at * span) / n ≤ ((at + 1) * span) / n =
      div_mono (at * span) ((at + 1) * span) n (omega (arith, k))
        (mul_mono at (at + 1) span (omega arith)) in
    let rest =
      pages_from-Rising (page_start + (at * span) / n) page_start span n (at + 1) lines h
        (omega (arith, k)) (omega (arith, grows)) in
    let below = part-in_span at span n (omega (arith, k)) h in
    ((le, rest.0), (omega (arith, below), rest.1))
