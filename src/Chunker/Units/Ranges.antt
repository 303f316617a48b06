-- ===== src/Chunker/Units/Ranges.antt =====
-- The range of a chunk of internal/chunker/splitter.go holds the units that it is built of.
use lybrix.Base.{ℕ, ◌≤◌, ◌<◌, ◌≡◌, refl, ◌⊎◌, inl, inr, false, List, [], ◌∷◌, ◌++◌, arith}
use lybrix.Chunker.Runes.{Text, has_text}
use lybrix.Chunker.Runes.Ink.{IsInk, blank_not-IsInk}
use lybrix.Chunker.Units.{
  SplitUnit, is_synthetic, Building, build_step, build_from, nothing_built, build_chunk,
  range_start, range_end, has_content,
}
use lybrix.Chunker.Units.Built.{
  Run, Packed, source, header, IsHeading, build_step-first, build_step-IsHeading, build_from-Run,
}

-- A unit of the source holds the place p.
abbrev pub In : ℕ → List SplitUnit → Type 0
In p [] = ⊥
In p (u ∷ units) = ((is_synthetic u ≡ false) × (u.start ≤ p) × (p < u.end)) ⊎ In p units

Run-le : (doc : Text) (a b : ℕ) (units : List SplitUnit) → Run doc units a b → a ≤ b
Run-le doc a b [] r = omega (arith, r)
Run-le doc a b (u ∷ units) (s, at, r) = omega (arith, s.measured, at, Run-le doc u.end b units r)

Run-In :
    (doc : Text) (a b p : ℕ) (units : List SplitUnit)
    → Run doc units a b
    → In p units
    → (a ≤ p) × (p < b)
Run-In doc a b p [] r i = absurd i
Run-In doc a b p (u ∷ units) (s, at, r) (inl (made, low, high)) =
    omega (arith, at, low, high, Run-le doc u.end b units r)
Run-In doc a b p (u ∷ units) (s, at, r) (inr i) =
    omega (arith, at, s.measured, Run-In doc u.end b p units r i)

build_from-holds :
    (doc : Text) (b p : ℕ) (g : Building) (units : List SplitUnit)
    → IsHeading g
    → Packed doc b units
    → In p units
    → (range_start (build_from g units).range ≤ p) × (p < range_end (build_from g units).range)
unfolding build_from
build_from-holds doc b p g [] h (source a r) i = absurd i
build_from-holds doc b p g (u ∷ units) h (source a (s, at, r)) i =
    let built =
      build_from-Run doc u.start u.end b (build_step g u) units (build_step-first doc g u s h) r in
    let bounds = Run-In doc u.start b p (u ∷ units) (s, refl, r) i in rw built.range_is bounds
build_from-holds doc b p g (u ∷ units) h (header v e q) (inl (made, low, high)) = cc (e, made)
build_from-holds doc b p g (u ∷ units) h (header v e q) (inr i) =
    build_from-holds doc b p (build_step g u) units (build_step-IsHeading g u e h) q i

pub build_chunk-holds :
    (doc : Text) (b p seq : ℕ) (units : List SplitUnit)
    → Packed doc b units
    → In p units
    → ((build_chunk units seq).start ≤ p) × (p < (build_chunk units seq).end)
unfolding build_chunk
build_chunk-holds doc b p seq units q i =
    build_from-holds doc b p nothing_built units (record { range_is = refl; measured = refl }) q i

has_content-blank :
    (u : SplitUnit) (units : List SplitUnit)
    → has_content (u ∷ units) ≡ false
    → (has_text u.text ≡ false) × (has_content units ≡ false)
unfolding has_content
has_content-blank u units h = ground (arith, h)

Run-blank :
    (doc : Text) (a b p : ℕ) (units : List SplitUnit)
    → Run doc units a b
    → has_content units ≡ false
    → In p units
    → ¬ IsInk doc p
Run-blank doc a b p [] r blank i = absurd i
Run-blank doc a b p (u ∷ units) (s, at, r) blank (inl (made, low, high)) =
    blank_not-IsInk doc u.start p u.text s.copied (has_content-blank u units blank).0 low
      (omega (arith, high, s.measured))
Run-blank doc a b p (u ∷ units) (s, at, r) blank (inr i) =
    Run-blank doc u.end b p units r (has_content-blank u units blank).1 i

-- An accumulation that is dropped for being blank has white space alone.
pub Packed-blank :
    (doc : Text) (b p : ℕ) (units : List SplitUnit)
    → Packed doc b units
    → has_content units ≡ false
    → In p units
    → ¬ IsInk doc p
Packed-blank doc b p units (source a r) blank i = Run-blank doc a b p units r blank i
Packed-blank doc b p (u ∷ units) (header v e q) blank (inl (made, low, high)) = cc (e, made)
Packed-blank doc b p (u ∷ units) (header v e q) blank (inr i) =
    Packed-blank doc b p units q (has_content-blank u units blank).1 i

pub In-append : (p : ℕ) (us vs : List SplitUnit) → In p us ⊎ In p vs → In p (us ++ vs)
In-append p [] vs (inl i) = absurd i
In-append p [] vs (inr i) = i
In-append p (u ∷ us) vs (inl (inl here)) = inl here
In-append p (u ∷ us) vs (inl (inr i)) = inr (In-append p us vs (inl i))
In-append p (u ∷ us) vs (inr i) = inr (In-append p us vs (inr i))
