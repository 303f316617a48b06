-- ===== src/Chunker/Units/Built.antt =====
-- buildChunk of internal/chunker/splitter.go: a chunk of consecutive units is a slice of the text.
use lybrix.Base.{
  ℕ, zero, suc, ◌+◌, ◌≤◌, ◌≡◌, refl, sym, subst, true, false, none, some, List, [], ◌∷◌, ◌++◌,
  length, drop, arith, length-append, length-drop,
}
use lybrix.Chunker.Runes.{Text}
use lybrix.Chunker.Runes.Places.{StandsAt, StandsAt-append, drop-length-append}
use lybrix.Chunker.Units.{
  SplitUnit, Chunk, is_synthetic, Building, build_step, build_from, nothing_built, build_chunk,
  range_start, range_end,
}

-- A unit of the source: the text that stands at its start, with a rune at least.
pub record IsSource (doc : Text) (u : SplitUnit) : Type 0 where
  pub filled : 1 ≤ length u.text
  pub measured : u.end ≡ u.start + length u.text
  pub copied : StandsAt doc u.start u.text

-- Units of the source, one behind the other, from the first offset to the second.
abbrev pub Run : Text → List SplitUnit → ℕ → ℕ → Type 0
Run doc [] a b = a ≡ b
Run doc (u ∷ units) a b = IsSource doc u × (u.start ≡ a) × Run doc units u.end b

-- Synthetic units, and then a run that ends at the offset.
pub data Packed (doc : Text) (b : ℕ) : List SplitUnit → Type 0 where
  source : {units : List SplitUnit} (a : ℕ) → Run doc units a b → Packed doc b units
  header :
      {units : List SplitUnit} (u : SplitUnit)
      → is_synthetic u ≡ true
      → Packed doc b units
      → Packed doc b (u ∷ units)

-- A chunk as its comment promises it: behind the synthetic prefix, its content is the slice of the
-- text from its start to its end.
pub record IsVerbatim (doc : Text) (c : Chunk) : Type 0 where
  pub prefixed : c.synthetic_prefix_runes ≤ length c.content
  pub measured : c.end + c.synthetic_prefix_runes ≡ c.start + length c.content
  pub copied : StandsAt doc c.start (drop c.synthetic_prefix_runes c.content)

-- A unit of the source is not taken for a synthetic one.
pub source_not_synthetic : (doc : Text) (u : SplitUnit) → IsSource doc u → is_synthetic u ≡ false
unfolding is_synthetic
source_not_synthetic doc u s = ground (arith, s.filled, s.measured)

-- What is built after units of the source up to the offset.
pub record IsBuilt (doc : Text) (start b : ℕ) (g : Building) : Type 0 where
  pub range_is : g.range ≡ some (start, b)
  pub prefixed : g.synthetic ≤ length g.content
  pub measured : b + g.synthetic ≡ start + length g.content
  pub copied : StandsAt doc start (drop g.synthetic g.content)

drop-append : (n : ℕ) (s t : Text) → n ≤ length s → drop n (s ++ t) ≡ drop n s ++ t
drop-append zero s t h = refl
drop-append (suc n) [] t h = absurd (omega (arith, h))
drop-append (suc n) (x ∷ s) t h = drop-append n s t (omega (arith, h))

-- The unit behind what has been copied is copied too.
pub grown-copied :
    (doc : Text) (start at n : ℕ) (s t : Text)
    → n ≤ length s
    → at + n ≡ start + length s
    → StandsAt doc start (drop n s)
    → StandsAt doc at t
    → StandsAt doc start (drop n (s ++ t))
grown-copied doc start at n s t h m k l =
    let e : at ≡ start + length (drop n s) = omega (arith, length-drop n s, h, m) in
    subst (StandsAt doc start) (sym (drop-append n s t h))
      (StandsAt-append doc start (drop n s) t k (subst (λ p. StandsAt doc p t) e l))

build_step-source :
    (doc : Text) (start : ℕ) (g : Building) (u : SplitUnit)
    → IsSource doc u
    → IsBuilt doc start u.start g
    → IsBuilt doc start u.end (build_step g u)
unfolding build_step
build_step-source doc start g u s h = rw (source_not_synthetic doc u s) (record {
  range_is = rw h.range_is refl;
  prefixed = omega (arith, h.prefixed, length-append g.content u.text);
  measured = omega (arith, h.measured, s.measured, length-append g.content u.text);
  copied =
      grown-copied doc start u.start g.synthetic g.content u.text h.prefixed h.measured h.copied
        s.copied;
})

pub build_from-Run :
    (doc : Text) (start a b : ℕ) (g : Building) (units : List SplitUnit)
    → IsBuilt doc start a g
    → Run doc units a b
    → IsBuilt doc start b (build_from g units)
unfolding build_from
build_from-Run doc start a b g [] h r = subst (λ p. IsBuilt doc start p g) r h
build_from-Run doc start a b g (u ∷ units) h (s, at, r) =
    build_from-Run doc start u.end b (build_step g u) units
      (build_step-source doc start g u s (subst (λ p. IsBuilt doc start p g) (sym at) h)) r

-- Synthetic units alone have been built.
pub record IsHeading (g : Building) : Type 0 where
  pub range_is : g.range ≡ none
  pub measured : g.synthetic ≡ length g.content

pub build_step-first :
    (doc : Text) (g : Building) (u : SplitUnit)
    → IsSource doc u
    → IsHeading g
    → IsBuilt doc u.start u.end (build_step g u)
unfolding build_step
build_step-first doc g u s h = rw (source_not_synthetic doc u s) (record {
  range_is = rw h.range_is refl;
  prefixed = omega (arith, h.measured, length-append g.content u.text);
  measured = omega (arith, h.measured, s.measured, length-append g.content u.text);
  copied =
      subst (StandsAt doc u.start) (sym (rw h.measured (drop-length-append g.content u.text)))
        s.copied;
})

pub build_step-IsHeading :
    (g : Building) (u : SplitUnit)
    → is_synthetic u ≡ true
    → IsHeading g
    → IsHeading (build_step g u)
unfolding build_step
build_step-IsHeading g u e h = rw e (record {
  range_is = h.range_is;
  measured = omega (arith, h.measured, length-append g.content u.text);
})

-- What is left when all units are built.
abbrev IsDone : Text → Building → Type 0
IsDone doc g =
    (g.synthetic ≤ length g.content)
    × (range_end g.range + g.synthetic ≡ range_start g.range + length g.content)
    × StandsAt doc (range_start g.range) (drop g.synthetic g.content)

IsBuilt-IsDone : (doc : Text) (start b : ℕ) (g : Building) → IsBuilt doc start b g → IsDone doc g
IsBuilt-IsDone doc start b g h = rw h.range_is (h.prefixed, h.measured, h.copied)

drop_all : (t : Text) → drop (length t) t ≡ []
drop_all [] = refl
drop_all (x ∷ t) = drop_all t

build_from-Run_first :
    (doc : Text) (a b : ℕ) (g : Building) (units : List SplitUnit)
    → IsHeading g
    → Run doc units a b
    → IsDone doc (build_from g units)
unfolding build_from
build_from-Run_first doc a b g [] h r =
    rw (h.range_is, h.measured)
      (omega arith, refl, subst (StandsAt doc 0) (sym (drop_all g.content)) refl)
build_from-Run_first doc a b g (u ∷ units) h (s, at, r) =
    IsBuilt-IsDone doc u.start b (build_from (build_step g u) units)
      (build_from-Run doc u.start u.end b (build_step g u) units (build_step-first doc g u s h) r)

build_from-packed :
    (doc : Text) (b : ℕ) (g : Building) (units : List SplitUnit)
    → IsHeading g
    → Packed doc b units
    → IsDone doc (build_from g units)
unfolding build_from
build_from-packed doc b g units h (source a r) = build_from-Run_first doc a b g units h r
build_from-packed doc b g (u ∷ units) h (header v e p) =
    build_from-packed doc b (build_step g u) units (build_step-IsHeading g u e h) p

pub build_chunk-IsVerbatim :
    (doc : Text) (b seq : ℕ) (units : List SplitUnit)
    → Packed doc b units
    → IsVerbatim doc (build_chunk units seq)
unfolding build_chunk
build_chunk-IsVerbatim doc b seq units p =
    let done =
      build_from-packed doc b nothing_built units (record { range_is = refl; measured = refl }) p in
    record { prefixed = done.0; measured = done.1; copied = done.2 }
