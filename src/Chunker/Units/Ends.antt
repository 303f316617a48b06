-- ===== src/Chunker/Units/Ends.antt =====
-- buildChunk of internal/chunker/splitter.go: where a chunk of consecutive units starts and ends.
use lybrix.Base.{ℕ, ◌≤◌, ◌≡◌, refl, ◌∙◌, true, List, [], ◌∷◌, arith}
use lybrix.Chunker.Runes.{Text}
use lybrix.Chunker.Units.{
  SplitUnit, Building, is_synthetic, build_step, build_from, nothing_built, build_chunk,
  range_start, range_end,
}
use lybrix.Chunker.Units.Built.{
  IsSource, Run, source_not_synthetic, IsHeading, build_step-first, build_step-IsHeading,
  build_from-Run,
}
use lybrix.Chunker.Overlap.{units_len}

build_step-plain :
    (doc : Text) (g : Building) (u : SplitUnit)
    → IsSource doc u
    → (build_step g u).synthetic ≡ g.synthetic
unfolding build_step
build_step-plain doc g u s = rw (source_not_synthetic doc u s) refl

build_from-plain :
    (doc : Text) (a b : ℕ) (g : Building) (units : List SplitUnit)
    → Run doc units a b
    → (build_from g units).synthetic ≡ g.synthetic
unfolding build_from
build_from-plain doc a b g [] r = refl
build_from-plain doc a b g (u ∷ units) (s, at, r) =
    build_from-plain doc u.end b (build_step g u) units r ∙ build_step-plain doc g u s

-- A chunk of source units alone has no synthetic prefix.
pub build_chunk-plain :
    (doc : Text) (a b seq : ℕ) (units : List SplitUnit)
    → Run doc units a b
    → (build_chunk units seq).synthetic_prefix_runes ≡ 0
unfolding build_chunk
build_chunk-plain doc a b seq units r = build_from-plain doc a b nothing_built units r

build_from-ends :
    (doc : Text) (a b : ℕ) (g : Building) (units : List SplitUnit)
    → IsHeading g
    → Run doc units a b
    → (range_end (build_from g units).range ≤ b)
      × (1 ≤ units_len units → range_start (build_from g units).range ≡ a)
unfolding build_from units_len
build_from-ends doc a b g [] h r =
    rw h.range_is (omega arith, λ filled. absurd (omega (arith, filled)))
build_from-ends doc a b g (u ∷ units) h (s, at, r) =
    let built =
      build_from-Run doc u.start u.end b (build_step g u) units (build_step-first doc g u s h) r in
    rw built.range_is (omega arith, λ filled. at)

-- A chunk ends at the offset where its units end, or before, and starts where they start.
pub build_chunk-ends :
    (doc : Text) (a b seq : ℕ) (units : List SplitUnit)
    → Run doc units a b
    → ((build_chunk units seq).end ≤ b) × (1 ≤ units_len units → (build_chunk units seq).start ≡ a)
unfolding build_chunk
build_chunk-ends doc a b seq units r =
    build_from-ends doc a b nothing_built units (record { range_is = refl; measured = refl }) r

-- The same behind a synthetic unit.
pub build_chunk-headed_ends :
    (doc : Text) (a b seq : ℕ) (u : SplitUnit) (units : List SplitUnit)
    → is_synthetic u ≡ true
    → Run doc units a b
    → ((build_chunk (u ∷ units) seq).end ≤ b)
      × (1 ≤ units_len units → (build_chunk (u ∷ units) seq).start ≡ a)
unfolding build_chunk build_from
build_chunk-headed_ends doc a b seq u units made r =
    build_from-ends doc a b (build_step nothing_built u) units
      (build_step-IsHeading nothing_built u made (record { range_is = refl; measured = refl })) r
