-- ===== src/Chunker/Merge/Turns.antt =====
-- mergeUnits of internal/chunker/splitter.go: the closing of a chunk and the header of the next keep
-- chunks that start with a header apart from the ones before.
use lybrix.Base.{
  ℕ, ◌+◌, ◌-◌, ◌≤◌, ◌<◌, ◌≡◌, refl, sym, subst, inl, inr, true, not, ◌&&◌, Option, none, some, List,
  [], ◌∷◌, ◌++◌, ltb, leb, ◌==◌, length, arith, Bool-cases, All,
}
use lybrix.Chunker.Runes.{Text}
use lybrix.Chunker.Units.{
  Patterns, SplitUnit, Chunk, is_synthetic, units_text, build_chunk, has_content,
}
use lybrix.Chunker.Units.Built.{IsSource, Run}
use lybrix.Chunker.Units.Ends.{build_chunk-plain, build_chunk-ends, build_chunk-headed_ends}
use lybrix.Chunker.Cuts.{cuts}
use lybrix.Chunker.Cuts.Whole.{Pieces, cuts-Pieces}
use lybrix.Chunker.Overlap.{units_len}
use lybrix.Chunker.Overlap.Kept.{IsOverlap}
use lybrix.Chunker.Headers.{header_already_present, header_column_mismatch}
use lybrix.Chunker.Merge.{
  Merging, absolute_max_size, flush, chop_from, chop_oversize, chop_unit, shrink, start_of,
  header_unit, with_header, inject,
}
use lybrix.Chunker.Merge.Closing.{build_chunk-length}
use lybrix.Chunker.Merge.Verbatim.{shrink-fits}
use lybrix.Chunker.Merge.Tight.{
  Apart, Tight, last_of, last_of-append, Tight-append, IsPlain, plain-Tight, EndsBy, EndsBy-le,
  All-EndsBy,
}

-- The units of the next chunk, up to the offset b: source units, or a header that stands apart from
-- the chunk before; `extra` runes are about to follow.
pub data Opens (doc : Text) (size b extra : ℕ) (prev : Option Chunk) : List SplitUnit → Type 0 where
  plain : {units : List SplitUnit} (a : ℕ) → Run doc units a b → Opens doc size b extra prev units
  headed :
      {units : List SplitUnit} (u : SplitUnit) (a : ℕ)
      → is_synthetic u ≡ true
      → Run doc units a b
      → 1 ≤ units_len units + extra
      → length u.text + units_len units + extra ≤ size
      → Apart size prev a (length u.text + units_len units + extra)
      → Opens doc size b extra prev (u ∷ units)

pub record IsTight (doc : Text) (size b extra : ℕ) (m : Merging) : Type 0 where
  pub tight : Tight size none m.chunks
  pub opens : Opens doc size b extra (last_of none m.chunks) m.current
  pub behind : EndsBy b (last_of none m.chunks)

pub Apart-more :
    (size start len more : ℕ) (prev : Option Chunk)
    → len ≤ more
    → Apart size prev start len
    → Apart size prev start more
Apart-more size start len more none h k = k
Apart-more size start len more (some c) h k = λ at. omega (arith, h, k at)

Run-length :
    (doc : Text) (a b : ℕ) (units : List SplitUnit) → Run doc units a b → b ≡ a + units_len units
unfolding units_len
Run-length doc a b [] r = omega (arith, r)
Run-length doc a b (u ∷ units) (s, at, r) =
    omega (arith, s.measured, at, Run-length doc u.end b units r)

-- What is closed stands apart if it starts with a header.
closed-Apart :
    (doc : Text) (size b seq : ℕ) (prev : Option Chunk) (units : List SplitUnit)
    → Opens doc size b 0 prev units
    → (0 < (build_chunk units seq).synthetic_prefix_runes
        → Apart size prev (build_chunk units seq).start (length (build_chunk units seq).content))
      × ((build_chunk units seq).end ≤ b)
unfolding units_len
closed-Apart doc size b seq prev units (plain a r) = (
  λ made. absurd (omega (arith, made, build_chunk-plain doc a b seq units r)),
  (build_chunk-ends doc a b seq units r).0,
)
closed-Apart doc size b seq prev (u ∷ units) (headed v a made r filled fits apart) =
    let ends = build_chunk-headed_ends doc a b seq u units made r in
    let at = ends.1 (omega (arith, filled)) in
    let long : length u.text + units_len units + 0 ≤ length (build_chunk (u ∷ units) seq).content =
      omega (arith, build_chunk-length (u ∷ units) seq) in
    (
      λ made'.
          Apart-more size (build_chunk (u ∷ units) seq).start (length u.text + units_len units + 0)
            (length (build_chunk (u ∷ units) seq).content) prev long
            (subst (λ p. Apart size prev p (length u.text + units_len units + 0)) (sym at) apart),
      ends.0,
    )

pub flush-IsTight :
    (doc : Text) (size b extra : ℕ) (m : Merging)
    → IsTight doc size b 0 m
    → IsTight doc size b extra (flush m)
unfolding flush
flush-IsTight doc size b extra m h = elim (Bool-cases (has_content m.current)) [
  | inl full ↦
      let d = build_chunk m.current (length m.chunks) in
      let closed =
        closed-Apart doc size b (length m.chunks) (last_of none m.chunks) m.current h.opens in
      let last : last_of none (m.chunks ++ d ∷ []) ≡ some d =
        last_of-append none m.chunks (d ∷ []) in
      rw full (record {
        tight = Tight-append size none m.chunks (d ∷ []) h.tight (closed.0, tt);
        opens = plain b refl;
        behind = subst (EndsBy b) (sym last) closed.1;
      })
  | inr blank ↦ rw blank (record { tight = h.tight; opens = plain b refl; behind = h.behind })
]

chop_from-IsPlain :
    (a : ℕ) (u : SplitUnit) (seq : ℕ) (pieces : List (ℕ × ℕ))
    → u.end ≡ u.start + length u.text
    → Pieces absolute_max_size a (length u.text) pieces
    → All IsPlain (chop_from u seq pieces)
      × All (λ (c : Chunk). c.end ≤ u.end) (chop_from u seq pieces)
unfolding chop_from
chop_from-IsPlain a u seq [] e p = (tt, tt)
chop_from-IsPlain a u seq ((o, e') ∷ pieces) e (at, grows, fits, room, p) =
    let rest = chop_from-IsPlain e' u (seq + 1) pieces e p in
    ((refl, rest.0), (omega (arith, e, room), rest.1))

pub chop_unit-IsTight :
    (doc : Text) (size : ℕ) (u : SplitUnit) (m : Merging)
    → IsSource doc u
    → IsTight doc size u.start 0 m
    → IsTight doc size u.end 0 (chop_unit u m)
unfolding chop_unit chop_oversize flush
chop_unit-IsTight doc size u m s h =
    let t = flush m in
    let closed = flush-IsTight doc size u.start 0 m h in
    let pieces = chop_oversize u (length t.chunks) in
    let made =
      chop_from-IsPlain 0 u (length t.chunks) (cuts absolute_max_size u.text) s.measured
        (cuts-Pieces absolute_max_size u.text (omega arith)) in
    let last = last_of-append none t.chunks pieces in
    record {
      tight =
          Tight-append size none t.chunks pieces closed.tight
            (plain-Tight size (last_of none t.chunks) pieces made.0);
      opens = plain u.end refl;
      behind = subst (EndsBy u.end) (sym last) (
          All-EndsBy u.end (last_of none t.chunks) pieces
            (EndsBy-le u.start u.end (last_of none t.chunks) (omega (arith, s.measured))
              closed.behind)
            made.1);
    }

shrink-le : (size extra n : ℕ) (units : List SplitUnit) → (shrink size extra units n).1 ≤ n
unfolding shrink
shrink-le size extra n [] = omega arith
shrink-le size extra n (u ∷ units) = elim (Bool-cases (ltb size (n + extra))) [
  | inl long ↦ rw long (omega (arith, shrink-le size extra (n - length u.text) units))
  | inr fits ↦ rw fits (omega arith)
]

-- Whatever part of the overlap is left, the header before it stands apart.
abbrev pub StaysApart : ℕ → ℕ → Option Chunk → Text → SplitUnit → ℕ → Type 0
StaysApart size b prev headers u n =
    (a k : ℕ) → k ≤ n → b ≡ a + k → Apart size prev a (length headers + k + length u.text)

with_header-Opens :
    (ps : Patterns) (doc headers : Text) (size b a n : ℕ) (prev : Option Chunk) (u : SplitUnit)
    (units : List SplitUnit)
    → 1 ≤ length u.text
    → Run doc units a b
    → n ≡ units_len units
    → n + (length u.text + length headers) ≤ size
    → Apart size prev a (length headers + n + length u.text)
    → Opens doc size b (length u.text) prev (with_header ps headers u (units, n)).0
unfolding with_header is_synthetic
with_header-Opens ps doc headers size b a n prev u units filled r e fits apart =
    elim (Bool-cases (
      not (header_already_present headers (units_text units) u.text)
      && not (header_column_mismatch ps headers u.text))) [
        | inr left_out ↦ rw left_out (plain a r)
        | inl wanted ↦ rw wanted (
            headed (header_unit headers (start_of u.start units)) a (ground arith) r
              (omega (arith, filled)) (omega (arith, fits, e))
              (subst (λ k. Apart size prev a (length headers + k + length u.text)) e apart))
      ]

pub inject-Opens :
    (ps : Patterns) (doc headers : Text) (size b n : ℕ) (prev : Option Chunk) (u : SplitUnit)
    (units : List SplitUnit)
    → 1 ≤ length u.text
    → IsOverlap doc b n (units, n)
    → StaysApart size b prev headers u n
    → Opens doc size b (length u.text) prev (inject ps size headers u (units, n)).0
unfolding inject
inject-Opens ps doc headers size b n prev u units filled ((a, r), e, h) apart =
    let extra = length u.text + length headers in
    let next = shrink size extra units n in
    elim (Bool-cases (not (length headers == 0) && leb (length headers + length u.text) size)) [
      | inr none_fits ↦ rw none_fits (plain a r)
      | inl room ↦
          let (((a', r'), e', h'), fits) =
            shrink-fits doc a b n size extra n units r e h (ground (arith, room)) in
          rw room (
            with_header-Opens ps doc headers size b a' next.1 prev u next.0 filled r' e' fits (
              apart a' next.1 (shrink-le size extra n units)
                (omega (arith, e', Run-length doc a' b next.0 r'))))
    ]
