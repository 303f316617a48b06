-- ===== src/Chunker/Merge/Closing.antt =====
-- mergeUnits of internal/chunker/splitter.go: the invariant of its loop, where a chunk is closed.
use lybrix.Base.{
  ℕ, ◌+◌, ◌≤◌, ◌≡◌, refl, subst, ◌∙◌, inl, inr, List, [], ◌∷◌, ◌++◌, length, arith, length-append,
  Bool-cases, All, All-append,
}
use lybrix.Chunker.Runes.{Text}
use lybrix.Chunker.Units.{
  SplitUnit, Chunk, Building, is_synthetic, build_step, build_from, nothing_built, build_chunk,
  has_content,
}
use lybrix.Chunker.Units.Built.{IsSource, Packed, source, IsVerbatim, build_chunk-IsVerbatim}
use lybrix.Chunker.Cuts.{cuts}
use lybrix.Chunker.Cuts.Whole.{Pieces, cuts-Pieces, length-slice, StandsAt-slice}
use lybrix.Chunker.Overlap.{units_len}
use lybrix.Chunker.Merge.{Merging, absolute_max_size, flush, chop_from, chop_oversize, chop_unit}

-- A chunk that is a slice of the text behind its synthetic prefix, and is not too long.
abbrev pub IsSound : Text → ℕ → Chunk → Type 0
IsSound doc longest c = IsVerbatim doc c × (length c.content ≤ longest)

abbrev pub Numbered : ℕ → List Chunk → Type 0
Numbered n [] = Unit
Numbered n (c ∷ chunks) = (c.seq ≡ n) × Numbered (n + 1) chunks

pub Numbered-append :
    (n : ℕ) (cs ds : List Chunk)
    → Numbered n cs
    → Numbered (n + length cs) ds
    → Numbered n (cs ++ ds)
Numbered-append n [] ds h k = subst (λ m. Numbered m ds) (omega arith) k
Numbered-append n (c ∷ cs) ds (e, h) k =
    (e, Numbered-append (n + 1) cs ds h (subst (λ m. Numbered m ds) (omega arith) k))

pub units_len-append : (us vs : List SplitUnit) → units_len (us ++ vs) ≡ units_len us + units_len vs
unfolding units_len
units_len-append [] vs = omega arith
units_len-append (u ∷ us) vs = omega (arith, units_len-append us vs)

build_step-length :
    (g : Building) (u : SplitUnit)
    → length (build_step g u).content ≡ length g.content + length u.text
unfolding build_step
build_step-length g u = elim (Bool-cases (is_synthetic u)) [
  | inl made ↦ rw made (length-append g.content u.text)
  | inr copied ↦ rw copied (length-append g.content u.text)
]

build_from-length :
    (g : Building) (units : List SplitUnit)
    → length (build_from g units).content ≡ length g.content + units_len units
unfolding build_from units_len
build_from-length g [] = omega arith
build_from-length g (u ∷ units) =
    omega (arith, build_from-length (build_step g u) units, build_step-length g u)

pub build_chunk-length :
    (units : List SplitUnit) (seq : ℕ) → length (build_chunk units seq).content ≡ units_len units
unfolding build_chunk
build_chunk-length units seq = build_from-length nothing_built units ∙ omega arith

build_chunk-seq : (units : List SplitUnit) (seq : ℕ) → (build_chunk units seq).seq ≡ seq
unfolding build_chunk
build_chunk-seq units seq = refl

-- The invariant: sound chunks, numbered from 0, and units up to the offset b that are not too long.
pub record IsMerging (doc : Text) (longest b : ℕ) (m : Merging) : Type 0 where
  pub sound : All (IsSound doc longest) m.chunks
  pub numbered : Numbered 0 m.chunks
  pub packed : Packed doc b m.current
  pub measured : m.cur_len ≡ units_len m.current
  pub short : m.cur_len ≤ longest

pub flush-IsMerging :
    (doc : Text) (longest b c : ℕ) (m : Merging)
    → IsMerging doc longest b m
    → IsMerging doc longest c (flush m)
unfolding flush units_len
flush-IsMerging doc longest b c m h = elim (Bool-cases (has_content m.current)) [
  | inl full ↦ rw full (record {
    sound =
        All-append (IsSound doc longest) m.chunks (build_chunk m.current (length m.chunks) ∷ [])
          h.sound
          (
            (
              build_chunk-IsVerbatim doc b (length m.chunks) m.current h.packed,
              omega (arith, build_chunk-length m.current (length m.chunks), h.measured, h.short),
            ),
            tt,
          );
    numbered =
        Numbered-append 0 m.chunks (build_chunk m.current (length m.chunks) ∷ []) h.numbered
          (build_chunk-seq m.current (length m.chunks) ∙ omega arith, tt);
    packed = source c refl;
    measured = refl;
    short = omega arith;
  })
  | inr blank ↦ rw blank (record {
    sound = h.sound;
    numbered = h.numbered;
    packed = source c refl;
    measured = refl;
    short = omega arith;
  })
]

-- The pieces of an oversize unit.
chop_from-IsSound :
    (doc : Text) (longest a : ℕ) (u : SplitUnit) (seq : ℕ) (pieces : List (ℕ × ℕ))
    → absolute_max_size ≤ longest
    → IsSource doc u
    → Pieces absolute_max_size a (length u.text) pieces
    → All (IsSound doc longest) (chop_from u seq pieces) × Numbered seq (chop_from u seq pieces)
unfolding chop_from
chop_from-IsSound doc longest a u seq [] h s p = (tt, tt)
chop_from-IsSound doc longest a u seq ((o, e) ∷ pieces) h s (at, grows, fits, room, p) =
    let len = length-slice u.text o e room in
    let rest = chop_from-IsSound doc longest e u (seq + 1) pieces h s p in
    (
      (
        (
          record {
            prefixed = omega arith;
            measured = omega (arith, len, at, grows);
            copied = StandsAt-slice doc u.start o e u.text (omega (arith, at, grows)) room s.copied;
          },
          omega (arith, len, at, fits, h),
        ),
        rest.0,
      ),
      (refl, rest.1),
    )

pub chop_unit-IsMerging :
    (doc : Text) (longest b c : ℕ) (u : SplitUnit) (m : Merging)
    → absolute_max_size ≤ longest
    → IsSource doc u
    → IsMerging doc longest b m
    → IsMerging doc longest c (chop_unit u m)
unfolding chop_unit chop_oversize flush
chop_unit-IsMerging doc longest b c u m h s k =
    let t = flush m in
    let closed = flush-IsMerging doc longest b c m k in
    let pieces =
      chop_from-IsSound doc longest 0 u (length t.chunks) (cuts absolute_max_size u.text) h s
        (cuts-Pieces absolute_max_size u.text (omega arith)) in
    record {
      sound =
          All-append (IsSound doc longest) t.chunks (chop_oversize u (length t.chunks)) closed.sound
            pieces.0;
      numbered =
          Numbered-append 0 t.chunks (chop_oversize u (length t.chunks)) closed.numbered
            (subst (λ n. Numbered n (chop_oversize u (length t.chunks))) (omega arith) pieces.1);
      packed = closed.packed;
      measured = closed.measured;
      short = closed.short;
    }
