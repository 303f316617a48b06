-- ===== src/Chunker/Strategy/Remapped.antt =====
-- remapChild of internal/chunker/strategy.go keeps a child a slice of the document.
use lybrix.Base.{
  ℕ, ◌+◌, ◌-◌, ◌≤◌, ◌≡◌, refl, ap, sym, subst, ◌∙◌, inl, inr, Option, none, some, [], ◌∷◌, leb,
  ◌==◌, length, drop, take, min, arith, length-drop, Bool-cases,
}
use lybrix.Chunker.Runes.{Text}
use lybrix.Chunker.Runes.Places.{StandsAt, StandsAt-drop, StandsAt-trans, drop-drop}
use lybrix.Chunker.Units.{Chunk}
use lybrix.Chunker.Units.Built.{IsVerbatim}
use lybrix.Chunker.PageMap.{PageMapper, range_for}
use lybrix.Chunker.Hierarchy.{merge_breadcrumbs}
use lybrix.Chunker.Strategy.{remap_child, paged, with_pages, child_of}

-- What stands behind the first n runes of a text stands in the rest.
StandsAt-rest :
    (mid t : Text) (n pos : ℕ) → n ≤ pos → StandsAt mid pos t → StandsAt (drop n mid) (pos - n) t
StandsAt-rest mid t n pos h k =
    let e : n + (pos - n) ≡ pos = omega (arith, h) in
    ap (take (length t)) (drop-drop n (pos - n) mid ∙ ap (λ m. drop m mid) e) ∙ k

pub no_runes : (t : Text) → length t ≡ 0 → t ≡ []
no_runes [] h = refl
no_runes (r ∷ rs) h = absurd (omega (arith, h))

-- The part of a child behind what it has of the parent's header.
remapped_place :
    (mid t : Text) (synthetic start : ℕ)
    → StandsAt mid start t
    → StandsAt
        (drop synthetic mid)
        (start - synthetic)
        (drop (min (synthetic - start) (length t)) t)
remapped_place mid t synthetic start h = elim (Bool-cases (leb synthetic (start + length t))) [
  | inl reaches ↦
      let inherited = min (synthetic - start) (length t) in
      let at : start + inherited - synthetic ≡ start - synthetic = ground (arith, reaches) in
      subst (λ p. StandsAt (drop synthetic mid) p (drop inherited t)) at
        (StandsAt-rest mid (drop inherited t) synthetic (start + inherited)
          (ground (arith, reaches)) (StandsAt-drop mid start inherited t (omega arith) h))
  | inr short ↦
      let inherited = min (synthetic - start) (length t) in
      let whole : inherited ≡ length t = ground (arith, short) in
      let nothing : drop inherited t ≡ [] =
        no_runes (drop inherited t) (omega (arith, length-drop inherited t, whole)) in
      subst (StandsAt (drop synthetic mid) (start - synthetic)) (sym nothing) refl
]

-- If a parent is a slice of the document behind its synthetic prefix, and a child one of the parent's
-- content, then remapChild makes the child a slice of the document behind its synthetic prefix.
pub remap_child-IsVerbatim :
    (doc : Text) (sub parent : Chunk)
    → IsVerbatim doc parent
    → IsVerbatim parent.content sub
    → IsVerbatim doc (remap_child sub parent)
unfolding remap_child
remap_child-IsVerbatim doc sub parent v w =
    let n = parent.synthetic_prefix_runes in
    let body = drop n parent.content in
    let t = drop sub.synthetic_prefix_runes sub.content in
    let size : length t ≡ sub.end - sub.start =
      omega (arith, length-drop sub.synthetic_prefix_runes sub.content, w.measured, w.prefixed) in
    elim (Bool-cases (n == 0)) [
      | inl plain ↦
          let none_made : n ≡ 0 = ground (arith, plain) in
          let at : parent.start + sub.start ≡ sub.start + parent.start = omega arith in
          rw plain (record {
            prefixed = w.prefixed;
            measured = omega (arith, w.measured);
            copied =
                subst (λ p. StandsAt doc p t) at
                  (StandsAt-trans doc parent.content parent.start sub.start t
                    (subst (λ k. StandsAt doc parent.start (drop k parent.content)) none_made
                      v.copied)
                    w.copied);
          })
      | inr made ↦
          let inherited = min (n - sub.start) (sub.end - sub.start) in
          let rest : drop inherited t ≡ drop (sub.synthetic_prefix_runes + inherited) sub.content =
            drop-drop sub.synthetic_prefix_runes inherited sub.content in
          rw made (record {
            prefixed = omega (arith, w.prefixed, w.measured);
            measured = omega (arith, w.prefixed, w.measured);
            copied = subst (StandsAt doc (parent.start + (sub.start - n))) rest (
                StandsAt-trans doc body parent.start (sub.start - n) (drop inherited t) v.copied (
                  subst (λ k. StandsAt body (sub.start - n) (drop (min (n - sub.start) k) t)) size
                    (remapped_place parent.content t n sub.start w.copied)));
          })
    ]

paged-IsVerbatim :
    (doc : Text) (c : Chunk) (found : Option (ℕ × ℕ))
    → IsVerbatim doc c
    → IsVerbatim doc (paged c found)
paged-IsVerbatim doc c none v = record {
  prefixed = v.prefixed;
  measured = v.measured;
  copied = v.copied;
}
paged-IsVerbatim doc c (some (ps, pe)) v = record {
  prefixed = v.prefixed;
  measured = v.measured;
  copied = v.copied;
}

pub with_pages-IsVerbatim :
    (doc : Text) (pg : PageMapper) (c : Chunk) → IsVerbatim doc c → IsVerbatim doc (with_pages pg c)
with_pages-IsVerbatim doc pg c v = paged-IsVerbatim doc c (range_for pg c.start c.end) v

pub child_of-IsVerbatim :
    (doc : Text) (pg : PageMapper) (parent sub : Chunk) (seq : ℕ)
    → IsVerbatim doc parent
    → IsVerbatim parent.content sub
    → IsVerbatim doc (child_of pg parent sub seq)
unfolding child_of
child_of-IsVerbatim doc pg parent sub seq v w =
    let r = remap_child-IsVerbatim doc sub parent v w in
    with_pages-IsVerbatim doc pg
      (record (remap_child sub parent) {
        seq = seq;
        context_header = merge_breadcrumbs parent.context_header sub.context_header;
      })
      (record { prefixed = r.prefixed; measured = r.measured; copied = r.copied })
