-- ===== src/Chunker/Headings/Coalesced.antt =====
-- coalesceTinyChunks of internal/chunker/heading_splitter.go keeps chunks slices of the text.
use lybrix.Base.{
  ℕ, ◌+◌, ◌≤◌, ◌<◌, ◌≡◌, refl, sym, subst, inl, inr, not, ◌&&◌, none, some, List, [], ◌∷◌, ◌++◌,
  ltb, leb, ◌==◌, ◌/◌, max, length, drop, arith, length-append, Bool-cases, All,
}
use lybrix.Chunker.Runes.{Text}
use lybrix.Chunker.Runes.Places.{StandsAt}
use lybrix.Chunker.Units.{Chunk}
use lybrix.Chunker.Units.Built.{IsVerbatim, grown-copied}
use lybrix.Chunker.Merge.Tight.{Apart, Tight}
use lybrix.Chunker.Hierarchy.{common_heading_prefix}
use lybrix.Chunker.Headings.{coalesce_loop, number_from, coalesce_tiny_chunks}

-- The chunk that grows by the next one.
abbrev grown : Chunk → Text → Chunk → Chunk
grown cur shared next = record cur {
  content = cur.content ++ next.content;
  context_header = shared;
  end = next.end;
}

grown-IsVerbatim :
    (doc shared : Text) (cur next : Chunk)
    → cur.end ≡ next.start
    → next.synthetic_prefix_runes ≡ 0
    → IsVerbatim doc cur
    → IsVerbatim doc next
    → IsVerbatim doc (grown cur shared next)
grown-IsVerbatim doc shared cur next at plain v w = record {
  prefixed = omega (arith, v.prefixed, length-append cur.content next.content);
  measured =
      omega (arith, v.measured, w.measured, plain, at, length-append cur.content next.content);
  copied =
      grown-copied doc cur.start cur.end cur.synthetic_prefix_runes cur.content next.content
        v.prefixed v.measured v.copied
        (subst (λ p. StandsAt doc p next.content) (sym at)
          (subst (λ n. StandsAt doc next.start (drop n next.content)) plain w.copied));
}

-- What stood apart from a chunk stands apart from a longer one that ends there.
Tight-grown :
    (size : ℕ) (c c' : Chunk) (chunks : List Chunk)
    → c'.end ≡ c.end
    → length c.content ≤ length c'.content
    → Tight size (some c) chunks
    → Tight size (some c') chunks
Tight-grown size c c' [] at long h = tt
Tight-grown size c c' (d ∷ chunks) at long (h, hs) =
    (λ made here. omega (arith, h made (omega (arith, at, here)), long), hs)

-- A chunk that fits starts with no header.
fits_plain :
    (size : ℕ) (cur next : Chunk)
    → (0 < next.synthetic_prefix_runes → Apart size (some cur) next.start (length next.content))
    → cur.end ≡ next.start
    → length cur.content + length next.content ≤ size
    → next.synthetic_prefix_runes ≡ 0
fits_plain size cur next apart at fits = elim (Bool-cases (next.synthetic_prefix_runes == 0)) [
  | inl plain ↦ ground (arith, plain)
  | inr made ↦ absurd (omega (arith, fits, apart (ground (arith, made)) at))
]

coalesce_loop-IsVerbatim :
    (doc : Text) (size target : ℕ) (cur : Chunk) (chunks : List Chunk)
    → IsVerbatim doc cur
    → All (IsVerbatim doc) chunks
    → Tight size (some cur) chunks
    → All (IsVerbatim doc) (coalesce_loop size target cur chunks)
unfolding coalesce_loop
coalesce_loop-IsVerbatim doc size target cur [] v vs t = (v, tt)
coalesce_loop-IsVerbatim doc size target cur (next ∷ chunks) v (w, ws) (apart, t) =
    let shared = common_heading_prefix cur.context_header next.context_header in
    elim (Bool-cases (
      not (length shared == 0)
      && ((cur.end == next.start)
          && (ltb (length cur.content) target
              && leb (length cur.content + length next.content) size)))) [
                | inr kept ↦
                    rw kept (v, coalesce_loop-IsVerbatim doc size target next chunks w ws t)
                | inl merged ↦
                    let at : cur.end ≡ next.start = ground (arith, merged) in
                    let plain = fits_plain size cur next apart at (ground (arith, merged)) in
                    let more = grown cur shared next in
                    rw merged (
                      coalesce_loop-IsVerbatim doc size target more chunks
                        (grown-IsVerbatim doc shared cur next at plain v w) ws
                        (Tight-grown size next more chunks refl
                          (omega (arith, length-append cur.content next.content)) t))
              ]

number_from-IsVerbatim :
    (doc : Text) (n : ℕ) (chunks : List Chunk)
    → All (IsVerbatim doc) chunks
    → All (IsVerbatim doc) (number_from n chunks)
number_from-IsVerbatim doc n [] h = tt
number_from-IsVerbatim doc n (c ∷ chunks) (v, vs) = (
  record { prefixed = v.prefixed; measured = v.measured; copied = v.copied },
  number_from-IsVerbatim doc (n + 1) chunks vs,
)

pub coalesce-IsVerbatim :
    (doc : Text) (size : ℕ) (chunks : List Chunk)
    → All (IsVerbatim doc) chunks
    → Tight size none chunks
    → All (IsVerbatim doc) (coalesce_tiny_chunks size chunks)
unfolding coalesce_tiny_chunks
coalesce-IsVerbatim doc size [] h t = tt
coalesce-IsVerbatim doc size (c ∷ []) h t = h
coalesce-IsVerbatim doc size (c ∷ d ∷ chunks) (v, vs) (first, t) = elim (Bool-cases (size == 0)) [
  | inl off ↦ rw off (v, vs)
  | inr on ↦ rw on (
      let target = max 200 (size / 2) in
      number_from-IsVerbatim doc 0 (coalesce_loop size target c (d ∷ chunks))
        (coalesce_loop-IsVerbatim doc size target c (d ∷ chunks) v vs t))
]
