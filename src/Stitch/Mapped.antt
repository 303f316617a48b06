-- ===== src/Stitch/Mapped.antt =====
-- internal/pipeline/stitch.go and internal/chunker/pagemap.go: the chunker takes the stitched pages.
use lybrix.Base.{
  ℕ, suc, ◌+◌, ◌-◌, ◌≤◌, ◌<◌, ◌≡◌, refl, sym, subst, ◌∙◌, inl, inr, Bool, true, false, not, ◌||◌,
  Option, none, List, [], ◌∷◌, ◌++◌, ◌==◌, if◌then◌else◌, length, count_if-append, length-append,
  arith, Bool-cases,
}
use lybrix.Chunker.Runes.{Text, trim_space}
use lybrix.Chunker.Hierarchy.{join_lines}
use lybrix.Chunker.PageMap.{is_nil, new_page_mapper, range_for}
use lybrix.Chunker.PageMap.Lookup.{newlines, pages_between, range_for-newlines}
use lybrix.Stitch.{stitch_loop, sort_docs, newline_count, align_pages, stitch}

newlines-all : (t u : Text) → newlines (length t) (t ++ u) ≡ newline_count t
unfolding newlines
newlines-all [] u = refl
newlines-all (r ∷ t) u = ground (arith, newlines-all t u)

newlines-ended :
    (t : Text)
    → suc (newlines (length (t ++ 10 ∷ []) - 1) (t ++ 10 ∷ [])) ≡ newline_count (t ++ 10 ∷ [])
newlines-ended t =
    let last : length (t ++ 10 ∷ []) - 1 ≡ length t = omega (arith, length-append t (10 ∷ [])) in
    let counted : newline_count (t ++ 10 ∷ []) ≡ newline_count t + 1 =
      count_if-append (λ r. r == 10) t (10 ∷ []) in
    let all : newlines (length (t ++ 10 ∷ []) - 1) (t ++ 10 ∷ []) ≡ newline_count t =
      subst (λ n. newlines n (t ++ 10 ∷ []) ≡ newline_count t) (sym last)
        (newlines-all t (10 ∷ [])) in
    omega (arith, counted, all)

fitting_pages :
    (nothing : Bool) (emitted lines : ℕ) (pages : List ℕ)
    → is_nil (
        if nothing
        then []
        else if not (length pages == emitted) || not (length pages == lines)
        then []
        else pages)
      ≡ false
    → length (
        if nothing
        then []
        else if not (length pages == emitted) || not (length pages == lines)
        then []
        else pages)
      ≡ lines
fitting_pages true emitted lines pages h = cc h
fitting_pages false emitted lines pages h =
    elim (Bool-cases (not (length pages == emitted) || not (length pages == lines))) [
      | inl refused ↦ cc (h, refused)
      | inr fits ↦ rw fits (ground (arith, fits))
    ]

align_pages-length :
    (markdown : Text) (page_of_line : List ℕ) (lines : List Text)
    → is_nil (align_pages markdown page_of_line lines) ≡ false
    → length (align_pages markdown page_of_line lines) ≡ newline_count markdown
unfolding align_pages
align_pages-length markdown page_of_line lines h =
    fitting_pages (length page_of_line == 0) _ (newline_count markdown) _ h

accepted :
    (md pages : List ℕ) (start end : ℕ)
    → suc (newlines (length md - 1) md) ≡ newline_count md
    → (is_nil pages ≡ false → length pages ≡ newline_count md)
    → (if suc (newlines (length md - 1) md) == length pages
        then pages_between md pages start end
        else none)
      ≡ pages_between md pages start end
accepted md [] start end e h =
    let never : (suc (newlines (length md - 1) md) == 0) ≡ false = ground arith in rw never refl
accepted md (p ∷ pages) start end e h =
    let same : (suc (newlines (length md - 1) md) == length (p ∷ pages)) ≡ true =
      ground (arith, e, h refl) in
    rw same refl

-- The chunker takes the pages of a stitched document for what they are: for a range of runes of its
-- markdown that is not empty, and where there are pages, it finds the entries at the number of the
-- newlines before the first and the last rune; where there are none, it finds none.
pub range_for-stitch :
    (payload : Text → Option Text) (docs : List (ℕ × Text)) (ranges : List (ℕ × (ℕ × ℕ)))
    (start end : ℕ)
    → start < end
    → end ≤ length (stitch payload docs ranges).markdown
    → range_for
        (new_page_mapper (stitch payload docs ranges).markdown (stitch payload docs ranges).pages)
        start
        end
      ≡ pages_between
          (stitch payload docs ranges).markdown
          (stitch payload docs ranges).pages
          start
          end
unfolding stitch
range_for-stitch payload docs ranges start end h k =
    let s =
      stitch_loop payload ranges (sort_docs docs) (record { lines = []; page_of_line = [] }) in
    let t = trim_space (join_lines s.lines) in
    let md = t ++ 10 ∷ [] in
    let pages = align_pages md s.page_of_line s.lines in
    range_for-newlines md pages start end h k
    ∙ accepted md pages start end (newlines-ended t) (align_pages-length md s.page_of_line s.lines)
