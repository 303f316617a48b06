-- ===== src/Chunker/PageMap/Lookup.antt =====
-- internal/chunker/pagemap.go against the count of the newlines before a rune.
use lybrix.Base.{
  ℕ, zero, suc, ◌+◌, ◌-◌, ◌≤◌, ◌<◌, ◌≡◌, refl, ap, subst, subst, ◌∙◌, inl, inr, true, false, Option,
  none, some, List, [], ◌∷◌, ltb, leb, ◌==◌, if◌then◌else◌, length, get_elem?, arith, Bool-cases,
}
use lybrix.Chunker.PageMap.{
  PageMapper, newline, starts_from, line_starts, no_pages, new_page_mapper, search_ints,
  line_for_rune, range_for, both,
}

-- The number of the newlines among the first n runes.
unfoldable pub newlines : ℕ → List ℕ → ℕ
newlines zero rs = 0
newlines (suc n) [] = 0
newlines (suc n) (r ∷ rs) = let rest = newlines n rs in if r == newline then suc rest else rest

starts-past :
    (pos total x : ℕ) (rs : List ℕ) → x ≤ pos + 1 → search_ints (starts_from pos total rs) x ≡ 0
unfolding starts_from search_ints
starts-past pos total x [] h = refl
starts-past pos total x (r ∷ rs) h =
    ground (arith, h, starts-past (pos + 1) total x rs (omega arith))

-- The lines that start at the rune or before it, but for the first.
search-newlines :
    (off pos total : ℕ) (rs : List ℕ)
    → off < length rs
    → total ≡ pos + length rs
    → search_ints (starts_from pos total rs) (pos + off + 1) ≡ newlines off rs
unfolding newlines starts_from search_ints
search-newlines zero pos total rs h e = starts-past pos total (pos + zero + 1) rs (omega arith)
search-newlines (suc off) pos total [] h e = ground (arith, h)
search-newlines (suc off) pos total (r ∷ rs) h e =
    let more : ltb pos (total - 1) ≡ true = ground (arith, h, e) in
    let later : search_ints (starts_from (pos + 1) total rs) (pos + suc off + 1) ≡ newlines off rs =
      subst (λ x. search_ints (starts_from (pos + 1) total rs) x ≡ newlines off rs) (omega arith)
        (search-newlines off (pos + 1) total rs (omega (arith, h)) (omega (arith, e))) in
    elim (Bool-cases (r == newline)) [
      | inl line ↦ rw (line, more) (ground (arith, later))
      | inr other ↦ rw other later
    ]

length-starts :
    (pos total r : ℕ) (rs : List ℕ)
    → total ≡ pos + suc (length rs)
    → length (starts_from pos total (r ∷ rs)) ≡ newlines (length rs) (r ∷ rs)
unfolding newlines starts_from
length-starts pos total r [] e =
    let last : ltb pos (total - 1) ≡ false = ground (arith, e) in
    elim (Bool-cases (r == newline)) [ inl line ↦ rw (line, last) refl | inr other ↦ rw other refl ]
length-starts pos total r (q ∷ rs) e =
    let more : ltb pos (total - 1) ≡ true = ground (arith, e) in
    let later : length (starts_from (pos + 1) total (q ∷ rs)) ≡ newlines (length rs) (q ∷ rs) =
      length-starts (pos + 1) total q rs (omega (arith, e)) in
    elim (Bool-cases (r == newline)) [
      | inl line ↦ rw (line, more) (ap suc later)
      | inr other ↦ rw other later
    ]

newlines-le : (m n : ℕ) (rs : List ℕ) → m ≤ n → newlines m rs ≤ newlines n rs
unfolding newlines
newlines-le zero n rs h = omega arith
newlines-le (suc m) n [] h = omega arith
newlines-le (suc m) zero (r ∷ rs) h = omega (arith, h)
newlines-le (suc m) (suc n) (r ∷ rs) h = ground (arith, newlines-le m n rs (omega (arith, h)))

-- The line of a rune.
line-newlines :
    (markdown pages : List ℕ) (off : ℕ)
    → off < length markdown
    → newlines off markdown < length pages
    → line_for_rune (record { pages = pages; line_start_runes = line_starts markdown }) off
      ≡ some (newlines off markdown)
unfolding line_for_rune line_starts
line-newlines markdown pages off h k =
    let starts = starts_from 0 (length markdown) markdown in
    let found : search_ints starts (off + 1) ≡ newlines off markdown =
      subst (λ x. search_ints starts x ≡ newlines off markdown) (omega arith)
        (search-newlines off 0 (length markdown) markdown h (omega arith)) in
    let behind : leb (off + 1) 0 ≡ false = ground arith in
    let inside : leb (length pages) (newlines off markdown) ≡ false = ground (arith, k) in
    rw (behind, found, inside) refl

-- The pages that the newlines before the first and the last rune of the range give.
abbrev pub pages_between : List ℕ → List ℕ → ℕ → ℕ → Option (ℕ × ℕ)
pages_between markdown pages start end =
    both (get_elem? pages (newlines start markdown)) (get_elem? pages (newlines (end - 1) markdown))

pages-lines :
    (markdown pages : List ℕ) (start end : ℕ)
    → start < end
    → end ≤ length markdown
    → suc (newlines (length markdown - 1) markdown) ≡ length pages
    → range_for (record { pages = pages; line_start_runes = line_starts markdown }) start end
      ≡ pages_between markdown pages start end
unfolding range_for
pages-lines markdown [] start end h k e = ground (arith, e)
pages-lines markdown (p ∷ ps) start end h k e =
    let m : PageMapper = record { pages = p ∷ ps; line_start_runes = line_starts markdown } in
    let first : line_for_rune m start ≡ some (newlines start markdown) =
      line-newlines markdown (p ∷ ps) start (omega (arith, h, k)) (
        omega (arith, e, newlines-le start (length markdown - 1) markdown (omega (arith, h, k)))) in
    let last : line_for_rune m (end - 1) ≡ some (newlines (end - 1) markdown) =
      line-newlines markdown (p ∷ ps) (end - 1) (omega (arith, h, k)) (
        omega
          (arith, e, newlines-le (end - 1) (length markdown - 1) markdown (omega (arith, h, k)))) in
    let proper : leb end start ≡ false = ground (arith, h) in rw (proper, first, last) refl

mapper-lines :
    (r : ℕ) (rs : List ℕ) (p : ℕ) (ps : List ℕ)
    → new_page_mapper (r ∷ rs) (p ∷ ps) ≡ (
        if suc (newlines (length (r ∷ rs) - 1) (r ∷ rs)) == length (p ∷ ps)
        then record { pages = p ∷ ps; line_start_runes = line_starts (r ∷ rs) }
        else no_pages)
unfolding new_page_mapper line_starts
mapper-lines r rs p ps =
    ap
      (λ n.
        if n == length (p ∷ ps)
        then record { pages = p ∷ ps; line_start_runes = line_starts (r ∷ rs) }
        else no_pages)
      (ap suc (
        length-starts 0 (length (r ∷ rs)) r rs (omega arith)
        ∙ ap (λ n. newlines n (r ∷ rs)) (omega arith)))

range_for-no_pages :
    (r : ℕ) (rs : List ℕ) (start end : ℕ) → range_for (new_page_mapper (r ∷ rs) []) start end ≡ none
unfolding range_for new_page_mapper
range_for-no_pages r rs start end = refl

-- For a range of runes of the markdown that is not empty, and a list of pages with one entry for
-- each line, where a newline as the last rune starts no line, the pages are the entries at the number
-- of the newlines before its first and its last rune; with a list of another length there are none.
pub range_for-newlines :
    (markdown pages : List ℕ) (start end : ℕ)
    → start < end
    → end ≤ length markdown
    → range_for (new_page_mapper markdown pages) start end ≡ (
        if suc (newlines (length markdown - 1) markdown) == length pages
        then pages_between markdown pages start end
        else none)
unfolding range_for
range_for-newlines [] pages start end h k = ground (arith, h, k)
range_for-newlines (r ∷ rs) [] start end h k =
    let never : (suc (newlines (length (r ∷ rs) - 1) (r ∷ rs)) == 0) ≡ false = ground arith in
    rw never (range_for-no_pages r rs start end)
range_for-newlines (r ∷ rs) (p ∷ ps) start end h k =
    elim (Bool-cases (suc (newlines (length (r ∷ rs) - 1) (r ∷ rs)) == length (p ∷ ps))) [
      | inl same ↦
          rw (mapper-lines r rs p ps, same)
            (pages-lines (r ∷ rs) (p ∷ ps) start end h k (ground (arith, same)))
      | inr differs ↦ rw (mapper-lines r rs p ps, differs) refl
    ]
