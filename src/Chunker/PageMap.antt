-- ===== src/Chunker/PageMap.antt =====
-- internal/chunker/pagemap.go: the pages of a range of runes. A rune is its code point, and an offset
-- counts runes from 0.
pub mod Lookup
pub mod Rises
use lybrix.Base.{
  ℕ, zero, suc, ◌+◌, ◌-◌, Bool, true, false, ◌&&◌, Option, none, some, List, [], ◌∷◌, ltb, leb,
  ◌==◌, if◌then◌else◌, length, get_elem?,
}

-- pageMapper.
pub record PageMapper : Type 0 where
  pub pages : List ℕ
  pub line_start_runes : List ℕ

abbrev pub newline : ℕ
newline = 10

-- The loop over the runes: a newline that is not the last rune starts the next line.
unfoldable pub starts_from : ℕ → ℕ → List ℕ → List ℕ
starts_from rune_pos total [] = []
starts_from rune_pos total (r ∷ rs) =
    let rest = starts_from (rune_pos + 1) total rs in
    if (r == newline) && ltb rune_pos (total - 1) then (rune_pos + 1) ∷ rest else rest

unfoldable pub line_starts : List ℕ → List ℕ
unfolding starts_from
line_starts markdown = 0 ∷ starts_from 0 (length markdown) markdown

abbrev pub is_nil : List ℕ → Bool
is_nil [] = true
is_nil (x ∷ xs) = false

-- No page information.
abbrev pub no_pages : PageMapper
no_pages = record { pages = []; line_start_runes = [] }

-- newPageMapper.
unfoldable pub new_page_mapper : List ℕ → List ℕ → PageMapper
unfolding line_starts
new_page_mapper markdown pages =
    if is_nil pages
    then no_pages
    else if is_nil markdown
    then no_pages
    else if length (line_starts markdown) == length pages
    then record { pages = pages; line_start_runes = line_starts markdown }
    else no_pages

-- sort.SearchInts on numbers in order: the index of the first that is x at least, else the length.
unfoldable pub search_ints : List ℕ → ℕ → ℕ
search_ints [] x = 0
search_ints (a ∷ xs) x = let rest = search_ints xs x in if leb x a then 0 else suc rest

abbrev pub line_at : PageMapper → ℕ → Option ℕ
line_at m zero = none
line_at m (suc idx) = if leb (length m.pages) idx then none else some idx

-- lineForRune.
unfoldable pub line_for_rune : PageMapper → ℕ → Option ℕ
unfolding search_ints
line_for_rune m off =
    if is_nil m.line_start_runes then none else line_at m (search_ints m.line_start_runes (off + 1))

abbrev pub both : Option ℕ → Option ℕ → Option (ℕ × ℕ)
both none pe = none
both (some ps) none = none
both (some ps) (some pe) = some (ps, pe)

-- The pages of the two lines.
abbrev pub pages_of : List ℕ → Option ℕ → Option ℕ → Option (ℕ × ℕ)
pages_of pages none last = none
pages_of pages (some first) none = none
pages_of pages (some first) (some last) = both (get_elem? pages first) (get_elem? pages last)

-- rangeFor: an empty range is that of its first rune.
unfoldable pub range_for : PageMapper → ℕ → ℕ → Option (ℕ × ℕ)
unfolding line_for_rune
range_for m start end =
    if is_nil m.pages
    then none
    else let stop = if leb end start then start + 1 else end in
      pages_of m.pages (line_for_rune m start) (line_for_rune m (stop - 1))
