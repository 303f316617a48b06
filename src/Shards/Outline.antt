-- ===== src/Shards/Outline.antt =====
-- The outline's pages as ChapterAlignedBounds cleans and sorts them.
use Prim.Native.String.{String}
use lybrix.Base.{
  ℕ, ◌≤◌, ◌≡◌, refl, ◌⊎◌, Bool, true, List, ◌++◌, [], ◌∷◌, arith, inl, inr, leb, ◌==◌, Bool-cases,
  All, any_of,
}
use lybrix.Shards.{Bookmark, note_page, clamp_page, clean_outline, insert_sorted, sorted_pages}

-- Pages in ascending order between `lo` and `hi`.
abbrev pub Ascends : ℕ → ℕ → List ℕ → Type 0
Ascends lo hi [] = Unit
Ascends lo hi (p ∷ ps) = (lo ≤ p) × (p ≤ hi) × Ascends p hi ps

pub insert_sorted-Ascends :
    (lo hi p : ℕ) (ps : List ℕ)
    → lo ≤ p
    → p ≤ hi
    → Ascends lo hi ps
    → Ascends lo hi (insert_sorted p ps)
unfolding insert_sorted
insert_sorted-Ascends lo hi p [] h k a = (h, k, tt)
insert_sorted-Ascends lo hi p (q ∷ qs) h k (low, high, a) = elim (Bool-cases (leb p q)) [
  | inl before ↦ rw before (h, k, (ground arith, high, a))
  | inr after ↦ rw after (low, high, insert_sorted-Ascends q hi p qs (ground arith) k a)
]

-- Every noted page is a page of the document.
abbrev pub InDocument : ℕ → List (ℕ × String) → Type 0
InDocument page_count = All (λ (entry : ℕ × String). (1 ≤ entry.0) × (entry.0 ≤ page_count))

pub note_page-InDocument :
    (page_count page : ℕ) (title : String) (clean : List (ℕ × String))
    → 1 ≤ page
    → page ≤ page_count
    → InDocument page_count clean
    → InDocument page_count (note_page page title clean)
unfolding note_page
note_page-InDocument page_count page title [] h k i = ((h, k), tt)
note_page-InDocument page_count page title ((p, old) ∷ clean) h k (first, i) =
    elim (Bool-cases (p == page)) [
      | inl same ↦ rw same (first, i)
      | inr other ↦ rw other (first, note_page-InDocument page_count page title clean h k i)
    ]

pub clean_outline-InDocument :
    (page_count : ℕ) (outline : List Bookmark) (clean : List (ℕ × String))
    → 1 ≤ page_count
    → InDocument page_count clean
    → InDocument page_count (clean_outline page_count outline clean)
unfolding clean_outline
clean_outline-InDocument page_count [] clean h i = i
clean_outline-InDocument page_count (bm ∷ outline) clean h i =
    clean_outline-InDocument page_count outline _ h (
      note_page-InDocument page_count (clamp_page page_count bm.page) bm.title clean (ground arith)
        (ground arith) i)

pub sorted_pages-Ascends :
    (page_count : ℕ) (clean : List (ℕ × String))
    → InDocument page_count clean
    → Ascends 1 page_count (sorted_pages clean)
unfolding sorted_pages
sorted_pages-Ascends page_count [] i = tt
sorted_pages-Ascends page_count ((p, title) ∷ clean) ((low, high), i) =
    insert_sorted-Ascends 1 page_count p (sorted_pages clean) low high
      (sorted_pages-Ascends page_count clean i)

abbrev pub has_page : ℕ → List (ℕ × String) → Bool
has_page p = any_of (λ (entry : ℕ × String). entry.0 == p)

note_page-has_page :
    (page p : ℕ) (title : String) (clean : List (ℕ × String))
    → (page ≡ p) ⊎ (has_page p clean ≡ true)
    → has_page p (note_page page title clean) ≡ true
unfolding note_page
note_page-has_page page p title [] h = ground arith
note_page-has_page page p title ((q, old) ∷ clean) h =
    ground (arith, note_page-has_page page p title clean)

clean_outline-has_page :
    (page_count p : ℕ) (outline : List Bookmark) (clean : List (ℕ × String))
    → has_page p clean ≡ true
    → has_page p (clean_outline page_count outline clean) ≡ true
unfolding clean_outline
clean_outline-has_page page_count p [] clean h = h
clean_outline-has_page page_count p (bm ∷ outline) clean h =
    clean_outline-has_page page_count p outline _
      (note_page-has_page (clamp_page page_count bm.page) p bm.title clean (inr h))

clean_outline-bookmark :
    (page_count : ℕ) (before after : List Bookmark) (bm : Bookmark) (clean : List (ℕ × String))
    → has_page
        (clamp_page page_count bm.page)
        (clean_outline page_count (before ++ bm ∷ after) clean)
      ≡ true
unfolding clean_outline
clean_outline-bookmark page_count [] after bm clean =
    clean_outline-has_page page_count (clamp_page page_count bm.page) after _
      (note_page-has_page (clamp_page page_count bm.page) _ bm.title clean (inl refl))
clean_outline-bookmark page_count (b ∷ before) after bm clean =
    clean_outline-bookmark page_count before after bm _

insert_sorted-any_of :
    (p q : ℕ) (ps : List ℕ)
    → (q ≡ p) ⊎ (any_of (λ r. r == p) ps ≡ true)
    → any_of (λ r. r == p) (insert_sorted q ps) ≡ true
unfolding insert_sorted
insert_sorted-any_of p q [] h = ground arith
insert_sorted-any_of p q (r ∷ rs) h = ground (arith, insert_sorted-any_of p q rs)

sorted_pages-any_of :
    (p : ℕ) (clean : List (ℕ × String))
    → has_page p clean ≡ true
    → any_of (λ r. r == p) (sorted_pages clean) ≡ true
unfolding sorted_pages
sorted_pages-any_of p [] h = h
sorted_pages-any_of p ((q, title) ∷ clean) h =
    ground (arith, sorted_pages-any_of p clean, insert_sorted-any_of p q (sorted_pages clean))

-- The page of a bookmark, moved into the document, is among the pages that the loop visits.
pub sorted_pages-bookmark :
    (page_count : ℕ) (before after : List Bookmark) (bm : Bookmark)
    → any_of
        (λ r. r == clamp_page page_count bm.page)
        (sorted_pages (clean_outline page_count (before ++ bm ∷ after) []))
      ≡ true
sorted_pages-bookmark page_count before after bm =
    sorted_pages-any_of _ _ (clean_outline-bookmark page_count before after bm [])
