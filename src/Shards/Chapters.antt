-- ===== src/Shards/Chapters.antt =====
-- ChapterAlignedBounds: the pages that its shards hold and start at.
use lybrix.Base.{
  ℕ, ◌+◌, ◌-◌, ◌≤◌, ◌<◌, ◌≡◌, refl, subst, ◌⊎◌, inl, inr, true, false, List, [], ◌∷◌, ◌++◌, arith,
  ltb, leb, ◌==◌, if◌then◌else◌, any_of,
}
use lybrix.Base.Results.{ok}
use lybrix.Shards.{
  ShardBound, Bookmark, Partial, clamp_page, clean_outline, sorted_pages, chapter_loop,
  is_degenerate, chapter_aligned_bounds,
}
use lybrix.Shards.Tiling.{Covers, holders, Covers-holders_one}
use lybrix.Shards.Ranges.{
  Tiled, Starts, append_range-Tiled, chapter_step-Tiled, append_range-Starts, chapter_step-Starts,
}
use lybrix.Shards.Outline.{
  Ascends, clean_outline-InDocument, sorted_pages-Ascends, sorted_pages-bookmark,
}

chapter_loop-Tiled :
    (page_count size : ℕ) (pages : List ℕ) (next : ℕ) (acc : Partial)
    → 1 ≤ size
    → 1 ≤ next
    → next ≤ page_count
    → Ascends next page_count pages
    → Tiled size next acc
    → (acc' : Partial) × (chapter_loop page_count size pages next acc ≡ ok acc')
      × Tiled size (page_count + 1) acc'
unfolding chapter_loop
chapter_loop-Tiled page_count size [] next acc h k l a t =
    let (acc', e, t') =
      append_range-Tiled size (page_count - next + 1) next acc h (omega arith) k t in
    let more : leb next page_count ≡ true = ground arith in
    let at : next + (page_count - next + 1) ≡ page_count + 1 = omega arith in
    (acc', rw more e, subst (λ n. Tiled size n acc') at t')
chapter_loop-Tiled page_count size (p ∷ ps) next acc h k l (low, high, a) t =
    let (acc', e, t') = chapter_step-Tiled size p next acc h k low t in
    let (acc'', e', t'') = chapter_loop-Tiled page_count size ps p acc' h (omega arith) high a t' in
    (acc'', rw e e', t'')

pages-Ascends :
    (outline : List Bookmark) (page_count : ℕ)
    → 1 ≤ page_count
    → Ascends 1 page_count (sorted_pages (clean_outline page_count outline []))
pages-Ascends outline page_count h =
    sorted_pages-Ascends page_count _ (clean_outline-InDocument page_count outline [] h tt)

Covers-not_inverted :
    (size idx prev reach stop : ℕ) (bs : List ShardBound)
    → Covers size 0 idx prev reach stop bs
    → any_of (λ b. ltb b.page_end b.page_start) bs ≡ false
Covers-not_inverted size idx prev reach stop [] c = refl
Covers-not_inverted size idx prev reach stop (b ∷ bs) c =
    let upright : ltb b.page_end b.page_start ≡ false = ground (arith, c.2, c.3, c.4) in
    rw upright (Covers-not_inverted size (idx + 1) b.page_start b.page_end stop bs c.7)

Covers-not_degenerate :
    (size idx prev reach stop : ℕ) (bs : List ShardBound)
    → reach < stop
    → Covers size 0 idx prev reach stop bs
    → is_degenerate bs ≡ false
Covers-not_degenerate size idx prev reach stop [] h c = absurd (omega arith)
Covers-not_degenerate size idx prev reach stop (b ∷ bs) h c =
    Covers-not_inverted size idx prev reach stop (b ∷ bs) c

abbrev start : Partial
start = record { bounds = []; next_idx = 0 }

start-Tiled : (size : ℕ) → Tiled size 1 start
start-Tiled size = record { tiles = refl; numbered = refl }

-- How a run of the whole loop ends.
abbrev Finished : List ℕ → ℕ → ℕ → Partial → Type 0
Finished pages page_count size acc =
    (chapter_loop page_count size pages 1 start ≡ ok acc)
    × (is_degenerate acc.bounds ≡ false)
    × Covers size 0 0 0 0 page_count acc.bounds

chapter_loop-Finished :
    (outline : List Bookmark) (page_count size : ℕ)
    → 1 ≤ page_count
    → 1 ≤ size
    → (acc : Partial) × Finished
        (sorted_pages (clean_outline page_count outline []))
        page_count
        size
        acc
chapter_loop-Finished outline page_count size h k =
    let last : page_count + 1 - 1 ≡ page_count = omega arith in
    let (acc, e, t) =
      chapter_loop-Tiled page_count size _ 1 start k (omega arith) h
        (pages-Ascends outline page_count h) (start-Tiled size) in
    let tiles : Covers size 0 0 0 0 page_count acc.bounds =
      subst (λ n. Covers size 0 0 0 0 n acc.bounds) last t.tiles in
    (acc, (e, Covers-not_degenerate size 0 0 0 page_count acc.bounds h tiles, tiles))

-- Whatever the outline, a document with a page is cut at its bookmarks into shards that tile it:
-- numbered from 0, no page twice and none left out, at most `shard_pages` pages each (one, if
-- `shard_pages` is 0). The bounds are not degenerate, so the fallback to plain windows is not taken.
pub chapter_aligned-Covers :
    (outline : List Bookmark) (page_count shard_pages : ℕ)
    → 1 ≤ page_count
    → (bs : List ShardBound) × (chapter_aligned_bounds outline page_count shard_pages ≡ ok bs)
      × (is_degenerate bs ≡ false)
      × Covers (if ltb shard_pages 1 then 1 else shard_pages) 0 0 0 0 page_count bs
unfolding chapter_aligned_bounds
chapter_aligned-Covers outline page_count shard_pages h =
    let (acc, (e, sound, tiles)) = chapter_loop-Finished outline page_count _ h (ground arith) in
    (acc.bounds, rw (e, sound), sound, tiles)

-- So each page of the document lies in exactly one of the shards.
pub chapter_aligned-holders :
    (outline : List Bookmark) (page_count shard_pages page : ℕ)
    → 1 ≤ page
    → page ≤ page_count
    → (bs : List ShardBound) × (chapter_aligned_bounds outline page_count shard_pages ≡ ok bs)
      × (holders page bs ≡ 1)
chapter_aligned-holders outline page_count shard_pages page h k =
    let (bs, e, sound, c) = chapter_aligned-Covers outline page_count shard_pages (omega arith) in
    (bs, e, Covers-holders_one _ 0 0 0 page_count page bs c h k)

-- The pages that a shard starts at: every page that the loop passes.
chapter_loop-Starts :
    (page_count size : ℕ) (pages : List ℕ) (next p : ℕ) (acc acc' : Partial)
    → 1 ≤ size
    → 1 ≤ next
    → next ≤ page_count
    → Ascends next page_count pages
    → Tiled size next acc
    → chapter_loop page_count size pages next acc ≡ ok acc'
    → Starts p acc.bounds ⊎ (p ≡ next) ⊎ (any_of (λ q. q == p) pages ≡ true)
    → Starts p acc'.bounds
unfolding chapter_loop
chapter_loop-Starts page_count size [] next p acc acc' h k l a t e s =
    let more : leb next page_count ≡ true = ground arith in
    append_range-Starts size (page_count - next + 1) next p acc acc' h (omega arith) (rw more at e)
      (ground arith)
chapter_loop-Starts page_count size (q ∷ qs) next p acc acc' h k l (low, high, a) t e s =
    let (mid, em, tm) = chapter_step-Tiled size q next acc h k low t in
    chapter_loop-Starts page_count size qs q p mid acc' h (omega arith) high a tm (rw em at e)
      (elim s [
        | inl old ↦ pass (chapter_step-Starts size q next p acc mid h low em (inl old))
        | inr (inl at) ↦ pass (chapter_step-Starts size q next p acc mid h low em (inr at))
        | inr (inr later) ↦ ground arith
      ])
  where
    pass : {P Q R : Type 0} → P ⊎ Q → P ⊎ Q ⊎ R
    pass (inl x) = inl x
    pass (inr y) = inr (inl y)

-- Every bookmark, its page moved into the document, is where a shard starts.
pub chapter_aligned-Starts :
    (before after : List Bookmark) (bm : Bookmark) (page_count shard_pages : ℕ)
    → 1 ≤ page_count
    → (bs : List ShardBound) × (chapter_aligned_bounds (before ++ bm ∷ after) page_count shard_pages
        ≡ ok bs)
      × Starts (clamp_page page_count bm.page) bs
unfolding chapter_aligned_bounds
chapter_aligned-Starts before after bm page_count shard_pages h =
    let outline = before ++ bm ∷ after in
    let size = if ltb shard_pages 1 then 1 else shard_pages in
    let k : 1 ≤ size = ground arith in
    let low : 1 ≤ 1 = omega arith in
    let (acc, (e, sound, tiles)) = chapter_loop-Finished outline page_count size h k in
    (
      acc.bounds,
      rw (e, sound),
      chapter_loop-Starts page_count size (sorted_pages (clean_outline page_count outline [])) 1
          (clamp_page page_count bm.page) start acc k low h (pages-Ascends outline page_count h)
          (start-Tiled size) e (inr (inr (sorted_pages-bookmark page_count before after bm))),
    )
