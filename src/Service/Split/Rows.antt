-- ===== src/Service/Split/Rows.antt =====
-- What commitSplit writes for a document without shards, and the jobs that go with the rows.
use Prim.Native.String.{String}
use lybrix.Base.{
  ℕ, ◌+◌, ◌≤◌, ◌≡◌, refl, ap, none, List, [], ◌∷◌, ◌++◌, map, arith, leb, ◌&&◌, length, count_if,
}
use lybrix.Base.Results.{ok}
use lybrix.Shards.{ShardBound, Bookmark}
use lybrix.Shards.Tiling.{fixed_bounds-Covers, holders, Covers-holders_pos}
use lybrix.Shards.Chapters.{chapter_aligned-Covers}
use lybrix.Store.Rows.{Tables, parsing}
use lybrix.Store.Documents.{set_doc_state, update_split_meta}
use lybrix.Store.Shards.{idx_above}
use lybrix.Store.Inserts.{fresh_rows, insert_shards-fresh}
use lybrix.Service.Places.{place_of_row, place_of_job}
use lybrix.Service.Split.{to_bound_pairs, parse_jobs_from, commit_split, split_bounds}

pub parse_jobs_from-rows :
    (doc_id : ℕ) (source_uri : String) (bounds : List (ℕ × ℕ)) (i : ℕ)
    → map place_of_job (parse_jobs_from doc_id source_uri bounds i)
      ≡ map place_of_row (fresh_rows doc_id bounds i)
unfolding parse_jobs_from
parse_jobs_from-rows doc_id source_uri [] i = refl
parse_jobs_from-rows doc_id source_uri (b ∷ bounds) i =
    ap (◌∷◌ (doc_id, i, b.0, b.1)) (parse_jobs_from-rows doc_id source_uri bounds (i + 1))

-- The tables after the split of a document that had no shard.
abbrev pub after_split : ℕ → ℕ → List (ℕ × ℕ) → ℕ → Tables → Tables
after_split now doc_id bounds page_count t =
    record (update_split_meta now doc_id (length bounds) page_count
      (set_doc_state now doc_id parsing none none t)) {
        shards = t.shards ++ fresh_rows doc_id bounds 0;
      }

pub commit_split-fresh :
    (now doc_id : ℕ) (bounds : List (ℕ × ℕ)) (page_count : ℕ) (t : Tables)
    → idx_above doc_id t.shards ≡ 0
    → commit_split now doc_id bounds page_count t ≡ ok (after_split now doc_id bounds page_count t)
unfolding commit_split set_doc_state update_split_meta
commit_split-fresh now doc_id bounds page_count t h =
    rw (insert_shards-fresh doc_id bounds 0 t.shards (omega (arith, h))) refl

-- How many of the page ranges hold page `p`.
abbrev pub ranges_with : ℕ → List (ℕ × ℕ) → ℕ
ranges_with p = count_if (λ (b : ℕ × ℕ). leb b.0 p && leb p b.1)

pub ranges_with-holders :
    (p : ℕ) (bs : List ShardBound) → ranges_with p (to_bound_pairs bs) ≡ holders p bs
ranges_with-holders p [] = refl
ranges_with-holders p (b ∷ bs) = ground (arith, ranges_with-holders p bs)

-- With or without an outline, the split's bounds hold every page.
pub split_bounds-holders :
    (shard_pages : ℕ) (outline : List Bookmark) (page_count : ℕ)
    → 1 ≤ page_count
    → 1 ≤ shard_pages
    → (bs : List ShardBound) × (split_bounds shard_pages outline page_count ≡ ok bs)
      × ((p : ℕ) → 1 ≤ p → p ≤ page_count → 1 ≤ ranges_with p (to_bound_pairs bs))
split_bounds-holders shard_pages [] page_count h k =
    let (bs, e, c) = fixed_bounds-Covers page_count shard_pages 1 h k in
    (
      bs,
      e,
      λ p low high. omega (
        arith,
        ranges_with-holders p bs,
        Covers-holders_pos shard_pages 1 0 0 0 page_count p bs c low high,
      ),
    )
split_bounds-holders shard_pages (bm ∷ outline) page_count h k =
    let (bs, e, sound, c) = chapter_aligned-Covers (bm ∷ outline) page_count shard_pages h in
    (
      bs,
      e,
      λ p low high. omega (
        arith,
        ranges_with-holders p bs,
        Covers-holders_pos _ 0 0 0 0 page_count p bs c low high,
      ),
    )
