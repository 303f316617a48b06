-- ===== src/Service/Ladder/Resplit.antt =====
-- resplitShard of internal/service/parser.go: the rows it writes and the jobs it sends.
use lybrix.Base.{
  ℕ, ◌+◌, ◌-◌, ◌≤◌, ◌<◌, ◌≡◌, refl, sym, ap, subst, true, List, [], ◌∷◌, ◌++◌, arith, length, map,
  any_of,
}
use lybrix.Base.Results.{ok}
use lybrix.Shards.{ShardBound}
use lybrix.Shards.Tiling.{Covers, fixed_bounds-Covers}
use lybrix.Queue.Jobs.{ParseJob}
use lybrix.Store.Rows.{Document, Shard, Tables, skipped, update_where, at_key}
use lybrix.Store.Shards.{next_shard_idx, skip_shard, idx_above}
use lybrix.Store.Inserts.{fresh_rows, insert_shards-fresh, idx_above-update}
use lybrix.Service.Places.{place_of_row, place_of_job}
use lybrix.Service.Ladder.{
  span_of, resplit_pages, moved_bounds, sub_shard_jobs, resplit_writes, resplit_tx, resplit_shard,
}

-- The page ranges follow one another from page `lo` to page `hi`, at most `size` pages each.
abbrev pub Tiles : ℕ → ℕ → ℕ → List (ℕ × ℕ) → Type 0
Tiles size lo hi [] = lo ≡ hi + 1
Tiles size lo hi ((page_start, page_end) ∷ bounds) =
    (page_start ≡ lo)
    × (page_start ≤ page_end)
    × (page_end < page_start + size)
    × (page_end ≤ hi)
    × Tiles size (page_end + 1) hi bounds

moved_bounds-Tiles :
    (size i prev reach span at hi : ℕ) (fb : List ShardBound)
    → 1 ≤ at
    → hi + 1 ≡ at + span
    → Covers size 0 i prev reach span fb
    → Tiles size (at + reach) hi (moved_bounds at fb)
moved_bounds-Tiles size i prev reach span at hi [] h k c = omega arith
moved_bounds-Tiles size i prev reach span at hi (b ∷ fb) h k c =
    let on : at + b.page_end - 1 + 1 ≡ at + b.page_end = omega arith in
    (
      omega (arith, c.2, c.3),
      omega (arith, c.3, c.4),
      omega (arith, c.5, c.3),
      omega (arith, c.6),
      subst (λ n. Tiles size n hi (moved_bounds at fb)) (sym on)
          (moved_bounds-Tiles size (i + 1) b.page_start b.page_end span at hi fb h k c.7),
    )

sub_shard_jobs-rows :
    (doc : Document) (bounds : List (ℕ × ℕ)) (idx : ℕ)
    → map place_of_job (sub_shard_jobs doc bounds idx)
      ≡ map place_of_row (fresh_rows doc.id bounds idx)
unfolding sub_shard_jobs
sub_shard_jobs-rows doc [] idx = refl
sub_shard_jobs-rows doc (b ∷ bounds) idx =
    ap (◌∷◌ (doc.id, idx, b.0, b.1)) (sub_shard_jobs-rows doc bounds (idx + 1))

abbrev pub mark_skipped : ℕ → ℕ → List Shard → List Shard
mark_skipped doc_id idx = update_where (at_key doc_id idx) (λ s. record s { state = skipped })

resplit_tx-ok :
    (now : ℕ) (doc : Document) (shard : Shard) (bounds : List (ℕ × ℕ)) (t : Tables)
    → any_of (at_key doc.id shard.idx) t.shards ≡ true
    → let skipped = mark_skipped doc.id shard.idx t.shards in
      let rows = skipped ++ fresh_rows doc.id bounds (next_shard_idx doc.id t) in
      resplit_tx now doc shard bounds t
      ≡ ok (
        resplit_writes now doc shard (length bounds) rows (record t { shards = skipped }),
        next_shard_idx doc.id t,
      )
unfolding resplit_tx skip_shard next_shard_idx
resplit_tx-ok now doc shard bounds t there =
    let above : idx_above doc.id (mark_skipped doc.id shard.idx t.shards)
        ≤ idx_above doc.id t.shards =
      omega (
        arith,
        idx_above-update doc.id (at_key doc.id shard.idx) (λ s. record s { state = skipped })
            t.shards (λ s. refl) (λ s. refl),
      ) in
    rw there (
      rw (
        insert_shards-fresh doc.id bounds (idx_above doc.id t.shards)
          (mark_skipped doc.id shard.idx t.shards) above))

-- A re-split of a shard in the table, of a page at least, succeeds. The shard is skipped, and the
-- new rows behind it are pending shards under fresh numbers whose pages tile the shard's pages in
-- pieces of at most `resplit_pages`; the jobs that are sent are those rows' jobs, in their order.
pub resplit_ok :
    (now : ℕ) (doc : Document) (shard : Shard) (t : Tables)
    → 1 ≤ shard.page_start
    → shard.page_start ≤ shard.page_end
    → any_of (at_key doc.id shard.idx) t.shards ≡ true
    → (bounds : List (ℕ × ℕ)) × (t' : Tables) × (jobs : List ParseJob) × (resplit_shard now doc
          shard t
        ≡ ok (t', jobs))
      × (t'.shards
          ≡ mark_skipped doc.id shard.idx t.shards
            ++ fresh_rows doc.id bounds (next_shard_idx doc.id t))
      × (map place_of_job jobs
          ≡ map place_of_row (fresh_rows doc.id bounds (next_shard_idx doc.id t)))
      × Tiles (resplit_pages shard) shard.page_start shard.page_end bounds
unfolding resplit_shard
resplit_ok now doc shard t h k there =
    let size = resplit_pages shard in
    let span = span_of shard in
    let one_page : 1 ≤ span = omega arith in
    let some_size : 1 ≤ size = ground arith in
    let (fb, e, c) = fixed_bounds-Covers span size 0 one_page some_size in
    let bounds = moved_bounds shard.page_start fb in
    let skipped = mark_skipped doc.id shard.idx t.shards in
    let start_idx = next_shard_idx doc.id t in
    let rows = skipped ++ fresh_rows doc.id bounds start_idx in
    let first : shard.page_start + 0 ≡ shard.page_start = omega arith in
    (
      bounds,
      resplit_writes now doc shard (length bounds) rows (record t { shards = skipped }),
      sub_shard_jobs doc bounds start_idx,
      rw (e, resplit_tx-ok now doc shard bounds t there),
      refl,
      sub_shard_jobs-rows doc bounds start_idx,
      subst (λ n. Tiles size n shard.page_end bounds) first
          (moved_bounds-Tiles size 0 0 0 span shard.page_start shard.page_end fb h (omega arith) c),
    )
