-- ===== src/Store/Inserts.antt =====
-- What InsertShards adds where no shard of the document has so high an idx.
use lybrix.Base.{
  ℕ, ◌+◌, ◌≤◌, ◌≡◌, refl, Bool, false, List, [], ◌∷◌, ◌++◌, append_assoc, append-nil, arith, ◌==◌,
  if◌then◌else◌, any_of, length,
}
use lybrix.Base.Results.{ok}
use lybrix.Store.Rows.{Shard, update_where, at_key}
use lybrix.Store.Shards.{fresh_shard, insert_shards, idx_above}
use lybrix.Store.Sweeps.{done_rows, failed_rows}
use lybrix.Store.Settling.{rows_of, skipped_rows}

abbrev pub fresh_rows : ℕ → List (ℕ × ℕ) → ℕ → List Shard
fresh_rows doc_id [] idx = []
fresh_rows doc_id ((page_start, page_end) ∷ bounds) idx =
    fresh_shard doc_id idx page_start page_end ∷ fresh_rows doc_id bounds (idx + 1)

above_is_free :
    (doc_id idx : ℕ) (ss : List Shard)
    → idx_above doc_id ss ≤ idx
    → any_of (at_key doc_id idx) ss ≡ false
unfolding idx_above
above_is_free doc_id idx [] h = refl
above_is_free doc_id idx (s ∷ ss) h = ground (arith, above_is_free doc_id idx ss)

idx_above-append_fresh :
    (doc_id idx page_start page_end : ℕ) (ss : List Shard)
    → idx_above doc_id ss ≤ idx
    → idx_above doc_id (ss ++ fresh_shard doc_id idx page_start page_end ∷ []) ≤ idx + 1
unfolding idx_above
idx_above-append_fresh doc_id idx page_start page_end [] h = ground arith
idx_above-append_fresh doc_id idx page_start page_end (s ∷ ss) h =
    ground (arith, idx_above-append_fresh doc_id idx page_start page_end ss)

pub insert_shards-fresh :
    (doc_id : ℕ) (bounds : List (ℕ × ℕ)) (idx : ℕ) (ss : List Shard)
    → idx_above doc_id ss ≤ idx
    → insert_shards doc_id bounds idx ss ≡ ok (ss ++ fresh_rows doc_id bounds idx)
unfolding insert_shards
insert_shards-fresh doc_id [] idx ss h = rw append-nil
insert_shards-fresh doc_id ((page_start, page_end) ∷ bounds) idx ss h =
    let first = fresh_shard doc_id idx page_start page_end in
    rw (above_is_free doc_id idx ss h) (
      rw
        (insert_shards-fresh doc_id bounds (idx + 1) (ss ++ first ∷ [])
          (idx_above-append_fresh doc_id idx page_start page_end ss h))
        (rw (append_assoc ss (first ∷ []) (fresh_rows doc_id bounds (idx + 1)))))

pub idx_above-update :
    (doc_id : ℕ) (p : Shard → Bool) (f : Shard → Shard) (ss : List Shard)
    → ((s : Shard) → (f s).doc_id ≡ s.doc_id)
    → ((s : Shard) → (f s).idx ≡ s.idx)
    → idx_above doc_id (update_where p f ss) ≡ idx_above doc_id ss
unfolding idx_above
idx_above-update doc_id p f [] h k = refl
idx_above-update doc_id p f (s ∷ ss) h k =
    ground (arith, h s, k s, idx_above-update doc_id p f ss h k)

-- What the fresh rows add to a recount.
pub fresh_rows-counts :
    (doc_id id : ℕ) (bounds : List (ℕ × ℕ)) (idx : ℕ)
    → let fresh = fresh_rows doc_id bounds idx in
      (done_rows id fresh ≡ 0)
      × (failed_rows id fresh ≡ 0)
      × (skipped_rows id fresh ≡ 0)
      × (rows_of id fresh ≡ (if doc_id == id then length bounds else 0))
fresh_rows-counts doc_id id [] idx = ground arith
fresh_rows-counts doc_id id (b ∷ bounds) idx =
    ground (arith, fresh_rows-counts doc_id id bounds (idx + 1))
