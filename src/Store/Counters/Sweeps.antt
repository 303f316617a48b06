-- ===== src/Store/Counters/Sweeps.antt =====
-- The counters across the janitor's escalation, the retries and the repair.
use lybrix.Base.{
  ℕ, ◌+◌, ◌≡◌, ◌⊎◌, inl, inr, Bool, not, ◌&&◌, Option, none, some, List, [], ◌∷◌, arith, ltb, ◌==◌,
  if◌then◌else◌, Bool-cases, count_if, filter_if, map, All,
}
use lybrix.Base.Int.{pos, +ℤ-pos, -ℤ-pos}
use lybrix.Store.Rows.{Document, Shard, Chunk, Tables, update_where, is_failed, of_doc, has_id}
use lybrix.Store.Documents.{reset_doc_for_full_retry}
use lybrix.Store.Sweeps.{
  exhausted, escalated, bump_delta, deltas_of, delta_for, add_failed, bump_shards_failed,
  to_escalated, escalate_stuck_shards, requeued, requeue_failed_shards,
  set_chunk_count_and_completeness, done_rows, failed_rows, repair_doc_counters,
}
use lybrix.Store.Counters.Lists.{
  count_if-update_where, count_if-zero, count_if-ext, All-update_where, All-map,
}
use lybrix.Store.Counters.Claims.{Exact, Counted, done_of, failed_of}

abbrev pub of_delta : Option ℕ → ℕ
of_delta none = 0
of_delta (some n) = n

bump_delta-delta_for :
    (doc_id id : ℕ) (deltas : List (ℕ × ℕ))
    → of_delta (delta_for id (bump_delta doc_id deltas))
      ≡ of_delta (delta_for id deltas) + (if doc_id == id then 1 else 0)
unfolding bump_delta delta_for
bump_delta-delta_for doc_id id [] = ground arith
bump_delta-delta_for doc_id id ((i, n) ∷ deltas) =
    ground (arith, bump_delta-delta_for doc_id id deltas)

-- The delta of a document is the number of its shards in the list.
deltas_of-delta_for :
    (p : Shard → Bool) (id : ℕ) (ss : List Shard) (deltas : List (ℕ × ℕ))
    → of_delta (delta_for id (deltas_of (map to_escalated (filter_if p ss)) deltas))
      ≡ of_delta (delta_for id deltas) + count_if (λ s. p s && of_doc id s) ss
unfolding deltas_of
deltas_of-delta_for p id [] deltas = omega arith
deltas_of-delta_for p id (s ∷ ss) deltas = ground (
  arith,
  deltas_of-delta_for p id ss (bump_delta s.doc_id deltas),
  deltas_of-delta_for p id ss deltas,
  bump_delta-delta_for s.doc_id id deltas,
)

All-bump {κ ι} :
    (P : Document → Type κ) (Q : Document → Type ι) (now : ℕ) (deltas : List (ℕ × ℕ))
    (ds : List Document)
    → ((d : Document) → P d → Q (add_failed now d (delta_for d.id deltas)))
    → All P ds
    → All Q (bump_shards_failed now deltas ds)
unfolding bump_shards_failed
All-bump P Q now deltas [] h a = tt
All-bump P Q now deltas (d ∷ ds) h (pd, a) = (h d pd, All-bump P Q now deltas ds h a)

add_failed-parts :
    (now : ℕ) (d : Document) (delta : Option ℕ) (n : ℕ)
    → d.shards_failed ≡ pos n
    → (add_failed now d delta).shards_failed ≡ pos (n + of_delta delta)
add_failed-parts now d none n h = ground arith
add_failed-parts now d (some k) n h = ground (arith, +ℤ-pos n k)

escalated-rows :
    (now max_attempts id : ℕ) (ss : List Shard)
    → (done_rows id (update_where (exhausted max_attempts) (escalated now) ss) ≡ done_rows id ss)
      × (failed_rows id (update_where (exhausted max_attempts) (escalated now) ss)
          ≡ failed_rows id ss + count_if (λ s. exhausted max_attempts s && of_doc id s) ss)
escalated-rows now max_attempts id ss =
    let p = exhausted max_attempts in
    let f = escalated now in
    (
      omega (
        arith,
        count_if-update_where p (done_of id) f ss,
        count_if-zero (λ s. p s && done_of id s) ss (λ s. ground arith),
        count_if-zero (λ s. p s && done_of id (f s)) ss (λ s. ground arith),
      ),
      omega (
        arith,
        count_if-update_where p (failed_of id) f ss,
        count_if-zero (λ s. p s && failed_of id s) ss (λ s. ground arith),
        count_if-ext (λ s. p s && failed_of id (f s)) (λ s. p s && of_doc id s) ss
            (λ s. ground arith),
      ),
    )

-- Escalation fails the exhausted shards and counts each of them for its document, so it keeps every
-- counter exact.
pub escalate-Counted :
    (now max_attempts : ℕ) (t : Tables)
    → Counted t
    → Counted (escalate_stuck_shards now max_attempts t).0
unfolding escalate_stuck_shards
escalate-Counted now max_attempts t c =
    All-bump (Exact t.shards) _ now _ t.documents
      (λ d x. ground (
        arith,
        x,
        escalated-rows now max_attempts d.id t.shards,
        deltas_of-delta_for (exhausted max_attempts) d.id t.shards [],
        exact d x,
      ))
      c
  where
    deltas : List (ℕ × ℕ)
    deltas = deltas_of (map to_escalated (filter_if (exhausted max_attempts) t.shards)) []

    exact :
        (d : Document)
        → Exact t.shards d
        → (add_failed now d (delta_for d.id deltas)).shards_failed
          ≡ pos (failed_rows d.id t.shards + of_delta (delta_for d.id deltas))
    exact d x = add_failed-parts now d (delta_for d.id deltas) (failed_rows d.id t.shards) x.1

requeued-rows :
    (doc_id id : ℕ) (ss : List Shard)
    → let after = update_where (λ s. of_doc doc_id s && is_failed s.state) requeued ss in
      (done_rows id after ≡ done_rows id ss)
      × (failed_rows id after ≡ (if doc_id == id then 0 else failed_rows id ss))
requeued-rows doc_id id [] = ground arith
requeued-rows doc_id id (s ∷ ss) = ground (arith, requeued-rows doc_id id ss)

-- A retry of the failed shards takes each of them off the counter again, so it keeps every counter
-- exact.
pub requeue-Counted :
    (now doc_id : ℕ) (t : Tables) → Counted t → Counted (requeue_failed_shards now doc_id t).0
unfolding requeue_failed_shards
requeue-Counted now doc_id t c = elim (Bool-cases (ltb 0 (failed_rows doc_id t.shards))) [
  | inl some_failed ↦ rw some_failed (
      All-update_where (Exact t.shards) _ (has_id doc_id) _ t.documents
        (λ d e x. ground (
          arith,
          e,
          x,
          requeued-rows doc_id d.id t.shards,
          -ℤ-pos (failed_rows doc_id t.shards) (failed_rows doc_id t.shards),
        ))
        (λ d e x. ground (arith, e, x, requeued-rows doc_id d.id t.shards)) c)
  | inr none_failed ↦ rw none_failed (
      All-map (Exact t.shards) _ t.documents
        (λ d x. ground (arith, none_failed, x, requeued-rows doc_id d.id t.shards)) c)
]

-- The rows that a full retry keeps are those of the other documents.
kept-rows :
    (doc_id id : ℕ) (ss : List Shard)
    → let kept = filter_if (λ (s : Shard). not (of_doc doc_id s)) ss in
      (done_rows id kept ≡ (if doc_id == id then 0 else done_rows id ss))
      × (failed_rows id kept ≡ (if doc_id == id then 0 else failed_rows id ss))
kept-rows doc_id id [] = ground arith
kept-rows doc_id id (s ∷ ss) = ground (arith, kept-rows doc_id id ss)

-- A full retry deletes a document's shards and zeroes its counters: all counters stay exact.
pub full_retry-Counted :
    (now doc_id : ℕ) (t : Tables) → Counted t → Counted (reset_doc_for_full_retry now doc_id t)
unfolding reset_doc_for_full_retry
full_retry-Counted now doc_id t c =
    All-update_where (Exact t.shards) _ (has_id doc_id) _ t.documents
      (λ d e x. ground (arith, e, kept-rows doc_id d.id t.shards))
      (λ d e x. ground (arith, e, x, kept-rows doc_id d.id t.shards)) c

set_chunk_count-Counted :
    (now doc_id chunk_count : ℕ) (t : Tables)
    → Counted t
    → Counted (set_chunk_count_and_completeness now doc_id chunk_count t)
unfolding set_chunk_count_and_completeness
set_chunk_count-Counted now doc_id chunk_count t c =
    All-update_where (Exact t.shards) (Exact t.shards) (has_id doc_id) _ t.documents (λ d e x. x)
      (λ d e x. x) c

-- The repair makes the counters of a document exact, whatever they were, and touches no other: all
-- are exact afterwards if all but that document's were before.
pub repair-Counted :
    (now doc_id : ℕ) (t : Tables)
    → All (λ d. Exact t.shards d ⊎ (d.id ≡ doc_id)) t.documents
    → Counted (repair_doc_counters now doc_id t).0
unfolding repair_doc_counters
repair-Counted now doc_id t c =
    elim (Bool-cases
      (count_if (λ (c : Chunk). c.doc_id == doc_id && not c.is_parent) t.chunks == 0)) [
        | inl no_chunks ↦ rw no_chunks counted
        | inr some_chunks ↦ rw some_chunks (set_chunk_count-Counted now doc_id _ repaired counted)
      ]
  where
    repaired : Tables
    repaired = record t {
      documents =
          update_where (has_id doc_id)
            (λ d. record d {
              shards_done = done_rows doc_id t.shards;
              shards_failed = pos (failed_rows doc_id t.shards);
              updated_at = now;
            })
            t.documents;
    }

    counted : Counted repaired
    counted =
        All-update_where (λ d. Exact t.shards d ⊎ (d.id ≡ doc_id)) (Exact t.shards) (has_id doc_id)
          _ t.documents (λ d e x. ground arith) (λ d e x. ground arith) c
