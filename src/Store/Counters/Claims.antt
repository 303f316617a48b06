-- ===== src/Store/Counters/Claims.antt =====
-- The counters across the claim, the completion and the reaping of shards.
use Prim.Native.String.{String}
use lybrix.Base.{
  ℕ, ◌+◌, ◌*◌, ◌≡◌, ◌↔◌, Bool, false, ◌&&◌, ◌||◌, List, [], ◌∷◌, arith, ◌==◌, if◌then◌else◌,
  count_if, All,
}
use lybrix.Base.Int.{pos}
use lybrix.Store.Rows.{
  Document, Shard, Tables, update_where, is_running, is_done, is_failed, at_key, of_doc, has_id,
}
use lybrix.Store.Shards.{
  claim_shard, claimable, claimed, Parsed, finished, mark_shard_done, requeue_expired_leases,
  before,
}
use lybrix.Store.Sweeps.{done_rows, failed_rows}
use lybrix.Store.Counters.Lists.{
  count_if-update_where, count_if-zero, count_if-ext, count_if_mono, All-update_where, All-map,
}

-- The counters of `d` are what a recount of its shards gives.
abbrev pub Exact : List Shard → Document → Type 0
Exact shards d =
    (d.shards_done ≡ done_rows d.id shards) × (d.shards_failed ≡ pos (failed_rows d.id shards))

abbrev pub Counted : Tables → Type 0
Counted t = All (Exact t.shards) t.documents

abbrev pub done_of : ℕ → Shard → Bool
done_of id s = of_doc id s && is_done s.state

abbrev pub failed_of : ℕ → Shard → Bool
failed_of id s = of_doc id s && is_failed s.state

pub claim-done_rows :
    (now doc_id idx : ℕ) (worker : String) (lease id : ℕ) (t : Tables)
    → done_rows id (claim_shard now doc_id idx worker lease t).0.shards ≡ done_rows id t.shards
unfolding claim_shard
claim-done_rows now doc_id idx worker lease id t =
    let f = claimed worker (now + 1000 * lease) in
    omega (
      arith,
      count_if-update_where (claimable doc_id idx) (done_of id) f t.shards,
      count_if-zero (λ s. claimable doc_id idx s && done_of id s) t.shards (λ s. ground arith),
      count_if-zero (λ s. claimable doc_id idx s && done_of id (f s)) t.shards (λ s. ground arith),
    )

-- The failed shards of document `id` that the claim takes.
abbrev pub retaken : ℕ → ℕ → ℕ → List Shard → ℕ
retaken doc_id idx id = count_if (λ s. claimable doc_id idx s && failed_of id s)

pub claim-failed_rows :
    (now doc_id idx : ℕ) (worker : String) (lease id : ℕ) (t : Tables)
    → failed_rows id (claim_shard now doc_id idx worker lease t).0.shards
        + retaken doc_id idx id t.shards
      ≡ failed_rows id t.shards
unfolding claim_shard
claim-failed_rows now doc_id idx worker lease id t =
    let f = claimed worker (now + 1000 * lease) in
    omega (
      arith,
      count_if-update_where (claimable doc_id idx) (failed_of id) f t.shards,
      count_if-zero (λ s. claimable doc_id idx s && failed_of id (f s)) t.shards
          (λ s. ground arith),
    )

-- ClaimShard leaves a document's counters exact precisely if it takes no failed shard of the
-- document: a failed shard that is claimed again stays counted in `shards_failed`.
pub claim-Exact :
    (now doc_id idx : ℕ) (worker : String) (lease : ℕ) (t : Tables) (d : Document)
    → Exact t.shards d
    → Exact (claim_shard now doc_id idx worker lease t).0.shards d
      ↔ (retaken doc_id idx d.id t.shards ≡ 0)
claim-Exact now doc_id idx worker lease t d x =
    let same = claim-done_rows now doc_id idx worker lease d.id t in
    let fewer = claim-failed_rows now doc_id idx worker lease d.id t in
    (
      λ (y : Exact (claim_shard now doc_id idx worker lease t).0.shards d).
          ground (arith, same, fewer),
      λ z. ground (arith, same, fewer),
    )

-- A claim of a shard that has not failed keeps every document's counters exact.
pub claim-Counted :
    (now doc_id idx : ℕ) (worker : String) (lease : ℕ) (t : Tables)
    → count_if (λ (s : Shard). at_key doc_id idx s && is_failed s.state) t.shards ≡ 0
    → Counted t
    → Counted (claim_shard now doc_id idx worker lease t).0
unfolding claim_shard
claim-Counted now doc_id idx worker lease t h c =
    All-map (Exact t.shards) _ t.documents
      (λ d x. (claim-Exact now doc_id idx worker lease t d x).1 (none_taken d.id)) c
  where
    none_taken : (id : ℕ) → retaken doc_id idx id t.shards ≡ 0
    none_taken id = omega (
      arith,
      h,
      count_if_mono (λ s. claimable doc_id idx s && failed_of id s)
          (λ (s : Shard). at_key doc_id idx s && is_failed s.state) t.shards (λ s. ground arith),
    )

-- The rows at a key, counted among those of a document.
at_key-of_doc :
    (doc_id idx id : ℕ) (ss : List Shard)
    → count_if (λ s. at_key doc_id idx s && of_doc id s) ss
      ≡ (if doc_id == id then count_if (at_key doc_id idx) ss else 0)
at_key-of_doc doc_id idx id [] = ground arith
at_key-of_doc doc_id idx id (s ∷ ss) = ground (arith, at_key-of_doc doc_id idx id ss)

pub mark_done-done_rows :
    (now doc_id idx : ℕ) (r : Parsed) (id : ℕ) (t : Tables)
    → done_rows id (mark_shard_done now doc_id idx r t).shards
        + count_if (λ s. at_key doc_id idx s && done_of id s) t.shards
      ≡ done_rows id t.shards + (if doc_id == id then count_if (at_key doc_id idx) t.shards else 0)
unfolding mark_shard_done
mark_done-done_rows now doc_id idx r id t = omega (
  arith,
  count_if-update_where (at_key doc_id idx) (done_of id) (finished now r) t.shards,
  count_if-ext (λ s. at_key doc_id idx s && done_of id (finished now r s))
      (λ s. at_key doc_id idx s && of_doc id s) t.shards (λ s. ground arith),
  at_key-of_doc doc_id idx id t.shards,
)

pub mark_done-failed_rows :
    (now doc_id idx : ℕ) (r : Parsed) (id : ℕ) (t : Tables)
    → failed_rows id (mark_shard_done now doc_id idx r t).shards
        + count_if (λ s. at_key doc_id idx s && failed_of id s) t.shards
      ≡ failed_rows id t.shards
unfolding mark_shard_done
mark_done-failed_rows now doc_id idx r id t = omega (
  arith,
  count_if-update_where (at_key doc_id idx) (failed_of id) (finished now r) t.shards,
  count_if-zero (λ s. at_key doc_id idx s && failed_of id (finished now r s)) t.shards
      (λ s. ground arith),
)

abbrev pub settled : Shard → Bool
settled s = is_done s.state || is_failed s.state

-- What MarkShardDone does to the recount of document `id`, where the key holds one open shard.
pub record Completed (doc_id id : ℕ) (old new : List Shard) : Type 0 where
  pub one_more : done_rows id new ≡ done_rows id old + (if doc_id == id then 1 else 0)
  pub as_many : failed_rows id new ≡ failed_rows id old

pub mark_done-Completed :
    (now doc_id idx : ℕ) (r : Parsed) (id : ℕ) (t : Tables)
    → count_if (at_key doc_id idx) t.shards ≡ 1
    → count_if (λ s. at_key doc_id idx s && settled s) t.shards ≡ 0
    → Completed doc_id id t.shards (mark_shard_done now doc_id idx r t).shards
mark_done-Completed now doc_id idx r id t one fresh = record {
  one_more = ground (arith, one, no_done, mark_done-done_rows now doc_id idx r id t);
  as_many = omega (arith, no_failed, mark_done-failed_rows now doc_id idx r id t);
}
  where
    no_done : count_if (λ s. at_key doc_id idx s && done_of id s) t.shards ≡ 0
    no_done = omega (
      arith,
      fresh,
      count_if_mono (λ s. at_key doc_id idx s && done_of id s)
          (λ s. at_key doc_id idx s && settled s) t.shards (λ s. ground arith),
    )

    no_failed : count_if (λ s. at_key doc_id idx s && failed_of id s) t.shards ≡ 0
    no_failed = omega (
      arith,
      fresh,
      count_if_mono (λ s. at_key doc_id idx s && failed_of id s)
          (λ s. at_key doc_id idx s && settled s) t.shards (λ s. ground arith),
    )

-- MarkShardDone keeps every counter exact if the shard exists, once, and was not settled before.
pub mark_done-Counted :
    (now doc_id idx : ℕ) (r : Parsed) (t : Tables)
    → count_if (at_key doc_id idx) t.shards ≡ 1
    → count_if (λ s. at_key doc_id idx s && settled s) t.shards ≡ 0
    → Counted t
    → Counted (mark_shard_done now doc_id idx r t)
unfolding mark_shard_done
mark_done-Counted now doc_id idx r t one fresh c =
    All-update_where (Exact t.shards) _ (has_id doc_id) _ t.documents
      (λ d e x. ground (arith, mark_done-Completed now doc_id idx r d.id t one fresh))
      (λ d e x. ground (arith, mark_done-Completed now doc_id idx r d.id t one fresh)) c

-- An update that neither takes nor makes a settled shard leaves the counters exact.
pub open_update-Exact :
    (p : Shard → Bool) (f : Shard → Shard) (shards : List Shard) (d : Document)
    → ((s : Shard) → p s && settled s ≡ false)
    → ((s : Shard) → p s && settled (f s) ≡ false)
    → Exact shards d
    → Exact (update_where p f shards) d
open_update-Exact p f shards d before_open after_open x = ground (
  arith,
  count_if-update_where p (done_of d.id) f shards,
  count_if-update_where p (failed_of d.id) f shards,
  count_if-zero (λ s. p s && done_of d.id s) shards (λ s. ground (arith, before_open s)),
  count_if-zero (λ s. p s && done_of d.id (f s)) shards (λ s. ground (arith, after_open s)),
  count_if-zero (λ s. p s && failed_of d.id s) shards (λ s. ground (arith, before_open s)),
  count_if-zero (λ s. p s && failed_of d.id (f s)) shards (λ s. ground (arith, after_open s)),
)

-- The reaper moves no settled shard, so it keeps every counter exact.
pub reap-Counted : (now : ℕ) (t : Tables) → Counted t → Counted (requeue_expired_leases now t).0
unfolding requeue_expired_leases
reap-Counted now t c =
    All-map (Exact t.shards) _ t.documents
      (λ d x.
        open_update-Exact (λ s. is_running s.state && before now s.lease_until) _ t.shards d
          (λ s. ground arith) (λ s. ground arith) x)
      c
