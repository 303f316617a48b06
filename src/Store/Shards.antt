-- ===== src/Store/Shards.antt =====
-- internal/store/documents.go: the statements on shards. A statement that the database cannot run
-- leaves the transaction's tables as they were and is not modelled; the errors below are the code's.
use Prim.Native.String.{String}
use lybrix.Base.{
  ℕ, ◌+◌, ◌*◌, max, Bool, false, ◌&&◌, ◌||◌, Option, none, some, List, [], ◌∷◌, ◌++◌, ltb,
  if◌then◌else◌, any_of, count_if,
}
use lybrix.Base.Int.{pos, ◌+ℤ◌}
use lybrix.Base.Results.{Result, ok, err}
use lybrix.Store.Rows.{
  Shard, ShardState, Detail, Mean, Tables, pending, running, done, skipped, update_where,
  is_pending, is_running, is_failed, at_key, of_doc, has_id,
}

pub data StoreError : Type 0 where
  shard_not_found duplicate_key : StoreError

unfoldable pub find_shard : (Shard → Bool) → List Shard → Option Shard
find_shard p [] = none
find_shard p (s ∷ ss) = let rest = find_shard p ss in if p s then some s else rest

-- GetShard.
unfoldable pub get_shard : ℕ → ℕ → Tables → Option Shard
unfolding find_shard
get_shard doc_id idx t = find_shard (at_key doc_id idx) t.shards

-- `doc_id = $1 AND idx = $2 AND state IN ('pending','failed')`.
abbrev pub claimable : ℕ → ℕ → Shard → Bool
claimable doc_id idx s = at_key doc_id idx s && (is_pending s.state || is_failed s.state)

abbrev pub claimed : String → ℕ → Shard → Shard
claimed worker_id lease_until s = record s {
  state = running;
  attempts = s.attempts + 1;
  worker_id = some worker_id;
  lease_until = some lease_until;
}

abbrev pub then_some {ℓ} : {A : Type ℓ} → Option A → (A → A) → Option A
then_some none f = none
then_some (some a) f = some (f a)

-- ClaimShard: the row as claimed, or none if someone else got it.
unfoldable pub claim_shard : ℕ → ℕ → ℕ → String → ℕ → Tables → Tables × Option Shard
unfolding find_shard
claim_shard now doc_id idx worker_id lease_seconds t =
    let lease_until = now + 1000 * lease_seconds in
    (
      record t {
        shards = update_where (claimable doc_id idx) (claimed worker_id lease_until) t.shards;
      },
      then_some (find_shard (claimable doc_id idx) t.shards) (claimed worker_id lease_until),
    )

-- What a parse reports of a finished shard.
pub record Parsed : Type 0 where
  pub duration_ms : ℕ
  pub peak_rss_mb : ℕ
  pub parsed_uri : String
  pub needs_ocr : Bool
  pub mean_chars : Option Mean

abbrev pub finished : ℕ → Parsed → Shard → Shard
finished now r s = record s {
  state = done;
  done_at = some now;
  needs_ocr = r.needs_ocr;
  duration_ms = some r.duration_ms;
  peak_rss_mb = some r.peak_rss_mb;
  parsed_uri = some r.parsed_uri;
  lease_until = none;
  mean_chars_per_page = r.mean_chars;
  error_code = none;
  error_detail = none;
}

-- MarkShardDone: the update has no condition on the shard's state.
unfoldable pub mark_shard_done : ℕ → ℕ → ℕ → Parsed → Tables → Tables
mark_shard_done now doc_id idx r t = record t {
  shards = update_where (at_key doc_id idx) (finished now r) t.shards;
  documents =
      update_where (has_id doc_id)
        (λ d. record d { shards_done = d.shards_done + 1; updated_at = now }) t.documents;
}

-- MarkShardFailed.
unfoldable pub mark_shard_failed : ℕ → ℕ → ℕ → String → Detail → Tables → Tables
mark_shard_failed now doc_id idx code detail t = record t {
  shards =
      update_where (at_key doc_id idx)
        (λ s. record s {
          state = ShardState.failed;
          error_code = some code;
          error_detail = some detail;
          lease_until = none;
        })
        t.shards;
  documents =
      update_where (has_id doc_id)
        (λ d. record d { shards_failed = d.shards_failed +ℤ pos 1; updated_at = now }) t.documents;
}

-- SkipShard: an error if no row was updated.
unfoldable pub skip_shard : ℕ → ℕ → Tables → Result StoreError Tables
skip_shard doc_id idx t =
    if any_of (at_key doc_id idx) t.shards
    then ok (record t {
      shards = update_where (at_key doc_id idx) (λ s. record s { state = skipped }) t.shards;
    })
    else err shard_not_found

-- `max(idx) + 1`, and 0 where the document has no shard.
unfoldable pub idx_above : ℕ → List Shard → ℕ
idx_above doc_id [] = 0
idx_above doc_id (s ∷ ss) =
    let rest = idx_above doc_id ss in if of_doc doc_id s then max (s.idx + 1) rest else rest

-- NextShardIdx.
unfoldable pub next_shard_idx : ℕ → Tables → ℕ
unfolding idx_above
next_shard_idx doc_id t = idx_above doc_id t.shards

-- The defaults of the table's columns.
abbrev pub fresh_shard : ℕ → ℕ → ℕ → ℕ → Shard
fresh_shard doc_id idx page_start page_end = record {
  doc_id = doc_id;
  idx = idx;
  page_start = page_start;
  page_end = page_end;
  state = pending;
  attempts = 0;
  needs_ocr = false;
  mean_chars_per_page = none;
  parsed_uri = none;
  worker_id = none;
  lease_until = none;
  duration_ms = none;
  peak_rss_mb = none;
  done_at = none;
  error_code = none;
  error_detail = none;
}

-- InsertShards: one row for each pair of pages. The key (doc_id, idx) refuses a second row.
unfoldable pub insert_shards : ℕ → List (ℕ × ℕ) → ℕ → List Shard → Result StoreError (List Shard)
insert_shards doc_id [] idx shards = ok shards
insert_shards doc_id ((page_start, page_end) ∷ bounds) idx shards =
    let rest =
      insert_shards doc_id bounds (idx + 1)
        (shards ++ fresh_shard doc_id idx page_start page_end ∷ []) in
    if any_of (at_key doc_id idx) shards then err duplicate_key else rest

abbrev pub before : ℕ → Option ℕ → Bool
before now none = false
before now (some lease) = ltb lease now

-- RequeueExpiredLeases, the janitor's reaper.
unfoldable pub requeue_expired_leases : ℕ → Tables → Tables × ℕ
requeue_expired_leases now t =
    let expired = λ (s : Shard). is_running s.state && before now s.lease_until in
    (
      record t {
        shards =
            update_where expired
              (λ s. record s { state = pending; worker_id = none; lease_until = none }) t.shards;
      },
      count_if expired t.shards,
    )
