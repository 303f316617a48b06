-- ===== src/Store/Sweeps.antt =====
-- internal/store/janitor.go: what the janitor's sweeps read and write, and the counters' repair.
use Prim.Native.String.{String}
use lybrix.Base.{
  ℕ, zero, suc, ◌+◌, ◌*◌, ◌/◌, Bool, not, ◌&&◌, ◌||◌, Option, none, some, List, [], ◌∷◌, ltb, leb,
  ◌==◌, if◌then◌else◌, count_if, filter_if, map,
}
use lybrix.Base.Int.{ℤ, pos, negsuc, ◌+ℤ◌, ◌-ℤ◌, ltb_ℤ}
use lybrix.Store.Rows.{
  Document, Shard, ShardState, Chunk, Tables, escalated_after, ready, partial, pending,
  update_where, is_pending, is_done, is_failed, of_doc, has_id,
}
use lybrix.Store.Documents.{is_terminal, find_document}

pub record EscalatedShard : Type 0 where
  pub doc_id : ℕ
  pub idx : ℕ
  pub attempts : ℕ

-- `state = 'pending' AND attempts >= $1`.
abbrev pub exhausted : ℕ → Shard → Bool
exhausted max_attempts s = is_pending s.state && leb max_attempts s.attempts

abbrev pub escalated : ℕ → Shard → Shard
escalated now s = record s {
  state = ShardState.failed;
  done_at = some now;
  error_code = some "SHARD_TIMEOUT";
  error_detail = some (escalated_after s.attempts);
}

-- `deltas[e.DocID]++`.
unfoldable pub bump_delta : ℕ → List (ℕ × ℕ) → List (ℕ × ℕ)
bump_delta doc_id [] = (doc_id, 1) ∷ []
bump_delta doc_id ((id, n) ∷ deltas) =
    let rest = bump_delta doc_id deltas in
    if id == doc_id then (id, n + 1) ∷ deltas else (id, n) ∷ rest

unfoldable pub deltas_of : List EscalatedShard → List (ℕ × ℕ) → List (ℕ × ℕ)
unfolding bump_delta
deltas_of [] deltas = deltas
deltas_of (e ∷ es) deltas = deltas_of es (bump_delta e.doc_id deltas)

unfoldable pub delta_for : ℕ → List (ℕ × ℕ) → Option ℕ
delta_for doc_id [] = none
delta_for doc_id ((id, n) ∷ deltas) =
    let rest = delta_for doc_id deltas in if id == doc_id then some n else rest

abbrev pub add_failed : ℕ → Document → Option ℕ → Document
add_failed now d none = d
add_failed now d (some n) = record d { shards_failed = d.shards_failed +ℤ pos n; updated_at = now }

-- BumpShardsFailed: one update joined with the deltas, which hold an id at most once.
unfoldable pub bump_shards_failed : ℕ → List (ℕ × ℕ) → List Document → List Document
unfolding delta_for
bump_shards_failed now deltas [] = []
bump_shards_failed now deltas (d ∷ ds) =
    add_failed now d (delta_for d.id deltas) ∷ bump_shards_failed now deltas ds

abbrev pub to_escalated : Shard → EscalatedShard
to_escalated s = record { doc_id = s.doc_id; idx = s.idx; attempts = s.attempts }

-- EscalateStuckShards.
unfoldable pub escalate_stuck_shards : ℕ → ℕ → Tables → Tables × List EscalatedShard
unfolding deltas_of bump_shards_failed
escalate_stuck_shards now max_attempts t =
    let out = map to_escalated (filter_if (exhausted max_attempts) t.shards) in
    (
      record t {
        shards = update_where (exhausted max_attempts) (escalated now) t.shards;
        documents = bump_shards_failed now (deltas_of out []) t.documents;
      },
      out,
    )

-- NonTerminalDocs.
unfoldable pub non_terminal_docs : Tables → List Document
non_terminal_docs t = filter_if (λ (d : Document). not (is_terminal d.state)) t.documents

-- StuckDocs.
unfoldable pub stuck_docs : ℕ → Tables → List Document
stuck_docs cutoff t =
    filter_if (λ (d : Document). not (is_terminal d.state) && ltb d.updated_at cutoff) t.documents

pub record StalePendingShard : Type 0 where
  pub doc_id : ℕ
  pub idx : ℕ
  pub page_start : ℕ
  pub page_end : ℕ
  pub source_uri : String

abbrev pub stale_doc : ℕ → Option Document → Option String
stale_doc older_than none = none
stale_doc older_than (some d) =
    if not (is_terminal d.state) && ltb d.updated_at older_than then some d.source_uri else none

abbrev pub stale_cons : Shard → Option String → List StalePendingShard → List StalePendingShard
stale_cons s none rest = rest
stale_cons s (some uri) rest =
    record {
      doc_id = s.doc_id;
      idx = s.idx;
      page_start = s.page_start;
      page_end = s.page_end;
      source_uri = uri;
    }
    ∷ rest

unfoldable pub stale_pending : ℕ → List Document → List Shard → List StalePendingShard
stale_pending older_than docs [] = []
stale_pending older_than docs (s ∷ ss) =
    let rest = stale_pending older_than docs ss in
    if is_pending s.state && s.attempts == 0
    then stale_cons s (stale_doc older_than (find_document s.doc_id docs)) rest
    else rest

-- ORDER BY s.doc_id, s.idx.
abbrev pub precedes : StalePendingShard → StalePendingShard → Bool
precedes s r = ltb s.doc_id r.doc_id || s.doc_id == r.doc_id && leb s.idx r.idx

unfoldable pub insert_stale : StalePendingShard → List StalePendingShard → List StalePendingShard
insert_stale s [] = s ∷ []
insert_stale s (r ∷ rs) =
    let rest = insert_stale s rs in if precedes s r then s ∷ r ∷ rs else r ∷ rest

unfoldable pub sort_stale : List StalePendingShard → List StalePendingShard
unfolding insert_stale
sort_stale [] = []
sort_stale (s ∷ ss) = insert_stale s (sort_stale ss)

-- NeverAttemptedShards.
unfoldable pub never_attempted_shards : ℕ → Tables → List StalePendingShard
unfolding stale_pending sort_stale find_document
never_attempted_shards older_than t = sort_stale (stale_pending older_than t.documents t.shards)

abbrev pub requeued : Shard → Shard
requeued s = record s { state = pending; error_code = none; error_detail = none }

-- RequeueFailedShards: the error columns are cleared and the counter unwound by the rows requeued.
unfoldable pub requeue_failed_shards : ℕ → ℕ → Tables → Tables × ℕ
requeue_failed_shards now doc_id t =
    let hit = λ (s : Shard). of_doc doc_id s && is_failed s.state in
    let n = count_if hit t.shards in
    (
      record t {
        shards = update_where hit requeued t.shards;
        documents =
            if ltb 0 n
            then update_where (has_id doc_id)
                (λ d. record d { shards_failed = d.shards_failed -ℤ pos n; updated_at = now })
                t.documents
            else t.documents;
      },
      n,
    )

-- `round(x / total, 4)` in ten-thousandths, half up, of a number that is not negative.
abbrev pub rounded_ratio : ℕ → ℕ → ℕ
rounded_ratio x total = (2 * 10000 * x + total) / (2 * total)

-- `LEAST(1, GREATEST(0, (total - failed) / total))`: the clamp of a ratio over a positive total is
-- the ratio of the numerator clamped to 0 and the total.
abbrev pub clamp_to : ℕ → ℤ → ℕ
clamp_to total (pos n) = if ltb total n then total else n
clamp_to total (negsuc n) = 0

abbrev pub completeness_of : Option ℕ → ℤ → Option ℕ
completeness_of none failed = none
completeness_of (some zero) failed = none
completeness_of (some (suc n)) failed =
    some (rounded_ratio (clamp_to (suc n) (pos (suc n) -ℤ failed)) (suc n))

-- SetChunkCountAndCompleteness.
abbrev pub completed : ℕ → ℕ → Document → Document
completed now chunk_count d = record d {
  chunk_count = some chunk_count;
  completeness = completeness_of d.total_shards d.shards_failed;
  state = if ltb_ℤ (pos 0) d.shards_failed then partial else ready;
  ready_at = some now;
  updated_at = now;
}

unfoldable pub set_chunk_count_and_completeness : ℕ → ℕ → ℕ → Tables → Tables
set_chunk_count_and_completeness now doc_id chunk_count t = record t {
  documents = update_where (has_id doc_id) (completed now chunk_count) t.documents;
}

abbrev pub done_rows : ℕ → List Shard → ℕ
done_rows doc_id = count_if (λ (s : Shard). of_doc doc_id s && is_done s.state)

abbrev pub failed_rows : ℕ → List Shard → ℕ
failed_rows doc_id = count_if (λ (s : Shard). of_doc doc_id s && is_failed s.state)

-- RepairDocCounters.
unfoldable pub repair_doc_counters : ℕ → ℕ → Tables → Tables × (ℕ × ℕ)
unfolding set_chunk_count_and_completeness
repair_doc_counters now doc_id t =
    let done = done_rows doc_id t.shards in
    let failed = failed_rows doc_id t.shards in
    let counted = record t {
      documents =
          update_where (has_id doc_id)
            (λ d. record d { shards_done = done; shards_failed = pos failed; updated_at = now })
            t.documents;
    } in
    let chunk_count = count_if (λ (c : Chunk). c.doc_id == doc_id && not c.is_parent) t.chunks in
    (
      if chunk_count == 0
          then counted
          else set_chunk_count_and_completeness now doc_id chunk_count counted,
      (done, failed),
    )
