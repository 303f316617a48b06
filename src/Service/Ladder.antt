-- ===== src/Service/Ladder.antt =====
-- internal/service/parser.go: the retry ladder, and the re-split of a shard that keeps failing.
pub mod Resplit
use Prim.Native.String.{String}
use lybrix.Base.{
  ℕ, suc, ◌+◌, ◌-◌, ◌*◌, ◌/◌, max, Bool, true, false, not, ◌&&◌, Option, none, some, List, [], ◌∷◌,
  ltb, leb, ◌==◌, if◌then◌else◌, length,
}
use lybrix.Base.Results.{Result, ok, err, ◌>>=◌}
use lybrix.Shards.{ShardBound, BoundsError, fixed_bounds}
use lybrix.Queue.Jobs.{ParseJob, schema_version}
use lybrix.Store.Rows.{Document, Shard, Tables, resplit_into, update_where, has_id, write_event}
use lybrix.Store.Documents.{total_of}
use lybrix.Store.Shards.{StoreError, next_shard_idx, skip_shard, insert_shards}

pub data Action : Type 0 where
  split text_only : Action

-- `page_end - page_start + 1`; a range that is not ordered has no page.
abbrev pub span_of : Shard → ℕ
span_of s = s.page_end + 1 - s.page_start

-- LadderAction.
pub ladder_action : Shard → ℕ → Action
ladder_action shard shard_pages =
    let span = span_of shard in
    if ltb span 2
    then text_only
    else if shard.attempts == 2 && leb (4 * max 1 (shard_pages / 4) / 2) span
    then split
    else if shard.attempts == 3 && leb 2 span
    then split
    else text_only

abbrev pub resplit_pages : Shard → ℕ
resplit_pages shard = if ltb shard.attempts 3 then max 1 (span_of shard / 4) else 1

-- The sub-shards' page ranges, moved to the parent's first page.
abbrev pub moved_bounds : ℕ → List ShardBound → List (ℕ × ℕ)
moved_bounds page_start [] = []
moved_bounds page_start (b ∷ bs) =
    (page_start + b.page_start - 1, page_start + b.page_end - 1) ∷ moved_bounds page_start bs

-- subShardJobs.
unfoldable pub sub_shard_jobs : Document → List (ℕ × ℕ) → ℕ → List ParseJob
sub_shard_jobs doc [] idx = []
sub_shard_jobs doc ((page_start, page_end) ∷ bounds) idx =
    record {
      schema_version = schema_version;
      doc_id = doc.id;
      idx = idx;
      page_start = page_start;
      page_end = page_end;
      source_uri = doc.source_uri;
    }
    ∷ sub_shard_jobs doc bounds (idx + 1)

pub data ResplitError : Type 0 where
  bounds_error : BoundsError → ResplitError
  store_error : StoreError → ResplitError

abbrev pub of_bounds {ℓ} : {A : Type ℓ} → Result BoundsError A → Result ResplitError A
of_bounds (ok a) = ok a
of_bounds (err e) = err (bounds_error e)

abbrev pub of_store {ℓ} : {A : Type ℓ} → Result StoreError A → Result ResplitError A
of_store (ok a) = ok a
of_store (err e) = err (store_error e)

-- The sub-shards in place, `total_shards` set from the document as it was read before the
-- transaction, and the event.
abbrev pub resplit_writes : ℕ → Document → Shard → ℕ → List Shard → Tables → Tables
resplit_writes now doc shard pieces rows t =
    write_event
      (record {
        level = "warn";
        stage = "parse";
        message = resplit_into shard.idx pieces shard.attempts;
        doc_id = some doc.id;
        shard_idx = some shard.idx;
        code = some "SHARD_RESPLIT";
        worker_id = none;
      })
      (record t {
        shards = rows;
        documents =
            update_where (has_id doc.id)
              (λ (d : Document). record d {
                total_shards = some (total_of doc.total_shards + pieces);
                updated_at = now;
              })
              t.documents;
      })

-- The transaction of resplitShard: the parent is skipped, and the sub-shards are inserted behind the
-- last idx.
unfoldable pub resplit_tx :
    ℕ → Document → Shard → List (ℕ × ℕ) → Tables → Result StoreError (Tables × ℕ)
resplit_tx now doc shard bounds t = do
  let start_idx = next_shard_idx doc.id t
  skipped ← skip_shard doc.id shard.idx t
  rows ← insert_shards doc.id bounds start_idx skipped.shards
  ok (resplit_writes now doc shard (length bounds) rows skipped, start_idx)

-- resplitShard: the tables after the transaction, and the jobs that are sent after it.
unfoldable pub resplit_shard :
    ℕ → Document → Shard → Tables → Result ResplitError (Tables × List ParseJob)
unfolding resplit_tx
resplit_shard now doc shard t = do
  fb ← of_bounds (fixed_bounds (span_of shard) (resplit_pages shard) 0)
  let bounds = moved_bounds shard.page_start fb
  (t', start_idx) ← of_store (resplit_tx now doc shard bounds t)
  ok (t', sub_shard_jobs doc bounds start_idx)
