-- ===== src/Service/Parse/Handle.antt =====
-- internal/service/parser.go: HandleParse, its claim of the shard, and the choice between the parse
-- and the re-split.
use Prim.Native.String.{String}
use lybrix.Base.{ℕ, Bool, true, false, ◌&&◌, Option, none, some, List, leb, if◌then◌else◌, map}
use lybrix.Base.Results.{Result, ok, err}
use lybrix.Queue.Jobs.{ParseJob}
use lybrix.Queue.Sends.{Message, Sent, on_parse}
use lybrix.Store.Rows.{Document, Shard, Tables}
use lybrix.Store.Documents.{get_document}
use lybrix.Store.Shards.{claim_shard}
use lybrix.Service.Ladder.{
  Action, split, text_only, ladder_action, ResplitError, bounds_error, store_error, resplit_shard,
}
use lybrix.Service.World.{World, HandlerError, missing_field, Job, sending}
use lybrix.Service.Parse.{Settings, Backend, fetch_and_parse}

abbrev of_resplit :
    (Message → Bool)
    → World
    → Result ResplitError (Tables × List ParseJob)
    → World × Option HandlerError
of_resplit refused w (err (bounds_error e)) = (w, some (HandlerError.bounds_error e))
of_resplit refused w (err (store_error e)) = (w, some (HandlerError.store_error e))
of_resplit refused w (ok (tables, jobs)) = sending refused (map on_parse jobs) tables w.sent

-- SplitAndRequeue.
unfoldable pub split_and_requeue :
    (Message → Bool) → ℕ → Document → Shard → World → World × Option HandlerError
split_and_requeue refused now doc shard w =
    of_resplit refused w (resplit_shard now doc shard w.tables)

abbrev is_split : Action → Bool
is_split split = true
is_split text_only = false

-- With the claimed shard: a first attempt is parsed, a later one climbs the ladder.
unfoldable pub parse_claimed :
    (Message → Bool)
    → Settings
    → Backend
    → ℕ
    → Document
    → Shard
    → Job
    → World
    → World × Option HandlerError
parse_claimed refused s b now doc shard job w =
    if leb 2 shard.attempts && is_split (ladder_action shard s.shard_pages)
    then split_and_requeue refused now doc shard w
    else fetch_and_parse refused s b now doc shard job w

-- claimShard, and the work on what it returns: no shard means that someone else has it.
abbrev with_claim :
    (Message → Bool)
    → Settings
    → Backend
    → ℕ
    → Document
    → Job
    → Sent
    → Tables × Option Shard
    → World × Option HandlerError
with_claim refused s b now doc job sent (tables, none) =
    (record { tables = tables; sent = sent }, none)
with_claim refused s b now doc job sent (tables, some shard) =
    parse_claimed refused s b now doc shard job (record { tables = tables; sent = sent })

abbrev with_document :
    (Message → Bool)
    → Settings
    → Backend
    → ℕ
    → String
    → ℕ
    → Job
    → World
    → Option Document
    → World × Option HandlerError
with_document refused s b now worker_id idx job w none = (w, none)
with_document refused s b now worker_id idx job w (some doc) =
    with_claim refused s b now doc job w.sent
      (claim_shard now doc.id idx worker_id s.shard_lease_seconds w.tables)

-- HandleParse.
unfoldable pub handle_parse :
    (Message → Bool) → Settings → Backend → ℕ → String → Job → World → World × Option HandlerError
handle_parse refused s b now worker_id job w = elim job.doc_id [
  | none ↦ (w, some (missing_field "doc_id"))
  | some doc_id ↦ elim job.idx [
    | none ↦ (w, some (missing_field "idx"))
    | some idx ↦ with_document refused s b now worker_id idx job w (get_document doc_id w.tables)
  ]
]
