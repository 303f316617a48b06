-- ===== src/Worker/Janitor.antt =====
-- The sweeps of internal/worker/janitor.go and its pass. A scan of a stream is a parameter: the keys
-- that PendingJobKeys finds waiting there, or none where the scan fails. The metrics' rollup, the
-- pass's last step, is left out.
pub mod Stale
pub mod Rescue
pub mod Pass
pub mod Quarantines
use Prim.Native.String.{String}
use lybrix.Base.{
  ℕ, ◌+◌, ◌-◌, ◌*◌, Bool, true, false, not, ◌&&◌, ◌||◌, Option, none, some, List, [], ◌∷◌, ◌++◌,
  ◌==◌, if◌then◌else◌, map, any_of, filter_if, length, count_if,
}
use lybrix.Queue.Jobs.{SplitJob, ParseJob, EmbedJob, schema_version}
use lybrix.Queue.Sends.{Message, on_split, on_parse, on_embed, Sent, SendError, send_all}
use lybrix.Store.Rows.{
  Document, DocState, Detail, Event, Tables, uploaded, parsing, literal, escalated_after,
  never_attempted, non_terminal_over, write_event,
}
use lybrix.Store.Documents.{book_settled}
use lybrix.Store.Shards.{requeue_expired_leases}
use lybrix.Store.Sweeps.{
  EscalatedShard, escalate_stuck_shards, non_terminal_docs, stuck_docs, StalePendingShard,
  never_attempted_shards,
}
use lybrix.Worker.Reclaim.{Server, Reclaimed, reclaim}

pub record Settings : Type 0 where
  pub stuck_minutes : ℕ
  pub max_shard_attempts : ℕ

-- What the scans of the three streams find in this pass.
pub record Scans : Type 0 where
  pub split_ids : Option (List ℕ)
  pub embed_ids : Option (List ℕ)
  pub parse_keys : Option (List (ℕ × ℕ))

abbrev pub has_key : ℕ → List ℕ → Bool
has_key id = any_of (λ k. k == id)

abbrev pub has_pair : ℕ → ℕ → List (ℕ × ℕ) → Bool
has_pair doc_id idx = any_of (λ (k : ℕ × ℕ). k.0 == doc_id && k.1 == idx)

unfoldable pub write_events : List Event → Tables → Tables
write_events [] t = t
write_events (e ∷ es) t = write_events es (write_event e t)

abbrev event_of : String → String → Detail → ℕ → Option ℕ → String → Event
event_of level stage message doc_id shard_idx code = record {
  level = level;
  stage = stage;
  message = message;
  doc_id = some doc_id;
  shard_idx = shard_idx;
  code = some code;
  worker_id = none;
}

-- escalate.
abbrev pub escalation_event : EscalatedShard → Event
escalation_event e =
    event_of "error" "parse" (escalated_after e.attempts) e.doc_id (some e.idx) "SHARD_TIMEOUT"

unfoldable pub escalate : ℕ → Settings → Tables → Tables
unfolding write_events
escalate now s t =
    let (t', rows) = escalate_stuck_shards now s.max_shard_attempts t in
    write_events (map escalation_event rows) t'

abbrev pub is_uploaded : DocState → Bool
is_uploaded uploaded = true
is_uploaded _ = false

abbrev pub is_parsing : DocState → Bool
is_parsing parsing = true
is_parsing _ = false

-- requeueSweep: a failed scan skips it.
abbrev split_job_of : Document → Message
split_job_of doc =
    on_split
      (record { schema_version = schema_version; doc_id = doc.id; source_uri = doc.source_uri })

abbrev pub lost_splits : List ℕ → List Document → List Document
lost_splits queued =
    filter_if (λ (doc : Document). is_uploaded doc.state && not (has_key doc.id queued))

unfoldable pub requeue_sweep :
    (Message → Bool) → Option (List ℕ) → List Document → Sent → Sent × Option SendError
requeue_sweep refused none docs sent = (sent, none)
requeue_sweep refused (some queued) docs sent =
    send_all refused (map split_job_of (lost_splits queued docs)) sent

-- embedSweep: the settled books that no embed job waits for.
abbrev pub embed_job_of : Document → Message
embed_job_of doc = on_embed (record { schema_version = schema_version; doc_id = doc.id })

abbrev pub lost_embeds : List ℕ → List Document → List Document
lost_embeds queued =
    filter_if (λ (doc : Document).
      is_parsing doc.state && (book_settled doc && not (has_key doc.id queued)))

abbrev pub rescue_event : Document → Event
rescue_event doc =
    event_of "warn" "janitor" (literal "settled book found without embed job — re-enqueued") doc.id
      none "EMBED_RESCUE"

abbrev pub with_events :
    List Event → Tables → Sent × Option SendError → Tables × Sent × Option SendError
with_events es t (sent, none) = (write_events es t, sent, none)
with_events es t (sent, some e) = (t, sent, some e)

unfoldable pub embed_sweep :
    (Message → Bool)
    → Option (List ℕ)
    → List Document
    → Tables
    → Sent
    → Tables × Sent × Option SendError
unfolding write_events
embed_sweep refused none docs t sent = (t, sent, none)
embed_sweep refused (some queued) docs t sent =
    let lost = lost_embeds queued docs in
    with_events (map rescue_event lost) t (send_all refused (map embed_job_of lost) sent)

-- missingParseJobs.
abbrev pub parse_job_of : StalePendingShard → ParseJob
parse_job_of s = record {
  schema_version = schema_version;
  doc_id = s.doc_id;
  idx = s.idx;
  page_start = s.page_start;
  page_end = s.page_end;
  source_uri = s.source_uri;
}

unfoldable pub missing_parse_jobs : List (ℕ × ℕ) → List StalePendingShard → List ParseJob
missing_parse_jobs queued [] = []
missing_parse_jobs queued (s ∷ shards) =
    let rest = missing_parse_jobs queued shards in
    if has_pair s.doc_id s.idx queued then rest else parse_job_of s ∷ rest

-- The documents of the jobs, each once; the code's map gives them in no fixed order.
unfoldable pub rescued_docs : List ParseJob → List ℕ
rescued_docs [] = []
rescued_docs (j ∷ jobs) =
    let rest = rescued_docs jobs in if has_key j.doc_id rest then rest else j.doc_id ∷ rest

-- countJobs.
abbrev count_jobs : ℕ → List ParseJob → ℕ
count_jobs doc_id = count_if (λ (j : ParseJob). j.doc_id == doc_id)

abbrev pub parse_rescue_event : List ParseJob → ℕ → Event
parse_rescue_event jobs doc_id =
    event_of "warn" "janitor" (never_attempted (count_jobs doc_id jobs)) doc_id none "PARSE_RESCUE"

-- Two minutes.
abbrev pub shard_sweep_grace : ℕ
shard_sweep_grace = 120000

-- pendingShardSweep.
unfoldable pub pending_shard_sweep :
    (Message → Bool) → ℕ → Option (List (ℕ × ℕ)) → Tables → Sent → Tables × Sent × Option SendError
unfolding write_events missing_parse_jobs rescued_docs
pending_shard_sweep refused now none t sent = (t, sent, none)
pending_shard_sweep refused now (some queued) t sent =
    let jobs = missing_parse_jobs queued (never_attempted_shards (now - shard_sweep_grace) t) in
    with_events (map (parse_rescue_event jobs) (rescued_docs jobs)) t
      (send_all refused (map on_parse jobs) sent)

-- stuckWarn.
abbrev pub stuck_event : ℕ → Document → Event
stuck_event minutes doc =
    event_of "warn" "janitor" (non_terminal_over minutes doc.state) doc.id none "STUCK_DOCUMENT"

unfoldable pub stuck_warn : ℕ → Settings → Tables → Tables
unfolding write_events
stuck_warn now s t =
    write_events (map (stuck_event s.stuck_minutes) (stuck_docs (now - 60000 * s.stuck_minutes) t))
      t

abbrev pub warn_stuck :
    ℕ → Settings → Tables × Sent × Option SendError → Tables × Sent × Option SendError
warn_stuck now s (t, sent, some e) = (t, sent, some e)
warn_stuck now s (t, sent, none) = (stuck_warn now s t, sent, none)

abbrev pub last_steps :
    (Message → Bool)
    → ℕ
    → Settings
    → Scans
    → Tables × Sent × Option SendError
    → Tables × Sent × Option SendError
last_steps refused now s scans (t, sent, some e) = (t, sent, some e)
last_steps refused now s scans (t, sent, none) =
    warn_stuck now s (pending_shard_sweep refused now scans.parse_keys t sent)

abbrev pub after_reclaim :
    (Message → Bool)
    → ℕ
    → Settings
    → Scans
    → List Document
    → Tables
    → Reclaimed × Option SendError
    → Tables × Sent × Option SendError
after_reclaim refused now s scans docs t (r, some e) = (t, r.streams.sent, some e)
after_reclaim refused now s scans docs t (r, none) =
    last_steps refused now s scans
      (embed_sweep refused scans.embed_ids docs (write_events r.events t) r.streams.sent)

abbrev pub after_requeue :
    Server
    → ℕ
    → Settings
    → Scans
    → List Document
    → Tables
    → Sent × Option SendError
    → Tables × Sent × Option SendError
after_requeue server now s scans docs t (sent, some e) = (t, sent, some e)
after_requeue server now s scans docs t (sent, none) =
    after_reclaim server.refused now s scans docs t (reclaim server s.max_shard_attempts sent)

-- Pass, without the rollup: an error of a step ends it, and what was done before stays.
unfoldable pub pass :
    Server → ℕ → Settings → Scans → Tables → Sent → Tables × Sent × Option SendError
unfolding escalate requeue_sweep embed_sweep pending_shard_sweep stuck_warn write_events
pass server now s scans t sent =
    let t' = escalate now s (requeue_expired_leases now t).0 in
    let docs = non_terminal_docs t' in
    after_requeue server now s scans docs t'
      (requeue_sweep server.refused scans.split_ids docs sent)
