-- ===== src/Worker/Reclaim.antt =====
-- reclaimDecide and reclaim of internal/worker/janitor.go: what becomes of the stream entries that
-- dead consumers left behind. The Redis server is a parameter, in `Server`.
pub mod Accounting
use Prim.Native.String.{String}
use lybrix.Base.{
  ℕ, suc, ◌+◌, ◌<◌, ◌≤◌, ◌≡◌, refl, ◌⊎◌, inl, inr, Bool, true, false, Option, none, some, List, [],
  ◌∷◌, ◌++◌, ltb, leb, if◌then◌else◌, arith, Bool-cases, Option-cases, length, length-append,
  count_if,
}
use lybrix.Queue.Sends.{Message, on_split, on_parse, on_embed, Sent, SendError, xadd_failed}
use lybrix.Store.Rows.{Event, Detail, quarantined_from}

-- An entry as XAUTOCLAIM returns it; no job where the job field is empty.
pub record Entry : Type 0 where
  pub id : ℕ
  pub job : Option Message

-- The server's answers: ClaimStale per stream, the delivery count of an entry (none where XPENDING
-- fails or knows nothing), and the messages that XADD refuses.
pub record Server : Type 0 where
  pub refused : Message → Bool
  pub stale : String → Option (List Entry)
  pub deliveries : ℕ → Option ℕ

-- The streams' end that the reclaim changes: what was added, and which entries were acknowledged
-- and deleted.
pub record Streams : Type 0 where
  pub sent : Sent
  pub dropped : List ℕ

pub data Decision : Type 0 where
  kept readded : Decision
  quarantined : Event → Decision

abbrev doc_of : Message → Option ℕ
doc_of (on_split j) = some j.doc_id
doc_of (on_parse j) = some j.doc_id
doc_of (on_embed j) = some j.doc_id

abbrev idx_of : Message → Option ℕ
idx_of (on_split j) = none
idx_of (on_parse j) = some j.idx
idx_of (on_embed j) = none

-- quarantineEventOf.
abbrev pub quarantine_event_of : String → Message → ℕ → Event
quarantine_event_of stream job times_delivered = record {
  level = "error";
  stage = "dlq";
  message = quarantined_from stream times_delivered;
  doc_id = doc_of job;
  shard_idx = idx_of job;
  code = some "DLQ";
  worker_id = none;
}

abbrev pub drop_entry : ℕ → Streams → Streams
drop_entry id st = record st { dropped = st.dropped ++ id ∷ [] }

abbrev pub over_cap : ℕ → Option ℕ → Bool
over_cap limit none = false
over_cap limit (some n) = leb limit n

abbrev pub count_of : Option ℕ → ℕ
count_of none = 0
count_of (some n) = n

abbrev pub decide_job : Server → String → ℕ → ℕ → Message → Streams → Option Decision × Streams
decide_job server stream limit id job st =
    if over_cap limit (server.deliveries id)
    then (
      some (quarantined (quarantine_event_of stream job (count_of (server.deliveries id)))),
      drop_entry id st,
    )
    else if server.refused job
    then (none, st)
    else (some readded, drop_entry id (record st { sent = st.sent ++ job ∷ [] }))

-- reclaimDecide; no decision where the XADD of the fresh copy fails.
unfoldable pub reclaim_decide : Server → String → ℕ → Entry → Streams → Option Decision × Streams
reclaim_decide server stream limit entry st = elim entry.job [
  | none ↦ (some kept, drop_entry entry.id st)
  | some job ↦ decide_job server stream limit entry.id job st
]

pub record Reclaimed : Type 0 where
  pub count : ℕ
  pub events : List Event
  pub streams : Streams

abbrev pub note_decision : Decision → Streams → Reclaimed → Reclaimed
note_decision kept st acc = record acc { streams = st }
note_decision readded st acc = record acc { count = acc.count + 1; streams = st }
note_decision (quarantined e) st acc = record acc { events = acc.events ++ e ∷ []; streams = st }

abbrev pub go_on :
    (Reclaimed → Reclaimed × Option SendError)
    → Reclaimed
    → Option Decision
    → Streams
    → Reclaimed × Option SendError
go_on rest acc none st = (record acc { streams = st }, some xadd_failed)
go_on rest acc (some d) st = rest (note_decision d st acc)

-- The loop over a stream's entries; an error ends it and the whole reclaim.
unfoldable pub reclaim_entries :
    Server → String → ℕ → List Entry → Reclaimed → Reclaimed × Option SendError
unfolding reclaim_decide
reclaim_entries server stream limit [] acc = (acc, none)
reclaim_entries server stream limit (entry ∷ entries) acc =
    let (decided, st) = reclaim_decide server stream limit entry acc.streams in
    go_on (reclaim_entries server stream limit entries) acc decided st

-- A stream whose claim fails is passed over.
abbrev pub stale_of : Server → String → List Entry
stale_of server stream = elim (server.stale stream) [ none ↦ [] | some entries ↦ entries ]

unfoldable pub reclaim_streams : Server → ℕ → List String → Reclaimed → Reclaimed × Option SendError
unfolding reclaim_entries
reclaim_streams server limit [] acc = (acc, none)
reclaim_streams server limit (stream ∷ streams) acc =
    let (acc', e) = reclaim_entries server stream limit (stale_of server stream) acc in
    elim e [ some x ↦ (acc', some x) | none ↦ reclaim_streams server limit streams acc' ]

abbrev pub all_streams : List String
all_streams = "doc.split" ∷ "doc.parse" ∷ "doc.embed" ∷ []

abbrev pub delivery_cap : ℕ → ℕ
delivery_cap max_shard_attempts =
    if ltb (max_shard_attempts + 1) 5 then 5 else max_shard_attempts + 1

-- reclaim.
unfoldable pub reclaim : Server → ℕ → Sent → Reclaimed × Option SendError
unfolding reclaim_streams
reclaim server max_shard_attempts sent =
    reclaim_streams server (delivery_cap max_shard_attempts) all_streams
      (record { count = 0; events = []; streams = record { sent = sent; dropped = [] } })
