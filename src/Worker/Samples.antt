-- ===== src/Worker/Samples.antt =====
-- A pass over a small database and a stream with a poisoned entry, and the theorems at them.
use lybrix.Base.{
  ℕ, ◌+◌, ◌≡◌, refl, Bool, true, false, length, none, some, List, [], ◌∷◌, ◌++◌, count_if, ◌==◌,
  if◌then◌else◌,
}
use lybrix.Base.Int.{pos}
use lybrix.Queue.Sends.{Message, on_embed, send_all}
use lybrix.Store.Rows.{Document, Tables, parsing, done}
use lybrix.Store.Shards.{fresh_shard, requeue_expired_leases}
use lybrix.Store.Sweeps.{escalate_stuck_shards, non_terminal_docs}
use lybrix.Store.Counters.Claims.{Counted}
use lybrix.Worker.Reclaim.{Server, Entry, Reclaimed, reclaim, reclaim_decide, reclaim_entries}
use lybrix.Worker.Reclaim.Accounting.{
  Fate, Accounted, is_husk, reclaim_decide-Fate, reclaim_entries-Accounted,
}
use lybrix.Worker.Janitor.{
  Settings, Scans, pending_shard_sweep, embed_sweep, lost_embeds, pass, escalate, requeue_sweep,
  write_events,
}
use lybrix.Worker.Janitor.Rescue.{ids_of, pending_shard_sweep_sends, Swept, embed_sweep_again}
use lybrix.Worker.Janitor.Pass.{pass-Counted}
use lybrix.Worker.Janitor.Quarantines.{quarantines, kept_events, pass-quarantines}

abbrev embed : ℕ → Message
embed id = on_embed (record { schema_version = 1; doc_id = id })

abbrev none_refused : Message → Bool
none_refused m = false

-- Entry 1 has been delivered nine times, entry 2 once.
abbrev server : (Message → Bool) → Server
server refused = record {
  refused = refused;
  stale = λ stream.
      some (record { id = 1; job = some (embed 7) } ∷ record { id = 2; job = some (embed 8) } ∷ []);
  deliveries = λ id. if id == 1 then some 9 else some 1;
}

abbrev start : Reclaimed
start = record { count = 0; events = []; streams = record { sent = []; dropped = [] } }

abbrev entries : List Entry
entries = record { id = 1; job = some (embed 7) } ∷ record { id = 3; job = none } ∷ []

abbrev second : Entry
second = record { id = 2; job = some (embed 8) }

reclaim_decide-Fate_example :
    let (decided, st) =
      reclaim_decide
        (server none_refused)
        "doc.embed"
        5
        second
        (record { sent = []; dropped = [] }) in
    Fate
      (server none_refused)
      "doc.embed"
      5
      2
      (embed 8)
      (record { sent = []; dropped = [] })
      decided
      st
reclaim_decide-Fate_example =
    reclaim_decide-Fate (server none_refused) "doc.embed" 5 second (embed 8)
      (record { sent = []; dropped = [] }) refl

reclaim_entries-Accounted_example :
    Accounted start
      (count_if is_husk entries)
      (reclaim_entries (server none_refused) "doc.embed" 5 entries start)
reclaim_entries-Accounted_example =
    reclaim_entries-Accounted (server none_refused) "doc.embed" 5 entries start

abbrev book : ℕ → ℕ → Document
book id shards_done = record {
  id = id;
  collection_id = none;
  source_uri = "s3://raw/7.pdf";
  page_count = some 8;
  mime_type = some "application/pdf";
  state = parsing;
  error_code = none;
  error_detail = none;
  total_shards = some 2;
  shards_done = shards_done;
  shards_failed = pos 0;
  chunk_count = none;
  completeness = none;
  updated_at = 100;
  ready_at = none;
}

-- Document 7 has two shards that no worker has ever seen; document 8 has settled.
abbrev tables : Tables
tables = record {
  documents = book 7 0 ∷ book 8 2 ∷ [];
  shards =
      fresh_shard 7 1 5 8
      ∷ fresh_shard 7 0 1 4
      ∷ record (fresh_shard 8 0 1 4) { state = done }
      ∷ record (fresh_shard 8 1 5 8) { state = done }
      ∷ [];
  chunks = [];
  events = [];
}

abbrev tables-Counted : Counted tables
tables-Counted = ((refl, refl), ((refl, refl), tt))

abbrev settings : Settings
settings = record { stuck_minutes = 30; max_shard_attempts = 5 }

abbrev scans : Scans
scans = record { split_ids = some []; embed_ids = some []; parse_keys = some [] }

pending_shard_sweep_sends_example :
    let (t', sent', e) = pending_shard_sweep none_refused 200000 (some ((8, 1) ∷ [])) tables [] in
    Swept 200000 ((8, 1) ∷ []) tables [] sent' e
pending_shard_sweep_sends_example =
    pending_shard_sweep_sends none_refused 200000 ((8, 1) ∷ []) tables [] (λ m. refl)

embed_sweep_again_example :
    embed_sweep none_refused
      (some ([] ++ ids_of (lost_embeds [] tables.documents)))
      tables.documents
      tables
      []
    ≡ (tables, [], none)
embed_sweep_again_example = embed_sweep_again none_refused [] tables.documents tables []

pass-Counted_example : Counted (pass (server none_refused) 200000 settings scans tables []).0
pass-Counted_example =
    pass-Counted (server none_refused) 200000 settings scans tables [] tables-Counted

-- XADD fails for every message, after the first entry has been quarantined.
abbrev all_refused : Message → Bool
all_refused m = true

pass-quarantines_example :
    let docs =
      non_terminal_docs (escalate 200000 settings (requeue_expired_leases 200000 tables).0) in
    let (sent', e) = requeue_sweep all_refused scans.split_ids docs [] in
    quarantines (pass (server all_refused) 200000 settings scans tables []).0.events
    ≡ quarantines [] + kept_events e (reclaim (server all_refused) 5 sent')
pass-quarantines_example = pass-quarantines (server all_refused) 200000 settings scans tables []

-- One of the two entries is quarantined, and its event lost.
lost_event :
    (length (reclaim (server all_refused) 5 []).0.events ≡ 1)
    × (quarantines (pass (server all_refused) 200000 settings scans tables []).0.events ≡ 0)
unfolding reclaim pass requeue_sweep escalate write_events send_all non_terminal_docs
    escalate_stuck_shards requeue_expired_leases
lost_event = (refl, refl)
