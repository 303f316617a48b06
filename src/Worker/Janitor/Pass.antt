-- ===== src/Worker/Janitor/Pass.antt =====
-- Pass of internal/worker/janitor.go: the counters across its steps.
use lybrix.Base.{ℕ, ◌-◌, ◌*◌, Bool, Option, none, some, List, [], ◌∷◌, map}
use lybrix.Queue.Sends.{Message, on_parse, Sent, SendError, send_all}
use lybrix.Store.Rows.{Document, Event, Tables}
use lybrix.Store.Shards.{requeue_expired_leases}
use lybrix.Store.Sweeps.{
  never_attempted_shards, non_terminal_docs, stuck_docs, escalate_stuck_shards,
}
use lybrix.Store.Counters.Claims.{Counted, reap-Counted}
use lybrix.Store.Counters.Sweeps.{escalate-Counted}
use lybrix.Worker.Reclaim.{Server, Reclaimed, reclaim}
use lybrix.Worker.Janitor.{
  Settings, Scans, write_events, escalate, requeue_sweep, lost_embeds, with_events, embed_sweep,
  missing_parse_jobs, shard_sweep_grace, pending_shard_sweep, stuck_warn, last_steps, warn_stuck,
  rescue_event, embed_job_of, parse_rescue_event, rescued_docs, stuck_event, escalation_event,
  after_reclaim, after_requeue, pass,
}

write_events-Counted : (es : List Event) (t : Tables) → Counted t → Counted (write_events es t)
unfolding write_events
write_events-Counted [] t c = c
write_events-Counted (e ∷ es) t c = write_events-Counted es _ c

with_events-Counted :
    (es : List Event) (t : Tables) (out : Sent × Option SendError)
    → Counted t
    → Counted (with_events es t out).0
with_events-Counted es t (sent, none) c = write_events-Counted es t c
with_events-Counted es t (sent, some e) c = c

embed_sweep-Counted :
    (refused : Message → Bool) (scan : Option (List ℕ)) (docs : List Document) (t : Tables)
    (sent : Sent)
    → Counted t
    → Counted (embed_sweep refused scan docs t sent).0
unfolding embed_sweep
embed_sweep-Counted refused none docs t sent c = c
embed_sweep-Counted refused (some queued) docs t sent c =
    let lost = lost_embeds queued docs in
    with_events-Counted (map rescue_event lost) t (send_all refused (map embed_job_of lost) sent) c

pending_shard_sweep-Counted :
    (refused : Message → Bool) (now : ℕ) (scan : Option (List (ℕ × ℕ))) (t : Tables) (sent : Sent)
    → Counted t
    → Counted (pending_shard_sweep refused now scan t sent).0
unfolding pending_shard_sweep
pending_shard_sweep-Counted refused now none t sent c = c
pending_shard_sweep-Counted refused now (some queued) t sent c =
    let jobs = missing_parse_jobs queued (never_attempted_shards (now - shard_sweep_grace) t) in
    with_events-Counted (map (parse_rescue_event jobs) (rescued_docs jobs)) t
      (send_all refused (map on_parse jobs) sent) c

stuck_warn-Counted :
    (now : ℕ) (s : Settings) (t : Tables) → Counted t → Counted (stuck_warn now s t)
unfolding stuck_warn
stuck_warn-Counted now s t c =
    write_events-Counted
      (map (stuck_event s.stuck_minutes) (stuck_docs (now - 60000 * s.stuck_minutes) t)) t c

last_steps-Counted :
    (refused : Message → Bool) (now : ℕ) (s : Settings) (scans : Scans)
    (out : Tables × Sent × Option SendError)
    → Counted out.0
    → Counted (last_steps refused now s scans out).0
last_steps-Counted refused now s scans (t, sent, some e) c = c
last_steps-Counted refused now s scans (t, sent, none) c =
    warned (pending_shard_sweep refused now scans.parse_keys t sent)
      (pending_shard_sweep-Counted refused now scans.parse_keys t sent c)
  where
    warned :
        (out : Tables × Sent × Option SendError) → Counted out.0 → Counted (warn_stuck now s out).0
    warned (t, sent, none) c = stuck_warn-Counted now s t c
    warned (t, sent, some e) c = c

after_reclaim-Counted :
    (refused : Message → Bool) (now : ℕ) (s : Settings) (scans : Scans) (docs : List Document)
    (t : Tables) (out : Reclaimed × Option SendError)
    → Counted t
    → Counted (after_reclaim refused now s scans docs t out).0
after_reclaim-Counted refused now s scans docs t (r, some e) c = c
after_reclaim-Counted refused now s scans docs t (r, none) c =
    last_steps-Counted refused now s scans
      (embed_sweep refused scans.embed_ids docs (write_events r.events t) r.streams.sent)
      (embed_sweep-Counted refused scans.embed_ids docs (write_events r.events t) r.streams.sent
        (write_events-Counted r.events t c))

after_requeue-Counted :
    (server : Server) (now : ℕ) (s : Settings) (scans : Scans) (docs : List Document) (t : Tables)
    (out : Sent × Option SendError)
    → Counted t
    → Counted (after_requeue server now s scans docs t out).0
after_requeue-Counted server now s scans docs t (sent, some e) c = c
after_requeue-Counted server now s scans docs t (sent, none) c =
    after_reclaim-Counted server.refused now s scans docs t
      (reclaim server s.max_shard_attempts sent) c

escalation-Counted : (now : ℕ) (s : Settings) (t : Tables) → Counted t → Counted (escalate now s t)
unfolding escalate
escalation-Counted now s t c =
    let out = escalate_stuck_shards now s.max_shard_attempts t in
    write_events-Counted (map escalation_event out.1) out.0
      (escalate-Counted now s.max_shard_attempts t c)

-- A pass of the janitor, whatever Redis answers and wherever an error ends it, keeps the counters of
-- every document exact.
pub pass-Counted :
    (server : Server) (now : ℕ) (s : Settings) (scans : Scans) (t : Tables) (sent : Sent)
    → Counted t
    → Counted (pass server now s scans t sent).0
unfolding pass
pass-Counted server now s scans t sent c =
    let t' = escalate now s (requeue_expired_leases now t).0 in
    after_requeue-Counted server now s scans (non_terminal_docs t') t'
      (requeue_sweep server.refused scans.split_ids (non_terminal_docs t') sent)
      (escalation-Counted now s (requeue_expired_leases now t).0 (reap-Counted now t c))
