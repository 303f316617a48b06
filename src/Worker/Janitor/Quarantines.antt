-- ===== src/Worker/Janitor/Quarantines.antt =====
-- Pass of internal/worker/janitor.go: which of the quarantine events that the reclaim collects reach
-- the table of events.
use Prim.Native.String.{String}
use text.Mathlib.Text.{◌==◌ as str_eq}
use lybrix.Base.{
  ℕ, ◌+◌, ◌-◌, ◌*◌, ◌≡◌, refl, ap, ◌∙◌, inl, inr, Bool, true, false, Option, none, some, List, [],
  ◌∷◌, ◌++◌, map, count_if, count_if-append, length, length-append, arith, Bool-cases, Option-cases,
}
use lybrix.Queue.Sends.{Message, on_parse, Sent, SendError, send_all}
use lybrix.Store.Rows.{Document, Event, Tables}
use lybrix.Store.Shards.{requeue_expired_leases}
use lybrix.Store.Sweeps.{
  never_attempted_shards, non_terminal_docs, stuck_docs, escalate_stuck_shards,
}
use lybrix.Worker.Reclaim.{
  Server, Entry, Reclaimed, over_cap, reclaim_decide, reclaim_entries, reclaim_streams, reclaim,
  quarantine_event_of, count_of, stale_of, all_streams, delivery_cap,
}
use lybrix.Worker.Janitor.{
  Settings, Scans, write_events, escalate, requeue_sweep, lost_embeds, with_events, embed_sweep,
  missing_parse_jobs, shard_sweep_grace, pending_shard_sweep, stuck_warn, last_steps, warn_stuck,
  rescue_event, embed_job_of, parse_rescue_event, rescued_docs, stuck_event, escalation_event,
  after_reclaim, after_requeue, pass,
}

-- The stage that quarantineEventOf writes, and no other step of the pass.
abbrev pub is_quarantine : Event → Bool
is_quarantine e = str_eq e.stage "dlq"

abbrev pub quarantines : List Event → ℕ
quarantines = count_if is_quarantine

write_events-count :
    (es : List Event) (t : Tables)
    → quarantines (write_events es t).events ≡ quarantines t.events + quarantines es
unfolding write_events
write_events-count [] t = omega arith
write_events-count (e ∷ es) t = ground (
  arith,
  write_events-count es (record t { events = t.events ++ e ∷ [] }),
  count_if-append is_quarantine t.events (e ∷ []),
)

no_quarantine :
    {A : Type 0} (f : A → Event) (xs : List A)
    → ((x : A) → is_quarantine (f x) ≡ false)
    → quarantines (map f xs) ≡ 0
no_quarantine f [] h = refl
no_quarantine f (x ∷ xs) h = ground (arith, h x, no_quarantine f xs h)

with_events-count :
    (es : List Event) (t : Tables) (out : Sent × Option SendError)
    → quarantines es ≡ 0
    → quarantines (with_events es t out).0.events ≡ quarantines t.events
with_events-count es t (sent, none) h = omega (arith, write_events-count es t, h)
with_events-count es t (sent, some e) h = refl

escalate-count :
    (now : ℕ) (s : Settings) (t : Tables)
    → quarantines (escalate now s (requeue_expired_leases now t).0).events ≡ quarantines t.events
unfolding escalate escalate_stuck_shards requeue_expired_leases
escalate-count now s t =
    let t' = (requeue_expired_leases now t).0 in
    let out = escalate_stuck_shards now s.max_shard_attempts t' in
    omega (
      arith,
      write_events-count (map escalation_event out.1) out.0,
      no_quarantine escalation_event out.1 (λ e. refl),
    )

embed_sweep-count :
    (refused : Message → Bool) (scan : Option (List ℕ)) (docs : List Document) (t : Tables)
    (sent : Sent)
    → quarantines (embed_sweep refused scan docs t sent).0.events ≡ quarantines t.events
unfolding embed_sweep
embed_sweep-count refused none docs t sent = refl
embed_sweep-count refused (some queued) docs t sent =
    let lost = lost_embeds queued docs in
    with_events-count (map rescue_event lost) t (send_all refused (map embed_job_of lost) sent)
      (no_quarantine rescue_event lost (λ d. refl))

pending_shard_sweep-count :
    (refused : Message → Bool) (now : ℕ) (scan : Option (List (ℕ × ℕ))) (t : Tables) (sent : Sent)
    → quarantines (pending_shard_sweep refused now scan t sent).0.events ≡ quarantines t.events
unfolding pending_shard_sweep
pending_shard_sweep-count refused now none t sent = refl
pending_shard_sweep-count refused now (some queued) t sent =
    let jobs = missing_parse_jobs queued (never_attempted_shards (now - shard_sweep_grace) t) in
    with_events-count (map (parse_rescue_event jobs) (rescued_docs jobs)) t
      (send_all refused (map on_parse jobs) sent)
      (no_quarantine (parse_rescue_event jobs) (rescued_docs jobs) (λ d. refl))

stuck_warn-count :
    (now : ℕ) (s : Settings) (t : Tables)
    → quarantines (stuck_warn now s t).events ≡ quarantines t.events
unfolding stuck_warn
stuck_warn-count now s t =
    let stuck = stuck_docs (now - 60000 * s.stuck_minutes) t in
    omega (
      arith,
      write_events-count (map (stuck_event s.stuck_minutes) stuck) t,
      no_quarantine (stuck_event s.stuck_minutes) stuck (λ d. refl),
    )

warn_stuck-count :
    (now : ℕ) (s : Settings) (out : Tables × Sent × Option SendError)
    → quarantines (warn_stuck now s out).0.events ≡ quarantines out.0.events
warn_stuck-count now s (t, sent, none) = stuck_warn-count now s t
warn_stuck-count now s (t, sent, some e) = refl

last_steps-count :
    (refused : Message → Bool) (now : ℕ) (s : Settings) (scans : Scans)
    (out : Tables × Sent × Option SendError)
    → quarantines (last_steps refused now s scans out).0.events ≡ quarantines out.0.events
last_steps-count refused now s scans (t, sent, some e) = refl
last_steps-count refused now s scans (t, sent, none) =
    warn_stuck-count now s (pending_shard_sweep refused now scans.parse_keys t sent)
    ∙ pending_shard_sweep-count refused now scans.parse_keys t sent

-- Every event that the reclaim collects is a quarantine event.
abbrev AllQuarantines : Reclaimed → Type 0
AllQuarantines r = quarantines r.events ≡ length r.events

one_more :
    (acc : Reclaimed) (e : Event)
    → is_quarantine e ≡ true
    → AllQuarantines acc
    → quarantines (acc.events ++ e ∷ []) ≡ length (acc.events ++ e ∷ [])
one_more acc e is h = ground (
  arith,
  h,
  is,
  count_if-append is_quarantine acc.events (e ∷ []),
  length-append acc.events (e ∷ []),
)

reclaim_entries-AllQuarantines :
    (server : Server) (stream : String) (limit : ℕ) (entries : List Entry) (acc : Reclaimed)
    → AllQuarantines acc
    → AllQuarantines (reclaim_entries server stream limit entries acc).0
unfolding reclaim_entries reclaim_decide
reclaim_entries-AllQuarantines server stream limit [] acc h = h
reclaim_entries-AllQuarantines server stream limit (entry ∷ entries) acc h =
    let again = reclaim_entries-AllQuarantines server stream limit entries in
    elim (Option-cases entry.job) [
      | inl husk ↦ rw husk (again _ h)
      | inr (job, has_job) ↦
          rw has_job (elim (Bool-cases (over_cap limit (server.deliveries entry.id))) [
            | inl capped ↦ rw capped (
                again _ (
                  one_more acc
                    (quarantine_event_of stream job (count_of (server.deliveries entry.id))) refl
                    h))
            | inr below ↦ rw below (elim (Bool-cases (server.refused job)) [
              | inl refused ↦ rw refused h
              | inr added ↦ rw added (again _ h)
            ])
          ])
    ]

reclaim_streams-AllQuarantines :
    (server : Server) (limit : ℕ) (streams : List String) (acc : Reclaimed)
    → AllQuarantines acc
    → AllQuarantines (reclaim_streams server limit streams acc).0
unfolding reclaim_streams
reclaim_streams-AllQuarantines server limit [] acc h = h
reclaim_streams-AllQuarantines server limit (stream ∷ streams) acc h =
    let out = reclaim_entries server stream limit (stale_of server stream) acc in
    let h' = reclaim_entries-AllQuarantines server stream limit (stale_of server stream) acc h in
    elim (Option-cases out.1) [
      | inl fine ↦
          rw (fine, reclaim_streams) (reclaim_streams-AllQuarantines server limit streams out.0 h')
      | inr (e, failed) ↦ rw (failed, reclaim_streams) h'
    ]

-- How many of the quarantine events that a reclaim collects are written, by the outcomes of the
-- requeue sweep and of the reclaim.
abbrev pub kept_events : Option SendError → Reclaimed × Option SendError → ℕ
kept_events none (r, none) = length r.events
kept_events none (r, some e) = 0
kept_events (some e) out = 0

after_reclaim-count :
    (refused : Message → Bool) (now : ℕ) (s : Settings) (scans : Scans) (docs : List Document)
    (t : Tables) (out : Reclaimed × Option SendError)
    → AllQuarantines out.0
    → quarantines (after_reclaim refused now s scans docs t out).0.events
      ≡ quarantines t.events + kept_events none out
after_reclaim-count refused now s scans docs t (r, some e) h = omega arith
after_reclaim-count refused now s scans docs t (r, none) h = omega (
  arith,
  h,
  last_steps-count refused now s scans
      (embed_sweep refused scans.embed_ids docs (write_events r.events t) r.streams.sent),
  embed_sweep-count refused scans.embed_ids docs (write_events r.events t) r.streams.sent,
  write_events-count r.events t,
)

after_requeue-count :
    (server : Server) (now : ℕ) (s : Settings) (scans : Scans) (docs : List Document) (t : Tables)
    (out : Sent × Option SendError)
    → quarantines (after_requeue server now s scans docs t out).0.events
      ≡ quarantines t.events + kept_events out.1 (reclaim server s.max_shard_attempts out.0)
unfolding reclaim
after_requeue-count server now s scans docs t (sent, some e) = omega arith
after_requeue-count server now s scans docs t (sent, none) =
    after_reclaim-count server.refused now s scans docs t (reclaim server s.max_shard_attempts sent)
      (reclaim_streams-AllQuarantines server (delivery_cap s.max_shard_attempts) all_streams
        (record { count = 0; events = []; streams = record { sent = sent; dropped = [] } }) refl)

-- A pass adds as many events of stage `dlq` as its reclaim has collected quarantine events, if the
-- sweep before it and the reclaim report no error, and otherwise none: where the reclaim ends in an
-- error, the events that it has collected by then are lost.
pub pass-quarantines :
    (server : Server) (now : ℕ) (s : Settings) (scans : Scans) (t : Tables) (sent : Sent)
    → let docs = non_terminal_docs (escalate now s (requeue_expired_leases now t).0) in
      let (sent', e) = requeue_sweep server.refused scans.split_ids docs sent in
      quarantines (pass server now s scans t sent).0.events
      ≡ quarantines t.events + kept_events e (reclaim server s.max_shard_attempts sent')
unfolding pass
pass-quarantines server now s scans t sent =
    let t' = escalate now s (requeue_expired_leases now t).0 in
    let docs = non_terminal_docs t' in
    let swept = requeue_sweep server.refused scans.split_ids docs sent in
    after_requeue-count server now s scans docs t' swept
    ∙ ap (λ n. n + kept_events swept.1 (reclaim server s.max_shard_attempts swept.0))
        (escalate-count now s t)
