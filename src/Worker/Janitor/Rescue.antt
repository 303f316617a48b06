-- ===== src/Worker/Janitor/Rescue.antt =====
-- The sweeps of internal/worker/janitor.go: what they put back on the streams.
use lybrix.Base.{
  ℕ, ◌-◌, ◌≡◌, refl, ap, ◌∙◌, Bool, true, false, ◌||◌, Option, none, some, List, [], ◌∷◌, ◌++◌,
  ◌&&◌, map, any_of, arith, count_if,
}
use lybrix.Queue.Sends.{Message, on_parse, Sent, SendError, send_all, send_all-accepted}
use lybrix.Store.Rows.{Document, Event, Tables}
use lybrix.Queue.Jobs.{ParseJob}
use lybrix.Store.Sweeps.{stale_pending, sort_stale, never_attempted_shards}
use lybrix.Worker.Janitor.Stale.{
  is_lost, job_for, lost-count, InKeyOrder, job_keys, lost-InKeyOrder,
}
use lybrix.Worker.Janitor.{
  has_key, write_events, lost_embeds, with_events, embed_sweep, missing_parse_jobs,
  shard_sweep_grace, pending_shard_sweep, parse_rescue_event, rescued_docs,
}

with_events-sent :
    (es : List Event) (t : Tables) (out : Sent × Option SendError)
    → ((with_events es t out).1 ≡ out.0) × ((with_events es t out).2 ≡ out.1)
with_events-sent es t (sent, none) = (refl, refl)
with_events-sent es t (sent, some e) = (refl, refl)

-- What the sweep of pending shards does: a test holds for as many of the new jobs as there are lost
-- shards whose job passes it, and the jobs are in the order of their keys.
pub record Swept (now : ℕ) (queued : List (ℕ × ℕ)) (t : Tables) (sent sent' : Sent)
    (e : Option SendError) : Type 0 where
  pub jobs : List ParseJob
  pub queue : sent' ≡ sent ++ map on_parse jobs
  pub exact :
      (p : ParseJob → Bool)
      → count_if p jobs
        ≡ count_if
            (λ s. is_lost (now - 120000) queued t.documents s && p (job_for t.documents s))
            t.shards
  pub order : InKeyOrder (job_keys jobs)
  pub no_error : e ≡ none

-- After a scan that succeeds, and if the stream takes the jobs, the sweep of pending shards sends
-- exactly one parse job, with its pages and its document's source, for each pending shard without an
-- attempt whose document is not terminal and was last written more than two minutes ago, and whose
-- key the scan has not found waiting; the jobs are in the order of the documents and of the shards'
-- numbers, and it reports no error.
pub pending_shard_sweep_sends :
    (refused : Message → Bool) (now : ℕ) (queued : List (ℕ × ℕ)) (t : Tables) (sent : Sent)
    → ((m : Message) → refused m ≡ false)
    → let (t', sent', e) = pending_shard_sweep refused now (some queued) t sent in
      Swept now queued t sent sent' e
unfolding pending_shard_sweep never_attempted_shards
pending_shard_sweep_sends refused now queued t sent up =
    let stale = sort_stale (stale_pending (now - shard_sweep_grace) t.documents t.shards) in
    let jobs = missing_parse_jobs queued stale in
    let out = send_all refused (map on_parse jobs) sent in
    let es = map (parse_rescue_event jobs) (rescued_docs jobs) in
    let all_sent : out ≡ (sent ++ map on_parse jobs, none) =
      send_all-accepted refused (map on_parse jobs) sent (none_refused (map on_parse jobs)) in
    let (same, error) = with_events-sent es t out in
    record {
      jobs = jobs;
      queue = same ∙ ap (λ o. o.0) all_sent;
      exact = λ p. lost-count (now - shard_sweep_grace) queued p t.documents t.shards;
      order = lost-InKeyOrder queued (stale_pending (now - shard_sweep_grace) t.documents t.shards);
      no_error = error ∙ ap (λ o. o.1) all_sent;
    }
  where
    none_refused : (ms : List Message) → any_of refused ms ≡ false
    none_refused [] = refl
    none_refused (m ∷ ms) = ground (arith, up m, none_refused ms)

abbrev pub ids_of : List Document → List ℕ
ids_of = map (λ (d : Document). d.id)

has_key-append : (id : ℕ) (xs ys : List ℕ) → has_key id (xs ++ ys) ≡ has_key id xs || has_key id ys
has_key-append id [] ys = refl
has_key-append id (x ∷ xs) ys = ground (arith, has_key-append id xs ys)

lost_embeds_seen :
    (queued seen : List ℕ) (docs : List Document)
    → ((id : ℕ) → has_key id (ids_of (lost_embeds queued docs)) ≡ true → has_key id seen ≡ true)
    → lost_embeds (queued ++ seen) docs ≡ []
lost_embeds_seen queued seen [] h = refl
lost_embeds_seen queued seen (d ∷ docs) h = ground (
  arith,
  h d.id,
  has_key-append d.id queued seen,
  lost_embeds_seen queued seen docs (λ id there. h id (ground (arith, there))),
)

-- A second sweep for settled books, whose scan also finds what the first one has sent, sends
-- nothing more.
pub embed_sweep_again :
    (refused : Message → Bool) (queued : List ℕ) (docs : List Document) (t : Tables) (sent : Sent)
    → embed_sweep refused (some (queued ++ ids_of (lost_embeds queued docs))) docs t sent
      ≡ (t, sent, none)
unfolding embed_sweep send_all write_events
embed_sweep_again refused queued docs t sent =
    rw (lost_embeds_seen queued (ids_of (lost_embeds queued docs)) docs (λ id there. there)) refl
