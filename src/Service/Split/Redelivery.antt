-- ===== src/Service/Split/Redelivery.antt =====
-- HandleSplit on a job that is delivered again, after a first run whose sends may have failed.
use lybrix.Base.{
  ℕ, ◌≤◌, ◌≡◌, refl, ap, ◌∙◌, inl, inr, Bool, true, none, some, List, [], ◌∷◌, ◌++◌, map, arith,
  Bool-cases, Option,
}
use lybrix.Base.Results.{ok}
use lybrix.Queue.Sends.{Message, on_parse, Sent, SendError, send_all}
use lybrix.Store.Rows.{Document, Shard, Tables, at_key}
use lybrix.Store.Documents.{set_doc_state}
use lybrix.Store.Shards.{idx_above, get_shard, find_shard, fresh_shard}
use lybrix.Store.Inserts.{fresh_rows}
use lybrix.Service.World.{World, HandlerError, send_outcome, sending}
use lybrix.Service.Split.{
  Source, to_bound_pairs, parse_jobs_from, finish_split, already_split, has_pdf_mime,
  split_document,
}
use lybrix.Service.Split.Rows.{after_split, commit_split-fresh, ranges_with, split_bounds-holders}
use lybrix.Service.Split.Fanout.{no_row-get_shard}

-- A document with a shard 0 gets no shard and no job.
with_shard_0 :
    (refused : Message → Bool) (now shard_pages : ℕ) (src : Source) (doc : Document) (w : World)
    (s : Shard)
    → get_shard doc.id 0 w.tables ≡ some s
    → let (w', e) = split_document refused now shard_pages src doc w in
      (e ≡ none) × (w'.sent ≡ w.sent) × (w'.tables.shards ≡ w.tables.shards)
unfolding split_document already_split set_doc_state
with_shard_0 refused now shard_pages src doc w s there = ground (arith, there)

find_shard-behind :
    (doc_id page_start page_end : ℕ) (rows ss : List Shard)
    → (s : Shard) × (find_shard
          (at_key doc_id 0)
          (ss ++ fresh_shard doc_id 0 page_start page_end ∷ rows)
        ≡ some s)
unfolding find_shard
find_shard-behind doc_id page_start page_end rows [] =
    (fresh_shard doc_id 0 page_start page_end, ground arith)
find_shard-behind doc_id page_start page_end rows (r ∷ ss) =
    let (s, found) = find_shard-behind doc_id page_start page_end rows ss in
    elim (Bool-cases (at_key doc_id 0 r)) [
      | inl here ↦ (r, rw here refl)
      | inr other ↦ (s, rw other found)
    ]

find_shard-fresh :
    (doc_id p : ℕ) (bounds : List (ℕ × ℕ)) (ss : List Shard)
    → 1 ≤ ranges_with p bounds
    → (s : Shard) × (find_shard (at_key doc_id 0) (ss ++ fresh_rows doc_id bounds 0) ≡ some s)
find_shard-fresh doc_id p [] ss h = absurd (omega (arith, h))
find_shard-fresh doc_id p ((page_start, page_end) ∷ bounds) ss h =
    find_shard-behind doc_id page_start page_end (fresh_rows doc_id bounds 1) ss

-- The commit stays, whatever the streams refuse.
send_outcome-tables :
    (t : Tables) (out : Sent × Option SendError) → (send_outcome t out).0.tables ≡ t
send_outcome-tables t (sent, none) = refl
send_outcome-tables t (sent, some e) = refl

finish_split-tables :
    (refused : Message → Bool) (now : ℕ) (doc : Document) (bounds : List (ℕ × ℕ)) (page_count : ℕ)
    (w : World)
    → idx_above doc.id w.tables.shards ≡ 0
    → (finish_split refused now doc bounds page_count w).0.tables
      ≡ after_split now doc.id bounds page_count w.tables
unfolding finish_split sending
finish_split-tables refused now doc bounds page_count w h =
    rw (commit_split-fresh now doc.id bounds page_count w.tables h) (
      send_outcome-tables (after_split now doc.id bounds page_count w.tables)
        (send_all refused (map on_parse (parse_jobs_from doc.id doc.source_uri bounds 0)) w.sent))

-- What two deliveries leave behind: one set of rows, which holds page `p`.
pub record SplitOnce (doc_id p : ℕ) (before first second : World) (e : Option HandlerError)
    : Type 0 where
  pub bounds : List (ℕ × ℕ)
  pub rows : second.tables.shards ≡ before.tables.shards ++ fresh_rows doc_id bounds 0
  pub covered : 1 ≤ ranges_with p bounds
  pub no_job : second.sent ≡ first.sent
  pub no_error : e ≡ none

-- A PDF that has no shard yet and is downloaded is split by two deliveries of its job as by one,
-- whatever the streams refuse in the first: the second, whatever its own download and settings, adds
-- no shard and no job and reports no error, and the document has one set of pending shards, which
-- hold any page `p`.
pub split_document_again :
    (refused refused' : Message → Bool) (now now' shard_pages shard_pages' : ℕ) (src src' : Source)
    (doc doc' : Document) (w : World) (page_count p : ℕ)
    → doc'.id ≡ doc.id
    → idx_above doc.id w.tables.shards ≡ 0
    → src.download ≡ none
    → has_pdf_mime doc.mime_type ≡ true
    → src.page_count ≡ ok page_count
    → 1 ≤ p
    → p ≤ page_count
    → 1 ≤ shard_pages
    → let first = (split_document refused now shard_pages src doc w).0 in
      let (second, e) = split_document refused' now' shard_pages' src' doc' first in
      SplitOnce doc.id p w first second e
unfolding split_document get_shard
split_document_again refused refused' now now' shard_pages shard_pages' src src' doc doc' w
      page_count p same new got is_pdf counted low high k =
    let (bs, e, pages) = split_bounds-holders shard_pages src.outline page_count (omega arith) k in
    let bounds = to_bound_pairs bs in
    let first = (split_document refused now shard_pages src doc w).0 in
    let after : first.tables ≡ after_split now doc.id bounds page_count w.tables =
      rw (no_row-get_shard doc.id 0 w.tables new, got, is_pdf, counted, e, split_document)
        (finish_split-tables refused now doc bounds page_count w new) in
    let (s, found) = find_shard-fresh doc.id p bounds w.tables.shards (pages p low high) in
    let there : get_shard doc'.id 0 first.tables ≡ some s =
      ap (λ id. get_shard id 0 first.tables) same ∙ (ap (get_shard doc.id 0) after ∙ found) in
    let (fine, no_job, shards) = with_shard_0 refused' now' shard_pages' src' doc' first s there in
    record {
      bounds = bounds;
      rows = shards ∙ ap (λ (t : Tables). t.shards) after;
      covered = pages p low high;
      no_job = no_job;
      no_error = fine;
    }
