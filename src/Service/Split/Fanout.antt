-- ===== src/Service/Split/Fanout.antt =====
-- HandleSplit as a whole: a document's first split, and one that is no PDF.
use lybrix.Base.{
  ℕ, ◌≤◌, ◌≡◌, refl, ◌∙◌, Bool, true, false, none, List, [], ◌∷◌, ◌++◌, map, arith, any_of,
}
use lybrix.Base.Results.{ok}
use lybrix.Queue.Jobs.{ParseJob}
use lybrix.Queue.Sends.{Message, on_parse, send_all-accepted}
use lybrix.Store.Rows.{Document, Shard, Tables, at_key}
use lybrix.Store.Shards.{idx_above, get_shard, find_shard}
use lybrix.Store.Inserts.{fresh_rows}
use lybrix.Service.Places.{place_of_row, place_of_job}
use lybrix.Service.World.{World, sending}
use lybrix.Service.Split.{
  Source, to_bound_pairs, parse_jobs_from, finish_split, has_pdf_mime, split_document,
  split_single_shard,
}
use lybrix.Service.Split.Rows.{
  parse_jobs_from-rows, after_split, commit_split-fresh, ranges_with, split_bounds-holders,
}

no_row-find_shard :
    (doc_id idx : ℕ) (ss : List Shard)
    → idx_above doc_id ss ≡ 0
    → find_shard (at_key doc_id idx) ss ≡ none
unfolding idx_above find_shard
no_row-find_shard doc_id idx [] h = refl
no_row-find_shard doc_id idx (s ∷ ss) h = ground (arith, h, no_row-find_shard doc_id idx ss)

pub no_row-get_shard :
    (doc_id idx : ℕ) (t : Tables) → idx_above doc_id t.shards ≡ 0 → get_shard doc_id idx t ≡ none
unfolding get_shard
no_row-get_shard doc_id idx t h = no_row-find_shard doc_id idx t.shards h

any_of-accepted :
    (refused : Message → Bool) (ms : List Message)
    → ((m : Message) → refused m ≡ false)
    → any_of refused ms ≡ false
any_of-accepted refused [] h = refl
any_of-accepted refused (m ∷ ms) h = ground (arith, h m, any_of-accepted refused ms h)

pub finish_split-ok :
    (refused : Message → Bool) (now : ℕ) (doc : Document) (bounds : List (ℕ × ℕ)) (page_count : ℕ)
    (w : World)
    → idx_above doc.id w.tables.shards ≡ 0
    → ((m : Message) → refused m ≡ false)
    → finish_split refused now doc bounds page_count w ≡ (
      record {
        tables = after_split now doc.id bounds page_count w.tables;
        sent = w.sent ++ map on_parse (parse_jobs_from doc.id doc.source_uri bounds 0);
      },
      none,
    )
unfolding finish_split sending
finish_split-ok refused now doc bounds page_count w h up =
    rw (commit_split-fresh now doc.id bounds page_count w.tables h) (
      rw
        (send_all-accepted refused (map on_parse (parse_jobs_from doc.id doc.source_uri bounds 0))
          w.sent (any_of-accepted refused _ up))
        refl)

-- What a split leaves behind: the document's rows, which hold page `p`, and a parse job for each
-- row, in their order.
pub record IsSplit (doc : Document) (p : ℕ) (before after : World) : Type 0 where
  pub bounds : List (ℕ × ℕ)
  pub jobs : List ParseJob
  pub rows : after.tables.shards ≡ before.tables.shards ++ fresh_rows doc.id bounds 0
  pub queued : after.sent ≡ before.sent ++ map on_parse jobs
  pub paired : map place_of_job jobs ≡ map place_of_row (fresh_rows doc.id bounds 0)
  pub covered : 1 ≤ ranges_with p bounds

-- A PDF that has no shard yet and is downloaded is split if the streams take the jobs: the handler
-- returns no error and adds pending shards, which hold any page `p` of the document, with one parse
-- job for each shard in the shards' order.
pub split_document-IsSplit :
    (refused : Message → Bool) (now shard_pages : ℕ) (src : Source) (doc : Document) (w : World)
    (page_count p : ℕ)
    → idx_above doc.id w.tables.shards ≡ 0
    → src.download ≡ none
    → has_pdf_mime doc.mime_type ≡ true
    → src.page_count ≡ ok page_count
    → 1 ≤ p
    → p ≤ page_count
    → 1 ≤ shard_pages
    → ((m : Message) → refused m ≡ false)
    → (w' : World) × (split_document refused now shard_pages src doc w ≡ (w', none))
      × IsSplit doc p w w'
unfolding split_document
split_document-IsSplit refused now shard_pages src doc w page_count p new got is_pdf counted low
      high k up =
    let (bs, e, pages) = split_bounds-holders shard_pages src.outline page_count (omega arith) k in
    let bounds = to_bound_pairs bs in
    let jobs = parse_jobs_from doc.id doc.source_uri bounds 0 in
    (
      record {
        tables = after_split now doc.id bounds page_count w.tables;
        sent = w.sent ++ map on_parse jobs;
      },
      rw (no_row-get_shard doc.id 0 w.tables new, got, is_pdf, counted, e, split_document)
          (finish_split-ok refused now doc bounds page_count w new up),
      record {
        bounds = bounds;
        jobs = jobs;
        rows = refl;
        queued = refl;
        paired = parse_jobs_from-rows doc.id doc.source_uri bounds 0;
        covered = pages p low high;
      },
    )

split_single_shard-ok :
    (refused : Message → Bool) (now : ℕ) (doc : Document) (w : World)
    → idx_above doc.id w.tables.shards ≡ 0
    → ((m : Message) → refused m ≡ false)
    → split_single_shard refused now doc w ≡ finish_split refused now doc ((1, 1) ∷ []) 1 w
unfolding split_single_shard
split_single_shard-ok refused now doc w new up =
    rw (no_row-get_shard doc.id 0 w.tables new, split_single_shard) refl

-- A document that is not a PDF by its mime type, has no shard yet and is downloaded gets one shard,
-- of page 1 and with the number 0, and that shard's parse job if the streams take it.
pub split_document_synthetic :
    (refused : Message → Bool) (now shard_pages : ℕ) (src : Source) (doc : Document) (w : World)
    → idx_above doc.id w.tables.shards ≡ 0
    → src.download ≡ none
    → has_pdf_mime doc.mime_type ≡ false
    → ((m : Message) → refused m ≡ false)
    → split_document refused now shard_pages src doc w ≡ (
      record {
        tables = after_split now doc.id ((1, 1) ∷ []) 1 w.tables;
        sent = w.sent ++ map on_parse (parse_jobs_from doc.id doc.source_uri ((1, 1) ∷ []) 0);
      },
      none,
    )
unfolding split_document
split_document_synthetic refused now shard_pages src doc w new got no_pdf up =
    rw (no_row-get_shard doc.id 0 w.tables new, got, no_pdf, split_document)
      (split_single_shard-ok refused now doc w new up
        ∙ finish_split-ok refused now doc ((1, 1) ∷ []) 1 w new up)
