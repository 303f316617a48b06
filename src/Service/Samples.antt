-- ===== src/Service/Samples.antt =====
-- A re-split of one of a document's shards, a first split and the end of a parse, and the theorems at
-- them.
use lybrix.Base.{
  ℕ, ◌≡◌, refl, ◌++◌, Bool, false, List, [], ◌∷◌, true, arith, none, some, map, ◌==◌, if◌then◌else◌,
}
use lybrix.Base.Int.{pos}
use lybrix.Base.Results.{ok}
use lybrix.Queue.Jobs.{ParseJob}
use lybrix.Queue.Sends.{Message, on_parse, send_all}
use lybrix.Shards.{fixed_bounds, chapter_aligned_bounds}
use lybrix.Store.Rows.{Document, Shard, Tables, running, done, parsing, uploaded}
use lybrix.Store.Documents.{get_document, update_split_meta, set_doc_state}
use lybrix.Store.Shards.{
  fresh_shard, next_shard_idx, get_shard, insert_shards, idx_above, Parsed, mark_shard_done,
}
use lybrix.Store.Inserts.{fresh_rows}
use lybrix.Store.Settling.{unsettled_rows}
use lybrix.Service.World.{World, sending}
use lybrix.Service.Ladder.{resplit_pages, resplit_shard}
use lybrix.Service.Ladder.Resplit.{Tiles, mark_skipped, resplit_ok}
use lybrix.Service.Places.{place_of_row, place_of_job}
use lybrix.Service.Split.{Source, parse_jobs_from, commit_split, finish_split, split_document}
use lybrix.Service.Split.Fanout.{IsSplit, split_document-IsSplit}
use lybrix.Service.Split.Redelivery.{SplitOnce, split_document_again}
use lybrix.Service.Parse.{embed_job, finish_parse}
use lybrix.Service.Parse.Finish.{finish_parse_sends}

abbrev book : Document
book = record {
  id = 7;
  collection_id = none;
  source_uri = "s3://raw/7.pdf";
  page_count = some 28;
  mime_type = some "application/pdf";
  state = parsing;
  error_code = none;
  error_detail = none;
  total_shards = some 2;
  shards_done = 0;
  shards_failed = pos 0;
  chunk_count = none;
  completeness = none;
  updated_at = 100;
  ready_at = none;
}

-- Twenty pages, at the second attempt.
abbrev stubborn : Shard
stubborn = record (fresh_shard 7 1 9 28) { state = running; attempts = 2 }

abbrev tables : Tables
tables = record {
  documents = book ∷ [];
  shards = fresh_shard 7 0 1 8 ∷ stubborn ∷ [];
  chunks = [];
  events = [];
}

resplit_ok_example :
    (bounds : List (ℕ × ℕ)) × (t' : Tables) × (jobs : List ParseJob) × (resplit_shard 200 book
        stubborn tables
      ≡ ok (t', jobs))
    × (t'.shards ≡ mark_skipped 7 1 tables.shards ++ fresh_rows 7 bounds (next_shard_idx 7 tables))
    × (map place_of_job jobs ≡ map place_of_row (fresh_rows 7 bounds (next_shard_idx 7 tables)))
    × Tiles (resplit_pages stubborn) 9 28 bounds
resplit_ok_example = resplit_ok 200 book stubborn tables (omega arith) (omega arith) refl

abbrev accepted : Message → Bool
accepted m = false

abbrev fresh_book : Document
fresh_book = record book { id = 9; state = uploaded; total_shards = none }

abbrev source : Source
source = record {
  download = none;
  page_count = ok 6;
  outline = record { page = 3; title = "One" } ∷ [];
}

abbrev world : World
world = record { tables = tables; sent = [] }

-- The handler, run on a document of six pages with a bookmark on the third.
split_run :
    (split_document accepted 200 4 source fresh_book world).0.sent
    ≡ map
        (λ (j : ParseJob). on_parse j)
        (parse_jobs_from 9 "s3://raw/7.pdf" ((1, 2) ∷ (3, 6) ∷ []) 0)
unfolding split_document fixed_bounds get_shard sending finish_split commit_split insert_shards
    send_all chapter_aligned_bounds update_split_meta set_doc_state
split_run = refl

split_document-IsSplit_example :
    (w' : World) × (split_document accepted 200 4 source fresh_book world ≡ (w', none))
    × IsSplit fresh_book 5 world w'
split_document-IsSplit_example =
    split_document-IsSplit accepted 200 4 source fresh_book world 6 5 (unfold idx_above in refl)
      refl refl refl (omega arith) (omega arith) (omega arith) (λ m. refl)

-- The streams take none of the jobs of the first delivery.
abbrev broken : Message → Bool
broken m = true

split_document_again_example :
    let first = (split_document broken 200 4 source fresh_book world).0 in
    let (second, e) = split_document accepted 300 8 source fresh_book first in
    SplitOnce 9 5 world first second e
split_document_again_example =
    split_document_again broken accepted 200 300 4 8 source source fresh_book fresh_book world 6 5
      refl (unfold idx_above in refl) refl refl refl (omega arith) (omega arith) (omega arith)

-- One of the two shards has been parsed.
abbrev half_done : World
half_done = record {
  tables = record {
    documents = record book { shards_done = 1 } ∷ [];
    shards =
        record (fresh_shard 7 0 1 8) { state = done }
        ∷ record (fresh_shard 7 1 9 28) { state = running }
        ∷ [];
    chunks = [];
    events = [];
  };
  sent = [];
}

abbrev report : Parsed
report = record {
  duration_ms = 900;
  peak_rss_mb = 300;
  parsed_uri = "s3://parsed/7/1.md";
  needs_ocr = false;
  mean_chars = none;
}

finish_parse_sends_example : finish_parse accepted 200 7 1 report half_done ≡ (
  record {
    tables = mark_shard_done 200 7 1 report half_done.tables;
    sent = [] ++ (if unsettled_rows 7 half_done.tables.shards == 1 then embed_job 7 ∷ [] else []);
  },
  none,
)
finish_parse_sends_example =
    finish_parse_sends accepted 200 7 1 report half_done (record book { shards_done = 1 })
      (unfold get_document in refl) (refl, refl) refl refl refl refl
