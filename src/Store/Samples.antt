-- ===== src/Store/Samples.antt =====
-- A small database, the statements' runs on it, and the theorems at it.
use lybrix.Base.{
  ℕ, ◌+◌, ◌*◌, ◌≡◌, refl, ◌↔◌, inl, inr, true, false, none, some, List, [], ◌∷◌, ◌++◌, arith,
}
use lybrix.Base.Int.{pos}
use lybrix.Base.Results.{ok}
use lybrix.Store.Rows.{
  Document, Shard, ShardState, Tables, pending, running, done, skipped, parsing,
}
use lybrix.Store.Documents.{book_settled}
use lybrix.Store.Shards.{
  Parsed, claim_shard, mark_shard_done, insert_shards, fresh_shard, idx_above,
}
use lybrix.Store.Sweeps.{escalate_stuck_shards, repair_doc_counters}
use lybrix.Store.Counters.Claims.{Exact, Counted, retaken, claim-Exact, mark_done-Counted}
use lybrix.Store.Counters.Sweeps.{escalate-Counted, repair-Counted}
use lybrix.Store.Settling.{unsettled_rows, book_settled_iff, skipped_blocks}
use lybrix.Store.Inserts.{fresh_rows, insert_shards-fresh}

abbrev book : ℕ → ℕ → ℕ → ℕ → Document
book id total shards_done shards_failed = record {
  id = id;
  collection_id = none;
  source_uri = "s3://raw/7.pdf";
  page_count = some 12;
  mime_type = some "application/pdf";
  state = parsing;
  error_code = none;
  error_detail = none;
  total_shards = some total;
  shards_done = shards_done;
  shards_failed = pos shards_failed;
  chunk_count = none;
  completeness = none;
  updated_at = 100;
  ready_at = none;
}

abbrev shard : ℕ → ShardState → ℕ → Shard
shard idx state attempts = record (fresh_shard 7 idx (4 * idx + 1) (4 * idx + 4)) {
  state = state;
  attempts = attempts;
  lease_until = some 150;
}

-- Document 7 has a finished, a failed, a stuck and a running shard.
abbrev rows : List Shard
rows = shard 0 done 1 ∷ shard 1 ShardState.failed 5 ∷ shard 2 pending 5 ∷ shard 3 running 1 ∷ []

abbrev tables : Tables
tables = record {
  documents = book 7 4 1 1 ∷ book 8 0 0 0 ∷ [];
  shards = rows;
  chunks = [];
  events = [];
}

tables-Counted : Counted tables
tables-Counted = ((refl, refl), ((refl, refl), tt))

abbrev report : Parsed
report = record {
  duration_ms = 900;
  peak_rss_mb = 300;
  parsed_uri = "s3://parsed/7/3.md";
  needs_ocr = false;
  mean_chars = none;
}

claim-Exact_example :
    Exact (claim_shard 200 7 1 "parser-a" 900 tables).0.shards (book 7 4 1 1)
    ↔ (retaken 7 1 7 rows ≡ 0)
claim-Exact_example = claim-Exact 200 7 1 "parser-a" 900 tables (book 7 4 1 1) (refl, refl)

mark_done-Counted_example : Counted (mark_shard_done 200 7 3 report tables)
mark_done-Counted_example = mark_done-Counted 200 7 3 report tables refl refl tables-Counted

escalate-Counted_example : Counted (escalate_stuck_shards 200 5 tables).0
escalate-Counted_example = escalate-Counted 200 5 tables tables-Counted

abbrev drifted : Tables
drifted = record tables { documents = book 7 4 3 2 ∷ book 8 0 0 0 ∷ [] }

repair-Counted_example : Counted (repair_doc_counters 200 7 drifted).0
repair-Counted_example = repair-Counted 200 7 drifted (inr refl, (inl (refl, refl), tt))

book_settled_iff_example : (book_settled (book 7 4 1 1) ≡ true) ↔ (unsettled_rows 7 rows ≡ 0)
book_settled_iff_example = book_settled_iff rows (book 7 4 1 1) (refl, refl) refl (omega arith)

-- A re-split shard beside its two finished pieces.
abbrev resplit_rows : List Shard
resplit_rows = shard 0 skipped 2 ∷ shard 1 done 1 ∷ shard 2 done 1 ∷ []

skipped_blocks_example : book_settled (book 7 3 2 0) ≡ false
skipped_blocks_example = skipped_blocks resplit_rows (book 7 3 2 0) (refl, refl) refl (omega arith)

insert_shards-fresh_example :
    insert_shards 7 ((1, 2) ∷ (3, 4) ∷ []) 4 rows
    ≡ ok (rows ++ fresh_rows 7 ((1, 2) ∷ (3, 4) ∷ []) 4)
insert_shards-fresh_example =
    insert_shards-fresh 7 ((1, 2) ∷ (3, 4) ∷ []) 4 rows (unfold idx_above in omega arith)
