-- ===== src/Service/Embed/Samples.antt =====
-- A document with a stale chunk, one parent and two children, and the theorems at it.
use Prim.Native.String.{String}
use lybrix.Base.{ℕ, ◌≡◌, refl, ap, suc, false, none, some, List, [], ◌∷◌, length, map}
use lybrix.Base.Int.{pos}
use lybrix.Base.Results.{ok}
use lybrix.Embed.Chunks.{Piece, settle_chunks}
use lybrix.Embed.Chunks.Distinct.{distinct_from}
use lybrix.Store.Rows.{Document, Chunk, Tables, done, parsing}
use lybrix.Store.Shards.{fresh_shard}
use lybrix.Service.World.{World}
use lybrix.Service.Embed.{Backend, settled_shards, write_chunks, embed_document}
use lybrix.Store.Documents.{get_document}
use lybrix.Service.Embed.Written.{Written, write_chunks_written}
use lybrix.Service.Embed.Complete.{Embedded, embed_document-Embedded}

abbrev piece : String → String → Piece
piece hash parent_hash = record {
  hash = hash;
  seq = 0;
  parent_hash = parent_hash;
  text = hash;
  embed_text = hash;
  page_start = some 1;
  page_end = some 2;
}

abbrev parents : List Piece
parents = piece "ab" "" ∷ []

abbrev children : List Piece
children = piece "b" "ab" ∷ piece "a" "ab" ∷ []

abbrev zeros : List String → List ℕ
zeros = map (λ t. 0)

abbrev backend : Backend ℕ
backend = record {
  fields = λ t. t ∷ [];
  join = λ ws. "";
  chunk_id = λ doc_id hash. hash;
  chunk = λ shards. ok (parents, piece "a" "ab" ∷ children);
  model = some (ok (record { ctx_budget = 1900; batch_size = 48 }));
  embed = λ batch. ok (zeros batch);
  retries = some 1;
}

abbrev book : Document
book = record {
  id = 7;
  collection_id = none;
  source_uri = "s3://raw/7.pdf";
  page_count = some 8;
  mime_type = some "application/pdf";
  state = parsing;
  error_code = none;
  error_detail = none;
  total_shards = some 1;
  shards_done = 1;
  shards_failed = pos 0;
  chunk_count = none;
  completeness = none;
  updated_at = 100;
  ready_at = none;
}

abbrev stale : Chunk
stale = record {
  id = "old";
  doc_id = 7;
  chunk_hash = "old";
  parent_id = none;
  is_parent = false;
  seq = 0;
  page_start = none;
  page_end = none;
  text = "old";
}

abbrev tables : Tables
tables = record {
  documents = book ∷ [];
  shards = record (fresh_shard 7 0 1 8) { state = done } ∷ [];
  chunks = stale ∷ [];
  events = [];
}

abbrev world : World
world = record { tables = tables; sent = [] }

write_chunks_written_example :
    (t' : Tables) × (write_chunks 200 (λ h. h) 7 parents children tables ≡ ok t')
    × Written (λ h. h) 7 parents children tables t'
write_chunks_written_example =
    write_chunks_written 200 (λ h. h) 7 parents children tables book (unfold get_document in refl)
      (λ h k. refl) (λ h. refl) (unfold distinct_from in refl)

zeros-length : (batch : List String) → length (zeros batch) ≡ length batch
zeros-length [] = refl
zeros-length (t ∷ ts) = ap suc (zeros-length ts)

embed_document-Embedded_example :
    let (ps, cs) = settle_chunks parents (piece "a" "ab" ∷ children) in
    Embedded backend
      (record { ctx_budget = 1900; batch_size = 48 })
      7
      ps
      cs
      world
      (embed_document backend 200 book world)
embed_document-Embedded_example =
    embed_document-Embedded backend 200 book world parents children (piece "a" "ab")
      (record { ctx_budget = 1900; batch_size = 48 }) (unfold get_document in refl) refl
      (unfold settled_shards in refl) refl refl (λ batch. (zeros batch, refl, zeros-length batch))
      (λ h k. refl) (λ h. refl)
