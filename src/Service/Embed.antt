-- ===== src/Service/Embed.antt =====
-- internal/service/embedder.go: HandleEmbed, and the chunk statements of internal/store/chunks.go that
-- it runs. The chunker, the object store, the embedding backend and the retry counter in Redis are
-- parameters, in `Backend`; a vector is any value.
pub mod Chunking
pub mod Inserted
pub mod Written
pub mod Complete
mod Samples
use Prim.Native.String.{String}
use text.Mathlib.Text.{◌==◌ as str_eq}
use lybrix.Base.{
  ℕ, ◌+◌, Bool, true, false, not, ◌&&◌, ◌||◌, Option, none, some, List, [], ◌∷◌, ◌++◌, ltb, leb,
  ◌==◌, if◌then◌else◌, length, map, any_of, filter_if, count_if,
}
use lybrix.Base.Results.{Result, ok, err, ◌>>=◌}
use lybrix.Errors.{code_text, pdf_corrupt, embed_dim_mismatch, doc_embed_failed, new_platform_error}
use lybrix.Embed.Chunks.{Piece, has_hash, hashes_of, settle_chunks, parent_of}
use lybrix.Embed.Batches.{is_empty, plan_batches, assemble_embedding_rows}
use lybrix.Store.Rows.{
  Document, DocState, Shard, Chunk, Tables, literal, embed_failed, is_done, of_doc,
}
use lybrix.Store.Documents.{get_document, set_doc_state, is_terminal}
use lybrix.Store.Shards.{StoreError, duplicate_key}
use lybrix.Store.Sweeps.{set_chunk_count_and_completeness}
use lybrix.Service.World.{
  World, HandlerError, missing_field, platform, local_error, store_error, Job, fail_doc_terminal,
}

pub record Model : Type 0 where
  pub ctx_budget : ℕ
  pub batch_size : ℕ

-- What the calls outside the code return.
pub record Backend (V : Type 0) : Type 0 where
  pub fields : String → List String
  pub join : List String → String
  -- DeterministicChunkID.
  pub chunk_id : ℕ → String → String
  -- Prefetch, Stitch and SplitParentChild on the done shards: the parents and the children.
  pub chunk : List Shard → Result String (List Piece × List Piece)
  -- ResolveCollectionModel with its client; none where no model is configured.
  pub model : Option (Result String Model)
  pub embed : List String → Result String (List V)
  -- The retry counter after INCR; none where Redis fails.
  pub retries : Option ℕ

-- ORDER BY page_start.
unfoldable pub insert_by_page : Shard → List Shard → List Shard
insert_by_page s [] = s ∷ []
insert_by_page s (r ∷ rs) =
    let rest = insert_by_page s rs in if leb s.page_start r.page_start then s ∷ r ∷ rs else r ∷ rest

unfoldable pub by_page : List Shard → List Shard
unfolding insert_by_page
by_page [] = []
by_page (s ∷ ss) = insert_by_page s (by_page ss)

-- SettledShards.
unfoldable pub settled_shards : ℕ → Tables → List Shard
unfolding by_page
settled_shards doc_id t =
    by_page (filter_if (λ (s : Shard). of_doc doc_id s && is_done s.state) t.shards)

-- A row of InsertParents or of InsertChunks.
abbrev pub parent_id_of : (String → String) → Option String → Option String
parent_id_of id_of none = none
parent_id_of id_of (some h) = some (id_of h)

abbrev pub chunk_row : (String → String) → ℕ → List String → Bool → Piece → Chunk
chunk_row id_of doc_id surviving is_parent c = record {
  id = id_of c.hash;
  doc_id = doc_id;
  chunk_hash = c.hash;
  parent_id = if is_parent then none else parent_id_of id_of (parent_of surviving c);
  is_parent = is_parent;
  seq = c.seq;
  page_start = c.page_start;
  page_end = c.page_end;
  text = c.text;
}

abbrev pub has_chunk : String → List Chunk → Bool
has_chunk id = any_of (λ (c : Chunk). str_eq c.id id)

abbrev pub has_row : ℕ → String → List Chunk → Bool
has_row doc_id hash = any_of (λ (c : Chunk). c.doc_id == doc_id && str_eq c.chunk_hash hash)

-- chunkUpsertSQL: a row of the same document and hash is left out by ON CONFLICT (doc_id, chunk_hash),
-- but another row with the same id breaks the primary key.
abbrev pub insert_row : Chunk → List Chunk → Result StoreError (List Chunk)
insert_row c chunks =
    if has_row c.doc_id c.chunk_hash chunks
    then ok chunks
    else if has_chunk c.id chunks
    then err duplicate_key
    else ok (chunks ++ c ∷ [])

-- The rows of copyChunksWithFallback one by one, where an error ends it. A COPY that succeeds adds the
-- same rows.
unfoldable pub insert_rows : List Chunk → List Chunk → Result StoreError (List Chunk)
insert_rows [] chunks = ok chunks
insert_rows (c ∷ rows) chunks = insert_row c chunks >>= insert_rows rows

-- The `seen` of InsertParents and of InsertChunks.
unfoldable pub unseen_rows : List String → List Chunk → List Chunk
unseen_rows seen [] = []
unseen_rows seen (c ∷ rows) =
    let rest = unseen_rows (c.id ∷ seen) rows in if has_hash c.id seen then rest else c ∷ rest

-- Phase W: the old chunks go, the parents and then the children are inserted, and the document gets
-- its count. An error rolls the whole of it back.
unfoldable pub write_chunks :
    ℕ → (String → String) → ℕ → List Piece → List Piece → Tables → Result StoreError Tables
unfolding insert_rows unseen_rows
write_chunks now id_of doc_id ps cs t = do
  let others = filter_if (λ (c : Chunk). not (c.doc_id == doc_id)) t.chunks
  with_parents ←
      insert_rows (unseen_rows [] (map (chunk_row id_of doc_id (hashes_of ps) true) ps)) others
  chunks ←
      insert_rows (unseen_rows [] (map (chunk_row id_of doc_id (hashes_of ps) false) cs))
        with_parents
  ok (set_chunk_count_and_completeness now doc_id (length cs) (record t { chunks = chunks }))

-- The world, and the vectors that CopyEmbeddings has written to the chunks' rows.
pub record Outcome (V : Type 0) : Type 0 where
  pub world : World
  pub vectors : List (String × V)
  pub error : Option HandlerError

abbrev pub embed_max_attempts : ℕ
embed_max_attempts = 5

abbrev attempts_of : Option ℕ → ℕ
attempts_of none = 1
attempts_of (some n) = n

module _ {V : Type 0} where
  abbrev pub without_vectors : World × Option HandlerError → Outcome V
  without_vectors (w, e) = record { world = w; vectors = []; error = e }

  -- Phase E: the first batch that fails ends it.
  unfoldable pub embed_all : Backend V → List (List String) → Result String (List (List V))
  embed_all b [] = ok []
  embed_all b (batch ∷ batches) =
      let rest = embed_all b batches in
      elim (b.embed batch) [
        | err e ↦ err e
        | ok vs ↦ elim rest [ err e ↦ err e | ok vectors ↦ ok (vs ∷ vectors) ]
      ]

  -- capped: under the cap the cause is returned; at the cap the document fails, and the job is
  -- acknowledged.
  unfoldable pub capped : Backend V → ℕ → ℕ → String → World → World × Option HandlerError
  capped b now doc_id cause w =
      let attempts = attempts_of b.retries in
      if ltb attempts embed_max_attempts then (w, some (local_error cause)) else (
        record w {
          tables =
              set_doc_state now doc_id DocState.failed (some (code_text doc_embed_failed))
                (some (embed_failed attempts cause)) w.tables;
        },
        none,
      )

  abbrev pub written : World → List (String × V) → Result StoreError Tables → Outcome V
  written w vectors (err e) = without_vectors (w, some (store_error e))
  written w vectors (ok tables) = record {
    world = record w { tables = tables };
    vectors = vectors;
    error = none;
  }

  abbrev pub with_vectors :
      Backend V
      → ℕ
      → ℕ
      → List Piece
      → List Piece
      → List (List String)
      → World
      → Result String (List (List V))
      → Outcome V
  with_vectors b now doc_id ps cs batches w (err e) = without_vectors (capped b now doc_id e w)
  with_vectors b now doc_id ps cs batches w (ok vectors) =
      written w
        (assemble_embedding_rows (map (λ (c : Piece). b.chunk_id doc_id c.hash) cs) batches vectors)
        (write_chunks now (b.chunk_id doc_id) doc_id ps cs w.tables)

  abbrev pub with_model :
      Backend V → ℕ → ℕ → List Piece → List Piece → World → Option (Result String Model) → Outcome V
  with_model b now doc_id ps cs w none = without_vectors (
    w,
    some (
        platform (new_platform_error embed_dim_mismatch (literal "no embedding model configured"))),
  )
  with_model b now doc_id ps cs w (some (err e)) = without_vectors (w, some (local_error e))
  with_model b now doc_id ps cs w (some (ok m)) =
      let batches =
        plan_batches b.fields b.join m.ctx_budget m.batch_size
          (map (λ (c : Piece). c.embed_text) cs) in
      with_vectors b now doc_id ps cs batches w (embed_all b batches)

  abbrev no_chunks : ℕ → ℕ → World → Outcome V
  no_chunks now doc_id w = without_vectors (
      fail_doc_terminal now doc_id pdf_corrupt
        (literal "stitch/chunk produced no chunks on a settled book") w)

  -- The code checks for no chunks before the deduplication and after it.
  abbrev pub with_chunks :
      Backend V → ℕ → ℕ → World → Result String (List Piece × List Piece) → Outcome V
  with_chunks b now doc_id w (err e) = without_vectors (w, some (local_error e))
  with_chunks b now doc_id w (ok (parents, children)) =
      let (ps, cs) = settle_chunks parents children in
      if is_empty children && is_empty parents
      then no_chunks now doc_id w
      else if is_empty cs && is_empty ps
      then no_chunks now doc_id w
      else with_model b now doc_id ps cs w b.model

  unfoldable pub embed_document : Backend V → ℕ → Document → World → Outcome V
  unfolding settle_chunks plan_batches embed_all capped write_chunks
  embed_document b now doc w =
      let rows = settled_shards doc.id w.tables in
      if is_terminal doc.state
      then without_vectors (w, none)
      else if is_empty rows
      then without_vectors
          (fail_doc_terminal now doc.id pdf_corrupt (literal "no parsed shards to embed") w)
      else with_chunks b now doc.id w (b.chunk rows)

  -- HandleEmbed.
  unfoldable pub handle_embed : Backend V → ℕ → Job → World → Outcome V
  unfolding embed_document
  handle_embed b now job w = elim job.doc_id [
    | none ↦ without_vectors (w, some (missing_field "doc_id"))
    | some doc_id ↦ elim (get_document doc_id w.tables) [
      | none ↦ without_vectors (w, none)
      | some doc ↦ embed_document b now doc w
    ]
  ]
