-- ===== src/Store/Documents.antt =====
-- internal/store/documents.go: the statements on documents, and the deletes of a retry.
use Prim.Native.String.{String}
use lybrix.Base.{
  ℕ, ◌≡◌, arith, Bool, true, false, not, ◌&&◌, Option, none, some, List, [], ◌∷◌, ltb, ◌==◌,
  if◌then◌else◌, filter_if,
}
use lybrix.Base.Int.{pos, ◌+ℤ◌, leb_ℤ}
use lybrix.Store.Rows.{
  Document, DocState, Detail, Tables, Chunk, Shard, uploaded, embedding, ready, failed, partial,
  archived, update_where, has_id, of_doc,
}

unfoldable pub find_document : ℕ → List Document → Option Document
find_document doc_id [] = none
find_document doc_id (d ∷ ds) =
    let rest = find_document doc_id ds in if has_id doc_id d then some d else rest

-- GetDocument and GetDocumentTx.
unfoldable pub get_document : ℕ → Tables → Option Document
unfolding find_document
get_document doc_id t = find_document doc_id t.documents

-- SetDocState: the error columns are written on every transition.
unfoldable pub set_doc_state : ℕ → ℕ → DocState → Option String → Option Detail → Tables → Tables
set_doc_state now doc_id state error_code error_detail t = record t {
  documents =
      update_where (has_id doc_id)
        (λ d. record d {
          state = state;
          error_code = error_code;
          error_detail = error_detail;
          updated_at = now;
        })
        t.documents;
}

-- updateSplitMeta of internal/service/splitter.go.
unfoldable pub update_split_meta : ℕ → ℕ → ℕ → ℕ → Tables → Tables
update_split_meta now doc_id total_shards page_count t = record t {
  documents =
      update_where (has_id doc_id)
        (λ d. record d {
          total_shards = some total_shards;
          page_count = some page_count;
          updated_at = now;
        })
        t.documents;
}

abbrev pub total_of : Option ℕ → ℕ
total_of none = 0
total_of (some n) = n

-- BookSettled.
unfoldable pub book_settled : Document → Bool
book_settled d =
    let total = total_of d.total_shards in
    ltb 0 total && leb_ℤ (pos total) (pos d.shards_done +ℤ d.shards_failed)

-- ResetDocForFullRetry.
unfoldable pub reset_doc_for_full_retry : ℕ → ℕ → Tables → Tables
reset_doc_for_full_retry now doc_id t = record t {
  chunks = filter_if (λ (c : Chunk). not (c.doc_id == doc_id)) t.chunks;
  shards = filter_if (λ (s : Shard). not (of_doc doc_id s)) t.shards;
  documents =
      update_where (has_id doc_id)
        (λ d. record d {
          state = uploaded;
          total_shards = none;
          shards_done = 0;
          shards_failed = pos 0;
          chunk_count = none;
          completeness = none;
          error_code = none;
          error_detail = none;
          ready_at = none;
          updated_at = now;
        })
        t.documents;
}

-- ResetDocForRechunk: the shards stay.
unfoldable pub reset_doc_for_rechunk : ℕ → ℕ → Tables → Tables
reset_doc_for_rechunk now doc_id t = record t {
  chunks = filter_if (λ (c : Chunk). not (c.doc_id == doc_id)) t.chunks;
  documents =
      update_where (has_id doc_id)
        (λ d. record d {
          state = embedding;
          chunk_count = none;
          completeness = none;
          error_code = none;
          error_detail = none;
          ready_at = none;
          updated_at = now;
        })
        t.documents;
}

-- `state NOT IN ('ready','failed','archived','partial')`.
abbrev pub is_terminal : DocState → Bool
is_terminal ready = true
is_terminal failed = true
is_terminal archived = true
is_terminal partial = true
is_terminal _ = false

-- DeleteDocument: shards and chunks go with the row by the schema's cascade.
unfoldable pub delete_document : ℕ → Tables → Tables
delete_document doc_id t = record t {
  documents = filter_if (λ (d : Document). not (has_id doc_id d)) t.documents;
  shards = filter_if (λ (s : Shard). not (of_doc doc_id s)) t.shards;
  chunks = filter_if (λ (c : Chunk). not (c.doc_id == doc_id)) t.chunks;
}

-- A document that an update has changed, but for its id, is found where it was.
pub find_document-update :
    (doc_id : ℕ) (f : Document → Document) (ds : List Document) (d : Document)
    → ((e : Document) → (f e).id ≡ e.id)
    → find_document doc_id ds ≡ some d
    → (d.id ≡ doc_id) × (find_document doc_id (update_where (has_id doc_id) f ds) ≡ some (f d))
unfolding find_document
find_document-update doc_id f [] d keeps h = absurd (ground (arith, h))
find_document-update doc_id f (e ∷ ds) d keeps h =
    ground (arith, keeps e, h, find_document-update doc_id f ds d keeps)
