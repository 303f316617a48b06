-- ===== src/Service/Embed/Written.antt =====
-- What the embedder's write transaction leaves in the tables.
use Prim.Native.String.{String}
use text.Mathlib.Text.{◌==◌ as str_eq}
use lybrix.Base.{
  ℕ, ◌≡◌, refl, ap, sym, ◌∙◌, Bool, true, false, not, ◌&&◌, some, List, [], ◌∷◌, ◌++◌, ◌==◌,
  if◌then◌else◌, arith, length, map, filter_if, count_if, count_if-append,
}
use lybrix.Base.Results.{Result, ok, err, ◌>>=◌}
use lybrix.Embed.Chunks.{Piece, has_hash, hashes_of}
use lybrix.Embed.Chunks.Distinct.{distinct_from}
use lybrix.Store.Rows.{Document, Chunk, Tables}
use lybrix.Store.Documents.{find_document-update, get_document}
use lybrix.Store.Sweeps.{completed, set_chunk_count_and_completeness}
use lybrix.Service.Embed.{chunk_row, insert_rows, unseen_rows, write_chunks}
use lybrix.Service.Embed.Inserted.{
  ids_of, doc_hashes, hashes_of_rows, insert_rows-distinct, unseen_rows-distinct,
  insert_rows-append, distinct_from-prefix, distinct_from-suffix, distinct_from-map, rows-ids,
  map-append, rows-hashes, rows-AreOf, append-AreOf,
}

abbrev pub others_of : ℕ → List Chunk → List Chunk
others_of doc_id = filter_if (λ (c : Chunk). not (c.doc_id == doc_id))

-- The chunks that RepairDocCounters counts.
abbrev pub children_of : ℕ → List Chunk → ℕ
children_of doc_id = count_if (λ (c : Chunk). c.doc_id == doc_id && not c.is_parent)

others-children : (doc_id : ℕ) (cs : List Chunk) → children_of doc_id (others_of doc_id cs) ≡ 0
others-children doc_id [] = refl
others-children doc_id (c ∷ cs) = ground (arith, others-children doc_id cs)

rows-children :
    (id_of : String → String) (doc_id : ℕ) (surviving : List String) (is_parent : Bool)
    (cs : List Piece)
    → children_of doc_id (map (chunk_row id_of doc_id surviving is_parent) cs)
      ≡ (if is_parent then 0 else length cs)
rows-children id_of doc_id surviving true [] = refl
rows-children id_of doc_id surviving false [] = refl
rows-children id_of doc_id surviving true (c ∷ cs) =
    ground (arith, rows-children id_of doc_id surviving true cs)
rows-children id_of doc_id surviving false (c ∷ cs) =
    ground (arith, rows-children id_of doc_id surviving false cs)

others-hashes : (doc_id : ℕ) (cs : List Chunk) → doc_hashes doc_id (others_of doc_id cs) ≡ []
others-hashes doc_id [] = refl
others-hashes doc_id (c ∷ cs) = ground (arith, others-hashes doc_id cs)

bind_assoc :
    {E A B C : Type 0} (m : Result E A) (f : A → Result E B) (g : B → Result E C)
    → (m >>= (λ a. f a >>= g)) ≡ ((m >>= f) >>= g)
bind_assoc (ok a) f g = refl
bind_assoc (err e) f g = refl

-- The rows of pieces with distinct ids are all new to their insert.
rows-unseen :
    (id_of : String → String) (doc_id : ℕ) (surviving : List String) (is_parent : Bool)
    (cs : List Piece)
    → distinct_from [] (map id_of (hashes_of cs)) ≡ true
    → unseen_rows [] (map (chunk_row id_of doc_id surviving is_parent) cs)
      ≡ map (chunk_row id_of doc_id surviving is_parent) cs
rows-unseen id_of doc_id surviving is_parent cs d =
    unseen_rows-distinct [] (map (chunk_row id_of doc_id surviving is_parent) cs)
      (ap (distinct_from []) (rows-ids id_of doc_id surviving is_parent cs) ∙ d)

module _ (id_of : String → String) (doc_id : ℕ) (ps cs : List Piece) (chunks : List Chunk)
    (inj : (h k : String) → str_eq (id_of h) (id_of k) ≡ str_eq h k)
    (free : (h : String) → has_hash (id_of h) (ids_of (others_of doc_id chunks)) ≡ false)
    (once : distinct_from [] (hashes_of ps ++ hashes_of cs) ≡ true) where
  abbrev parents : List Chunk
  parents = map (chunk_row id_of doc_id (hashes_of ps) true) ps

  abbrev children : List Chunk
  children = map (chunk_row id_of doc_id (hashes_of ps) false) cs

  all_ids : ids_of (parents ++ children) ≡ map id_of (hashes_of ps ++ hashes_of cs)
  all_ids =
      map-append (λ (c : Chunk). c.id) parents children
      ∙ (ap (λ l. l ++ ids_of children) (rows-ids id_of doc_id (hashes_of ps) true ps)
          ∙ (ap (λ l. map id_of (hashes_of ps) ++ l) (rows-ids id_of doc_id (hashes_of ps) false cs)
              ∙ sym (map-append id_of (hashes_of ps) (hashes_of cs))))

  all_hashes : hashes_of_rows (parents ++ children) ≡ hashes_of ps ++ hashes_of cs
  all_hashes =
      map-append (λ (c : Chunk). c.chunk_hash) parents children
      ∙ (ap (λ l. l ++ hashes_of_rows children) (rows-hashes id_of doc_id (hashes_of ps) true ps)
          ∙ ap (λ l. hashes_of ps ++ l) (rows-hashes id_of doc_id (hashes_of ps) false cs))

  ids_distinct : distinct_from [] (map id_of (hashes_of ps) ++ map id_of (hashes_of cs)) ≡ true
  ids_distinct =
      ap (distinct_from []) (sym (map-append id_of (hashes_of ps) (hashes_of cs)))
      ∙ distinct_from-map id_of [] [] (hashes_of ps ++ hashes_of cs) inj (λ h. refl) once

  rows_added :
      (insert_rows (unseen_rows [] parents) (others_of doc_id chunks)
        >>= insert_rows (unseen_rows [] children))
      ≡ ok (others_of doc_id chunks ++ (parents ++ children))
  rows_added =
      let others = others_of doc_id chunks in
      rw
        (
          rows-unseen id_of doc_id (hashes_of ps) true ps (
              distinct_from-prefix [] (map id_of (hashes_of ps)) (map id_of (hashes_of cs))
                ids_distinct),
          rows-unseen id_of doc_id (hashes_of ps) false cs (
              distinct_from-suffix [] (map id_of (hashes_of ps)) (map id_of (hashes_of cs))
                ids_distinct),
        )
        (sym (insert_rows-append parents children others)
          ∙ insert_rows-distinct doc_id (parents ++ children) others
              (append-AreOf doc_id parents children (rows-AreOf id_of doc_id (hashes_of ps) true ps)
                (rows-AreOf id_of doc_id (hashes_of ps) false cs))
              (rw all_ids (
                distinct_from-map id_of [] (ids_of others) (hashes_of ps ++ hashes_of cs) inj free
                  once))
              (rw (all_hashes, others-hashes doc_id chunks) once))

  children_counted :
      children_of doc_id (others_of doc_id chunks ++ (parents ++ children)) ≡ length cs
  children_counted = omega (
    arith,
    count_if-append (λ (c : Chunk). c.doc_id == doc_id && not c.is_parent) (others_of doc_id chunks)
        (parents ++ children),
    count_if-append (λ (c : Chunk). c.doc_id == doc_id && not c.is_parent) parents children,
    others-children doc_id chunks,
    rows-children id_of doc_id (hashes_of ps) true ps,
    rows-children id_of doc_id (hashes_of ps) false cs,
  )

-- What the write of a document's parents and children leaves.
pub record Written (id_of : String → String) (doc_id : ℕ) (ps cs : List Piece)
    (before after : Tables) : Type 0 where
  pub chunks :
      after.chunks
      ≡ others_of doc_id before.chunks
        ++ (map (chunk_row id_of doc_id (hashes_of ps) true) ps
            ++ map (chunk_row id_of doc_id (hashes_of ps) false) cs)
  pub doc : Document
  pub found : get_document doc_id after ≡ some doc
  pub stored : doc.chunk_count ≡ some (children_of doc_id after.chunks)
  pub counted : children_of doc_id after.chunks ≡ length cs

-- For a document of the tables: if distinct hashes have distinct ids, and no chunk of another
-- document has such an id, then the write of parents and children with distinct hashes succeeds and
-- replaces the document's chunks by exactly their rows, the parents first: no insert is skipped or
-- breaks a key. The chunk count that the document has then is the number of its child rows, which is
-- the number of the children.
pub write_chunks_written :
    (now : ℕ) (id_of : String → String) (doc_id : ℕ) (ps cs : List Piece) (t : Tables)
    (d : Document)
    → get_document doc_id t ≡ some d
    → ((h k : String) → str_eq (id_of h) (id_of k) ≡ str_eq h k)
    → ((h : String) → has_hash (id_of h) (ids_of (others_of doc_id t.chunks)) ≡ false)
    → distinct_from [] (hashes_of ps ++ hashes_of cs) ≡ true
    → (t' : Tables) × (write_chunks now id_of doc_id ps cs t ≡ ok t')
      × Written id_of doc_id ps cs t t'
unfolding write_chunks set_chunk_count_and_completeness get_document
write_chunks_written now id_of doc_id ps cs t d known inj free once =
    let parents = map (chunk_row id_of doc_id (hashes_of ps) true) ps in
    let children = map (chunk_row id_of doc_id (hashes_of ps) false) cs in
    let others = others_of doc_id t.chunks in
    let write = λ (chunks : List Chunk).
      set_chunk_count_and_completeness now doc_id (length cs) (record t { chunks = chunks }) in
    let count = children_counted id_of doc_id ps cs t.chunks inj free once in
    let (same, found) =
      find_document-update doc_id (completed now (length cs)) t.documents d (λ e. refl) known in
    (
      write (others ++ (parents ++ children)),
      bind_assoc (insert_rows (unseen_rows [] parents) others)
            (insert_rows (unseen_rows [] children)) (λ chunks. ok (write chunks))
          ∙ ap (λ m. m >>= (λ chunks. ok (write chunks)))
              (rows_added id_of doc_id ps cs t.chunks inj free once),
      record {
        chunks = refl;
        doc = completed now (length cs) d;
        found = found;
        stored = ap some (sym count);
        counted = count;
      },
    )
